-- ===== src/Tests/Services.antt =====
-- A kernel with signals and a timer, a worker that answers twice and stops, and chunks of a request.
use libsbox.Base.{
  ℕ, ◌<◌, ◌≤◌, ◌≡◌, ◌⊎◌, inl, inr, refl, arith, pos, true, false, List, [], ◌∷◌, ◌++◌, map, none,
  some, ◌==◌, ltb, if◌then◌else◌, codes, ok, err, ◌*◌, ◌+◌, ap, replicate,
}
use libsbox.Transfer.{bytes, end_of_stream, failed, fill, take_chunk, receive_request}
use libsbox.Transfer.Request.{receive_request_lem, receive_request-c_str, joined}
use libsbox.Transfer.Chunk.{until_nul}
use libsbox.Signals.{
  Kernel, IsLawful, is_settable, Action, Timer, Signals, SignalAction, standard, default, sigterm,
  signal_actions, at, start_timer, set_standard_handler_restart, invalid_signum,
}
use libsbox.Signals.Actions.{Acts, only, set_standard_handler_restart_lem}
use libsbox.Signals.Interval.{every, start_timer_lem}
use libsbox.Worker.Serve.{Run, from_transfer, Turn, Serving, serve, Startup}
use libsbox.Worker.Serve.Stop.{Serves, Answers, last, more, events, Left, serve-Left}

pub record Dispositions : Type 0 where
  pub actions : ℕ → Action
  pub alarm : Timer

abbrev pub kernel : Kernel
kernel = record {
  State = Dispositions;
  action = λ s n. s.actions n;
  timer = λ s. s.alarm;
  sigaction = λ s n a.
      if is_settable n
      then some (record s { actions = λ q. if q == n then a else s.actions q })
      else none;
  setitimer = λ s t. if ltb t.value_usec 1_000_000 then some (record s { alarm = t }) else none;
}

kernel-IsLawful : IsLawful kernel
kernel-IsLawful = record {
  sigaction-action = λ s n a can. (
    record s { actions = λ q. if q == n then a else s.actions q },
    rw can refl,
    (λ q. refl),
    refl,
  );
  setitimer-timer = λ s t small short. (record s { alarm = t }, rw short refl, refl, (λ q. refl));
  setitimer-refused = λ s t large. rw large refl;
}

abbrev pub initial : Signals kernel
initial = record {
  kernel = record {
    actions = λ n. record { handler = standard default; restart = false; siginfo = false };
    alarm = every 0;
  };
  restarting = λ a. false;
}

start_timer_lem_example :
    ((15 < 1000) × (kernel.timer (start_timer kernel 15 initial.kernel) ≡ every (15 * 1000)))
    ⊎ (1000 ≤ 15) × (start_timer kernel 15 initial.kernel ≡ initial.kernel)
start_timer_lem_example = start_timer_lem kernel kernel-IsLawful initial.kernel 15 (omega arith)

set_standard_handler_restart_lem_example :
    ((a : SignalAction) × (at signal_actions sigterm ≡ some a)
      × ((t : Signals kernel) × (set_standard_handler_restart kernel sigterm true initial ≡ ok t)
          × Acts kernel kernel-IsLawful initial t (only kernel kernel-IsLawful sigterm a) true))
    ⊎ (at signal_actions sigterm ≡ none)
      × (set_standard_handler_restart kernel sigterm true initial ≡ err (invalid_signum sigterm))
set_standard_handler_restart_lem_example =
    set_standard_handler_restart_lem kernel kernel-IsLawful sigterm true initial (λ a. refl)

-- A worker that echoes, and counts.
abbrev echo : ℕ → List ℕ → Run (List ℕ × ℕ)
echo n request = ok (request, n + 1)

abbrev buffer : List ℕ
buffer = replicate 1024 0

abbrev first : Turn
first = record {
  signal_at_accept = false;
  connection = some (bytes (codes "ab") ∷ bytes (99 ∷ 0 ∷ []) ∷ []);
  buf = buffer;
  signal_later = false;
  sent = pos 3;
  closed = true;
}

-- A SIGTERM comes while the second request is processed.
abbrev second : Turn
second = record {
  signal_at_accept = false;
  connection = some (bytes (codes "d") ∷ end_of_stream ∷ []);
  buf = buffer;
  signal_later = true;
  sent = pos 1;
  closed = true;
}

abbrev serving : Serving kernel ℕ echo
serving = record { signals = initial; terminated = false; app = 0; trace = [] }

abbrev startup : Startup
startup = record { pgrp_set = true; death_signal_set = true; parent = 7; schema_valid = true }

first_answered : Answers ℕ echo 0 first (codes "abc") (codes "abc") 1
unfolding receive_request take_chunk fill
first_answered = record {
  chunks = bytes (codes "ab") ∷ bytes (99 ∷ 0 ∷ []) ∷ [];
  connected = refl;
  received = ap from_transfer (
      receive_request-c_str buffer (codes "abc") (codes "ab" ∷ (99 ∷ 0 ∷ []) ∷ []) [] refl
        (omega arith, (omega arith, tt)) (omega arith, (omega arith, (omega arith, tt))) refl);
  processed = refl;
  sent = refl;
  closed = refl;
}

second_answered : Answers ℕ echo 1 second (codes "d") (codes "d") 2
second_answered = record {
  chunks = bytes (codes "d") ∷ end_of_stream ∷ [];
  connected = refl;
  received = ap from_transfer (
      receive_request_lem buffer (codes "d" ∷ []) (end_of_stream ∷ []) refl (omega arith, tt)
        (inr ([], refl)));
  processed = refl;
  sent = refl;
  closed = refl;
}

two_turns :
    Serves ℕ echo 0
      (first ∷ second ∷ first ∷ [])
      ((codes "abc", codes "abc") ∷ (codes "d", codes "d") ∷ [])
      2
two_turns = more first first_answered refl (last second (first ∷ []) second_answered refl)

serve-Left_example :
    (t : Serving kernel ℕ echo) × (serve kernel ℕ echo startup (first ∷ second ∷ first ∷ []) serving
      ≡ ok t)
    × Left kernel kernel-IsLawful ℕ echo serving t 2 (events two_turns)
serve-Left_example =
    serve-Left kernel kernel-IsLawful ℕ echo startup serving
      (record { pgrp_set = refl; death_signal_set = refl; has_parent = refl; schema_valid = refl })
      refl (λ a. refl) two_turns

receive_request_lem_example :
    receive_request buffer [] (map bytes (codes "ab" ∷ (99 ∷ 0 ∷ []) ∷ []) ++ (failed ∷ []))
    ≡ ok (until_nul (joined (codes "ab" ∷ (99 ∷ 0 ∷ []) ∷ [])))
receive_request_lem_example =
    receive_request_lem buffer (codes "ab" ∷ (99 ∷ 0 ∷ []) ∷ []) (failed ∷ []) refl
      (omega arith, (omega arith, tt)) (inl (omega arith))

receive_request-c_str_example :
    receive_request buffer [] (map bytes (codes "ab" ∷ (99 ∷ 0 ∷ []) ∷ []) ++ []) ≡ ok (codes "abc")
receive_request-c_str_example =
    receive_request-c_str buffer (codes "abc") (codes "ab" ∷ (99 ∷ 0 ∷ []) ∷ []) [] refl
      (omega arith, (omega arith, tt)) (omega arith, (omega arith, (omega arith, tt))) refl
