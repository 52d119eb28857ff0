-- ===== src/Worker/Serve/Stop.antt =====
-- How Worker::serve of src/worker.cpp answers, and how it stops.
use libsbox.Base.{
  ℕ, ◌≡◌, refl, sym, ap, ◌∙◌, inl, inr, pos, arith, Bool, true, false, ◌||◌, List, [], ◌∷◌, ◌++◌,
  append_assoc, none, some, length, ok, not, ltb_ℤ, ◌==◌,
}
use mathlib.Core.Option.{some-injective, none-ne-some}
use libsbox.Transfer.{Received, receive_request}
use libsbox.Signals.{
  Kernel, IsLawful, Signals, terminate, callback, sigchld, sigterm, set_sigchld_action,
  set_standard_handler_restart,
}
use libsbox.Signals.Actions.{Clean, acting, set_standard_handler_restart_lem}
use libsbox.Worker.Serve.{
  Run, Turn, Event, accepting, answered, Startup, from_transfer, Serving, answer, after_accept,
  round, serve_loop, serve,
}

module _ (W : Type 0) (process : W → List ℕ → Run (List ℕ × W)) where
  -- A round in which a connection comes and no call fails.
  pub record Answers (w : W) (turn : Turn) (request response : List ℕ) (w' : W) : Type 0 where
    pub chunks : List Received
    pub connected : turn.connection ≡ some chunks
    pub received : from_transfer (receive_request turn.buf [] chunks) ≡ ok request
    pub processed : process w request ≡ ok (response, w')
    pub sent : turn.sent ≡ pos (length response)
    pub closed : turn.closed ≡ true

  -- Rounds in which no call fails, up to the first SIGTERM; later turns are arbitrary.
  pub data Serves : W → List Turn → List (List ℕ × List ℕ) → W → Type 0 where
    interrupted :
        {w : W} (turn : Turn) (rest : List Turn)
        → turn.connection ≡ none
        → turn.signal_at_accept ≡ true
        → Serves w (turn ∷ rest) [] w
    last :
        {w w' : W} {q r : List ℕ} (turn : Turn) (rest : List Turn)
        → Answers w turn q r w'
        → (turn.signal_at_accept || turn.signal_later) ≡ true
        → Serves w (turn ∷ rest) ((q, r) ∷ []) w'
    more :
        {w w' w'' : W} {q r : List ℕ} (turn : Turn) {rest : List Turn} {qs : List (List ℕ × List ℕ)}
        → Answers w turn q r w'
        → (turn.signal_at_accept || turn.signal_later) ≡ false
        → Serves w' rest qs w''
        → Serves w (turn ∷ rest) ((q, r) ∷ qs) w''

-- A SIGTERM interrupts accept, and nothing of the answer.
abbrev pub event_pair : List ℕ → List ℕ → List Event
event_pair q r = accepting (acting terminate false) ∷ answered (acting terminate true) q r ∷ []

abbrev pub events :
    {W : Type 0} {process : W → List ℕ → Run (List ℕ × W)} {w w' : W} {turns : List Turn}
    {qs : List (List ℕ × List ℕ)}
    → Serves W process w turns qs w'
    → List Event
events (interrupted turn rest _ _) = accepting (acting terminate false) ∷ []
events (last {q = q} {r = r} turn rest _ _) = event_pair q r
events (more {q = q} {r = r} turn _ _ later) = event_pair q r ++ events later

sent_lem : (n : ℕ) → not (ltb_ℤ (pos n) (pos 0) || not (n == n)) ≡ true
sent_lem n = ground arith

module _ (K : Kernel) (lawful : IsLawful K) (W : Type 0)
    (process : W → List ℕ → Run (List ℕ × W)) where
  -- The handler of SIGTERM is terminate_handler, with the flag as set.
  sigterm_lem :
      (restart : Bool) (s : Signals K)
      → Clean K lawful s
      → (g : Signals K) × (set_standard_handler_restart K sigterm restart s ≡ ok g)
        × Clean K lawful g
        × (K.action g.kernel sigterm ≡ acting terminate restart)
  sigterm_lem restart s clean =
      elim (set_standard_handler_restart_lem K lawful sigterm restart s clean) [
        | inl (a, e, (g, ran, acts)) ↦
            let is_terminate : terminate ≡ a = some-injective _ _ e in
            (
              g,
              ran,
              acts.clean,
              acts.actions sigterm ∙ ap (λ b. acting b restart) (sym is_terminate),
            )
        | inr (e, _) ↦ absurd (none-ne-some _ (sym e))
      ]

  answer_lem :
      {q r : List ℕ} {w' : W} (turn : Turn) (s : Serving K W process)
      → (a : Answers W process s.app turn q r w') → Clean K lawful s.signals
      → (g : Signals K) × Clean K lawful g
        × (answer K W process turn a.chunks s
            ≡ ok (record {
              signals = g;
              terminated = s.terminated || turn.signal_later;
              app = w';
              trace = s.trace ++ (answered (acting terminate true) q r ∷ []);
            }))
  unfolding answer
  answer_lem {q} {r} {w'} turn s a clean =
      let (g, ran, cleaned, acts) = sigterm_lem true s.signals clean in
      (
        g,
        cleaned,
        rw (ran, a.received, a.processed, a.sent, a.closed, sent_lem (length r), acts) refl,
      )

  abbrev after_round :
      Turn → Serving K W process → Signals K → W → List ℕ → List ℕ → Serving K W process
  after_round turn s g w' q r = record {
    signals = g;
    terminated = (s.terminated || turn.signal_at_accept) || turn.signal_later;
    app = w';
    trace =
        (s.trace ++ (accepting (acting terminate false) ∷ []))
        ++ (answered (acting terminate true) q r ∷ []);
  }

  round_lem :
      {q r : List ℕ} {w' : W} (turn : Turn) (s : Serving K W process)
      → Answers W process s.app turn q r w'
      → Clean K lawful s.signals
      → (g : Signals K) × Clean K lawful g
        × (round K W process turn s ≡ ok (false, after_round turn s g w' q r))
  unfolding round after_accept
  round_lem turn s a clean =
      let (g1, ran1, clean1, acts1) = sigterm_lem false s.signals clean in
      let (g2, clean2, ran2) =
        answer_lem turn
          (record s {
            signals = g1;
            terminated = s.terminated || turn.signal_at_accept;
            trace = s.trace ++ (accepting (acting terminate false) ∷ []);
          })
          (record {
            chunks = a.chunks;
            connected = a.connected;
            received = a.received;
            processed = a.processed;
            sent = a.sent;
            closed = a.closed;
          })
          clean1 in
      (g2, clean2, rw (ran1, a.connected, acts1, ran2) refl)

  serve_loop-round :
      (turn : Turn) (rest : List Turn) (s t : Serving K W process)
      → s.terminated ≡ false
      → round K W process turn s ≡ ok (false, t)
      → serve_loop K W process (turn ∷ rest) s ≡ serve_loop K W process rest t
  unfolding serve_loop
  serve_loop-round turn rest s t going ran = rw (ran, going) refl

  serve_loop-stopped :
      (turns : List Turn) (s : Serving K W process)
      → s.terminated ≡ true
      → serve_loop K W process turns s ≡ ok s
  unfolding serve_loop
  serve_loop-stopped [] s e = rw e refl
  serve_loop-stopped (turn ∷ rest) s e = rw e refl

  -- The state in which the loop is left.
  pub record Left (s t : Serving K W process) (w : W) (log : List Event) : Type 0 where
    pub terminated : t.terminated ≡ true
    pub app : t.app ≡ w
    pub trace : t.trace ≡ s.trace ++ log

  pub serve_loop-Left :
      {turns : List Turn} {qs : List (List ℕ × List ℕ)} {w' : W} (s : Serving K W process)
      → s.terminated ≡ false
      → Clean K lawful s.signals
      → (run : Serves W process s.app turns qs w')
      → (t : Serving K W process) × (serve_loop K W process turns s ≡ ok t)
        × Left s t w' (events run)
  unfolding serve_loop round after_accept
  serve_loop-Left s going clean (interrupted turn rest refused signal) =
      let (g, ran, cleaned, acts) = sigterm_lem false s.signals clean in
      (
        record s {
          signals = g;
          terminated = true;
          trace = s.trace ++ (accepting (acting terminate false) ∷ []);
        },
        rw (going, ran, refused, signal, acts) refl,
        record { terminated = refl; app = refl; trace = refl },
      )
  serve_loop-Left s going clean (last {w' = w'} {q = q} {r = r} turn rest a signal) =
      let (g, cleaned, ran) = round_lem turn s a clean in
      let stopped = ap (λ b. (b || turn.signal_at_accept) || turn.signal_later) going ∙ signal in
      (
        after_round turn s g w' q r,
        serve_loop-round turn rest s (after_round turn s g w' q r) going ran
            ∙ serve_loop-stopped rest (after_round turn s g w' q r) stopped,
        record { terminated = stopped; app = refl; trace = append_assoc s.trace _ _ },
      )
  serve_loop-Left s going clean (more {w' = w'} {q = q} {r = r} turn a quiet later) =
      let (g, cleaned, ran) = round_lem turn s a clean in
      let open_ = ap (λ b. (b || turn.signal_at_accept) || turn.signal_later) going ∙ quiet in
      let (t, ran_rest, left) = serve_loop-Left (after_round turn s g w' q r) open_ cleaned later in
      (
        t,
        serve_loop-round turn _ s (after_round turn s g w' q r) going ran ∙ ran_rest,
        record {
          terminated = left.terminated;
          app = left.app;
          trace =
              left.trace
              ∙ append_assoc (s.trace ++ (accepting (acting terminate false) ∷ []))
                  (answered (acting terminate true) q r ∷ []) (events later)
              ∙ append_assoc s.trace (accepting (acting terminate false) ∷ []) _;
        },
      )

  -- The calls before the loop succeed.
  pub record Starts (start : Startup) : Type 0 where
    pub pgrp_set : start.pgrp_set ≡ true
    pub death_signal_set : start.death_signal_set ≡ true
    pub has_parent : (start.parent == 0) ≡ false
    pub schema_valid : start.schema_valid ≡ true

  -- If the calls before the loop succeed and no call fails up to the first SIGTERM, serve exits
  -- with status 0 after the turn in which it arrives, without another accept; until then it has
  -- written for every connection exactly the response of process to the request received, in
  -- order, and SIGTERM interrupted each accept and none of the answers.
  pub serve-Left :
      {turns : List Turn} {qs : List (List ℕ × List ℕ)} {w' : W} (start : Startup)
      (s : Serving K W process)
      → Starts start
      → s.terminated ≡ false
      → Clean K lawful s.signals
      → (run : Serves W process s.app turns qs w')
      → (t : Serving K W process) × (serve K W process start turns s ≡ ok t)
        × Left s t w' (events run)
  unfolding serve set_sigchld_action
  serve-Left {turns} start s ready going clean run =
      let (g, ran, actions, timed) =
        lawful.sigaction-action s.signals.kernel sigchld
          (record { handler = callback 1; restart = true; siginfo = true }) refl in
      let (t, ran_rest, left) =
        serve_loop-Left (record s { signals = record s.signals { kernel = g } }) going clean run in
      (
        t,
        rw (ready.pgrp_set, ready.death_signal_set, ready.has_parent, ready.schema_valid, ran)
            ran_rest,
        record { terminated = left.terminated; app = left.app; trace = left.trace },
      )
