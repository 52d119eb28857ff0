-- ===== src/Worker/Serve.antt =====
-- Worker::serve of src/worker.cpp: the loop that accepts connections and answers them, and what comes
-- before it. What the kernel's calls return is an argument: `Startup` for the calls before the loop,
-- and one `Turn` for each round. `process` is the argument that stands for Worker::process with what
-- it keeps. A SIGTERM runs terminate_handler, so that a turn says only when one arrives.
pub mod Stop
use libsbox.Base.{
  ℕ, ◌≡◌, ℤ, pos, pos_part, ltb_ℤ, Bool, true, false, not, ◌||◌, List, [], ◌∷◌, ◌++◌, Option, none,
  some, length, ◌==◌, if◌then◌else◌, Result, ok, err, ◌>>=◌, ◌>>◌, guard,
}
use libsbox.Crash.{Crash, died, undefined}
use libsbox.Transfer
use libsbox.Transfer.{Received, receive_request}
use libsbox.Signals
use libsbox.Signals.{
  Kernel, Action, Signals, sigterm, set_standard_handler_restart, set_sigchld_action,
}

pub data Reason : Type 0 where
  cannot_accept cannot_send cannot_close still_accepting : Reason
  cannot_setpgrp cannot_prctl orphaned no_validator : Reason
  cannot_receive : Transfer.Reason → Reason
  cannot_signal : Signals.Reason → Reason
  processing_failed : Reason

abbrev pub Run : Type 0 → Type 0
Run A = Result (Crash Reason) A

abbrev pub from_signals {ℓ} : {A : Type ℓ} → Result Signals.Reason A → Result (Crash Reason) A
from_signals (ok a) = ok a
from_signals (err why) = err (died (cannot_signal why))

abbrev pub from_transfer {ℓ} :
    {A : Type ℓ} → Result (Crash Transfer.Reason) A → Result (Crash Reason) A
from_transfer (ok a) = ok a
from_transfer (err (died why)) = err (died (cannot_receive why))
from_transfer (err (undefined f)) = err (undefined f)

-- The results of setpgrp, prctl and getppid, and of SchemaValidator's constructor.
pub record Startup : Type 0 where
  pub pgrp_set : Bool
  pub death_signal_set : Bool
  pub parent : ℕ
  pub schema_valid : Bool

-- One round: whether a SIGTERM comes before accept returns, what accept gives and the connection
-- then sends, whether a SIGTERM comes later, and what write and close return. `buf` is the array,
-- with any contents.
pub record Turn : Type 0 where
  pub signal_at_accept : Bool
  pub connection : Option (List Received)
  pub buf : List ℕ
  pub signal_later : Bool
  pub sent : ℤ
  pub closed : Bool

-- The calls that take long, with the action of SIGTERM during them.
pub data Event : Type 0 where
  accepting : Action → Event
  answered : Action → List ℕ → List ℕ → Event

module _ (K : Kernel) (W : Type 0) (process : W → List ℕ → Run (List ℕ × W)) where
  pub record Serving : Type 0 where
    pub signals : Signals K
    pub terminated : Bool
    pub app : W
    pub trace : List Event

  -- What follows accept, for a connection.
  unfoldable pub answer : Turn → List Received → Serving → Run Serving
  answer turn chunks s = do
    g ← from_signals (set_standard_handler_restart K sigterm true s.signals)
    request ← from_transfer (receive_request turn.buf [] chunks)
    (response, w) ← process s.app request
    guard (not (ltb_ℤ turn.sent (pos 0) || not (pos_part turn.sent == length response)))
        (died cannot_send)
    guard turn.closed (died cannot_close)
    ok (record {
      signals = g;
      terminated = s.terminated || turn.signal_later;
      app = w;
      trace = s.trace ++ (answered (K.action g.kernel sigterm) request response ∷ []);
    })

  -- After accept: whether the loop is left, and the state.
  unfoldable pub after_accept : Turn → Option (List Received) → Serving → Run (Bool × Serving)
  unfolding answer
  after_accept turn none s = if s.terminated then ok (true, s) else err (died cannot_accept)
  after_accept turn (some chunks) s = do t ← answer turn chunks s; ok (false, t)

  -- The body of the loop.
  unfoldable pub round : Turn → Serving → Run (Bool × Serving)
  unfolding after_accept
  round turn s = do
    g ← from_signals (set_standard_handler_restart K sigterm false s.signals)
    after_accept turn turn.connection (record s {
      signals = g;
      terminated = s.terminated || turn.signal_at_accept;
      trace = s.trace ++ (accepting (K.action g.kernel sigterm) ∷ []);
    })

  unfoldable pub serve_loop : List Turn → Serving → Run Serving
  unfolding round
  serve_loop [] s = if s.terminated then ok s else err (died still_accepting)
  serve_loop (turn ∷ rest) s =
      if s.terminated
      then ok s
      else (do (left, t) ← round turn s; if left then ok t else serve_loop rest t)

  -- serve, up to _exit(0)
  unfoldable pub serve : Startup → List Turn → Serving → Run Serving
  unfolding serve_loop
  serve start turns s = do
    guard start.pgrp_set (died cannot_setpgrp)
    guard start.death_signal_set (died cannot_prctl)
    guard (not (start.parent == 0)) (died orphaned)
    guard start.schema_valid (died no_validator)
    g ← from_signals (set_sigchld_action K 1 s.signals)
    serve_loop turns (record s { signals = g })
