-- ===== src/Worker/Respond.antt =====
-- Worker::process of src/worker.cpp, from the text of a request to the text of its response, and as
-- the loop of Worker::serve calls it. What surrounds the request of each number (the shared
-- memories, the courses of the containers and the order in which they end) is the parameter
-- `around`; `describe` gives the message of an error of the parser or the validator.
pub mod Client
pub mod Turns
use libsbox.Base.{ℕ, ◌+◌, Bool, List, Result, ok, err, ◌>>=◌}
use libsbox.Crash.{Crash, died, undefined}
use libsbox.Pipes.{Pipes}
use libsbox.Task.{Task}
use libsbox.Task.Json.{Rapidjson}
use libsbox.Exchange
use libsbox.Exchange.{
  Wire, parse_error, invalid, response_json, error_json, parse_and_validate_json_request,
}
use libsbox.Worker.{Worker}
use libsbox.Worker.Tasks.{Course, Memories}
use libsbox.Worker.Process
use libsbox.Worker.Process.{process}
use libsbox.Worker.Serve
use libsbox.Worker.Serve.{processing_failed}

pub data Reason : Type 0 where
  bad_document : Reason
  in_process : Process.Reason → Reason

abbrev pub Run : Type 0 → Type 0
Run A = Result (Crash Reason) A

pub record Around : Type 0 where
  pub memories : Memories
  pub course : ℕ → Course
  pub order : List ℕ → List ℕ

-- What the worker keeps from one request to the next.
pub record Kept : Type 0 where
  pub requests : ℕ
  pub pipes : Pipes
  pub worker : Worker

abbrev pub from_process {ℓ} :
    {A : Type ℓ} → Result (Crash Process.Reason) A → Result (Crash Reason) A
from_process (ok a) = ok a
from_process (err (died why)) = err (died (in_process why))
from_process (err (undefined f)) = err (undefined f)

module _ (J : Rapidjson) (W : Wire J) (describe : Exchange.Reason → List ℕ → List ℕ)
    (started waited : ℕ → Bool) (around : ℕ → Around) where
  -- What follows parse_and_validate_json_request.
  unfoldable pub respond_to :
      List ℕ → Result Exchange.Reason (List Task) → Kept → Run (List ℕ × Kept)
  respond_to request (err parse_error) k =
      ok (W.text (error_json (describe parse_error request)), k)
  respond_to request (err invalid) k = ok (W.text (error_json (describe invalid request)), k)
  respond_to request (err _) k = err (died bad_document)
  respond_to request (ok tasks) k = do
    let a = around k.requests
    (results, pipes, worker) ←
        from_process (process started waited a.course a.order a.memories k.pipes tasks k.worker)
    ok (
      W.text (response_json results),
      record { requests = k.requests + 1; pipes = pipes; worker = worker },
    )

  unfoldable pub respond : Kept → List ℕ → Run (List ℕ × Kept)
  unfolding respond_to
  respond k request = respond_to request (parse_and_validate_json_request J W request) k

  abbrev pub relabel {ℓ} : {A : Type ℓ} → Result (Crash Reason) A → Result (Crash Serve.Reason) A
  relabel (ok a) = ok a
  relabel (err (died why)) = err (died processing_failed)
  relabel (err (undefined f)) = err (undefined f)

  -- The argument of Worker::serve.
  unfoldable pub process_request : Kept → List ℕ → Serve.Run (List ℕ × Kept)
  unfolding respond
  process_request k request = relabel (respond k request)
