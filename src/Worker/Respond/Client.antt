-- ===== src/Worker/Respond/Client.antt =====
-- A client and a worker: run_together of src/libsbox.cpp over the loop of Worker::serve in
-- src/worker.cpp.
use mathlib.Core.List.{Nodup, Perm}
use libsbox.Base.{ℕ, ◌+◌, ◌≡◌, Bool, List, map, ok}
use libsbox.Memory.{NulFree}
use libsbox.Crash.{Crash}
use libsbox.Task.{Task}
use libsbox.Task.Json
use libsbox.Task.Json.{Rapidjson}
use libsbox.Pipes.{Pipes}
use libsbox.Exchange
use libsbox.Exchange.{
  Wire, IsLawful, Connection, response_json, run_together, remote, error_json, read_response,
}
use libsbox.Exchange.RoundTrip.{requested, answered, Receives}
use libsbox.Container.TaskData.{IsValid}
use libsbox.Container.WaitForSlave.Verdict.{IsMonotone}
use libsbox.Container.WaitForSlave.Fits
use libsbox.Container.WaitForSlave.Fits.{MeasuresFit}
use libsbox.Worker.Tasks.{Course}
use libsbox.Worker.Process
use libsbox.Worker.Process.Idle
use libsbox.Worker.Process.Idle.{Answered}
use libsbox.Worker.Respond.{Reason, Around, Kept, in_process, bad_document}

-- What the kernel reports of a container is in range, and neither clock is set back during its run, as
-- gettimeofday may be.
pub record IsMeasured (c : Course) : Type 0 where
  pub wakes : Fits.AllFit c.wakes
  pub measures : MeasuresFit c.measures
  pub monotone : IsMonotone c.wakes c.measures

pub record IsLawfulAround (a : Around) : Type 0 where
  pub valid : (c : ℕ) → IsValid (a.memories c)
  pub any_order : (cs : List ℕ) → Perm (a.order cs) cs
  pub measured : (c : ℕ) → IsMeasured (a.course c)

module _ (J : Rapidjson) (lawful : Json.IsLawful J) (W : Wire J)
    (describe : Exchange.Reason → List ℕ → List ℕ) (started waited : ℕ → Bool) (around : ℕ → Around)
    (all : List ℕ) (distinct : Nodup all) where
  abbrev pub Dies : List Task → Kept → Reason → Type 0
  Dies ts k bad_document = ⊥
  Dies ts k (in_process why) =
      Idle.Dies started waited (around k.requests).course k.pipes (map requested ts) why

  -- The client's calls succeed, and the connection brings it any text without NUL, in some chunks.
  abbrev pub Delivers : (List ℕ → Connection) → List ℕ → Type 0
  Delivers deliver message =
      (response : List ℕ)
      → NulFree response
      → Receives J lawful W (deliver response) message response

  -- Each task was run by a container of its own, the worker is idle, and the client that sent the
  -- request gets, in its tasks, the results of these runs.
  pub record Responded (deliver : List ℕ → Connection) (ts : List Task) (k : Kept)
      (r : List ℕ × Kept) : Type 0 where
    pub results : List Task
    pub text : r.0 ≡ W.text (response_json results)
    pub runs :
        Answered all (around k.requests).course (map requested ts) (results, r.1.pipes, r.1.worker)
    pub counted : r.1.requests ≡ k.requests + 1
    pub reached : run_together J W ts (deliver r.0) ≡ ok (answered ts results)
