-- ===== src/Worker/Process/Idle.antt =====
-- A request from an idle worker to an idle worker: Worker::process of src/worker.cpp.
use mathlib.Core.List.{Nodup}
use libsbox.Base.{ℕ, ◌≡◌, ◌⊎◌, Bool, List, []}
use libsbox.Crash.{Crash}
use libsbox.Task.{Task}
use libsbox.Pipes.{Pipes}
use libsbox.Pipes.Closing.{Fails, AllShut}
use libsbox.Worker.{Worker}
use libsbox.Worker.Prepare.{IsIdle, PrepareDies}
use libsbox.Worker.Release.{ReleaseDies}
use libsbox.Worker.Tasks.{Course}
use libsbox.Worker.Tasks.Outcome
use libsbox.Worker.Tasks.Outcome.{Outcomes}
use libsbox.Worker.Process.{Reason, on_containers, on_tasks, on_pipes}

-- No id is free, a container does not start or is not waited for, a task does not fit, a run fails,
-- or a descriptor of a pipe is not closed.
abbrev pub Dies : (started waited : ℕ → Bool) → (ℕ → Course) → Pipes → List Task → Reason → Type 0
Dies started waited course pipes tasks (on_containers why) =
    PrepareDies started why ⊎ ((temporary : List ℕ) × ReleaseDies waited temporary why)
Dies started waited course pipes tasks (on_tasks why) = Outcome.Dies course tasks why
Dies started waited course pipes tasks (on_pipes why) = Fails pipes.closes why

-- Each task has the outcome of a container of its own, both ends of every pipe of the request are
-- closed and the table is empty, and the worker is idle.
pub record Answered (all : List ℕ) (course : ℕ → Course) (tasks : List Task)
    (r : List Task × Pipes × Worker) : Type 0 where
  pub containers : List ℕ
  pub distinct : Nodup containers
  pub open_pipes : Pipes
  pub outcomes : Outcomes course open_pipes tasks containers r.0
  pub closed : r.1.table ≡ []
  pub shut : AllShut open_pipes.table r.1.shut
  pub idle : IsIdle all r.2
