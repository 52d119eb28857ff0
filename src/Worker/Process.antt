-- ===== src/Worker/Process.antt =====
-- Worker::process of src/worker.cpp for a request that was parsed: a container for each task, the
-- tasks' runs, the results, and what is given back. `order` gives the order in which the containers
-- end. The start barrier is not state of the model.
pub mod Idle
use libsbox.Base.{ℕ, Bool, List, [], Result, ok, err, ◌>>=◌}
use libsbox.Crash.{Crash, died, undefined}
use libsbox.Task.{Task}
use libsbox.Pipes.{Pipes, CloseReason, close_pipes}
use libsbox.Worker
use libsbox.Worker.{Worker, prepare_containers, release_containers}
use libsbox.Worker.Tasks
use libsbox.Worker.Tasks.{Course, Memories, execute}

pub data Reason : Type 0 where
  on_containers : Worker.Reason → Reason
  on_tasks : Tasks.Reason → Reason
  on_pipes : CloseReason → Reason

abbrev pub Run : Type 0 → Type 0
Run A = Result (Crash Reason) A

abbrev pub relabel {ℓ} :
    {R : Type 0} {A : Type ℓ} → (R → Reason) → Result (Crash R) A → Result (Crash Reason) A
relabel f (ok a) = ok a
relabel f (err (died why)) = err (died (f why))
relabel f (err (undefined fault)) = err (undefined fault)

unfoldable pub process :
    (started waited : ℕ → Bool)
    → (ℕ → Course)
    → (List ℕ → List ℕ)
    → Memories
    → Pipes
    → List Task
    → Worker
    → Run (List Task × Pipes × Worker)
unfolding prepare_containers execute close_pipes release_containers
process started waited course order mem pipes tasks w = do
  prepared ← relabel on_containers (prepare_containers started tasks w)
  (results, q) ←
      relabel on_tasks
        (execute course pipes mem tasks prepared.containers (order prepared.containers))
  p ← relabel on_pipes (close_pipes q)
  released ← relabel on_containers (release_containers waited prepared)
  ok (results, p, released)
