-- ===== src/Worker/Tasks.antt =====
-- The tasks of one request: Worker::write_tasks, the containers' runs, and the first loop of
-- Worker::collect_results in src/worker.cpp. The memory that the worker shares with the container of
-- each id is a function of the id. `Course` is what wait_for_slave of that container observes. The
-- containers run at the same time, each on its own memory, and `order` is the order in which they
-- end: the worker only reads a memory after its container has ended.
pub mod Outcome
use libsbox.Base.{ℕ, List, [], ◌∷◌, ◌==◌, if◌then◌else◌, Result, ok, err, ◌>>=◌}
use libsbox.Memory.{out_of_bounds}
use libsbox.Crash.{Crash, died, undefined}
use libsbox.Task.{Task}
use libsbox.Pipes.{Pipes}
use libsbox.Container.TaskData.{TaskData}
use libsbox.Container.SetTask
use libsbox.Container.SetTask.{set_task, put_results}
use libsbox.Container.WaitForSlave.{Wake, World, Measures, Ending, wait_for_slave}

pub data Reason : Type 0 where
  cannot_set : SetTask.Reason → Reason
  container_ended : Ending → Reason

abbrev pub Run : Type 0 → Type 0
Run A = Result (Crash Reason) A

abbrev pub from_set {ℓ} : {A : Type ℓ} → Result (Crash SetTask.Reason) A → Result (Crash Reason) A
from_set (ok a) = ok a
from_set (err (died why)) = err (died (cannot_set why))
from_set (err (undefined f)) = err (undefined f)

abbrev pub from_container {ℓ} : {A : Type ℓ} → Result Ending A → Result (Crash Reason) A
from_container (ok a) = ok a
from_container (err why) = err (died (container_ended why))

pub record Course : Type 0 where
  pub wakes : List Wake
  pub world : World
  pub measures : Measures

abbrev pub Memories : Type 0
Memories = ℕ → TaskData

abbrev pub set_memory : Memories → ℕ → TaskData → Memories
set_memory mem c d q = if q == c then d else mem q

-- The loop of write_tasks over both vectors.
unfoldable pub write_tasks : Pipes → Memories → List Task → List ℕ → Run (Memories × Pipes)
write_tasks p mem [] cs = ok (mem, p)
write_tasks p mem (t ∷ ts) [] = err (undefined out_of_bounds)
write_tasks p mem (t ∷ ts) (c ∷ cs) = do
  (d, p') ← from_set (set_task p (mem c) t)
  write_tasks p' (set_memory mem c d) ts cs

-- The containers' runs, in the order in which they end.
unfoldable pub run_containers : (ℕ → Course) → Memories → List ℕ → Run Memories
run_containers course mem [] = ok mem
run_containers course mem (c ∷ cs) = do
  r ← from_container (wait_for_slave (mem c) (course c).wakes (course c).world (course c).measures)
  run_containers course (set_memory mem c r) cs

-- The loop of collect_results that calls put_results.
unfoldable pub collect_results : Memories → List Task → List ℕ → Run (List Task)
collect_results mem [] cs = ok []
collect_results mem (t ∷ ts) [] = err (undefined out_of_bounds)
collect_results mem (t ∷ ts) (c ∷ cs) = do
  rest ← collect_results mem ts cs
  ok (put_results (mem c) t ∷ rest)

-- The three together, as Worker::process calls them.
unfoldable pub execute :
    (ℕ → Course) → Pipes → Memories → List Task → List ℕ → List ℕ → Run (List Task × Pipes)
unfolding write_tasks run_containers collect_results
execute course p mem tasks cs order = do
  (written, q) ← write_tasks p mem tasks cs
  ended ← run_containers course written order
  results ← collect_results ended tasks cs
  ok (results, q)
