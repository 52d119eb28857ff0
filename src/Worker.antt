-- ===== src/Worker.antt =====
-- The containers of a worker: Worker::prepare_containers and the end of Worker::collect_results in
-- src/worker.cpp. A container is named by its `id_`; the three vectors of the worker are the lists
-- `permanent`, `temporary` and `containers`. `started` says for which ids Container::start succeeds,
-- and `waited` for which waitpid does. The other workers take part by the getter only, so that the
-- ids that they hold are neither free nor this worker's.
pub mod Containers
pub mod Prepare
pub mod Release
pub mod Serve
pub mod Tasks
pub mod Process
pub mod Respond
use libsbox.Base.{
  ℕ, ◌+◌, Bool, not, ◌||◌, List, [], ◌∷◌, ◌++◌, length, get_elem?, if◌then◌else◌, ◌==◌, Result, ok,
  err, ◌>>=◌, ◌>>◌, guard, or_fail,
}
use libsbox.Memory.{out_of_bounds}
use libsbox.Crash.{Crash, died, undefined}
use libsbox.SharedIdGetter.{IdGetter, Death, get, put}
use libsbox.Task
use libsbox.Task.{Task}

pub data Reason : Type 0 where
  getter_died : Death → Reason
  cannot_start cannot_wait : Reason

abbrev pub Run : Type 0 → Type 0
Run A = Result (Crash Reason) A

pub record Worker : Type 0 where
  pub getter : IdGetter
  pub permanent : List ℕ
  pub temporary : List ℕ
  pub containers : List ℕ

-- A call of the getter, which dies by itself.
abbrev pub from_getter {ℓ} : {A : Type ℓ} → Result Death A → Result (Crash Reason) A
from_getter (ok a) = ok a
from_getter (err why) = err (died (getter_died why))

-- !permanent_container_allowed
abbrev pub needs_temporary : Task → Bool
needs_temporary t = Task.get_need_ipc t || not (Task.get_use_standard_binds t)

-- The body of the loop for one task, with next_permanent_container.
unfoldable pub prepare_one : (ℕ → Bool) → ℕ → Task → Worker → Run (ℕ × Worker)
prepare_one started next t w =
    if needs_temporary t
    then (do
      (id, g) ← from_getter (get w.getter)
      guard (started id) (died cannot_start)
      ok (
        next,
        record w {
          getter = g;
          temporary = w.temporary ++ (id ∷ []);
          containers = w.containers ++ (id ∷ []);
        },
      ))
    else if next == length w.permanent
    then (do
      (id, g) ← from_getter (get w.getter)
      guard (started id) (died cannot_start)
      ok (
        next + 1,
        record w {
          getter = g;
          permanent = w.permanent ++ (id ∷ []);
          containers = w.containers ++ (id ∷ []);
        },
      ))
    else (do
      id ← or_fail (get_elem? w.permanent next) (undefined out_of_bounds)
      ok (next + 1, record w { containers = w.containers ++ (id ∷ []) }))

unfoldable pub prepare_loop : (ℕ → Bool) → ℕ → List Task → Worker → Run (ℕ × Worker)
prepare_loop started next [] w = ok (next, w)
prepare_loop started next (t ∷ rest) w = do
  (next', w') ← prepare_one started next t w
  prepare_loop started next' rest w'

unfoldable pub prepare_containers : (ℕ → Bool) → List Task → Worker → Run Worker
prepare_containers started tasks w = do r ← prepare_loop started 0 tasks w; ok r.1

-- for (auto &container : temporary_containers_)
unfoldable pub release_loop : (ℕ → Bool) → List ℕ → IdGetter → Run IdGetter
release_loop waited [] g = ok g
release_loop waited (id ∷ rest) g = do
  h ← from_getter (put g id)
  guard (waited id) (died cannot_wait)
  release_loop waited rest h

-- What collect_results does after the response is written.
unfoldable pub release_containers : (ℕ → Bool) → Worker → Run Worker
release_containers waited w = do
  g ← release_loop waited w.temporary w.getter
  ok (record w { getter = g; temporary = []; containers = [] })
