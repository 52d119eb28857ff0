-- ===== src/Worker/Prepare.antt =====
-- The containers that Worker::prepare_containers of src/worker.cpp gives to the tasks.
use mathlib.Core.List.{Nodup, Perm}
use mathlib.Core.List.Perm
use mathlib.Core.List.Nodup
use libsbox.Base.{ℕ, ◌≡◌, Bool, false, List, [], ◌∷◌, ◌++◌, length, ◌>>=◌, ◌>>◌}
use libsbox.SharedIdGetter.{IdGetter, stack_is_empty}
use libsbox.Task.{Task}
use libsbox.Worker.{Worker, Reason, getter_died, cannot_start, cannot_wait}
use libsbox.Worker.Containers.{Assigned, Owns, Placed}

-- While containers are prepared the worker dies only where no id is free or a container does not
-- start.
abbrev pub PrepareDies : (ℕ → Bool) → Reason → Type 0
PrepareDies started (getter_died why) = why ≡ stack_is_empty
PrepareDies started cannot_start = (id : ℕ) × (started id ≡ false)
PrepareDies started cannot_wait = ⊥

abbrev Next : List ℕ → List Task → ℕ × Worker → Type 0
Next all seen r = (used : List ℕ) × (unused : List ℕ) × Placed all seen r.0 r.1 used unused

abbrev with_temporary : Worker → ℕ → IdGetter → Worker
with_temporary w id g = record w {
  getter = g;
  temporary = w.temporary ++ (id ∷ []);
  containers = w.containers ++ (id ∷ []);
}

abbrev with_permanent : Worker → ℕ → IdGetter → Worker
with_permanent w id g = record w {
  getter = g;
  permanent = w.permanent ++ (id ∷ []);
  containers = w.containers ++ (id ∷ []);
}

abbrev with_next : Worker → ℕ → Worker
with_next w id = record w { containers = w.containers ++ (id ∷ []) }

-- Between two requests.
pub record IsIdle (all : List ℕ) (w : Worker) : Type 0 where
  pub owns : Owns all w
  pub no_temporary : w.temporary ≡ []
  pub no_containers : w.containers ≡ []

pub record Prepared (all : List ℕ) (tasks : List Task) (w : Worker) : Type 0 where
  pub owns : Owns all w
  pub one_each : length w.containers ≡ length tasks
  pub distinct : Nodup w.containers
  pub assigned : Assigned w tasks w.containers
