-- ===== src/Tests/Workers.antt =====
-- A worker with one permanent container and two tasks, of which one needs its own.
use mathlib.Core.List.{mem-cons_self}
use mathlib.Core.List.Perm
use libsbox.Base.{ℕ, ◌≡◌, refl, arith, true, inl, inr, List, [], ◌∷◌}
use libsbox.Crash.{Runs}
use libsbox.SharedIdGetter.Ownership.{segment-Nodup}
use libsbox.Task.{Task, new_task}
use libsbox.Worker.{Worker, release_containers}
use libsbox.Worker.Prepare.{IsIdle, Prepared}
use libsbox.Worker.Release.{ReleaseDies, release_containers_lem}

abbrev pub idle : Worker
idle = record {
  getter = record { ids = 12 ∷ 11 ∷ 10 ∷ []; head = 2 };
  permanent = 10 ∷ [];
  temporary = [];
  containers = [];
}

abbrev pub ids : List ℕ
ids = 10 ∷ 11 ∷ 12 ∷ []

pub idle-IsIdle : IsIdle ids idle
idle-IsIdle = record {
  owns = record {
    valid = record { within = omega arith; small = omega arith };
    owned = Perm.trans (Perm.cons 11 (Perm.swap 10 12 [])) (Perm.swap 10 11 (12 ∷ []));
    room = omega arith;
  };
  no_temporary = refl;
  no_containers = refl;
}

abbrev pub tasks : List Task
tasks = new_task ∷ record new_task { need_ipc = true } ∷ []

-- The same worker with both tasks placed.
abbrev busy : Worker
busy = record {
  getter = record { ids = 12 ∷ 11 ∷ 10 ∷ []; head = 1 };
  permanent = 10 ∷ [];
  temporary = 11 ∷ [];
  containers = 10 ∷ 11 ∷ [];
}

busy-Prepared : Prepared ids tasks busy
unfolding new_task
busy-Prepared = record {
  owns = record {
    valid = record { within = omega arith; small = omega arith };
    owned = Perm.trans (Perm.swap 10 12 (11 ∷ [])) (Perm.cons 10 (Perm.swap 11 12 []));
    room = omega arith;
  };
  one_each = refl;
  distinct = segment-Nodup 10 2;
  assigned = (inr (refl, refl, mem-cons_self), (inl (inl refl, mem-cons_self), tt));
}

release_containers_lem_example :
    Runs
      (ReleaseDies (λ id. true) busy.temporary)
      (λ v. IsIdle ids v × (v.permanent ≡ busy.permanent))
      (release_containers (λ id. true) busy)
release_containers_lem_example = release_containers_lem ids (λ id. true) tasks busy busy-Prepared
