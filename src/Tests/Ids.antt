-- ===== src/Tests/Ids.antt =====
-- The getter of src/shared_id_getter.cpp with the ids 10, 11 and 12, and the pipes of
-- src/worker.cpp.
use libsbox.Base.{
  ℕ, ◌≤◌, ◌<◌, ◌≡◌, ◌⊎◌, refl, true, some, arith, [], ◌∷◌, none, length, codes, ok, err,
}
use mathlib.Core.List.{Mem, Nodup}
use libsbox.SharedIdGetter
use libsbox.SharedIdGetter.{
  IdGetter, stack_is_empty, stack_is_full, free, segment, get, put, IsValid,
}
use libsbox.SharedIdGetter.Ownership.{
  Shared, Reach, begin, next, take, give, held_distinct, calls_total,
}
use libsbox.Pipes.{Pipes, find, get_pipe}
use libsbox.Pipes.Laws.{Creates, get_pipe_lem}

-- After two calls of get, and the return of 10.
abbrev after : Shared
after = record { getter = record { ids = 12 ∷ 10 ∷ 10 ∷ []; head = 2 }; held = 11 ∷ [] }

after-Reach : Reach 10 3 after
unfolding get put SharedIdGetter.init
after-Reach =
    next
      (next (next begin (take 10 (record { ids = 12 ∷ 11 ∷ 10 ∷ []; head = 2 }) refl))
        (take 11 (record { ids = 12 ∷ 11 ∷ 10 ∷ []; head = 1 }) refl))
      (give (11 ∷ []) [] 10 (record { ids = 12 ∷ 10 ∷ 10 ∷ []; head = 2 }) refl refl)

held_distinct_example : Nodup after.held × ((id : ℕ) → Mem id after.held → (10 ≤ id) × (id < 13))
held_distinct_example = held_distinct 10 3 after (omega arith) after-Reach

calls_total_example :
    ((1 < 3) × ((id : ℕ) × (g : IdGetter) × (get after.getter ≡ ok (id, g)))
      ⊎ (length after.held ≡ 3) × (get after.getter ≡ err stack_is_empty))
    × ((id : ℕ) → Mem id after.held → (g : IdGetter) × (put after.getter id ≡ ok g))
calls_total_example = calls_total 10 3 after (omega arith) after-Reach

after-IsValid : IsValid after.getter
after-IsValid = record { within = omega arith; small = omega arith }

abbrev pipes : Pipes
pipes = record {
  table = (codes "p", (5, 6)) ∷ [];
  shut = [];
  closes = λ fd. true;
  supply = (7, 8) ∷ [];
}

get_pipe_lem_example :
    ((fds : ℕ × ℕ) × (find (codes "q") pipes.table ≡ some fds)
      × (get_pipe pipes (codes "q") ≡ some (fds, pipes)))
    ⊎ (find (codes "q") pipes.table ≡ none)
      × (Creates pipes (codes "q") ⊎ (pipes.supply ≡ []) × (get_pipe pipes (codes "q") ≡ none))
get_pipe_lem_example = get_pipe_lem pipes (codes "q")
