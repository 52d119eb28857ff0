-- ===== src/Tests/Environments.antt =====
-- A full environment, to which PATH is added.
use libsbox.Base.{
  ℕ, ◌<◌, ◌≡◌, ◌⊎◌, refl, arith, true, false, List, [], ◌∷◌, ◌++◌, some, none, length, codes, ok,
  err,
}
use libsbox.Memory.{out_of_bounds}
use libsbox.PlainStringVector.{PlainStringVector, Packs}
use libsbox.PlainStringVector.Laws.{Gives}
use libsbox.Container.Environment.{contains, add_path, add_path_lem}

-- "A" in an object for 1 string and 12 characters.
abbrev env : PlainStringVector
env = record {
  items = record { size = 2; slots = some (some 0) ∷ some none ∷ [] };
  text = record { size = 2; cells = b'A' ∷ 0 ∷ 0 ∷ 0 ∷ 0 ∷ 0 ∷ 0 ∷ 0 ∷ 0 ∷ 0 ∷ 0 ∷ 0 ∷ 0 ∷ 0 ∷ [] };
}

abbrev strings : List (List ℕ)
strings = codes "A" ∷ []

env-Packs : Packs 1 12 env strings
env-Packs = record {
  pointers = record {
    storage = refl;
    small = omega arith;
    counted = refl;
    within = omega arith;
    live = refl;
  };
  chars_valid = record { storage = refl; small = omega arith; within = omega arith; ended = refl };
  chars = refl;
}

add_path_lem_example :
    ((contains strings ≡ true) × (add_path (some (codes "/bin")) env ≡ ok env))
    ⊎ ((contains strings ≡ false)
        × (length strings < 1)
        × Gives 1 12 (strings ++ (codes "PATH=/bin" ∷ [])) (add_path (some (codes "/bin")) env))
    ⊎ (contains strings ≡ false)
      × (length strings ≡ 1)
      × (add_path (some (codes "/bin")) env ≡ err out_of_bounds)
add_path_lem_example =
    add_path_lem 1 12 env strings (codes "/bin") env-Packs ((omega arith, tt), tt) (omega arith)
      (omega arith)
