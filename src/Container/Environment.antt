-- ===== src/Container/Environment.antt =====
-- The environment of the task in Container::slave of src/container.cpp: the search for PATH, and its
-- addition. `path` is what getenv returns.
use libsbox.Base.{
  ℕ, zero, suc, ◌+◌, ◌≤◌, ◌<◌, ◌≡◌, ◌⊎◌, inl, inr, refl, subst, arith, Bool, true, false,
  Bool-cases, List, [], ◌∷◌, ◌++◌, Option, none, some, length, get_elem?-length, length-append,
  append_assoc, text_eq, if◌then◌else◌, codes, Result, ok, err, ◌>>=◌, ap, sym, ◌∙◌,
}
use native.Mathlib.Decide.{dec_lt}
use libsbox.Memory.{Fault, no_object, out_of_bounds, NulFree}
use libsbox.PlainStringVector.{PlainStringVector, Packs, total_size, argument, count, add}
use libsbox.PlainStringVector.Laws.{Gives, argument_ok, argument_end, add_ok, add_full}

-- strcmp(env[i], "PATH=") == 0
abbrev pub is_path : Option (List ℕ) → Result Fault Bool
is_path none = err no_object
is_path (some s) = ok (text_eq s (codes "PATH="))

-- The search, with the rounds left and `i`.
unfoldable pub search_loop : ℕ → ℕ → PlainStringVector → Result Fault Bool
search_loop zero i env = ok false
search_loop (suc n) i env = do
  a ← argument env i
  found ← is_path a
  if found then ok true else search_loop n (i + 1) env

abbrev pub add_found : Option (List ℕ) → PlainStringVector → Bool → Result Fault PlainStringVector
add_found path env true = ok env
add_found none env false = ok env
add_found (some p) env false = add env (codes "PATH=" ++ p)

unfoldable pub add_path : Option (List ℕ) → PlainStringVector → Result Fault PlainStringVector
add_path path env = do has_path ← search_loop (count env) 0 env; add_found path env has_path

abbrev pub EachNulFree : List (List ℕ) → Type 0
EachNulFree [] = Unit
EachNulFree (s ∷ ss) = NulFree s × EachNulFree ss

-- Some string is exactly `PATH=`.
abbrev pub contains : List (List ℕ) → Bool
contains [] = false
contains (s ∷ ss) = if text_eq s (codes "PATH=") then true else contains ss

search_loop_ok :
    (mi mt : ℕ) (env : PlainStringVector) (before after : List (List ℕ))
    → Packs mi mt env (before ++ after)
    → EachNulFree after
    → search_loop (length after) (length before) env ≡ ok (contains after)
unfolding search_loop
search_loop_ok mi mt env before [] h free = refl
search_loop_ok mi mt env before (s ∷ ss) h free =
    let found =
      argument_ok mi mt env (before ++ (s ∷ ss)) (length before) s h (get_elem?-length before ss s)
        free.0 in
    let rest : search_loop (length ss) (length before + 1) env ≡ ok (contains ss) =
      ap (λ k. search_loop (length ss) k env) (sym (length-append before (s ∷ [])))
      ∙ search_loop_ok mi mt env (before ++ (s ∷ [])) ss
          (subst (Packs mi mt env) (sym (append_assoc before (s ∷ []) ss)) h) free.1 in
    rw found
      (elim (Bool-cases (text_eq s (codes "PATH="))) [ inl e ↦ rw e refl | inr e ↦ rw e rest ])

-- For an environment of strings without NUL within its limits, and PATH set and of a length that
-- fits: slave() leaves it alone exactly if it contains the string `PATH=` itself, otherwise adds
-- `PATH=` with the value as the last string if there is room for one more, and writes outside the
-- array if the environment is full.
pub add_path_lem :
    (mi mt : ℕ) (env : PlainStringVector) (ss : List (List ℕ)) (path : List ℕ)
    → Packs mi mt env ss
    → EachNulFree ss
    → length ss ≤ mi
    → total_size ss + length (codes "PATH=" ++ path) ≤ mt
    → ((contains ss ≡ true) × (add_path (some path) env ≡ ok env))
      ⊎ ((contains ss ≡ false)
          × (length ss < mi)
          × Gives mi mt (ss ++ ((codes "PATH=" ++ path) ∷ [])) (add_path (some path) env))
      ⊎ (contains ss ≡ false) × (length ss ≡ mi) × (add_path (some path) env ≡ err out_of_bounds)
unfolding add_path
add_path_lem mi mt env ss path h free within fits =
    let searched : search_loop (count env) 0 env ≡ ok (contains ss) =
      ap (λ k. search_loop k 0 env) (argument_end mi mt env ss h).1
      ∙ search_loop_ok mi mt env [] ss h free in
    elim (Bool-cases (contains ss)) [
      | inl c ↦ inl (c, rw (searched, c) refl)
      | inr c ↦ elim (dec_lt (length ss) mi) [
        | yes room ↦
            let (v, run, packs) = add_ok mi mt env ss (codes "PATH=" ++ path) h room fits in
            inr (inl (c, room, (v, rw (searched, c) run, packs)))
        | no none_left ↦
            let full : length ss ≡ mi = omega arith in
            inr (
              inr
                (c, full, rw (searched, c) (add_full mi mt env ss (codes "PATH=" ++ path) h full)))
      ]
    ]
