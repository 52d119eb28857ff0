-- ===== src/Pipes/Laws.antt =====
-- The pipe table of src/worker.cpp.
use libsbox.Base.{
  ℕ, ◌+◌, ◌≤◌, arith, length, ap, sym, ◌∙◌, subst, ◌≡◌, refl, List, [], ◌∷◌, Option, none, some,
  text_eq, text_eq_iff, ◌⊎◌, inl, inr, Option-cases, Bool-cases,
}
use libsbox.Pipes.{Pipes, find, create, get_pipe}

-- Every pipe of the first table is in the second, under its name, and nothing is closed.
abbrev pub Extends : Pipes → Pipes → Type 0
Extends p p' =
    ((name : List ℕ) (fds : ℕ × ℕ) → find name p.table ≡ some fds → find name p'.table ≡ some fds)
    × (p'.closes ≡ p.closes)
    × (p'.shut ≡ p.shut)

pub Extends-refl : (p : Pipes) → Extends p p
Extends-refl p = (λ name fds e. e, refl, refl)

pub Extends-trans : (p q r : Pipes) → Extends p q → Extends q r → Extends p r
Extends-trans p q r (f, c, h) (g, c', h') =
    (λ name fds e. g name fds (f name fds e), c' ∙ c, h' ∙ h)

-- The call returns the pipe that the table then has under the name, and keeps all others.
abbrev pub Gives : Pipes → List ℕ → Option ((ℕ × ℕ) × Pipes) → Type 0
Gives p name r =
    (fds : ℕ × ℕ) × (p' : Pipes) × (r ≡ some (fds, p'))
    × (find name p'.table ≡ some fds)
    × Extends p p'

new-Extends :
    (p : Pipes) (name : List ℕ) (fds : ℕ × ℕ) (supply : List (ℕ × ℕ))
    → find name p.table ≡ none
    → Extends p (record p { table = (name, fds) ∷ p.table; supply = supply })
unfolding find
new-Extends p name fds supply fresh = (
  λ n f e. elim (Bool-cases (text_eq name n)) [
    | inl same ↦ let eq = (text_eq_iff name n).0 same in cc
    | inr other ↦ rw other e
  ],
  refl,
  refl,
)

create_lem :
    (p : Pipes) (name : List ℕ) (s : List (ℕ × ℕ))
    → find name p.table ≡ none
    → Gives p name (create p name s) ⊎ (s ≡ []) × (create p name s ≡ none)
unfolding create find
create_lem p name [] fresh = inr (refl, refl)
create_lem p name (fds ∷ s) fresh = inl (
  fds,
  record p { table = (name, fds) ∷ p.table; supply = s },
  refl,
  rw ((text_eq_iff name name).1 refl) refl,
  new-Extends p name fds s fresh,
)

-- A call of get_pipe gives a pipe, or fails because the kernel has none left for a new name.
pub get_pipe-Gives :
    (p : Pipes) (name : List ℕ)
    → Gives p name (get_pipe p name)
      ⊎ (find name p.table ≡ none) × (p.supply ≡ []) × (get_pipe p name ≡ none)
unfolding get_pipe
get_pipe-Gives p name = elim (Option-cases (find name p.table)) [
  | inl e ↦ elim (create_lem p name p.supply e) [
    | inl (fds, p', r, f, x) ↦ inl (fds, p', rw (e, get_pipe) r, f, x)
    | inr (empty, r) ↦ inr (e, empty, rw (e, get_pipe) r)
  ]
  | inr (fds, e) ↦ inl (fds, p, rw (e, get_pipe) refl, e, Extends-refl p)
]

-- The pipe that the kernel returns next: taken from the supply, with its two ends as they are, and put
-- under the name.
abbrev pub Creates : Pipes → List ℕ → Type 0
Creates p name =
    (fds : ℕ × ℕ) × (left : List (ℕ × ℕ)) × (p' : Pipes) × (p.supply ≡ fds ∷ left)
    × (get_pipe p name ≡ some (fds, p'))
    × (p'.supply ≡ left)
    × (find name p'.table ≡ some fds)
    × Extends p p'

create-Creates :
    (p : Pipes) (name : List ℕ) (s : List (ℕ × ℕ))
    → find name p.table ≡ none
    → p.supply ≡ s
    → Creates p name ⊎ (p.supply ≡ []) × (get_pipe p name ≡ none)
unfolding get_pipe create find
create-Creates p name [] fresh same = inr (same, rw (fresh, same, get_pipe) refl)
create-Creates p name (fds ∷ s) fresh same = inl (
  fds,
  s,
  record p { table = (name, fds) ∷ p.table; supply = s },
  same,
  rw (fresh, same, get_pipe) refl,
  refl,
  rw ((text_eq_iff name name).1 refl) refl,
  new-Extends p name fds s fresh,
)

-- get_pipe returns the pipe that the table has under the name and changes nothing; for a new name it
-- takes the next pipe of the kernel, returns its two ends as the kernel gave them, puts it under the
-- name and keeps the others, or fails where the kernel has no pipe left.
pub get_pipe_lem :
    (p : Pipes) (name : List ℕ)
    → ((fds : ℕ × ℕ) × (find name p.table ≡ some fds) × (get_pipe p name ≡ some (fds, p)))
      ⊎ (find name p.table ≡ none) × (Creates p name ⊎ (p.supply ≡ []) × (get_pipe p name ≡ none))
unfolding get_pipe
get_pipe_lem p name = elim (Option-cases (find name p.table)) [
  | inl e ↦ inr (e, create-Creates p name p.supply e refl)
  | inr (fds, e) ↦ inl (fds, e, rw (e, get_pipe) refl)
]

pipes_same :
    {fds gds : ℕ × ℕ} {q r : Pipes} (p : Pipes)
    → ◌≡◌ {A = Option ((ℕ × ℕ) × Pipes)} (some (fds, q)) (some (gds, r))
    → q ≡ r
pipes_same {fds} {gds} {q} {r} p e =
    ap (λ (o : Option ((ℕ × ℕ) × Pipes)). elim o [ none ↦ p | some k ↦ k.1 ]) e

-- How much of the supply a call takes: at most one pipe.
pub get_pipe-supply :
    (p : Pipes) (name : List ℕ) (fds : ℕ × ℕ) (p' : Pipes)
    → get_pipe p name ≡ some (fds, p')
    → length p.supply ≤ length p'.supply + 1
get_pipe-supply p name fds p' run = elim (get_pipe_lem p name) [
  | inl (f, e, r) ↦
      let same : p ≡ p' = pipes_same p (sym r ∙ run) in
      subst (λ k. length p.supply ≤ length k.supply + 1) same (omega arith)
  | inr (e, inl (f, left, q, took, r, rest, found, x)) ↦
      let same : q ≡ p' = pipes_same p (sym r ∙ run) in
      subst (λ k. length p.supply ≤ length k.supply + 1) same
        (omega (arith, ap length took, ap length rest))
  | inr (e, inr (empty, r)) ↦ cc
]
