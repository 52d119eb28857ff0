-- ===== src/PlainString/Observe.antt =====
-- What the operations of src/plain_string.h that read the string return.
use native.Mathlib.Decide.{dec_lt}
use libsbox.Base.{
  ℕ, zero, suc, ◌+◌, ◌≤◌, ◌<◌, ◌≡◌, ◌↔◌, refl, ap, sym, ◌∙◌, List, [], ◌∷◌, arith, length,
  get_elem?, take, drop, drop-cons, drop-split, get_elem?-take, leb, length-append, Bool, true,
  false, ◌==◌, ==_iff, ok, err, some, ◌⊎◌, inl, inr, if◌then◌else◌, Bool-cases,
}
use libsbox.Memory.{out_of_range, c_str, c_string-append, NulFree}
use libsbox.PlainString.Assign.{take-c_str, length-to_list}
use libsbox.PlainString.{
  PlainString, IsValid, to_list, at, equals_loop, equals, is_equal, substr_from,
}

-- Equality of two lists, character by character.
abbrev pub list_eq : List ℕ → List ℕ → Bool
list_eq [] [] = true
list_eq [] (y ∷ ys) = false
list_eq (x ∷ xs) [] = false
list_eq (x ∷ xs) (y ∷ ys) = if x == y then list_eq xs ys else false

pub list_eq_iff : (xs ys : List ℕ) → (list_eq xs ys ≡ true) ↔ (xs ≡ ys)
list_eq_iff [] [] = (λ h. refl, λ h. refl)
list_eq_iff [] (y ∷ ys) = (λ h. cc, λ h. cc)
list_eq_iff (x ∷ xs) [] = (λ h. cc, λ h. cc)
list_eq_iff (x ∷ xs) (y ∷ ys) = ground (arith, list_eq_iff xs ys)

-- The comparing loop decides equality of the characters that are left.
equals_loop_lem :
    (n i : ℕ) (str cells : List ℕ)
    → i + n ≤ length str
    → i + n ≤ length cells
    → equals_loop n i str cells ≡ ok (list_eq (take n (drop i str)) (take n (drop i cells)))
unfolding equals_loop
equals_loop_lem zero i str cells h k = refl
equals_loop_lem (suc n) i str cells h k =
    let (a, ea, da) = drop-cons str i (omega arith) in
    let (b, eb, db) = drop-cons cells i (omega arith) in
    rw (ea, eb, da, db)
      (elim (Bool-cases (a == b)) [
        | inl e ↦ rw (e) (equals_loop_lem n (i + 1) str cells (omega arith) (omega arith))
        | inr e ↦ rw (e) refl
      ])

-- operator== returns true exactly when the object stands for the string.
pub is_equal_lem :
    (m : ℕ) (s : PlainString) (str : List ℕ)
    → IsValid m s
    → (b : Bool) × (is_equal s str ≡ ok b) × ((b ≡ true) ↔ (to_list s ≡ str))
unfolding is_equal equals
is_equal_lem m s str v = elim (Bool-cases (s.size == length str)) [
  | inl e ↦
      let same : s.size ≡ length str = (==_iff _ _).0 e in
      let chars : take s.size (c_str str) ≡ str = rw same (take-c_str str) in
      let iff = list_eq_iff str (to_list s) in
      (
        list_eq str (to_list s),
        rw e (
            equals_loop_lem s.size 0 (c_str str) s.cells (omega (arith, length-append str (0 ∷ [])))
              (omega (arith, v.storage))
            ∙ ap (λ l. ok (list_eq l (to_list s))) chars),
        ((λ t. sym (iff.0 t)), (λ t. iff.1 (sym t))),
      )
  | inr e ↦ (false, rw e refl, ((λ t. cc), (λ t. absurd (differs e t))))
]
  where
    differs : (s.size == length str) ≡ false → to_list s ≡ str → ⊥
    differs e t = ground (arith, length-to_list m s v, ap length t)

-- at returns the character at a position within the length, and throws at any other.
pub at_lem :
    (m : ℕ) (s : PlainString) (pos : ℕ)
    → IsValid m s
    → ((c : ℕ) × (pos < s.size) × (at s pos ≡ ok c) × (get_elem? (to_list s) pos ≡ some c))
      ⊎ (s.size ≤ pos) × (at s pos ≡ err out_of_range)
unfolding at
at_lem m s pos v = elim (dec_lt pos s.size) [
  | yes p ↦
      let (c, e, d) = drop-cons s.cells pos (omega arith) in
      inl (c, p, rw (test p, e) refl, get_elem?-take s.cells s.size pos p ∙ e)
  | no p ↦ inr (omega arith, ground arith)
]
  where
    test : pos < s.size → leb s.size pos ≡ false
    test p = ground arith

NulFree-drop : (n : ℕ) (s : List ℕ) → NulFree s → NulFree (drop n s)
NulFree-drop zero s f = f
NulFree-drop (suc n) [] f = tt
NulFree-drop (suc n) (c ∷ s) f = NulFree-drop n s f.1

-- substr(pos) of a string without NULs is its rest from pos on.
pub substr_from_lem :
    (m : ℕ) (s : PlainString) (pos : ℕ)
    → IsValid m s
    → NulFree (to_list s)
    → pos ≤ s.size
    → substr_from s pos ≡ ok (drop pos (to_list s))
unfolding substr_from
substr_from_lem m s pos v f h = rw (drop-split s.cells s.size pos 0 v.ended h) (
    c_string-append (drop pos (to_list s)) (drop (suc s.size) s.cells)
      (NulFree-drop pos (to_list s) f))
