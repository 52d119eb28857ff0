-- ===== src/PlainString/Loops.antt =====
-- The copying loops of src/plain_string.h, round by round.
use native.Mathlib.Numerals.{add-one}
use libsbox.Base.{
  ℕ, zero, suc, ◌+◌, ◌≤◌, ◌<◌, ◌≡◌, refl, ap, sym, ◌∙◌, List, ◌∷◌, ◌++◌, arith, lt→ltb, length,
  get_elem?, set, take, drop, length-set, take-set, drop-cons, append_assoc, append-nil, ok, err,
  inl, inr, Option-cases, Bool-cases, ltb,
}
use libsbox.Memory.{out_of_bounds, size_inc, size_mod}
use libsbox.PlainString.{PlainString, copy_loop, append_loop, to_list}

-- One round: the next character goes behind those that are there.
take-set-drop :
    (str cells : List ℕ) (i j n c : ℕ)
    → j < length cells
    → drop i str ≡ c ∷ drop (i + 1) str
    → take (j + 1) (set cells j c) ++ take n (drop (i + 1) str)
      ≡ take j cells ++ take (suc n) (drop i str)
take-set-drop str cells i j n c h d = rw (add-one j, take-set cells j c h, d, append_assoc) refl

-- The loop of `set` ends: the first `i + n` cells are the first `i` of before and the `n`
-- characters read, and the array keeps its length.
pub copy_loop_ok :
    (n i : ℕ) (str cells : List ℕ)
    → i + n ≤ length str
    → i + n ≤ length cells
    → (out : List ℕ) × (copy_loop n i str cells ≡ ok out)
      × (length out ≡ length cells)
      × (take (i + n) out ≡ take i cells ++ take n (drop i str))
unfolding copy_loop
copy_loop_ok zero i str cells h k =
    (cells, refl, refl, ap (λ k. take k cells) (omega arith) ∙ sym (append-nil _))
copy_loop_ok (suc n) i str cells h k =
    let (c, e, d) = drop-cons str i (omega arith) in
    let (out, run, len, chars) =
      copy_loop_ok n (i + 1) str (set cells i c) (omega arith)
        (omega (arith, length-set cells i c)) in
    (
      out,
      rw (e, lt→ltb i (length cells) (omega arith)) run,
      len ∙ length-set cells i c,
      ap (λ k. take k out) (omega arith) ∙ chars ∙ take-set-drop str cells i i n c (omega arith) d,
    )

-- Past the end of the array the loop of `set` faults, whatever the string is.
pub copy_loop_fault :
    (n i : ℕ) (str cells : List ℕ)
    → i ≤ length cells
    → length cells < i + n
    → copy_loop n i str cells ≡ err out_of_bounds
unfolding copy_loop
copy_loop_fault zero i str cells h k = absurd (omega arith)
copy_loop_fault (suc n) i str cells h k = elim (Option-cases (get_elem? str i)) [
  | inl e ↦ rw e refl
  | inr (c, e) ↦ elim (Bool-cases (ltb i (length cells))) [
    | inl p ↦
        rw (e, p)
          (copy_loop_fault n (i + 1) str (set cells i c) (ground (arith, length-set cells i c))
            (ground (arith, length-set cells i c)))
    | inr p ↦ rw (e, p) refl
  ]
]

-- The loop of `append` ends with the `n` characters read behind those of before.
pub append_loop_ok :
    (n i : ℕ) (str : List ℕ) (s : PlainString)
    → i + n ≤ length str
    → s.size + n ≤ length s.cells
    → length s.cells < size_mod
    → (t : PlainString) × (append_loop n i str s ≡ ok t)
      × (t.size ≡ s.size + n)
      × (length t.cells ≡ length s.cells)
      × (to_list t ≡ to_list s ++ take n (drop i str))
unfolding append_loop
append_loop_ok zero i str s h k m = (s, refl, omega arith, refl, sym (append-nil _))
append_loop_ok (suc n) i str s h k m =
    let (c, e, d) = drop-cons str i (omega arith) in
    let inc : size_inc s.size ≡ s.size + 1 = omega arith in
    let next : PlainString = record { size = size_inc s.size; cells = set s.cells s.size c } in
    let (t, run, size, len, chars) =
      append_loop_ok n (i + 1) str next (omega arith) (omega (arith, length-set s.cells s.size c))
        (omega (arith, length-set s.cells s.size c)) in
    (
      t,
      rw (e, lt→ltb s.size (length s.cells) (omega arith)) run,
      omega arith,
      len ∙ length-set s.cells s.size c,
      chars
          ∙ ap (λ k. take k next.cells ++ take n (drop (i + 1) str)) inc
          ∙ take-set-drop str s.cells i s.size n c (omega arith) d,
    )

-- Past the end of the array the loop of `append` faults, whatever the string is.
pub append_loop_fault :
    (n i : ℕ) (str : List ℕ) (s : PlainString)
    → s.size ≤ length s.cells
    → length s.cells < s.size + n
    → length s.cells < size_mod
    → append_loop n i str s ≡ err out_of_bounds
unfolding append_loop
append_loop_fault zero i str s h k m = absurd (omega arith)
append_loop_fault (suc n) i str s h k m = elim (Option-cases (get_elem? str i)) [
  | inl e ↦ rw e refl
  | inr (c, e) ↦ elim (Bool-cases (ltb s.size (length s.cells))) [
    | inl p ↦
        rw (e, p)
          (append_loop_fault n (i + 1) str
            (record { size = size_inc s.size; cells = set s.cells s.size c })
            (ground (arith, length-set s.cells s.size c))
            (ground (arith, length-set s.cells s.size c))
            (omega (arith, length-set s.cells s.size c)))
    | inr p ↦ rw (e, p) refl
  ]
]
