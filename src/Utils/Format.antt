-- ===== src/Utils/Format.antt =====
-- The loop of vformat in src/utils.cpp ends after two rounds at most.
use libsbox.Base.{
  ℕ, ◌+◌, ◌*◌, ◌<◌, ◌≡◌, refl, ◌∙◌, ap, arith, suc, lt→ltb, ℤ, pos, inl, inr, true, false,
  Bool-cases, ltb, List, length, some, ok,
}
use libsbox.Memory.{c_string}
use libsbox.Utils.{fits, next_size, vformat, vformat_loop}

-- vsnprintf(3): the result is the length of the whole text, whatever the size of the buffer; the
-- text, with its terminator, is in the buffer where it is shorter than that.
pub record Prints (print : ℕ → ℤ × List ℕ) (text : List ℕ) : Type 0 where
  pub whole : (size : ℕ) → (print size).0 ≡ pos (length text)
  pub written : (size : ℕ) → length text < size → c_string (print size).1 ≡ ok text

fits_pos : (size n : ℕ) → fits size (pos n) ≡ ltb n size
fits_pos size n = ground arith

next_pos : (size n : ℕ) → next_size size (pos n) ≡ n + 1
next_pos size n = ground arith

module _ (print : ℕ → ℤ × List ℕ) (text : List ℕ) (h : Prints print text) where
  round_ends : (n size : ℕ) → length text < size → vformat_loop (suc n) print size ≡ some (ok text)
  unfolding vformat_loop
  round_ends n size small =
      let fitting : fits size (print size).0 ≡ true =
        ap (fits size) (h.whole size) ∙ fits_pos size (length text) ∙ lt→ltb _ _ small in
      rw fitting (ap some (h.written size small))

  round_grows :
      (n size : ℕ)
      → ltb (length text) size ≡ false
      → vformat_loop (suc n) print size ≡ vformat_loop n print (length text + 1)
  unfolding vformat_loop
  round_grows n size large =
      let wide : fits size (print size).0 ≡ false =
        ap (fits size) (h.whole size) ∙ fits_pos size (length text) ∙ large in
      let next : next_size size (print size).0 ≡ length text + 1 =
        ap (next_size size) (h.whole size) ∙ next_pos size (length text) in
      rw (wide, next) refl

  -- For a vsnprintf that returns the length of the whole text and writes it where it fits, the
  -- loop of vformat ends in two rounds at most and returns the text, whatever its length and that
  -- of the format.
  pub vformat_lem : (n : ℕ) (fmt : List ℕ) → vformat (suc (suc n)) print fmt ≡ some (ok text)
  unfolding vformat
  vformat_lem n fmt = elim (Bool-cases (ltb (length text) (length fmt * 2))) [
    | inl small ↦ round_ends (suc n) (length fmt * 2) (ground arith)
    | inr large ↦
        round_grows (suc n) (length fmt * 2) large ∙ round_ends n (length text + 1) (omega arith)
  ]
