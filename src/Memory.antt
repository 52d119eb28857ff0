-- ===== src/Memory.antt =====
-- Fixed arrays and C strings, as the containers of src/plain_string.h, src/plain_vector.h and
-- src/plain_string_vector.h use them: memory is a list of cells, and an access outside it is the
-- error `out_of_bounds` (undefined behaviour in C++). `size_t` arithmetic wraps at 2 ^ 64.
use libsbox.Base.{
  ℕ, ◌+◌, ◌-◌, ◌%◌, ◌^◌, ◌<◌, ◌≡◌, refl, List, [], ◌∷◌, ◌++◌, arith, ltb, ◌==◌, if◌then◌else◌,
  length, get_elem?, set, Result, ok, err, ◌>>=◌, or_fail,
}

-- `out_of_range` is the exception std::out_of_range; `no_object` is the use of a cell in which no
-- object lives, undefined behaviour too.
pub data Fault : Type 0 where
  out_of_bounds out_of_range no_object : Fault

abbrev pub size_mod : ℕ
size_mod = 2 ^ 64

-- `size_++` and `size_--`
abbrev pub size_inc : ℕ → ℕ
size_inc n = (n + 1) % size_mod

abbrev pub size_dec : ℕ → ℕ
size_dec n = (n + size_mod - 1) % size_mod

module _ {ℓ} {A : Type ℓ} where
  abbrev pub load : List A → ℕ → Result Fault A
  load cells i = or_fail (get_elem? cells i) out_of_bounds

  abbrev pub store : List A → ℕ → A → Result Fault (List A)
  store cells i v = if ltb i (length cells) then ok (set cells i v) else err out_of_bounds

-- str.c_str(): the characters with the terminator behind them.
abbrev pub c_str : List ℕ → List ℕ
c_str s = s ++ (0 ∷ [])

-- The characters before the first NUL, which std::string(const char *) and strlen look for.
unfoldable pub c_string : List ℕ → Result Fault (List ℕ)
c_string [] = err out_of_bounds
c_string (c ∷ cs) = if c == 0 then ok [] else (do rest ← c_string cs; ok (c ∷ rest))

unfoldable pub strlen : List ℕ → Result Fault ℕ
unfolding c_string
strlen mem = do s ← c_string mem; ok (length s)

-- No NUL among the characters.
abbrev pub NulFree : List ℕ → Type 0
NulFree [] = Unit
NulFree (c ∷ cs) = (0 < c) × NulFree cs

pub c_string-append : (s rest : List ℕ) → NulFree s → c_string (s ++ (0 ∷ rest)) ≡ ok s
unfolding c_string
c_string-append [] rest h = refl
c_string-append (c ∷ s) rest h = ground (arith, c_string-append s rest h.1)

pub strlen-c_str : (s : List ℕ) → NulFree s → strlen (c_str s) ≡ ok (length s)
unfolding strlen
strlen-c_str s h = ground (arith, c_string-append s [] h)
