-- ===== src/Transfer/Chunk.antt =====
-- One chunk: the buffer is left with its length, and the text is the chunk up to its first NUL.
use libsbox.Base.{
  ℕ, zero, suc, ◌+◌, ◌≤◌, ◌<◌, ◌≡◌, refl, ap, arith, Bool-cases, inl, inr, List, [], ◌∷◌, ◌++◌,
  ◌==◌, true, false, lt→ltb, if◌then◌else◌, length, set, drop, ltb, leb, length-append, ok,
}
use libsbox.Memory.{c_string, NulFree}
use libsbox.Transfer.{fill, take_chunk}

-- The bytes before the first NUL.
abbrev pub until_nul : List ℕ → List ℕ
until_nul [] = []
until_nul (c ∷ cs) = if c == 0 then [] else c ∷ until_nul cs

c_string-until_nul : (chunk rest : List ℕ) → c_string (chunk ++ (0 ∷ rest)) ≡ ok (until_nul chunk)
unfolding c_string
c_string-until_nul [] rest = refl
c_string-until_nul (c ∷ chunk) rest = ground (arith, c_string-until_nul chunk rest)

-- Where the NUL is written.
set-drop :
    (chunk buf : List ℕ)
    → length chunk < length buf
    → set (chunk ++ drop (length chunk) buf) (length chunk) 0
      ≡ chunk ++ (0 ∷ drop (suc (length chunk)) buf)
set-drop [] [] h = elim h [ ]
set-drop [] (b ∷ buf) h = refl
set-drop (c ∷ chunk) [] h = elim h [ ]
set-drop (c ∷ chunk) (b ∷ buf) h = ap (◌∷◌ c) (set-drop chunk buf (omega arith))

pub length-drop : (n : ℕ) (buf : List ℕ) → n ≤ length buf → length (drop n buf) + n ≡ length buf
length-drop zero buf h = omega arith
length-drop (suc n) [] h = elim h [ ]
length-drop (suc n) (b ∷ buf) h = omega (arith, length-drop n buf (omega arith))

abbrev pub left_over : List ℕ → List ℕ → List ℕ
left_over buf chunk = chunk ++ (0 ∷ drop (suc (length chunk)) buf)

pub take_chunk_lem :
    (buf chunk : List ℕ)
    → length chunk < length buf
    → take_chunk buf chunk ≡ ok (until_nul chunk, left_over buf chunk)
unfolding take_chunk fill
take_chunk_lem buf chunk h =
    let fits : leb (length chunk) (length buf) ≡ true = ground arith in
    let inside : ltb (length chunk) (length (chunk ++ drop (length chunk) buf)) ≡ true =
      lt→ltb _ _ (
        omega (
          arith,
          length-append chunk (drop (length chunk) buf),
          length-drop (length chunk) buf (omega arith),
        )) in
    rw (fits, inside, set-drop chunk buf h, c_string-until_nul chunk _) refl

pub length-left_over :
    (buf chunk : List ℕ) → length chunk < length buf → length (left_over buf chunk) ≡ length buf
length-left_over buf chunk h = omega (
  arith,
  length-append chunk (0 ∷ drop (suc (length chunk)) buf),
  length-drop (suc (length chunk)) buf (omega arith),
)

-- A chunk without a NUL is its own text.
pub until_nul-NulFree : (chunk : List ℕ) → NulFree chunk → until_nul chunk ≡ chunk
until_nul-NulFree [] h = refl
until_nul-NulFree (c ∷ chunk) h = ground (arith, until_nul-NulFree chunk h.1)

-- The text of a chunk is shorter exactly where the chunk has a NUL, and then nothing behind it counts.
pub until_nul-append_whole :
    (chunk rest : List ℕ)
    → ltb (length (until_nul chunk)) (length chunk) ≡ false
    → until_nul (chunk ++ rest) ≡ until_nul chunk ++ until_nul rest
until_nul-append_whole [] rest h = refl
until_nul-append_whole (c ∷ chunk) rest h = elim (Bool-cases (c == 0)) [
  | inl e ↦ let h' = rw e at h in let shorter = lt→ltb 0 (suc (length chunk)) (omega arith) in cc
  | inr e ↦
      let h' = rw e at h in rw e (ap (◌∷◌ c) (until_nul-append_whole chunk rest (ground arith)))
]

pub until_nul-append_cut :
    (chunk rest : List ℕ)
    → ltb (length (until_nul chunk)) (length chunk) ≡ true
    → until_nul (chunk ++ rest) ≡ until_nul chunk
until_nul-append_cut [] rest h = cc
until_nul-append_cut (c ∷ chunk) rest h = elim (Bool-cases (c == 0)) [
  | inl e ↦ rw e refl
  | inr e ↦ let h' = rw e at h in rw e (ap (◌∷◌ c) (until_nul-append_cut chunk rest (ground arith)))
]
