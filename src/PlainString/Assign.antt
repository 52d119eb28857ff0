-- ===== src/PlainString/Assign.antt =====
-- What the operations of src/plain_string.h that change the string do, and when they fault.
use native.Mathlib.Decide.{dec_lt, dec_le}
use libsbox.Base.{
  ℕ, suc, ◌+◌, ◌-◌, ◌≤◌, ◌<◌, ◌≡◌, refl, ap, sym, ◌∙◌, List, [], ◌∷◌, ◌++◌, arith, lt→ltb,
  ltb-false, length, set, take, length-set, length-append, length-replicate, length-take, take-set,
  take-set_le, take-take, get_elem?-set_self, Result, ok, err, ◌⊎◌, inl, inr,
}
use libsbox.Memory.{
  Fault, out_of_bounds, size_inc, size_dec, size_mod, c_str, NulFree, strlen-c_str,
}
use libsbox.PlainString.{
  PlainString, IsValid, to_list, default, of_string, set_chars, append_chars, assign, assign_ptr,
  append, push_back, pop_back, append_char, clear,
}
use libsbox.PlainString.Loops.{copy_loop_ok, copy_loop_fault, append_loop_ok, append_loop_fault}

-- The call returns a valid object that stands for `chars`.
abbrev pub Stores : ℕ → List ℕ → Result Fault PlainString → Type 0
Stores m chars r = (t : PlainString) × (r ≡ ok t) × IsValid m t × (to_list t ≡ chars)

pub default-IsValid :
    (m : ℕ) → m + 1 < size_mod → IsValid m (default m) × (to_list (default m) ≡ [])
unfolding default
default-IsValid m h = (
  record {
    storage = length-replicate (m + 1) 0;
    small = h;
    within = omega arith;
    ended = let e : m + 1 ≡ suc m = omega arith in rw e refl;
  },
  refl,
)

-- The characters of a std::string, read from its `c_str`.
pub take-c_str : (s : List ℕ) → take (length s) (c_str s) ≡ s
take-c_str [] = refl
take-c_str (c ∷ s) = ap (◌∷◌ c) (take-c_str s)

length-c_str : (s : List ℕ) → length (c_str s) ≡ length s + 1
length-c_str s = length-append s (0 ∷ [])

-- Writing the terminator at the length keeps the characters, and makes the object valid.
terminate-IsValid :
    (m n : ℕ) (cells : List ℕ)
    → length cells ≡ m + 1
    → m + 1 < size_mod
    → n ≤ m
    → IsValid m (record { size = n; cells = set cells n 0 })
terminate-IsValid m n cells e h k = record {
  storage = length-set cells n 0 ∙ e;
  small = h;
  within = k;
  ended = get_elem?-set_self cells n 0 (omega arith);
}

pub assign_ok :
    (m : ℕ) (s : PlainString) (str : List ℕ)
    → IsValid m s
    → length str ≤ m
    → Stores m str (assign s str)
unfolding assign set_chars
assign_ok m s str v h =
    let (out, run, len, chars) =
      copy_loop_ok (length str) 0 (c_str str) s.cells (omega (arith, length-c_str str))
        (omega (arith, v.storage)) in
    let n = length str in
    let zero_add : 0 + n ≡ n = omega arith in
    (
      record { size = n; cells = set out n 0 },
      rw (run, lt→ltb n (length out) (omega arith)) refl,
      terminate-IsValid m n out (len ∙ v.storage) v.small h,
      take-set_le out n n 0 (omega arith)
          ∙ ap (λ k. take k out) (sym zero_add)
          ∙ chars
          ∙ take-c_str str,
    )

pub assign_fault :
    (m : ℕ) (s : PlainString) (str : List ℕ)
    → IsValid m s
    → m < length str
    → assign s str ≡ err out_of_bounds
unfolding assign set_chars
assign_fault m s str v h = elim (dec_lt (length s.cells) (length str)) [
  | yes p ↦ rw (copy_loop_fault (length str) 0 (c_str str) s.cells (omega arith) (omega arith)) refl
  | no p ↦
      let (out, run, len, chars) =
        copy_loop_ok (length str) 0 (c_str str) s.cells (omega (arith, length-c_str str))
          (omega arith) in
      rw (run, ltb-false (length str) (length out) (omega arith)) refl
]

-- operator= of a std::string stores it if it has at most MaxSize characters, and otherwise writes
-- outside the array.
pub assign_lem :
    (m : ℕ) (s : PlainString) (str : List ℕ)
    → IsValid m s
    → (length str ≤ m) × Stores m str (assign s str)
      ⊎ (m < length str) × (assign s str ≡ err out_of_bounds)
assign_lem m s str v = elim (dec_le (length str) m) [
  | yes p ↦ inl (p, assign_ok m s str v p)
  | no p ↦ inr (omega arith, assign_fault m s str v (omega arith))
]

pub append_ok :
    (m : ℕ) (s : PlainString) (str : List ℕ)
    → IsValid m s
    → s.size + length str ≤ m
    → Stores m (to_list s ++ str) (append s str)
unfolding append append_chars
append_ok m s str v h =
    let (t, run, size, len, chars) =
      append_loop_ok (length str) 0 (c_str str) s (omega (arith, length-c_str str)) (omega arith)
        (omega arith) in
    (
      record { size = t.size; cells = set t.cells t.size 0 },
      rw (run, lt→ltb t.size (length t.cells) (omega arith)) refl,
      terminate-IsValid m t.size t.cells (len ∙ v.storage) v.small (omega arith),
      take-set_le t.cells t.size t.size 0 (omega arith)
          ∙ chars
          ∙ ap (◌++◌ (to_list s)) (take-c_str str),
    )

pub append_fault :
    (m : ℕ) (s : PlainString) (str : List ℕ)
    → IsValid m s
    → m < s.size + length str
    → append s str ≡ err out_of_bounds
unfolding append append_chars
append_fault m s str v h = elim (dec_lt (length s.cells) (s.size + length str)) [
  | yes p ↦
      rw (append_loop_fault (length str) 0 (c_str str) s (omega arith) (omega arith) (omega arith))
        refl
  | no p ↦
      let (t, run, size, len, chars) =
        append_loop_ok (length str) 0 (c_str str) s (omega (arith, length-c_str str)) (omega arith)
          (omega arith) in
      rw (run, ltb-false t.size (length t.cells) (omega arith)) refl
]

-- operator+= of a std::string appends it if the result has at most MaxSize characters, and
-- otherwise writes outside the array.
pub append_lem :
    (m : ℕ) (s : PlainString) (str : List ℕ)
    → IsValid m s
    → (s.size + length str ≤ m) × Stores m (to_list s ++ str) (append s str)
      ⊎ (m < s.size + length str) × (append s str ≡ err out_of_bounds)
append_lem m s str v = elim (dec_le (s.size + length str) m) [
  | yes p ↦ inl (p, append_ok m s str v p)
  | no p ↦ inr (omega arith, append_fault m s str v (omega arith))
]

pub push_back_ok :
    (m : ℕ) (s : PlainString) (c : ℕ)
    → IsValid m s
    → s.size < m
    → Stores m (to_list s ++ (c ∷ [])) (push_back s c)
unfolding push_back
push_back_ok m s c v h =
    let n = s.size in
    let inc : size_inc n ≡ n + 1 = omega arith in
    let inc' : n + 1 ≡ suc n = omega arith in
    let written = set s.cells n c in
    let len : length written ≡ m + 1 = length-set s.cells n c ∙ v.storage in
    (
      record { size = size_inc n; cells = set written (size_inc n) 0 },
      rw
          (
            lt→ltb n (length s.cells) (omega arith),
            lt→ltb (size_inc n) (length written) (omega arith),
          )
          refl,
      terminate-IsValid m (size_inc n) written len v.small (omega arith),
      rw (inc, inc')
          (take-set_le written (suc n) (suc n) 0 (omega arith)
            ∙ take-set s.cells n c (omega arith)),
    )

pub append_char_ok :
    (m : ℕ) (s : PlainString) (c : ℕ)
    → IsValid m s
    → s.size < m
    → Stores m (to_list s ++ (c ∷ [])) (append_char s c)
unfolding append_char
append_char_ok m s c v h = push_back_ok m s c v h

push_back_fault :
    (m : ℕ) (s : PlainString) (c : ℕ) → IsValid m s → s.size ≡ m → push_back s c ≡ err out_of_bounds
unfolding push_back
push_back_fault m s c v h =
    rw
      (
        lt→ltb s.size (length s.cells) (omega arith),
        ltb-false (size_inc s.size) (length (set s.cells s.size c))
            (omega (arith, length-set s.cells s.size c)),
      )
      refl

-- push_back adds the character if there is room, and otherwise writes its NUL outside the array.
pub push_back_lem :
    (m : ℕ) (s : PlainString) (c : ℕ)
    → IsValid m s
    → (s.size < m) × Stores m (to_list s ++ (c ∷ [])) (push_back s c)
      ⊎ (s.size ≡ m) × (push_back s c ≡ err out_of_bounds)
push_back_lem m s c v = elim (dec_lt s.size m) [
  | yes p ↦ inl (p, push_back_ok m s c v p)
  | no p ↦ let full : s.size ≡ m = omega arith in inr (full, push_back_fault m s c v full)
]

-- pop_back removes the last character; on an empty string the size wraps round and the NUL is
-- written outside the array.
pub pop_back_lem :
    (m : ℕ) (s : PlainString)
    → IsValid m s
    → (0 < s.size) × Stores m (take (s.size - 1) (to_list s)) (pop_back s)
      ⊎ (s.size ≡ 0) × (pop_back s ≡ err out_of_bounds)
unfolding pop_back
pop_back_lem m s v = elim (dec_lt 0 s.size) [
  | yes p ↦
      let dec : size_dec s.size ≡ s.size - 1 = omega arith in
      inl (
        p,
        (
          record { size = size_dec s.size; cells = set s.cells (size_dec s.size) 0 },
          rw (lt→ltb (size_dec s.size) (length s.cells) (omega arith)) refl,
          terminate-IsValid m (size_dec s.size) s.cells v.storage v.small (omega arith),
          rw dec (
              take-set_le s.cells (s.size - 1) (s.size - 1) 0 (omega arith)
              ∙ sym (take-take s.cells (s.size - 1) s.size (omega arith))),
        ),
      )
  | no p ↦ inr (omega arith, rw (ltb-false (size_dec s.size) (length s.cells) (omega arith)) refl)
]

-- clear leaves a valid empty string.
pub clear_lem : (m : ℕ) (s : PlainString) → IsValid m s → Stores m [] (clear s)
unfolding clear
clear_lem m s v = (
  record { size = 0; cells = set s.cells 0 0 },
  rw (lt→ltb 0 (length s.cells) (omega arith)) refl,
  terminate-IsValid m 0 s.cells v.storage v.small (omega arith),
  refl,
)

-- The constructor from a std::string stores it.
pub of_string_ok :
    (m : ℕ) (str : List ℕ) → m + 1 < size_mod → length str ≤ m → Stores m str (of_string m str)
unfolding of_string assign
of_string_ok m str h k = assign_ok m (default m) str (default-IsValid m h).0 k

pub length-to_list : (m : ℕ) (s : PlainString) → IsValid m s → length (to_list s) ≡ s.size
length-to_list m s v = length-take s.size s.cells (omega arith)

-- operator= of a C string stores its characters, if they fit.
pub assign_ptr_ok :
    (m : ℕ) (s : PlainString) (str : List ℕ)
    → IsValid m s
    → NulFree str
    → length str ≤ m
    → Stores m str (assign_ptr s (c_str str))
unfolding assign_ptr assign
assign_ptr_ok m s str v f h = rw (strlen-c_str str f) (assign_ok m s str v h)
