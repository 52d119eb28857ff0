-- ===== src/PlainString.antt =====
-- PlainString<MaxSize> of src/plain_string.h: a string in a fixed array inside the object, so that
-- it can live in shared memory. `cells` is `data_`, an array of MaxSize + 1 characters.
-- A `const char *` is the list of the bytes from the pointer on, a `std::string` the list of its
-- characters, handed over as `c_str` and `size()`. The two overloads of each access, for a constant
-- object and another, are one function.
pub mod Loops
pub mod Assign
pub mod Observe
use libsbox.Base.{
  ℕ, zero, suc, ◌+◌, ◌≤◌, ◌<◌, ◌≡◌, Bool, true, false, List, [], ◌∷◌, some, leb, ◌==◌,
  if◌then◌else◌, length, get_elem?, take, drop, replicate, Result, ok, err, ◌>>=◌, not,
}
use libsbox.Memory.{
  Fault, out_of_bounds, out_of_range, size_mod, size_inc, size_dec, load, store, c_str, c_string,
  strlen,
}

pub record PlainString : Type 0 where
  pub size : ℕ
  pub cells : List ℕ

-- PlainString() = default
unfoldable pub default : ℕ → PlainString
default max_size = record { size = 0; cells = replicate (max_size + 1) 0 }

-- for (i = 0; i < len; ++i) data_[i] = str[i], with the rounds left and `i`
pub copy_loop : ℕ → ℕ → List ℕ → List ℕ → Result Fault (List ℕ)
copy_loop zero i str cells = ok cells
copy_loop (suc n) i str cells = do
  c ← load str i
  cells' ← store cells i c
  copy_loop n (i + 1) str cells'

pub set_chars : PlainString → List ℕ → ℕ → Result Fault PlainString
unfolding copy_loop
set_chars s str len = do
  copied ← copy_loop len 0 str s.cells
  ended ← store copied len 0
  ok (record { size = len; cells = ended })

-- for (i = 0; i < len; ++i) { data_[size_] = str[i]; size_++; }
pub append_loop : ℕ → ℕ → List ℕ → PlainString → Result Fault PlainString
append_loop zero i str s = ok s
append_loop (suc n) i str s = do
  c ← load str i
  cells' ← store s.cells s.size c
  append_loop n (i + 1) str (record { size = size_inc s.size; cells = cells' })

pub append_chars : PlainString → List ℕ → ℕ → Result Fault PlainString
unfolding append_loop
append_chars s str len = do
  t ← append_loop len 0 str s
  ended ← store t.cells t.size 0
  ok (record t { cells = ended })

-- for (i = 0; i < size_; ++i) if (str[i] != data_[i]) return false;
pub equals_loop : ℕ → ℕ → List ℕ → List ℕ → Result Fault Bool
equals_loop zero i str cells = ok true
equals_loop (suc n) i str cells = do
  a ← load str i
  b ← load cells i
  let rest = equals_loop n (i + 1) str cells
  if a == b then rest else ok false

pub equals : PlainString → List ℕ → ℕ → Result Fault Bool
unfolding equals_loop
equals s str len = if s.size == len then equals_loop s.size 0 str s.cells else ok false

-- PlainString(const std::string &)
unfoldable pub of_string : ℕ → List ℕ → Result Fault PlainString
unfolding default set_chars
of_string max_size str = set_chars (default max_size) (c_str str) (length str)

unfoldable pub at : PlainString → ℕ → Result Fault ℕ
at s pos = if leb s.size pos then err out_of_range else load s.cells pos

-- operator[]
unfoldable pub index : PlainString → ℕ → Result Fault ℕ
index s pos = load s.cells pos

unfoldable pub front : PlainString → Result Fault ℕ
front s = load s.cells 0

unfoldable pub back : PlainString → Result Fault ℕ
back s = load s.cells (size_dec s.size)

unfoldable pub is_empty : PlainString → Bool
is_empty s = s.size == 0

unfoldable pub clear : PlainString → Result Fault PlainString
clear s = do ended ← store s.cells 0 0; ok (record { size = 0; cells = ended })

unfoldable pub push_back : PlainString → ℕ → Result Fault PlainString
push_back s value = do
  written ← store s.cells s.size value
  ended ← store written (size_inc s.size) 0
  ok (record { size = size_inc s.size; cells = ended })

unfoldable pub pop_back : PlainString → Result Fault PlainString
pop_back s = do
  ended ← store s.cells (size_dec s.size) 0
  ok (record { size = size_dec s.size; cells = ended })

-- operator=(const std::string &)
unfoldable pub assign : PlainString → List ℕ → Result Fault PlainString
unfolding set_chars
assign s str = set_chars s (c_str str) (length str)

-- operator=(const char *)
unfoldable pub assign_ptr : PlainString → List ℕ → Result Fault PlainString
unfolding set_chars strlen
assign_ptr s str = do len ← strlen str; set_chars s str len

-- operator+=(const std::string &)
unfoldable pub append : PlainString → List ℕ → Result Fault PlainString
unfolding append_chars
append s str = append_chars s (c_str str) (length str)

-- operator+=(const char *)
unfoldable pub append_ptr : PlainString → List ℕ → Result Fault PlainString
unfolding append_chars strlen
append_ptr s str = do len ← strlen str; append_chars s str len

-- operator+=(const char &)
unfoldable pub append_char : PlainString → ℕ → Result Fault PlainString
unfolding push_back
append_char s ch = push_back s ch

-- operator==(const std::string &)
unfoldable pub is_equal : PlainString → List ℕ → Result Fault Bool
unfolding equals
is_equal s str = equals s (c_str str) (length str)

-- operator==(const char *)
unfoldable pub is_equal_ptr : PlainString → List ℕ → Result Fault Bool
unfolding equals strlen
is_equal_ptr s str = do len ← strlen str; equals s str len

unfoldable pub substr_from : PlainString → ℕ → Result Fault (List ℕ)
unfolding c_string
substr_from s pos = c_string (drop pos s.cells)

unfoldable pub substr : PlainString → ℕ → ℕ → Result Fault (List ℕ)
substr s pos len =
    if leb (pos + len) (length s.cells) then ok (take len (drop pos s.cells)) else err out_of_bounds

-- The string that the object stands for.
abbrev pub to_list : PlainString → List ℕ
to_list s = take s.size s.cells

-- What every operation relies on and keeps: the array has its size, which a size_t can count, the
-- length is within the limit, and a NUL follows the characters.
pub record IsValid (max_size : ℕ) (s : PlainString) : Type 0 where
  pub storage : length s.cells ≡ max_size + 1
  pub small : max_size + 1 < size_mod
  pub within : s.size ≤ max_size
  pub ended : get_elem? s.cells s.size ≡ some 0
