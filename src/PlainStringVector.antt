-- ===== src/PlainStringVector.antt =====
-- PlainStringVector<MaxItems, MaxTotalSize> of src/plain_string_vector.h: argv and env in shared
-- memory. The strings lie one behind the other in `text` (`data_`), each with its NUL, and `items`
-- holds a pointer to each and a null pointer at the end. A pointer into `data_` is the offset of its
-- character, and nullptr is `none`.
pub mod Laws
use libsbox.Base.{
  ℕ, zero, suc, ◌+◌, ◌≡◌, List, [], ◌∷◌, ◌++◌, Option, none, some, length, drop, Result, ok, err,
  ◌>>=◌,
}
use libsbox.Memory.{Fault, size_dec, c_string}
use libsbox.PlainString
use libsbox.PlainString.{PlainString}
use libsbox.PlainVector
use libsbox.PlainVector.{PlainVector}

abbrev pub Pointer : Type 0
Pointer = Option ℕ

pub record PlainStringVector : Type 0 where
  pub items : PlainVector Pointer
  pub text : PlainString

-- PlainStringVector(), at its two limits
unfoldable pub init : ℕ → ℕ → Result Fault PlainStringVector
init max_items max_total = do
  items ← PlainVector.push_back (PlainVector.default (max_items + 1)) none
  ok (record { items = items; text = PlainString.default (max_total + max_items) })

unfoldable pub count : PlainStringVector → ℕ
count v = size_dec v.items.size

-- operator[]
unfoldable pub index : PlainStringVector → ℕ → Result Fault Pointer
index v pos = PlainVector.index v.items pos

unfoldable pub add : PlainStringVector → List ℕ → Result Fault PlainStringVector
add v str = do
  shorter ← PlainVector.pop_back v.items
  pointed ← PlainVector.push_back shorter (some v.text.size)
  items ← PlainVector.push_back pointed none
  appended ← PlainString.append v.text str
  text ← PlainString.append_char appended 0
  ok (record { items = items; text = text })

unfoldable pub clear : PlainStringVector → Result Fault PlainStringVector
clear v = do
  emptied ← PlainVector.clear v.items
  items ← PlainVector.push_back emptied none
  text ← PlainString.clear v.text
  ok (record { items = items; text = text })

-- for (const auto &arg : args) v.add(arg), as src/container.cpp fills argv and env
unfoldable pub add_all : PlainStringVector → List (List ℕ) → Result Fault PlainStringVector
add_all v [] = ok v
add_all v (str ∷ strs) = do w ← add v str; add_all w strs

deref : PlainStringVector → Pointer → Result Fault (Option (List ℕ))
unfolding c_string
deref v none = ok none
deref v (some offset) = do s ← c_string (drop offset v.text.cells); ok (some s)

-- The C string that a reader of the pointer array (strcmp, execvpe) finds at a position, or `none`
-- at the null pointer.
unfoldable pub argument : PlainStringVector → ℕ → Result Fault (Option (List ℕ))
unfolding index deref
argument v pos = do p ← index v pos; deref v p

-- The characters of the strings, each with its NUL.
abbrev pub packed : List (List ℕ) → List ℕ
packed [] = []
packed (s ∷ ss) = s ++ (0 ∷ packed ss)

-- The offsets at which the strings start, from `start` on.
abbrev pub offsets : ℕ → List (List ℕ) → List Pointer
offsets start [] = []
offsets start (s ∷ ss) = some start ∷ offsets (start + (length s + 1)) ss

-- The number of characters, without the NULs.
abbrev pub total_size : List (List ℕ) → ℕ
total_size [] = 0
total_size (s ∷ ss) = length s + total_size ss

-- The object holds exactly these strings.
pub record Packs (max_items max_total : ℕ) (v : PlainStringVector) (ss : List (List ℕ))
    : Type 0 where
  pub pointers : PlainVector.Holds (max_items + 1) v.items (offsets 0 ss ++ (none ∷ []))
  pub chars_valid : PlainString.IsValid (max_total + max_items) v.text
  pub chars : PlainString.to_list v.text ≡ packed ss
