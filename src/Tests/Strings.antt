-- ===== src/Tests/Strings.antt =====
-- The containers of src/plain_string.h, src/plain_vector.h and src/plain_string_vector.h at small
-- limits.
use libsbox.Base.{
  ℕ, ◌+◌, ◌≤◌, ◌<◌, ◌≡◌, ◌⊎◌, ◌↔◌, refl, arith, Bool, true, List, [], ◌∷◌, ◌++◌, none, some, length,
  get_elem?, codes, ok, err,
}
use libsbox.Memory.{out_of_bounds, out_of_range}
use libsbox.PlainString
use libsbox.PlainString.{PlainString, IsValid, to_list}
use libsbox.PlainString.Assign.{Stores, assign_lem, append_lem, push_back_lem}
use libsbox.PlainString.Observe.{is_equal_lem, at_lem}
use libsbox.PlainVector
use libsbox.PlainVector.{PlainVector, Holds}
use libsbox.PlainVector.Laws as VectorLaws
use libsbox.PlainStringVector
use libsbox.PlainStringVector.{PlainStringVector, Packs, total_size, argument, count}
use libsbox.PlainStringVector.Laws as Strings

-- "ab" in an object with room for 3 characters
abbrev word : PlainString
word = record { size = 2; cells = b'a' ∷ b'b' ∷ 0 ∷ 0 ∷ [] }

word-IsValid : IsValid 3 word
word-IsValid = record { storage = refl; small = omega arith; within = omega arith; ended = refl }

assign_lem_example :
    (length (codes "xyz") ≤ 3) × Stores 3 (codes "xyz") (PlainString.assign word (codes "xyz"))
    ⊎ (3 < length (codes "xyz")) × (PlainString.assign word (codes "xyz") ≡ err out_of_bounds)
assign_lem_example = assign_lem 3 word (codes "xyz") word-IsValid

append_lem_example :
    (2 + length (codes "xyz") ≤ 3)
      × Stores 3 (to_list word ++ codes "xyz") (PlainString.append word (codes "xyz"))
    ⊎ (3 < 2 + length (codes "xyz")) × (PlainString.append word (codes "xyz") ≡ err out_of_bounds)
append_lem_example = append_lem 3 word (codes "xyz") word-IsValid

push_back_lem_example :
    (2 < 3) × Stores 3 (to_list word ++ (b'c' ∷ [])) (PlainString.push_back word b'c')
    ⊎ (word.size ≡ 3) × (PlainString.push_back word b'c' ≡ err out_of_bounds)
push_back_lem_example = push_back_lem 3 word b'c' word-IsValid

is_equal_lem_example :
    (b : Bool) × (PlainString.is_equal word (codes "ab") ≡ ok b)
    × ((b ≡ true) ↔ (to_list word ≡ codes "ab"))
is_equal_lem_example = is_equal_lem 3 word (codes "ab") word-IsValid

at_lem_example :
    ((c : ℕ) × (1 < 2) × (PlainString.at word 1 ≡ ok c) × (get_elem? (to_list word) 1 ≡ some c))
    ⊎ (2 ≤ 1) × (PlainString.at word 1 ≡ err out_of_range)
at_lem_example = at_lem 3 word 1 word-IsValid

-- A vector with one of two places taken.
abbrev numbers : PlainVector ℕ
numbers = record { size = 1; slots = some 7 ∷ none ∷ [] }

numbers-Holds : Holds 2 numbers (7 ∷ [])
numbers-Holds = record {
  storage = refl;
  small = omega arith;
  counted = refl;
  within = omega arith;
  live = refl;
}

push_back-Holds_example :
    (1 < 2) × VectorLaws.Gives 2 (7 ∷ 8 ∷ []) (PlainVector.push_back numbers 8)
    ⊎ (numbers.size ≡ 2) × (PlainVector.push_back numbers 8 ≡ err out_of_bounds)
push_back-Holds_example = VectorLaws.push_back-Holds 2 numbers (7 ∷ []) 8 numbers-Holds

-- "a" and "bc" in an object for 3 strings and 8 characters.
abbrev args : PlainStringVector
args = record {
  items = record { size = 3; slots = some (some 0) ∷ some (some 2) ∷ some none ∷ none ∷ [] };
  text = record { size = 5; cells = b'a' ∷ 0 ∷ b'b' ∷ b'c' ∷ 0 ∷ 0 ∷ 0 ∷ 0 ∷ 0 ∷ 0 ∷ 0 ∷ 0 ∷ [] };
}

abbrev arg_list : List (List ℕ)
arg_list = codes "a" ∷ codes "bc" ∷ []

args-Packs : Packs 3 8 args arg_list
args-Packs = record {
  pointers = record {
    storage = refl;
    small = omega arith;
    counted = refl;
    within = omega arith;
    live = refl;
  };
  chars_valid = record { storage = refl; small = omega arith; within = omega arith; ended = refl };
  chars = refl;
}

argument_ok_example : argument args 1 ≡ ok (some (codes "bc"))
argument_ok_example =
    Strings.argument_ok 3 8 args arg_list 1 (codes "bc") args-Packs refl
      (omega arith, (omega arith, tt))

add_all_ok_example :
    Strings.Gives 3 8
      (arg_list ++ (codes "d" ∷ []))
      (PlainStringVector.add_all args (codes "d" ∷ []))
add_all_ok_example =
    Strings.add_all_ok 3 8 args arg_list (codes "d" ∷ []) args-Packs (omega arith) (omega arith)

-- The same strings in an object for 2 strings.
abbrev full_args : PlainStringVector
full_args = record {
  items = record { size = 3; slots = some (some 0) ∷ some (some 2) ∷ some none ∷ [] };
  text = record { size = 5; cells = b'a' ∷ 0 ∷ b'b' ∷ b'c' ∷ 0 ∷ 0 ∷ 0 ∷ 0 ∷ 0 ∷ 0 ∷ 0 ∷ [] };
}

full_args-Packs : Packs 2 8 full_args arg_list
full_args-Packs = record {
  pointers = record {
    storage = refl;
    small = omega arith;
    counted = refl;
    within = omega arith;
    live = refl;
  };
  chars_valid = record { storage = refl; small = omega arith; within = omega arith; ended = refl };
  chars = refl;
}

add_full_example : PlainStringVector.add full_args (codes "d") ≡ err out_of_bounds
add_full_example = Strings.add_full 2 8 full_args arg_list (codes "d") full_args-Packs refl
