-- ===== src/SharedIdGetter.antt =====
-- SharedIdGetter of src/shared_id_getter.cpp: the stack of free user ids that the workers share.
-- `ids` is `ids_stack_` and `head` is `stack_head_`. Both calls run under `mutex_` from the first
-- statement to the last, so that concurrent calls are a sequence of whole calls. A uid_t has 32
-- bits and a size_t 64.
pub mod Stack
pub mod Ownership
use libsbox.Base.{
  ℕ, zero, suc, ◌+◌, ◌-◌, ◌%◌, ◌^◌, ◌≤◌, ◌<◌, ◌≡◌, List, [], ◌∷◌, ◌==◌, if◌then◌else◌, some, none,
  length, get_elem?, set, Result, ok, err, ◌>>=◌, or_fail, guard, not, ◌>>◌,
}
use libsbox.Memory.{size_mod, size_inc, size_dec}

abbrev pub uid_mod : ℕ
uid_mod = 2 ^ 32

-- The two ways in which a call dies, and a read outside the array.
pub data Death : Type 0 where
  stack_is_empty stack_is_full bad_read : Death

pub record IdGetter : Type 0 where
  pub ids : List ℕ
  pub head : ℕ

-- start + count - 1 - i: the sum in 32 bits, the difference in 64, stored in 32
abbrev pub initial_id : ℕ → ℕ → ℕ → ℕ
initial_id start count i =
    ((start + count + uid_mod - 1) % uid_mod + size_mod - i) % size_mod % uid_mod

-- for (i = 0; i < count; ++i), with the rounds left and `i`; the array is filled from its start
pub fill : ℕ → ℕ → ℕ → ℕ → List ℕ
fill start count zero i = []
fill start count (suc n) i = initial_id start count i ∷ fill start count n (i + 1)

unfoldable pub init : ℕ → ℕ → IdGetter
unfolding fill
init start count = record { ids = fill start count count 0; head = count }

unfoldable pub get : IdGetter → Result Death (ℕ × IdGetter)
get g = do
  guard (not (g.head == 0)) stack_is_empty
  let head : ℕ = size_dec g.head
  id ← or_fail (get_elem? g.ids head) bad_read
  ok (id, record g { head = head })

unfoldable pub put : IdGetter → ℕ → Result Death IdGetter
put g id = do
  guard (not (g.head == length g.ids)) stack_is_full
  ok (record { ids = set g.ids g.head id; head = size_inc g.head })

-- The free ids, the next one first.
abbrev pub stack_from : List ℕ → ℕ → List ℕ
stack_from ids zero = []
stack_from ids (suc n) = elim (get_elem? ids n) [
  | some id ↦ id ∷ stack_from ids n
  | none ↦ stack_from ids n
]

abbrev pub free : IdGetter → List ℕ
free g = stack_from g.ids g.head

pub record IsValid (g : IdGetter) : Type 0 where
  pub within : g.head ≤ length g.ids
  pub small : length g.ids < size_mod

-- The ids start, start + 1, and so on, `count` of them.
abbrev pub segment : ℕ → ℕ → List ℕ
segment start zero = []
segment start (suc n) = start ∷ segment (start + 1) n
