-- ===== src/PlainVector.antt =====
-- PlainVector<T, MaxSize> of src/plain_vector.h: a vector in a fixed array inside the object.
-- A slot holds `some` of the object that lives in it, or `none` if none does. The two overloads of
-- each access, for a constant object and another, are one function. T is taken to be destructible,
-- as it is wherever the program uses the class.
pub mod Laws
use libsbox.Base.{
  ℕ, zero, suc, ◌+◌, ◌≤◌, ◌<◌, ◌≡◌, Bool, List, [], ◌∷◌, Option, none, some, leb, ◌==◌,
  if◌then◌else◌, map, length, get_elem?, take, replicate, Result, ok, err, ◌>>=◌, or_fail,
}
use libsbox.Memory.{
  Fault, out_of_bounds, out_of_range, no_object, size_mod, size_inc, size_dec, load, store,
}

pub record PlainVector {ℓ} (A : Type ℓ) : Type ℓ where
  pub size : ℕ
  pub slots : List (Option A)

module _ {ℓ} {A : Type ℓ} where
  -- PlainVector() = default
  unfoldable pub default : ℕ → PlainVector A
  default max_size = record { size = 0; slots = replicate max_size none }

  -- reinterpret_cast<pointer>(data_)[pos]
  abbrev pub read : PlainVector A → ℕ → Result Fault A
  read v pos = do slot ← load v.slots pos; or_fail slot no_object

  unfoldable pub at : PlainVector A → ℕ → Result Fault A
  at v pos = if leb v.size pos then err out_of_range else read v pos

  -- operator[]
  unfoldable pub index : PlainVector A → ℕ → Result Fault A
  index v pos = read v pos

  unfoldable pub front : PlainVector A → Result Fault A
  front v = read v 0

  unfoldable pub back : PlainVector A → Result Fault A
  back v = read v (size_dec v.size)

  unfoldable pub is_empty : PlainVector A → Bool
  is_empty v = v.size == 0

  -- (data_ + i)->~value_type()
  unfoldable pub destroy : List (Option A) → ℕ → Result Fault (List (Option A))
  destroy slots i = do slot ← load slots i; object ← or_fail slot no_object; store slots i none

  -- for (i = 0; i < size_; ++i), with the rounds left and `i`
  unfoldable pub clear_loop : ℕ → ℕ → List (Option A) → Result Fault (List (Option A))
  clear_loop zero i slots = ok slots
  clear_loop (suc n) i slots = do slots' ← destroy slots i; clear_loop n (i + 1) slots'

  unfoldable pub clear : PlainVector A → Result Fault (PlainVector A)
  clear v = do slots ← clear_loop v.size 0 v.slots; ok (record { size = 0; slots = slots })

  unfoldable pub push_back : PlainVector A → A → Result Fault (PlainVector A)
  push_back v value = do
    slots ← store v.slots v.size (some value)
    ok (record { size = size_inc v.size; slots = slots })

  -- The new object, and the reference to it that is returned.
  unfoldable pub emplace_back : PlainVector A → A → Result Fault (A × PlainVector A)
  unfolding back
  emplace_back v value = do
    slots ← store v.slots v.size (some value)
    let w : PlainVector A = record { size = size_inc v.size; slots = slots }
    object ← back w
    ok (object, w)

  unfoldable pub pop_back : PlainVector A → Result Fault (PlainVector A)
  pop_back v = do
    slots ← destroy v.slots (size_dec v.size)
    ok (record { size = size_dec v.size; slots = slots })

  -- The vector holds exactly these objects, in this order, within its limit.
  pub record Holds (max_size : ℕ) (v : PlainVector A) (xs : List A) : Type ℓ where
    pub storage : length v.slots ≡ max_size
    pub small : max_size < size_mod
    pub counted : v.size ≡ length xs
    pub within : length xs ≤ max_size
    pub live : take v.size v.slots ≡ map some xs
