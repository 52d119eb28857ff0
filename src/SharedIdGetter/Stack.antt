-- ===== src/SharedIdGetter/Stack.antt =====
-- The calls of src/shared_id_getter.cpp against the stack of free ids.
use libsbox.Base.{
  ℕ, zero, suc, ◌+◌, ◌-◌, ◌≤◌, ◌<◌, ◌≡◌, refl, ap, sym, ◌∙◌, List, [], ◌∷◌, arith, length,
  get_elem?, set, drop-cons, length-set, get_elem?-set_self, ◌==◌, Result, ok, err, some, ◌⊎◌, inl,
  inr, get_elem?-set_gt, Bool-cases, ==_iff, ap₂, false,
}
use libsbox.Memory.{size_dec, size_inc}
use libsbox.SharedIdGetter.{
  IdGetter, Death, stack_is_empty, stack_is_full, uid_mod, initial_id, fill, init, get, put,
  stack_from, free, IsValid, segment,
}

stack_from-suc :
    (ids : List ℕ) (n : ℕ) (x : ℕ)
    → get_elem? ids n ≡ some x
    → stack_from ids (suc n) ≡ x ∷ stack_from ids n
stack_from-suc ids n x e = rw (e, stack_from) refl

-- The call hands out the top of the stack, and leaves the others on it.
abbrev pub Pops : IdGetter → Result Death (ℕ × IdGetter) → Type 0
Pops g r =
    (id : ℕ) × (h : IdGetter) × (r ≡ ok (id, h))
    × IsValid h
    × (free g ≡ id ∷ free h)
    × (length h.ids ≡ length g.ids)
    × (g.head ≡ suc h.head)

abbrev pub Pushes : IdGetter → ℕ → Result Death IdGetter → Type 0
Pushes g id r =
    (h : IdGetter) × (r ≡ ok h)
    × IsValid h
    × (free h ≡ id ∷ free g)
    × (length h.ids ≡ length g.ids)
    × (h.head ≡ suc g.head)

get-suc : (g : IdGetter) (n : ℕ) → IsValid g → g.head ≡ suc n → Pops g (get g)
unfolding get
get-suc g n v e =
    let (id, found, d) = drop-cons g.ids n (omega (arith, v.within)) in
    let dec : size_dec g.head ≡ n = omega (arith, v.within, v.small) in
    let busy : (g.head == 0) ≡ false = ground arith in
    let h : IdGetter = record { ids = g.ids; head = size_dec g.head } in
    (
      id,
      h,
      rw (busy, dec, found) refl,
      record { within = omega (arith, v.within); small = v.small },
      ap (stack_from g.ids) e
          ∙ stack_from-suc g.ids n id found
          ∙ ap (λ k. id ∷ stack_from g.ids k) (sym dec),
      refl,
      omega arith,
    )

-- get on a well-formed stack hands out its top and leaves the others, or dies where no id is free.
pub get_lem :
    (g : IdGetter)
    → IsValid g
    → Pops g (get g) ⊎ (g.head ≡ 0) × (free g ≡ []) × (get g ≡ err stack_is_empty)
unfolding get
get_lem g v = by_head g.head refl
  where
    by_head :
        (n : ℕ)
        → g.head ≡ n
        → Pops g (get g) ⊎ (g.head ≡ 0) × (free g ≡ []) × (get g ≡ err stack_is_empty)
    by_head zero e = inr (e, ap (stack_from g.ids) e, rw e refl)
    by_head (suc n) e = inl (get-suc g n v e)

stack_from-set : (ids : List ℕ) (n i v : ℕ) → n ≤ i → stack_from (set ids i v) n ≡ stack_from ids n
stack_from-set ids zero i v h = refl
stack_from-set ids (suc n) i v h =
    ground (arith, get_elem?-set_gt ids i n v, stack_from-set ids n i v)

-- put on a well-formed stack lays the id on it, or dies where the stack is full.
pub put_lem :
    (g : IdGetter) (id : ℕ)
    → IsValid g
    → (g.head < length g.ids) × Pushes g id (put g id)
      ⊎ (g.head ≡ length g.ids) × (put g id ≡ err stack_is_full)
unfolding put
put_lem g id v = elim (Bool-cases (g.head == length g.ids)) [
  | inl e ↦ inr ((==_iff _ _).0 e, rw e refl)
  | inr e ↦
      let room : g.head < length g.ids = ground (arith, v.within) in
      let inc : size_inc g.head ≡ suc g.head = omega (arith, v.small) in
      let h : IdGetter = record { ids = set g.ids g.head id; head = size_inc g.head } in
      inl (
        room,
        (
          h,
          rw e refl,
          record {
            within = omega (arith, length-set g.ids g.head id);
            small = rw (length-set g.ids g.head id) v.small;
          },
          ap (stack_from h.ids) inc
              ∙ stack_from-suc h.ids g.head id (get_elem?-set_self g.ids g.head id room)
              ∙ ap (◌∷◌ id) (stack_from-set g.ids g.head g.head id (omega arith)),
          length-set g.ids g.head id,
          inc,
        ),
      )
]

length-fill : (start count n i : ℕ) → length (fill start count n i) ≡ n
unfolding fill
length-fill start count zero i = refl
length-fill start count (suc n) i = ap suc (length-fill start count n (i + 1))

get_elem?-fill :
    (start count n i j : ℕ)
    → j < n
    → get_elem? (fill start count n i) j ≡ some (initial_id start count (i + j))
unfolding fill
get_elem?-fill start count zero i j h = elim h [ ]
get_elem?-fill start count (suc n) i zero h =
    ap (λ k. some (initial_id start count k)) (omega arith)
get_elem?-fill start count (suc n) i (suc j) h =
    get_elem?-fill start count n (i + 1) j (omega arith)
    ∙ ap (λ k. some (initial_id start count k)) (omega arith)

stack_from-fill :
    (start count n : ℕ)
    → start + count ≤ uid_mod
    → n ≤ count
    → stack_from (fill start count count 0) n ≡ segment (start + count - n) n
stack_from-fill start count zero h k = refl
stack_from-fill start count (suc n) h k =
    stack_from-suc _ n (initial_id start count (0 + n)) (get_elem?-fill start count count 0 n k)
    ∙ ap₂ ◌∷◌ id_at
        (stack_from-fill start count n h (omega arith) ∙ ap (λ m. segment m n) (omega arith))
  where
    id_at : initial_id start count (0 + n) ≡ start + count - suc n
    id_at = omega arith

-- The constructor, for a segment within 32 bits, gives a well-formed stack with the ids of the
-- segment, the lowest on top.
pub free-init :
    (start count : ℕ)
    → start + count ≤ uid_mod
    → IsValid (init start count) × (free (init start count) ≡ segment start count)
unfolding init
free-init start count h = (
  record {
    within = omega (arith, length-fill start count count 0);
    small = omega (arith, length-fill start count count 0);
  },
  stack_from-fill start count count h (omega arith) ∙ ap (λ m. segment m count) (omega arith),
)

pub init_sizes :
    (start count : ℕ) → ((init start count).head ≡ count) × (length (init start count).ids ≡ count)
unfolding init
init_sizes start count = (refl, length-fill start count count 0)
