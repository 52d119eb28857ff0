-- ===== src/PlainVector/Laws.antt =====
-- The vector of src/plain_vector.h against the list of its objects.
use native.Mathlib.Decide.{dec_lt}
use libsbox.Base.{
  ℕ, zero, suc, ◌+◌, ◌≤◌, ◌<◌, ◌≡◌, refl, ap, sym, ◌∙◌, List, [], ◌∷◌, ◌++◌, arith, lt→ltb,
  ltb-false, map, length, get_elem?, set, take, length-set, length-append, length-replicate,
  take-set, take-set_le, get_elem?-take, get_elem?-set_self, subst, get_elem?-length,
  get_elem?-set_ne, drop-cons, lt-get_elem?, take-take, take-length-append, length-map, Result, ok,
  err, Option, none, some, ◌⊎◌, inl, inr,
}
use libsbox.Memory.{Fault, out_of_bounds, size_inc, size_dec, size_mod}
use libsbox.PlainVector.{
  PlainVector, Holds, default, index, push_back, pop_back, destroy, clear, clear_loop, emplace_back,
}

module _ {ℓ} {A : Type ℓ} where
  -- The call returns a vector that holds exactly `xs`.
  abbrev pub Gives : ℕ → List A → Result Fault (PlainVector A) → Type ℓ
  Gives m xs r = (w : PlainVector A) × (r ≡ ok w) × Holds m w xs

  map-snoc : (xs : List A) (x : A) → map some (xs ++ (x ∷ [])) ≡ map some xs ++ (some x ∷ [])
  map-snoc [] x = refl
  map-snoc (y ∷ xs) x = ap (◌∷◌ (some y)) (map-snoc xs x)

  get_elem?-map :
      (xs : List A) (i : ℕ) (x : A)
      → get_elem? xs i ≡ some x
      → get_elem? (map some xs) i ≡ some (some x)
  get_elem?-map [] i x e = cc
  get_elem?-map (y ∷ xs) zero x e = cc
  get_elem?-map (y ∷ xs) (suc i) x e = get_elem?-map xs i x e

  pub default-Holds : (m : ℕ) → m < size_mod → Holds m (default {A = A} m) []
  unfolding default
  default-Holds m h = record {
    storage = length-replicate m none;
    small = h;
    counted = refl;
    within = omega arith;
    live = refl;
  }

  pub push_back_ok :
      (m : ℕ) (v : PlainVector A) (xs : List A) (x : A)
      → Holds m v xs
      → length xs < m
      → Gives m (xs ++ (x ∷ [])) (push_back v x)
  unfolding push_back
  push_back_ok m v xs x h lt =
      let inc : size_inc v.size ≡ suc v.size = omega (arith, h.counted, h.small) in
      (
        record { size = size_inc v.size; slots = set v.slots v.size (some x) },
        rw (lt→ltb v.size (length v.slots) (omega (arith, h.counted, h.storage))) refl,
        record {
          storage = length-set v.slots v.size (some x) ∙ h.storage;
          small = h.small;
          counted = omega (arith, inc, h.counted, length-append xs (x ∷ []));
          within = omega (arith, length-append xs (x ∷ []));
          live =
              rw
                (
                  inc,
                  take-set v.slots v.size (some x) (omega (arith, h.counted, h.storage)),
                  h.live,
                  map-snoc xs x,
                )
                refl;
        },
      )

  pub push_back_full :
      (m : ℕ) (v : PlainVector A) (xs : List A) (x : A)
      → Holds m v xs
      → length xs ≡ m
      → push_back v x ≡ err out_of_bounds
  unfolding push_back
  push_back_full m v xs x h full =
      rw (ltb-false v.size (length v.slots) (omega (arith, h.counted, h.storage))) refl

  -- push_back adds the object behind the others if there is room, and otherwise writes outside the
  -- array.
  pub push_back-Holds :
      (m : ℕ) (v : PlainVector A) (xs : List A) (x : A)
      → Holds m v xs
      → (length xs < m) × Gives m (xs ++ (x ∷ [])) (push_back v x)
        ⊎ (length xs ≡ m) × (push_back v x ≡ err out_of_bounds)
  push_back-Holds m v xs x h = elim (dec_lt (length xs) m) [
    | yes p ↦ inl (p, push_back_ok m v xs x h p)
    | no p ↦
        let full : length xs ≡ m = omega (arith, h.within) in
        inr (full, push_back_full m v xs x h full)
  ]

  -- emplace_back appends the object and returns it.
  pub emplace_back_ok :
      (m : ℕ) (v : PlainVector A) (xs : List A) (x : A)
      → Holds m v xs
      → length xs < m
      → (w : PlainVector A) × (emplace_back v x ≡ ok (x, w)) × Holds m w (xs ++ (x ∷ []))
  unfolding emplace_back push_back
  emplace_back_ok m v xs x h lt =
      let back_at : size_dec (size_inc v.size) ≡ v.size = omega (arith, h.counted, h.small) in
      let room : v.size < length v.slots = omega (arith, h.counted, h.storage) in
      let (w, r, holds) = push_back_ok m v xs x h lt in
      (
        record { size = size_inc v.size; slots = set v.slots v.size (some x) },
        rw
            (
              lt→ltb v.size (length v.slots) room,
              back_at,
              get_elem?-set_self v.slots v.size (some x) room,
            )
            refl,
        subst (λ k. Holds m k (xs ++ (x ∷ []))) (pushed w r room) holds,
      )
    where
      pushed :
          (w : PlainVector A)
          → push_back v x ≡ ok w
          → v.size < length v.slots
          → w ≡ record { size = size_inc v.size; slots = set v.slots v.size (some x) }
      pushed w r room = let r' = rw (lt→ltb v.size (length v.slots) room) at r in cc

  -- A position within the vector reads its object.
  pub index_ok :
      (m : ℕ) (v : PlainVector A) (xs : List A) (i : ℕ) (x : A)
      → Holds m v xs
      → get_elem? xs i ≡ some x
      → index v i ≡ ok x
  unfolding index
  index_ok m v xs i x h e =
      let inside : i < v.size = omega (arith, h.counted, lt-get_elem? xs i e) in
      let found : get_elem? v.slots i ≡ some (some x) =
        sym (get_elem?-take v.slots v.size i inside)
        ∙ ap (λ l. get_elem? l i) h.live
        ∙ get_elem?-map xs i x e in
      rw found refl

  -- pop_back of a vector that is not empty removes its last object.
  pub pop_back_ok :
      (m : ℕ) (v : PlainVector A) (xs : List A) (x : A)
      → Holds m v (xs ++ (x ∷ []))
      → Gives m xs (pop_back v)
  unfolding pop_back destroy
  pop_back_ok m v xs x h =
      let n = length xs in
      let full : v.size ≡ suc n = omega (arith, h.counted, length-append xs (x ∷ [])) in
      let dec : size_dec v.size ≡ n =
        omega (arith, full, h.small, h.within, length-append xs (x ∷ [])) in
      let room : n < length v.slots =
        omega (arith, h.storage, h.within, length-append xs (x ∷ [])) in
      let found : get_elem? v.slots n ≡ some (some x) =
        sym (get_elem?-take v.slots v.size n (omega arith))
        ∙ ap (λ l. get_elem? l n) h.live
        ∙ get_elem?-map (xs ++ (x ∷ [])) n x (get_elem?-length xs [] x) in
      let kept : take n v.slots ≡ map some xs =
        sym (take-take v.slots n v.size (omega arith))
        ∙ ap (take n) (h.live ∙ map-snoc xs x)
        ∙ (ap (λ k. take k (map some xs ++ (some x ∷ []))) (sym (length-map some xs))
            ∙ take-length-append (map some xs) (some x ∷ [])) in
      (
        record { size = size_dec v.size; slots = set v.slots n none },
        rw (dec, found, lt→ltb n (length v.slots) room) refl,
        record {
          storage = length-set v.slots n none ∙ h.storage;
          small = h.small;
          counted = dec;
          within = omega (arith, h.within, length-append xs (x ∷ []));
          live = rw dec (take-set_le v.slots n n none (omega arith) ∙ kept);
        },
      )

  clear_loop_ok :
      (n i : ℕ) (slots : List (Option A))
      → ((j : ℕ) → i ≤ j → j < i + n → (x : A) × (get_elem? slots j ≡ some (some x)))
      → (out : List (Option A)) × (clear_loop n i slots ≡ ok out) × (length out ≡ length slots)
  unfolding clear_loop destroy
  clear_loop_ok zero i slots h = (slots, refl, refl)
  clear_loop_ok (suc n) i slots h =
      let (x, e) = h i (omega arith) (omega arith) in
      let (out, run, len) = clear_loop_ok n (i + 1) (set slots i none) (λ j lo hi.
        let (y, f) = h j (omega arith) (omega arith) in
        (y, get_elem?-set_ne slots i j none (omega arith) ∙ f)) in
      (
        out,
        rw (e, lt→ltb i (length slots) (lt-get_elem? slots i e)) run,
        len ∙ length-set slots i none,
      )

  -- clear destroys every object of a well-formed vector and leaves it empty.
  pub clear_ok : (m : ℕ) (v : PlainVector A) (xs : List A) → Holds m v xs → Gives m [] (clear v)
  unfolding clear
  clear_ok m v xs h =
      let (out, run, len) = clear_loop_ok v.size 0 v.slots objects in
      (
        record { size = 0; slots = out },
        rw run refl,
        record {
          storage = len ∙ h.storage;
          small = h.small;
          counted = refl;
          within = omega arith;
          live = refl;
        },
      )
    where
      objects : (j : ℕ) → 0 ≤ j → j < 0 + v.size → (x : A) × (get_elem? v.slots j ≡ some (some x))
      objects j lo hi =
          let (x, e, d) = drop-cons xs j (omega (arith, h.counted)) in
          (
            x,
            sym (get_elem?-take v.slots v.size j (omega arith))
                ∙ ap (λ l. get_elem? l j) h.live
                ∙ get_elem?-map xs j x e,
          )
