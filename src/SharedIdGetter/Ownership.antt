-- ===== src/SharedIdGetter/Ownership.antt =====
-- The ids that containers hold, over any interleaving of the calls that the workers make of
-- src/shared_id_getter.cpp: a worker takes an id with `get` for a new container, and gives the id of
-- one of its containers back with `put`.
use mathlib.Core.List.{
  Mem, Nodup, Perm, perm_middle, Nodup-cons, Nodup-nil, mem-cons, not-mem-nil, mem-append_right,
}
use mathlib.Core.List.Perm
use mathlib.Core.List.Nodup
use mathlib.Core.Logic.Or
use mathlib.Core.HLevel.{×_prop}
use native.Mathlib.Bridge.{le_prop}
use libsbox.Base.{
  ℕ, zero, suc, ◌+◌, ◌≤◌, ◌<◌, ◌≡◌, ap, sym, ◌∙◌, subst, List, [], ◌∷◌, ◌++◌, arith, length,
  length-append, append_assoc, append-nil, ok, err, ◌⊎◌, inl, inr,
}
use libsbox.SharedIdGetter.{
  IdGetter, stack_is_empty, uid_mod, init, get, put, free, IsValid, segment,
}
use libsbox.SharedIdGetter.Stack.{get_lem, put_lem, free-init, init_sizes}

-- The shared getter, and the ids of the containers that exist, the last one taken first.
pub record Shared : Type 0 where
  pub getter : IdGetter
  pub held : List ℕ

pub data Step (s : Shared) : Shared → Type 0 where
  take :
      (id : ℕ) (g : IdGetter)
      → get s.getter ≡ ok (id, g)
      → Step s (record { getter = g; held = id ∷ s.held })
  give :
      (before after : List ℕ) (id : ℕ) (g : IdGetter)
      → s.held ≡ before ++ (id ∷ after)
      → put s.getter id ≡ ok g
      → Step s (record { getter = g; held = before ++ after })

pub data Reach (start count : ℕ) : Shared → Type 0 where
  begin : Reach start count (record { getter = init start count; held = [] })
  next : {s t : Shared} → Reach start count s → Step s t → Reach start count t

record Inv (start count : ℕ) (s : Shared) : Type 0 where
  valid : IsValid s.getter
  all : Perm (free s.getter ++ s.held) (segment start count)
  room : s.getter.head + length s.held ≡ count
  size : length s.getter.ids ≡ count

take-Inv :
    (start count : ℕ) (s : Shared) (id : ℕ) (g : IdGetter)
    → get s.getter ≡ ok (id, g)
    → Inv start count s
    → Inv start count (record { getter = g; held = id ∷ s.held })
take-Inv start count s id g e v = elim (get_lem s.getter v.valid) [
  | inl (x, h, r, valid, top, len, head) ↦
      let same : h ≡ g = ground arith in
      let same' : x ≡ id = ground arith in
      subst (λ k. Inv start count (record { getter = k; held = id ∷ s.held })) same
        (subst (λ y. Inv start count (record { getter = h; held = y ∷ s.held })) same'
          (record {
            valid = valid;
            all =
                Perm.trans (perm_middle (free h) s.held)
                  (subst (λ l. Perm (l ++ s.held) (segment start count)) top v.all);
            room = omega (arith, v.room);
            size = len ∙ v.size;
          }))
  | inr (bottom, empty, died) ↦ cc
]

give-Inv :
    (start count : ℕ) (s : Shared) (before after : List ℕ) (id : ℕ) (g : IdGetter)
    → s.held ≡ before ++ (id ∷ after)
    → put s.getter id ≡ ok g
    → Inv start count s
    → Inv start count (record { getter = g; held = before ++ after })
give-Inv start count s before after id g e p v = elim (put_lem s.getter id v.valid) [
  | inl (room, (h, r, valid, top, len, head)) ↦
      let F = free s.getter in
      let left : free h ++ (before ++ after) ≡ id ∷ ((F ++ before) ++ after) =
        ap (λ l. l ++ (before ++ after)) top ∙ ap (◌∷◌ id) (sym (append_assoc F before after)) in
      let right : (F ++ before) ++ (id ∷ after) ≡ F ++ s.held =
        append_assoc F before (id ∷ after) ∙ ap (◌++◌ F) (sym e) in
      let same : h ≡ g = ground arith in
      subst (λ k. Inv start count (record { getter = k; held = before ++ after })) same
        (record {
          valid = valid;
          all =
              subst (λ l. Perm l (segment start count)) (sym left)
                (Perm.trans (Perm.symm (perm_middle (F ++ before) after))
                  (subst (λ l. Perm l (segment start count)) (sym right) v.all));
          room = omega (
            arith,
            v.room,
            ap length e,
            length-append before after,
            length-append before (id ∷ after),
            len,
            head,
          );
          size = len ∙ v.size;
        })
  | inr (full, died) ↦ cc
]

Reach-Inv :
    (start count : ℕ) {s : Shared}
    → start + count ≤ uid_mod
    → Reach start count s
    → Inv start count s
Reach-Inv start count h begin =
    let (valid, free_ids) = free-init start count h in
    record {
      valid = valid;
      all = subst (λ l. Perm l (segment start count)) (sym (append-nil _ ∙ free_ids)) (Perm.refl _);
      room = start_room;
      size = start_size;
    }
  where
    start_room : (init start count).head + length {A = ℕ} [] ≡ count
    start_room = omega (arith, (init_sizes start count).0)

    start_size : length (init start count).ids ≡ count
    start_size = (init_sizes start count).1
Reach-Inv start count h (next r (take id g e)) =
    take-Inv start count _ id g e (Reach-Inv start count h r)
Reach-Inv start count h (next r (give before after id g e p)) =
    give-Inv start count _ before after id g e p (Reach-Inv start count h r)

mem-segment : (start n : ℕ) {a : ℕ} → Mem a (segment start n) → (start ≤ a) × (a < start + n)
mem-segment start zero m = absurd (not-mem-nil m)
mem-segment start (suc n) {a} m =
    Or.elim (×_prop le_prop le_prop) (mem-cons.0 m) (λ e. rw e (omega arith))
      (λ later. let (lo, hi) = mem-segment (start + 1) n later in (omega arith, omega arith))

pub segment-Nodup : (start n : ℕ) → Nodup (segment start n)
segment-Nodup start zero = Nodup-nil
segment-Nodup start (suc n) =
    Nodup-cons.1
      ((λ m. absurd (omega (arith, (mem-segment (start + 1) n m).0))), segment-Nodup (start + 1) n)

-- If start + count is at most 2^32, then in every state that the workers reach by get and put from a
-- getter of `count` ids from `start`, no two containers hold the same id, and every held id is in [start, start + count).
pub held_distinct :
    (start count : ℕ) (s : Shared)
    → start + count ≤ uid_mod
    → Reach start count s
    → Nodup s.held × ((id : ℕ) → Mem id s.held → (start ≤ id) × (id < start + count))
held_distinct start count s h r =
    let v = Reach-Inv start count h r in
    (
      Nodup.of_append_right (free s.getter)
          (Perm.nodup (Perm.symm v.all) (segment-Nodup start count)),
      λ id m. mem-segment start count ((Perm.mem_iff v.all).0 (mem-append_right (free s.getter) m)),
    )

length-pos : (l : List ℕ) (a : ℕ) → Mem a l → 0 < length l
length-pos [] a m = absurd (not-mem-nil m)
length-pos (x ∷ l) a m = omega arith

-- If start + count is at most 2^32, then in every state that is reached from a getter of `count` ids
-- from `start`, get hands out an id as long as fewer than `count` are held and dies
-- where all are, and giving a held id back never dies.
pub calls_total :
    (start count : ℕ) (s : Shared)
    → start + count ≤ uid_mod
    → Reach start count s
    → ((length s.held < count) × ((id : ℕ) × (g : IdGetter) × (get s.getter ≡ ok (id, g)))
        ⊎ (length s.held ≡ count) × (get s.getter ≡ err stack_is_empty))
      × ((id : ℕ) → Mem id s.held → (g : IdGetter) × (put s.getter id ≡ ok g))
calls_total start count s h r = (
  elim (get_lem s.getter v.valid) [
    | inl (id, g, run, valid, top, len, head) ↦
        inl (omega (arith, v.room, v.size, v.valid), (id, g, run))
    | inr (bottom, empty, died) ↦ inr (omega (arith, v.room), died)
  ],
  λ id m. elim (put_lem s.getter id v.valid) [
    | inl (room, (g, run, valid, top, len, head)) ↦ (g, run)
    | inr (full, died) ↦ absurd (omega (arith, v.room, v.size, length-pos s.held id m))
  ],
)
  where
    v : Inv start count s
    v = Reach-Inv start count h r
