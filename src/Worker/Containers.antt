-- ===== src/Worker/Containers.antt =====
-- What holds of a worker's containers in Worker::prepare_containers of src/worker.cpp.
use mathlib.Core.List.{Mem, Perm, perm_middle}
use mathlib.Core.List.Perm
use libsbox.Base.{
  ℕ, suc, ◌+◌, ◌≤◌, ◌≡◌, ◌⊎◌, inl, inr, refl, sym, ap, ◌∙◌, subst, arith, Bool, ◌||◌, not, true,
  false, List, [], ◌∷◌, ◌++◌, append_assoc, append-nil, length, length-append,
}
use libsbox.SharedIdGetter.{IdGetter, IsValid, free}
use libsbox.Task.{Task}
use libsbox.Worker.{Worker, needs_temporary}

-- A task that a permanent container cannot run.
abbrev pub IsSpecial : Task → Type 0
IsSpecial t = (t.need_ipc ≡ true) ⊎ (t.use_standard_binds ≡ false)

pub needs_temporary-IsSpecial : (t : Task) → needs_temporary t ≡ true → IsSpecial t
needs_temporary-IsSpecial t e = by_bits t.need_ipc t.use_standard_binds e
  where
    by_bits : (a b : Bool) → (a || not b) ≡ true → (a ≡ true) ⊎ (b ≡ false)
    by_bits true b e = inl refl
    by_bits false false e = inr refl
    by_bits false true e = cc

pub not_needs_temporary :
    (t : Task) → needs_temporary t ≡ false → (t.need_ipc ≡ false) × (t.use_standard_binds ≡ true)
not_needs_temporary t e = by_bits t.need_ipc t.use_standard_binds e
  where
    by_bits : (a b : Bool) → (a || not b) ≡ false → (a ≡ false) × (b ≡ true)
    by_bits true b e = cc
    by_bits false false e = cc
    by_bits false true e = (refl, refl)

-- Each task has the container at its position, of the kind that it needs.
abbrev pub Assigned : Worker → List Task → List ℕ → Type 0
Assigned w [] [] = Unit
Assigned w [] (c ∷ cs) = ⊥
Assigned w (t ∷ ts) [] = ⊥
Assigned w (t ∷ ts) (c ∷ cs) =
    (IsSpecial t × Mem c w.temporary
      ⊎ (t.need_ipc ≡ false) × (t.use_standard_binds ≡ true) × Mem c w.permanent)
    × Assigned w ts cs

-- The ids of `all` are free or name one container of the worker, and the stack has room for these.
pub record Owns (all : List ℕ) (w : Worker) : Type 0 where
  pub valid : IsValid w.getter
  pub owned : Perm (free w.getter ++ (w.permanent ++ w.temporary)) all
  pub room : w.getter.head + (length w.permanent + length w.temporary) ≤ length w.getter.ids

-- In the loop: the tasks seen have the first permanent containers and all temporary ones.
pub record Placed (all : List ℕ) (seen : List Task) (next : ℕ) (w : Worker) (used unused : List ℕ)
    : Type 0 where
  pub owns : Owns all w
  pub split : w.permanent ≡ used ++ unused
  pub counted : next ≡ length used
  pub placed : Perm w.containers (used ++ w.temporary)
  pub assigned : Assigned w seen w.containers

perm_snoc : (l : List ℕ) (a : ℕ) → Perm (l ++ (a ∷ [])) (a ∷ l)
perm_snoc l a = subst (λ k. Perm (l ++ (a ∷ [])) (a ∷ k)) (append-nil l) (perm_middle l [])

-- A kind of container that only grows keeps its tasks.
pub Assigned-mono :
    (v w : Worker) (ts : List Task) (cs : List ℕ)
    → ((c : ℕ) → Mem c v.temporary → Mem c w.temporary)
    → ((c : ℕ) → Mem c v.permanent → Mem c w.permanent)
    → Assigned v ts cs
    → Assigned w ts cs
Assigned-mono v w [] [] f g h = tt
Assigned-mono v w [] (c ∷ cs) f g h = h
Assigned-mono v w (t ∷ ts) [] f g h = h
Assigned-mono v w (t ∷ ts) (c ∷ cs) f g (inl (k, m), h) =
    (inl (k, f c m), Assigned-mono v w ts cs f g h)
Assigned-mono v w (t ∷ ts) (c ∷ cs) f g (inr (k, l, m), h) =
    (inr (k, l, g c m), Assigned-mono v w ts cs f g h)

pub Assigned-snoc :
    (w : Worker) (ts : List Task) (cs : List ℕ) (t : Task) (c : ℕ)
    → Assigned w ts cs
    → Assigned w (t ∷ []) (c ∷ [])
    → Assigned w (ts ++ (t ∷ [])) (cs ++ (c ∷ []))
Assigned-snoc w [] [] t c h k = k
Assigned-snoc w [] (c' ∷ cs) t c h k = elim h [ ]
Assigned-snoc w (t' ∷ ts) [] t c h k = elim h [ ]
Assigned-snoc w (t' ∷ ts) (c' ∷ cs) t c h k = (h.0, Assigned-snoc w ts cs t c h.1 k)

pub Assigned-length :
    (w : Worker) (ts : List Task) (cs : List ℕ) → Assigned w ts cs → length cs ≡ length ts
Assigned-length w [] [] h = refl
Assigned-length w [] (c ∷ cs) h = elim h [ ]
Assigned-length w (t ∷ ts) [] h = elim h [ ]
Assigned-length w (t ∷ ts) (c ∷ cs) h = ap suc (Assigned-length w ts cs h.1)

-- A free id becomes a temporary container's.
pub Owns-temporary :
    (all : List ℕ) (w : Worker) (id : ℕ) (g : IdGetter) (cs : List ℕ)
    → Owns all w
    → IsValid g
    → free w.getter ≡ id ∷ free g
    → length g.ids ≡ length w.getter.ids
    → w.getter.head ≡ suc g.head
    → Owns all (record w { getter = g; temporary = w.temporary ++ (id ∷ []); containers = cs })
Owns-temporary all w id g cs o valid top len head = record {
  valid = valid;
  owned =
      Perm.trans
        (subst (λ l. Perm l (id ∷ (free g ++ (w.permanent ++ w.temporary))))
          (append_assoc (free g) (w.permanent ++ w.temporary) (id ∷ [])
            ∙ ap (◌++◌ (free g)) (append_assoc w.permanent w.temporary (id ∷ [])))
          (perm_snoc (free g ++ (w.permanent ++ w.temporary)) id))
        (subst (λ l. Perm (l ++ (w.permanent ++ w.temporary)) all) top o.owned);
  room = omega (arith, o.room, len, head, length-append w.temporary (id ∷ []));
}

-- A free id becomes a permanent container's.
pub Owns-permanent :
    (all : List ℕ) (w : Worker) (id : ℕ) (g : IdGetter) (cs : List ℕ)
    → Owns all w
    → IsValid g
    → free w.getter ≡ id ∷ free g
    → length g.ids ≡ length w.getter.ids
    → w.getter.head ≡ suc g.head
    → Owns all (record w { getter = g; permanent = w.permanent ++ (id ∷ []); containers = cs })
Owns-permanent all w id g cs o valid top len head = record {
  valid = valid;
  owned =
      Perm.trans
        (subst (λ l. Perm (free g ++ l) (id ∷ (free g ++ (w.permanent ++ w.temporary))))
          (sym (append_assoc w.permanent (id ∷ []) w.temporary))
          (subst (λ l. Perm l (id ∷ (free g ++ (w.permanent ++ w.temporary))))
            (append_assoc (free g) w.permanent (id ∷ w.temporary))
            (subst (λ l. Perm ((free g ++ w.permanent) ++ (id ∷ w.temporary)) (id ∷ l))
              (append_assoc (free g) w.permanent w.temporary)
              (perm_middle (free g ++ w.permanent) w.temporary))))
        (subst (λ l. Perm (l ++ (w.permanent ++ w.temporary)) all) top o.owned);
  room = omega (arith, o.room, len, head, length-append w.permanent (id ∷ []));
}

-- One more container at the end, which is the next permanent one.
pub placed_permanent :
    (cs used temporary : List ℕ) (id : ℕ)
    → Perm cs (used ++ temporary)
    → Perm (cs ++ (id ∷ [])) ((used ++ (id ∷ [])) ++ temporary)
placed_permanent cs used temporary id p = Perm.trans (perm_snoc cs id) (
    Perm.trans (Perm.cons id p) (
      subst (Perm (id ∷ (used ++ temporary))) (sym (append_assoc used (id ∷ []) temporary))
        (Perm.symm (perm_middle used temporary))))
