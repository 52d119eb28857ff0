-- ===== src/Bind/Stack.antt =====
-- Several binds one after the other, as Container::serve of src/container.cpp mounts them before a
-- run and unmounts them after it, in the same order.
use mathlib.Core.List.{Mem, Perm, not-mem-nil, mem-cons_self, mem_of_ne_of_mem}
use mathlib.Core.List.Perm
use libsbox.Base.{
  ℕ, ◌≡◌, ◌⊎◌, inl, inr, sym, ap, ◌∙◌, subst, true, Bool-cases, List, [], ◌∷◌, if◌then◌else◌, ◌++◌,
  map, Result, ok, err, ◌>>=◌, or_fail, >>=-eq-ok, ok-injective, or_fail-ok, Result-cases,
  err-injective,
}
use libsbox.Bind.{
  System, IsLawful, NoneBrought, Unmounted, Bind, Reason, target, mount, umount_if_mounted,
  mount_flags, has_rule, opt_rule, cannot_umount,
}
use libsbox.Bind.Undo.{mount-Mounted, mount-to}

-- The targets of the binds that are mounted.
abbrev pub targets : (S : System) → List (Bind S) → List S.FsPath
targets S [] = []
targets S (b ∷ bs) = if b.mounted then b.to ∷ targets S bs else targets S bs

-- for (auto &bind : binds) bind.umount_if_mounted();
unfoldable pub umount_all : (S : System) → S.State → List (Bind S) → Result Reason S.State
umount_all S s [] = ok s
umount_all S s (b ∷ bs) = do r ← umount_if_mounted S s b; umount_all S r.1 bs

-- The paths of some mounts.
abbrev pub paths : {P : Type 0} → List (P × ℕ) → List P
paths ms = map (λ m. m.0) ms

-- An unmount of a path among the last mounts takes it from these, and leaves the ones before.
Unmounted-above :
    {P : Type 0} (to : P) (above base after : List (P × ℕ))
    → Mem to (paths above)
    → Unmounted to (above ++ base) after
    → (left : List (P × ℕ)) × (after ≡ left ++ base) × Perm (paths above) (to ∷ paths left)
Unmounted-above to [] base after among gone = absurd (not-mem-nil among)
Unmounted-above to (m ∷ above) base after among (inl (here, same)) =
    (above, same, Perm.cons' here (Perm.refl (paths above)))
Unmounted-above to (m ∷ above) base after among (inr (rest, other, same, gone)) =
    let (left, kept, perm) =
      Unmounted-above to above base rest (mem_of_ne_of_mem (λ e. other (sym e)) among) gone in
    (
      m ∷ left,
      same ∙ ap (◌∷◌ m) kept,
      Perm.trans (Perm.cons m.0 perm) (Perm.swap to m.0 (paths left)),
    )

module _ (S : System) (lawful : IsLawful S) where
  open S use {FsPath, State, mounts}

  -- Where MS_REC brought nothing to a target, whatever the order of the mounts, unmounting every target once leaves those from before.
  pub umount_all-restores :
      NoneBrought S
      → (bs : List (Bind S)) (above base : List (FsPath × ℕ)) (s t : State)
      → mounts s ≡ above ++ base
      → Perm (targets S bs) (paths above)
      → umount_all S s bs ≡ ok t
      → mounts t ≡ base
  unfolding umount_all umount_if_mounted
  umount_all-restores own [] [] base s t same perm run = ap mounts (sym (ok-injective run)) ∙ same
  umount_all-restores own [] (m ∷ above) base s t same perm run =
      let e : [] ≡ m.0 ∷ paths above = Perm.nil-eq perm in cc
  umount_all-restores own (b ∷ bs) above base s t same perm run = elim (Bool-cases b.mounted) [
    | inr down ↦ umount_all-restores own bs above base s t same (rw down at perm) (rw down at run)
    | inl up ↦
        let perm' : Perm (b.to ∷ targets S bs) (paths above) = rw up at perm in
        let (r, undone, rest) = >>=-eq-ok (umount_if_mounted S s b) _ run in
        let (u, gone, last) =
          >>=-eq-ok (or_fail (S.umount s b.to) cannot_umount) _ (rw up at undone) in
        let removed =
          subst (λ ms. Unmounted b.to ms (mounts u)) same
            (lawful.umount-mounts s b.to u (or_fail-ok _ cannot_umount gone) (own s b.to)) in
        let (left, kept, smaller) =
          Unmounted-above b.to above base (mounts u) ((Perm.mem_iff perm').0 mem-cons_self)
            removed in
        umount_all-restores own bs left base r.1 t
          (ap (λ k. mounts k.1) (sym (ok-injective last)) ∙ kept)
          (Perm.cons_inv (Perm.trans perm' smaller)) rest
  ]

-- What one bind adds: its target with its flags; or nothing, where it is optional.
abbrev pub Layer :
    (S : System)
    → (root_dir work_dir : S.FsPath) → Bind S
    → (before after : List (S.FsPath × ℕ)) → Type 0
Layer S root_dir work_dir b before after =
    (after ≡ (target S root_dir work_dir b.inside, mount_flags b.flags) ∷ before)
    ⊎ (after ≡ before) × (has_rule b.flags opt_rule ≡ true)

-- All of them, the first one lowest.
abbrev pub Layers :
    (S : System)
    → (root_dir work_dir : S.FsPath) → List (Bind S)
    → (before after : List (S.FsPath × ℕ)) → Type 0
Layers S root_dir work_dir [] before after = after ≡ before
Layers S root_dir work_dir (b ∷ bs) before after =
    (middle : List (S.FsPath × ℕ)) × Layer S root_dir work_dir b before middle
    × Layers S root_dir work_dir bs middle after

-- Where the loop of the unmounts dies, an unmount did.
pub umount_all-stops :
    (S : System) (s : S.State) (bs : List (Bind S)) (why : Reason)
    → umount_all S s bs ≡ err why
    → (t : S.State) × (b : Bind S) × (umount_if_mounted S t b ≡ err why)
unfolding umount_all
umount_all-stops S s [] why e = cc
umount_all-stops S s (b ∷ bs) why e = elim (Result-cases (umount_if_mounted S s b)) [
  | inl (r, first) ↦ umount_all-stops S r.1 bs why (rw first at e)
  | inr (other, first) ↦ (s, b, first ∙ ap err (err-injective (rw first at e)))
]

-- for (auto &bind : standard_binds) bind.mount(root_dir, work_dir);
unfoldable pub mount_all :
    (S : System) (root_dir work_dir : S.FsPath)
    → List (Bind S)
    → S.State
    → Result Reason (List (Bind S) × S.State)
mount_all S root_dir work_dir [] s = ok ([], s)
mount_all S root_dir work_dir (b ∷ bs) s = do
  (c, t) ← mount S root_dir work_dir s b
  (cs, u) ← mount_all S root_dir work_dir bs t
  ok (c ∷ cs, u)

module _ (S : System) (lawful : IsLawful S) (root_dir work_dir : S.FsPath) where
  open S use {mounts}

  pub mount-Layer :
      (s : S.State) (b : Bind S) (c : Bind S × S.State)
      → mount S root_dir work_dir s b ≡ ok c
      → Layer S root_dir work_dir b (mounts s) (mounts c.1)
  mount-Layer s b c ran = elim (mount-Mounted S lawful root_dir work_dir s b c ran) [
    | inl (up, added) ↦ inl (
        added
        ∙ ap (λ to. (to, mount_flags b.flags) ∷ mounts s)
            (mount-to S lawful root_dir work_dir s b c ran))
    | inr (same, kept, opt) ↦ inr (kept, opt)
  ]

  pub mount_all-Layers :
      (bs : List (Bind S)) (s : S.State) (r : List (Bind S) × S.State)
      → mount_all S root_dir work_dir bs s ≡ ok r
      → Layers S root_dir work_dir bs (mounts s) (mounts r.1)
  unfolding mount_all
  mount_all-Layers [] s r run = ap (λ k. mounts k.1) (sym (ok-injective run))
  mount_all-Layers (b ∷ bs) s r run =
      let (c, first, rest) = >>=-eq-ok (mount S root_dir work_dir s b) _ run in
      let (q, later, last) = >>=-eq-ok (mount_all S root_dir work_dir bs c.1) _ rest in
      (
        mounts c.1,
        mount-Layer s b c first,
        subst (λ k. Layers S root_dir work_dir bs (mounts c.1) (mounts k))
            (ap (λ k. k.1) (ok-injective last)) (mount_all-Layers bs c.1 q later),
      )
