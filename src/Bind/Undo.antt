-- ===== src/Bind/Undo.antt =====
-- What Bind::mount and Bind::umount_if_mounted of src/bind.cpp do to the mounts.
use libsbox.Base.{
  ◌≡◌, ◌⊎◌, inl, inr, refl, sym, subst, ap, ◌∙◌, true, Bool-cases, ◌∷◌, Result, ok, ◌>>=◌, guard,
  or_fail, >>=-eq-ok, ok-injective, or_fail-ok, guard-ok,
}
use libsbox.Bind.{
  System, IsLawful, Bind, Reason, target, set_paths, do_mount, mount_directory, mount_file,
  mount_existing, mount, umount_if_mounted, mount_flags, has_rule, opt_rule, cannot_mount,
  cannot_create, cannot_close, not_absolute,
}

module _ (S : System) (lawful : IsLawful S) where
  open S use {FsPath, State, mounts}

  -- One mount more, for which the flags of the bind were asked; or none, for an optional bind whose source is missing.
  abbrev pub Mounted : State → Bind S → Bind S × State → Type 0
  Mounted s b r =
      ((r.0.mounted ≡ true) × (mounts r.1 ≡ (r.0.to, mount_flags b.flags) ∷ mounts s))
      ⊎ (r.0.mounted ≡ b.mounted) × (mounts r.1 ≡ mounts s) × (has_rule b.flags opt_rule ≡ true)

  do_mount-Mounted :
      (s t : State) (b : Bind S) (r : Bind S × State)
      → mounts t ≡ mounts s
      → do_mount S t b ≡ ok r
      → Mounted s b r
  unfolding do_mount
  do_mount-Mounted s t b r same run =
      let (u, e, last) =
        >>=-eq-ok (or_fail (S.mount t b.from b.to (mount_flags b.flags)) cannot_mount) _ run in
      let added =
        lawful.mount-mounts t b.from b.to (mount_flags b.flags) u (or_fail-ok _ cannot_mount e) in
      subst (Mounted s b) (ok-injective last)
        (inl (refl, added ∙ ap (◌∷◌ (b.to, mount_flags b.flags)) same))

  -- The mount call is reached over the same mounts, or nothing is done for an optional bind.
  mount_existing-cases :
      (s : State) (b : Bind S) (r : Bind S × State)
      → mount_existing S s b ≡ ok r
      → ((t : State) × (mounts t ≡ mounts s) × (do_mount S t b ≡ ok r))
        ⊎ ((b, s) ≡ r) × (has_rule b.flags opt_rule ≡ true)
  unfolding mount_existing mount_directory mount_file
  mount_existing-cases s b r run = elim (Bool-cases (S.exists s b.from)) [
    | inr missing ↦ elim (Bool-cases (has_rule b.flags opt_rule)) [
      | inl opt ↦ inr (ok-injective (rw (missing, opt) at run), opt)
      | inr required ↦ let run' = rw (missing, required) at run in cc
    ]
    | inl there ↦ elim (Bool-cases (S.is_directory s b.from)) [
      | inl dir ↦
          let (t, made, rest) =
            >>=-eq-ok (or_fail (S.create_directories s b.to) cannot_create) _
              (rw (there, dir) at run) in
          inl (t, lawful.create-mounts s b.to t (or_fail-ok _ cannot_create made), rest)
      | inr other ↦ elim (Bool-cases (S.is_regular_file s b.from)) [
        | inl file ↦
            let (s1, made, r1) =
              >>=-eq-ok (or_fail (S.create_directories s (S.parent_path b.to)) cannot_create) _
                (rw (there, other, file) at run) in
            let (s2, opened, r2) = >>=-eq-ok (or_fail (S.open_file s1 b.to) cannot_create) _ r1 in
            let (s3, closed, r3) = >>=-eq-ok (or_fail (S.close s2) cannot_close) _ r2 in
            inl (
              s3,
              lawful.close-mounts s2 s3 (or_fail-ok _ cannot_close closed)
                  ∙ lawful.open-mounts s1 b.to s2 (or_fail-ok _ cannot_create opened)
                  ∙ lawful.create-mounts s (S.parent_path b.to) s1
                      (or_fail-ok _ cannot_create made),
              r3,
            )
        | inr neither ↦ let run' = rw (there, other, neither) at run in cc
      ]
    ]
  ]

  mount_existing-Mounted :
      (s : State) (b : Bind S) (r : Bind S × State) → mount_existing S s b ≡ ok r → Mounted s b r
  mount_existing-Mounted s b r run = elim (mount_existing-cases s b r run) [
    | inl (t, same, reached) ↦ do_mount-Mounted s t b r same reached
    | inr (nothing, opt) ↦ subst (Mounted s b) nothing (inr (refl, refl, opt))
  ]

  mount_existing-to :
      (s : State) (b : Bind S) (r : Bind S × State) → mount_existing S s b ≡ ok r → r.0.to ≡ b.to
  unfolding do_mount
  mount_existing-to s b r run = elim (mount_existing-cases s b r run) [
    | inl (t, same, reached) ↦
        let (u, e, last) =
          >>=-eq-ok (or_fail (S.mount t b.from b.to (mount_flags b.flags)) cannot_mount) _
            reached in
        ap (λ k. k.0.to) (sym (ok-injective last))
    | inr (nothing, opt) ↦ ap (λ k. k.0.to) (sym nothing)
  ]

  set_paths-ok :
      (root_dir work_dir : FsPath) (b c : Bind S)
      → set_paths S root_dir work_dir b ≡ ok c
      → (c ≡ record b { from = b.outside; to = target S root_dir work_dir b.inside })
        × (S.is_absolute b.outside ≡ true)
  unfolding set_paths
  set_paths-ok root_dir work_dir b c run =
      let (u, checked, last) = >>=-eq-ok (guard (S.is_absolute b.outside) not_absolute) _ run in
      (sym (ok-injective last), guard-ok _ not_absolute checked)

  -- The states between the calls: the bind after mount, its target, and what is mounted.
  pub mount-Mounted :
      (root_dir work_dir : FsPath) (s : State) (b : Bind S) (r : Bind S × State)
      → mount S root_dir work_dir s b ≡ ok r
      → Mounted s b r
  unfolding mount
  mount-Mounted root_dir work_dir s b r run =
      let (c, set, rest) = >>=-eq-ok (set_paths S root_dir work_dir b) _ run in
      let (same, absolute) = set_paths-ok root_dir work_dir b c set in
      let at_c : Mounted s c r = mount_existing-Mounted s c r rest in
      subst (λ k. Mounted s k r → Mounted s b r) (sym same) (λ m. m) at_c

  pub mount-to :
      (root_dir work_dir : FsPath) (s : State) (b : Bind S) (r : Bind S × State)
      → mount S root_dir work_dir s b ≡ ok r
      → r.0.to ≡ target S root_dir work_dir b.inside
  unfolding mount
  mount-to root_dir work_dir s b r run =
      let (c, set, rest) = >>=-eq-ok (set_paths S root_dir work_dir b) _ run in
      let (same, absolute) = set_paths-ok root_dir work_dir b c set in
      mount_existing-to s c r rest ∙ ap (λ k. k.to) same

  -- mount, and umount_if_mounted after the run of the task.
  abbrev pub mount_and_umount : FsPath → FsPath → State → Bind S → Result Reason (Bind S × State)
  mount_and_umount root_dir work_dir s b = do
    r ← mount S root_dir work_dir s b
    umount_if_mounted S r.1 r.0
