-- ===== src/Daemon/Files.antt =====
-- The pid file and the socket over a whole run of the daemon in src/daemon.cpp.
use libsbox.Base.{
  ℕ, ◌≡◌, ◌⊎◌, inl, inr, Bool-cases, ap, sym, subst, refl, ◌∙◌, Bool, true, false, List, none, some,
  text_eq, text_eq_iff, if◌then◌else◌,
}
use libsbox.Config.{Config}
use libsbox.Daemon.{
  FileSystem, Machine, Calls, State, pid_path, become_root, write_pid_file, prepare, body, die, run,
}

-- open(2) with O_EXCL, bind(2) of a path and unlink(2), for root on a file system that may be written.
pub record IsLawful (F : FileSystem) : Type 0 where
  pub create-present :
      (s : F.State) (p : List ℕ) → F.exists s p ≡ true → F.create_exclusive s p ≡ none
  pub create-exists :
      (s : F.State) (p : List ℕ) (t : F.State)
      → F.create_exclusive s p ≡ some t
      → (q : List ℕ) → F.exists t q ≡ (if text_eq q p then true else F.exists s q)
  pub bind-exists :
      (s : F.State) (p : List ℕ) (t : F.State)
      → F.bind s p ≡ some t
      → (q : List ℕ) → F.exists t q ≡ (if text_eq q p then true else F.exists s q)
  pub unlink-other :
      (s : F.State) (p q : List ℕ)
      → text_eq q p ≡ false
      → F.exists (F.unlink s p).1 q ≡ F.exists s q
  pub unlink-gone :
      (s : F.State) (p : List ℕ) → (F.unlink s p).0 ≡ true → F.exists (F.unlink s p).1 p ≡ false
  pub unlink-absent :
      (s : F.State) (p : List ℕ) → F.exists s p ≡ false → F.exists (F.unlink s p).1 p ≡ false

module _ (M : Machine) (lawful : IsLawful M.files) where
  abbrev Exists : State M → List ℕ → Bool → Type 0
  Exists s p b = M.files.exists s.files p ≡ b

  -- The path is gone, or it was there and unlink(2) failed for it, which _die does not test.
  abbrev pub Removed : State M → List ℕ → Type 0
  Removed s p =
      Exists s p false
      ⊎ ((u : M.files.State) × (M.files.exists u p ≡ true) × ((M.files.unlink u p).0 ≡ false))

  unlink-Removed :
      (s : State M) (f : M.files.State) (p : List ℕ)
      → s.files ≡ (M.files.unlink f p).1
      → Removed s p
  unlink-Removed s f p same = elim (Bool-cases (M.files.exists f p)) [
    | inr absent ↦ inl (ap (λ g. M.files.exists g p) same ∙ lawful.unlink-absent f p absent)
    | inl there ↦ elim (Bool-cases (M.files.unlink f p).0) [
      | inl gone ↦ inl (ap (λ g. M.files.exists g p) same ∙ lawful.unlink-gone f p gone)
      | inr failed ↦ inr (f, there, failed)
    ]
  ]

  -- After _die neither the pid file nor the socket path is there, but for a failed unlink(2).
  pub die-Removed : (s : State M) → Removed (die M s) pid_path × Removed (die M s) s.socket_path
  unfolding die
  die-Removed s = (
    unlink-Removed (die M s) f pid_path refl,
    elim (Bool-cases (text_eq s.socket_path pid_path)) [
      | inl same ↦
          subst (Removed (die M s)) (sym ((text_eq_iff s.socket_path pid_path).0 same))
            (unlink-Removed (die M s) f pid_path refl)
      | inr other ↦
          after (lawful.unlink-other f pid_path s.socket_path other)
            (unlink-Removed (record s { files = f }) s.files s.socket_path refl)
    ],
  )
    where
      f : M.files.State
      f = (M.files.unlink s.files s.socket_path).1

      after :
          M.files.exists (M.files.unlink f pid_path).1 s.socket_path
            ≡ M.files.exists f s.socket_path
          → Removed (record s { files = f }) s.socket_path
          → Removed (die M s) s.socket_path
      after same (inl gone) = inl (same ∙ gone)
      after same (inr failed) = inr failed

  -- If the daemon may change its user and group to root and the pid file is already there, run
  -- exits with 1 and leaves everything as it is.
  pub run-occupied :
      (c : Calls) (config : Config) (s : State M)
      → c.user_set ≡ true
      → c.group_set ≡ true
      → Exists s pid_path true
      → run M c config s ≡ (1, s)
  unfolding run body prepare become_root write_pid_file
  run-occupied c config s user group present =
      rw (user, group, lawful.create-present s.files pid_path present) refl
