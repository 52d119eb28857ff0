-- ===== src/Container/Root/Mounts.antt =====
-- What prepare_root of src/container.cpp mounts.
use Prim.Native.Nat.{bit_and}
use libsbox.Base.{ℕ, ◌≡◌, ◌≢◌, Bool, false, List, [], ◌∷◌, ◌++◌, some, codes}
use libsbox.Bind
use libsbox.Bind.{System, Bind, mount_flags, ms_rdonly, ms_nosuid}
use libsbox.Container.Root.{Boot}

-- mount(2) of no device: a new mount without flags, and none with a flag that changes a mount.
pub record IsLawful (S : System) (T : Boot S) : Type 0 where
  pub new-mounts :
      (s : S.State) (to : S.FsPath) (fstype options : List ℕ) (t : S.State)
      → T.mount_none s to fstype 0 options ≡ some t
      → S.mounts t ≡ (to, 0) ∷ S.mounts s
  pub changed-mounts :
      (s : S.State) (to : S.FsPath) (fstype : List ℕ) (flags : ℕ) (options : List ℕ) (t : S.State)
      → flags ≢ 0
      → T.mount_none s to fstype flags options ≡ some t
      → S.mounts t ≡ S.mounts s
  pub chmod-mounts :
      (s : S.State) (path : S.FsPath) (mode : ℕ) (t : S.State)
      → T.chmod s path mode ≡ some t
      → S.mounts t ≡ S.mounts s

-- Asked for: reading only, and no set-user-ID programs. For a bind mount the kernel takes neither.
abbrev pub IsGuarded : ℕ → Type 0
IsGuarded flags = (bit_and flags ms_rdonly ≡ ms_rdonly) × (bit_and flags ms_nosuid ≡ ms_nosuid)

abbrev pub AllGuarded : {P : Type 0} → List (P × ℕ) → Type 0
AllGuarded [] = Unit
AllGuarded (m ∷ ms) = IsGuarded m.1 × AllGuarded ms

abbrev AllBind : (S : System) → List (Bind S) → Type 0
AllBind S [] = Unit
AllBind S (b ∷ bs) = IsGuarded (mount_flags b.flags) × AllBind S bs

module _ (S : System) (lawful : Bind.IsLawful S) (T : Boot S) (booting : IsLawful S T) where
  open S use {FsPath, State, path, join, mounts}

  -- Over the mounts from before there are the root, then proc, and then the standard binds or nothing.
  abbrev pub Rooted : Bool → FsPath → State → State → Type 0
  Rooted use_standard_binds root s t =
      (added : List (FsPath × ℕ)) × (mounts t
        ≡ added ++ ((join root (path (codes "proc")), 0) ∷ (root, 0) ∷ mounts s))
      × AllGuarded added
      × (use_standard_binds ≡ false → added ≡ [])
