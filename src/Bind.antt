-- ===== src/Bind.antt =====
-- Bind of src/bind.cpp: one mount into a container's root.
-- std::filesystem and the mount calls are the parameter `System`: paths with `/`, and a state of the
-- file system whose list `mounts` holds the mounts that calls of mount made and that are still there,
-- the last one first, each with its target and the flags that the call asked for. For a bind mount
-- the kernel takes none of these flags, and MS_REC brings along the mounts below the source: those
-- are no entries of `mounts`, and `brought` says where one of them is on top at a path. An error code that
-- is_directory or is_regular_file would set leaves its result false, so that the test of `error` at
-- the end of mount never fails.
pub mod Flags
pub mod Undo
pub mod Stack
use Prim.Native.Nat.{bit_and, bit_or}
use libsbox.Base.{
  ℕ, ◌+◌, ◌≡◌, ◌≢◌, ◌⊎◌, Bool, true, false, not, List, [], ◌∷◌, Option, none, some, ◌==◌,
  if◌then◌else◌, Result, ok, err, ◌>>=◌, ◌>>◌, guard, or_fail,
}

-- enum Rules
pub data Rule : Type 0 where
  rw_rule dev_rule noexec_rule suid_rule opt_rule : Rule

abbrev pub rule_value : Rule → ℕ
rule_value rw_rule = 1
rule_value dev_rule = 2
rule_value noexec_rule = 4
rule_value suid_rule = 8
rule_value opt_rule = 16

-- flags_ & rule
abbrev pub has_rule : ℕ → Rule → Bool
has_rule flags rule = not (bit_and flags (rule_value rule) == 0)

-- The constants of <sys/mount.h>.
abbrev pub ms_rdonly : ℕ
ms_rdonly = 1

abbrev pub ms_nosuid : ℕ
ms_nosuid = 2

abbrev pub ms_nodev : ℕ
ms_nodev = 4

abbrev pub ms_noexec : ℕ
ms_noexec = 8

abbrev pub ms_bind : ℕ
ms_bind = 4096

abbrev pub ms_rec : ℕ
ms_rec = 16384

unfoldable pub mount_flags : ℕ → ℕ
mount_flags flags =
    let f0 = bit_or ms_bind ms_rec in
    let f1 = if not (has_rule flags rw_rule) then bit_or f0 ms_rdonly else f0 in
    let f2 = if not (has_rule flags dev_rule) then bit_or f1 ms_nodev else f1 in
    let f3 = if has_rule flags noexec_rule then bit_or f2 ms_noexec else f2 in
    if not (has_rule flags suid_rule) then bit_or f3 ms_nosuid else f3

pub record System : Type 1 where
  pub FsPath : Type 0
  pub path : List ℕ → FsPath
  pub is_absolute : FsPath → Bool
  pub relative_path : FsPath → FsPath
  pub join : FsPath → FsPath → FsPath
  pub parent_path : FsPath → FsPath
  pub State : Type 0
  pub mounts : State → List (FsPath × ℕ)
  pub brought : State → FsPath → Bool
  pub exists : State → FsPath → Bool
  pub is_directory : State → FsPath → Bool
  pub is_regular_file : State → FsPath → Bool
  pub create_directories : State → FsPath → Option State
  pub open_file : State → FsPath → Option State
  pub close : State → Option State
  pub mount : State → FsPath → FsPath → ℕ → Option State
  pub umount : State → FsPath → Option State

pub data Reason : Type 0 where
  not_absolute not_exists not_file cannot_create cannot_close cannot_mount cannot_umount : Reason

module _ (S : System) where
  open S use {FsPath, State, is_absolute, relative_path, join, parent_path}

  pub record Bind : Type 0 where
    pub inside : FsPath
    pub outside : FsPath
    pub flags : ℕ
    pub mounted : Bool
    pub from : FsPath
    pub to : FsPath

  -- The target, in the root for an absolute path and in the working directory for another.
  abbrev pub target : FsPath → FsPath → FsPath → FsPath
  target root_dir work_dir inside =
      if is_absolute inside then join root_dir (relative_path inside) else join work_dir inside

  unfoldable pub set_paths : FsPath → FsPath → Bind → Result Reason Bind
  set_paths root_dir work_dir b = do
    guard (is_absolute b.outside) not_absolute
    ok (record b { from = b.outside; to = target root_dir work_dir b.inside })

  -- The mount call of either branch.
  unfoldable pub do_mount : State → Bind → Result Reason (Bind × State)
  do_mount s b = do
    t ← or_fail (S.mount s b.from b.to (mount_flags b.flags)) cannot_mount
    ok (record b { mounted = true }, t)

  unfoldable pub mount_directory : State → Bind → Result Reason (Bind × State)
  mount_directory s b = do t ← or_fail (S.create_directories s b.to) cannot_create; do_mount t b

  unfoldable pub mount_file : State → Bind → Result Reason (Bind × State)
  mount_file s b = do
    s1 ← or_fail (S.create_directories s (parent_path b.to)) cannot_create
    s2 ← or_fail (S.open_file s1 b.to) cannot_create
    s3 ← or_fail (S.close s2) cannot_close
    do_mount s3 b

  unfoldable pub mount_existing : State → Bind → Result Reason (Bind × State)
  mount_existing s b =
      if not (S.exists s b.from)
      then (if has_rule b.flags opt_rule then ok (b, s) else err not_exists)
      else if S.is_directory s b.from
      then mount_directory s b
      else if S.is_regular_file s b.from
      then mount_file s b
      else err not_file

  unfoldable pub mount : FsPath → FsPath → State → Bind → Result Reason (Bind × State)
  mount root_dir work_dir s b = do c ← set_paths root_dir work_dir b; mount_existing s c

  unfoldable pub umount_if_mounted : State → Bind → Result Reason (Bind × State)
  umount_if_mounted s b =
      if not b.mounted
      then ok (b, s)
      else (do t ← or_fail (S.umount s b.to) cannot_umount; ok (record b { mounted = false }, t))

-- The last mount at that path is gone, and the others stay.
abbrev pub Unmounted : {P : Type 0} → P → (before after : List (P × ℕ)) → Type 0
Unmounted {P} to [] after = ⊥
Unmounted {P} to (m ∷ before) after =
    ((m.0 ≡ to) × (after ≡ before))
    ⊎ ((rest : List (P × ℕ)) × (m.0 ≢ to) × (after ≡ m ∷ rest) × Unmounted to before rest)

-- What mount(2) and umount(2) do to the mounts that were asked for, and that the other calls leave
-- them.
pub record IsLawful (S : System) : Type 0 where
  pub mount-mounts :
      (s : S.State) (from to : S.FsPath) (flags : ℕ) (t : S.State)
      → S.mount s from to flags ≡ some t
      → S.mounts t ≡ (to, flags) ∷ S.mounts s
  pub umount-mounts :
      (s : S.State) (to : S.FsPath) (t : S.State)
      → S.umount s to ≡ some t
      → S.brought s to ≡ false
      → Unmounted to (S.mounts s) (S.mounts t)
  pub create-mounts :
      (s : S.State) (path : S.FsPath) (t : S.State)
      → S.create_directories s path ≡ some t
      → S.mounts t ≡ S.mounts s
  pub open-mounts :
      (s : S.State) (path : S.FsPath) (t : S.State)
      → S.open_file s path ≡ some t
      → S.mounts t ≡ S.mounts s
  pub close-mounts : (s t : S.State) → S.close s ≡ some t → S.mounts t ≡ S.mounts s

-- A condition on the sources: no mount that MS_REC brings along is on top at the target of a bind.
abbrev pub NoneBrought : System → Type 0
NoneBrought S = (s : S.State) (to : S.FsPath) → S.brought s to ≡ false
