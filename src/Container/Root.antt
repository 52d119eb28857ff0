-- ===== src/Container/Root.antt =====
-- prepare_root of src/container.cpp: the container's root before the first task. The mounts of no
-- device ("none") and chmod are the parameter `Boot`; the others are those of Bind's `System`.
pub mod Mounts
use libsbox.Base.{
  ℕ, ◌+◌, ◌≡◌, ◌≢◌, refl, sym, ap, ◌∙◌, subst, Bool, true, false, Bool-cases, inl, inr, List, [],
  ◌∷◌, Option, some, codes, if◌then◌else◌, Result, ok, err, ◌>>=◌, or_fail, >>=-eq-ok, ok-injective,
  or_fail-ok,
}
use libsbox.Bind
use libsbox.Bind.{System, Bind, rw_rule, dev_rule, opt_rule, rule_value, has_rule, ms_rec}
use libsbox.Bind.Stack.{Layers, mount_all, mount_all-Layers}

-- The constants of <sys/mount.h>.
abbrev pub ms_remount : ℕ
ms_remount = 32

abbrev pub ms_private : ℕ
ms_private = 262_144

pub record Boot (S : System) : Type 0 where
  -- mount("none", target, type, flags, data)
  pub mount_none : S.State → S.FsPath → (fstype : List ℕ) → ℕ → (options : List ℕ) → Option S.State
  pub chmod : S.State → S.FsPath → ℕ → Option S.State

pub data Reason : Type 0 where
  cannot_privatize cannot_create cannot_mount cannot_remount cannot_chmod uncaught : Reason
  on_bind : Bind.Reason → Reason

abbrev pub Run : Type 0 → Type 0
Run A = Result Reason A

abbrev pub from_bind {ℓ} : {A : Type ℓ} → Result Bind.Reason A → Result Reason A
from_bind (ok a) = ok a
from_bind (err why) = err (on_bind why)

module _ (S : System) (T : Boot S) where
  open S use {FsPath, State, path, join, mounts}

  abbrev pub standard : (name : List ℕ) → ℕ → Bind S
  standard name flags = record {
    inside = path name;
    outside = path name;
    flags = flags;
    mounted = false;
    from = path [];
    to = path [];
  }

  abbrev pub standard_binds : List (Bind S)
  standard_binds =
      standard (codes "/lib") 0
      ∷ standard (codes "/lib64") (rule_value opt_rule)
      ∷ standard (codes "/bin") 0
      ∷ standard (codes "/dev") (rule_value dev_rule)
      ∷ standard (codes "/usr") 0
      ∷ []

  -- A tmpfs or a proc, mounted and then mounted again with its options.
  unfoldable pub mount_twice : FsPath → (fstype first second : List ℕ) → State → Run State
  mount_twice target fstype first second s = do
    t ← or_fail (T.mount_none s target fstype 0 first) cannot_mount
    or_fail (T.mount_none t target fstype ms_remount second) cannot_remount

  unfoldable pub make_tmp : FsPath → State → Run State
  make_tmp tmp_dir s = do
    t ← or_fail (S.create_directories s tmp_dir) uncaught
    or_fail (T.chmod t tmp_dir 511) cannot_chmod

  unfoldable pub apply_standard_rules : (root work_dir : FsPath) → State → Run State
  apply_standard_rules root work_dir s = do
    (binds, t) ← from_bind (mount_all S root work_dir standard_binds s)
    ok t

  unfoldable pub prepare_root : Bool → FsPath → State → Run State
  unfolding mount_twice make_tmp apply_standard_rules
  prepare_root use_standard_binds root s = do
    s1 ←
        or_fail (T.mount_none s (path (codes "/")) (codes "none") (ms_rec + ms_private) [])
          cannot_privatize
    s2 ← or_fail (S.create_directories s1 root) cannot_create
    s3 ← mount_twice root (codes "tmpfs") (codes "mode=755,size=1g") (codes "mode=755,size=1g") s2
    s4 ← or_fail (S.create_directories s3 (join root (path (codes "proc")))) cannot_create
    s5 ← mount_twice (join root (path (codes "proc"))) (codes "proc") [] (codes "hidepid=2") s4
    s6 ← or_fail (S.create_directories s5 (join root (path (codes "work")))) cannot_create
    s7 ← make_tmp (join root (path (codes "tmp"))) s6
    if use_standard_binds
        then apply_standard_rules root (join root (path (codes "work"))) s7
        else ok s7
