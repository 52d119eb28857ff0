-- ===== src/Cgroup.antt =====
-- src/cgroup_controller.cpp: a cgroup's directory, and the descriptor by which a process enters it
-- later. The descriptors are those of the slave's `Kernel`; write(2) and the directory's calls are
-- further parameters. A path's `/` is the text with a slash between.
pub mod Enter
pub mod Files
use libsbox.Base.{
  ℕ, ◌≡◌, ◌≢◌, ℤ, pos, pos_part, minus_one, eq_ℤ, ltb_ℤ, Bool, true, not, ◌||◌, List, ◌++◌, Option,
  some, none, length, ◌==◌, codes, if◌then◌else◌, Result, ok, err, ◌>>=◌, ◌>>◌, guard, or_fail,
}
use libsbox.Crash.{Crash, died}
use libsbox.Utils
use libsbox.Container.Slave.{Kernel, Mode, write_cloexec, opened, descriptor}

pub record CgroupController : Type 0 where
  pub path : List ℕ
  pub enter_fd : ℤ

pub data Reason : Type 0 where
  cannot_create_dir cannot_remove_dir not_delayed cannot_open cannot_write cannot_close : Reason
  in_file : Utils.Reason → Reason

pub record Cgroups (K : Kernel) : Type 1 where
  pub write : K.State → ℕ → List ℕ → ℤ × K.State
  -- create_directories and remove: the state, or an error
  pub create_directories : K.State → List ℕ → Option K.State
  pub remove : K.State → List ℕ → Option K.State
  -- Whether this process is in the cgroup with that file of tasks, and the file's hierarchy.
  pub inside : K.State → List ℕ → Bool
  pub hierarchy : List ℕ → ℕ

abbrev pub tasks_file : List ℕ → List ℕ
tasks_file path = path ++ codes "/tasks"

module _ (K : Kernel) (C : Cgroups K) where
  abbrev pub Run : Type 0 → Type 0
  Run A = Result (Crash Reason) A

  -- The constructor: get_cgroup_root() / name / "libsbox" / id
  unfoldable pub construct : (root name id : List ℕ) → K.State → Run (CgroupController × K.State)
  construct root name id s = do
    let path = root ++ codes "/" ++ name ++ codes "/libsbox/" ++ id
    t ← or_fail (C.create_directories s path) (died cannot_create_dir)
    ok (record { path = path; enter_fd = minus_one }, t)

  unfoldable pub close_enter_fd : CgroupController → K.State → Run (CgroupController × K.State)
  close_enter_fd c s = do
    fd ← or_fail (descriptor c.enter_fd) (died cannot_close)
    t ← or_fail (K.close s fd) (died cannot_close)
    ok (record c { enter_fd = minus_one }, t)

  unfoldable pub destruct : CgroupController → K.State → Run K.State
  unfolding close_enter_fd
  destruct c s = do
    (c', t) ← if not (eq_ℤ c.enter_fd minus_one) then close_enter_fd c s else ok (c, s)
    or_fail (C.remove t c'.path) (died cannot_remove_dir)

  unfoldable pub delay_enter : CgroupController → K.State → Run (CgroupController × K.State)
  delay_enter c s = if not (eq_ℤ c.enter_fd minus_one) then ok (c, s) else (do
    (fd, t) ← or_fail (K.open_file s (tasks_file c.path) write_cloexec) (died cannot_open)
    ok (record c { enter_fd = pos fd }, t))

  -- The write of enter, where `pid` is the text of getpid().
  unfoldable pub write_pid : List ℕ → ℕ → K.State → Run K.State
  write_pid pid fd s =
      let (cnt, t) = C.write s fd pid in
      if ltb_ℤ cnt (pos 0) || not (pos_part cnt == length pid)
      then err (died cannot_write)
      else ok t

  unfoldable pub enter : List ℕ → CgroupController → K.State → Run (CgroupController × K.State)
  unfolding write_pid close_enter_fd
  enter pid c s = if eq_ℤ c.enter_fd minus_one then err (died not_delayed) else (do
    fd ← or_fail (descriptor c.enter_fd) (died cannot_write)
    t ← write_pid pid fd s
    close_enter_fd c t)

pub record IsLawful (K : Kernel) (C : Cgroups K) : Type 0 where
  pub write-table :
      (s : K.State) (fd : ℕ) (text : List ℕ) (n : ℕ) → K.table (C.write s fd text).1 n ≡ K.table s n
  -- cgroups(7): a process whose id is written to the file of tasks is moved to the cgroup.
  pub write-inside :
      (s : K.State) (fd : ℕ) (path pid : List ℕ)
      → K.table s fd ≡ some (opened path write_cloexec)
      → (C.write s fd pid).0 ≡ pos (length pid)
      → C.inside (C.write s fd pid).1 path ≡ true
  -- A process is in one cgroup of each hierarchy.
  pub write-outside :
      (s : K.State) (fd : ℕ) (path other pid : List ℕ)
      → K.table s fd ≡ some (opened path write_cloexec)
      → C.hierarchy other ≢ C.hierarchy path
      → C.inside (C.write s fd pid).1 other ≡ C.inside s other
  pub close-inside :
      (s : K.State) (fd : ℕ) (t : K.State)
      → K.close s fd ≡ some t
      → (path : List ℕ) → C.inside t path ≡ C.inside s path
