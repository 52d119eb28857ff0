-- ===== src/Container/Slave/Launch.antt =====
-- Container::slave of src/container.cpp, from the start of the run to the search for PATH: the
-- cgroups' files, the root, the descriptors, the limits, the credentials and the cgroups, in this
-- order. chdir, chroot and the directory /proc/self/fd are the parameter `Box`.
use libsbox.Base.{
  ℕ, ◌≡◌, pos_part, false, List, Option, some, none, Result, ok, err, ◌>>=◌, or_fail, ◌==◌,
}
use libsbox.Crash.{Crash, died, undefined}
use libsbox.Container.TaskData.{TaskData}
use libsbox.Container.Slave
use libsbox.Container.Slave.{Kernel, Handle, Streams, open_files, dup2_fds, close_all_fds}
use libsbox.Container.Slave.CloseAll.{Listed}
use libsbox.Container.Rights.{Process, Refused, setup_rlimits, setup_credentials}
use libsbox.Cgroup
use libsbox.Cgroup.{CgroupController, Cgroups, delay_enter, enter}

pub data Reason : Type 0 where
  cannot_chdir cannot_chroot cannot_open_dir : Reason
  on_descriptors : Slave.Reason → Reason
  on_cgroup : Cgroup.Reason → Reason
  on_rights : Refused → Reason

abbrev pub Run : Type 0 → Type 0
Run A = Result (Crash Reason) A

-- The same failure, among the reasons of a larger part.
abbrev pub relabel {ℓ} :
    {R : Type 0} {A : Type ℓ} → (R → Reason) → Result (Crash R) A → Result (Crash Reason) A
relabel f (ok a) = ok a
relabel f (err (died why)) = err (died (f why))
relabel f (err (undefined fault)) = err (undefined fault)

abbrev pub from_rights {ℓ} : {A : Type ℓ} → Result Refused A → Result (Crash Reason) A
from_rights (ok a) = ok a
from_rights (err why) = err (died (on_rights why))

pub record Box (K : Kernel) : Type 1 where
  pub chdir : K.State → Option K.State
  pub chroot : K.State → Option K.State
  -- opendir("/proc/self/fd") with its descriptor, and what readdir then gives
  pub open_dir : K.State → Option (ℕ × K.State)
  pub entries : K.State → List (Option ℕ)

pub record IsLawful (K : Kernel) (B : Box K) : Type 0 where
  pub chdir-table : (s t : K.State) → B.chdir s ≡ some t → (n : ℕ) → K.table t n ≡ K.table s n
  pub chroot-table : (s t : K.State) → B.chroot s ≡ some t → (n : ℕ) → K.table t n ≡ K.table s n
  pub open_dir-fresh :
      (s : K.State) (dir : ℕ) (t : K.State) → B.open_dir s ≡ some (dir, t) → K.table s dir ≡ none
  pub open_dir-table :
      (s : K.State) (dir : ℕ) (t : K.State)
      → B.open_dir s ≡ some (dir, t)
      → (n : ℕ) → (n == dir) ≡ false
      → K.table t n ≡ K.table s n
  -- proc(5): the directory has an entry for each open descriptor.
  pub entries-complete :
      (s : K.State) (n : ℕ) (h : Handle) → K.table s n ≡ some h → Listed n (B.entries s)

pub record Launched (K : Kernel) (P : Process) : Type 0 where
  pub kernel : K.State
  pub process : P.State
  pub task : TaskData

module _ (K : Kernel) (C : Cgroups K) (B : Box K) (P : Process) where
  abbrev pub streams : TaskData → Streams K
  streams d = record { input = d.stdin_desc; output = d.stdout_desc; errors = d.stderr_desc }

  abbrev pub Controllers : Type 0
  Controllers = CgroupController × CgroupController

  unfoldable pub delay_both : Controllers → K.State → Run (Controllers × K.State)
  unfolding delay_enter
  delay_both (memory, cpuacct) s = do
    (memory', s1) ← relabel on_cgroup (delay_enter K C memory s)
    (cpuacct', s2) ← relabel on_cgroup (delay_enter K C cpuacct s1)
    ok ((memory', cpuacct'), s2)

  unfoldable pub enter_both : List ℕ → Controllers → K.State → Run (Controllers × K.State)
  unfolding enter
  enter_both pid (memory, cpuacct) s = do
    (memory', s1) ← relabel on_cgroup (enter K C pid memory s)
    (cpuacct', s2) ← relabel on_cgroup (enter K C pid cpuacct s1)
    ok ((memory', cpuacct'), s2)

  unfoldable pub change_root : K.State → Run K.State
  change_root s = do
    t ← or_fail (B.chdir s) (died cannot_chdir)
    or_fail (B.chroot t) (died cannot_chroot)

  -- open_files and dup2_fds, with what they leave in the shared memory
  unfoldable pub set_streams : TaskData → K.State → Run (TaskData × K.State)
  unfolding open_files dup2_fds
  set_streams d s = do
    (x, s1) ← relabel on_descriptors (open_files K s (streams d))
    s2 ← relabel on_descriptors (dup2_fds K s1 x)
    ok (record d { stdin_desc = x.input; stdout_desc = x.output; stderr_desc = x.errors }, s2)

  -- close_all_fds with its opendir
  unfoldable pub close_others : ℕ → Controllers → K.State → Run K.State
  unfolding close_all_fds
  close_others logger (memory, cpuacct) s = do
    (dir, t) ← or_fail (B.open_dir s) (died cannot_open_dir)
    relabel on_descriptors (
        close_all_fds K dir logger (pos_part memory.enter_fd) (pos_part cpuacct.enter_fd) t
          (B.entries t))

  unfoldable pub slave :
      (logger id : ℕ) (pid : List ℕ)
      → Controllers
      → TaskData
      → K.State
      → P.State
      → Run (Launched K P)
  unfolding setup_rlimits setup_credentials delay_both enter_both change_root set_streams
      close_others
  slave logger id pid c d s p = do
    (c1, s1) ← delay_both c s
    s2 ← change_root s1
    (d3, s3) ← set_streams (record d { error = false }) s2
    s4 ← close_others logger c1 s3
    p1 ← from_rights (setup_rlimits P p d3)
    p2 ← from_rights (setup_credentials P p1 id)
    (c5, s5) ← enter_both pid c1 s4
    ok (record { kernel = s5; process = p2; task = d3 })
