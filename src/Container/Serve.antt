-- ===== src/Container/Serve.antt =====
-- The container's process in src/container.cpp: the loop of serve, and cleanup_root. Files and mounts
-- are those of Bind's `System`, descriptors and cgroups those of `Cgroups`; the calls of
-- std::filesystem in cleanup_root and std::to_string are the parameter `Host`. What the kernel reports
-- during one task is a `Round`, with what the task, which runs meanwhile, does to the files.
pub mod Mounting
pub mod Restored
pub mod Cleaning
use libsbox.Base.{
  ℕ, zero, suc, ◌+◌, ℤ, pos, minus_one, eq_ℤ, ltb_ℤ, Bool, false, not, ◌||◌, List, [], ◌∷◌, ◌++◌,
  Option, codes, if◌then◌else◌, Result, ok, err, ◌>>=◌, ◌>>◌, guard, or_fail,
}
use libsbox.Memory.{c_string}
use libsbox.Crash.{Crash, died, undefined, lift}
use libsbox.PlainVector
use libsbox.PlainVector.{PlainVector}
use libsbox.Bind
use libsbox.Bind.{System, Bind, mount}
use libsbox.Bind.Stack.{umount_all}
use libsbox.Cgroup
use libsbox.Cgroup.{CgroupController, Cgroups, construct, destruct}
use libsbox.Cgroup.Files
use libsbox.Container.Slave.{Kernel}
use libsbox.Container.TaskData.{TaskData, BindData}
use libsbox.Container.WaitForSlave.{Wake, World, Measures, Ending, wait_for_slave}

pub data Reason : Type 0 where
  on_bind : Bind.Reason → Reason
  on_cgroup : Cgroup.Reason → Reason
  on_slave : Ending → Reason
  broken_barrier cannot_fork cannot_remove uncaught : Reason

abbrev pub Run : Type 0 → Type 0
Run A = Result (Crash Reason) A

abbrev pub from_bind {ℓ} : {A : Type ℓ} → Result Bind.Reason A → Result (Crash Reason) A
from_bind (ok a) = ok a
from_bind (err why) = err (died (on_bind why))

abbrev pub from_cgroup {ℓ} : {A : Type ℓ} → Result (Crash Cgroup.Reason) A → Result (Crash Reason) A
from_cgroup (ok a) = ok a
from_cgroup (err (died why)) = err (died (on_cgroup why))
from_cgroup (err (undefined f)) = err (undefined f)

abbrev pub from_slave {ℓ} : {A : Type ℓ} → Result Ending A → Result (Crash Reason) A
from_slave (ok a) = ok a
from_slave (err why) = err (died (on_slave why))

-- SharedBarrier::wait of src/shared_barrier.cpp for what pthread_barrier_wait returns: 0, or -1 for
-- the one serial thread.
abbrev pub passes : ℤ → Bool
passes res = eq_ℤ res (pos 0) || eq_ℤ res minus_one

unfoldable pub barrier_wait : ℤ → Run (Unit {0})
barrier_wait res = guard (passes res) (died broken_barrier)

pub record Host (S : System) : Type 1 where
  -- directory_iterator throws where it cannot read the directory.
  pub entries : S.State → S.FsPath → Option (List S.FsPath)
  pub remove_all : S.State → S.FsPath → Option S.State
  -- The first path is the second one or lies below it.
  pub within : S.FsPath → S.FsPath → Bool
  pub to_string : ℤ → List ℕ

-- What the container is started with, and the paths that prepare_root sets.
pub record Box (S : System) : Type 0 where
  pub id : ℤ
  pub cgroup_root : List ℕ
  pub root : S.FsPath
  pub work_dir : S.FsPath
  pub tmp_dir : S.FsPath

pub record Round (S : System) : Type 0 where
  -- the task in the shared memory when the first wait ends
  pub task : TaskData
  pub ready : ℤ
  pub forked : ℤ
  pub started : ℤ
  pub wakes : List Wake
  pub world : World
  pub measures : Measures
  pub during : S.State → S.State
  pub done : ℤ

module _ (S : System) (K : Kernel) (C : Cgroups K) (H : Host S) (B : Box S) where
  pub record Site : Type 0 where
    pub files : S.State
    pub kernel : K.State

  -- Bind(const BindData *)
  unfoldable pub load_bind : BindData → Run (Bind S)
  load_bind d = do
    inside ← lift (c_string d.inside.cells)
    outside ← lift (c_string d.outside.cells)
    ok (record {
      inside = S.path inside;
      outside = S.path outside;
      flags = d.flags;
      mounted = false;
      from = S.path [];
      to = S.path [];
    })

  -- The loop over task_data_->binds, with the rounds left and `i`; the binds, as they are then.
  unfoldable pub mount_binds :
      ℕ → ℕ → PlainVector BindData → S.State → Run (List (Bind S) × S.State)
  unfolding load_bind
  mount_binds zero i v s = ok ([], s)
  mount_binds (suc n) i v s = do
    d ← lift (PlainVector.index v i)
    b ← load_bind d
    (c, t) ← from_bind (mount S B.root B.work_dir s b)
    (cs, u) ← mount_binds n (i + 1) v t
    ok (c ∷ cs, u)

  -- The two controllers, with the limits that the task gives.
  unfoldable pub controllers :
      TaskData → K.State → Run ((CgroupController × CgroupController) × K.State)
  controllers d s = do
    (cpuacct, s1) ← from_cgroup (construct K C B.cgroup_root (codes "cpuacct") (H.to_string B.id) s)
    (memory, s2) ← from_cgroup (construct K C B.cgroup_root (codes "memory") (H.to_string B.id) s1)
    s3 ← from_cgroup (Files.write K C memory (codes "memory.swappiness") (codes "0") s2)
    s4 ←
        (if not (eq_ℤ d.memory_limit_kb minus_one)
          then from_cgroup (
              Files.write K C memory (codes "memory.limit_in_bytes")
                (H.to_string d.memory_limit_kb ++ codes "K") s3)
          else ok s3)
    ok ((cpuacct, memory), s4)

  -- The body of the loop of serve, up to the test of permanent_.
  unfoldable pub serve_round : Round S → Site → Run (TaskData × Site)
  unfolding mount_binds controllers barrier_wait
  serve_round r s = do
    barrier_wait r.ready
    (binds, running) ← mount_binds r.task.binds.size 0 r.task.binds s.files
    ((cpuacct, memory), k1) ← controllers r.task s.kernel
    guard (not (ltb_ℤ r.forked (pos 0))) (died cannot_fork)
    barrier_wait r.started
    d ← from_slave (wait_for_slave r.task r.wakes r.world r.measures)
    files ← from_bind (umount_all S (r.during running) binds)
    k2 ← from_cgroup (destruct K C cpuacct k1)
    k3 ← from_cgroup (destruct K C memory k2)
    barrier_wait r.done
    ok (d, record { files = files; kernel = k3 })

  -- for (const auto &path : ...) fs::remove_all(path, error);
  unfoldable pub remove_each : List S.FsPath → S.State → Run S.State
  remove_each [] s = ok s
  remove_each (path ∷ rest) s = do
    t ← or_fail (H.remove_all s path) (died cannot_remove)
    remove_each rest t

  unfoldable pub clean_dir : S.FsPath → S.State → Run S.State
  unfolding remove_each
  clean_dir dir s = do found ← or_fail (H.entries s dir) (died uncaught); remove_each found s

  -- The third loop of the source is over the working directory once more.
  unfoldable pub cleanup_root : S.State → Run S.State
  unfolding clean_dir
  cleanup_root s = do
    s1 ← clean_dir B.work_dir s
    s2 ← clean_dir B.tmp_dir s1
    clean_dir B.work_dir s2

  -- The loop of serve: the results of the rounds that come, and where the container then waits, or
  -- exits if it is not permanent.
  unfoldable pub serve_loop : Bool → List (Round S) → Site → Run (List TaskData × Site)
  unfolding serve_round cleanup_root
  serve_loop permanent [] s = ok ([], s)
  serve_loop permanent (r ∷ rest) s = do
    (d, t) ← serve_round r s
    (if not permanent then ok (d ∷ [], t) else (do
      files ← cleanup_root t.files
      (ds, u) ← serve_loop permanent rest (record t { files = files })
      ok (d ∷ ds, u)))
