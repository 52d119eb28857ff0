-- ===== src/Container/Serve/Restored.antt =====
-- One round of the loop of Container::serve in src/container.cpp: the task runs over its binds, and
-- the container is left as it was.
use libsbox.Base.{◌≡◌, ◌⊎◌, pos, minus_one, ltb_ℤ, true, false, none, List, ok, err, ◌>>=◌, ◌>>◌}
use libsbox.Crash.{Crash}
use libsbox.Bind
use libsbox.Bind.{System, Bind, NoneBrought, mount, umount_if_mounted}
use libsbox.Cgroup
use libsbox.Cgroup.{CgroupController, Cgroups, construct}
use libsbox.Cgroup.Files
use libsbox.Cgroup.Files.{KeepsTable}
use libsbox.Utils.Files.{SameTable}
use libsbox.Container.Slave
use libsbox.Container.Slave.{Kernel}
use libsbox.Container.TaskData.{TaskData, BindData}
use libsbox.Container.WaitForSlave.{wait_for_slave}
use libsbox.Container.Serve.{
  Reason, Host, Box, Round, Site, on_bind, on_cgroup, on_slave, broken_barrier, cannot_fork,
  cannot_remove, uncaught, passes,
}
use libsbox.Container.Serve.Mounting.{Placed}

-- The calls that the container relies on, from the documents of mount(2), open(2), close(2), write(2)
-- and cgroups(7), and that MS_REC brings no mount to the target of a bind. The descriptors are those
-- that the container's own calls open and close: the worker, which shares the table by CLONE_FILES,
-- opens and closes others meanwhile.
pub record IsLawful (S : System) (K : Kernel) (C : Cgroups K) : Type 0 where
  pub binds : Bind.IsLawful S
  pub own : NoneBrought S
  pub descriptors : Slave.IsLawful K
  pub entering : Cgroup.IsLawful K C
  pub keeps : KeepsTable K C

module _ (S : System) (K : Kernel) (C : Cgroups K) (lawful : IsLawful S K C) (H : Host S)
    (B : Box S) where
  open S use {mounts}

  -- Why a round ends the container: a wait or fork failed, a bind or the kernel refused, the slave
  -- failed, or (in cleanup_root) a file cannot be removed or a directory cannot be read.
  abbrev pub Dies : Round S → Reason → Type 0
  Dies r (on_bind why) =
      (s : S.State) × (b : Bind S) × ((mount S B.root B.work_dir s b ≡ err why)
        ⊎ (umount_if_mounted S s b ≡ err why))
  Dies r (on_cgroup why) = Files.IsRefused K C why
  Dies r (on_slave why) = wait_for_slave r.task r.wakes r.world r.measures ≡ err why
  Dies r broken_barrier =
      (passes r.ready ≡ false) ⊎ (passes r.started ≡ false) ⊎ (passes r.done ≡ false)
  Dies r cannot_fork = ltb_ℤ r.forked (pos 0) ≡ true
  Dies r cannot_remove = (s : S.State) × (path : S.FsPath) × (H.remove_all s path ≡ none)
  Dies r uncaught = (s : S.State) × (dir : S.FsPath) × (H.entries s dir ≡ none)

  -- The task ran over the mounts from before and its binds on top, its results are those that
  -- wait_for_slave collects, and then the mounts and the descriptors are as they were.
  pub record Ran (r : Round S) (ds : List BindData) (s : Site S K C H B)
      (q : TaskData × Site S K C H B) : Type 0 where
    pub binds : List (Bind S)
    pub running : S.State
    pub placed : Placed S lawful.binds K C H B ds s.files (binds, running)
    pub results : wait_for_slave r.task r.wakes r.world r.measures ≡ ok q.0
    pub restored : mounts q.1.files ≡ mounts s.files
    pub table : SameTable K s.kernel q.1.kernel

  -- The task itself cannot mount and unmount.
  abbrev pub IsUnprivileged : Round S → Type 0
  IsUnprivileged r = (s : S.State) → mounts (r.during s) ≡ mounts s

  -- Both controllers without a descriptor, and the table as it was.
  abbrev IsFresh : K.State → (CgroupController × CgroupController) × K.State → Type 0
  IsFresh s r = (r.0.0.enter_fd ≡ minus_one) × (r.0.1.enter_fd ≡ minus_one) × SameTable K s r.1
