-- ===== src/Container/Slave/Confined.antt =====
-- What Container::slave of src/container.cpp has done when it looks for PATH.
use libsbox.Base.{ℕ, ◌≤◌, ◌<◌, ◌≡◌, ◌≢◌, minus_one, true, false, ◌||◌, List, [], some, none, ◌==◌}
use libsbox.Container.TaskData.{TaskData}
use libsbox.Container.Slave
use libsbox.Container.Slave.{Kernel, Handle, read_only, write_truncate, dup2_fds, Streams}
use libsbox.Container.Slave.Redirect.{StandardOpen, Wants, WantsErrors, Redirected}
use libsbox.Container.Slave.Launch.{Box, IsLawful, Launched}
use libsbox.Container.Rights
use libsbox.Container.Rights.{Process, all_of, unchanged_id}
use libsbox.Container.Rights.Limits.{boxed, FilesFit}
use libsbox.Cgroup
use libsbox.Cgroup.{CgroupController, Cgroups, tasks_file}

module _ (K : Kernel) (lawful : Slave.IsLawful K) (C : Cgroups K) (entering : Cgroup.IsLawful K C)
    (B : Box K) (boxing : IsLawful K B) (P : Process) (allowing : Rights.IsLawful P) where
  open K use {State, table}

  -- What the slave finds: the descriptors that the task wants, an open log, a process of root, and
  -- two cgroups of different hierarchies that are not entered.
  pub record Before (s : State) (p : P.State) (d : TaskData) (input output errors log : Handle)
      (logger id : ℕ) (memory cpuacct : CgroupController) : Type 0 where
    pub standard : StandardOpen K lawful s
    pub wants_input : Wants K lawful s d.stdin_desc read_only input
    pub wants_output : Wants K lawful s d.stdout_desc write_truncate output
    pub wants_errors : WantsErrors K lawful s d.stderr_desc output errors
    pub logs : table s logger ≡ some log
    pub log_above : 3 ≤ logger
    pub memory_out : memory.enter_fd ≡ minus_one
    pub cpuacct_out : cpuacct.enter_fd ≡ minus_one
    pub two : C.hierarchy (tasks_file memory.path) ≢ C.hierarchy (tasks_file cpuacct.path)
    pub root : P.privileged p ≡ true
    pub unprivileged_id : id ≢ 0
    pub given_id : id < unchanged_id
    pub files_fit : FilesFit P d

  -- What the task will run with.
  pub record Confined (p : P.State) (d : TaskData) (input output errors log : Handle)
      (logger id : ℕ) (memory cpuacct : List ℕ) (t : Launched K P) : Type 0 where
    pub standard : Redirected K lawful t.kernel input output errors
    pub logs : table t.kernel logger ≡ some log
    pub closed :
        (n : ℕ) → (n == 0 || n == 1 || n == 2 || n == logger) ≡ false → table t.kernel n ≡ none
    pub in_memory : C.inside t.kernel (tasks_file memory) ≡ true
    pub in_cpuacct : C.inside t.kernel (tasks_file cpuacct) ≡ true
    pub limits : (q : Rights.Resource) → P.limit t.process q ≡ boxed d (P.limit p) q
    pub uids : P.uids t.process ≡ all_of id
    pub gids : P.gids t.process ≡ all_of id
    pub groups : P.groups t.process ≡ []
    pub unprivileged : P.privileged t.process ≡ false
