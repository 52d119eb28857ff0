-- ===== src/Daemon.antt =====
-- src/daemon.cpp: Daemon::prepare, run and _die. A part of the program that ends early leaves a state,
-- since _die removes files: `Action` gives a value or the reason to end, and the state either way.
-- Descriptors, cgroups and signals are those of the other modules; the files /run/libsboxd.pid and the
-- socket are those of `FileSystem`. What the other calls return is an argument, `Calls`.
pub mod Triple
pub mod Quiet
pub mod Files
pub mod Start
pub mod Exit
use libsbox.Base.{
  ℕ, zero, suc, ◌+◌, ◌≡◌, Bool, true, false, not, List, [], ◌∷◌, ◌++◌, Option, none, some, length,
  ◌==◌, codes, take, text_eq, if◌then◌else◌, Result, ok, err,
}
use libsbox.Crash.{Crash, died, undefined}
use libsbox.Memory.{Fault}
use libsbox.SharedIdGetter
use libsbox.SharedIdGetter.{IdGetter}
use libsbox.Signals
use libsbox.Signals.{Signals, prepare_signals}
use libsbox.Cgroup
use libsbox.Cgroup.{Cgroups}
use libsbox.Cgroup.Files as CgroupFiles
use libsbox.Config.{Config}
use libsbox.Container.Slave.{Kernel, Mode, read_only, write_only}
use libsbox.Container.WaitForSlave.{SlaveStatus, exited}

pub record FileSystem : Type 1 where
  pub State : Type 0
  pub exists : State → List ℕ → Bool
  -- open with O_CREAT | O_EXCL, and bind of a UNIX socket
  pub create_exclusive : State → List ℕ → Option State
  pub bind : State → List ℕ → Option State
  pub unlink : State → List ℕ → Bool × State

pub record Machine : Type 1 where
  pub kernel : Kernel
  pub groups : Cgroups kernel
  pub files : FileSystem
  pub signals : Signals.Kernel

-- Whether a call succeeds; what fork gives for each worker, and wait for each call.
pub record Calls : Type 0 where
  pub user_set : Bool
  pub group_set : Bool
  pub pid_written : Bool
  pub pid_closed : Bool
  pub socket_made : Bool
  pub listening : Bool
  pub started : ℕ → Option ℕ
  pub first_wait : Option SlaveStatus
  pub terminated : Bool
  pub socket_closed : Bool
  pub killed : ℕ → Bool
  pub waited : ℕ → Option SlaveStatus

pub data Reason : Type 0 where
  not_root pid_file_exists cannot_write_pid cannot_close_std cannot_open_null : Reason
  on_signals : Signals.Reason → Reason
  on_cgroup : Crash Cgroup.Reason → Reason
  no_socket cannot_start cannot_wait cannot_remove_socket cannot_kill : Reason
  worker_ended : SlaveStatus → Reason

abbrev pub pid_path : List ℕ
pid_path = codes "/run/libsboxd.pid"

abbrev pub null_path : List ℕ
null_path = codes "/dev/null"

-- sizeof(sun_path) - 1
abbrev pub sun_path_max : ℕ
sun_path_max = 107

module _ (M : Machine) where
  pub record State : Type 0 where
    pub kernel : M.kernel.State
    pub files : M.files.State
    pub signals : Signals M.signals
    pub socket_path : List ℕ
    pub getter : Option IdGetter
    pub workers : List ℕ
    pub signalled : List ℕ

  abbrev pub Action : Type 0 → Type 0
  Action A = State → Result Reason A × State

  abbrev pub pure : {A : Type 0} → A → Action A
  pure a s = (ok a, s)

  abbrev pub and_then :
      {A B : Type 0} → (A → Action B) → Result Reason A × State → Result Reason B × State
  and_then f (ok a, t) = f a t
  and_then f (err why, t) = (err why, t)

  infixl 5 ◌>>=◌ ◌>>◌
  abbrev pub ◌>>=◌ : {A B : Type 0} → Action A → (A → Action B) → Action B
  ◌>>=◌ m f s = and_then f (m s)

  abbrev pub ◌>>◌ : {B : Type 0} → Action (Unit {0}) → Action B → Action B
  m >> k = m >>= λ _. k

  abbrev pub check : Bool → Reason → Action (Unit {0})
  check b why s = if b then (ok tt, s) else (err why, s)

  -- A call that gives a state, or is refused.
  abbrev pub stored : Option State → Reason → Action (Unit {0})
  stored none why s = (err why, s)
  stored (some t) why s = (ok tt, t)

  abbrev pub kernel_set : State → Option M.kernel.State → Option State
  kernel_set s none = none
  kernel_set s (some k) = some (record s { kernel = k })

  abbrev pub files_set : State → Option M.files.State → Option State
  files_set s none = none
  files_set s (some f) = some (record s { files = f })

  unfoldable pub become_root : Calls → Action (Unit {0})
  become_root c = do check c.user_set not_root; check c.group_set not_root

  unfoldable pub write_pid_file : Calls → Action (Unit {0})
  write_pid_file c = do
    (λ s. stored (files_set s (M.files.create_exclusive s.files pid_path)) pid_file_exists s)
    check c.pid_written cannot_write_pid
    check c.pid_closed cannot_write_pid

  abbrev pub signals_set :
      State → Result Signals.Reason (Signals M.signals) → Result Reason (Unit {0}) × State
  signals_set s (ok g) = (ok tt, record s { signals = g })
  signals_set s (err why) = (err (on_signals why), s)

  unfoldable pub take_signals : Action (Unit {0})
  take_signals s = signals_set s (prepare_signals M.signals s.signals)

  abbrev pub close_fd : ℕ → Action (Unit {0})
  close_fd fd s = stored (kernel_set s (M.kernel.close s.kernel fd)) cannot_close_std s

  -- if (open("/dev/null", mode) != fd) die(...)
  abbrev pub null_opened :
      ℕ → State → Option (ℕ × M.kernel.State) → Result Reason (Unit {0}) × State
  null_opened fd s none = (err cannot_open_null, s)
  null_opened fd s (some (n, k)) = check (n == fd) cannot_open_null (record s { kernel = k })

  abbrev pub open_null : ℕ → Mode → Action (Unit {0})
  open_null fd mode s = null_opened fd s (M.kernel.open_file s.kernel null_path mode)

  unfoldable pub null_streams : Action (Unit {0})
  null_streams = do
    close_fd 0
    close_fd 1
    close_fd 2
    open_null 0 read_only
    open_null 1 write_only
    open_null 2 write_only

  abbrev pub group_made :
      State → Result (Crash Cgroup.Reason) M.kernel.State → Result Reason (Unit {0}) × State
  group_made s (ok k) = (ok tt, record s { kernel = k })
  group_made s (err why) = (err (on_cgroup why), s)

  unfoldable pub init_group : (root name : List ℕ) → Action (Unit {0})
  init_group root name s = group_made s (CgroupFiles.init M.kernel M.groups root name s.kernel)

  abbrev pub drop_file : List ℕ → Action Bool
  drop_file path s =
      let (removed, f) = M.files.unlink s.files path in (ok removed, record s { files = f })

  -- The path that strncpy leaves in addr.sun_path, for a path without NUL.
  unfoldable pub open_socket : Calls → List ℕ → Action (Unit {0})
  open_socket c path = do
    was ← drop_file path
    check c.socket_made no_socket
    (λ s. stored (files_set s (M.files.bind s.files (take sun_path_max path))) no_socket s)
    check c.listening no_socket

  unfoldable pub prepare : Calls → Config → Action (Unit {0})
  unfolding become_root write_pid_file take_signals null_streams init_group open_socket
  prepare c config = do
    become_root c
    write_pid_file c
    take_signals
    null_streams
    init_group config.cgroup_root (codes "memory")
    init_group config.cgroup_root (codes "cpuacct")
    (λ s. (ok tt, record s { socket_path = config.socket_path }))
    open_socket c config.socket_path
    (λ s. (ok tt, record s { getter = some (SharedIdGetter.init config.first_uid 256) }))

  abbrev pub add_worker : Option ℕ → Action (Unit {0})
  add_worker none s = (err cannot_start, s)
  add_worker (some pid) s = (ok tt, record s { workers = s.workers ++ (pid ∷ []) })

  -- for (i = 0; i < num_boxes_; ++i), with the rounds left and `i`
  unfoldable pub spawn : Calls → ℕ → ℕ → Action (Unit {0})
  spawn c zero i = pure tt
  spawn c (suc n) i = do add_worker (c.started i); spawn c n (i + 1)

  -- The loop that waits: its first call of wait decides.
  abbrev pub wait_for_end : Option SlaveStatus → Bool → Action (Unit {0})
  wait_for_end none terminated s = check terminated cannot_wait s
  wait_for_end (some status) terminated s = (err (worker_ended status), s)

  unfoldable pub kill_workers : Calls → List ℕ → Action (Unit {0})
  kill_workers c [] = pure tt
  kill_workers c (pid ∷ rest) = do
    check (c.killed pid) cannot_kill
    (λ s. (ok tt, record s { signalled = s.signalled ++ (pid ∷ []) }))
    kill_workers c rest

  -- !WIFEXITED(status) || WEXITSTATUS(status) != 0
  abbrev pub ended_well : SlaveStatus → Bool
  ended_well (exited code) = code == 0
  ended_well _ = false

  abbrev pub check_worker : Option SlaveStatus → Action (Unit {0})
  check_worker none s = (err cannot_wait, s)
  check_worker (some status) s = check (ended_well status) (worker_ended status) s

  unfoldable pub wait_workers : Calls → ℕ → ℕ → Action (Unit {0})
  wait_workers c zero i = pure tt
  wait_workers c (suc n) i = do check_worker (c.waited i); wait_workers c n (i + 1)

  unfoldable pub stop : Calls → Action (Unit {0})
  unfolding kill_workers wait_workers
  stop c = do
    removed ← (λ s. drop_file s.socket_path s)
    check removed cannot_remove_socket
    check c.socket_closed cannot_remove_socket
    (λ s. kill_workers c s.workers s)
    (λ s. wait_workers c (length s.workers) 0 s)

  unfoldable pub body : Calls → Config → Action (Unit {0})
  unfolding prepare spawn stop
  body c config = do
    prepare c config
    spawn c config.num_boxes 0
    wait_for_end c.first_wait c.terminated
    stop c

  -- _die, up to _exit(1)
  unfoldable pub die : State → State
  die s =
      let f = (M.files.unlink s.files s.socket_path).1 in
      record s { files = (M.files.unlink f pid_path).1 }

  -- The exit code and what is left.
  abbrev pub exit_with : Result Reason (Unit {0}) × State → ℕ × State
  exit_with (ok u, s) = (0, s)
  exit_with (err pid_file_exists, s) = (1, s)
  exit_with (err why, s) = (1, die s)

  unfoldable pub run : Calls → Config → State → ℕ × State
  unfolding body die
  run c config s = exit_with (body c config s)
