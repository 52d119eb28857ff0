-- ===== src/Container/WaitForSlave.antt =====
-- Container::wait_for_slave, kill_all and the measuring functions of src/container.cpp.
-- What the kernel reports is an argument: `wakes` lists how the calls of waitpid(slave_pid_) return
-- one after the other, `World` holds the results of kill(2) and wait(2) in kill_all, and `Measures`
-- what the files of the two cgroups and the clock show at the end. A file's number is the value that
-- stoll reads; the kernel writes no negative ones. A list that ends means that the call still blocks.
-- The timers, which only cause the interrupts, are not state of the model. read_file, stoll and
-- set_standard_handler_restart, which may die, are taken to succeed, and a clock that shows less than
-- at the start is not represented.
pub mod Measured
pub mod Verdict
pub mod Total
pub mod Fits
use libsbox.Base.{
  ℕ, ◌+◌, ◌*◌, ◌/◌, ◌≡◌, ℤ, pos, minus_one, Bool, true, false, not, ◌&&◌, List, [], ◌∷◌, Option,
  none, some, ltb, ltb_ℤ, eq_ℤ, ◌==◌, if◌then◌else◌, codes, text_eq, Result, ok, err, ◌>>=◌, ◌>>◌,
  guard, or_fail,
}
use libsbox.Container.TaskData.{TaskData}

-- Why the function does not return: a call still blocks, or a `die`.
pub data Ending : Type 0 where
  still_waiting waitpid_failed kill_failed wait_failed no_oom_kill slave_error : Ending

-- WIFEXITED and WIFSIGNALED; without WUNTRACED waitpid reports no other status.
pub data SlaveStatus : Type 0 where
  exited : ℕ → SlaveStatus
  signaled : ℕ → SlaveStatus

-- The difference of two clock readings, as timersub leaves it.
pub record TimeVal : Type 0 where
  pub sec : ℕ
  pub usec : ℕ

-- How one call of waitpid returns: with the slave's status, or without, and then the flag
-- `timer_interrupt`, the CPU time in nanoseconds and the time since the start.
pub data Wake : Type 0 where
  slave_ended : SlaveStatus → Wake
  interrupted : Bool → ℕ → TimeVal → Wake

pub data KillResult : Type 0 where
  killed no_process refused : KillResult

pub data WaitResult : Type 0 where
  reaped no_child failed : WaitResult

pub record World : Type 0 where
  pub kill : KillResult
  pub waits : List WaitResult

pub record Measures : Type 0 where
  pub cpu_ns : ℕ
  pub cpu_sys_ns : ℕ
  pub cpu_user_ns : ℕ
  pub clock : TimeVal
  pub max_usage : ℕ
  pub cur_usage : ℕ
  pub oom_control : List (List ℕ)
  pub failcnt : ℕ
  pub error : Bool

-- get_time_usage_ms, and the same for the two parts
abbrev pub time_usage_ms : ℕ → ℕ
time_usage_ms ns = ns / 1_000_000

-- get_wall_clock_ms
abbrev pub wall_clock_ms : TimeVal → ℕ
wall_clock_ms seg = seg.sec * 1000 + seg.usec / 1000

-- get_memory_usage_kb
abbrev pub memory_usage_kb : ℕ → ℕ → ℕ
memory_usage_kb max_usage cur_usage =
    (if ltb max_usage cur_usage then cur_usage else max_usage) / 1024

-- is_oom_killed, over the words of the file; `none` if the field is missing, where it dies
unfoldable pub is_oom_killed : List (List ℕ) → Option Bool
is_oom_killed [] = none
is_oom_killed (name ∷ []) = none
is_oom_killed (name ∷ val ∷ rest) =
    let later = is_oom_killed rest in
    if text_eq name (codes "oom_kill") then some (not (text_eq val (codes "0"))) else later

-- is_memory_limit_hit
abbrev pub is_memory_limit_hit : ℕ → Bool
is_memory_limit_hit failcnt = not (failcnt == 0)

-- The loop of kill_all, until wait(2) fails.
unfoldable pub reap : List WaitResult → Result Ending (Unit {0})
reap [] = err still_waiting
reap (reaped ∷ rest) = reap rest
reap (no_child ∷ rest) = ok tt
reap (failed ∷ rest) = err wait_failed

unfoldable pub kill_all : World → Result Ending (Unit {0})
unfolding reap
kill_all w = elim w.kill [
  | killed ↦ reap w.waits
  | no_process ↦ reap w.waits
  | refused ↦ err kill_failed
]

-- limit != -1 && usage > limit
abbrev pub is_over : ℤ → ℕ → Bool
is_over limit usage = not (eq_ℤ limit minus_one) && ltb_ℤ limit (pos usage)

abbrev pub record_status : TaskData → SlaveStatus → TaskData
record_status d (exited code) = record d { exited = true; exit_code = pos code }
record_status d (signaled signal) = record d { signaled = true; term_signal = pos signal }

unfoldable pub wait_loop : World → TaskData → List Wake → Result Ending TaskData
unfolding kill_all
wait_loop w d [] = err still_waiting
wait_loop w d (slave_ended status ∷ rest) = do kill_all w; ok (record_status d status)
wait_loop w d (interrupted timer cpu_ns clock ∷ rest) =
    let continued = wait_loop w d rest in
    let stopped : Result Ending TaskData = (do kill_all w; ok d) in
    if not timer
    then err waitpid_failed
    else if is_over d.time_limit_ms (time_usage_ms cpu_ns)
    then stopped
    else if is_over d.wall_time_limit_ms (wall_clock_ms clock)
    then stopped
    else continued

-- The results. A limit of -1 leaves the flag as it is.
abbrev pub fill_results : TaskData → Measures → Bool → TaskData
fill_results d m oom = record d {
  time_usage_ms = pos (time_usage_ms m.cpu_ns);
  time_usage_sys_ms = pos (time_usage_ms m.cpu_sys_ns);
  time_usage_user_ms = pos (time_usage_ms m.cpu_user_ns);
  wall_time_usage_ms = pos (wall_clock_ms m.clock);
  memory_usage_kb = pos (memory_usage_kb m.max_usage m.cur_usage);
  oom_killed = oom;
  memory_limit_hit = is_memory_limit_hit m.failcnt;
  time_limit_exceeded =
      if not (eq_ℤ d.time_limit_ms minus_one)
      then ltb_ℤ d.time_limit_ms (pos (time_usage_ms m.cpu_ns))
      else d.time_limit_exceeded;
  wall_time_limit_exceeded =
      if not (eq_ℤ d.wall_time_limit_ms minus_one)
      then ltb_ℤ d.wall_time_limit_ms (pos (wall_clock_ms m.clock))
      else d.wall_time_limit_exceeded;
  error = m.error;
}

-- What follows the loop.
unfoldable pub measure : TaskData → Measures → Result Ending TaskData
unfolding is_oom_killed
measure d m = do
  oom ← or_fail (is_oom_killed m.oom_control) no_oom_kill
  guard (not m.error) slave_error
  ok (fill_results d m oom)

unfoldable pub wait_for_slave : TaskData → List Wake → World → Measures → Result Ending TaskData
unfolding wait_loop measure
wait_for_slave d wakes w m = do ended ← wait_loop w d wakes; measure ended m
