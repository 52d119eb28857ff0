-- ===== src/Container/SetTask.antt =====
-- Container::set_task and Container::put_results of src/container.cpp, and the constructor of
-- BindData of src/task_data.h. The sum of the sizes of a task's strings is the number of bytes that
-- they take in memory, so that the size_t sum does not wrap.
pub mod Spec
pub mod Streams
pub mod Parts
pub mod Whole
use libsbox.Base.{
  ℕ, ◌+◌, ◌≡◌, ℤ, pos, minus_one, Bool, true, false, List, [], ◌∷◌, Option, none, some, length, ltb,
  ◌==◌, if◌then◌else◌, codes, text_eq, Result, ok, err, ◌>>=◌,
}
use libsbox.Memory.{c_str}
use libsbox.Crash.{Crash, died, lift}
use libsbox.PlainString
use libsbox.PlainString.{PlainString}
use libsbox.PlainVector
use libsbox.PlainVector.{PlainVector}
use libsbox.PlainStringVector
use libsbox.PlainStringVector.{PlainStringVector, total_size}
use libsbox.Task
use libsbox.Task.{Task, BindRule}
use libsbox.Pipes.{Pipes, get_pipe}
use libsbox.Container.TaskData.{
  TaskData, IoStream, BindData, argc_max, argv_max, envc_max, env_max, binds_max, path_max,
}

-- The messages of the `die` calls on the way.
pub data Reason : Type 0 where
  stdin_too_long stdout_too_long stderr_too_long : Reason
  argv_too_many argv_too_large env_too_many env_too_large : Reason
  binds_too_many inside_too_long outside_too_long : Reason
  no_pipe : Reason

abbrev pub Run : Type 0 → Type 0
Run A = Result (Crash Reason) A

abbrev pub dev_null : List ℕ
dev_null = codes "/dev/null"

abbrev pub stdout_name : List ℕ
stdout_name = codes "_stdout"

-- Worker::get().get_pipe(name), of which one end is taken
pub open_end : (ℕ × ℕ → ℕ) → Pipes → List ℕ → Run (ℤ × Pipes)
open_end end p name = elim (get_pipe p name) [
  | none ↦ err (died no_pipe)
  | some (fds, p') ↦ ok (pos (end fds), p')
]

abbrev pub reading_end : ℕ × ℕ → ℕ
reading_end fds = fds.0

abbrev pub writing_end : ℕ × ℕ → ℕ
writing_end fds = fds.1

unfoldable pub open_stdin : Pipes → List ℕ → Run (ℤ × Pipes)
unfolding open_end
open_stdin = open_end reading_end

unfoldable pub open_stdout : Pipes → List ℕ → Run (ℤ × Pipes)
unfolding open_end
open_stdout = open_end writing_end

-- `@_stdout` is STDOUT_FILENO.
unfoldable pub open_stderr : Pipes → List ℕ → Run (ℤ × Pipes)
unfolding open_end
open_stderr p name = if text_eq name stdout_name then ok (pos 1, p) else open_end writing_end p name

-- The three blocks for stdin, stdout and stderr, which differ in the message and in what a name
-- behind an `@` opens. `cleared` is the name after `filename = ""`.
pub connect :
    Reason
    → (Pipes → List ℕ → Run (ℤ × Pipes))
    → Pipes
    → PlainString
    → List ℕ
    → Run (IoStream × Pipes)
connect too_long open_pipe p cleared [] = do
  named ← lift (PlainString.assign_ptr cleared (c_str dev_null))
  ok (record { fd = minus_one; filename = named }, p)
connect too_long open_pipe p cleared (c ∷ rest) =
    if c == b'@'
    then (do (fd, p') ← open_pipe p rest; ok (record { fd = fd; filename = cleared }, p'))
    else if ltb path_max (length (c ∷ rest))
    then err (died too_long)
    else (do
      named ← lift (PlainString.assign cleared (c ∷ rest))
      ok (record { fd = minus_one; filename = named }, p))

unfoldable pub set_stream :
    Reason → (Pipes → List ℕ → Run (ℤ × Pipes)) → Pipes → IoStream → List ℕ → Run (IoStream × Pipes)
unfolding connect
set_stream too_long open_pipe p desc name = do
  cleared ← lift (PlainString.assign_ptr desc.filename (c_str []))
  connect too_long open_pipe p cleared name

-- The blocks for argv and env, at the two limits and the two messages.
unfoldable pub set_strings :
    Reason → Reason → ℕ → ℕ → PlainStringVector → List (List ℕ) → Run PlainStringVector
set_strings too_many too_large max_count max_size v strs =
    if ltb max_count (length strs)
    then err (died too_many)
    else if ltb max_size (total_size strs)
    then err (died too_large)
    else (do
      cleared ← lift (PlainStringVector.clear v)
      lift (PlainStringVector.add_all cleared strs))

-- BindData(inside, outside, flags)
unfoldable pub bind_data : BindRule → Run BindData
bind_data b =
    if ltb path_max (length b.inside)
    then err (died inside_too_long)
    else if ltb path_max (length b.outside)
    then err (died outside_too_long)
    else (do
      inside ← lift (PlainString.assign (PlainString.default path_max) b.inside)
      outside ← lift (PlainString.assign (PlainString.default path_max) b.outside)
      ok (record { inside = inside; outside = outside; flags = b.flags }))

unfoldable pub add_binds : PlainVector BindData → List BindRule → Run (PlainVector BindData)
unfolding bind_data
add_binds v [] = ok v
add_binds v (b ∷ bs) = do d ← bind_data b; w ← lift (PlainVector.emplace_back v d); add_binds w.1 bs

unfoldable pub set_binds : PlainVector BindData → List BindRule → Run (PlainVector BindData)
unfolding add_binds
set_binds v bs =
    if ltb binds_max (length bs)
    then err (died binds_too_many)
    else (do cleared ← lift (PlainVector.clear v); add_binds cleared bs)

unfoldable pub set_task : Pipes → TaskData → Task → Run (TaskData × Pipes)
unfolding set_stream set_strings set_binds open_stdin open_stdout open_stderr
set_task p d t = do
  (stdin_desc, p1) ←
      set_stream stdin_too_long open_stdin p d.stdin_desc (Task.get_filename (Task.get_stdin t))
  (stdout_desc, p2) ←
      set_stream stdout_too_long open_stdout p1 d.stdout_desc
        (Task.get_filename (Task.get_stdout t))
  (stderr_desc, p3) ←
      set_stream stderr_too_long open_stderr p2 d.stderr_desc
        (Task.get_filename (Task.get_stderr t))
  argv ← set_strings argv_too_many argv_too_large argc_max argv_max d.argv (Task.get_argv t)
  env ←
      set_strings env_too_many env_too_large (envc_max + 1) (env_max + 1024) d.env (Task.get_env t)
  binds ← set_binds d.binds (Task.get_binds t)
  ok (
    record {
      time_limit_ms = Task.get_time_limit_ms t;
      wall_time_limit_ms = Task.get_wall_time_limit_ms t;
      memory_limit_kb = Task.get_memory_limit_kb t;
      fsize_limit_kb = Task.get_fsize_limit_kb t;
      max_files = Task.get_max_files t;
      max_threads = Task.get_max_threads t;
      need_ipc = Task.get_need_ipc t;
      use_standard_binds = Task.get_use_standard_binds t;
      stdin_desc = stdin_desc;
      stdout_desc = stdout_desc;
      stderr_desc = stderr_desc;
      argv = argv;
      env = env;
      binds = binds;
      time_usage_ms = minus_one;
      time_usage_sys_ms = minus_one;
      time_usage_user_ms = minus_one;
      wall_time_usage_ms = minus_one;
      memory_usage_kb = minus_one;
      time_limit_exceeded = false;
      wall_time_limit_exceeded = false;
      exited = false;
      exit_code = minus_one;
      signaled = false;
      term_signal = minus_one;
      oom_killed = false;
      memory_limit_hit = false;
      error = true;
    },
    p3,
  )

unfoldable pub put_results : TaskData → Task → Task
put_results d t0 =
    let t1 = Task.set_time_usage_ms t0 d.time_usage_ms in
    let t2 = Task.set_time_usage_sys_ms t1 d.time_usage_sys_ms in
    let t3 = Task.set_time_usage_user_ms t2 d.time_usage_user_ms in
    let t4 = Task.set_wall_time_usage_ms t3 d.wall_time_usage_ms in
    let t5 = Task.set_memory_usage_kb t4 d.memory_usage_kb in
    let t6 = Task.set_time_limit_exceeded t5 d.time_limit_exceeded in
    let t7 = Task.set_wall_time_limit_exceeded t6 d.wall_time_limit_exceeded in
    let t8 = Task.set_exited t7 d.exited in
    let t9 = Task.set_exit_code t8 d.exit_code in
    let t10 = Task.set_signaled t9 d.signaled in
    let t11 = Task.set_term_signal t10 d.term_signal in
    let t12 = Task.set_oom_killed t11 d.oom_killed in
    Task.set_memory_limit_hit t12 d.memory_limit_hit
