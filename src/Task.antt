-- ===== src/Task.antt =====
-- The client's view of a task: BindRule, Pipe, Stream and Task of include/libsbox.h and
-- src/libsbox.cpp. A std::string is the list of its characters; a number is an integer, and -1 is
-- `unlimited`.
pub mod Json
use Prim.Native.Nat.{bit_or}
use libsbox.Base.{ℕ, ◌++◌, ℤ, pos, minus_one, Bool, true, false, List, [], codes}

pub record BindRule : Type 0 where
  pub inside : List ℕ
  pub outside : List ℕ
  pub flags : ℕ

-- enum { WRITABLE = 1, DEV_ALLOWED = 2, EXEC_FORBIDDEN = 4, SUID_ALLOWED = 8, OPTIONAL = 16 }
pub data BindFlag : Type 0 where
  writable dev_allowed exec_forbidden suid_allowed optional : BindFlag

abbrev pub flag_value : BindFlag → ℕ
flag_value writable = 1
flag_value dev_allowed = 2
flag_value exec_forbidden = 4
flag_value suid_allowed = 8
flag_value optional = 16

-- BindRule(inside, outside)
unfoldable pub bind_rule : List ℕ → List ℕ → BindRule
bind_rule inside outside = record { inside = inside; outside = outside; flags = 0 }

-- BindRule(inside, outside, flags)
unfoldable pub bind_rule_with : List ℕ → List ℕ → ℕ → BindRule
bind_rule_with inside outside flags = record { inside = inside; outside = outside; flags = flags }

abbrev pub get_inside_path : BindRule → List ℕ
get_inside_path b = b.inside

abbrev pub get_outside_path : BindRule → List ℕ
get_outside_path b = b.outside

abbrev pub get_flags : BindRule → ℕ
get_flags b = b.flags

unfoldable pub allow_write : BindRule → BindRule
allow_write b = record b { flags = bit_or b.flags (flag_value writable) }

unfoldable pub allow_dev : BindRule → BindRule
allow_dev b = record b { flags = bit_or b.flags (flag_value dev_allowed) }

unfoldable pub forbid_exec : BindRule → BindRule
forbid_exec b = record b { flags = bit_or b.flags (flag_value exec_forbidden) }

unfoldable pub allow_suid : BindRule → BindRule
allow_suid b = record b { flags = bit_or b.flags (flag_value suid_allowed) }

unfoldable pub make_optional : BindRule → BindRule
make_optional b = record b { flags = bit_or b.flags (flag_value optional) }

-- What a stream is connected to: nothing if it is empty, a pipe after an `@`, else a file.
pub record Stream : Type 0 where
  pub filename : List ℕ

abbrev pub get_filename : Stream → List ℕ
get_filename s = s.filename

unfoldable pub disable : Stream → Stream
disable s = record { filename = [] }

-- use_pipe, given the pipe's name
unfoldable pub use_pipe : Stream → List ℕ → Stream
use_pipe s name = record { filename = codes "@" ++ name }

unfoldable pub use_file : Stream → List ℕ → Stream
use_file s filename = record { filename = filename }

-- StderrStream::use_stdout
unfoldable pub use_stdout : Stream → Stream
use_stdout s = record { filename = codes "@_stdout" }

pub record Task : Type 0 where
  pub time_limit_ms : ℤ
  pub wall_time_limit_ms : ℤ
  pub memory_limit_kb : ℤ
  pub fsize_limit_kb : ℤ
  pub max_files : ℤ
  pub max_threads : ℤ
  pub need_ipc : Bool
  pub use_standard_binds : Bool
  pub stdin : Stream
  pub stdout : Stream
  pub stderr : Stream
  pub argv : List (List ℕ)
  pub env : List (List ℕ)
  pub binds : List BindRule
  pub time_usage_ms : ℤ
  pub time_usage_sys_ms : ℤ
  pub time_usage_user_ms : ℤ
  pub wall_time_usage_ms : ℤ
  pub memory_usage_kb : ℤ
  pub time_limit_exceeded : Bool
  pub wall_time_limit_exceeded : Bool
  pub exited : Bool
  pub exit_code : ℤ
  pub signaled : Bool
  pub term_signal : ℤ
  pub oom_killed : Bool
  pub memory_limit_hit : Bool

-- The getters; exited() and signaled() have the prefix `has_`.
abbrev pub get_time_limit_ms : Task → ℤ
get_time_limit_ms t = t.time_limit_ms

abbrev pub get_wall_time_limit_ms : Task → ℤ
get_wall_time_limit_ms t = t.wall_time_limit_ms

abbrev pub get_memory_limit_kb : Task → ℤ
get_memory_limit_kb t = t.memory_limit_kb

abbrev pub get_fsize_limit_kb : Task → ℤ
get_fsize_limit_kb t = t.fsize_limit_kb

abbrev pub get_max_files : Task → ℤ
get_max_files t = t.max_files

abbrev pub get_max_threads : Task → ℤ
get_max_threads t = t.max_threads

abbrev pub get_need_ipc : Task → Bool
get_need_ipc t = t.need_ipc

abbrev pub get_use_standard_binds : Task → Bool
get_use_standard_binds t = t.use_standard_binds

abbrev pub get_stdin : Task → Stream
get_stdin t = t.stdin

abbrev pub get_stdout : Task → Stream
get_stdout t = t.stdout

abbrev pub get_stderr : Task → Stream
get_stderr t = t.stderr

abbrev pub get_env : Task → List (List ℕ)
get_env t = t.env

abbrev pub get_binds : Task → List BindRule
get_binds t = t.binds

abbrev pub get_argv : Task → List (List ℕ)
get_argv t = t.argv

abbrev pub get_time_usage_ms : Task → ℤ
get_time_usage_ms t = t.time_usage_ms

abbrev pub get_time_usage_sys_ms : Task → ℤ
get_time_usage_sys_ms t = t.time_usage_sys_ms

abbrev pub get_time_usage_user_ms : Task → ℤ
get_time_usage_user_ms t = t.time_usage_user_ms

abbrev pub get_wall_time_usage_ms : Task → ℤ
get_wall_time_usage_ms t = t.wall_time_usage_ms

abbrev pub get_memory_usage_kb : Task → ℤ
get_memory_usage_kb t = t.memory_usage_kb

abbrev pub is_time_limit_exceeded : Task → Bool
is_time_limit_exceeded t = t.time_limit_exceeded

abbrev pub is_wall_time_limit_exceeded : Task → Bool
is_wall_time_limit_exceeded t = t.wall_time_limit_exceeded

abbrev pub has_exited : Task → Bool
has_exited t = t.exited

abbrev pub get_exit_code : Task → ℤ
get_exit_code t = t.exit_code

abbrev pub has_signaled : Task → Bool
has_signaled t = t.signaled

abbrev pub get_term_signal : Task → ℤ
get_term_signal t = t.term_signal

abbrev pub is_oom_killed : Task → Bool
is_oom_killed t = t.oom_killed

abbrev pub is_memory_limit_hit : Task → Bool
is_memory_limit_hit t = t.memory_limit_hit

-- Task(), by the initialisers of its members
unfoldable pub new_task : Task
new_task = record {
  time_limit_ms = minus_one;
  wall_time_limit_ms = minus_one;
  memory_limit_kb = minus_one;
  fsize_limit_kb = minus_one;
  max_files = pos 16;
  max_threads = pos 1;
  need_ipc = false;
  use_standard_binds = true;
  stdin = record { filename = [] };
  stdout = record { filename = [] };
  stderr = record { filename = [] };
  argv = [];
  env = [];
  binds = [];
  time_usage_ms = pos 0;
  time_usage_sys_ms = pos 0;
  time_usage_user_ms = pos 0;
  wall_time_usage_ms = pos 0;
  memory_usage_kb = pos 0;
  time_limit_exceeded = false;
  wall_time_limit_exceeded = false;
  exited = false;
  exit_code = minus_one;
  signaled = false;
  term_signal = minus_one;
  oom_killed = false;
  memory_limit_hit = false;
}

unfoldable pub set_time_limit_ms : Task → ℤ → Task
set_time_limit_ms t time_limit_ms = record t { time_limit_ms = time_limit_ms }

unfoldable pub set_wall_time_limit_ms : Task → ℤ → Task
set_wall_time_limit_ms t wall_time_limit_ms = record t { wall_time_limit_ms = wall_time_limit_ms }

unfoldable pub set_memory_limit_kb : Task → ℤ → Task
set_memory_limit_kb t memory_limit_kb = record t { memory_limit_kb = memory_limit_kb }

unfoldable pub set_fsize_limit_kb : Task → ℤ → Task
set_fsize_limit_kb t fsize_limit_kb = record t { fsize_limit_kb = fsize_limit_kb }

unfoldable pub set_max_files : Task → ℤ → Task
set_max_files t max_files = record t { max_files = max_files }

unfoldable pub set_max_threads : Task → ℤ → Task
set_max_threads t max_threads = record t { max_threads = max_threads }

unfoldable pub set_need_ipc : Task → Bool → Task
set_need_ipc t need_ipc = record t { need_ipc = need_ipc }

unfoldable pub set_use_standard_binds : Task → Bool → Task
set_use_standard_binds t use_standard_binds = record t { use_standard_binds = use_standard_binds }

unfoldable pub set_argv : Task → List (List ℕ) → Task
set_argv t argv = record t { argv = argv }

unfoldable pub set_time_usage_ms : Task → ℤ → Task
set_time_usage_ms t time_usage_ms = record t { time_usage_ms = time_usage_ms }

unfoldable pub set_time_usage_sys_ms : Task → ℤ → Task
set_time_usage_sys_ms t time_usage_sys_ms = record t { time_usage_sys_ms = time_usage_sys_ms }

unfoldable pub set_time_usage_user_ms : Task → ℤ → Task
set_time_usage_user_ms t time_usage_user_ms = record t { time_usage_user_ms = time_usage_user_ms }

unfoldable pub set_wall_time_usage_ms : Task → ℤ → Task
set_wall_time_usage_ms t wall_time_usage_ms = record t { wall_time_usage_ms = wall_time_usage_ms }

unfoldable pub set_memory_usage_kb : Task → ℤ → Task
set_memory_usage_kb t memory_usage_kb = record t { memory_usage_kb = memory_usage_kb }

unfoldable pub set_time_limit_exceeded : Task → Bool → Task
set_time_limit_exceeded t time_limit_exceeded = record t {
  time_limit_exceeded = time_limit_exceeded;
}

unfoldable pub set_wall_time_limit_exceeded : Task → Bool → Task
set_wall_time_limit_exceeded t wall_time_limit_exceeded = record t {
  wall_time_limit_exceeded = wall_time_limit_exceeded;
}

unfoldable pub set_exited : Task → Bool → Task
set_exited t exited = record t { exited = exited }

unfoldable pub set_exit_code : Task → ℤ → Task
set_exit_code t exit_code = record t { exit_code = exit_code }

unfoldable pub set_signaled : Task → Bool → Task
set_signaled t signaled = record t { signaled = signaled }

unfoldable pub set_term_signal : Task → ℤ → Task
set_term_signal t term_signal = record t { term_signal = term_signal }

unfoldable pub set_oom_killed : Task → Bool → Task
set_oom_killed t oom_killed = record t { oom_killed = oom_killed }

unfoldable pub set_memory_limit_hit : Task → Bool → Task
set_memory_limit_hit t memory_limit_hit = record t { memory_limit_hit = memory_limit_hit }
