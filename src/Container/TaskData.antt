-- ===== src/Container/TaskData.antt =====
-- src/task_data.h: the task in the memory that the worker, the container and its slave share.
use libsbox.Base.{ℕ, ◌+◌, ℤ, Bool, List}
use libsbox.PlainString
use libsbox.PlainString.{PlainString}
use libsbox.PlainVector
use libsbox.PlainVector.{PlainVector}
use libsbox.PlainStringVector
use libsbox.PlainStringVector.{PlainStringVector}

-- include/libsbox.h and <limits.h>
abbrev pub argc_max : ℕ
argc_max = 128

abbrev pub envc_max : ℕ
envc_max = 128

abbrev pub binds_max : ℕ
binds_max = 10

abbrev pub argv_max : ℕ
argv_max = 4096

abbrev pub env_max : ℕ
env_max = 4096

abbrev pub path_max : ℕ
path_max = 4096

pub record IoStream : Type 0 where
  pub fd : ℤ
  pub filename : PlainString

pub record BindData : Type 0 where
  pub inside : PlainString
  pub outside : PlainString
  pub flags : ℕ

pub record TaskData : Type 0 where
  pub time_limit_ms : ℤ
  pub wall_time_limit_ms : ℤ
  pub memory_limit_kb : ℤ
  pub fsize_limit_kb : ℤ
  pub max_files : ℤ
  pub max_threads : ℤ
  pub need_ipc : Bool
  pub use_standard_binds : Bool
  pub stdin_desc : IoStream
  pub stdout_desc : IoStream
  pub stderr_desc : IoStream
  pub argv : PlainStringVector
  pub env : PlainStringVector
  pub binds : PlainVector BindData
  pub time_usage_ms : ℤ
  pub time_usage_sys_ms : ℤ
  pub time_usage_user_ms : ℤ
  pub wall_time_usage_ms : ℤ
  pub memory_usage_kb : ℤ
  pub time_limit_exceeded : Bool
  pub wall_time_limit_exceeded : Bool
  pub exited : Bool
  pub exit_code : ℤ
  pub signaled : Bool
  pub term_signal : ℤ
  pub oom_killed : Bool
  pub memory_limit_hit : Bool
  pub error : Bool

-- The containers inside are well formed, whatever they hold.
pub record IsValid (d : TaskData) : Type 0 where
  pub stdin_valid : PlainString.IsValid path_max d.stdin_desc.filename
  pub stdout_valid : PlainString.IsValid path_max d.stdout_desc.filename
  pub stderr_valid : PlainString.IsValid path_max d.stderr_desc.filename
  pub argv_old : List (List ℕ)
  pub argv_valid : PlainStringVector.Packs argc_max argv_max d.argv argv_old
  pub env_old : List (List ℕ)
  pub env_valid : PlainStringVector.Packs (envc_max + 1) (env_max + 1024) d.env env_old
  pub binds_old : List BindData
  pub binds_valid : PlainVector.Holds binds_max d.binds binds_old
