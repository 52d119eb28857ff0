-- ===== src/Container/SetTask/Spec.antt =====
-- What Container::set_task of src/container.cpp leaves in the shared memory, and why it dies.
use libsbox.Base.{
  ℕ, ◌+◌, ◌<◌, ◌≡◌, ◌≢◌, ◌⊎◌, ℤ, pos, minus_one, true, false, List, [], ◌∷◌, some, length,
}
use libsbox.PlainString
use libsbox.PlainVector
use libsbox.PlainStringVector
use libsbox.PlainStringVector.{total_size}
use libsbox.Task.{Task, BindRule}
use libsbox.Pipes.{Pipes, find}
use libsbox.Container.TaskData.{
  TaskData, IoStream, BindData, argc_max, argv_max, envc_max, env_max, binds_max, path_max,
}
use libsbox.Container.SetTask.{
  Reason, stdin_too_long, stdout_too_long, stderr_too_long, argv_too_many, argv_too_large,
  env_too_many, env_too_large, binds_too_many, inside_too_long, outside_too_long, no_pipe, dev_null,
  stdout_name,
}

-- The descriptor is one end of the pipe that the table has under the name.
abbrev pub Opens : (ℕ × ℕ → ℕ) → Pipes → List ℕ → ℤ → Type 0
Opens end p name fd = (fds : ℕ × ℕ) × (find name p.table ≡ some fds) × (fd ≡ pos (end fds))

-- For stderr the name `_stdout` stands for descriptor 1.
abbrev pub OpensStderr : Pipes → List ℕ → ℤ → Type 0
OpensStderr p name fd =
    (name ≡ stdout_name) × (fd ≡ pos 1) ⊎ (name ≢ stdout_name) × Opens (λ fds. fds.1) p name fd

-- A stream without a name is /dev/null, one with an `@` is an open descriptor and no file, and any
-- other is the file of that name.
abbrev pub Connected : (Pipes → List ℕ → ℤ → Type 0) → Pipes → List ℕ → IoStream → Type 0
Connected O p [] s = (s.fd ≡ minus_one) × (PlainString.to_list s.filename ≡ dev_null)
Connected O p (c ∷ rest) s =
    (c ≡ b'@') × O p rest s.fd × (PlainString.to_list s.filename ≡ [])
    ⊎ (c ≢ b'@') × (s.fd ≡ minus_one) × (PlainString.to_list s.filename ≡ c ∷ rest)

abbrev pub Bound : List BindRule → List BindData → Type 0
Bound [] [] = Unit
Bound [] (d ∷ ds) = ⊥
Bound (b ∷ bs) [] = ⊥
Bound (b ∷ bs) (d ∷ ds) =
    (PlainString.to_list d.inside ≡ b.inside)
    × (PlainString.to_list d.outside ≡ b.outside)
    × (d.flags ≡ b.flags)
    × Bound bs ds

pub record HasLimits (t : Task) (d : TaskData) : Type 0 where
  pub time : d.time_limit_ms ≡ t.time_limit_ms
  pub wall_time : d.wall_time_limit_ms ≡ t.wall_time_limit_ms
  pub memory : d.memory_limit_kb ≡ t.memory_limit_kb
  pub fsize : d.fsize_limit_kb ≡ t.fsize_limit_kb
  pub files : d.max_files ≡ t.max_files
  pub threads : d.max_threads ≡ t.max_threads
  pub ipc : d.need_ipc ≡ t.need_ipc
  pub standard : d.use_standard_binds ≡ t.use_standard_binds

-- No result yet, and the error flag up.
pub record IsReset (d : TaskData) : Type 0 where
  pub time : d.time_usage_ms ≡ minus_one
  pub time_sys : d.time_usage_sys_ms ≡ minus_one
  pub time_user : d.time_usage_user_ms ≡ minus_one
  pub wall_time : d.wall_time_usage_ms ≡ minus_one
  pub memory : d.memory_usage_kb ≡ minus_one
  pub time_exceeded : d.time_limit_exceeded ≡ false
  pub wall_time_exceeded : d.wall_time_limit_exceeded ≡ false
  pub not_exited : d.exited ≡ false
  pub exit_code : d.exit_code ≡ minus_one
  pub not_signaled : d.signaled ≡ false
  pub term_signal : d.term_signal ≡ minus_one
  pub not_oom_killed : d.oom_killed ≡ false
  pub not_limit_hit : d.memory_limit_hit ≡ false
  pub error : d.error ≡ true

pub record Written (t : Task) (d : TaskData) (p : Pipes) : Type 0 where
  pub limits : HasLimits t d
  pub stdin : Connected (Opens (λ fds. fds.0)) p t.stdin.filename d.stdin_desc
  pub stdout : Connected (Opens (λ fds. fds.1)) p t.stdout.filename d.stdout_desc
  pub stderr : Connected OpensStderr p t.stderr.filename d.stderr_desc
  pub argv : PlainStringVector.Packs argc_max argv_max d.argv t.argv
  pub env : PlainStringVector.Packs (envc_max + 1) (env_max + 1024) d.env t.env
  pub bind_list : List BindData
  pub binds : PlainVector.Holds binds_max d.binds bind_list
  pub bound : Bound t.binds bind_list
  pub reset : IsReset d

-- Some bind of the list has the property.
abbrev pub Some : (BindRule → Type 0) → List BindRule → Type 0
Some P [] = ⊥
Some P (b ∷ bs) = P b ⊎ Some P bs

-- What the message says is so. A pipe is missing only where the
-- kernel has fewer left than the task has streams.
abbrev pub Holds : Pipes → Task → Reason → Type 0
Holds p t stdin_too_long = path_max < length t.stdin.filename
Holds p t stdout_too_long = path_max < length t.stdout.filename
Holds p t stderr_too_long = path_max < length t.stderr.filename
Holds p t argv_too_many = argc_max < length t.argv
Holds p t argv_too_large = argv_max < total_size t.argv
Holds p t env_too_many = envc_max + 1 < length t.env
Holds p t env_too_large = env_max + 1024 < total_size t.env
Holds p t binds_too_many = binds_max < length t.binds
Holds p t inside_too_long = Some (λ b. path_max < length b.inside) t.binds
Holds p t outside_too_long = Some (λ b. path_max < length b.outside) t.binds
Holds p t no_pipe = length p.supply < 3
