-- ===== src/Tests/Tasks.antt =====
-- A task with a file, a pipe and a shared standard error, and a slave killed for its time.
use libsbox.Base.{
  ℕ, ◌+◌, ◌<◌, ◌≡◌, refl, arith, pos, minus_one, true, false, List, [], ◌∷◌, Option, some, none,
  codes, replicate, length-replicate, inl, inr, ok,
}
use libsbox.Memory.{size_mod}
use libsbox.Crash.{Runs}
use libsbox.PlainString
use libsbox.PlainString.Assign.{default-IsValid}
use libsbox.PlainVector
use libsbox.PlainVector.{PlainVector}
use libsbox.PlainVector.Laws as VectorLaws
use libsbox.PlainStringVector
use libsbox.PlainStringVector.{PlainStringVector, Packs}
use libsbox.Task.{Task, new_task}
use libsbox.Pipes.{Pipes}
use libsbox.Pipes.Laws.{Extends}
use libsbox.Container.TaskData.{
  TaskData, IoStream, IsValid, argc_max, argv_max, envc_max, env_max, binds_max, path_max,
}
use libsbox.Container.SetTask.{set_task}
use libsbox.Container.SetTask.Spec.{Holds, Written}
use libsbox.Container.SetTask.Whole.{set_task_lem}
use libsbox.Container.WaitForSlave.{
  Wake, interrupted, World, killed, reaped, no_child, Measures, wait_for_slave, is_oom_killed,
}
use libsbox.Container.WaitForSlave.Measured.{Measured}
use libsbox.Container.WaitForSlave.Verdict.{IsFresh, Verdict}
use libsbox.Container.WaitForSlave.Total.{wait_for_slave_total}

abbrev no_stream : IoStream
no_stream = record { fd = minus_one; filename = PlainString.default path_max }

-- An object as the constructor of PlainStringVector leaves it.
abbrev no_strings : ℕ → ℕ → PlainStringVector
no_strings mi mt = record {
  items = record { size = 1; slots = some none ∷ replicate mi none };
  text = PlainString.default (mt + mi);
}

no_strings-Packs :
    (mi mt : ℕ) → mt + mi + 1 < size_mod → mi + 1 < size_mod → Packs mi mt (no_strings mi mt) []
no_strings-Packs mi mt h k = record {
  pointers = record {
    storage = omega (arith, length-replicate {A = Option PlainStringVector.Pointer} mi none);
    small = k;
    counted = refl;
    within = omega arith;
    live = refl;
  };
  chars_valid = (default-IsValid (mt + mi) h).0;
  chars = (default-IsValid (mt + mi) h).1;
}

-- The shared memory of a new container, with a limit of 1000 ms and no verdict.
abbrev pub fresh : TaskData
fresh = record {
  time_limit_ms = pos 1000;
  wall_time_limit_ms = minus_one;
  memory_limit_kb = minus_one;
  fsize_limit_kb = minus_one;
  max_files = pos 16;
  max_threads = pos 1;
  need_ipc = false;
  use_standard_binds = true;
  stdin_desc = no_stream;
  stdout_desc = no_stream;
  stderr_desc = no_stream;
  argv = no_strings argc_max argv_max;
  env = no_strings (envc_max + 1) (env_max + 1024);
  binds = PlainVector.default binds_max;
  time_usage_ms = minus_one;
  time_usage_sys_ms = minus_one;
  time_usage_user_ms = minus_one;
  wall_time_usage_ms = minus_one;
  memory_usage_kb = minus_one;
  time_limit_exceeded = false;
  wall_time_limit_exceeded = false;
  exited = false;
  exit_code = minus_one;
  signaled = false;
  term_signal = minus_one;
  oom_killed = false;
  memory_limit_hit = false;
  error = true;
}

pub fresh-IsValid : IsValid fresh
fresh-IsValid = record {
  stdin_valid = (default-IsValid path_max (omega arith)).0;
  stdout_valid = (default-IsValid path_max (omega arith)).0;
  stderr_valid = (default-IsValid path_max (omega arith)).0;
  argv_old = [];
  argv_valid = no_strings-Packs argc_max argv_max (omega arith) (omega arith);
  env_old = [];
  env_valid = no_strings-Packs (envc_max + 1) (env_max + 1024) (omega arith) (omega arith);
  binds_old = [];
  binds_valid = VectorLaws.default-Holds binds_max (omega arith);
}

abbrev job : Task
job = record new_task {
  stdin = record { filename = codes "in.txt" };
  stdout = record { filename = codes "@link" };
  stderr = record { filename = codes "@_stdout" };
  argv = codes "cat" ∷ codes "-n" ∷ [];
  env = codes "A=1" ∷ [];
}

abbrev pipes : Pipes
pipes = record { table = []; shut = []; closes = λ fd. true; supply = (7, 8) ∷ [] }

set_task_lem_example :
    Runs
      (Holds pipes job)
      (λ r. Written job r.0 r.1 × IsValid r.0 × Extends pipes r.1)
      (set_task pipes fresh job)
set_task_lem_example = set_task_lem pipes fresh job fresh-IsValid

fresh-IsFresh : IsFresh fresh
fresh-IsFresh = record {
  not_exited = refl;
  exit_code = refl;
  not_signaled = refl;
  term_signal = refl;
  time_ok = refl;
  wall_time_ok = refl;
}

-- The timer interrupts after 0.5 s and after 1.2 s of CPU time.
abbrev pub wakes : List Wake
wakes =
    interrupted true 500_000_000 (record { sec = 0; usec = 600_000 })
    ∷ interrupted true 1_200_000_000 (record { sec = 1; usec = 300_000 })
    ∷ []

abbrev pub world : World
world = record { kill = killed; waits = reaped ∷ no_child ∷ [] }

abbrev pub measures : Measures
measures = record {
  cpu_ns = 1_201_000_000;
  cpu_sys_ns = 1_000_000;
  cpu_user_ns = 1_200_000_000;
  clock = record { sec = 1; usec = 310_000 };
  max_usage = 2048;
  cur_usage = 1024;
  oom_control = codes "oom_kill_disable" ∷ codes "0" ∷ codes "oom_kill" ∷ codes "0" ∷ [];
  failcnt = 0;
  error = false;
}

no_oom : is_oom_killed measures.oom_control ≡ some false
unfolding is_oom_killed
no_oom = refl

wait_for_slave_total_example :
    (r : TaskData) × (wait_for_slave fresh wakes world measures ≡ ok r)
    × Verdict r
    × Measured fresh r measures
wait_for_slave_total_example =
    wait_for_slave_total fresh wakes world measures false fresh-IsFresh
      (omega arith, omega arith, (omega arith, omega arith, tt)) (refl, inr (inr (refl, inl refl)))
      (λ e. cc) tt no_oom refl
