-- ===== src/Container/SetTask/Whole.antt =====
-- Container::set_task as a whole, and Container::put_results.
use libsbox.Base.{ℕ, ◌+◌, ◌<◌, ap, length, arith, inl, inr, refl, ℤ, List, [], ◌∷◌}
use libsbox.Crash.{Runs, returns, bind-Runs}
use libsbox.Task.{Task}
use libsbox.Pipes.{Pipes}
use libsbox.Pipes.Laws.{Extends, Extends-trans}
use libsbox.Container.TaskData.{TaskData, IoStream, IsValid, argc_max, argv_max, envc_max, env_max}
use libsbox.Container.SetTask.{
  Reason, stdin_too_long, stdout_too_long, stderr_too_long, argv_too_many, argv_too_large,
  env_too_many, env_too_large, no_pipe, reading_end, writing_end, open_stdin, open_stdout,
  open_stderr, set_task,
}
use libsbox.Container.SetTask.Spec.{Opens, OpensStderr, Connected, Written, Holds}
use libsbox.Container.SetTask.Streams.{
  set_stream_lem, open_stdin_lem, open_stdout_lem, open_stderr_lem,
}
use libsbox.Container.SetTask.Parts.{set_strings_lem, set_binds_lem}

-- More pipes leave a stream connected.
Connected-mono :
    (O : Pipes → List ℕ → ℤ → Type 0) (p q : Pipes) (name : List ℕ) (s : IoStream)
    → ((rest : List ℕ) (fd : ℤ) → O p rest fd → O q rest fd)
    → Connected O p name s
    → Connected O q name s
Connected-mono O p q [] s mono h = h
Connected-mono O p q (c ∷ rest) s mono (inl (at, opened, empty)) =
    inl (at, mono rest s.fd opened, empty)
Connected-mono O p q (c ∷ rest) s mono (inr h) = inr h

Opens-mono :
    (end : ℕ × ℕ → ℕ) (p q : Pipes)
    → Extends p q
    → (rest : List ℕ) (fd : ℤ) → Opens end p rest fd
    → Opens end q rest fd
Opens-mono end p q x rest fd (fds, f, e) = (fds, x.0 rest fds f, e)

OpensStderr-mono :
    (p q : Pipes)
    → Extends p q
    → (rest : List ℕ) (fd : ℤ) → OpensStderr p rest fd
    → OpensStderr q rest fd
OpensStderr-mono p q x rest fd (inl h) = inl h
OpensStderr-mono p q x rest fd (inr (named, opened)) =
    inr (named, Opens-mono writing_end p q x rest fd opened)

-- What was written stays true when the request has more pipes.
pub Written-mono :
    (t : Task) (d : TaskData) (p q : Pipes) → Extends p q → Written t d p → Written t d q
Written-mono t d p q x w = record {
  limits = w.limits;
  stdin =
      Connected-mono (Opens reading_end) p q t.stdin.filename d.stdin_desc
        (Opens-mono reading_end p q x) w.stdin;
  stdout =
      Connected-mono (Opens writing_end) p q t.stdout.filename d.stdout_desc
        (Opens-mono writing_end p q x) w.stdout;
  stderr =
      Connected-mono OpensStderr p q t.stderr.filename d.stderr_desc (OpensStderr-mono p q x)
        w.stderr;
  argv = w.argv;
  env = w.env;
  bind_list = w.bind_list;
  binds = w.binds;
  bound = w.bound;
  reset = w.reset;
}

-- set_task, on well-formed shared memory, either fills it with exactly what the task says (limits,
-- the three streams, argv, env, binds), with no result yet and the error flag up, keeping it well
-- formed and the pipes of earlier tasks, or dies with a message that is true, for want of a pipe
-- only where the kernel has fewer than three left; it never leaves the bounds of an array.
pub set_task_lem :
    (p : Pipes) (d : TaskData) (t : Task)
    → IsValid d
    → Runs (Holds p t) (λ r. Written t r.0 r.1 × IsValid r.0 × Extends p r.1) (set_task p d t)
unfolding set_task
set_task_lem p d t v =
    bind-Runs _ _
      (set_stream_lem E (Opens reading_end) stdin_too_long open_stdin p d.stdin_desc
        t.stdin.filename (λ n. open_stdin_lem E p n (λ e. few (omega (arith, ap length e))))
        (λ x. x) v.stdin_valid)
      λ (s0, p1) (c0, v0, x0, y0).
        bind-Runs _ _
          (set_stream_lem E (Opens writing_end) stdout_too_long open_stdout p1 d.stdout_desc
            t.stdout.filename
            (λ n. open_stdout_lem E p1 n (λ e. few (omega (arith, ap length e, y0)))) (λ x. x)
            v.stdout_valid)
          λ (s1, p2) (c1, v1, x1, y1).
            bind-Runs _ _
              (set_stream_lem E OpensStderr stderr_too_long open_stderr p2 d.stderr_desc
                t.stderr.filename
                (λ n. open_stderr_lem E p2 n (λ e. few (omega (arith, ap length e, y0, y1))))
                (λ x. x) v.stderr_valid)
              λ (s2, p3) (c2, v2, x2, y2).
                bind-Runs _ _
                  (set_strings_lem E argv_too_many argv_too_large argc_max argv_max d.argv
                    v.argv_old t.argv (λ x. x) (λ x. x) v.argv_valid)
                  λ argv packed.
                    bind-Runs _ _
                      (set_strings_lem E env_too_many env_too_large (envc_max + 1) (env_max + 1024)
                        d.env v.env_old t.env (λ x. x) (λ x. x) v.env_valid)
                      λ env packed'.
                        bind-Runs _ _
                          (set_binds_lem E d.binds v.binds_old t.binds (λ x. x) (λ x. x) (λ x. x)
                            v.binds_valid)
                          λ binds (ds, holds, bound). returns _ refl (
                            record {
                              limits = record {
                                time = refl;
                                wall_time = refl;
                                memory = refl;
                                fsize = refl;
                                files = refl;
                                threads = refl;
                                ipc = refl;
                                standard = refl;
                              };
                              stdin =
                                  Connected-mono (Opens reading_end) p1 p3 t.stdin.filename s0
                                    (Opens-mono reading_end p1 p3 (Extends-trans p1 p2 p3 x1 x2))
                                    c0;
                              stdout =
                                  Connected-mono (Opens writing_end) p2 p3 t.stdout.filename s1
                                    (Opens-mono writing_end p2 p3 x2) c1;
                              stderr = c2;
                              argv = packed;
                              env = packed';
                              bind_list = ds;
                              binds = holds;
                              bound = bound;
                              reset = record {
                                time = refl;
                                time_sys = refl;
                                time_user = refl;
                                wall_time = refl;
                                memory = refl;
                                time_exceeded = refl;
                                wall_time_exceeded = refl;
                                not_exited = refl;
                                exit_code = refl;
                                not_signaled = refl;
                                term_signal = refl;
                                not_oom_killed = refl;
                                not_limit_hit = refl;
                                error = refl;
                              };
                            },
                            record {
                              stdin_valid = v0;
                              stdout_valid = v1;
                              stderr_valid = v2;
                              argv_old = t.argv;
                              argv_valid = packed;
                              env_old = t.env;
                              env_valid = packed';
                              binds_old = ds;
                              binds_valid = holds;
                            },
                            Extends-trans p p1 p3 x0 (Extends-trans p1 p2 p3 x1 x2),
                          )
  where
    E : Reason → Type 0
    E = Holds p t

    few : length p.supply < 3 → E no_pipe
    few h = h
