-- ===== src/Container/WaitForSlave/Fits.antt =====
-- The numbers that wait_for_slave and put_results of src/container.cpp give a task are in the range of
-- their types, so that the response can hold them.
use libsbox.Base.{
  ◌<◌, ◌≡◌, sym, subst, arith, minus_one, not, Bool, List, [], ◌∷◌, ok, >>=-eq-ok, ok-injective,
  guard, or_fail, Bool-cases, inl, inr, ◌^◌,
}
use libsbox.Task
use libsbox.Task.{Task}
use libsbox.Task.Json.{FitsInt}
use libsbox.Task.Json.RoundTrip.{ResponseFits}
use libsbox.Container.TaskData.{TaskData}
use libsbox.Container.SetTask.{put_results}
use libsbox.Container.WaitForSlave.{
  SlaveStatus, exited, signaled, Wake, slave_ended, interrupted, World, Measures, time_usage_ms,
  wall_clock_ms, memory_usage_kb, is_over, record_status, fill_results, kill_all, is_oom_killed,
  no_oom_kill, slave_error, wait_loop, measure, wait_for_slave,
}

-- An exit status has 8 bits, and there are fewer than 128 signals; int has the more.
abbrev pub StatusFits : SlaveStatus → Type 0
StatusFits (exited code) = code < 2 ^ 31
StatusFits (signaled signal) = signal < 2 ^ 31

abbrev pub AllFit : List Wake → Type 0
AllFit [] = Unit
AllFit (slave_ended status ∷ rest) = StatusFits status × AllFit rest
AllFit (interrupted timer cpu_ns clock ∷ rest) = AllFit rest

pub record MeasuresFit (m : Measures) : Type 0 where
  pub cpu : time_usage_ms m.cpu_ns < 2 ^ 63
  pub cpu_sys : time_usage_ms m.cpu_sys_ns < 2 ^ 63
  pub cpu_user : time_usage_ms m.cpu_user_ns < 2 ^ 63
  pub clock : wall_clock_ms m.clock < 2 ^ 63
  pub memory : memory_usage_kb m.max_usage m.cur_usage < 2 ^ 63

abbrev CodesFit : TaskData → Type 0
CodesFit d = FitsInt d.exit_code × FitsInt d.term_signal

recorded_fit :
    (d : TaskData) (s : SlaveStatus) → CodesFit d → StatusFits s → CodesFit (record_status d s)
recorded_fit d (exited code) (e, t) small = ((small, omega arith), t)
recorded_fit d (signaled signal) (e, t) small = (e, (small, omega arith))

wait_loop_fit :
    (w : World) (d e : TaskData) (wakes : List Wake)
    → CodesFit d
    → AllFit wakes
    → wait_loop w d wakes ≡ ok e
    → CodesFit e
unfolding wait_loop
wait_loop_fit w d e [] codes fit r = cc
wait_loop_fit w d e (slave_ended s ∷ rest) codes fit r =
    let (u, killed, same) = >>=-eq-ok (kill_all w) _ r in
    subst CodesFit (ok-injective same) (recorded_fit d s codes fit.0)
wait_loop_fit w d e (interrupted timer cpu_ns clock ∷ rest) codes fit r = elim (Bool-cases timer) [
  | inr t ↦ let r' = rw t at r in cc
  | inl t ↦ elim (Bool-cases (is_over d.time_limit_ms (time_usage_ms cpu_ns))) [
    | inl o ↦
        let (u, killed, same) = >>=-eq-ok (kill_all w) _ (rw (t, o) at r) in
        subst CodesFit (ok-injective same) codes
    | inr o ↦ elim (Bool-cases (is_over d.wall_time_limit_ms (wall_clock_ms clock))) [
      | inl o' ↦
          let (u, killed, same) = >>=-eq-ok (kill_all w) _ (rw (t, o, o') at r) in
          subst CodesFit (ok-injective same) codes
      | inr o' ↦ wait_loop_fit w d e rest codes fit (rw (t, o, o') at r)
    ]
  ]
]

measure-filled :
    (d r : TaskData) (m : Measures) → measure d m ≡ ok r → (oom : Bool) × (fill_results d m oom ≡ r)
unfolding measure
measure-filled d r m run =
    let (oom, found, rest) = >>=-eq-ok (or_fail (is_oom_killed m.oom_control) no_oom_kill) _ run in
    let (u, checked, last) = >>=-eq-ok (guard (not m.error) slave_error) _ rest in
    (oom, ok-injective last)

put_fits :
    (e : TaskData) (m : Measures) (oom : Bool) (t : Task)
    → MeasuresFit m
    → CodesFit e
    → ResponseFits (put_results (fill_results e m oom) t)
unfolding put_results Task.set_time_usage_ms Task.set_time_usage_sys_ms Task.set_time_usage_user_ms
    Task.set_wall_time_usage_ms Task.set_memory_usage_kb Task.set_time_limit_exceeded
    Task.set_wall_time_limit_exceeded Task.set_exited Task.set_exit_code Task.set_signaled
    Task.set_term_signal Task.set_oom_killed Task.set_memory_limit_hit
put_fits e m oom t small codes = record {
  time_usage_ms = (small.cpu, omega arith);
  time_usage_sys_ms = (small.cpu_sys, omega arith);
  time_usage_user_ms = (small.cpu_user, omega arith);
  wall_time_usage_ms = (small.clock, omega arith);
  memory_usage_kb = (small.memory, omega arith);
  exit_code = codes.0;
  term_signal = codes.1;
}

-- From a task without a verdict, the results that the client gets fit their types in the response.
pub put_results-ResponseFits :
    (d r : TaskData) (t : Task) (wakes : List Wake) (w : World) (m : Measures)
    → d.exit_code ≡ minus_one
    → d.term_signal ≡ minus_one
    → AllFit wakes
    → MeasuresFit m
    → wait_for_slave d wakes w m ≡ ok r
    → ResponseFits (put_results r t)
unfolding wait_for_slave
put_results-ResponseFits d r t wakes w m no_code no_signal fit small run =
    let (e, looped, measured) = >>=-eq-ok (wait_loop w d wakes) _ run in
    let codes : CodesFit e =
      wait_loop_fit w d e wakes
        (
          subst FitsInt (sym no_code) (omega arith, omega arith),
          subst FitsInt (sym no_signal) (omega arith, omega arith),
        )
        fit looped in
    let (oom, same) = measure-filled e r m measured in
    subst (λ k. ResponseFits (put_results k t)) same (put_fits e m oom t small codes)
