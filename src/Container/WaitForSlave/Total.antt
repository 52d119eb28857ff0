-- ===== src/Container/WaitForSlave/Total.antt =====
-- Container::wait_for_slave of src/container.cpp returns.
use libsbox.Base.{
  ◌≡◌, ◌≢◌, ◌⊎◌, inl, inr, refl, Bool, true, false, List, [], ◌∷◌, some, ok, err, Bool-cases,
}
use libsbox.Container.TaskData.{TaskData}
use libsbox.Container.WaitForSlave.{
  Wake, slave_ended, interrupted, World, KillResult, killed, no_process, refused, WaitResult,
  reaped, no_child, failed, Measures, time_usage_ms, wall_clock_ms, is_over, is_oom_killed, reap,
  record_status, fill_results, kill_failed, kill_all, wait_loop, measure, wait_for_slave,
}
use libsbox.Container.WaitForSlave.Measured.{Measured}
use libsbox.Container.WaitForSlave.Verdict.{IsFresh, IsMonotone, Verdict, wait_for_slave-Verdict}

-- The slave ends, or a limit is exceeded at an interrupt, and every interrupt before is the timer's.
abbrev pub Stops : TaskData → List Wake → Type 0
Stops d [] = ⊥
Stops d (slave_ended status ∷ rest) = Unit
Stops d (interrupted timer cpu_ns clock ∷ rest) =
    (timer ≡ true)
    × ((is_over d.time_limit_ms (time_usage_ms cpu_ns) ≡ true)
        ⊎ (is_over d.wall_time_limit_ms (wall_clock_ms clock) ≡ true)
        ⊎ Stops d rest)

-- wait(2) reports some children and then that there is none left.
abbrev pub Reaps : List WaitResult → Type 0
Reaps [] = ⊥
Reaps (reaped ∷ rest) = Reaps rest
Reaps (no_child ∷ rest) = Unit
Reaps (failed ∷ rest) = ⊥

reap_ok : (l : List WaitResult) → Reaps l → reap l ≡ ok tt
unfolding reap
reap_ok [] h = elim h [ ]
reap_ok (reaped ∷ rest) h = reap_ok rest h
reap_ok (no_child ∷ rest) h = refl
reap_ok (failed ∷ rest) h = elim h [ ]

kill_all_ok : (w : World) → w.kill ≢ refused → Reaps w.waits → kill_all w ≡ ok tt
unfolding kill_all
kill_all_ok w h reaps = by_kill w.kill h
  where
    by_kill :
        (k : KillResult)
        → k ≢ refused
        → elim k [ killed ↦ reap w.waits | no_process ↦ reap w.waits | refused ↦ err kill_failed ]
          ≡ ok tt
    by_kill killed h = reap_ok w.waits reaps
    by_kill no_process h = reap_ok w.waits reaps
    by_kill refused h = absurd (h refl)

wait_loop_returns :
    (w : World) (d : TaskData) (wakes : List Wake)
    → Stops d wakes
    → kill_all w ≡ ok tt
    → (e : TaskData) × (wait_loop w d wakes ≡ ok e)
unfolding wait_loop
wait_loop_returns w d [] h k = elim h [ ]
wait_loop_returns w d (slave_ended status ∷ rest) h k = (record_status d status, rw k refl)
wait_loop_returns w d (interrupted timer cpu_ns clock ∷ rest) h k =
    elim (Bool-cases (is_over d.time_limit_ms (time_usage_ms cpu_ns))) [
      | inl o ↦ (d, rw (h.0, o, k) refl)
      | inr o ↦ elim (Bool-cases (is_over d.wall_time_limit_ms (wall_clock_ms clock))) [
        | inl o' ↦ (d, rw (h.0, o, o', k) refl)
        | inr o' ↦
            let (e, r) = wait_loop_returns w d rest (later o o' h.1) k in (e, rw (h.0, o, o') r)
      ]
    ]
  where
    later :
        is_over d.time_limit_ms (time_usage_ms cpu_ns) ≡ false
        → is_over d.wall_time_limit_ms (wall_clock_ms clock) ≡ false
        → (is_over d.time_limit_ms (time_usage_ms cpu_ns) ≡ true)
          ⊎ (is_over d.wall_time_limit_ms (wall_clock_ms clock) ≡ true)
          ⊎ Stops d rest
        → Stops d rest
    later o o' (inl x) = cc
    later o o' (inr (inl x)) = cc
    later o o' (inr (inr s)) = s

measure_returns :
    (e : TaskData) (m : Measures) (oom : Bool)
    → is_oom_killed m.oom_control ≡ some oom
    → m.error ≡ false
    → (r : TaskData) × (measure e m ≡ ok r)
unfolding measure
measure_returns e m oom found fine = (fill_results e m oom, rw (found, fine) refl)

returns_from :
    (d e r : TaskData) (wakes : List Wake) (w : World) (m : Measures)
    → wait_loop w d wakes ≡ ok e
    → measure e m ≡ ok r
    → wait_for_slave d wakes w m ≡ ok r
unfolding wait_for_slave
returns_from d e r wakes w m looped run = rw looped run

-- For a task as set_task leaves it, and a run in which neither the clock nor the CPU time of the
-- cgroup is set back: if the slave ends or a limit is exceeded at an interrupt, the box is emptied, oom_kill is
-- reported and the slave left no error, wait_for_slave returns with exactly one verdict (exit
-- code, signal, or the flag of the limit for which the slave was killed), the three times in whole
-- milliseconds, the larger of the two memory usages in whole kilobytes, and flags that say whether
-- the times exceed the limits.
pub wait_for_slave_total :
    (d : TaskData) (wakes : List Wake) (w : World) (m : Measures) (oom : Bool)
    → IsFresh d
    → IsMonotone wakes m
    → Stops d wakes
    → w.kill ≢ refused
    → Reaps w.waits
    → is_oom_killed m.oom_control ≡ some oom
    → m.error ≡ false
    → (r : TaskData) × (wait_for_slave d wakes w m ≡ ok r) × Verdict r × Measured d r m
wait_for_slave_total d wakes w m oom fresh mono stops may reaps found fine =
    let (r, run) = result in
    let (verdict, measured) = wait_for_slave-Verdict d r wakes w m fresh mono run in
    (r, run, verdict, measured)
  where
    result : (r : TaskData) × (wait_for_slave d wakes w m ≡ ok r)
    result =
        let (e, looped) = wait_loop_returns w d wakes stops (kill_all_ok w may reaps) in
        let (r, run) = measure_returns e m oom found fine in
        (r, returns_from d e r wakes w m looped run)
