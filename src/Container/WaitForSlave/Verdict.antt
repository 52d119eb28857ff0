-- ===== src/Container/WaitForSlave/Verdict.antt =====
-- The verdict of Container::wait_for_slave of src/container.cpp.
use libsbox.Base.{
  ℕ, ◌≤◌, ◌≡◌, ◌⊎◌, inl, inr, sym, ◌∙◌, arith, ℤ, pos, negsuc, minus_one, true, false, List, [],
  ◌∷◌, ok, >>=-eq-ok, ok-injective, Bool-cases,
}
use libsbox.Container.TaskData.{TaskData}
use libsbox.Container.WaitForSlave.{
  SlaveStatus, exited, signaled, Wake, slave_ended, interrupted, World, Measures, time_usage_ms,
  wall_clock_ms, is_over, record_status, kill_all, wait_loop, measure, wait_for_slave,
}
use libsbox.Container.WaitForSlave.Measured.{Measured, Left, measure-Left, Measured-ended}

-- Both clocks show no less at the end than at any interrupt.
abbrev pub IsMonotone : List Wake → Measures → Type 0
IsMonotone [] m = Unit
IsMonotone (slave_ended s ∷ rest) m = IsMonotone rest m
IsMonotone (interrupted timer cpu_ns clock ∷ rest) m =
    (time_usage_ms cpu_ns ≤ time_usage_ms m.cpu_ns)
    × (wall_clock_ms clock ≤ wall_clock_ms m.clock)
    × IsMonotone rest m

-- How the loop ended: with the slave's status, or because a limit was exceeded at an interrupt.
abbrev pub Ended : TaskData → Measures → TaskData → Type 0
Ended d m e =
    ((s : SlaveStatus) × (e ≡ record_status d s))
    ⊎ (e ≡ d)
      × ((is_over d.time_limit_ms (time_usage_ms m.cpu_ns) ≡ true)
          ⊎ (is_over d.wall_time_limit_ms (wall_clock_ms m.clock) ≡ true))

is_over_mono : (limit : ℤ) (a b : ℕ) → a ≤ b → is_over limit a ≡ true → is_over limit b ≡ true
is_over_mono (pos n) a b h o = ground arith
is_over_mono (negsuc n) a b h o = ground arith

wait_loop-Ended :
    (w : World) (d e : TaskData) (wakes : List Wake) (m : Measures)
    → IsMonotone wakes m
    → wait_loop w d wakes ≡ ok e
    → Ended d m e
unfolding wait_loop
wait_loop-Ended w d e [] m mono r = cc
wait_loop-Ended w d e (slave_ended s ∷ rest) m mono r =
    let (u, killed, same) = >>=-eq-ok (kill_all w) _ r in inl (s, sym (ok-injective same))
wait_loop-Ended w d e (interrupted timer cpu_ns clock ∷ rest) m mono r = elim (Bool-cases timer) [
  | inr t ↦ let r' = rw t at r in cc
  | inl t ↦ elim (Bool-cases (is_over d.time_limit_ms (time_usage_ms cpu_ns))) [
    | inl o ↦
        let (u, killed, same) = >>=-eq-ok (kill_all w) _ (rw (t, o) at r) in
        inr (sym (ok-injective same), inl (is_over_mono d.time_limit_ms _ _ mono.0 o))
    | inr o ↦ elim (Bool-cases (is_over d.wall_time_limit_ms (wall_clock_ms clock))) [
      | inl o' ↦
          let (u, killed, same) = >>=-eq-ok (kill_all w) _ (rw (t, o, o') at r) in
          inr (sym (ok-injective same), inr (is_over_mono d.wall_time_limit_ms _ _ mono.1 o'))
      | inr o' ↦ wait_loop-Ended w d e rest m mono.2 (rw (t, o, o') at r)
    ]
  ]
]

-- A task as set_task leaves it: no verdict yet.
pub record IsFresh (d : TaskData) : Type 0 where
  pub not_exited : d.exited ≡ false
  pub exit_code : d.exit_code ≡ minus_one
  pub not_signaled : d.signaled ≡ false
  pub term_signal : d.term_signal ≡ minus_one
  pub time_ok : d.time_limit_exceeded ≡ false
  pub wall_time_ok : d.wall_time_limit_exceeded ≡ false

-- The verdict that the client reads: how the slave ended, unless it was killed for a limit, and then
-- that limit's flag is up.
abbrev pub Verdict : TaskData → Type 0
Verdict r =
    ((code : ℕ) × (r.exited ≡ true)
      × (r.exit_code ≡ pos code)
      × (r.signaled ≡ false)
      × (r.term_signal ≡ minus_one))
    ⊎ ((signal : ℕ) × (r.signaled ≡ true)
        × (r.term_signal ≡ pos signal)
        × (r.exited ≡ false)
        × (r.exit_code ≡ minus_one))
    ⊎ (r.exited ≡ false)
      × (r.signaled ≡ false)
      × ((r.time_limit_exceeded ≡ true) ⊎ (r.wall_time_limit_exceeded ≡ true))

measure_ended :
    (d r : TaskData) (m : Measures) (s : SlaveStatus)
    → IsFresh d
    → measure (record_status d s) m ≡ ok r
    → Verdict r × Measured d r m
measure_ended d r m (exited code) fresh h =
    let l = measure-Left (record_status d (exited code)) r m fresh.time_ok fresh.wall_time_ok h in
    (
      inl (
        code,
        l.exited,
        l.exit_code,
        l.signaled ∙ fresh.not_signaled,
        l.term_signal ∙ fresh.term_signal,
      ),
      Measured-ended d r m (exited code) l.measured,
    )
measure_ended d r m (signaled signal) fresh h =
    let l =
      measure-Left (record_status d (signaled signal)) r m fresh.time_ok fresh.wall_time_ok h in
    (
      inr (
          inl (
            signal,
            l.signaled,
            l.term_signal,
            l.exited ∙ fresh.not_exited,
            l.exit_code ∙ fresh.exit_code,
          )),
      Measured-ended d r m (signaled signal) l.measured,
    )

-- wait_for_slave, if it returns, leaves exactly one verdict: the exit code, the signal, or the flag
-- of a limit for which the slave was killed. The two flags say whether the measured usage exceeds
-- the limit, a limit of -1 never, and no error was left by the slave.
pub wait_for_slave-Verdict :
    (d r : TaskData) (wakes : List Wake) (w : World) (m : Measures)
    → IsFresh d
    → IsMonotone wakes m
    → wait_for_slave d wakes w m ≡ ok r
    → Verdict r × Measured d r m
unfolding wait_for_slave
wait_for_slave-Verdict d r wakes w m fresh mono run =
    let (e, looped, measured) = >>=-eq-ok (wait_loop w d wakes) _ run in
    elim (wait_loop-Ended w d e wakes m mono looped) [
      | inl (s, same) ↦ measure_ended d r m s fresh (rw same at measured)
      | inr (same, over) ↦
          let l = measure-Left d r m fresh.time_ok fresh.wall_time_ok (rw same at measured) in
          (
            inr (inr (l.exited ∙ fresh.not_exited, l.signaled ∙ fresh.not_signaled, flags l over)),
            l.measured,
          )
    ]
  where
    flags :
        Left d r m
        → (is_over d.time_limit_ms (time_usage_ms m.cpu_ns) ≡ true)
          ⊎ (is_over d.wall_time_limit_ms (wall_clock_ms m.clock) ≡ true)
        → (r.time_limit_exceeded ≡ true) ⊎ (r.wall_time_limit_exceeded ≡ true)
    flags l (inl o) = inl (l.time_flag ∙ o)
    flags l (inr o) = inr (l.wall_time_flag ∙ o)
