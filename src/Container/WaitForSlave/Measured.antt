-- ===== src/Container/WaitForSlave/Measured.antt =====
-- What Container::wait_for_slave of src/container.cpp writes of the measurements.
use libsbox.Base.{
  ℕ, ◌+◌, ◌*◌, ◌/◌, ◌<◌, ◌≢◌, subst, ltb, eq_ℤ_iff, ◌≤◌, ◌≡◌, ◌⊎◌, inl, inr, refl, ◌∙◌, arith, ℤ,
  pos, minus_one, Bool, true, false, not, ltb_ℤ, eq_ℤ, ok, >>=-eq-ok, ok-injective, guard, guard-ok,
  or_fail, Bool-cases, if◌then◌else◌,
}
use libsbox.Container.TaskData.{TaskData}
use libsbox.Container.WaitForSlave.{
  SlaveStatus, exited, signaled, TimeVal, fill_results, Measures, time_usage_ms, wall_clock_ms,
  is_over, record_status, is_oom_killed, no_oom_kill, slave_error, measure,
}

-- Nanoseconds, a time, and bytes: the whole milliseconds or kilobytes of each, with what is cut off.
abbrev pub IsMsOf : ℕ → ℕ → Type 0
IsMsOf ns ms = (ms * 1_000_000 ≤ ns) × (ns < (ms + 1) * 1_000_000)

abbrev pub IsMsOfTime : TimeVal → ℕ → Type 0
IsMsOfTime t ms =
    (ms * 1000 ≤ t.sec * 1_000_000 + t.usec) × (t.sec * 1_000_000 + t.usec < (ms + 1) * 1000)

abbrev pub IsKbOf : ℕ → ℕ → Type 0
IsKbOf bytes kb = (kb * 1024 ≤ bytes) × (bytes < (kb + 1) * 1024)

-- A limit of -1 is never exceeded, and any other one by a larger usage.
abbrev pub Exceeds : ℤ → ℕ → Bool → Type 0
Exceeds limit usage b =
    ((b ≡ true) × (limit ≢ minus_one) × (ltb_ℤ limit (pos usage) ≡ true))
    ⊎ (b ≡ false) × ((limit ≡ minus_one) ⊎ (ltb_ℤ limit (pos usage) ≡ false))

abbrev pub Reports : ℤ → (ℕ → Type 0) → Type 0
Reports field P = (n : ℕ) × (field ≡ pos n) × P n

-- The times in milliseconds, the larger of the two memory usages in kilobytes, and the flags that say
-- whether these exceed the limits.
pub record Measured (d r : TaskData) (m : Measures) : Type 0 where
  pub time :
      Reports r.time_usage_ms
        (λ n. IsMsOf m.cpu_ns n × Exceeds d.time_limit_ms n r.time_limit_exceeded)
  pub time_sys : Reports r.time_usage_sys_ms (IsMsOf m.cpu_sys_ns)
  pub time_user : Reports r.time_usage_user_ms (IsMsOf m.cpu_user_ns)
  pub wall_time :
      Reports r.wall_time_usage_ms
        (λ n. IsMsOfTime m.clock n × Exceeds d.wall_time_limit_ms n r.wall_time_limit_exceeded)
  pub memory :
      (top : ℕ) × (m.max_usage ≤ top)
      × (m.cur_usage ≤ top)
      × ((top ≡ m.max_usage) ⊎ (top ≡ m.cur_usage))
      × Reports r.memory_usage_kb (IsKbOf top)
  pub no_error : m.error ≡ false

flag :
    (limit : ℤ) (usage : ℕ) (old : Bool)
    → old ≡ false
    → (if not (eq_ℤ limit minus_one) then ltb_ℤ limit (pos usage) else old) ≡ is_over limit usage
flag limit usage old h = ground arith

not-true : (b : Bool) → not b ≡ true → b ≡ false
not-true true h = cc
not-true false h = refl

ms-IsMsOf : (ns : ℕ) → IsMsOf ns (time_usage_ms ns)
ms-IsMsOf ns = (omega arith, omega arith)

clock-IsMsOfTime : (t : TimeVal) → IsMsOfTime t (wall_clock_ms t)
clock-IsMsOfTime t = (omega arith, omega arith)

kb-IsKbOf : (bytes : ℕ) → IsKbOf bytes (bytes / 1024)
kb-IsKbOf bytes = (omega arith, omega arith)

exceeds : (limit : ℤ) (usage : ℕ) (b : Bool) → b ≡ is_over limit usage → Exceeds limit usage b
exceeds limit usage b e = elim (Bool-cases (eq_ℤ limit minus_one)) [
  | inl unlimited ↦ inr (e ∙ rw unlimited refl, inl ((eq_ℤ_iff limit minus_one).0 unlimited))
  | inr limited ↦ elim (Bool-cases (ltb_ℤ limit (pos usage))) [
    | inl over ↦ inl (
      e ∙ rw (limited, over) refl,
      (λ same. let hit = (eq_ℤ_iff limit minus_one).1 same in cc),
      over,
    )
    | inr fits ↦ inr (e ∙ rw (limited, fits) refl, inr fits)
  ]
]

larger :
    (a b : ℕ)
    → (a ≤ (if ltb a b then b else a))
      × (b ≤ (if ltb a b then b else a))
      × (((if ltb a b then b else a) ≡ a) ⊎ ((if ltb a b then b else a) ≡ b))
larger a b = elim (Bool-cases (ltb a b)) [
  | inl less ↦ rw less (ground arith, omega arith, inr refl)
  | inr more ↦ rw more (omega arith, ground arith, inl refl)
]

-- What the end of a run leaves of the task: its verdict, and the flags as the code computes them.
pub record Left (e r : TaskData) (m : Measures) : Type 0 where
  pub measured : Measured e r m
  pub time_flag : r.time_limit_exceeded ≡ is_over e.time_limit_ms (time_usage_ms m.cpu_ns)
  pub wall_time_flag :
      r.wall_time_limit_exceeded ≡ is_over e.wall_time_limit_ms (wall_clock_ms m.clock)
  pub exited : r.exited ≡ e.exited
  pub exit_code : r.exit_code ≡ e.exit_code
  pub signaled : r.signaled ≡ e.signaled
  pub term_signal : r.term_signal ≡ e.term_signal

filled-Left :
    (e : TaskData) (m : Measures) (oom : Bool)
    → e.time_limit_exceeded ≡ false
    → e.wall_time_limit_exceeded ≡ false
    → m.error ≡ false
    → Left e (fill_results e m oom) m
filled-Left e m oom f g fine =
    let t = flag e.time_limit_ms (time_usage_ms m.cpu_ns) e.time_limit_exceeded f in
    let w = flag e.wall_time_limit_ms (wall_clock_ms m.clock) e.wall_time_limit_exceeded g in
    let (max_in, cur_in, one) = larger m.max_usage m.cur_usage in
    record {
      measured = record {
        time = (_, refl, (ms-IsMsOf m.cpu_ns, exceeds e.time_limit_ms _ _ t));
        time_sys = (_, refl, ms-IsMsOf m.cpu_sys_ns);
        time_user = (_, refl, ms-IsMsOf m.cpu_user_ns);
        wall_time = (_, refl, (clock-IsMsOfTime m.clock, exceeds e.wall_time_limit_ms _ _ w));
        memory = (_, max_in, cur_in, one, (_, refl, kb-IsKbOf _));
        no_error = fine;
      };
      time_flag = t;
      wall_time_flag = w;
      exited = refl;
      exit_code = refl;
      signaled = refl;
      term_signal = refl;
    }

pub measure-Left :
    (e r : TaskData) (m : Measures)
    → e.time_limit_exceeded ≡ false
    → e.wall_time_limit_exceeded ≡ false
    → measure e m ≡ ok r
    → Left e r m
unfolding measure
measure-Left e r m f g run =
    let (oom, found, run1) = >>=-eq-ok (or_fail (is_oom_killed m.oom_control) no_oom_kill) _ run in
    let (u, fine, run2) = >>=-eq-ok (guard (not m.error) slave_error) _ run1 in
    subst (λ k. Left e k m) (ok-injective run2)
      (filled-Left e m oom f g (not-true m.error (guard-ok (not m.error) slave_error fine)))

-- A measured task that differs only in how it ended.
pub Measured-ended :
    (d r : TaskData) (m : Measures) (s : SlaveStatus)
    → Measured (record_status d s) r m
    → Measured d r m
Measured-ended d r m (exited code) n = record {
  time = n.time;
  time_sys = n.time_sys;
  time_user = n.time_user;
  wall_time = n.wall_time;
  memory = n.memory;
  no_error = n.no_error;
}
Measured-ended d r m (signaled signal) n = record {
  time = n.time;
  time_sys = n.time_sys;
  time_user = n.time_user;
  wall_time = n.wall_time;
  memory = n.memory;
  no_error = n.no_error;
}
