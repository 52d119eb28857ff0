-- ===== src/Signals/Interval.antt =====
-- The timer that start_timer and stop_timer of src/signals.cpp leave.
use libsbox.Base.{ℕ, ◌*◌, ◌%◌, ◌^◌, ◌<◌, ◌≤◌, ◌≡◌, ◌⊎◌, inl, inr, refl, arith, lt→ltb, ltb-false}
use native.Mathlib.Decide.{dec_lt}
use libsbox.Signals.{Kernel, IsLawful, Timer, start_timer}

abbrev pub every : ℕ → Timer
every usec = record { interval_usec = usec; value_usec = usec }

-- For an interval below 4294968 ms: start_timer sets the timer to that interval if it is below
-- 1000 ms, and changes nothing at all otherwise.
pub start_timer_lem :
    (K : Kernel) (lawful : IsLawful K) (s : K.State) (interval : ℕ)
    → interval < 4_294_968
    → ((interval < 1000) × (K.timer (start_timer K interval s) ≡ every (interval * 1000)))
      ⊎ (1000 ≤ interval) × (start_timer K interval s ≡ s)
unfolding start_timer
start_timer_lem K lawful s interval small =
    let usec : interval * 1000 % 2 ^ 32 ≡ interval * 1000 = omega arith in
    elim (dec_lt interval 1000) [
      | yes short ↦
          let fits = lt→ltb (interval * 1000) 1_000_000 (omega arith) in
          let (u, ran, timed, same) =
            lawful.setitimer-timer s (every (interval * 1000)) fits fits in
          inl (short, rw (usec, ran) timed)
      | no long ↦
          let refused =
            lawful.setitimer-refused s (every (interval * 1000))
              (ltb-false (interval * 1000) 1_000_000 (omega arith)) in
          inr (omega arith, rw (usec, refused) refl)
    ]
