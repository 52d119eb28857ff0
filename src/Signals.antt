-- ===== src/Signals.antt =====
-- src/signals.cpp: the dispositions that each process sets, and the real-time timer.
-- sigaction(2) and setitimer(2) are the parameter `Kernel`. The five SignalAction objects are shared
-- and mutable: `restarting` holds the flag SA_RESTART of each. Signals have their numbers on Linux.
pub mod Actions
pub mod Interval
use libsbox.Base.{
  ℕ, ◌*◌, ◌%◌, ◌^◌, ◌≡◌, Bool, true, false, not, ◌||◌, ◌&&◌, List, [], ◌∷◌, Option, none, some,
  if◌then◌else◌, ◌==◌, ltb, Result, ok, err, ◌>>=◌, or_fail,
}

-- The objects of class SignalAction.
pub data SignalAction : Type 0 where
  ignore default abort terminate timer : SignalAction

abbrev pub same : SignalAction → SignalAction → Bool
same ignore ignore = true
same default default = true
same abort abort = true
same terminate terminate = true
same timer timer = true
same _ _ = false

-- SIG_IGN, SIG_DFL and the three handlers, one for each object, or another function.
pub data Handler : Type 0 where
  standard : SignalAction → Handler
  callback : ℕ → Handler

-- struct sigaction: the handler, SA_RESTART and SA_SIGINFO
pub record Action : Type 0 where
  pub handler : Handler
  pub restart : Bool
  pub siginfo : Bool

-- struct itimerval, whose seconds the code leaves 0
pub record Timer : Type 0 where
  pub interval_usec : ℕ
  pub value_usec : ℕ

pub record Kernel : Type 1 where
  pub State : Type 0
  pub action : State → ℕ → Action
  pub timer : State → Timer
  pub sigaction : State → ℕ → Action → Option State
  pub setitimer : State → Timer → Option State

abbrev pub sigchld : ℕ
sigchld = 17

abbrev pub sigterm : ℕ
sigterm = 15

abbrev pub sigalrm : ℕ
sigalrm = 14

-- The initializer of signal_actions; SIGABRT and SIGIOT are one number.
abbrev pub initializer : List (ℕ × SignalAction)
initializer =
    (10, ignore)
    ∷ (12, ignore)
    ∷ (13, ignore)
    ∷ (1, abort)
    ∷ (3, abort)
    ∷ (4, abort)
    ∷ (6, abort)
    ∷ (6, abort)
    ∷ (7, abort)
    ∷ (8, abort)
    ∷ (2, abort)
    ∷ (sigterm, terminate)
    ∷ (sigalrm, timer)
    ∷ (sigchld, default)
    ∷ []

-- std::map: sorted by key, where an insertion does not replace an entry.
abbrev pub insert : ℕ → SignalAction → List (ℕ × SignalAction) → List (ℕ × SignalAction)
insert n a [] = (n, a) ∷ []
insert n a ((k, b) ∷ rest) =
    let later = insert n a rest in
    if ltb n k then (n, a) ∷ (k, b) ∷ rest else if n == k then (k, b) ∷ rest else (k, b) ∷ later

abbrev pub to_map : List (ℕ × SignalAction) → List (ℕ × SignalAction) → List (ℕ × SignalAction)
to_map m [] = m
to_map m ((n, a) ∷ rest) = to_map (insert n a m) rest

abbrev pub signal_actions : List (ℕ × SignalAction)
signal_actions = to_map [] initializer

abbrev pub at : List (ℕ × SignalAction) → ℕ → Option SignalAction
at [] n = none
at ((k, a) ∷ rest) n = let later = at rest n in if n == k then some a else later

pub data Reason : Type 0 where
  cannot_set : ℕ → Reason
  invalid_signum : ℕ → Reason

module _ (K : Kernel) where
  pub record Signals : Type 0 where
    pub kernel : K.State
    pub restarting : SignalAction → Bool

  abbrev pub set_restart : SignalAction → Bool → (SignalAction → Bool) → SignalAction → Bool
  set_restart a b flags q = if same a q then b else flags q

  unfoldable pub apply_to : SignalAction → ℕ → Bool → Signals → Result Reason Signals
  apply_to a signum restart s = do
    let flags = if restart then set_restart a true s.restarting else s.restarting
    t ←
        or_fail
          (K.sigaction s.kernel signum
            (record { handler = standard a; restart = flags a; siginfo = false }))
          (cannot_set signum)
    ok (record { kernel = t; restarting = if restart then set_restart a false flags else flags })

  -- The loops of prepare_signals and reset_signals, over the entries left.
  unfoldable pub apply_loop :
      (SignalAction → SignalAction) → List (ℕ × SignalAction) → Signals → Result Reason Signals
  unfolding apply_to
  apply_loop choose [] s = ok s
  apply_loop choose ((n, a) ∷ rest) s = do
    t ← apply_to (choose a) n false s
    apply_loop choose rest t

  unfoldable pub prepare_signals : Signals → Result Reason Signals
  prepare_signals s = apply_loop (λ a. a) signal_actions s

  unfoldable pub reset_signals : Signals → Result Reason Signals
  reset_signals s = apply_loop (λ a. default) signal_actions s

  -- The catch of out_of_range is the second clause.
  abbrev pub apply_found : Option SignalAction → ℕ → Bool → Signals → Result Reason Signals
  apply_found (some a) signum restart s = apply_to a signum restart s
  apply_found none signum restart s = err (invalid_signum signum)

  unfoldable pub set_standard_handler_restart : ℕ → Bool → Signals → Result Reason Signals
  set_standard_handler_restart signum restart s =
      apply_found (at signal_actions signum) signum restart s

  -- set_sigchld_action, with the number of the function
  unfoldable pub set_sigchld_action : ℕ → Signals → Result Reason Signals
  set_sigchld_action f s = do
    t ←
        or_fail
          (K.sigaction s.kernel sigchld
            (record { handler = callback f; restart = true; siginfo = true }))
          (cannot_set sigchld)
    ok (record s { kernel = t })

  -- signal(3) is sigaction with SA_RESTART.
  unfoldable pub reset_sigchld : Signals → Result Reason Signals
  reset_sigchld s = do
    t ←
        or_fail
          (K.sigaction s.kernel sigchld
            (record { handler = standard default; restart = true; siginfo = false }))
          (cannot_set sigchld)
    ok (record s { kernel = t })

  unfoldable pub enable_timer_interrupts : Signals → Result Reason Signals
  enable_timer_interrupts s = apply_found (at signal_actions sigalrm) sigalrm false s

  -- A call of setitimer whose result is not looked at.
  abbrev pub after_call : K.State → Option K.State → K.State
  after_call s none = s
  after_call s (some u) = u

  abbrev pub set_timer : K.State → Timer → K.State
  set_timer s t = after_call s (K.setitimer s t)

  -- interval * 1000 in 32 unsigned bits
  unfoldable pub start_timer : ℕ → K.State → K.State
  start_timer interval s =
      let usec = interval * 1000 % 2 ^ 32 in
      set_timer s (record { interval_usec = usec; value_usec = usec })

  unfoldable pub stop_timer : K.State → K.State
  stop_timer s = set_timer s (record { interval_usec = 0; value_usec = 0 })

-- A signal's number, and neither SIGKILL nor SIGSTOP.
abbrev pub is_settable : ℕ → Bool
is_settable n = not (n == 0 || n == 9 || n == 19) && ltb n 65

pub record IsLawful (K : Kernel) : Type 0 where
  -- sigaction(2) refuses a number that is no signal, SIGKILL and SIGSTOP, and nothing else.
  pub sigaction-action :
      (s : K.State) (n : ℕ) (a : Action)
      → is_settable n ≡ true
      → (t : K.State) × (K.sigaction s n a ≡ some t)
        × ((q : ℕ) → K.action t q ≡ (if q == n then a else K.action s q))
        × (K.timer t ≡ K.timer s)
  -- setitimer(2) refuses microseconds that are not below a second, and changes no action.
  pub setitimer-timer :
      (s : K.State) (t : Timer)
      → ltb t.interval_usec 1_000_000 ≡ true
      → ltb t.value_usec 1_000_000 ≡ true
      → (u : K.State) × (K.setitimer s t ≡ some u)
        × (K.timer u ≡ t)
        × ((q : ℕ) → K.action u q ≡ K.action s q)
  pub setitimer-refused :
      (s : K.State) (t : Timer) → ltb t.value_usec 1_000_000 ≡ false → K.setitimer s t ≡ none
