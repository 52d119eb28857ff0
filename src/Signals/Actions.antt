-- ===== src/Signals/Actions.antt =====
-- The dispositions after the functions of src/signals.cpp.
use libsbox.Base.{
  ℕ, ◌≡◌, ◌⊎◌, inl, inr, refl, sym, ap, ◌∙◌, Bool, true, false, Bool-cases, Option-cases, List, [],
  ◌∷◌, Option, none, some, if◌then◌else◌, ◌==◌, ==_iff, ok, err,
}
use libsbox.Signals.{
  Kernel, IsLawful, is_settable, Action, standard, SignalAction, ignore, default, abort, terminate,
  timer, Signals, invalid_signum, at, signal_actions, set_restart, apply_to, apply_loop,
  prepare_signals, reset_signals, set_standard_handler_restart, same,
}

same_refl : (a : SignalAction) → same a a ≡ true
same_refl ignore = refl
same_refl default = refl
same_refl abort = refl
same_refl terminate = refl
same_refl timer = refl

abbrev pub acting : SignalAction → Bool → Action
acting a restart = record { handler = standard a; restart = restart; siginfo = false }

-- The action that is chosen, or the one from before.
abbrev pub chosen : Action → Option SignalAction → Bool → Action
chosen old none restart = old
chosen old (some a) restart = acting a restart

if_chosen :
    (b : Bool) (old : Action) (a : SignalAction) (restart : Bool)
    → (if b then acting a restart else old) ≡ chosen old (if b then some a else none) restart
if_chosen true old a restart = refl
if_chosen false old a restart = refl

-- A later choice prevails, and there is none for the number of an earlier one.
chosen-chosen :
    (b : Bool) (old mid : Action) (a : SignalAction) (later : Option SignalAction)
    → mid ≡ chosen old (if b then some a else none) false
    → (b ≡ true → later ≡ none)
    → chosen mid later false ≡ chosen old (if b then some a else later) false
chosen-chosen true old mid a later e free = rw (free refl) e
chosen-chosen false old mid a later e free = rw e refl

-- Each number stands once.
abbrev pub EachOnce : List (ℕ × SignalAction) → Type 0
EachOnce [] = Unit
EachOnce ((n, a) ∷ rest) = (at rest n ≡ none) × EachOnce rest

abbrev pub EachSettable : List (ℕ × SignalAction) → Type 0
EachSettable [] = Unit
EachSettable ((n, a) ∷ rest) = (is_settable n ≡ true) × EachSettable rest

abbrev pub map_action : (SignalAction → SignalAction) → Option SignalAction → Option SignalAction
map_action f none = none
map_action f (some a) = some (f a)

map_action-if :
    (f : SignalAction → SignalAction) (b : Bool) (a : SignalAction) (later : Option SignalAction)
    → map_action f (if b then some a else later) ≡ (if b then some (f a) else map_action f later)
map_action-if f true a later = refl
map_action-if f false a later = refl

once : EachOnce signal_actions
once = (
  refl,
  (
    refl,
    (refl, (refl, (refl, (refl, (refl, (refl, (refl, (refl, (refl, (refl, (refl, tt))))))))))),
  ),
)

settable : EachSettable signal_actions
settable = (
  refl,
  (
    refl,
    (refl, (refl, (refl, (refl, (refl, (refl, (refl, (refl, (refl, (refl, (refl, tt))))))))))),
  ),
)

entry-settable :
    (n : ℕ) (a : SignalAction) (entries : List (ℕ × SignalAction))
    → EachSettable entries
    → at entries n ≡ some a
    → is_settable n ≡ true
entry-settable n a [] each e = cc
entry-settable n a ((k, b) ∷ rest) each e = elim (Bool-cases (n == k)) [
  | inl same ↦ ap is_settable ((==_iff n k).0 same) ∙ each.0
  | inr differ ↦ entry-settable n a rest each.1 (rw differ at e)
]

module _ (K : Kernel) (lawful : IsLawful K) where
  -- No object holds SA_RESTART between two calls.
  abbrev pub Clean : Signals K → Type 0
  Clean s = (a : SignalAction) → s.restarting a ≡ false

  -- The actions are those given, and the objects are clean.
  pub record Acts (s t : Signals K) (f : ℕ → Option SignalAction) (restart : Bool) : Type 0 where
    pub actions : (n : ℕ) → K.action t.kernel n ≡ chosen (K.action s.kernel n) (f n) restart
    pub clean : Clean t

  abbrev pub only : ℕ → SignalAction → ℕ → Option SignalAction
  only n a q = if q == n then some a else none

  pub apply_to-Acts :
      (a : SignalAction) (n : ℕ) (restart : Bool) (s : Signals K)
      → is_settable n ≡ true
      → Clean s
      → (t : Signals K) × (apply_to K a n restart s ≡ ok t) × Acts s t (only n a) restart
  unfolding apply_to
  apply_to-Acts a n true s settable clean =
      let (t, ran, actions, timed) = lawful.sigaction-action s.kernel n (acting a true) settable in
      (
        record {
          kernel = t;
          restarting = set_restart K a false (set_restart K a true s.restarting);
        },
        rw (same_refl a, ran) refl,
        record {
          actions = λ q. actions q ∙ if_chosen (q == n) (K.action s.kernel q) a true;
          clean = λ b. elim (Bool-cases (same a b)) [ inl e ↦ rw e refl | inr e ↦ rw e (clean b) ];
        },
      )
  apply_to-Acts a n false s settable clean =
      let (t, ran, actions, timed) = lawful.sigaction-action s.kernel n (acting a false) settable in
      (
        record s { kernel = t },
        rw (clean a, ran) refl,
        record {
          actions = λ q. actions q ∙ if_chosen (q == n) (K.action s.kernel q) a false;
          clean = clean;
        },
      )

  apply_loop-Acts :
      (choose : SignalAction → SignalAction) (entries : List (ℕ × SignalAction)) (s : Signals K)
      → EachOnce entries
      → EachSettable entries
      → Clean s
      → (t : Signals K) × (apply_loop K choose entries s ≡ ok t)
        × Acts s t (λ n. map_action choose (at entries n)) false
  unfolding apply_loop
  apply_loop-Acts choose [] s once settable clean =
      (s, refl, record { actions = λ n. refl; clean = clean })
  apply_loop-Acts choose ((k, a) ∷ rest) s once settable clean =
      let (u, ran, first) = apply_to-Acts (choose a) k false s settable.0 clean in
      let (t, ran_rest, later) = apply_loop-Acts choose rest u once.1 settable.1 first.clean in
      (
        t,
        rw ran ran_rest,
        record {
          actions = λ n.
              later.actions n
              ∙ chosen-chosen (n == k) (K.action s.kernel n) (K.action u.kernel n) (choose a)
                  (map_action choose (at rest n)) (first.actions n)
                  (λ e. ap (map_action choose) (ap (at rest) ((==_iff n k).0 e) ∙ once.0))
              ∙ ap (λ o. chosen (K.action s.kernel n) o false)
                  (sym (map_action-if choose (n == k) a (at rest n)));
          clean = later.clean;
        },
      )

  -- If no SignalAction holds SA_RESTART, prepare_signals returns with every signal of the table at
  -- its handler without SA_RESTART, every other signal as before, and no SignalAction holding
  -- SA_RESTART.
  pub prepare_signals-Acts :
      (s : Signals K)
      → Clean s
      → (t : Signals K) × (prepare_signals K s ≡ ok t)
        × Acts s t (λ n. map_action (λ a. a) (at signal_actions n)) false
  unfolding prepare_signals
  prepare_signals-Acts s clean = apply_loop-Acts (λ a. a) signal_actions s once settable clean

  pub reset_signals-Acts :
      (s : Signals K)
      → Clean s
      → (t : Signals K) × (reset_signals K s ≡ ok t)
        × Acts s t (λ n. map_action (λ a. default) (at signal_actions n)) false
  unfolding reset_signals
  reset_signals-Acts s clean = apply_loop-Acts (λ a. default) signal_actions s once settable clean

  -- If no SignalAction holds SA_RESTART, set_standard_handler_restart gives a signal of the table
  -- exactly the handler of the table with the flag as asked, leaves the actions of all other
  -- signals, and again no SignalAction holds SA_RESTART; for a number outside the table it dies.
  pub set_standard_handler_restart_lem :
      (n : ℕ) (restart : Bool) (s : Signals K)
      → Clean s
      → ((a : SignalAction) × (at signal_actions n ≡ some a)
          × ((t : Signals K) × (set_standard_handler_restart K n restart s ≡ ok t)
              × Acts s t (only n a) restart))
        ⊎ (at signal_actions n ≡ none)
          × (set_standard_handler_restart K n restart s ≡ err (invalid_signum n))
  unfolding set_standard_handler_restart
  set_standard_handler_restart_lem n restart s clean = elim (Option-cases (at signal_actions n)) [
    | inl e ↦ inr (e, rw e refl)
    | inr (a, e) ↦
        let (t, ran, acts) =
          apply_to-Acts a n restart s (entry-settable n a signal_actions settable e) clean in
        inl (a, e, (t, rw e ran, acts))
  ]
