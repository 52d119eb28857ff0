-- ===== src/Daemon/Triple.antt =====
-- What an action of the daemon in src/daemon.cpp is shown to do: a property of its value and the state
-- after it, and one of the reason for which it ends early.
use libsbox.Base.{◌≡◌, refl, ap, ◌∙◌, Bool, true, false, Option, none, some, Result, ok, err}
use libsbox.Daemon.{Machine, State, Action, Reason, and_then, check, stored}

module _ (M : Machine) where
  pub data Post {A : Type 0} (E : Reason → State M → Type 0) (Q : A → State M → Type 0)
      (r : Result Reason A × State M) : Type 0 where
    succeeds : (a : A) (t : State M) → r ≡ (ok a, t) → Q a t → Post E Q r
    ends : (why : Reason) (t : State M) → r ≡ (err why, t) → E why t → Post E Q r

  module _ {A B : Type 0} {E : Reason → State M → Type 0} {Q : A → State M → Type 0}
      {R : B → State M → Type 0} where
    -- The parts of a sequence, one after the other.
    pub bind-Post :
        (r : Result Reason A × State M) (f : A → Action M B)
        → Post E Q r
        → ((a : A) (t : State M) → Q a t → Post E R (f a t))
        → Post E R (and_then M f r)
    bind-Post r f (succeeds a t e q) k = elim (k a t q) [
      | succeeds b u e' x ↦ succeeds b u (ap (and_then M f) e ∙ e') x
      | ends why u e' x ↦ ends why u (ap (and_then M f) e ∙ e') x
    ]
    bind-Post r f (ends why t e x) k = ends why t (ap (and_then M f) e) x

  -- A test keeps the state.
  pub check-Post :
      (E : Reason → State M → Type 0) (b : Bool) (why : Reason) (s : State M)
      → E why s
      → Post {A = Unit {0}} E (λ u t. (t ≡ s) × (b ≡ true)) (check M b why s)
  check-Post E true why s x = succeeds tt s refl (refl, refl)
  check-Post E false why s x = ends why s refl x

  -- A call that gives the next state.
  pub stored-Post :
      (E : Reason → State M → Type 0) (o : Option (State M)) (why : Reason) (s : State M)
      → (o ≡ none → E why s)
      → Post {A = Unit {0}} E (λ u t. o ≡ some t) (stored M o why s)
  stored-Post E none why s x = ends why s refl (x refl)
  stored-Post E (some t) why s x = succeeds tt t refl refl
