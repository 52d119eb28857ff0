-- ===== src/Crash.antt =====
-- How a call of the program can end early: `die` with a reason, or undefined behaviour of a
-- container of src/plain_*.h. `Runs` is what a call is shown to do: return a value with a property,
-- or die for a reason with a property, and nothing else.
use libsbox.Base.{
  Option, none, some, or_fail, guard, Bool, true, false, ◌≡◌, refl, Result, ok, err, ◌>>=◌, ◌∙◌, ap,
}
use libsbox.Memory.{Fault}

pub data Crash (R : Type 0) : Type 0 where
  died : R → Crash R
  undefined : Fault → Crash R

-- A call of a container, from code that may also die.
abbrev pub lift {ℓ} : {R : Type 0} {A : Type ℓ} → Result Fault A → Result (Crash R) A
lift (ok a) = ok a
lift (err f) = err (undefined f)

pub data Runs {R A : Type 0} (E : R → Type 0) (P : A → Type 0) (r : Result (Crash R) A)
    : Type 0 where
  returns : (a : A) → r ≡ ok a → P a → Runs E P r
  dies : (why : R) → r ≡ err (died why) → E why → Runs E P r

module _ {R A B : Type 0} {E : R → Type 0} {P : A → Type 0} {Q : B → Type 0} where
  -- The parts of a sequence, one after the other.
  pub bind-Runs :
      (m : Result (Crash R) A) (f : A → Result (Crash R) B)
      → Runs E P m
      → ((a : A) → P a → Runs E Q (f a))
      → Runs E Q (m >>= f)
  bind-Runs m f (returns a e p) k = elim (k a p) [
    | returns b e' q ↦ returns b (ap (λ r. r >>= f) e ∙ e') q
    | dies why e' x ↦ dies why (ap (λ r. r >>= f) e ∙ e') x
  ]
  bind-Runs m f (dies why e x) k = dies why (ap (λ r. r >>= f) e) x

-- A call of a container that is known to succeed.
pub lift_returns :
    {R A : Type 0} {E : R → Type 0} (P : A → Type 0) (m : Result Fault A) (a : A)
    → m ≡ ok a
    → P a
    → Runs {R = R} E P (lift m)
lift_returns P m a e p = returns a (ap lift e) p

-- A call of the kernel: it gives its result, or the program dies.
pub or_fail-Runs :
    {R A : Type 0} (E : R → Type 0) (P : A → Type 0) (o : Option A) (why : R)
    → (o ≡ none → E why)
    → ((a : A) → o ≡ some a → P a)
    → Runs E P (or_fail o (died why))
or_fail-Runs E P none why x k = dies why refl (x refl)
or_fail-Runs E P (some a) why x k = returns a refl (k a refl)

-- A test before which the program dies.
pub guard-Runs :
    {R : Type 0} (E : R → Type 0) (b : Bool) (why : R)
    → (b ≡ false → E why)
    → Runs E (λ u. b ≡ true) (guard b (died why))
guard-Runs E true why x = returns tt refl refl
guard-Runs E false why x = dies why refl (x refl)
