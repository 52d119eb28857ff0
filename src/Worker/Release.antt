-- ===== src/Worker/Release.antt =====
-- The return of the containers at the end of Worker::collect_results of src/worker.cpp.
use mathlib.Core.List.{Mem, Perm, perm_middle, mem-cons_self, mem-cons_of_mem}
use mathlib.Core.List.Perm
use libsbox.Base.{
  ℕ, ◌+◌, ◌≤◌, ◌≡◌, inl, inr, refl, sym, subst, arith, Bool, Bool-cases, List, [], ◌∷◌, ◌++◌,
  append_assoc, length, false, Result,
}
use libsbox.Crash.{Crash, Runs, returns, dies, bind-Runs}
use libsbox.SharedIdGetter.{IdGetter, IsValid, free}
use libsbox.SharedIdGetter.Stack.{put_lem}
use libsbox.Task.{Task}
use libsbox.Worker.{
  Worker, Reason, getter_died, cannot_start, cannot_wait, release_loop, release_containers,
}
use libsbox.Worker.Prepare.{IsIdle, Prepared}

-- While containers are released the worker dies only where waitpid fails for one of them.
abbrev pub ReleaseDies : (ℕ → Bool) → List ℕ → Reason → Type 0
ReleaseDies waited temporary (getter_died why) = ⊥
ReleaseDies waited temporary cannot_start = ⊥
ReleaseDies waited temporary cannot_wait = (id : ℕ) × Mem id temporary × (waited id ≡ false)

ReleaseDies-later :
    (waited : ℕ → Bool) (id : ℕ) (rest : List ℕ) (why : Reason)
    → ReleaseDies waited rest why
    → ReleaseDies waited (id ∷ rest) why
ReleaseDies-later waited id rest (getter_died why) x = x
ReleaseDies-later waited id rest cannot_start x = x
ReleaseDies-later waited id rest cannot_wait (lost, m, e) = (lost, mem-cons_of_mem id m, e)

-- What is on the stack, with the ids of the containers left to release.
record Releasing (all permanent temporary : List ℕ) (g : IdGetter) : Type 0 where
  valid : IsValid g
  owned : Perm (free g ++ (permanent ++ temporary)) all
  room : g.head + (length permanent + length temporary) ≤ length g.ids

released_later :
    (all permanent : List ℕ) (waited : ℕ → Bool) (id : ℕ) (rest : List ℕ)
    (m : Result (Crash Reason) IdGetter)
    → Runs (ReleaseDies waited rest) (Releasing all permanent []) m
    → Runs (ReleaseDies waited (id ∷ rest)) (Releasing all permanent []) m
released_later all permanent waited id rest m (returns g e p) = returns g e p
released_later all permanent waited id rest m (dies why e x) =
    dies why e (ReleaseDies-later waited id rest why x)

release_loop-Runs :
    (all permanent : List ℕ) (waited : ℕ → Bool) (temporary : List ℕ) (g : IdGetter)
    → Releasing all permanent temporary g
    → Runs
        (ReleaseDies waited temporary)
        (Releasing all permanent [])
        (release_loop waited temporary g)
unfolding release_loop
release_loop-Runs all permanent waited [] g r = returns g refl r
release_loop-Runs all permanent waited (id ∷ rest) g r = elim (put_lem g id r.valid) [
  | inr (full, run) ↦ absurd (omega (arith, r.room))
  | inl (lt, (h, run, valid, top, len, head)) ↦ elim (Bool-cases (waited id)) [
    | inr lost ↦ dies cannot_wait (rw (run, lost) refl) (id, mem-cons_self, lost)
    | inl reaped ↦
        rw (run, reaped)
          (released_later all permanent waited id rest _ (
            release_loop-Runs all permanent waited rest h (record {
              valid = valid;
              owned =
                  subst (λ l. Perm (l ++ (permanent ++ rest)) all) (sym top)
                    (Perm.trans
                      (subst (λ l. Perm (id ∷ l) (free g ++ (permanent ++ (id ∷ rest))))
                        (append_assoc (free g) permanent rest)
                        (subst (Perm (id ∷ ((free g ++ permanent) ++ rest)))
                          (append_assoc (free g) permanent (id ∷ rest))
                          (Perm.symm (perm_middle (free g ++ permanent) rest))))
                      r.owned);
              room = omega (arith, r.room, len, head);
            })))
  ]
]

-- After the response of a prepared request the ids of the temporary containers are free again, the
-- permanent containers are kept and the worker is as between two requests; it dies only where
-- waitpid fails for one of the temporary containers.
pub release_containers_lem :
    (all : List ℕ) (waited : ℕ → Bool) (tasks : List Task) (w : Worker)
    → Prepared all tasks w
    → Runs
        (ReleaseDies waited w.temporary)
        (λ v. IsIdle all v × (v.permanent ≡ w.permanent))
        (release_containers waited w)
unfolding release_containers
release_containers_lem all waited tasks w p =
    bind-Runs _ _
      (release_loop-Runs all w.permanent waited w.temporary w.getter
        (record { valid = p.owns.valid; owned = p.owns.owned; room = p.owns.room }))
      λ g r.
        returns (record w { getter = g; temporary = []; containers = [] }) refl
          (
            record {
              owns = record { valid = r.valid; owned = r.owned; room = r.room };
              no_temporary = refl;
              no_containers = refl;
            },
            refl,
          )
