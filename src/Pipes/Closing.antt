-- ===== src/Pipes/Closing.antt =====
-- What Worker::close_pipes of src/worker.cpp closes.
use mathlib.Core.List.{Mem, mem-cons_self, mem-cons_of_mem}
use libsbox.Base.{
  ℕ, ◌≡◌, inl, inr, refl, subst, Bool, false, Bool-cases, List, [], ◌∷◌, some, none, Option,
  text_eq,
}
use libsbox.Crash.{Runs, returns, dies, bind-Runs}
use libsbox.Pipes.{
  Pipes, find, CloseReason, cannot_close_read, cannot_close_write, close_each, close_pipes,
}

-- close(2) fails for the descriptor of the message.
abbrev pub Fails : (ℕ → Bool) → CloseReason → Type 0
Fails closes (cannot_close_read fd) = closes fd ≡ false
Fails closes (cannot_close_write fd) = closes fd ≡ false

-- Both ends of each pipe of the table.
abbrev pub AllShut : List (List ℕ × (ℕ × ℕ)) → List ℕ → Type 0
AllShut table shut =
    (name : List ℕ) (fds : ℕ × ℕ) → find name table ≡ some fds → Mem fds.0 shut × Mem fds.1 shut

close_each-Runs :
    (closes : ℕ → Bool) (table : List (List ℕ × (ℕ × ℕ))) (shut : List ℕ)
    → Runs
        (Fails closes)
        (λ after. AllShut table after × ((n : ℕ) → Mem n shut → Mem n after))
        (close_each closes table shut)
unfolding close_each find
close_each-Runs closes [] shut = returns shut refl (λ name fds e. cc, λ n m. m)
close_each-Runs closes ((n, (reading, writing)) ∷ rest) shut = elim (Bool-cases (closes reading)) [
  | inr bad ↦ dies (cannot_close_read reading) (rw bad refl) bad
  | inl good ↦ elim (Bool-cases (closes writing)) [
    | inr bad' ↦ dies (cannot_close_write writing) (rw (good, bad') refl) bad'
    | inl good' ↦ elim (close_each-Runs closes rest (reading ∷ writing ∷ shut)) [
      | dies why e x ↦ dies why (rw (good, good') e) x
      | returns after e (all, kept) ↦ returns after (rw (good, good') e) (
        λ name fds found. one after all kept name fds found,
        λ k m. kept k (mem-cons_of_mem reading (mem-cons_of_mem writing m)),
      )
    ]
  ]
]
  where
    one :
        (after : List ℕ)
        → AllShut rest after
        → ((k : ℕ) → Mem k (reading ∷ writing ∷ shut) → Mem k after)
        → AllShut ((n, (reading, writing)) ∷ rest) after
    one after all kept name fds found = elim (Bool-cases (text_eq n name)) [
      | inr other ↦ all name fds (rw other at found)
      | inl here ↦ let same : some (reading, writing) ≡ some fds = rw here at found in both same
    ]
      where
        both : some (reading, writing) ≡ some fds → Mem fds.0 after × Mem fds.1 after
        both same =
            subst
              (λ (o : Option (ℕ × ℕ)). elim o [
                | none ↦ Mem fds.0 after
                | some k ↦ Mem k.0 after × Mem k.1 after
              ])
              same
              (kept reading mem-cons_self, kept writing (mem-cons_of_mem reading mem-cons_self))

-- close_pipes empties the table and has then closed both ends of each of its pipes; or the worker
-- dies because one of these could not be closed.
pub close_pipes_lem :
    (p : Pipes)
    → Runs (Fails p.closes) (λ q. (q.table ≡ []) × AllShut p.table q.shut) (close_pipes p)
unfolding close_pipes
close_pipes_lem p =
    bind-Runs _ _ (close_each-Runs p.closes p.table p.shut)
      λ shut (all, kept). returns (record p { table = []; shut = shut }) refl (refl, all)
