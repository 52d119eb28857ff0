-- ===== src/Worker/Tasks/Outcome.antt =====
-- Every task gets the results of its own run, in whatever order the containers end.
use mathlib.Core.List.{
  Mem, Nodup, Perm, not-mem-nil, Nodup-cons, mem-cons_self, mem-cons_of_mem, mem_of_ne_of_mem,
}
use mathlib.Core.List.Perm
use libsbox.Base.{
  ℕ, ◌≡◌, ◌≢◌, ◌⊎◌, inl, inr, refl, sym, ap, subst, ◌∙◌, arith, false, Bool-cases, List, [], ◌∷◌,
  length, ◌==◌, ==_iff, Result, ok, err,
}
use libsbox.Crash.{Crash, Runs, returns, dies, bind-Runs}
use libsbox.Task.{Task}
use libsbox.Pipes.{Pipes}
use libsbox.Pipes.Laws.{Extends, Extends-refl, Extends-trans}
use libsbox.Container.TaskData.{TaskData, IsValid}
use libsbox.Container.SetTask
use libsbox.Container.SetTask.{set_task, put_results}
use libsbox.Container.SetTask.Spec.{Written, Holds}
use libsbox.Container.SetTask.Whole.{set_task_lem, Written-mono}
use libsbox.Container.WaitForSlave.{Ending, wait_for_slave}
use libsbox.Container.WaitForSlave.Measured.{Measured}
use libsbox.Container.WaitForSlave.Verdict.{IsFresh, IsMonotone, Verdict, wait_for_slave-Verdict}
use libsbox.Worker.Tasks.{
  Reason, from_set, from_container, cannot_set, container_ended, Course, Memories, set_memory,
  write_tasks, run_containers, collect_results, execute,
}

-- The run of that container.
abbrev pub Ran : (ℕ → Course) → TaskData → ℕ → Result Ending TaskData
Ran course d c = wait_for_slave d (course c).wakes (course c).world (course c).measures

abbrev pub SomeTask : (Task → Type 0) → List Task → Type 0
SomeTask P [] = ⊥
SomeTask P (t ∷ ts) = P t ⊎ SomeTask P ts

-- Some task does not fit, as the message says, or some container's run fails.
abbrev pub Dies : (ℕ → Course) → List Task → Reason → Type 0
Dies course tasks (cannot_set why) = SomeTask (λ t. (p : Pipes) × Holds p t why) tasks
Dies course tasks (container_ended why) = (c : ℕ) × (d : TaskData) × (Ran course d c ≡ err why)

later_task :
    (course : ℕ → Course) (t : Task) (ts : List Task) (why : Reason)
    → Dies course ts why
    → Dies course (t ∷ ts) why
later_task course t ts (cannot_set why) x = inr x
later_task course t ts (container_ended why) x = x

-- The task was written to some memory with the pipes of the request, the container's run on it gave
-- one verdict and measurements that fit its limits, and these are what the task holds.
pub record Outcome (course : Course) (q : Pipes) (t u : Task) : Type 0 where
  pub written : TaskData
  pub ended : TaskData
  pub fills : Written t written q
  pub ran : wait_for_slave written course.wakes course.world course.measures ≡ ok ended
  pub verdict : Verdict ended
  pub measured : Measured written ended course.measures
  pub holds : u ≡ put_results ended t

abbrev pub Outcomes : (ℕ → Course) → Pipes → List Task → List ℕ → List Task → Type 0
Outcomes course q [] [] [] = Unit
Outcomes course q (t ∷ ts) (c ∷ cs) (u ∷ us) = Outcome (course c) q t u × Outcomes course q ts cs us
Outcomes course q _ _ _ = ⊥

from_set-Runs :
    {A : Type 0} {E : SetTask.Reason → Type 0} {F : Reason → Type 0} {P : A → Type 0}
    (m : Result (Crash SetTask.Reason) A)
    → ((why : SetTask.Reason) → E why → F (cannot_set why))
    → Runs E P m
    → Runs F P (from_set m)
from_set-Runs m f (returns a e p) = returns a (ap from_set e) p
from_set-Runs m f (dies why e x) = dies (cannot_set why) (ap from_set e) (f why x)

from_container-Runs :
    {A : Type 0} {F : Reason → Type 0} (m : Result Ending A)
    → ((why : Ending) → m ≡ err why → F (container_ended why))
    → Runs F (λ a. m ≡ ok a) (from_container m)
from_container-Runs (ok a) f = returns a refl refl
from_container-Runs (err why) f = dies (container_ended why) refl (f why refl)

abbrev AllValid : Memories → Type 0
AllValid mem = (c : ℕ) → IsValid (mem c)

set_memory-valid :
    (mem : Memories) (c : ℕ) (d : TaskData)
    → AllValid mem
    → IsValid d
    → AllValid (set_memory mem c d)
set_memory-valid mem c d valid v q = elim (Bool-cases (q == c)) [
  | inl e ↦ rw e v
  | inr e ↦ rw e (valid q)
]

set_memory-same : (mem : Memories) (c : ℕ) (d : TaskData) → set_memory mem c d c ≡ d
set_memory-same mem c d = rw ((==_iff c c).1 refl) refl

set_memory-other : (mem : Memories) (c q : ℕ) (d : TaskData) → q ≢ c → set_memory mem c d q ≡ mem q
set_memory-other mem c q d differ = rw (not_same q c differ) refl
  where
    not_same : (m n : ℕ) → m ≢ n → (m == n) ≡ false
    not_same m n h = ground arith

-- The memories hold the tasks, each that of its container.
abbrev AllWritten : Pipes → Memories → List Task → List ℕ → Type 0
AllWritten q mem [] [] = Unit
AllWritten q mem (t ∷ ts) (c ∷ cs) = Written t (mem c) q × AllWritten q mem ts cs
AllWritten q mem _ _ = ⊥

outside : {c q : ℕ} {cs : List ℕ} → ¬ Mem q (c ∷ cs) → (q ≢ c) × (¬ Mem q cs)
outside {c} {q} {cs} out =
    (λ e. out (subst (λ k. Mem k (c ∷ cs)) (sym e) mem-cons_self), λ m. out (mem-cons_of_mem c m))

write_tasks-Runs :
    (course : ℕ → Course) (p : Pipes) (mem : Memories) (tasks : List Task) (cs : List ℕ)
    → AllValid mem
    → Nodup cs
    → length cs ≡ length tasks
    → Runs
        (Dies course tasks)
        (λ (r : Memories × Pipes).
          Extends p r.1 × ((c : ℕ) → ¬ Mem c cs → r.0 c ≡ mem c) × AllWritten r.1 r.0 tasks cs)
        (write_tasks p mem tasks cs)
unfolding write_tasks
write_tasks-Runs course p mem [] [] valid distinct same =
    returns (mem, p) refl (Extends-refl p, (λ c out. refl), tt)
write_tasks-Runs course p mem [] (c ∷ cs) valid distinct same = absurd (omega (arith, same))
write_tasks-Runs course p mem (t ∷ ts) [] valid distinct same = absurd (omega (arith, same))
write_tasks-Runs course p mem (t ∷ ts) (c ∷ cs) valid distinct same =
    bind-Runs _ _
      (from_set-Runs (set_task p (mem c) t) (λ why x. inl (p, x))
        (set_task_lem p (mem c) t (valid c)))
      λ (d, p') (written, v, extends).
        let alone = Nodup-cons.0 distinct in
        elim (write_tasks-Runs course p' (set_memory mem c d) ts cs
          (set_memory-valid mem c d valid v) alone.1 (omega (arith, same))) [
            | returns r ran (more, kept, rest) ↦ returns r ran (
              Extends-trans p p' r.1 extends more,
              (λ q out.
                  let (differ, out') = outside out in
                  kept q out' ∙ set_memory-other mem c q d differ),
              (
                rw (kept c alone.0, set_memory-same mem c d) (Written-mono t d p' r.1 more written),
                rest,
              ),
            )
            | dies why ran x ↦ dies why ran (later_task course t ts why x)
          ]

member :
    (course : ℕ → Course) (mem ended : Memories) (c q : ℕ) (r : TaskData) (cs : List ℕ)
    → Ran course (mem c) c ≡ ok r
    → ended c ≡ set_memory mem c r c
    → (Mem q cs → Ran course (set_memory mem c r q) q ≡ ok (ended q))
    → Mem q (c ∷ cs)
    → Ran course (mem q) q ≡ ok (ended q)
member course mem ended c q r cs ran kept did m = elim (Bool-cases (q == c)) [
  | inl e ↦
      subst (λ k. Ran course (mem k) k ≡ ok (ended k)) (sym ((==_iff q c).0 e))
        (ran ∙ ap ok (sym (kept ∙ set_memory-same mem c r)))
  | inr e ↦
      let differ : q ≢ c = not_equal q c e in
      ap (λ d. Ran course d q) (sym (set_memory-other mem c q r differ))
      ∙ did (mem_of_ne_of_mem differ m)
]
  where
    not_equal : (m n : ℕ) → (m == n) ≡ false → m ≢ n
    not_equal m n h = ground arith

run_containers-Runs :
    (course : ℕ → Course) (tasks : List Task) (mem : Memories) (order : List ℕ)
    → Nodup order
    → Runs
        (Dies course tasks)
        (λ (ended : Memories).
          ((c : ℕ) → ¬ Mem c order → ended c ≡ mem c)
          × ((c : ℕ) → Mem c order → Ran course (mem c) c ≡ ok (ended c)))
        (run_containers course mem order)
unfolding run_containers
run_containers-Runs course tasks mem [] distinct =
    returns mem refl ((λ c out. refl), λ c m. absurd (not-mem-nil m))
run_containers-Runs course tasks mem (c ∷ cs) distinct =
    bind-Runs _ _
      (from_container-Runs
        (wait_for_slave (mem c) (course c).wakes (course c).world (course c).measures)
        (λ why e. (c, mem c, e)))
      λ r ran.
        let alone = Nodup-cons.0 distinct in
        elim (run_containers-Runs course tasks (set_memory mem c r) cs alone.1) [
          | returns ended e (kept, did) ↦ returns ended e (
            (λ q out.
                let (differ, out') = outside out in
                kept q out' ∙ set_memory-other mem c q r differ),
            λ q m. member course mem ended c q r cs ran (kept c alone.0) (did q) m,
          )
          | dies why e x ↦ dies why e x
        ]

Written-IsFresh : (t : Task) (d : TaskData) (q : Pipes) → Written t d q → IsFresh d
Written-IsFresh t d q w = record {
  not_exited = w.reset.not_exited;
  exit_code = w.reset.exit_code;
  not_signaled = w.reset.not_signaled;
  term_signal = w.reset.term_signal;
  time_ok = w.reset.time_exceeded;
  wall_time_ok = w.reset.wall_time_exceeded;
}

collect_results_lem :
    (course : ℕ → Course) (q : Pipes) (written ended : Memories) (tasks : List Task) (cs : List ℕ)
    → ((c : ℕ) → IsMonotone (course c).wakes (course c).measures)
    → AllWritten q written tasks cs
    → ((c : ℕ) → Mem c cs → Ran course (written c) c ≡ ok (ended c))
    → (us : List Task) × (collect_results ended tasks cs ≡ ok us) × Outcomes course q tasks cs us
unfolding collect_results
collect_results_lem course q written ended [] [] mono all ran = ([], refl, tt)
collect_results_lem course q written ended [] (c ∷ cs) mono all ran = absurd all
collect_results_lem course q written ended (t ∷ ts) [] mono all ran = absurd all
collect_results_lem course q written ended (t ∷ ts) (c ∷ cs) mono (fills, all) ran =
    let (us, e, outcomes) =
      collect_results_lem course q written ended ts cs mono all
        (λ k m. ran k (mem-cons_of_mem c m)) in
    let it = ran c mem-cons_self in
    let (verdict, measured) =
      wait_for_slave-Verdict (written c) (ended c) (course c).wakes (course c).world
        (course c).measures (Written-IsFresh t (written c) q fills) (mono c) it in
    (
      put_results (ended c) t ∷ us,
      rw e refl,
      (
        record {
          written = written c;
          ended = ended c;
          fills = fills;
          ran = it;
          verdict = verdict;
          measured = measured;
          holds = refl;
        },
        outcomes,
      ),
    )

pub execute-Outcomes :
    (course : ℕ → Course) (p : Pipes) (mem : Memories) (tasks : List Task) (cs order : List ℕ)
    → ((c : ℕ) → IsValid (mem c))
    → Nodup cs
    → length cs ≡ length tasks
    → Perm order cs
    → ((c : ℕ) → IsMonotone (course c).wakes (course c).measures)
    → Runs
        (Dies course tasks)
        (λ (r : List Task × Pipes). Outcomes course r.1 tasks cs r.0 × (r.1.closes ≡ p.closes))
        (execute course p mem tasks cs order)
unfolding execute
execute-Outcomes course p mem tasks cs order valid distinct same any mono =
    bind-Runs _ _ (write_tasks-Runs course p mem tasks cs valid distinct same)
      λ (written, q) (extends, kept, all).
        bind-Runs _ _
          (run_containers-Runs course tasks written order (Perm.nodup (Perm.symm any) distinct))
          λ ended (untouched, ran).
            let (us, e, outcomes) =
              collect_results_lem course q written ended tasks cs mono all
                (λ c m. ran c ((Perm.mem_iff any).1 m)) in
            returns (us, q) (rw e refl) (outcomes, extends.1)
