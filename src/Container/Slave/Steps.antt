-- ===== src/Container/Slave/Steps.antt =====
-- The steps of Container::slave of src/container.cpp, one by one: what each leaves of the
-- descriptors and the cgroups.
use libsbox.Base.{
  ℕ, ◌≤◌, ◌≡◌, ◌≢◌, inl, inr, refl, ap, ◌∙◌, sym, arith, pos, minus_one, Bool, true, false,
  Bool-cases, Option-cases, ◌||◌, List, Option, some, none, ◌==◌, ==_iff, if◌then◌else◌, Result, ok,
  err, ◌>>=◌,
}
use mathlib.Core.Option.{none-ne-some}
use libsbox.Crash.{Crash, died, undefined, Runs, returns, dies, bind-Runs, or_fail-Runs}
use libsbox.Container.TaskData.{TaskData}
use libsbox.Container.Slave
use libsbox.Container.Slave.{
  Kernel, Handle, opened, read_only, write_truncate, write_cloexec, is_kept, dup2_fds,
}
use libsbox.Container.Slave.Redirect.{Keeps, StandardOpen, StandardOpen-mono}
use libsbox.Container.Slave.CloseAll.{close_all_fds-table}
use libsbox.Container.Slave.Launch.{
  Reason, Run, relabel, on_descriptors, on_cgroup, on_rights, cannot_chdir, cannot_chroot,
  cannot_open_dir, Box, IsLawful, Controllers, delay_both, enter_both, change_root, close_others,
}
use libsbox.Container.Rights
use libsbox.Container.Rights.{Process, all_of}
use libsbox.Container.Rights.Limits.{boxed}
use libsbox.Cgroup
use libsbox.Cgroup.{CgroupController, Cgroups, tasks_file, delay_enter, enter}
use libsbox.Cgroup.Enter
use libsbox.Cgroup.Enter.{Delayed, delay_enter-Runs, Entered, enter-Runs}

-- The kernel refused the call.
abbrev pub IsRefused : (K : Kernel) → Cgroups K → Box K → Reason → Type 0
IsRefused K C B cannot_chdir = (s : K.State) × (B.chdir s ≡ none)
IsRefused K C B cannot_chroot = (s : K.State) × (B.chroot s ≡ none)
IsRefused K C B cannot_open_dir = (s : K.State) × (B.open_dir s ≡ none)
IsRefused K C B (on_descriptors why) = Slave.IsRefused K why
IsRefused K C B (on_cgroup why) = Enter.IsRefused K C why
IsRefused K C B (on_rights why) = ⊥

pub relabel-Runs :
    {R A : Type 0} {E : R → Type 0} {F : Reason → Type 0} {P : A → Type 0} (f : R → Reason)
    (m : Result (Crash R) A)
    → ((why : R) → E why → F (f why))
    → Runs E P m
    → Runs F P (relabel f m)
relabel-Runs f m g (returns a e p) = returns a (ap (relabel f) e) p
relabel-Runs f m g (dies why e x) = dies (f why) (ap (relabel f) e) (g why x)

pub weaken-Runs :
    {A : Type 0} {F : Reason → Type 0} {P Q : A → Type 0} (m : Run A)
    → Runs F P m
    → ((a : A) → P a → Q a)
    → Runs F Q m
weaken-Runs m (returns a e p) f = returns a e (f a p)
weaken-Runs m (dies why e x) f = dies why e x

with_dir :
    (zero one two logger m a dir : Bool) (h : Option Handle)
    → dir ≡ false
    → (zero || one || two || logger || m || a) ≡ true
    → (if dir then none else if zero || one || two || dir || logger || m || a then h else none) ≡ h
with_dir zero one two logger m a dir h e k = ground arith

without_dir :
    (zero one two logger m a dir : Bool) (h : Option Handle)
    → (zero || one || two || logger || m || a) ≡ false
    → (if dir then none else if zero || one || two || dir || logger || m || a then h else none)
      ≡ none
without_dir zero one two logger m a dir h e = ground arith

module _ (K : Kernel) (lawful : Slave.IsLawful K) (C : Cgroups K) (entering : Cgroup.IsLawful K C)
    (B : Box K) (boxing : IsLawful K B) (P : Process) (allowing : Rights.IsLawful P) where
  open K use {State, table}

  -- An open descriptor is not a free one.
  pub apart :
      (s : State) (x y : ℕ) (h : Handle) → table s x ≡ some h → table s y ≡ none → (x == y) ≡ false
  apart s x y h at free = elim (Bool-cases (x == y)) [
    | inl same ↦ absurd (none-ne-some h (sym free ∙ ap (table s) (sym ((==_iff x y).0 same)) ∙ at))
    | inr differ ↦ differ
  ]

  was_free : (s t : State) (x : ℕ) → Keeps K lawful s t → table t x ≡ none → table s x ≡ none
  was_free s t x keeps free = elim (Option-cases (table s x)) [
    | inl e ↦ e
    | inr (h, e) ↦ absurd (none-ne-some h (sym free ∙ keeps x h e))
  ]

  pub record Held (s : State) (memory cpuacct : CgroupController) (r : Controllers K C B P × State)
      : Type 0 where
    pub m : ℕ
    pub a : ℕ
    pub held_m : r.0.0.enter_fd ≡ pos m
    pub held_a : r.0.1.enter_fd ≡ pos a
    pub path_m : r.0.0.path ≡ memory.path
    pub path_a : r.0.1.path ≡ cpuacct.path
    pub above_m : 3 ≤ m
    pub above_a : 3 ≤ a
    pub free_m : table s m ≡ none
    pub free_a : table s a ≡ none
    pub at_m : table r.1 m ≡ some (opened (tasks_file memory.path) write_cloexec)
    pub at_a : table r.1 a ≡ some (opened (tasks_file cpuacct.path) write_cloexec)
    pub differ : (m == a) ≡ false
    pub keeps : Keeps K lawful s r.1

  pub delay_both-Runs :
      (memory cpuacct : CgroupController) (s : State)
      → memory.enter_fd ≡ minus_one
      → cpuacct.enter_fd ≡ minus_one
      → StandardOpen K lawful s
      → Runs (IsRefused K C B) (Held s memory cpuacct) (delay_both K C B P (memory, cpuacct) s)
  unfolding delay_both
  delay_both-Runs memory cpuacct s unset_m unset_a std =
      bind-Runs _ _
        (relabel-Runs on_cgroup (delay_enter K C memory s) (λ why x. x)
          (delay_enter-Runs K lawful C entering memory s unset_m std))
        λ r1 d1.
          bind-Runs _ _
            (relabel-Runs on_cgroup (delay_enter K C cpuacct r1.1) (λ why x. x)
              (delay_enter-Runs K lawful C entering cpuacct r1.1 unset_a
                (StandardOpen-mono K lawful s r1.1 d1.keeps std)))
            λ r2 d2.
              returns ((r1.0, r2.0), r2.1) refl
                (record {
                  m = d1.fd;
                  a = d2.fd;
                  held_m = d1.held;
                  held_a = d2.held;
                  path_m = d1.path;
                  path_a = d2.path;
                  above_m = d1.above;
                  above_a = d2.above;
                  free_m = d1.fresh;
                  free_a = was_free s r1.1 d2.fd d1.keeps d2.fresh;
                  at_m = d2.keeps d1.fd _ d1.refers;
                  at_a = d2.refers;
                  differ = apart r1.1 d1.fd d2.fd _ d1.refers d2.fresh;
                  keeps = λ n h e. d2.keeps n h (d1.keeps n h e);
                })

  pub change_root-Runs :
      (s : State)
      → Runs (IsRefused K C B) (λ t. (n : ℕ) → table t n ≡ table s n) (change_root K C B P s)
  unfolding change_root
  change_root-Runs s =
      bind-Runs _ _
        (or_fail-Runs (IsRefused K C B) (λ t. (n : ℕ) → table t n ≡ table s n) (B.chdir s)
          cannot_chdir (λ e. (s, e)) (λ t e. boxing.chdir-table s t e))
        λ t same.
          or_fail-Runs (IsRefused K C B) _ (B.chroot t) cannot_chroot (λ e. (t, e))
            (λ u e n. boxing.chroot-table t u e n ∙ same n)

  -- The descriptors that close_others leaves: the standard ones, the logger's and the cgroups'.
  abbrev pub kept : (logger m a n : ℕ) → Bool
  kept logger m a n = n == 0 || n == 1 || n == 2 || n == logger || n == m || n == a

  pub close_others-Runs :
      (logger m a : ℕ) (c : Controllers K C B P) (s : State)
      → c.0.enter_fd ≡ pos m
      → c.1.enter_fd ≡ pos a
      → Runs
          (IsRefused K C B)
          (λ t.
            ((n : ℕ) (h : Handle)
              → table s n ≡ some h
              → kept logger m a n ≡ true
              → table t n ≡ some h)
            × ((n : ℕ) → kept logger m a n ≡ false → table t n ≡ none))
          (close_others K C B P logger c s)
  unfolding close_others
  close_others-Runs logger m a c s held_m held_a =
      rw (held_m, held_a)
        (bind-Runs _ _
          (or_fail-Runs (IsRefused K C B) (λ r. B.open_dir s ≡ some r) (B.open_dir s)
            cannot_open_dir (λ e. (s, e)) (λ r e. e))
          λ (dir, t) e.
            weaken-Runs _
              (relabel-Runs on_descriptors _ (λ why x. x)
                (close_all_fds-table K lawful dir logger m a t (B.entries t)
                  (boxing.entries-complete t)))
              λ u closed. (
                λ n h at k.
                    let other = apart s n dir h at (boxing.open_dir-fresh s dir t e) in
                    closed n
                    ∙ still_open dir t n other k
                    ∙ boxing.open_dir-table s dir t e n other
                    ∙ at,
                λ n k. closed n ∙ none_left dir u t n k,
              ))
    where
      still_open :
          (dir : ℕ) (t : State) (n : ℕ)
          → (n == dir) ≡ false
          → kept logger m a n ≡ true
          → (if n == dir then none else if is_kept dir logger m a n then table t n else none)
            ≡ table t n
      still_open dir t n other k =
          with_dir (n == 0) (n == 1) (n == 2) (n == logger) (n == m) (n == a) (n == dir) (table t n)
            other k

      none_left :
          (dir : ℕ) (u t : State) (n : ℕ)
          → kept logger m a n ≡ false
          → (if n == dir then none else if is_kept dir logger m a n then table t n else none) ≡ none
      none_left dir u t n k =
          without_dir (n == 0) (n == 1) (n == 2) (n == logger) (n == m) (n == a) (n == dir)
            (table t n) k

  -- Both cgroups are entered and their descriptors closed.
  pub record EnteredBoth (s : State) (m a : ℕ) (memory cpuacct : List ℕ) (t : State) : Type 0 where
    pub in_memory : C.inside t (tasks_file memory) ≡ true
    pub in_cpuacct : C.inside t (tasks_file cpuacct) ≡ true
    pub tables : (n : ℕ) → table t n ≡ (if n == a then none else if n == m then none else table s n)

  pub enter_both-Runs :
      (pid : List ℕ) (c : Controllers K C B P) (s : State) (m a : ℕ)
      → c.0.enter_fd ≡ pos m
      → c.1.enter_fd ≡ pos a
      → (m == a) ≡ false
      → C.hierarchy (tasks_file c.0.path) ≢ C.hierarchy (tasks_file c.1.path)
      → table s m ≡ some (opened (tasks_file c.0.path) write_cloexec)
      → table s a ≡ some (opened (tasks_file c.1.path) write_cloexec)
      → Runs
          (IsRefused K C B)
          (λ r. EnteredBoth s m a c.0.path c.1.path r.1)
          (enter_both K C B P pid c s)
  unfolding enter_both
  enter_both-Runs pid (memory, cpuacct) s m a held_m held_a differ two at_m at_a =
      bind-Runs _ _
        (relabel-Runs on_cgroup (enter K C pid memory s) (λ why x. x)
          (enter-Runs K lawful C entering pid memory s m held_m at_m))
        λ r1 e1.
          bind-Runs _ _
            (relabel-Runs on_cgroup (enter K C pid cpuacct r1.1) (λ why x. x)
              (enter-Runs K lawful C entering pid cpuacct r1.1 a held_a
                (e1.table a ∙ rw (other m a differ) at_a)))
            λ r2 e2.
              returns ((r1.0, r2.0), r2.1) refl
                (record {
                  in_memory = e2.others (tasks_file memory.path) two ∙ e1.inside;
                  in_cpuacct = e2.inside;
                  tables = λ n. e2.table n ∙ ap (λ h. if n == a then none else h) (e1.table n);
                })
    where
      other : (m a : ℕ) → (m == a) ≡ false → (a == m) ≡ false
      other m a e = ground arith

  -- What set_streams gives, from what `redirect` does.
  pub after_open :
      (d : TaskData) (Q : State → Type 0)
      (o : Result (Crash Slave.Reason) (Slave.Streams K × State))
      → Runs (Slave.IsRefused K) Q (o >>= λ r. dup2_fds K r.1 r.0)
      → Runs
          (IsRefused K C B)
          (λ (r : TaskData × State).
            Q r.1
            × ((old : Rights.Resource → Rights.Limit) (q : Rights.Resource)
                → boxed r.0 old q ≡ boxed d old q)
            × (r.0.max_files ≡ d.max_files))
          (relabel on_descriptors o >>= λ r. relabel on_descriptors (dup2_fds K r.1 r.0) >>= λ t.
            ok (
              record d {
                stdin_desc = r.0.input;
                stdout_desc = r.0.output;
                stderr_desc = r.0.errors;
              },
              t,
            ))
  after_open d Q (ok r) (returns t e q) =
      returns
        (record d { stdin_desc = r.0.input; stdout_desc = r.0.output; stderr_desc = r.0.errors }, t)
        (rw e refl) (q, (λ old k. refl), refl)
  after_open d Q (ok r) (dies why e x) = dies (on_descriptors why) (rw e refl) x
  after_open d Q (err (died why)) (returns t e q) = cc
  after_open d Q (err (died why)) (dies why' e x) =
      dies (on_descriptors why')
        (ap (λ (r : Result (Crash Slave.Reason) State). relabel on_descriptors r >>= λ t. ok (d, t))
          e)
        x
  after_open d Q (err (undefined fault)) (returns t e q) = cc
  after_open d Q (err (undefined fault)) (dies why e x) = cc
