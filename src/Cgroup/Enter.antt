-- ===== src/Cgroup/Enter.antt =====
-- delay_enter and enter of src/cgroup_controller.cpp: the descriptor that is opened early, and the
-- write by which the process is in the cgroup.
use libsbox.Base.{
  ℕ, ◌≤◌, ◌≡◌, ◌≢◌, refl, ap, ◌∙◌, arith, ℤ, pos, pos_part, minus_one, ltb_ℤ, true, false,
  Bool-cases, Option-cases, not, ◌||◌, inl, inr, List, some, none, length, ◌==◌, ==_iff,
  if◌then◌else◌,
}
use libsbox.Crash.{Runs, returns, dies, bind-Runs, or_fail-Runs}
use libsbox.Container.Slave
use libsbox.Container.Slave.{Kernel, Handle, opened, write_cloexec}
use libsbox.Container.Slave.Redirect.{Keeps, StandardOpen, open-Keeps, open-above}
use libsbox.Cgroup.{
  CgroupController, Cgroups, IsLawful, Reason, cannot_open, cannot_write, cannot_close, tasks_file,
  delay_enter, enter, write_pid, close_enter_fd,
}

-- The kernel refused a call of that kind, or wrote a part only.
abbrev pub IsRefused : (K : Kernel) → Cgroups K → Reason → Type 0
IsRefused K C cannot_open =
    (s : K.State) × (path : List ℕ) × (K.open_file s path write_cloexec ≡ none)
IsRefused K C cannot_write =
    (s : K.State) × (fd : ℕ) × (text : List ℕ) × ((C.write s fd text).0 ≢ pos (length text))
IsRefused K C cannot_close = (s : K.State) × (fd : ℕ) × (K.close s fd ≡ none)
IsRefused K C _ = ⊥

sent_whole : (z : ℤ) (n : ℕ) → (ltb_ℤ z (pos 0) || not (pos_part z == n)) ≡ false → z ≡ pos n
sent_whole z n e = ground arith

not_short : (z : ℤ) (n : ℕ) → z ≡ pos n → (ltb_ℤ z (pos 0) || not (pos_part z == n)) ≡ true → ⊥
not_short z n e short = ground arith

module _ (K : Kernel) (lawful : Slave.IsLawful K) (C : Cgroups K) (entering : IsLawful K C) where
  -- The controller holds a new descriptor of the cgroup's file, and what was open is kept.
  pub record Delayed (s : K.State) (c : CgroupController) (r : CgroupController × K.State)
      : Type 0 where
    pub fd : ℕ
    pub held : r.0.enter_fd ≡ pos fd
    pub path : r.0.path ≡ c.path
    pub above : 3 ≤ fd
    pub fresh : K.table s fd ≡ none
    pub refers : K.table r.1 fd ≡ some (opened (tasks_file c.path) write_cloexec)
    pub keeps : Keeps K lawful s r.1

  pub delay_enter-Runs :
      (c : CgroupController) (s : K.State)
      → c.enter_fd ≡ minus_one
      → StandardOpen K lawful s
      → Runs (IsRefused K C) (Delayed s c) (delay_enter K C c s)
  unfolding delay_enter
  delay_enter-Runs c s unset std = rw unset (
      bind-Runs _ _
        (or_fail-Runs (IsRefused K C)
          (λ r. K.open_file s (tasks_file c.path) write_cloexec ≡ some r)
          (K.open_file s (tasks_file c.path) write_cloexec) cannot_open
          (λ e. (s, tasks_file c.path, e)) (λ r e. e))
        (λ r e.
          returns (record c { enter_fd = pos r.0 }, r.1) refl
            (record {
              fd = r.0;
              held = refl;
              path = refl;
              above = open-above K lawful s (tasks_file c.path) write_cloexec r.0 r.1 std e;
              fresh = lawful.open-fresh s (tasks_file c.path) write_cloexec r.0 r.1 e;
              refers =
                  lawful.open-table s (tasks_file c.path) write_cloexec r.0 r.1 e r.0
                  ∙ rw ((==_iff r.0 r.0).1 refl) refl;
              keeps = open-Keeps K lawful s (tasks_file c.path) write_cloexec r.0 r.1 e;
            })))

  -- The process is in the cgroup, the descriptor is closed, and no other is.
  pub record Entered (s : K.State) (fd : ℕ) (path : List ℕ) (t : K.State) : Type 0 where
    pub inside : C.inside t path ≡ true
    pub others :
        (other : List ℕ)
        → C.hierarchy other ≢ C.hierarchy path
        → C.inside t other ≡ C.inside s other
    pub table : (n : ℕ) → K.table t n ≡ (if n == fd then none else K.table s n)

  pub enter-Runs :
      (pid : List ℕ) (c : CgroupController) (s : K.State) (fd : ℕ)
      → c.enter_fd ≡ pos fd
      → K.table s fd ≡ some (opened (tasks_file c.path) write_cloexec)
      → Runs (IsRefused K C) (λ r. Entered s fd (tasks_file c.path) r.1) (enter K C pid c s)
  unfolding enter write_pid close_enter_fd
  enter-Runs pid c s fd held refers =
      elim (Bool-cases
        (ltb_ℤ (C.write s fd pid).0 (pos 0) || not (pos_part (C.write s fd pid).0 == length pid))) [
          | inl short ↦
              dies cannot_write (rw (held, short) refl)
                (s, fd, pid, λ whole. not_short (C.write s fd pid).0 (length pid) whole short)
          | inr whole ↦
              let t = (C.write s fd pid).1 in
              elim (Option-cases (K.close t fd)) [
                | inl e ↦ dies cannot_close (rw (held, whole, e) refl) (t, fd, e)
                | inr (u, e) ↦
                    returns (record c { enter_fd = minus_one }, u) (rw (held, whole, e) refl)
                      (record {
                        inside =
                            entering.close-inside t fd u e (tasks_file c.path)
                            ∙ entering.write-inside s fd (tasks_file c.path) pid refers
                                (sent_whole (C.write s fd pid).0 (length pid) whole);
                        others = λ other apart.
                            entering.close-inside t fd u e other
                            ∙ entering.write-outside s fd (tasks_file c.path) other pid refers
                                apart;
                        table = λ n.
                            lawful.close-table t fd u e n
                            ∙ ap (λ h. if n == fd then none else h)
                                (entering.write-table s fd pid n);
                      })
              ]
        ]
