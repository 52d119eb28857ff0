-- ===== src/Daemon/Quiet.antt =====
-- The parts of the daemon's start in src/daemon.cpp that change no file: signals, streams and cgroups.
use libsbox.Base.{
  ℕ, ◌≡◌, refl, ◌∙◌, Bool, true, false, Bool-cases, inl, inr, Option, none, some, List, Result, ok,
  err, ◌==◌,
}
use libsbox.Container.Slave.{Mode, read_only, write_only}
use libsbox.Signals
use libsbox.Signals.{Signals, prepare_signals}
use libsbox.Crash.{Crash}
use libsbox.Cgroup
use libsbox.Cgroup.Files as CgroupFiles
use libsbox.Daemon.{
  Machine, Reason, State, Action, null_path, and_then, check, stored, kernel_set, take_signals,
  signals_set, close_fd, null_opened, open_null, null_streams, group_made, init_group,
  pid_file_exists, cannot_close_std, cannot_open_null, on_signals, on_cgroup,
}
use libsbox.Daemon.Triple.{Post, succeeds, ends, bind-Post}

module _ (M : Machine) where
  -- Files, workers and the path of the socket are as they were.
  pub record Same (s t : State M) : Type 0 where
    pub files : t.files ≡ s.files
    pub workers : t.workers ≡ s.workers
    pub signalled : t.signalled ≡ s.signalled
    pub socket_path : t.socket_path ≡ s.socket_path

  pub Same-refl : (s : State M) → Same s s
  Same-refl s = record { files = refl; workers = refl; signalled = refl; socket_path = refl }

  pub Same-trans : {s t u : State M} → Same s t → Same t u → Same s u
  Same-trans p q = record {
    files = q.files ∙ p.files;
    workers = q.workers ∙ p.workers;
    signalled = q.signalled ∙ p.signalled;
    socket_path = q.socket_path ∙ p.socket_path;
  }

  -- The file is not touched where its creation was refused; any other end is by _die.
  abbrev pub End : State M → Reason → State M → Type 0
  End s pid_file_exists t = t.files ≡ s.files
  End s _ t = Unit

  -- Two parts, of which neither changes more than descriptors and signals.
  pub quiet :
      {A B : Type 0} (s u : State M) (r : Result Reason A × State M) (f : A → Action M B)
      → Post M (End s) (λ a t. Same u t) r
      → ((a : A) (t : State M) → Post M (End s) (λ b v. Same t v) (f a t))
      → Post M (End s) (λ b v. Same u v) (and_then M f r)
  quiet s u r f h k = bind-Post M r f h λ a t same. elim (k a t) [
    | succeeds b v e later ↦ succeeds b v e (Same-trans same later)
    | ends why v e x ↦ ends why v e x
  ]

  pub quiet_check :
      (s t : State M) (b : Bool) (why : Reason)
      → End s why t
      → Post M {A = Unit {0}} (End s) (λ u v. Same t v) (check M b why t)
  quiet_check s t true why x = succeeds tt t refl (Same-refl t)
  quiet_check s t false why x = ends why t refl x

  close-quiet :
      (s t : State M) (fd : ℕ) → Post M {A = Unit {0}} (End s) (λ u v. Same t v) (close_fd M fd t)
  close-quiet s t fd = go (M.kernel.close t.kernel fd)
    where
      go :
          (o : Option M.kernel.State)
          → Post M {A = Unit {0}}
              (End s)
              (λ u v. Same t v)
              (stored M (kernel_set M t o) cannot_close_std t)
      go none = ends cannot_close_std t refl tt
      go (some k) =
          succeeds tt (record t { kernel = k }) refl
            (record { files = refl; workers = refl; signalled = refl; socket_path = refl })

  open-quiet :
      (s t : State M) (fd : ℕ) (mode : Mode)
      → Post M {A = Unit {0}} (End s) (λ u v. Same t v) (open_null M fd mode t)
  open-quiet s t fd mode = go (M.kernel.open_file t.kernel null_path mode)
    where
      go :
          (o : Option (ℕ × M.kernel.State))
          → Post M {A = Unit {0}} (End s) (λ u v. Same t v) (null_opened M fd t o)
      go none = ends cannot_open_null t refl tt
      go (some (n, k)) = elim (Bool-cases (n == fd)) [
        | inl here ↦
            succeeds tt (record t { kernel = k }) (rw here refl)
              (record { files = refl; workers = refl; signalled = refl; socket_path = refl })
        | inr other ↦ ends cannot_open_null (record t { kernel = k }) (rw other refl) tt
      ]

  pub signals-quiet :
      (s t : State M) → Post M {A = Unit {0}} (End s) (λ u v. Same t v) (take_signals M t)
  unfolding take_signals
  signals-quiet s t = go (prepare_signals M.signals t.signals)
    where
      go :
          (r : Result Signals.Reason (Signals M.signals))
          → Post M {A = Unit {0}} (End s) (λ u v. Same t v) (signals_set M t r)
      go (ok g) =
          succeeds tt (record t { signals = g }) refl
            (record { files = refl; workers = refl; signalled = refl; socket_path = refl })
      go (err why) = ends (on_signals why) t refl tt

  pub group-quiet :
      (s t : State M) (root name : List ℕ)
      → Post M {A = Unit {0}} (End s) (λ u v. Same t v) (init_group M root name t)
  unfolding init_group
  group-quiet s t root name = go (CgroupFiles.init M.kernel M.groups root name t.kernel)
    where
      go :
          (r : Result (Crash Cgroup.Reason) M.kernel.State)
          → Post M {A = Unit {0}} (End s) (λ u v. Same t v) (group_made M t r)
      go (ok k) =
          succeeds tt (record t { kernel = k }) refl
            (record { files = refl; workers = refl; signalled = refl; socket_path = refl })
      go (err why) = ends (on_cgroup why) t refl tt

  pub streams-quiet :
      (s t : State M) → Post M {A = Unit {0}} (End s) (λ u v. Same t v) (null_streams M t)
  unfolding null_streams
  streams-quiet s t = quiet s t _ _ (close-quiet s t 0) λ a1 t1.
      quiet s t1 _ _ (close-quiet s t1 1) λ a2 t2. quiet s t2 _ _ (close-quiet s t2 2) λ a3 t3.
        quiet s t3 _ _ (open-quiet s t3 0 read_only) λ a4 t4.
          quiet s t4 _ _ (open-quiet s t4 1 write_only) λ a5 t5. open-quiet s t5 2 write_only
