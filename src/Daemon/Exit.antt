-- ===== src/Daemon/Exit.antt =====
-- Daemon::run of src/daemon.cpp, from its start to its exit.
use libsbox.Base.{
  ℕ, zero, suc, ◌+◌, ◌≡◌, ◌⊎◌, inl, inr, refl, sym, ap, ◌∙◌, subst, arith, true, false, List, [],
  ◌∷◌, ◌++◌, append_assoc, append-nil, length, length-append, Option, none, some, text_eq, Result,
  err,
}
use libsbox.Config.{Config}
use libsbox.Container.WaitForSlave.{SlaveStatus}
use libsbox.Daemon.{
  Machine, Calls, Reason, State, pid_path, add_worker, spawn, wait_for_end, kill_workers,
  ended_well, check_worker, wait_workers, stop, body, die, exit_with, run, pid_file_exists,
  cannot_start, cannot_wait, cannot_remove_socket, cannot_kill, worker_ended,
}
use libsbox.Daemon.Triple.{Post, succeeds, ends, bind-Post, check-Post}
use libsbox.Daemon.Quiet.{End}
use libsbox.Daemon.Files.{IsLawful, Removed, die-Removed}
use libsbox.Daemon.Start.{prepare-Ready}

module _ (M : Machine) (lawful : IsLawful M.files) where
  -- While the daemon runs: its files, and how many workers there are.
  pub record Runs (path : List ℕ) (n : ℕ) (t : State M) : Type 0 where
    pub pid_file : M.files.exists t.files pid_path ≡ true
    pub socket_path : t.socket_path ≡ path
    pub count : length t.workers ≡ n
    pub signalled : t.signalled ≡ []

  spawn-Runs :
      (c : Calls) (path : List ℕ) (s : State M) (n i k : ℕ) (t : State M)
      → Runs path k t
      → Post M {A = Unit {0}} (End M s) (λ u v. Runs path (k + n) v) (spawn M c n i t)
  unfolding spawn
  spawn-Runs c path s zero i k t r = succeeds tt t refl (subst (λ m. Runs path m t) (omega arith) r)
  spawn-Runs c path s (suc n) i k t r = bind-Post M _ _ (added (c.started i)) λ a u r'.
      subst (λ m. Post M {A = Unit {0}} (End M s) (λ u v. Runs path m v) (spawn M c n (i + 1) u))
        (omega arith) (spawn-Runs c path s n (i + 1) (k + 1) u r')
    where
      added :
          (o : Option ℕ)
          → Post M {A = Unit {0}} (End M s) (λ u v. Runs path (k + 1) v) (add_worker M o t)
      added none = ends cannot_start t refl tt
      added (some pid) =
          succeeds tt (record t { workers = t.workers ++ (pid ∷ []) }) refl
            (record {
              pid_file = r.pid_file;
              socket_path = r.socket_path;
              count = length-append t.workers (pid ∷ []) ∙ ap (λ m. m + 1) r.count;
              signalled = r.signalled;
            })

  -- The workers get their SIGTERM one after the other, in the order in which they were started.
  abbrev Killed : State M → List ℕ → State M → Type 0
  Killed t pids v = v ≡ record t { signalled = t.signalled ++ pids }

  kill_workers-Killed :
      (c : Calls) (s : State M) (pids : List ℕ) (t : State M)
      → Post M {A = Unit {0}} (End M s) (λ u v. Killed t pids v) (kill_workers M c pids t)
  unfolding kill_workers
  kill_workers-Killed c s [] t =
      succeeds tt t refl (ap (λ l. record t { signalled = l }) (sym (append-nil t.signalled)))
  kill_workers-Killed c s (pid ∷ rest) t =
      bind-Post M _ _ (check-Post M (End M s) (c.killed pid) cannot_kill t tt) λ a u (same, sent).
        elim (kill_workers-Killed c s rest (record u { signalled = u.signalled ++ (pid ∷ []) })) [
          | ends why v e x ↦ ends why v e x
          | succeeds b v e killed ↦ succeeds b v e (
              killed
              ∙ ap (λ (k : State M). record k { signalled = (k.signalled ++ (pid ∷ [])) ++ rest })
                  same
              ∙ ap (λ l. record t { signalled = l }) (append_assoc t.signalled (pid ∷ []) rest))
        ]

  -- Each of the calls of wait from `i` on reports a worker that exited with 0.
  abbrev pub AllWell : Calls → ℕ → ℕ → Type 0
  AllWell c zero i = Unit
  AllWell c (suc n) i =
      ((status : SlaveStatus) × (c.waited i ≡ some status) × (ended_well M status ≡ true))
      × AllWell c n (i + 1)

  wait_workers-AllWell :
      (c : Calls) (s : State M) (n i : ℕ) (t : State M)
      → Post M {A = Unit {0}} (End M s) (λ u v. (v ≡ t) × AllWell c n i) (wait_workers M c n i t)
  unfolding wait_workers
  wait_workers-AllWell c s zero i t = succeeds tt t refl (refl, tt)
  wait_workers-AllWell c s (suc n) i t = bind-Post M _ _ (one (c.waited i) refl) λ a u (same, well).
      elim (wait_workers-AllWell c s n (i + 1) u) [
        | ends why v e x ↦ ends why v e x
        | succeeds b v e (kept, rest) ↦ succeeds b v e (kept ∙ same, (well, rest))
      ]
    where
      one :
          (o : Option SlaveStatus)
          → c.waited i ≡ o
          → Post M {A = Unit {0}}
              (End M s)
              (λ u v.
                (v ≡ t)
                × ((status : SlaveStatus) × (c.waited i ≡ some status)
                    × (ended_well M status ≡ true)))
              (check_worker M o t)
      one none e = ends cannot_wait t refl tt
      one (some status) e =
          elim (check-Post M (End M s) (ended_well M status) (worker_ended status) t tt) [
            | ends why v e' x ↦ ends why v e' x
            | succeeds b v e' (same, well) ↦ succeeds b v e' (same, (status, e, well))
          ]

  -- What a daemon that was told to stop leaves.
  pub record Stopped (c : Calls) (path : List ℕ) (n : ℕ) (t : State M) : Type 0 where
    pub pid_file : M.files.exists t.files pid_path ≡ true
    pub no_socket : M.files.exists t.files path ≡ false
    pub count : length t.workers ≡ n
    pub signalled : t.signalled ≡ t.workers
    pub well : AllWell c n 0

  stop-Stopped :
      (c : Calls) (path : List ℕ) (n : ℕ) (s t : State M)
      → text_eq pid_path path ≡ false
      → Runs path n t
      → Post M {A = Unit {0}} (End M s) (λ u v. Stopped c path n v) (stop M c t)
  unfolding stop
  stop-Stopped c path n s t other r =
      let t0 : State M = record t { files = (M.files.unlink t.files t.socket_path).1 } in
      let kept : M.files.exists t0.files pid_path ≡ true =
        lawful.unlink-other t.files t.socket_path pid_path
          (subst (λ p. text_eq pid_path p ≡ false) (sym r.socket_path) other)
        ∙ r.pid_file in
      bind-Post M _ _ (check-Post M (End M s) _ cannot_remove_socket t0 tt)
        λ a1 t1 (same1, unlinked).
          bind-Post M _ _ (check-Post M (End M s) c.socket_closed cannot_remove_socket t1 tt)
            λ a2 t2 (same2, _).
              bind-Post M _ _ (kill_workers-Killed c s t2.workers t2) λ a3 t3 killed.
                elim (wait_workers-AllWell c s (length t3.workers) 0 t3) [
                  | ends why v e x ↦ ends why v e x
                  | succeeds b v e (same4, well) ↦
                      let same : t2 ≡ t0 = same2 ∙ same1 in
                      let last : v ≡ record t0 { signalled = t0.signalled ++ t0.workers } =
                        same4
                        ∙ killed
                        ∙ ap (λ (k : State M). record k { signalled = k.signalled ++ k.workers })
                            same in
                      let count : length t3.workers ≡ n =
                        ap (λ (k : State M). length k.workers) (sym same4 ∙ last) ∙ r.count in
                      succeeds b v e (
                        subst (Stopped c path n) (sym last) (record {
                          pid_file = kept;
                          no_socket =
                              subst (λ p. M.files.exists t0.files p ≡ false) r.socket_path
                                (lawful.unlink-gone t.files t.socket_path unlinked);
                          count = r.count;
                          signalled = ap (λ l. l ++ t.workers) r.signalled;
                          well = subst (λ m. AllWell c m 0) count well;
                        }))
                ]

  -- How a run ends: nothing is touched, or _die removed both files, or the daemon was stopped.
  abbrev pub Exits : Calls → Config → State M → ℕ × State M → Type 0
  Exits c config s r =
      ((r.0 ≡ 1) × (r.1.files ≡ s.files))
      ⊎ ((r.0 ≡ 1) × Removed M lawful r.1 pid_path × Removed M lawful r.1 r.1.socket_path)
      ⊎ (r.0 ≡ 0)
        × (c.first_wait ≡ none)
        × (c.terminated ≡ true)
        × Stopped c config.socket_path config.num_boxes r.1

  exit_with-Exits :
      (c : Calls) (config : Config) (s t : State M) (why : Reason)
      → End M s why t
      → Exits c config s (exit_with M (err why, t))
  unfolding die
  exit_with-Exits c config s t pid_file_exists x = inl (refl, x)
  exit_with-Exits c config s t _ x =
      let (no_pid, no_socket) = die-Removed M lawful t in inr (inl (refl, no_pid, no_socket))

  wait_for_end-Post :
      (c : Calls) (s t : State M)
      → Post M {A = Unit {0}}
          (End M s)
          (λ u v. (v ≡ t) × (c.first_wait ≡ none) × (c.terminated ≡ true))
          (wait_for_end M c.first_wait c.terminated t)
  wait_for_end-Post c s t = go c.first_wait refl
    where
      go :
          (o : Option SlaveStatus)
          → c.first_wait ≡ o
          → Post M {A = Unit {0}}
              (End M s)
              (λ u v. (v ≡ t) × (c.first_wait ≡ none) × (c.terminated ≡ true))
              (wait_for_end M o c.terminated t)
      go none e = elim (check-Post M (End M s) c.terminated cannot_wait t tt) [
        | ends why v e' x ↦ ends why v e' x
        | succeeds b v e' (same, ended) ↦ succeeds b v e' (same, e, ended)
      ]
      go (some status) e = ends (worker_ended status) t refl tt

  -- A daemon that was just started, with a socket path other than that of the pid file, exits in
  -- one of three ways: with 1 and no file touched; with 1 and neither the pid file nor a file at the
  -- socket path that is set by then left, unless one is there and unlink(2) fails for it, which _die
  -- does not test; or with 0, and then no worker had ended before it was told to stop, no file is at the
  -- configured socket path,
  -- the pid file is still there, every worker got SIGTERM in the order of their start, and as many
  -- calls of wait reported a worker that exited with 0.
  pub run-Exits :
      (c : Calls) (config : Config) (s : State M)
      → text_eq pid_path config.socket_path ≡ false
      → s.workers ≡ []
      → s.signalled ≡ []
      → Exits c config s (run M c config s)
  unfolding run body
  run-Exits c config s other no_workers none_signalled = by_end _ (
      bind-Post M _ _ (prepare-Ready M lawful c config s other no_workers none_signalled)
        λ a1 t1 ready.
          bind-Post M _ _
            (spawn-Runs c config.socket_path s config.num_boxes 0 0 t1 (record {
              pid_file = ready.owned.pid_file;
              socket_path = ready.socket_path;
              count = ap length ready.owned.workers;
              signalled = ready.owned.signalled;
            }))
            λ a2 t2 runs. bind-Post M _ _ (wait_for_end-Post c s t2) λ a3 t3 (same, idle, told).
              elim (stop-Stopped c config.socket_path config.num_boxes s t3 other (
                subst (Runs config.socket_path config.num_boxes) (sym same)
                  (subst (λ n. Runs config.socket_path n t2) (omega arith) runs))) [
                    | ends why v e x ↦ ends why v e x
                    | succeeds b v e stopped ↦ succeeds b v e (idle, told, stopped)
                  ])
    where
      by_end :
          (r : Result Reason (Unit {0}) × State M)
          → Post M
              (End M s)
              (λ u v.
                (c.first_wait ≡ none)
                × (c.terminated ≡ true)
                × Stopped c config.socket_path config.num_boxes v)
              r
          → Exits c config s (exit_with M r)
      by_end r (succeeds u v e (idle, told, stopped)) =
          subst (λ k. Exits c config s (exit_with M k)) (sym e)
            (inr (inr (refl, idle, told, stopped)))
      by_end r (ends why v e x) =
          subst (λ k. Exits c config s (exit_with M k)) (sym e) (exit_with-Exits c config s v why x)
