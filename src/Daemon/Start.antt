-- ===== src/Daemon/Start.antt =====
-- Daemon::prepare of src/daemon.cpp: the pid file is made, and the socket's path is set.
use mathlib.Core.Option.{some-injective}
use libsbox.Base.{
  ℕ, ◌≡◌, refl, ap, ◌∙◌, subst, Bool, true, false, List, [], Option, none, some, take, text_eq,
  if◌then◌else◌, Result,
}
use libsbox.Config.{Config}
use libsbox.Daemon.{
  Machine, Calls, Reason, State, pid_path, sun_path_max, files_set, become_root, write_pid_file,
  open_socket, prepare, not_root, pid_file_exists, cannot_write_pid, no_socket,
}
use libsbox.Daemon.Triple.{Post, succeeds, ends, bind-Post, stored-Post}
use libsbox.Daemon.Quiet.{Same, End, quiet, quiet_check, signals-quiet, streams-quiet, group-quiet}
use libsbox.Daemon.Files.{IsLawful}

module _ (M : Machine) (lawful : IsLawful M.files) where
  -- The pid file is there, and there is no worker yet.
  pub record Owned (t : State M) : Type 0 where
    pub pid_file : M.files.exists t.files pid_path ≡ true
    pub workers : t.workers ≡ []
    pub signalled : t.signalled ≡ []

  Owned-Same : (s t : State M) → Owned s → Same M s t → Owned t
  Owned-Same s t o same = record {
    pid_file = ap (λ f. M.files.exists f pid_path) same.files ∙ o.pid_file;
    workers = same.workers ∙ o.workers;
    signalled = same.signalled ∙ o.signalled;
  }

  -- A quiet part of the start.
  Owned-quiet :
      {A : Type 0} (s t : State M) (r : Result Reason A × State M)
      → Owned t
      → Post M (End M s) (λ a v. Same M t v) r
      → Post M (End M s) (λ a v. Owned v) r
  Owned-quiet s t r o (succeeds a v e same) = succeeds a v e (Owned-Same t v o same)
  Owned-quiet s t r o (ends why v e x) = ends why v e x

  stays : (b old : Bool) → old ≡ true → (if b then true else old) ≡ true
  stays true old e = refl
  stays false old e = e

  files_set-some :
      (s t : State M) (o : Option M.files.State)
      → files_set M s o ≡ some t
      → (f : M.files.State) × (o ≡ some f) × (record s { files = f } ≡ t)
  files_set-some s t none e = cc
  files_set-some s t (some f) e = (f, refl, some-injective _ _ e)

  become_root-Post :
      (c : Calls) (s : State M)
      → Post M {A = Unit {0}} (End M s) (λ u t. Same M s t) (become_root M c s)
  unfolding become_root
  become_root-Post c s =
      quiet M s s _ _ (quiet_check M s s c.user_set not_root tt)
        λ a t. quiet_check M s t c.group_set not_root tt

  write_pid_file-Owned :
      (c : Calls) (s t : State M)
      → Same M s t
      → s.workers ≡ []
      → s.signalled ≡ []
      → Post M {A = Unit {0}} (End M s) (λ u v. Owned v) (write_pid_file M c t)
  unfolding write_pid_file
  write_pid_file-Owned c s t same no_workers none_signalled =
      bind-Post M _ _
        (stored-Post M (End M s) (files_set M t (M.files.create_exclusive t.files pid_path))
          pid_file_exists t (λ e. same.files))
        λ a t1 made.
          let (f, created, is_t1) = files_set-some t t1 _ made in
          let owned : Owned t1 = subst Owned is_t1 (record {
            pid_file = lawful.create-exists t.files pid_path f created pid_path;
            workers = same.workers ∙ no_workers;
            signalled = same.signalled ∙ none_signalled;
          }) in
          Owned-quiet s t1 _ owned (
            quiet M s t1 _ _ (quiet_check M s t1 c.pid_written cannot_write_pid tt)
              λ a' t2. quiet_check M s t2 c.pid_closed cannot_write_pid tt)

  -- The path is set, and nothing else of the state than it is asked for changes.
  pub record Ready (path : List ℕ) (t : State M) : Type 0 where
    pub owned : Owned t
    pub socket_path : t.socket_path ≡ path

  Ready-Same : (path : List ℕ) (s t : State M) → Ready path s → Same M s t → Ready path t
  Ready-Same path s t r same = record {
    owned = Owned-Same s t r.owned same;
    socket_path = same.socket_path ∙ r.socket_path;
  }

  Ready-quiet :
      {A : Type 0} (path : List ℕ) (s t : State M) (r : Result Reason A × State M)
      → Ready path t
      → Post M (End M s) (λ a v. Same M t v) r
      → Post M (End M s) (λ a v. Ready path v) r
  Ready-quiet path s t r o (succeeds a v e same) = succeeds a v e (Ready-Same path t v o same)
  Ready-quiet path s t r o (ends why v e x) = ends why v e x

  open_socket-Ready :
      (c : Calls) (path : List ℕ) (s t : State M)
      → text_eq pid_path path ≡ false
      → Ready path t
      → Post M {A = Unit {0}} (End M s) (λ u v. Ready path v) (open_socket M c path t)
  unfolding open_socket
  open_socket-Ready c path s t other ready =
      let f0 = (M.files.unlink t.files path).1 in
      let t0 : State M = record t { files = f0 } in
      let ready0 : Ready path t0 = record {
        owned = record {
          pid_file = lawful.unlink-other t.files path pid_path other ∙ ready.owned.pid_file;
          workers = ready.owned.workers;
          signalled = ready.owned.signalled;
        };
        socket_path = ready.socket_path;
      } in
      bind-Post M _ _
        (Ready-quiet path s t0 _ ready0 (quiet_check M s t0 c.socket_made no_socket tt))
        λ a t1 ready1.
          bind-Post M _ _
            (stored-Post M (End M s)
              (files_set M t1 (M.files.bind t1.files (take sun_path_max path))) no_socket t1
              (λ e. tt))
            λ a' t2 made.
              let (f, bound, is_t2) = files_set-some t1 t2 _ made in
              let ready2 : Ready path t2 = subst (Ready path) is_t2 (record {
                owned = record {
                  pid_file =
                      lawful.bind-exists t1.files _ f bound pid_path
                      ∙ stays (text_eq pid_path (take sun_path_max path)) _ ready1.owned.pid_file;
                  workers = ready1.owned.workers;
                  signalled = ready1.owned.signalled;
                };
                socket_path = ready1.socket_path;
              }) in
              Ready-quiet path s t2 _ ready2 (quiet_check M s t2 c.listening no_socket tt)

  pub prepare-Ready :
      (c : Calls) (config : Config) (s : State M)
      → text_eq pid_path config.socket_path ≡ false
      → s.workers ≡ []
      → s.signalled ≡ []
      → Post M {A = Unit {0}} (End M s) (λ u t. Ready config.socket_path t) (prepare M c config s)
  unfolding prepare
  prepare-Ready c config s other no_workers none_signalled =
      bind-Post M _ _ (become_root-Post c s) λ a1 t1 same.
        bind-Post M _ _ (write_pid_file-Owned c s t1 same no_workers none_signalled) λ a2 t2 o2.
          bind-Post M _ _ (Owned-quiet s t2 _ o2 (signals-quiet M s t2)) λ a3 t3 o3.
            bind-Post M _ _ (Owned-quiet s t3 _ o3 (streams-quiet M s t3)) λ a4 t4 o4.
              bind-Post M _ _ (Owned-quiet s t4 _ o4 (group-quiet M s t4 _ _)) λ a5 t5 o5.
                bind-Post M _ _ (Owned-quiet s t5 _ o5 (group-quiet M s t5 _ _)) λ a6 t6 o6.
                  bind-Post M _ _
                    (open_socket-Ready c config.socket_path s
                      (record t6 { socket_path = config.socket_path }) other
                      (record {
                        owned = record {
                          pid_file = o6.pid_file;
                          workers = o6.workers;
                          signalled = o6.signalled;
                        };
                        socket_path = refl;
                      }))
                    λ a7 t7 ready. succeeds tt _ refl (record {
                      owned = record {
                        pid_file = ready.owned.pid_file;
                        workers = ready.owned.workers;
                        signalled = ready.owned.signalled;
                      };
                      socket_path = ready.socket_path;
                    })
