-- ===== src/Container/Slave/Redirect.antt =====
-- The standard streams of the task, after open_files and dup2_fds of src/container.cpp.
use libsbox.Base.{
  ℕ, ◌≤◌, ◌≡◌, ◌⊎◌, inl, inr, refl, ap, ◌∙◌, arith, ℤ, pos, true, false, List, none, some, ◌==◌,
  ==_iff, ltb, ltb→lt, Result, ok, ◌>>=◌, Bool-cases,
}
use libsbox.Memory.{c_string}
use libsbox.Crash.{Crash, Runs, returns, dies, bind-Runs, or_fail-Runs}
use libsbox.PlainString
use libsbox.Container.TaskData.{IoStream}
use libsbox.Container.Slave.{
  Mode, read_only, write_truncate, Handle, opened, Kernel, IsLawful, IsRefused, Reason, cannot_open,
  cannot_dup2, Streams, open_stream, open_files, dup2_stream, dup2_fds,
}

module _ (K : Kernel) (lawful : IsLawful K) where
  open K use {State, table}

  -- The stream is to be a file of that path, or an inherited descriptor above the standard ones.
  abbrev pub Wants : State → IoStream → Mode → Handle → Type 0
  Wants s desc mode h =
      ((path : List ℕ) × (PlainString.is_empty desc.filename ≡ false)
        × (c_string desc.filename.cells ≡ ok path)
        × (h ≡ opened path mode))
      ⊎ ((fd : ℕ) × (PlainString.is_empty desc.filename ≡ true)
          × (desc.fd ≡ pos fd)
          × (3 ≤ fd)
          × (table s fd ≡ some h))

  -- Descriptors that are open stay what they are.
  abbrev pub Keeps : State → State → Type 0
  Keeps s t = (n : ℕ) (h : Handle) → table s n ≡ some h → table t n ≡ some h

  abbrev pub StandardOpen : State → Type 0
  StandardOpen s = (n : ℕ) → n ≤ 2 → (h : Handle) × (table s n ≡ some h)

  -- The stream's descriptor is above the standard ones, and refers to the handle.
  abbrev pub Refers : State → IoStream → Handle → Type 0
  Refers s desc h = (fd : ℕ) × (desc.fd ≡ pos fd) × (3 ≤ fd) × (table s fd ≡ some h)

  pub open-Keeps :
      (s : State) (path : List ℕ) (mode : Mode) (fd : ℕ) (t : State)
      → K.open_file s path mode ≡ some (fd, t)
      → Keeps s t
  open-Keeps s path mode fd t e n h at = elim (Bool-cases (n == fd)) [
    | inl same ↦
        let free : table s n ≡ none =
          ap (table s) ((==_iff _ _).0 same) ∙ lawful.open-fresh s path mode fd t e in
        cc
    | inr other ↦ lawful.open-table s path mode fd t e n ∙ rw other at
  ]

  pub open-above :
      (s : State) (path : List ℕ) (mode : Mode) (fd : ℕ) (t : State)
      → StandardOpen s
      → K.open_file s path mode ≡ some (fd, t)
      → 3 ≤ fd
  open-above s path mode fd t std e = elim (Bool-cases (ltb fd 3)) [
    | inl low ↦
        let (h, at) = std fd (omega (arith, ltb→lt fd 3 low)) in
        let free = lawful.open-fresh s path mode fd t e in cc
    | inr high ↦ ground arith
  ]

  open_stream-Runs :
      (s : State) (desc : IoStream) (mode : Mode) (h : Handle)
      → StandardOpen s
      → Wants s desc mode h
      → Runs (IsRefused K) (λ r. Refers r.1 r.0 h × Keeps s r.1) (open_stream K s desc mode)
  unfolding open_stream
  open_stream-Runs s desc mode h std (inl (path, named, text, same)) =
      rw (named, text)
        (bind-Runs _ _
          (or_fail-Runs (IsRefused K) (λ r. K.open_file s path mode ≡ some r)
            (K.open_file s path mode) cannot_open (λ e. (s, path, mode, e)) (λ r e. e))
          (λ r e.
            returns (record desc { fd = pos r.0 }, r.1) refl
              (
                (
                  r.0,
                  refl,
                  open-above s path mode r.0 r.1 std e,
                  lawful.open-table s path mode r.0 r.1 e r.0
                      ∙ rw (same, (==_iff r.0 r.0).1 refl) refl,
                ),
                open-Keeps s path mode r.0 r.1 e,
              )))
  open_stream-Runs s desc mode h std (inr (fd, empty, at, above, refers)) =
      rw empty (returns (desc, s) refl ((fd, at, above, refers), λ n x e. e))

  pub Wants-mono :
      (s t : State) (desc : IoStream) (mode : Mode) (h : Handle)
      → Keeps s t
      → Wants s desc mode h
      → Wants t desc mode h
  Wants-mono s t desc mode h k (inl w) = inl w
  Wants-mono s t desc mode h k (inr (fd, empty, at, above, refers)) =
      inr (fd, empty, at, above, k fd h refers)

  Refers-mono :
      (s t : State) (desc : IoStream) (h : Handle) → Keeps s t → Refers s desc h → Refers t desc h
  Refers-mono s t desc h k (fd, at, above, refers) = (fd, at, above, k fd h refers)

  pub StandardOpen-mono : (s t : State) → Keeps s t → StandardOpen s → StandardOpen t
  StandardOpen-mono s t k std n low = let (h, e) = std n low in (h, k n h e)

  -- The standard error is a stream of its own, or is to share the standard output.
  abbrev pub WantsErrors : State → IoStream → (output errors : Handle) → Type 0
  WantsErrors s desc output errors =
      Wants s desc write_truncate errors
      ⊎ (PlainString.is_empty desc.filename ≡ true) × (desc.fd ≡ pos 1) × (errors ≡ output)

  RefersErrors : State → IoStream → Handle → Handle → Type 0
  RefersErrors s desc output errors = Refers s desc errors ⊎ (desc.fd ≡ pos 1) × (errors ≡ output)

  open_errors-Runs :
      (s : State) (desc : IoStream) (output errors : Handle)
      → StandardOpen s
      → WantsErrors s desc output errors
      → Runs
          (IsRefused K)
          (λ r. RefersErrors r.1 r.0 output errors × Keeps s r.1)
          (open_stream K s desc write_truncate)
  unfolding open_stream RefersErrors
  open_errors-Runs s desc output errors std (inl w) =
      elim (open_stream-Runs s desc write_truncate errors std w) [
        | returns r ran h ↦ returns r ran (inl h.0, h.1)
        | dies why ran x ↦ dies why ran x
      ]
  open_errors-Runs s desc output errors std (inr (empty, at, same)) =
      rw empty (returns (desc, s) refl (inr (at, same), λ n x e. e))

  -- One descriptor is replaced, and no other changes.
  dup2_stream-Runs :
      (s : State) (fd : ℤ) (old target : ℕ) (h : Handle)
      → fd ≡ pos old
      → table s old ≡ some h
      → Runs
          (IsRefused K)
          (λ t.
            (table t target ≡ some h) × ((n : ℕ) → (n == target) ≡ false → table t n ≡ table s n))
          (dup2_stream K s fd target)
  unfolding dup2_stream
  dup2_stream-Runs s fd old target h at refers = rw at (
      or_fail-Runs (IsRefused K) _ (K.dup2 s old target) cannot_dup2 (λ e. (s, old, target, e))
        (λ t e. (
          lawful.dup2-table s old target t e target ∙ rw ((==_iff target target).1 refl) refers,
          λ n other. lawful.dup2-table s old target t e n ∙ rw other refl,
        )))

  abbrev pub Redirected : State → Handle → Handle → Handle → Type 0
  Redirected t input output errors =
      (table t 0 ≡ some input) × (table t 1 ≡ some output) × (table t 2 ≡ some errors)

  above_ne : (fd target : ℕ) → 3 ≤ fd → target ≤ 2 → (fd == target) ≡ false
  above_ne fd target h k = ground arith

  dup2_fds-Runs :
      (s : State) (d : Streams K) (input output errors : Handle)
      → Refers s d.input input
      → Refers s d.output output
      → RefersErrors s d.errors output errors
      → Runs (IsRefused K) (λ t. Redirected t input output errors) (dup2_fds K s d)
  unfolding dup2_fds RefersErrors
  dup2_fds-Runs s d input output errors (fd0, at0, above0, r0) (fd1, at1, above1, r1) e =
      bind-Runs _ _ (dup2_stream-Runs s d.input.fd fd0 0 input at0 r0) λ s1 (zero1, rest1).
        bind-Runs _ _
          (dup2_stream-Runs s1 d.output.fd fd1 1 output at1
            (rest1 fd1 (above_ne fd1 0 above1 (omega arith)) ∙ r1))
          λ s2 (one2, rest2). last s1 s2 zero1 rest1 one2 rest2 e
    where
      last :
          (s1 s2 : State)
          → table s1 0 ≡ some input
          → ((n : ℕ) → (n == 0) ≡ false → table s1 n ≡ table s n)
          → table s2 1 ≡ some output
          → ((n : ℕ) → (n == 1) ≡ false → table s2 n ≡ table s1 n)
          → Refers s d.errors errors ⊎ (d.errors.fd ≡ pos 1) × (errors ≡ output)
          → Runs
              (IsRefused K)
              (λ t. Redirected t input output errors)
              (dup2_stream K s2 d.errors.fd 2)
      last s1 s2 zero1 rest1 one2 rest2 (inl (fd2, at2, above2, r2)) =
          elim (dup2_stream-Runs s2 d.errors.fd fd2 2 errors at2 (
            rest2 fd2 (above_ne fd2 1 above2 (omega arith))
            ∙ rest1 fd2 (above_ne fd2 0 above2 (omega arith))
            ∙ r2)) [
              | returns t ran (two, rest3) ↦
                  returns t ran (rest3 0 refl ∙ rest2 0 refl ∙ zero1, rest3 1 refl ∙ one2, two)
              | dies why ran x ↦ dies why ran x
            ]
      last s1 s2 zero1 rest1 one2 rest2 (inr (at2, same)) =
          elim (dup2_stream-Runs s2 d.errors.fd 1 2 output at2 one2) [
            | returns t ran (two, rest3) ↦
                returns t ran
                  (rest3 0 refl ∙ rest2 0 refl ∙ zero1, rest3 1 refl ∙ one2, rw same two)
            | dies why ran x ↦ dies why ran x
          ]

  abbrev pub redirect : State → Streams K → Result (Crash Reason) State
  redirect s d = do r ← open_files K s d; dup2_fds K r.1 r.0

  -- Started with the three standard descriptors open, open_files and dup2_fds leave the standard
  -- streams exactly on the file or inherited descriptor that each stream wants, and stderr on
  -- stdout where it shares it; otherwise the slave dies on a refused call.
  pub redirect_lem :
      (s : State) (d : Streams K) (input output errors : Handle)
      → StandardOpen s
      → Wants s d.input read_only input
      → Wants s d.output write_truncate output
      → WantsErrors s d.errors output errors
      → Runs (IsRefused K) (λ t. Redirected t input output errors) (redirect s d)
  unfolding open_files
  redirect_lem s d input output errors std w0 w1 w2 =
      bind-Runs _ _ opened_all (λ r (a, b, c). dup2_fds-Runs r.1 r.0 input output errors a b c)
    where
      errors-mono :
          (t : State)
          → Keeps s t
          → WantsErrors s d.errors output errors
          → WantsErrors t d.errors output errors
      errors-mono t k (inl w) = inl (Wants-mono s t d.errors write_truncate errors k w)
      errors-mono t k (inr x) = inr x

      opened_all :
          Runs
            (IsRefused K)
            (λ r.
              Refers r.1 r.0.input input
              × Refers r.1 r.0.output output
              × RefersErrors r.1 r.0.errors output errors)
            (open_files K s d)
      opened_all =
          bind-Runs _ _ (open_stream-Runs s d.input read_only input std w0) λ (d0, s1) (r0, k1).
            bind-Runs _ _
              (open_stream-Runs s1 d.output write_truncate output (StandardOpen-mono s s1 k1 std)
                (Wants-mono s s1 d.output write_truncate output k1 w1))
              λ (d1, s2) (r1, k2).
                bind-Runs _ _
                  (open_errors-Runs s2 d.errors output errors
                    (StandardOpen-mono s s2 (λ n h e. k2 n h (k1 n h e)) std)
                    (errors-mono s2 (λ n h e. k2 n h (k1 n h e)) w2))
                  λ (d2, s3) (r2, k3).
                    returns (record { input = d0; output = d1; errors = d2 }, s3) refl
                      (
                        Refers-mono s1 s3 d0 input (λ n h e. k3 n h (k2 n h e)) r0,
                        Refers-mono s2 s3 d1 output k3 r1,
                        r2,
                      )
