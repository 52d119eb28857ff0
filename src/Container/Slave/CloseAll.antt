-- ===== src/Container/Slave/CloseAll.antt =====
-- The descriptors that are left after close_all_fds of src/container.cpp.
use libsbox.Base.{
  ℕ, ◌≤◌, ◌≢◌, arith, ◌≡◌, ◌⊎◌, inl, inr, refl, sym, ap, ◌∙◌, Bool, true, false, List, [], ◌∷◌,
  Option, none, some, ◌==◌, ==_iff, if◌then◌else◌, ok, Result, err, >>=-eq-ok, ok-injective,
  or_fail, or_fail-ok, Bool-cases, Option-cases,
}
use libsbox.Container.Slave.{
  Reason, Kernel, IsLawful, IsRefused, Handle, close_loop, is_kept, close_all_fds, cannot_close,
}
use libsbox.Crash.{Crash, died, Runs, returns, dies}

-- The directory has an entry for the descriptor.
abbrev pub Listed : ℕ → List (Option ℕ) → Type 0
Listed n [] = ⊥
Listed n (none ∷ rest) = Listed n rest
Listed n (some fd ∷ rest) = (n ≡ fd) ⊎ Listed n rest

module _ (K : Kernel) (lawful : IsLawful K) where
  open K use {State, table}

  -- What one descriptor refers to after the loop.
  close_loop_table :
      (kept : ℕ → Bool) (s t : State) (entries : List (Option ℕ)) (n : ℕ)
      → close_loop K kept s entries ≡ ok t
      → ((kept n ≡ true) × (table t n ≡ table s n))
        ⊎ (kept n ≡ false) × ((table t n ≡ none) ⊎ (table t n ≡ table s n) × (¬ Listed n entries))
  unfolding close_loop
  close_loop_table kept s t [] n run = elim (Bool-cases (kept n)) [
    | inl k ↦ inl (k, ap (λ x. table x n) (sym (ok-injective run)))
    | inr k ↦ inr (k, inr (ap (λ x. table x n) (sym (ok-injective run)), λ l. l))
  ]
  close_loop_table kept s t (none ∷ rest) n run = close_loop_table kept s t rest n run
  close_loop_table kept s t (some fd ∷ rest) n run = elim (Bool-cases (kept fd)) [
    | inl k ↦ skip k (close_loop_table kept s t rest n (rw k at run))
    | inr k ↦
        let (u, closed, run') =
          >>=-eq-ok (or_fail (K.close s fd) (died cannot_close)) _ (rw k at run) in
        after k u (or_fail-ok (K.close s fd) (died cannot_close) closed)
          (close_loop_table kept u t rest n run')
  ]
    where
      Goal : Type 0
      Goal =
          ((kept n ≡ true) × (table t n ≡ table s n))
          ⊎ (kept n ≡ false)
            × ((table t n ≡ none) ⊎ (table t n ≡ table s n) × (¬ Listed n (some fd ∷ rest)))

      skip :
          kept fd ≡ true
          → ((kept n ≡ true) × (table t n ≡ table s n))
            ⊎ (kept n ≡ false) × ((table t n ≡ none) ⊎ (table t n ≡ table s n) × (¬ Listed n rest))
          → Goal
      skip k (inl h) = inl h
      skip k (inr (out, inl gone)) = inr (out, inl gone)
      skip k (inr (out, inr (same, unlisted))) = inr (
        out,
        inr (same, λ l. elim l [ inl e ↦ let kept_n = ap kept e ∙ k in cc | inr l' ↦ unlisted l' ]),
      )

      after :
          kept fd ≡ false
          → (u : State) → K.close s fd ≡ some u
          → ((kept n ≡ true) × (table t n ≡ table u n))
            ⊎ (kept n ≡ false) × ((table t n ≡ none) ⊎ (table t n ≡ table u n) × (¬ Listed n rest))
          → Goal
      after k u closed h = elim (Bool-cases (n == fd)) [
        | inl same ↦
            closed_here ((==_iff n fd).0 same) (lawful.close-table s fd u closed n ∙ rw same refl) h
        | inr other ↦
            elsewhere (λ e. let hit = (==_iff n fd).1 e in cc)
              (lawful.close-table s fd u closed n ∙ rw other refl) h
      ]
        where
          closed_here :
              n ≡ fd
              → table u n ≡ none
              → ((kept n ≡ true) × (table t n ≡ table u n))
                ⊎ (kept n ≡ false)
                  × ((table t n ≡ none) ⊎ (table t n ≡ table u n) × (¬ Listed n rest))
              → Goal
          closed_here e gone (inl (in_set, same)) = let out = ap kept e ∙ k in cc
          closed_here e gone (inr (out, inl g)) = inr (out, inl g)
          closed_here e gone (inr (out, inr (same, unlisted))) = inr (out, inl (same ∙ gone))

          elsewhere :
              (¬ (n ≡ fd))
              → table u n ≡ table s n
              → ((kept n ≡ true) × (table t n ≡ table u n))
                ⊎ (kept n ≡ false)
                  × ((table t n ≡ none) ⊎ (table t n ≡ table u n) × (¬ Listed n rest))
              → Goal
          elsewhere ne kept_same (inl (in_set, same)) = inl (in_set, same ∙ kept_same)
          elsewhere ne kept_same (inr (out, inl g)) = inr (out, inl g)
          elsewhere ne kept_same (inr (out, inr (same, unlisted))) = inr (
            out,
            inr (same ∙ kept_same, λ l. elim l [ inl e ↦ absurd (ne e) | inr l' ↦ unlisted l' ]),
          )

  -- The call returns, or the slave dies.
  Ends : Result (Crash Reason) State → Type 0
  Ends r = ((t : State) × (r ≡ ok t)) ⊎ ((why : Reason) × (r ≡ err (died why)) × IsRefused K why)

  close_loop-Ends :
      (kept : ℕ → Bool) (s : State) (entries : List (Option ℕ)) → Ends (close_loop K kept s entries)
  unfolding Ends close_loop
  close_loop-Ends kept s [] = inl (s, refl)
  close_loop-Ends kept s (none ∷ rest) = close_loop-Ends kept s rest
  close_loop-Ends kept s (some fd ∷ rest) = elim (Bool-cases (kept fd)) [
    | inl k ↦ rw k (close_loop-Ends kept s rest)
    | inr k ↦ elim (Option-cases (K.close s fd)) [
      | inl e ↦ inr (cannot_close, rw (k, e) refl, (s, fd, e))
      | inr (u, e) ↦ rw (k, e) (close_loop-Ends kept u rest)
    ]
  ]

  close_all_fds-Ends :
      (dir logger memory cpuacct : ℕ) (s : State) (entries : List (Option ℕ))
      → Ends (close_all_fds K dir logger memory cpuacct s entries)
  unfolding Ends close_all_fds
  close_all_fds-Ends dir logger memory cpuacct s entries =
      elim (close_loop-Ends (is_kept dir logger memory cpuacct) s entries) [
        | inl (u, ran) ↦ elim (Option-cases (K.close u dir)) [
          | inl e ↦ inr (cannot_close, rw (ran, e) refl, (u, dir, e))
          | inr (t, e) ↦ inl (t, rw (ran, e) refl)
        ]
        | inr (why, ran, x) ↦ inr (why, rw ran refl, x)
      ]

  close_all_fds_table :
      (dir logger memory cpuacct : ℕ) (s t : State) (entries : List (Option ℕ))
      → ((n : ℕ) (h : Handle) → table s n ≡ some h → Listed n entries)
      → close_all_fds K dir logger memory cpuacct s entries ≡ ok t
      → (n : ℕ)
      → table t n ≡ (
          if n == dir
          then none
          else if is_kept dir logger memory cpuacct n
          then table s n
          else none)
  unfolding close_all_fds
  close_all_fds_table dir logger memory cpuacct s t entries complete run n =
      let kept = is_kept dir logger memory cpuacct in
      let (u, looped, last) = >>=-eq-ok (close_loop K kept s entries) _ run in
      let closed = or_fail-ok (K.close u dir) (died cannot_close) last in
      lawful.close-table u dir t closed n
      ∙ ap (λ x. if n == dir then none else x)
          (after_loop kept u (close_loop_table kept s u entries n looped))
    where
      after_loop :
          (kept : ℕ → Bool) (u : State)
          → ((kept n ≡ true) × (table u n ≡ table s n))
            ⊎ (kept n ≡ false)
              × ((table u n ≡ none) ⊎ (table u n ≡ table s n) × (¬ Listed n entries))
          → table u n ≡ (if kept n then table s n else none)
      after_loop kept u (inl (k, same)) = rw k same
      after_loop kept u (inr (k, inl gone)) = rw k gone
      after_loop kept u (inr (k, inr (same, unlisted))) = elim (Option-cases (table s n)) [
        | inl free ↦ rw k (same ∙ free)
        | inr (h, open_) ↦ absurd (unlisted (complete n h open_))
      ]

  -- The descriptors that the slave keeps: the standard ones, the logger's and those of the cgroups.
  abbrev pub IsWanted : (logger memory cpuacct : ℕ) → ℕ → Type 0
  IsWanted logger memory cpuacct n = (n ≤ 2) ⊎ (n ≡ logger) ⊎ (n ≡ memory) ⊎ (n ≡ cpuacct)

  -- Those are as they were, and every other one and that of the directory is closed.
  abbrev pub Cleared : (dir logger memory cpuacct : ℕ) → State → State → Type 0
  Cleared dir logger memory cpuacct s t =
      ((n : ℕ) → n ≢ dir → IsWanted logger memory cpuacct n → table t n ≡ table s n)
      × ((n : ℕ) → ¬ IsWanted logger memory cpuacct n → table t n ≡ none)
      × (table t dir ≡ none)

  IsWanted-is_kept :
      (dir logger memory cpuacct n : ℕ)
      → IsWanted logger memory cpuacct n
      → is_kept dir logger memory cpuacct n ≡ true
  IsWanted-is_kept dir logger memory cpuacct n w = ground arith

  is_kept-IsWanted :
      (dir logger memory cpuacct n : ℕ)
      → n ≢ dir
      → is_kept dir logger memory cpuacct n ≡ true
      → IsWanted logger memory cpuacct n
  is_kept-IsWanted dir logger memory cpuacct n other k = ground arith

  tables-Cleared :
      (dir logger memory cpuacct : ℕ) (s t : State)
      → ((n : ℕ)
          → table t n ≡ (
              if n == dir
              then none
              else if is_kept dir logger memory cpuacct n
              then table s n
              else none))
      → Cleared dir logger memory cpuacct s t
  tables-Cleared dir logger memory cpuacct s t tables = (
    λ n other w.
        let k = IsWanted-is_kept dir logger memory cpuacct n w in
        tables n ∙ stays (n == dir) _ (table s n) (not_same n dir other) k,
    unwanted,
    tables dir ∙ rw ((==_iff dir dir).1 refl) refl,
  )
    where
      not_same : (m n : ℕ) → m ≢ n → (m == n) ≡ false
      not_same m n h = ground arith

      stays :
          (a b : Bool) (h : Option Handle)
          → a ≡ false
          → b ≡ true
          → (if a then none else if b then h else none) ≡ h
      stays a b h x y = rw (x, y) refl

      neither :
          (a b : Bool) (h : Option Handle)
          → a ≡ false
          → b ≡ false
          → (if a then none else if b then h else none) ≡ none
      neither a b h x y = rw (x, y) refl

      unwanted : (n : ℕ) → ¬ IsWanted logger memory cpuacct n → table t n ≡ none
      unwanted n out = elim (Bool-cases (n == dir)) [
        | inl e ↦ tables n ∙ rw e refl
        | inr x ↦ elim (Bool-cases (is_kept dir logger memory cpuacct n)) [
          | inl k ↦ absurd (
              out (
                is_kept-IsWanted dir logger memory cpuacct n
                  (λ e. let hit = (==_iff n dir).1 e in cc) k))
          | inr k ↦ tables n ∙ neither (n == dir) _ (table s n) x k
        ]
      ]

  -- If the directory lists every open descriptor, close_all_fds leaves descriptors 0, 1 and 2, the
  -- logger's and those of the two cgroups, other than that of the directory itself, as they were, and
  -- closes the latter and every other one; or the slave dies on a refused call.
  pub close_all_fds_lem :
      (dir logger memory cpuacct : ℕ) (s : State) (entries : List (Option ℕ))
      → ((n : ℕ) (h : Handle) → table s n ≡ some h → Listed n entries)
      → Runs
          (IsRefused K)
          (Cleared dir logger memory cpuacct s)
          (close_all_fds K dir logger memory cpuacct s entries)
  unfolding Ends
  close_all_fds_lem dir logger memory cpuacct s entries complete =
      elim (close_all_fds-Ends dir logger memory cpuacct s entries) [
        | inl (t, ran) ↦ returns t ran (
            tables-Cleared dir logger memory cpuacct s t
              (close_all_fds_table dir logger memory cpuacct s t entries complete ran))
        | inr (why, ran, x) ↦ dies why ran x
      ]

  -- The same, with the code's own test.
  pub close_all_fds-table :
      (dir logger memory cpuacct : ℕ) (s : State) (entries : List (Option ℕ))
      → ((n : ℕ) (h : Handle) → table s n ≡ some h → Listed n entries)
      → Runs
          (IsRefused K)
          (λ t.
            (n : ℕ)
            → table t n ≡ (
                if n == dir
                then none
                else if is_kept dir logger memory cpuacct n
                then table s n
                else none))
          (close_all_fds K dir logger memory cpuacct s entries)
  unfolding Ends
  close_all_fds-table dir logger memory cpuacct s entries complete =
      elim (close_all_fds-Ends dir logger memory cpuacct s entries) [
        | inl (t, ran) ↦
            returns t ran (close_all_fds_table dir logger memory cpuacct s t entries complete ran)
        | inr (why, ran, x) ↦ dies why ran x
      ]
