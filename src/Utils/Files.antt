-- ===== src/Utils/Files.antt =====
-- write_file and read_file of src/utils.cpp: what they leave of the descriptors, and what they read.
use libsbox.Base.{
  ℕ, ◌≡◌, ◌≢◌, refl, sym, [], ap, ◌∙◌, arith, ℤ, pos, true, Bool-cases, Option-cases, inl, inr,
  List, length, some, none, ◌==◌, ==_iff, map, ◌++◌, ◌∷◌,
}
use libsbox.Memory.{NulFree}
use libsbox.Crash.{Runs, returns, dies, bind-Runs, or_fail-Runs}
use libsbox.Transfer.{bytes, end_of_stream}
use libsbox.Transfer.Request.{joined, AllFit}
use libsbox.Transfer.Whole.{read_all-joined}
use libsbox.Container.Slave
use libsbox.Container.Slave.{Kernel, Mode, read_only, write_only}
use libsbox.Utils.{
  Reason, cannot_open, cannot_write, cannot_read, cannot_close, is_short, write_file, read_file,
}

not_short : (z : ℤ) (n : ℕ) → z ≡ pos n → is_short z n ≡ true → ⊥
not_short z n e short = ground arith

module _ (K : Kernel) where
  -- The kernel refused a call of that kind, or wrote a part only.
  abbrev pub IsRefused : (K.State → ℕ → List ℕ → ℤ × K.State) → Reason → Type 0
  IsRefused write cannot_open =
      (s : K.State) × (path : List ℕ) × (mode : Mode) × (K.open_file s path mode ≡ none)
  IsRefused write cannot_write =
      (s : K.State) × (fd : ℕ) × (text : List ℕ) × ((write s fd text).0 ≢ pos (length text))
  IsRefused write cannot_read = ⊥
  IsRefused write cannot_close = (s : K.State) × (fd : ℕ) × (K.close s fd ≡ none)

  abbrev pub SameTable : K.State → K.State → Type 0
  SameTable s t = (n : ℕ) → K.table t n ≡ K.table s n

  module _ (lawful : Slave.IsLawful K) (write : K.State → ℕ → List ℕ → ℤ × K.State)
      (write-table : (s : K.State) (fd : ℕ) (text : List ℕ) → SameTable s (write s fd text).1) where
    -- A file opened and closed again leaves the table as it was.
    closed-SameTable :
        (s t u v : K.State) (path : List ℕ) (mode : Mode) (fd : ℕ)
        → K.open_file s path mode ≡ some (fd, t)
        → SameTable t u
        → K.close u fd ≡ some v
        → SameTable s v
    closed-SameTable s t u v path mode fd opens same closes n =
        let before = lawful.open-table s path mode fd t opens n in
        let after = lawful.close-table u fd v closes n in
        let free = lawful.open-fresh s path mode fd t opens in
        elim (Bool-cases (n == fd)) [
          | inl here ↦ rw here at after ∙ sym free ∙ ap (K.table s) (sym ((==_iff n fd).0 here))
          | inr other ↦ rw other at after ∙ same n ∙ rw other at before
        ]

    -- write_file returns with the descriptors as they were, or a call of the kernel failed.
    pub write_file-Runs :
        (path text : List ℕ) (s : K.State)
        → Runs (IsRefused write) (SameTable s) (write_file K write path text s)
    unfolding write_file
    write_file-Runs path text s =
        bind-Runs _ _
          (or_fail-Runs (IsRefused write) (λ r. K.open_file s path write_only ≡ some r) _
            cannot_open (λ e. (s, path, write_only, e)) (λ r e. e))
          λ (fd, t) opens. elim (Bool-cases (is_short (write t fd text).0 (length text))) [
            | inl short ↦
                dies cannot_write (rw short refl)
                  (t, fd, text, λ e. not_short (write t fd text).0 (length text) e short)
            | inr whole ↦ rw whole (
                or_fail-Runs (IsRefused write) (SameTable s) _ cannot_close
                  (λ e. ((write t fd text).1, fd, e))
                  (λ v e.
                    closed-SameTable s t (write t fd text).1 v path write_only fd opens
                      (write-table t fd text) e))
          ]

    -- What read_file returns of a file without NUL, read in any chunks that fit the buffer.
    pub read_file-Runs :
        (path buf : List ℕ) (chunks : List (List ℕ)) (s : K.State)
        → AllFit (length buf) chunks
        → NulFree (joined chunks)
        → Runs
            (IsRefused write)
            (λ r. (r.0 ≡ joined chunks) × SameTable s r.1)
            (read_file K path buf (map bytes chunks ++ (end_of_stream ∷ [])) s)
    unfolding read_file
    read_file-Runs path buf chunks s fit free =
        bind-Runs _ _
          (or_fail-Runs (IsRefused write) (λ r. K.open_file s path read_only ≡ some r) _ cannot_open
            (λ e. (s, path, read_only, e)) (λ r e. e))
          λ (fd, t) opens.
            rw (read_all-joined (length buf) buf [] chunks [] refl fit free)
              (elim (Option-cases (K.close t fd)) [
                | inl e ↦ dies cannot_close (rw e refl) (t, fd, e)
                | inr (v, e) ↦
                    returns (joined chunks, v) (rw e refl)
                      (refl, closed-SameTable s t t v path read_only fd opens (λ n. refl) e)
              ])
