-- ===== src/Tests/Slave.antt =====
-- A kernel with one more descriptor, 7, to open, and the end of a slave that runs too long.
use libsbox.Base.{
  ℕ, zero, suc, ◌≡◌, inl, inr, refl, sym, ap, ◌∙◌, arith, ℤ, pos, minus_one, List, [], ◌∷◌, Option,
  none, some, ◌==◌, ltb, lt→ltb, ltb-false, if◌then◌else◌, codes,
}
use mathlib.Core.Option.{some-injective, none-ne-some}
use libsbox.Crash.{Runs}
use libsbox.Memory.{c_string}
use libsbox.PlainString
use libsbox.Container.TaskData.{IoStream}
use libsbox.Container.Slave.{
  Mode, read_only, Handle, opened, inherited, Kernel, IsLawful, IsRefused, Streams, close_all_fds,
}
use libsbox.Container.Slave.Redirect.{Redirected, redirect, redirect_lem}
use libsbox.Container.Slave.CloseAll.{Listed, Cleared, close_all_fds_lem}

abbrev Table : Type 0
Table = ℕ → Option Handle

abbrev change : Table → ℕ → Option Handle → Table
change s fd h n = if n == fd then h else s n

abbrev open_seven : Table → Option Handle → List ℕ → Mode → Option (ℕ × Table)
open_seven s none path mode = some (7, change s 7 (some (opened path mode)))
open_seven s (some h) path mode = none

abbrev one_more : Kernel
one_more = record {
  State = Table;
  table = λ s. s;
  open_file = λ s path mode. open_seven s (s 7) path mode;
  dup2 = λ s old new. some (change s new (s old));
  close = λ s fd. some (change s fd none);
}

one_more-IsLawful : IsLawful one_more
one_more-IsLawful = record {
  open-fresh = λ s path mode fd t e. fresh s (s 7) refl path mode fd t e;
  open-table = λ s path mode fd t e n. opened_table s (s 7) path mode fd t e n;
  dup2-table = λ s old new t e n. sym (ap (λ x. x n) (some-injective _ _ e));
  close-table = λ s fd t e n. sym (ap (λ x. x n) (some-injective _ _ e));
}
  where
    fresh :
        (s : Table) (h : Option Handle)
        → s 7 ≡ h
        → (path : List ℕ) (mode : Mode) (fd : ℕ) (t : Table)
        → open_seven s h path mode ≡ some (fd, t)
        → s fd ≡ none
    fresh s none free path mode fd t e =
        let same : 7 ≡ fd = ap (λ r. r.0) (some-injective _ _ e) in rw (sym same) free
    fresh s (some h) free path mode fd t e = cc

    opened_table :
        (s : Table) (h : Option Handle) (path : List ℕ) (mode : Mode) (fd : ℕ) (t : Table)
        → open_seven s h path mode ≡ some (fd, t)
        → (n : ℕ) → t n ≡ (if n == fd then some (opened path mode) else s n)
    opened_table s none path mode fd t e n =
        let both = some-injective _ _ e in
        sym (ap (λ r. r.1 n) both)
        ∙ ap (λ k. if n == k then some (opened path mode) else s n) (ap (λ r. r.0) both)
    opened_table s (some h) path mode fd t e n = cc

-- The descriptors 0 to 6 are open.
abbrev at_start : Table
at_start n = if ltb n 7 then some (inherited n) else none

abbrev pub named : IoStream
named = record { fd = minus_one; filename = record { size = 2; cells = b'i' ∷ b'n' ∷ 0 ∷ 0 ∷ [] } }

abbrev pub piped : ℤ → IoStream
piped fd = record { fd = fd; filename = record { size = 0; cells = 0 ∷ 0 ∷ 0 ∷ 0 ∷ [] } }

abbrev streams : Streams one_more
streams = record { input = named; output = piped (pos 5); errors = piped (pos 1) }

-- The input is the file "in", the output a pipe, and the errors go to the output.
redirect_lem_example :
    Runs
      (IsRefused one_more)
      (λ t.
        Redirected one_more one_more-IsLawful t
          (opened (codes "in") read_only)
          (inherited 5)
          (inherited 5))
      (redirect one_more one_more-IsLawful at_start streams)
unfolding PlainString.is_empty c_string
redirect_lem_example =
    redirect_lem one_more one_more-IsLawful at_start streams (opened (codes "in") read_only)
      (inherited 5) (inherited 5) (λ n h. (inherited n, rw (lt→ltb n 7 (omega arith)) refl))
      (inl (codes "in", refl, refl, refl)) (inr (5, refl, refl, omega arith, refl))
      (inr (refl, refl, refl))

abbrev listing : List (Option ℕ)
listing = none ∷ some 0 ∷ some 1 ∷ some 2 ∷ some 3 ∷ some 4 ∷ some 5 ∷ some 6 ∷ []

listing_complete : (n : ℕ) (h : Handle) → at_start n ≡ some h → Listed n listing
listing_complete zero h e = inl refl
listing_complete (suc zero) h e = inr (inl refl)
listing_complete (suc (suc zero)) h e = inr (inr (inl refl))
listing_complete (suc (suc (suc zero))) h e = inr (inr (inr (inl refl)))
listing_complete (suc (suc (suc (suc zero)))) h e = inr (inr (inr (inr (inl refl))))
listing_complete (suc (suc (suc (suc (suc zero))))) h e = inr (inr (inr (inr (inr (inl refl)))))
listing_complete (suc (suc (suc (suc (suc (suc zero)))))) h e =
    inr (inr (inr (inr (inr (inr (inl refl))))))
listing_complete (suc (suc (suc (suc (suc (suc (suc n))))))) h e =
    let e' = rw (ltb-false (suc (suc (suc (suc (suc (suc (suc n))))))) 7 (omega arith)) at e in
    absurd (none-ne-some _ (e'))

-- close_all_fds with the directory 6, the logger 3 and the cgroups 4 and 8.
close_all_fds_lem_example :
    Runs
      (IsRefused one_more)
      (Cleared one_more one_more-IsLawful 6 3 4 8 at_start)
      (close_all_fds one_more 6 3 4 8 at_start listing)
close_all_fds_lem_example =
    close_all_fds_lem one_more one_more-IsLawful 6 3 4 8 at_start listing listing_complete
