-- ===== src/Container/Slave/Keep.antt =====
-- What open_files and dup2_fds of src/container.cpp keep: every descriptor above the standard ones.
use libsbox.Base.{
  ℕ, ◌≤◌, ◌≡◌, inl, inr, refl, sym, ap, ◌∙◌, arith, ℤ, minus_one, eq_ℤ, false, some, ◌==◌,
  Bool-cases, ok, >>=-eq-ok, ok-injective, or_fail, or_fail-ok,
}
use libsbox.Memory.{c_string}
use libsbox.Crash.{died, lift}
use libsbox.PlainString
use libsbox.Container.TaskData.{IoStream}
use libsbox.Container.Slave.{
  Mode, read_only, write_truncate, Handle, Kernel, IsLawful, Streams, cannot_open, cannot_dup2,
  descriptor, open_stream, open_files, dup2_stream, dup2_fds,
}
use libsbox.Container.Slave.Redirect.{Keeps, open-Keeps, redirect}

module _ (K : Kernel) (lawful : IsLawful K) where
  open_stream-Keeps :
      (s : K.State) (desc : IoStream) (mode : Mode) (r : IoStream × K.State)
      → open_stream K s desc mode ≡ ok r
      → Keeps K lawful s r.1
  unfolding open_stream
  open_stream-Keeps s desc mode r run = elim (Bool-cases (PlainString.is_empty desc.filename)) [
    | inl empty ↦
        let same : s ≡ r.1 = ap (λ x. x.1) (ok-injective (rw empty at run)) in
        λ n h at. ap (λ u. K.table u n) (sym same) ∙ at
    | inr named ↦
        let (path, text, next) =
          >>=-eq-ok (lift (c_string desc.filename.cells)) _ (rw named at run) in
        let (x, called, last) =
          >>=-eq-ok (or_fail (K.open_file s path mode) (died cannot_open)) _ next in
        let same : x.1 ≡ r.1 = ap (λ x. x.1) (ok-injective last) in
        λ n h at.
          ap (λ u. K.table u n) (sym same)
          ∙ open-Keeps K lawful s path mode x.0 x.1 (or_fail-ok _ _ called) n h at
  ]

  dup2_stream-others :
      (s : K.State) (fd : ℤ) (target : ℕ) (t : K.State)
      → dup2_stream K s fd target ≡ ok t
      → (n : ℕ) → (n == target) ≡ false
      → K.table t n ≡ K.table s n
  unfolding dup2_stream
  dup2_stream-others s fd target t run n other = elim (Bool-cases (eq_ℤ fd minus_one)) [
    | inl unset ↦ ap (λ u. K.table u n) (sym (ok-injective (rw unset at run)))
    | inr set ↦
        let (old, is_old, next) =
          >>=-eq-ok (or_fail (descriptor fd) (died cannot_dup2)) _ (rw set at run) in
        lawful.dup2-table s old target t (or_fail-ok _ _ next) n ∙ rw other refl
  ]

  pub redirect-Keeps :
      (s : K.State) (d : Streams K) (t : K.State)
      → redirect K lawful s d ≡ ok t
      → (n : ℕ) (h : Handle) → 3 ≤ n
      → K.table s n ≡ some h
      → K.table t n ≡ some h
  unfolding open_files dup2_fds
  redirect-Keeps s d t run n h above at =
      let (r, opened_all, dup2_all) = >>=-eq-ok (open_files K s d) _ run in
      let (r0, e0, next0) = >>=-eq-ok (open_stream K s d.input read_only) _ opened_all in
      let (r1, e1, next1) = >>=-eq-ok (open_stream K r0.1 d.output write_truncate) _ next0 in
      let (r2, e2, next2) = >>=-eq-ok (open_stream K r1.1 d.errors write_truncate) _ next1 in
      let same : r2.1 ≡ r.1 = ap (λ x. x.1) (ok-injective next2) in
      let (s1, d0, more1) = >>=-eq-ok (dup2_stream K r.1 r.0.input.fd 0) _ dup2_all in
      let (s2, d1, more2) = >>=-eq-ok (dup2_stream K s1 r.0.output.fd 1) _ more1 in
      dup2_stream-others s2 r.0.errors.fd 2 t more2 n (ground arith)
      ∙ dup2_stream-others s1 r.0.output.fd 1 s2 d1 n (ground arith)
      ∙ dup2_stream-others r.1 r.0.input.fd 0 s1 d0 n (ground arith)
      ∙ ap (λ u. K.table u n) (sym same)
      ∙ open_stream-Keeps r1.1 d.errors write_truncate r2 e2 n h (
          open_stream-Keeps r0.1 d.output write_truncate r1 e1 n h
            (open_stream-Keeps s d.input read_only r0 e0 n h at))
