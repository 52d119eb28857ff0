-- ===== src/Container/Serve/Mounting.antt =====
-- The binds of a task in Container::serve of src/container.cpp: the loop that mounts them.
use mathlib.Core.List.{Perm}
use mathlib.Core.List.Perm
use libsbox.Base.{
  ℕ, ◌≡◌, inl, inr, refl, sym, ap, ◌∙◌, subst, false, List, [], ◌∷◌, ◌++◌, append_assoc, length,
  length-append, get_elem?-length, Result, ok, err,
}
use libsbox.Memory.{c_string}
use libsbox.Crash.{Runs, returns, dies, bind-Runs}
use libsbox.PlainVector.{PlainVector, Holds}
use libsbox.PlainVector.Laws.{index_ok}
use libsbox.Bind
use libsbox.Bind.{System, IsLawful, Bind, mount, mount_flags}
use libsbox.Bind.Undo.{mount-Mounted}
use libsbox.Bind.Stack.{targets, paths, Layers, mount-Layer}
use libsbox.Cgroup.{Cgroups}
use libsbox.Container.Slave.{Kernel}
use libsbox.Container.TaskData.{BindData}
use libsbox.Container.Serve.{Reason, Host, Box, from_bind, on_bind, load_bind, mount_binds}

-- There is a terminator in both arrays.
abbrev pub Readable : BindData → Type 0
Readable d =
    (inside : List ℕ) × (outside : List ℕ) × (c_string d.inside.cells ≡ ok inside)
    × (c_string d.outside.cells ≡ ok outside)

abbrev pub AllReadable : List BindData → Type 0
AllReadable [] = Unit
AllReadable (d ∷ ds) = Readable d × AllReadable ds

pub from_bind-Runs :
    {A : Type 0} (E : Reason → Type 0) (m : Result Bind.Reason A)
    → ((why : Bind.Reason) → m ≡ err why → E (on_bind why))
    → Runs E (λ a. m ≡ ok a) (from_bind m)
from_bind-Runs E (ok a) f = returns a refl refl
from_bind-Runs E (err why) f = dies (on_bind why) refl (f why refl)

paths-append : {P : Type 0} (ms ns : List (P × ℕ)) → paths (ms ++ ns) ≡ paths ms ++ paths ns
paths-append [] ns = refl
paths-append (m ∷ ms) ns = ap (◌∷◌ m.0) (paths-append ms ns)

snoc_perm : {A : Type 0} (a : A) (xs : List A) → Perm (xs ++ (a ∷ [])) (a ∷ xs)
snoc_perm a [] = Perm.refl (a ∷ [])
snoc_perm a (x ∷ xs) = Perm.trans (Perm.cons x (snoc_perm a xs)) (Perm.swap a x xs)

module _ (S : System) (lawful : IsLawful S) (K : Kernel) (C : Cgroups K) (H : Host S)
    (B : Box S) where
  open S use {FsPath, State, mounts}

  abbrev pub Loaded : List BindData → List (Bind S) → Type 0
  Loaded [] [] = Unit
  Loaded (d ∷ ds) (b ∷ bs) = (load_bind S K C H B d ≡ ok b) × Loaded ds bs
  Loaded _ _ = ⊥

  -- The binds of the data, one mounted over the other, and what of the mounts is theirs.
  pub record Placed (ds : List BindData) (s : State) (r : List (Bind S) × State) : Type 0 where
    pub loaded : List (Bind S)
    pub loads : Loaded ds loaded
    pub layers : Layers S B.root B.work_dir loaded (mounts s) (mounts r.1)
    pub above : List (FsPath × ℕ)
    pub over : mounts r.1 ≡ above ++ mounts s
    pub theirs : Perm (targets S r.0) (paths above)

  load_bind-Runs :
      (E : Reason → Type 0) (d : BindData)
      → Readable d
      → Runs E (λ b. (load_bind S K C H B d ≡ ok b) × (b.mounted ≡ false)) (load_bind S K C H B d)
  unfolding load_bind
  load_bind-Runs E d (inside, outside, e, f) =
      let b : Bind S = record {
        inside = S.path inside;
        outside = S.path outside;
        flags = d.flags;
        mounted = false;
        from = S.path [];
        to = S.path [];
      } in
      returns b (rw (e, f) refl) (rw (e, f) refl, refl)

  -- One bind more, below the others.
  place_one :
      (d : BindData) (ds : List BindData) (s : State) (b : Bind S) (c : Bind S × State)
      (r : List (Bind S) × State)
      → load_bind S K C H B d ≡ ok b
      → b.mounted ≡ false
      → mount S B.root B.work_dir s b ≡ ok c
      → Placed ds c.1 r
      → Placed (d ∷ ds) s (c.0 ∷ r.0, r.1)
  place_one d ds s b c r loads idle ran p =
      elim (mount-Mounted S lawful B.root B.work_dir s b c ran) [
        | inl (up, added) ↦ record {
          loaded = b ∷ p.loaded;
          loads = (loads, p.loads);
          layers = (mounts c.1, mount-Layer S lawful B.root B.work_dir s b c ran, p.layers);
          above = p.above ++ ((c.0.to, mount_flags b.flags) ∷ []);
          over = p.over ∙ ap (◌++◌ p.above) added ∙ sym (append_assoc p.above _ (mounts s));
          theirs =
              rw (up, paths-append p.above ((c.0.to, mount_flags b.flags) ∷ []))
                (Perm.trans (Perm.cons c.0.to p.theirs)
                  (Perm.symm (snoc_perm c.0.to (paths p.above))));
        }
        | inr (same, kept, opt) ↦ record {
          loaded = b ∷ p.loaded;
          loads = (loads, p.loads);
          layers = (mounts c.1, mount-Layer S lawful B.root B.work_dir s b c ran, p.layers);
          above = p.above;
          over = p.over ∙ ap (◌++◌ p.above) kept;
          theirs = rw (same ∙ idle) p.theirs;
        }
      ]

  pub mount_binds-Runs :
      (E : Reason → Type 0)
      → ((s : State) (b : Bind S) (why : Bind.Reason)
          → mount S B.root B.work_dir s b ≡ err why
          → E (on_bind why))
      → (m : ℕ) (v : PlainVector BindData) (pre rest : List BindData) (s : State)
      → Holds m v (pre ++ rest)
      → AllReadable rest
      → Runs E (Placed rest s) (mount_binds S K C H B (length rest) (length pre) v s)
  unfolding mount_binds
  mount_binds-Runs E stopped m v pre [] s holds readable =
      returns ([], s) refl
        (record {
          loaded = [];
          loads = tt;
          layers = refl;
          above = [];
          over = refl;
          theirs = Perm.nil;
        })
  mount_binds-Runs E stopped m v pre (d ∷ rest) s holds (here, readable) =
      rw (index_ok m v (pre ++ (d ∷ rest)) (length pre) d holds (get_elem?-length pre rest d)) (
        bind-Runs (load_bind S K C H B d) _ (load_bind-Runs E d here) λ b (loads, idle).
          bind-Runs _ _ (from_bind-Runs E (mount S B.root B.work_dir s b) (stopped s b)) λ c ran.
            bind-Runs _ _
              (subst (λ n. Runs E (Placed rest c.1) (mount_binds S K C H B (length rest) n v c.1))
                (length-append pre (d ∷ []))
                (mount_binds-Runs E stopped m v (pre ++ (d ∷ [])) rest c.1
                  (subst (Holds m v) (sym (append_assoc pre (d ∷ []) rest)) holds) readable))
              λ r placed.
                returns (c.0 ∷ r.0, r.1) refl (place_one d rest s b c r loads idle ran placed))
