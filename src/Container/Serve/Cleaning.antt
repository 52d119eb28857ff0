-- ===== src/Container/Serve/Cleaning.antt =====
-- cleanup_root, and the loop of Container::serve in src/container.cpp over many tasks.
use mathlib.Core.List.{Mem, not-mem-nil, mem-cons_self, mem-cons_of_mem, mem_of_ne_of_mem}
use libsbox.Base.{
  ◌≡◌, ◌≢◌, ◌⊎◌, inl, inr, refl, ◌∙◌, true, false, Bool-cases, List, [], ◌∷◌, some, ok,
}
use libsbox.Crash.{Crash, Runs, returns, dies, bind-Runs, or_fail-Runs}
use libsbox.PlainVector.{Holds}
use libsbox.Bind.{System}
use libsbox.Cgroup.{Cgroups}
use libsbox.Utils.Files.{SameTable}
use libsbox.Container.Slave.{Kernel}
use libsbox.Container.TaskData.{TaskData, BindData, binds_max}
use libsbox.Container.WaitForSlave.{wait_for_slave}
use libsbox.Container.Serve.{
  Reason, Host, Box, Round, Site, cannot_remove, uncaught, remove_each, clean_dir, cleanup_root,
}
use libsbox.Container.Serve.Mounting.{AllReadable}
use libsbox.Container.Serve.Restored
use libsbox.Container.Serve.Restored.{Dies, Ran, IsUnprivileged}

-- std::filesystem::remove_all: in a directory that stays, the path is no entry any more and nothing is
-- added; and nothing is unmounted. The entries of a directory lie below it, and what lies below one of
-- them lies below the directory.
pub record IsLawful (S : System) (H : Host S) : Type 0 where
  pub remove-entries :
      (s : S.State) (path : S.FsPath) (t : S.State)
      → H.remove_all s path ≡ some t
      → (dir : S.FsPath) (found : List S.FsPath) → H.within dir path ≡ false
      → H.entries s dir ≡ some found
      → (left : List S.FsPath) × (H.entries t dir ≡ some left)
        × ((q : S.FsPath) → Mem q left → Mem q found × (q ≢ path))
  pub entry-below :
      (s : S.State) (dir : S.FsPath) (found : List S.FsPath)
      → H.entries s dir ≡ some found
      → (q : S.FsPath) → Mem q found
      → (H.within dir q ≡ false)
        × ((other : S.FsPath) → H.within other q ≡ true → H.within other dir ≡ true)
  pub remove-mounts :
      (s : S.State) (path : S.FsPath) (t : S.State)
      → H.remove_all s path ≡ some t
      → S.mounts t ≡ S.mounts s

-- Neither the working directory nor /tmp of the container lies in the other.
abbrev pub AreApart : (S : System) → Host S → Box S → Type 0
AreApart S H B = (H.within B.work_dir B.tmp_dir ≡ false) × (H.within B.tmp_dir B.work_dir ≡ false)

module _ (S : System) (K : Kernel) (C : Cgroups K) (lawful : Restored.IsLawful S K C) (H : Host S)
    (removing : IsLawful S H) (B : Box S) (apart : AreApart S H B) where
  open S use {mounts}

  abbrev pub IsEmpty : S.FsPath → S.State → Type 0
  IsEmpty dir s = H.entries s dir ≡ some []

  -- The mounts are kept, and a directory that is watched stays empty.
  abbrev Keeps : S.FsPath → S.State → S.State → Type 0
  Keeps watched s t = (mounts t ≡ mounts s) × (IsEmpty watched s → IsEmpty watched t)

  remove-IsEmpty :
      (s : S.State) (path watched : S.FsPath) (t : S.State)
      → H.remove_all s path ≡ some t
      → H.within watched path ≡ false
      → IsEmpty watched s
      → IsEmpty watched t
  remove-IsEmpty s path watched t e out empty =
      go (removing.remove-entries s path t e watched [] out empty)
    where
      go :
          ((left : List S.FsPath) × (H.entries t watched ≡ some left)
            × ((q : S.FsPath) → Mem q left → Mem q [] × (q ≢ path)))
          → IsEmpty watched t
      go ([], listed, sub) = listed
      go (q ∷ left, listed, sub) = absurd (not-mem-nil (sub q mem-cons_self).0)

  remove_each-Runs :
      (r : Round S) (ps : List S.FsPath) (dir watched : S.FsPath) (found : List S.FsPath)
      (s : S.State)
      → H.entries s dir ≡ some found
      → ((q : S.FsPath) → Mem q found → Mem q ps)
      → ((q : S.FsPath) → Mem q ps → (H.within dir q ≡ false) × (H.within watched q ≡ false))
      → Runs
          (Dies S K C lawful H B r)
          (λ t. Keeps watched s t × IsEmpty dir t)
          (remove_each S K C H B ps s)
  unfolding remove_each
  remove_each-Runs r [] dir watched [] s listed all out = returns s refl ((refl, λ e. e), listed)
  remove_each-Runs r [] dir watched (q ∷ found) s listed all out =
      absurd (not-mem-nil (all q mem-cons_self))
  remove_each-Runs r (p ∷ ps) dir watched found s listed all out =
      bind-Runs _ _
        (or_fail-Runs (Dies S K C lawful H B r) (λ t. H.remove_all s p ≡ some t) _ cannot_remove
          (λ e. (s, p, e)) (λ t e. e))
        λ t e.
          let (not_dir, not_watched) = out p mem-cons_self in
          let (left, listed', sub) = removing.remove-entries s p t e dir found not_dir listed in
          elim (remove_each-Runs r ps dir watched left t listed'
            (λ q m. mem_of_ne_of_mem (sub q m).1 (all q (sub q m).0))
            (λ q m. out q (mem-cons_of_mem p m))) [
              | returns u ran ((same, stays), empty) ↦ returns u ran (
                (
                  same ∙ removing.remove-mounts s p t e,
                  λ was. stays (remove-IsEmpty s p watched t e not_watched was),
                ),
                empty,
              )
              | dies why ran x ↦ dies why ran x
            ]

  clean_dir-Runs :
      (r : Round S) (dir watched : S.FsPath) (s : S.State)
      → H.within watched dir ≡ false
      → Runs
          (Dies S K C lawful H B r)
          (λ t. Keeps watched s t × IsEmpty dir t)
          (clean_dir S K C H B dir s)
  unfolding clean_dir
  clean_dir-Runs r dir watched s aside =
      bind-Runs _ _
        (or_fail-Runs (Dies S K C lawful H B r) (λ found. H.entries s dir ≡ some found) _ uncaught
          (λ e. (s, dir, e)) (λ found e. e))
        λ found e.
          remove_each-Runs r found dir watched found s e (λ q m. m)
            (λ q m.
              let (below, above) = removing.entry-below s dir found e q m in
              (below, outside q (above watched)))
    where
      outside :
          (q : S.FsPath)
          → (H.within watched q ≡ true → H.within watched dir ≡ true)
          → H.within watched q ≡ false
      outside q f = elim (Bool-cases (H.within watched q)) [
        | inl e ↦ let up = f e in cc
        | inr e ↦ e
      ]

  abbrev pub IsClean : S.State → Type 0
  IsClean s = IsEmpty B.work_dir s × IsEmpty B.tmp_dir s

  pub cleanup_root-Runs :
      (r : Round S) (s : S.State)
      → Runs
          (Dies S K C lawful H B r)
          (λ t. (mounts t ≡ mounts s) × IsClean t)
          (cleanup_root S K C H B s)
  unfolding cleanup_root
  cleanup_root-Runs r s =
      bind-Runs _ _ (clean_dir-Runs r B.work_dir B.tmp_dir s apart.1)
        λ s1 ((same1, stays1), empty1).
          bind-Runs _ _ (clean_dir-Runs r B.tmp_dir B.work_dir s1 apart.0)
            λ s2 ((same2, stays2), empty2).
              elim (clean_dir-Runs r B.work_dir B.tmp_dir s2 apart.1) [
                | returns t ran ((same3, stays3), empty3) ↦
                    returns t ran (same3 ∙ same2 ∙ same1, (empty3, stays3 empty2))
                | dies why ran x ↦ dies why ran x
              ]

  -- What the container may be given: the binds of a well-formed task, and a task without rights.
  pub record Given (r : Round S) : Type 0 where
    pub binds : List BindData
    pub holds : Holds binds_max r.task.binds binds
    pub readable : AllReadable binds
    pub unprivileged : IsUnprivileged S K C lawful H B r

  abbrev pub AllGiven : List (Round S) → Type 0
  AllGiven [] = Unit
  AllGiven (r ∷ rs) = Given r × AllGiven rs

  abbrev pub DiesIn : List (Round S) → Reason → Type 0
  DiesIn [] why = ⊥
  DiesIn (r ∷ rs) why = Dies S K C lawful H B r why ⊎ DiesIn rs why

  -- Each task has the results of its own run.
  abbrev pub Results : List (Round S) → List TaskData → Type 0
  Results [] [] = Unit
  Results (r ∷ rs) (d ∷ ds) =
      (wait_for_slave r.task r.wakes r.world r.measures ≡ ok d) × Results rs ds
  Results _ _ = ⊥

  abbrev pub Served : List (Round S) → Site S K C H B → List TaskData × Site S K C H B → Type 0
  Served rs s q =
      Results rs q.0
      × (mounts q.1.files ≡ mounts s.files)
      × SameTable K s.kernel q.1.kernel
      × (IsClean s.files → IsClean q.1.files)
