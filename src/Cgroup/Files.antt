-- ===== src/Cgroup/Files.antt =====
-- The constructor, the destructor, write, read and init of src/cgroup_controller.cpp: the directory
-- and its files.
use libsbox.Base.{
  ℕ, ◌≡◌, refl, ap, minus_one, List, ◌++◌, none, some, codes, Result, ok, err, ◌>>=◌, or_fail,
}
use libsbox.Crash.{Crash, died, undefined, Runs, returns, dies, bind-Runs, or_fail-Runs}
use libsbox.Transfer.{Received}
use libsbox.Utils
use libsbox.Utils.{write_file, read_file}
use libsbox.Utils.Files
use libsbox.Utils.Files.{SameTable, write_file-Runs}
use libsbox.Container.Slave
use libsbox.Container.Slave.{Kernel}
use libsbox.Cgroup.{
  CgroupController, Cgroups, IsLawful, Reason, Run, cannot_create_dir, cannot_remove_dir, in_file,
  construct, destruct,
}

-- path_ / filename
abbrev pub file : List ℕ → List ℕ → List ℕ
file path filename = path ++ codes "/" ++ filename

abbrev pub from_file {ℓ} : {A : Type ℓ} → Result (Crash Utils.Reason) A → Result (Crash Reason) A
from_file (ok a) = ok a
from_file (err (died why)) = err (died (in_file why))
from_file (err (undefined f)) = err (undefined f)

module _ (K : Kernel) (C : Cgroups K) where
  unfoldable pub write : CgroupController → (filename text : List ℕ) → K.State → Run K C K.State
  write c filename text s = from_file (write_file K C.write (file c.path filename) text s)

  unfoldable pub read :
      CgroupController
      → (filename buf : List ℕ) → List Received
      → K.State
      → Run K C (List ℕ × K.State)
  read c filename buf calls s = from_file (read_file K (file c.path filename) buf calls s)

  -- The directory of all controllers of that name, made anew.
  unfoldable pub init : (root name : List ℕ) → K.State → Run K C K.State
  init root name s = do
    let path = root ++ codes "/" ++ name ++ codes "/libsbox"
    t ← or_fail (C.remove s path) (died cannot_remove_dir)
    or_fail (C.create_directories t path) (died cannot_create_dir)

  -- The kernel refused a call of that kind, or wrote a part only.
  abbrev pub IsRefused : Reason → Type 0
  IsRefused cannot_create_dir =
      (s : K.State) × (path : List ℕ) × (C.create_directories s path ≡ none)
  IsRefused cannot_remove_dir = (s : K.State) × (path : List ℕ) × (C.remove s path ≡ none)
  IsRefused (in_file why) = Files.IsRefused K C.write why
  IsRefused _ = ⊥

  -- The calls on directories use no descriptor of the caller.
  pub record KeepsTable : Type 0 where
    pub create-table :
        (s : K.State) (path : List ℕ) (t : K.State)
        → C.create_directories s path ≡ some t
        → SameTable K s t
    pub remove-table :
        (s : K.State) (path : List ℕ) (t : K.State) → C.remove s path ≡ some t → SameTable K s t

  module _ (lawful : Slave.IsLawful K) (entering : IsLawful K C) (keeps : KeepsTable) where
    -- A new controller holds no descriptor.
    pub construct-Runs :
        (root name id : List ℕ) (s : K.State)
        → Runs IsRefused
            (λ r.
              (r.0.enter_fd ≡ minus_one)
              × (r.0.path ≡ root ++ codes "/" ++ name ++ codes "/libsbox/" ++ id)
              × SameTable K s r.1)
            (construct K C root name id s)
    unfolding construct
    construct-Runs root name id s =
        bind-Runs _ _
          (or_fail-Runs IsRefused (SameTable K s)
            (C.create_directories s (root ++ codes "/" ++ name ++ codes "/libsbox/" ++ id))
            cannot_create_dir (λ e. (s, _, e)) (λ t e. keeps.create-table s _ t e))
          λ t same. returns _ refl (refl, refl, same)

    pub destruct-Runs :
        (c : CgroupController) (s : K.State)
        → c.enter_fd ≡ minus_one
        → Runs IsRefused (SameTable K s) (destruct K C c s)
    unfolding destruct
    destruct-Runs c s unset = rw unset (
        or_fail-Runs IsRefused (SameTable K s) (C.remove s c.path) cannot_remove_dir
          (λ e. (s, c.path, e)) (λ t e. keeps.remove-table s c.path t e))

    pub write-Runs :
        (c : CgroupController) (filename text : List ℕ) (s : K.State)
        → Runs IsRefused (SameTable K s) (write c filename text s)
    unfolding write
    write-Runs c filename text s =
        elim (write_file-Runs K lawful C.write entering.write-table (file c.path filename) text s) [
          | returns t e same ↦ returns t (ap from_file e) same
          | dies why e x ↦ dies (in_file why) (ap from_file e) x
        ]
