-- ===== src/Tests/Confinement.antt =====
-- A kernel with 64 descriptors, a process of root, and a slave whose task has a file, a pipe and a
-- shared standard error.
use libsbox.Base.{
  ℕ, zero, suc, ◌<◌, ◌≡◌, ◌≢◌, inl, inr, refl, sym, ap, ◌∙◌, arith, pos, minus_one, Bool, true,
  false, List, [], ◌∷◌, Option, none, some, length, ◌==◌, ==_iff, Bool-cases, ltb, ltb→lt,
  if◌then◌else◌, codes,
}
use mathlib.Core.Option.{some-injective, none-ne-some}
use libsbox.PlainString
use libsbox.Container.TaskData.{TaskData}
use libsbox.Container.Slave
use libsbox.Container.Slave.{Mode, read_only, Handle, opened, inherited, Kernel}
use libsbox.Container.Slave.Launch
use libsbox.Container.Slave.Launch.{Box}
use libsbox.Container.Slave.Confined.{Confined}
use libsbox.Container.Rights
use libsbox.Container.Rights.{Process, Resource, Limit, Ids, all_of, same}
use libsbox.Cgroup
use libsbox.Cgroup.{Cgroups, CgroupController}
use libsbox.Tests.Tasks.{fresh}
use libsbox.Tests.Slave.{named, piped}

pub record Machine : Type 0 where
  pub files : ℕ → Option Handle
  pub entered : List ℕ → Bool

abbrev table_of : Machine → ℕ → Option Handle
table_of s n = if ltb n 64 then s.files n else none

abbrev change : Machine → ℕ → Option Handle → Machine
change s fd h = record s { files = λ n. if n == fd then h else s.files n }

abbrev pick : Option Handle → ℕ → Option ℕ → Option ℕ
pick none n later = some n
pick (some h) n later = later

-- A free number below k.
abbrev find : (ℕ → Option Handle) → ℕ → Option ℕ
find f zero = none
find f (suc k) = pick (f k) k (find f k)

abbrev open_at : Machine → Handle → Option ℕ → Option (ℕ × Machine)
open_at s h none = none
open_at s h (some fd) = some (fd, change s fd (some h))

abbrev pub machine : Kernel
machine = record {
  State = Machine;
  table = table_of;
  open_file = λ s path mode. open_at s (opened path mode) (find s.files 64);
  dup2 = λ s old new. if ltb new 64 then some (change s new (table_of s old)) else none;
  close = λ s fd. if ltb fd 64 then some (change s fd none) else none;
}

pick-free :
    (f : ℕ → Option Handle) (k fd : ℕ) (h : Option Handle) (later : Option ℕ)
    → f k ≡ h
    → (later ≡ some fd → (f fd ≡ none) × (fd < suc k))
    → pick h k later ≡ some fd
    → (f fd ≡ none) × (fd < suc k)
pick-free f k fd none later at found e =
    let same : k ≡ fd = some-injective _ _ e in (ap f (sym same) ∙ at, omega arith)
pick-free f k fd (some h) later at found e = found e

find-free : (f : ℕ → Option Handle) (k fd : ℕ) → find f k ≡ some fd → (f fd ≡ none) × (fd < k)
find-free f zero fd e = absurd (none-ne-some _ e)
find-free f (suc k) fd e =
    pick-free f k fd (f k) (find f k) refl
      (λ e'. let r = find-free f k fd e' in (r.0, omega (arith, r.1))) e

clip :
    (n fd : ℕ) (x y : Option Handle)
    → fd < 64
    → (if ltb n 64 then (if n == fd then x else y) else none)
      ≡ (if n == fd then x else if ltb n 64 then y else none)
clip n fd x y small = ground arith

opened_lem :
    (s : Machine) (h : Handle) (o : Option ℕ) (fd : ℕ) (t : Machine)
    → open_at s h o ≡ some (fd, t)
    → (o ≡ some fd) × (change s fd (some h) ≡ t)
opened_lem s h none fd t e = absurd (none-ne-some _ e)
opened_lem s h (some k) fd t e =
    let pair = some-injective _ _ e in
    let same : k ≡ fd = ap (λ r. r.0) pair in
    (ap some same, ap (λ j. change s j (some h)) (sym same) ∙ ap (λ r. r.1) pair)

changed :
    (s t : Machine) (fd : ℕ) (h : Option Handle)
    → (if ltb fd 64 then some (change s fd h) else none) ≡ some t
    → (n : ℕ) → table_of t n ≡ (if n == fd then h else table_of s n)
changed s t fd h e n = elim (Bool-cases (ltb fd 64)) [
  | inl small ↦
      ap (λ u. table_of u n) (sym (some-injective _ _ (rw small at e)))
      ∙ clip n fd h (s.files n) (ltb→lt fd 64 small)
  | inr large ↦ absurd (none-ne-some _ (rw large at e))
]

clip_none : (b : Bool) (h : Option Handle) → h ≡ none → (if b then h else none) ≡ none
clip_none b h e = ground arith

open_fresh :
    (s : Machine) (h : Handle) (fd : ℕ) (t : Machine)
    → open_at s h (find s.files 64) ≡ some (fd, t)
    → table_of s fd ≡ none
open_fresh s h fd t e =
    clip_none (ltb fd 64) (s.files fd)
      (find-free s.files 64 fd (opened_lem s h (find s.files 64) fd t e).0).0

open_table :
    (s : Machine) (h : Handle) (fd : ℕ) (t : Machine)
    → open_at s h (find s.files 64) ≡ some (fd, t)
    → (n : ℕ) → table_of t n ≡ (if n == fd then some h else table_of s n)
open_table s h fd t e n =
    let is_open = opened_lem s h (find s.files 64) fd t e in
    ap (λ u. table_of u n) (sym is_open.1)
    ∙ clip n fd (some h) (s.files n) (find-free s.files 64 fd is_open.0).1

pub machine-IsLawful : Slave.IsLawful machine
machine-IsLawful = record {
  open-fresh = λ s path mode fd t e. open_fresh s (opened path mode) fd t e;
  open-table = λ s path mode fd t e n. open_table s (opened path mode) fd t e n;
  dup2-table = λ s old new t e n. changed s t new (table_of s old) e n;
  close-table = λ s fd t e n. changed s t fd none e n;
}

-- A cgroup is told by the length of its path.
abbrev join : Option Handle → Machine → Machine
join none s = s
join (some (inherited n)) s = s
join (some (opened path mode)) s = record s {
  entered = λ q. if length q == length path then true else s.entered q;
}

abbrev pub groups_of : Cgroups machine
groups_of = record {
  write = λ s fd text. (pos (length text), join (table_of s fd) s);
  create_directories = λ s path. some s;
  remove = λ s path. some s;
  inside = λ s path. s.entered path;
  hierarchy = length;
}

join_table : (h : Option Handle) (s : Machine) (n : ℕ) → table_of (join h s) n ≡ table_of s n
join_table none s n = refl
join_table (some (inherited k)) s n = refl
join_table (some (opened path mode)) s n = refl

pub groups_of-IsLawful : Cgroup.IsLawful machine groups_of
groups_of-IsLawful = record {
  write-table = λ s fd text n. join_table (table_of s fd) s n;
  write-inside = λ s fd path pid e sent.
      ap (λ h. (join h s).entered path) e ∙ rw ((==_iff (length path) (length path)).1 refl) refl;
  write-outside = λ s fd path other pid e differ.
      ap (λ h. (join h s).entered other) e ∙ rw (not_same (length other) (length path) differ) refl;
  close-inside = λ s fd t e path. closed_inside s t fd e path;
}
  where
    not_same : (m n : ℕ) → m ≢ n → (m == n) ≡ false
    not_same m n h = ground arith

    closed_inside :
        (s t : Machine) (fd : ℕ)
        → (if ltb fd 64 then some (change s fd none) else none) ≡ some t
        → (path : List ℕ) → t.entered path ≡ s.entered path
    closed_inside s t fd e path = elim (Bool-cases (ltb fd 64)) [
      | inl small ↦ ap (λ u. u.entered path) (sym (some-injective _ _ (rw small at e)))
      | inr large ↦ absurd (none-ne-some _ (rw large at e))
    ]

abbrev numbers : ℕ → List (Option ℕ)
numbers zero = none ∷ []
numbers (suc k) = some k ∷ numbers k

abbrev directory : List ℕ
directory = codes "/proc/self/fd"

abbrev box : Box machine
box = record {
  chdir = λ s. some s;
  chroot = λ s. some s;
  open_dir = λ s. open_at s (opened directory read_only) (find s.files 64);
  entries = λ s. numbers 64;
}

-- A process whose calls all succeed.
record Credentials : Type 0 where
  limits : Resource → Limit
  users : Ids
  group_ids : Ids
  others : List ℕ
  root : Bool

abbrev process : Process
process = record {
  State = Credentials;
  limit = λ s. s.limits;
  uids = λ s. s.users;
  gids = λ s. s.group_ids;
  groups = λ s. s.others;
  privileged = λ s. s.root;
  nr_open = 1_048_576;
  setrlimit = λ s r l. some (record s { limits = λ q. if same r q then l else s.limits q });
  setresgid = λ s g. some (record s { group_ids = g });
  setgroups = λ s gs. some (record s { others = gs });
  setresuid = λ s u. some (record s { users = u; root = u.effective == 0 });
  setpgrp = λ s. some s;
}

-- The descriptors 0 to 5 are open, and the log is 3.
abbrev start : Machine
start = record {
  files = λ n. if ltb n 6 then some (inherited n) else none;
  entered = λ path. false;
}

abbrev root : Credentials
root = record {
  limits = λ r. record { soft = 5; hard = 9 };
  users = all_of 0;
  group_ids = all_of 0;
  others = 0 ∷ 4 ∷ [];
  root = true;
}

abbrev task : TaskData
task = record fresh { stdin_desc = named; stdout_desc = piped (pos 5); stderr_desc = piped (pos 1) }

abbrev memory : CgroupController
memory = record { path = codes "memory"; enter_fd = minus_one }

abbrev cpuacct : CgroupController
cpuacct = record { path = codes "cpuacct"; enter_fd = minus_one }
