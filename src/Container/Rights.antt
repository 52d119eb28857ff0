-- ===== src/Container/Rights.antt =====
-- The slave's limits and credentials: setup_rlimits and setup_credentials of src/container.cpp.
-- The process's limits, ids and groups are the kernel's: the calls are the parameter `Process`, and
-- `IsLawful` states what their manual pages say of a process with the rights of root.
pub mod Limits
pub mod Drop
use libsbox.Base.{
  ℕ, ◌+◌, ◌-◌, ◌%◌, ◌^◌, ◌≤◌, ◌<◌, ◌≡◌, ◌≢◌, ℤ, pos, negsuc, minus_one, eq_ℤ, Bool, true, false,
  not, List, [], Option, none, some, if◌then◌else◌, Result, ok, err, ◌>>=◌, or_fail, ◌==◌,
}
use libsbox.Container.TaskData.{TaskData}

pub data Resource : Type 0 where
  fsize core stack nofile nproc memlock msgqueue : Resource
  other : ℕ → Resource

abbrev pub same : Resource → Resource → Bool
same fsize fsize = true
same core core = true
same stack stack = true
same nofile nofile = true
same nproc nproc = true
same memlock memlock = true
same msgqueue msgqueue = true
same (other m) (other n) = m == n
same _ _ = false

-- The real, the effective and the saved id.
pub record Ids : Type 0 where
  pub real : ℕ
  pub effective : ℕ
  pub saved : ℕ

abbrev pub all_of : ℕ → Ids
all_of id = record { real = id; effective = id; saved = id }

-- (uid_t) -1
abbrev pub unchanged_id : ℕ
unchanged_id = 2 ^ 32 - 1

-- struct rlimit
pub record Limit : Type 0 where
  pub soft : ℕ
  pub hard : ℕ

pub record Process : Type 1 where
  pub State : Type 0
  pub limit : State → Resource → Limit
  pub uids : State → Ids
  pub gids : State → Ids
  pub groups : State → List ℕ
  pub privileged : State → Bool
  pub nr_open : ℕ
  pub setrlimit : State → Resource → Limit → Option State
  pub setresgid : State → Ids → Option State
  pub setgroups : State → List ℕ → Option State
  pub setresuid : State → Ids → Option State
  pub setpgrp : State → Option State

-- rlim_t has 64 bits
abbrev pub rlim_infinity : ℕ
rlim_infinity = 2 ^ 64 - 1

-- static_cast<unsigned>
abbrev pub to_unsigned : ℤ → ℕ
to_unsigned (pos n) = n % 2 ^ 32
to_unsigned (negsuc n) = 2 ^ 32 - 1 - n % 2 ^ 32

-- The call that is refused, by which the slave dies.
pub data Refused : Type 0 where
  limit_refused : Resource → Refused
  gid_refused groups_refused uid_refused group_refused : Refused

module _ (P : Process) where
  open P use {State}

  unfoldable pub set_rlimit_ext : State → Resource → ℕ → Result Refused State
  set_rlimit_ext s res limit =
      or_fail (P.setrlimit s res (record { soft = limit; hard = limit })) (limit_refused res)

  -- if (limit != -1) set_rlimit(res, static_cast<unsigned>(limit))
  unfoldable pub set_if_limited : State → Resource → ℤ → Result Refused State
  unfolding set_rlimit_ext
  set_if_limited s res limit =
      if not (eq_ℤ limit minus_one) then set_rlimit_ext s res (to_unsigned limit) else ok s

  unfoldable pub setup_rlimits : State → TaskData → Result Refused State
  setup_rlimits s0 d = do
    s1 ← set_if_limited s0 fsize d.fsize_limit_kb
    s2 ← set_rlimit_ext s1 core 0
    s3 ← set_rlimit_ext s2 stack rlim_infinity
    s4 ← set_if_limited s3 nofile d.max_files
    s5 ←
        set_rlimit_ext s4 nproc
          (if eq_ℤ d.max_threads minus_one then rlim_infinity else to_unsigned d.max_threads)
    s6 ← set_rlimit_ext s5 memlock 0
    set_rlimit_ext s6 msgqueue 0

  unfoldable pub setup_credentials : State → ℕ → Result Refused State
  setup_credentials s0 id = do
    s1 ← or_fail (P.setresgid s0 (all_of id)) gid_refused
    s2 ← or_fail (P.setgroups s1 []) groups_refused
    s3 ← or_fail (P.setresuid s2 (all_of id)) uid_refused
    or_fail (P.setpgrp s3) group_refused

-- The ids, the groups and the rights are the same.
pub record SameRights (P : Process) (s t : P.State) : Type 0 where
  pub uids : P.uids t ≡ P.uids s
  pub gids : P.gids t ≡ P.gids s
  pub groups : P.groups t ≡ P.groups s
  pub privileged : P.privileged t ≡ P.privileged s

abbrev pub SameLimits : (P : Process) → P.State → P.State → Type 0
SameLimits P s t = (r : Resource) → P.limit t r ≡ P.limit s r

pub record IsLawful (P : Process) : Type 0 where
  -- setrlimit(2): a privileged process may raise any limit, RLIMIT_NOFILE up to
  -- /proc/sys/fs/nr_open.
  pub setrlimit_lem :
      (s : P.State) (r : Resource) (l : Limit)
      → P.privileged s ≡ true
      → (same nofile r ≡ true → l.hard ≤ P.nr_open)
      → (t : P.State) × (P.setrlimit s r l ≡ some t)
        × ((q : Resource) → P.limit t q ≡ (if same r q then l else P.limit s q))
        × SameRights P s t
  -- setresgid(2), setgroups(2), setresuid(2): a privileged process may set any ids and groups; the id
  -- -1 would leave an id as it is.
  pub setresgid_lem :
      (s : P.State) (id : ℕ)
      → P.privileged s ≡ true
      → id < unchanged_id
      → (t : P.State) × (P.setresgid s (all_of id) ≡ some t)
        × (P.gids t ≡ all_of id)
        × (P.uids t ≡ P.uids s)
        × (P.groups t ≡ P.groups s)
        × (P.privileged t ≡ true)
        × SameLimits P s t
  pub setgroups_lem :
      (s : P.State) (gs : List ℕ)
      → P.privileged s ≡ true
      → (t : P.State) × (P.setgroups s gs ≡ some t)
        × (P.groups t ≡ gs)
        × (P.uids t ≡ P.uids s)
        × (P.gids t ≡ P.gids s)
        × (P.privileged t ≡ true)
        × SameLimits P s t
  -- capabilities(7): a process that leaves user id 0 altogether loses the rights of root.
  pub setresuid_lem :
      (s : P.State) (id : ℕ)
      → P.privileged s ≡ true
      → id ≢ 0
      → id < unchanged_id
      → (t : P.State) × (P.setresuid s (all_of id) ≡ some t)
        × (P.uids t ≡ all_of id)
        × (P.gids t ≡ P.gids s)
        × (P.groups t ≡ P.groups s)
        × (P.privileged t ≡ false)
        × SameLimits P s t
  -- setpgid(2) of a process that leads no session, as a forked one does not.
  pub setpgrp_lem :
      (s : P.State) → (t : P.State) × (P.setpgrp s ≡ some t) × SameRights P s t × SameLimits P s t
