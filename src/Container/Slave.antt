-- ===== src/Container/Slave.antt =====
-- The slave's way to exec in src/container.cpp: open_files, dup2_fds, close_all_fds, setup_rlimits,
-- setup_credentials, and the search for PATH in slave().
-- The descriptor table is the kernel's: its calls are the parameter `Kernel`, and `IsLawful` states
-- what their manual pages say of the table.
pub mod Redirect
pub mod CloseAll
pub mod Keep
pub mod Launch
pub mod Steps
pub mod Confined
use libsbox.Base.{
  ℕ, ◌+◌, ◌≡◌, ◌≢◌, ◌⊎◌, ℤ, pos, negsuc, minus_one, eq_ℤ, Bool, true, false, not, ◌||◌, List, [],
  ◌∷◌, Option, none, some, ◌==◌, if◌then◌else◌, Result, ok, err, ◌>>=◌, or_fail,
}
use libsbox.Memory.{c_string}
use libsbox.Crash.{Crash, died, lift}
use libsbox.PlainString
use libsbox.Container.TaskData.{TaskData, IoStream}

-- O_RDONLY; O_WRONLY; O_WRONLY | O_TRUNC; O_WRONLY | O_CLOEXEC
pub data Mode : Type 0 where
  read_only write_only write_truncate write_cloexec : Mode

-- What a descriptor refers to: a file opened by the slave, or what it refers to from before.
pub data Handle : Type 0 where
  opened : List ℕ → Mode → Handle
  inherited : ℕ → Handle

pub record Kernel : Type 1 where
  pub State : Type 0
  pub table : State → ℕ → Option Handle
  pub open_file : State → List ℕ → Mode → Option (ℕ × State)
  pub dup2 : State → ℕ → ℕ → Option State
  pub close : State → ℕ → Option State

pub record IsLawful (K : Kernel) : Type 0 where
  -- open(2) returns a descriptor that was free, and changes no other.
  pub open-fresh :
      (s : K.State) (path : List ℕ) (mode : Mode) (fd : ℕ) (t : K.State)
      → K.open_file s path mode ≡ some (fd, t)
      → K.table s fd ≡ none
  pub open-table :
      (s : K.State) (path : List ℕ) (mode : Mode) (fd : ℕ) (t : K.State)
      → K.open_file s path mode ≡ some (fd, t)
      → (n : ℕ) → K.table t n ≡ (if n == fd then some (opened path mode) else K.table s n)
  -- dup2(2) makes the new descriptor refer to what the old one does, and changes no other.
  pub dup2-table :
      (s : K.State) (old new : ℕ) (t : K.State)
      → K.dup2 s old new ≡ some t
      → (n : ℕ) → K.table t n ≡ (if n == new then K.table s old else K.table s n)
  pub close-table :
      (s : K.State) (fd : ℕ) (t : K.State)
      → K.close s fd ≡ some t
      → (n : ℕ) → K.table t n ≡ (if n == fd then none else K.table s n)

pub data Reason : Type 0 where
  cannot_open cannot_dup2 cannot_close bad_descriptor : Reason

-- The descriptor that an int stands for, as the kernel's calls take it: none if it is negative.
abbrev pub descriptor : ℤ → Option ℕ
descriptor (pos n) = some n
descriptor (negsuc n) = none

-- The kernel refused a call of that kind.
abbrev pub IsRefused : Kernel → Reason → Type 0
IsRefused K cannot_open =
    (s : K.State) × (path : List ℕ) × (mode : Mode) × (K.open_file s path mode ≡ none)
IsRefused K cannot_dup2 = (s : K.State) × (old : ℕ) × (new : ℕ) × (K.dup2 s old new ≡ none)
IsRefused K cannot_close = (s : K.State) × (fd : ℕ) × (K.close s fd ≡ none)
IsRefused K bad_descriptor = ⊥

module _ (K : Kernel) where
  open K use {State, table, open_file, dup2, close}

  abbrev pub Step : Type 0
  Step = Result (Crash Reason) State

  -- One block of open_files: a stream that has a file name is opened.
  unfoldable pub open_stream : State → IoStream → Mode → Result (Crash Reason) (IoStream × State)
  unfolding c_string
  open_stream s desc mode =
      if not (PlainString.is_empty desc.filename)
      then (do
        path ← lift (c_string desc.filename.cells)
        r ← or_fail (open_file s path mode) (died cannot_open)
        ok (record desc { fd = pos r.0 }, r.1))
      else ok (desc, s)

  -- The three streams with their descriptors.
  pub record Streams : Type 0 where
    pub input : IoStream
    pub output : IoStream
    pub errors : IoStream

  unfoldable pub open_files : State → Streams → Result (Crash Reason) (Streams × State)
  unfolding open_stream
  open_files s d = do
    (input, s1) ← open_stream s d.input read_only
    (output, s2) ← open_stream s1 d.output write_truncate
    (errors, s3) ← open_stream s2 d.errors write_truncate
    ok (record { input = input; output = output; errors = errors }, s3)

  -- One block of dup2_fds.
  unfoldable pub dup2_stream : State → ℤ → ℕ → Step
  dup2_stream s fd target =
      if not (eq_ℤ fd minus_one)
      then (do
        old ← or_fail (descriptor fd) (died cannot_dup2)
        or_fail (dup2 s old target) (died cannot_dup2))
      else ok s

  unfoldable pub dup2_fds : State → Streams → Step
  unfolding dup2_stream
  dup2_fds s d = do
    s1 ← dup2_stream s d.input.fd 0
    s2 ← dup2_stream s1 d.output.fd 1
    dup2_stream s2 d.errors.fd 2

  -- The loop of close_all_fds over the entries of /proc/self/fd. An entry is the number that strtol
  -- reads, or none if text is left. `kept` says which descriptors the code skips.
  unfoldable pub close_loop : (ℕ → Bool) → State → List (Option ℕ) → Step
  close_loop kept s [] = ok s
  close_loop kept s (none ∷ rest) = close_loop kept s rest
  close_loop kept s (some fd ∷ rest) =
      let skipped = close_loop kept s rest in
      if kept fd
      then skipped
      else (do t ← or_fail (close s fd) (died cannot_close); close_loop kept t rest)

-- The condition in close_all_fds.
abbrev pub is_kept : (dir logger memory cpuacct : ℕ) → ℕ → Bool
is_kept dir logger memory cpuacct fd =
    fd == 0 || fd == 1 || fd == 2 || fd == dir || fd == logger || fd == memory || fd == cpuacct

-- close_all_fds, with closedir at the end
unfoldable pub close_all_fds :
    (K : Kernel) (dir logger memory cpuacct : ℕ)
    → K.State
    → List (Option ℕ)
    → Result (Crash Reason) K.State
unfolding close_loop
close_all_fds K dir logger memory cpuacct s entries = do
  t ← close_loop K (is_kept dir logger memory cpuacct) s entries
  or_fail (K.close t dir) (died cannot_close)
