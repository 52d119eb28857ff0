-- ===== src/Container/Start.antt =====
-- The container's process from its start, in src/container.cpp: prepare with disable_ipcs, and then
-- the loop of serve. `death_signal_set` is whether prctl succeeds.
use libsbox.Base.{
  ℕ, ◌≡◌, ◌⊎◌, Bool, List, codes, if◌then◌else◌, Result, ok, err, ◌>>=◌, ◌>>◌, guard,
}
use libsbox.Crash.{Crash, died, undefined}
use libsbox.Bind.{System}
use libsbox.Cgroup.{Cgroups}
use libsbox.Utils
use libsbox.Utils.{write_file}
use libsbox.Utils.Files
use libsbox.Utils.Files.{SameTable}
use libsbox.Signals
use libsbox.Signals.{Signals, reset_signals, enable_timer_interrupts, set_sigchld_action}
use libsbox.Container.Slave
use libsbox.Container.TaskData.{TaskData}
use libsbox.Container.Root
use libsbox.Container.Root.{Boot, prepare_root}
use libsbox.Container.Root.Mounts
use libsbox.Container.Root.Mounts.{Rooted}
use libsbox.Container.Serve
use libsbox.Container.Serve.{Host, Box, Round, Site, serve_loop}
use libsbox.Container.Serve.Restored
use libsbox.Container.Serve.Cleaning
use libsbox.Container.Serve.Cleaning.{DiesIn}

pub data Reason : Type 0 where
  no_death_signal : Reason
  on_signals : Signals.Reason → Reason
  on_root : Root.Reason → Reason
  on_ipcs : Utils.Reason → Reason
  on_loop : Serve.Reason → Reason

abbrev pub Run : Type 0 → Type 0
Run A = Result (Crash Reason) A

-- A part that dies for a reason of its own, and one whose error is that reason.
abbrev pub relabel : {R A : Type 0} → (R → Reason) → Result (Crash R) A → Result (Crash Reason) A
relabel f (ok a) = ok a
relabel f (err (died why)) = err (died (f why))
relabel f (err (undefined fault)) = err (undefined fault)

abbrev pub or_die : {R A : Type 0} → (R → Reason) → Result R A → Result (Crash Reason) A
or_die f (ok a) = ok a
or_die f (err why) = err (died (f why))

module _ (S : System) (K : Slave.Kernel) (C : Cgroups K) (H : Host S) (B : Box S) (T : Boot S)
    (G : Signals.Kernel) where
  pub record Start : Type 0 where
    pub files : S.State
    pub kernel : K.State
    pub signals : Signals G

  unfoldable pub disable_ipcs : K.State → Run K.State
  disable_ipcs s = do
    s1 ← relabel on_ipcs (write_file K C.write (codes "/proc/sys/kernel/msgmni") (codes "0") s)
    s2 ← relabel on_ipcs (write_file K C.write (codes "/proc/sys/kernel/shmmni") (codes "0") s1)
    relabel on_ipcs (write_file K C.write (codes "/proc/sys/kernel/sem") (codes "0 0 0 0") s2)

  -- `handler` is the number of sigchld_action_wrapper.
  unfoldable pub prepare :
      (permanent death_signal_set use_standard_binds : Bool) (handler : ℕ) → Start → Run Start
  unfolding disable_ipcs
  prepare permanent death_signal_set use_standard_binds handler s = do
    guard death_signal_set (died no_death_signal)
    g1 ← or_die on_signals (reset_signals G s.signals)
    g2 ← or_die on_signals (enable_timer_interrupts G g1)
    g3 ← or_die on_signals (set_sigchld_action G handler g2)
    files ← or_die on_root (prepare_root S T use_standard_binds B.root s.files)
    kernel ← (if permanent then disable_ipcs s.kernel else ok s.kernel)
    ok (record { files = files; kernel = kernel; signals = g3 })

  unfoldable pub serve :
      (permanent death_signal_set use_standard_binds : Bool) (handler : ℕ)
      → List (Round S)
      → Start
      → Run (List TaskData × Site S K C H B)
  unfolding prepare
  serve permanent death_signal_set use_standard_binds handler rounds s = do
    t ← prepare permanent death_signal_set use_standard_binds handler s
    relabel on_loop
        (serve_loop S K C H B permanent rounds (record { files = t.files; kernel = t.kernel }))

  module _ (lawful : Restored.IsLawful S K C) (removing : Cleaning.IsLawful S H)
      (apart : Cleaning.AreApart S H B) (booting : Mounts.IsLawful S T) where
    -- A call of the kernel or of a part of the start was refused, or a task's round failed.
    abbrev pub Dies : List (Round S) → Reason → Type 0
    Dies rs no_death_signal = Unit
    Dies rs (on_signals why) =
        (s : Signals G) × (handler : ℕ) × ((reset_signals G s ≡ err why)
          ⊎ (enable_timer_interrupts G s ≡ err why)
          ⊎ (set_sigchld_action G handler s ≡ err why))
    Dies rs (on_root why) = (std : Bool) × (s : S.State) × (prepare_root S T std B.root s ≡ err why)
    Dies rs (on_ipcs why) = Files.IsRefused K C.write why
    Dies rs (on_loop why) = DiesIn S K C lawful H removing B apart rs why

    -- Where the container begins: over its root, with the descriptors it was started with.
    abbrev pub Prepared : Bool → Start → Start → Type 0
    Prepared std s t =
        Rooted S lawful.binds T booting std B.root s.files t.files × SameTable K s.kernel t.kernel
