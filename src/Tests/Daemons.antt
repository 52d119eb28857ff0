-- ===== src/Tests/Daemons.antt =====
-- A daemon that is started and told to stop, and a second one; and a text that vformat writes.
use mathlib.Core.Option.{some-injective}
use libsbox.Base.{
  ℕ, ◌+◌, ◌≡◌, refl, sym, ap, arith, ℤ, pos, Bool, true, false, Bool-cases, inl, inr, List, [], ◌∷◌,
  ◌++◌, none, some, length, ltb, codes, text_eq, text_eq_iff, if◌then◌else◌, ok, lt→ltb,
}
use libsbox.Memory.{c_string-append}
use libsbox.Container.Slave.{Kernel}
use libsbox.Container.WaitForSlave.{exited}
use libsbox.Cgroup.{Cgroups}
use libsbox.Utils.{vformat}
use libsbox.Utils.Format.{Prints, vformat_lem}
use libsbox.Daemon.{FileSystem, Machine, Calls, State, run, pid_path}
use libsbox.Daemon.Files.{IsLawful, run-occupied}
use libsbox.Daemon.Exit.{Exits, run-Exits}
use libsbox.Tests.Services.{kernel, initial}
use libsbox.Tests.Runs.{config}

-- A kernel whose state is the next descriptor.
abbrev counting : Kernel
counting = record {
  State = ℕ;
  table = λ s n. none;
  open_file = λ s path mode. some (s, s + 1);
  dup2 = λ s old new. some s;
  close = λ s fd. some 0;
}

abbrev no_groups : Cgroups counting
no_groups = record {
  write = λ s fd text. (pos (length text), s);
  create_directories = λ s path. some s;
  remove = λ s path. some s;
  inside = λ s path. false;
  hierarchy = length;
}

abbrev with_file : List ℕ → (List ℕ → Bool) → List ℕ → Bool
with_file p s q = if text_eq q p then true else s q

abbrev flat : FileSystem
flat = record {
  State = List ℕ → Bool;
  exists = λ s p. s p;
  create_exclusive = λ s p. if s p then none else some (with_file p s);
  bind = λ s p. some (with_file p s);
  unlink = λ s p. (s p, λ q. if text_eq q p then false else s q);
}

flat-IsLawful : IsLawful flat
flat-IsLawful = record {
  create-present = λ s p there. rw there refl;
  create-exists = λ s p t e q. created s p t e q;
  bind-exists = λ s p t e q. ap (λ f. f q) (sym (some-injective _ _ e));
  unlink-other = λ s p q other. rw other refl;
  unlink-gone = λ s p e. rw ((text_eq_iff p p).1 refl) refl;
  unlink-absent = λ s p e. rw ((text_eq_iff p p).1 refl) refl;
}
  where
    created :
        (s : List ℕ → Bool) (p : List ℕ) (t : List ℕ → Bool)
        → (if s p then none else some (with_file p s)) ≡ some t
        → (q : List ℕ) → t q ≡ with_file p s q
    created s p t e q = elim (Bool-cases (s p)) [
      | inl there ↦ let e' = rw there at e in cc
      | inr free ↦ ap (λ f. f q) (sym (some-injective _ _ (rw free at e)))
    ]

abbrev host : Machine
host = record { kernel = counting; groups = no_groups; files = flat; signals = kernel }

abbrev calls : Calls
calls = record {
  user_set = true;
  group_set = true;
  pid_written = true;
  pid_closed = true;
  socket_made = true;
  listening = true;
  started = λ i. some (100 + i);
  first_wait = none;
  terminated = true;
  socket_closed = true;
  killed = λ pid. true;
  waited = λ i. some (exited 0);
}

abbrev at_boot : State host
at_boot = record {
  kernel = 3;
  files = λ q. false;
  signals = initial;
  socket_path = [];
  getter = none;
  workers = [];
  signalled = [];
}

run-Exits_example : Exits host flat-IsLawful calls config at_boot (run host calls config at_boot)
run-Exits_example = run-Exits host flat-IsLawful calls config at_boot refl refl refl

-- Another daemon has the pid file.
abbrev second : State host
second = record at_boot { files = λ q. text_eq q pid_path }

run-occupied_example : run host calls config second ≡ (1, second)
run-occupied_example = run-occupied host flat-IsLawful calls config second refl refl refl

-- vsnprintf for the text "ab".
abbrev print_ab : ℕ → ℤ × List ℕ
print_ab size = (pos 2, if ltb 2 size then codes "ab" ++ (0 ∷ []) else [])

print_ab-Prints : Prints print_ab (codes "ab")
print_ab-Prints = record {
  whole = λ size. refl;
  written = λ size small.
      rw (lt→ltb 2 size small) (c_string-append (codes "ab") [] (omega arith, (omega arith, tt)));
}

vformat_lem_example : vformat 2 print_ab (codes "%") ≡ some (ok (codes "ab"))
vformat_lem_example = vformat_lem print_ab (codes "ab") print_ab-Prints 0 (codes "%")
