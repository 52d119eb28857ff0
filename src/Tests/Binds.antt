-- ===== src/Tests/Binds.antt =====
-- A bind of a directory that may be written, over mounts and nothing else.
use libsbox.Base.{
  ℕ, ◌≡◌, inl, inr, sym, true, false, Bool-cases, Option-cases, List, [], ◌∷◌, ◌++◌, Option, none,
  some, codes, text_eq, text_eq_iff, if◌then◌else◌,
}
use mathlib.Core.Option
use mathlib.Core.Option.{some-injective}
use libsbox.Task.{get_flags}
use libsbox.Bind.{System, Unmounted, Bind, mount, mount_flags, has_rule, opt_rule}
use libsbox.Bind.Flags.{chosen, meant, mount_flags-chosen}

mount_flags-chosen_example :
    (mount_flags (get_flags (chosen (codes "in") (codes "/out") true false true false true))
      ≡ meant true false true false)
    × (has_rule (get_flags (chosen (codes "in") (codes "/out") true false true false true)) opt_rule
        ≡ true)
mount_flags-chosen_example =
    mount_flags-chosen (codes "in") (codes "/out") true false true false true

abbrev pub remove : List ℕ → List (List ℕ × ℕ) → Option (List (List ℕ × ℕ))
remove to [] = none
remove to (m ∷ rest) =
    let later = remove to rest in if text_eq m.0 to then some rest else Option.map (◌∷◌ m) later

pub remove-Unmounted :
    (to : List ℕ) (ms ns : List (List ℕ × ℕ)) → remove to ms ≡ some ns → Unmounted to ms ns
remove-Unmounted to [] ns e = cc
remove-Unmounted to (m ∷ rest) ns e = elim (Bool-cases (text_eq m.0 to)) [
  | inl same ↦ inl ((text_eq_iff m.0 to).0 same, sym (some-injective _ _ (rw same at e)))
  | inr other ↦ elim (Option-cases (remove to rest)) [
    | inl gone ↦ absurd (let e' = rw (other, gone) at e in cc)
    | inr (ks, found) ↦ inr (
      ks,
      λ same. let yes = (text_eq_iff m.0 to).1 same in cc,
      sym (some-injective _ _ (rw (other, found) at e)),
      remove-Unmounted to rest ks found,
    )
  ]
]

abbrev only_mounts : System
only_mounts = record {
  FsPath = List ℕ;
  path = λ p. p;
  is_absolute = λ p. true;
  relative_path = λ p. p;
  join = λ p q. p ++ q;
  parent_path = λ p. p;
  State = List (List ℕ × ℕ);
  mounts = λ s. s;
  brought = λ s p. false;
  exists = λ s p. true;
  is_directory = λ s p. true;
  is_regular_file = λ s p. false;
  create_directories = λ s p. some s;
  open_file = λ s p. some s;
  close = λ s. some s;
  mount = λ s from to flags. some ((to, flags) ∷ s);
  umount = λ s to. remove to s;
}

abbrev data_bind : Bind only_mounts
data_bind = record {
  inside = codes "/data";
  outside = codes "/srv";
  flags = 1;
  mounted = false;
  from = [];
  to = [];
}
