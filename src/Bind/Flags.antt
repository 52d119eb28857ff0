-- ===== src/Bind/Flags.antt =====
-- The client's rules of src/libsbox.cpp and the mount flags of src/bind.cpp.
use libsbox.Base.{ℕ, ◌+◌, ◌≡◌, refl, Bool, true, false, List, if◌then◌else◌}
use libsbox.Task.{
  BindRule, bind_rule, allow_write, allow_dev, forbid_exec, allow_suid, make_optional, get_flags,
}
use libsbox.Bind.{
  mount_flags, has_rule, opt_rule, ms_rdonly, ms_nosuid, ms_nodev, ms_noexec, ms_bind, ms_rec,
}

-- A rule of the client with the chosen permissions.
abbrev pub chosen : List ℕ → List ℕ → (write dev noexec suid optional : Bool) → BindRule
chosen inside outside write dev noexec suid optional =
    let b0 = bind_rule inside outside in
    let b1 = if write then allow_write b0 else b0 in
    let b2 = if dev then allow_dev b1 else b1 in
    let b3 = if noexec then forbid_exec b2 else b2 in
    let b4 = if suid then allow_suid b3 else b3 in if optional then make_optional b4 else b4

-- The mount flags that the permissions mean.
abbrev pub meant : (write dev noexec suid : Bool) → ℕ
meant write dev noexec suid =
    ms_bind
    + ms_rec
    + (if write then 0 else ms_rdonly)
    + (if dev then 0 else ms_nodev)
    + (if noexec then ms_noexec else 0)
    + (if suid then 0 else ms_nosuid)

-- For every choice of the client's five permissions, the rule built with allow_write, allow_dev,
-- forbid_exec, allow_suid and make_optional gives the mount flags that they mean, and is optional
-- exactly where it was made so.
pub mount_flags-chosen :
    (inside outside : List ℕ) (write dev noexec suid optional : Bool)
    → (mount_flags (get_flags (chosen inside outside write dev noexec suid optional))
        ≡ meant write dev noexec suid)
      × (has_rule (get_flags (chosen inside outside write dev noexec suid optional)) opt_rule
          ≡ optional)
unfolding mount_flags bind_rule allow_write allow_dev forbid_exec allow_suid make_optional
mount_flags-chosen inside outside true true true true true = (refl, refl)
mount_flags-chosen inside outside true true true true false = (refl, refl)
mount_flags-chosen inside outside true true true false true = (refl, refl)
mount_flags-chosen inside outside true true true false false = (refl, refl)
mount_flags-chosen inside outside true true false true true = (refl, refl)
mount_flags-chosen inside outside true true false true false = (refl, refl)
mount_flags-chosen inside outside true true false false true = (refl, refl)
mount_flags-chosen inside outside true true false false false = (refl, refl)
mount_flags-chosen inside outside true false true true true = (refl, refl)
mount_flags-chosen inside outside true false true true false = (refl, refl)
mount_flags-chosen inside outside true false true false true = (refl, refl)
mount_flags-chosen inside outside true false true false false = (refl, refl)
mount_flags-chosen inside outside true false false true true = (refl, refl)
mount_flags-chosen inside outside true false false true false = (refl, refl)
mount_flags-chosen inside outside true false false false true = (refl, refl)
mount_flags-chosen inside outside true false false false false = (refl, refl)
mount_flags-chosen inside outside false true true true true = (refl, refl)
mount_flags-chosen inside outside false true true true false = (refl, refl)
mount_flags-chosen inside outside false true true false true = (refl, refl)
mount_flags-chosen inside outside false true true false false = (refl, refl)
mount_flags-chosen inside outside false true false true true = (refl, refl)
mount_flags-chosen inside outside false true false true false = (refl, refl)
mount_flags-chosen inside outside false true false false true = (refl, refl)
mount_flags-chosen inside outside false true false false false = (refl, refl)
mount_flags-chosen inside outside false false true true true = (refl, refl)
mount_flags-chosen inside outside false false true true false = (refl, refl)
mount_flags-chosen inside outside false false true false true = (refl, refl)
mount_flags-chosen inside outside false false true false false = (refl, refl)
mount_flags-chosen inside outside false false false true true = (refl, refl)
mount_flags-chosen inside outside false false false true false = (refl, refl)
mount_flags-chosen inside outside false false false false true = (refl, refl)
mount_flags-chosen inside outside false false false false false = (refl, refl)
