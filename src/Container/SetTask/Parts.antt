-- ===== src/Container/SetTask/Parts.antt =====
-- The blocks of Container::set_task for argv, env and the binds.
use libsbox.Base.{
  ℕ, suc, ◌+◌, ◌<◌, ◌≤◌, ◌≡◌, inl, inr, refl, ap, subst, List, [], ◌∷◌, ◌++◌, length, length-append,
  arith, ltb, ltb→lt, Bool-cases, append_assoc, append-nil,
}
use libsbox.Crash.{Runs, returns, dies, bind-Runs}
use libsbox.PlainString
use libsbox.PlainString.Assign
use libsbox.PlainVector
use libsbox.PlainVector.{PlainVector}
use libsbox.PlainVector.Laws as VectorLaws
use libsbox.PlainStringVector
use libsbox.PlainStringVector.{PlainStringVector, total_size}
use libsbox.PlainStringVector.Laws
use libsbox.Task.{BindRule}
use libsbox.Container.TaskData.{BindData, binds_max, path_max}
use libsbox.Container.SetTask.{
  Reason, binds_too_many, inside_too_long, outside_too_long, set_strings, bind_data, add_binds,
  set_binds,
}
use libsbox.Container.SetTask.Spec.{Bound, Some}

-- Strings within both limits are packed; otherwise the worker dies and says which limit it is.
pub set_strings_lem :
    (E : Reason → Type 0) (too_many too_large : Reason) (mi mt : ℕ) (v : PlainStringVector)
    (old strs : List (List ℕ))
    → (mi < length strs → E too_many)
    → (mt < total_size strs → E too_large)
    → PlainStringVector.Packs mi mt v old
    → Runs E
        (λ w. PlainStringVector.Packs mi mt w strs)
        (set_strings too_many too_large mi mt v strs)
unfolding set_strings
set_strings_lem E too_many too_large mi mt v old strs many large h =
    elim (Bool-cases (ltb mi (length strs))) [
      | inl over ↦ rw over (dies too_many refl (many (ltb→lt _ _ over)))
      | inr few ↦ elim (Bool-cases (ltb mt (total_size strs))) [
        | inl over ↦ rw (few, over) (dies too_large refl (large (ltb→lt _ _ over)))
        | inr small ↦
            let (c, r, cleared) = Laws.clear_ok mi mt v old h in
            let (w, r', packed) =
              Laws.add_all_ok mi mt c [] strs cleared (ground arith) (ground arith) in
            rw (few, small, r, r') (returns w refl packed)
      ]
    ]

-- What a BindData stands for.
abbrev pub Copies : BindRule → BindData → Type 0
Copies b d =
    (PlainString.to_list d.inside ≡ b.inside)
    × (PlainString.to_list d.outside ≡ b.outside)
    × (d.flags ≡ b.flags)

bind_data_lem :
    (E : Reason → Type 0) (b : BindRule)
    → (path_max < length b.inside → E inside_too_long)
    → (path_max < length b.outside → E outside_too_long)
    → Runs E (Copies b) (bind_data b)
unfolding bind_data
bind_data_lem E b long_in long_out = elim (Bool-cases (ltb path_max (length b.inside))) [
  | inl over ↦ rw over (dies inside_too_long refl (long_in (ltb→lt _ _ over)))
  | inr fits_in ↦ elim (Bool-cases (ltb path_max (length b.outside))) [
    | inl over ↦ rw (fits_in, over) (dies outside_too_long refl (long_out (ltb→lt _ _ over)))
    | inr fits_out ↦
        let fresh = (Assign.default-IsValid path_max (omega arith)).0 in
        let (i, r, vi, ti) =
          Assign.assign_ok path_max (PlainString.default path_max) b.inside fresh (ground arith) in
        let (o, r', vo, to) =
          Assign.assign_ok path_max (PlainString.default path_max) b.outside fresh (ground arith) in
        rw (fits_in, fits_out, r, r')
          (returns (record { inside = i; outside = o; flags = b.flags }) refl (ti, to, refl))
  ]
]

Bound-snoc :
    (bs : List BindRule) (ds : List BindData) (b : BindRule) (d : BindData)
    → Bound bs ds
    → Copies b d
    → Bound (bs ++ (b ∷ [])) (ds ++ (d ∷ []))
Bound-snoc [] [] b d h c = (c.0, c.1, c.2, tt)
Bound-snoc [] (x ∷ ds) b d h c = elim h [ ]
Bound-snoc (y ∷ bs) [] b d h c = elim h [ ]
Bound-snoc (y ∷ bs) (x ∷ ds) b d h c = (h.0, h.1, h.2, Bound-snoc bs ds b d h.3 c)

Bound-length : (bs : List BindRule) (ds : List BindData) → Bound bs ds → length ds ≡ length bs
Bound-length [] [] h = refl
Bound-length [] (x ∷ ds) h = elim h [ ]
Bound-length (y ∷ bs) [] h = elim h [ ]
Bound-length (y ∷ bs) (x ∷ ds) h = ap suc (Bound-length bs ds h.3)

-- The vector holds copies of exactly these rules.
abbrev pub BindsSet : List BindRule → PlainVector BindData → Type 0
BindsSet bs v = (ds : List BindData) × PlainVector.Holds binds_max v ds × Bound bs ds

add_binds_lem :
    (E : Reason → Type 0) (v : PlainVector BindData) (done bs : List BindRule)
    → length done + length bs ≤ binds_max
    → (Some (λ b. path_max < length b.inside) bs → E inside_too_long)
    → (Some (λ b. path_max < length b.outside) bs → E outside_too_long)
    → BindsSet done v
    → Runs E (BindsSet (done ++ bs)) (add_binds v bs)
unfolding add_binds
add_binds_lem E v done [] room long_in long_out h = returns v refl (rw append-nil h)
add_binds_lem E v done (b ∷ bs) room long_in long_out (ds, holds, bound) =
    bind-Runs (bind_data b) _ (bind_data_lem E b (λ x. long_in (inl x)) (λ x. long_out (inl x)))
      λ d copies.
        let (w, r, grown) =
          VectorLaws.emplace_back_ok binds_max v ds d holds
            (omega (arith, Bound-length done ds bound)) in
        rw r (
          subst (λ l. Runs E (BindsSet l) (add_binds w bs)) (append_assoc done (b ∷ []) bs)
            (add_binds_lem E w (done ++ (b ∷ [])) bs (omega (arith, length-append done (b ∷ [])))
              (λ x. long_in (inr x)) (λ x. long_out (inr x))
              (ds ++ (d ∷ []), grown, Bound-snoc done ds b d bound copies)))

-- Binds within the limits are copied in order; otherwise the worker dies and says which limit it is.
pub set_binds_lem :
    (E : Reason → Type 0) (v : PlainVector BindData) (old : List BindData) (bs : List BindRule)
    → (binds_max < length bs → E binds_too_many)
    → (Some (λ b. path_max < length b.inside) bs → E inside_too_long)
    → (Some (λ b. path_max < length b.outside) bs → E outside_too_long)
    → PlainVector.Holds binds_max v old
    → Runs E (BindsSet bs) (set_binds v bs)
unfolding set_binds
set_binds_lem E v old bs many long_in long_out h = elim (Bool-cases (ltb binds_max (length bs))) [
  | inl over ↦ rw over (dies binds_too_many refl (many (ltb→lt _ _ over)))
  | inr few ↦
      let (c, r, cleared) = VectorLaws.clear_ok binds_max v old h in
      rw (few, r) (add_binds_lem E c [] bs (ground arith) long_in long_out ([], cleared, tt))
]
