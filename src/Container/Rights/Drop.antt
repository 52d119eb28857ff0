-- ===== src/Container/Rights/Drop.antt =====
-- What setup_credentials of src/container.cpp leaves of the rights of root.
use libsbox.Base.{ℕ, ◌<◌, ◌≡◌, ◌≢◌, refl, ◌∙◌, true, false, [], ok}
use libsbox.Container.Rights.{
  Process, IsLawful, all_of, unchanged_id, SameLimits, setup_credentials,
}

-- Every id is `id`, there are no groups and no rights, and the limits are kept.
pub record Dropped (P : Process) (id : ℕ) (s t : P.State) : Type 0 where
  pub uids : P.uids t ≡ all_of id
  pub gids : P.gids t ≡ all_of id
  pub groups : P.groups t ≡ []
  pub unprivileged : P.privileged t ≡ false
  pub limits : SameLimits P s t

pub setup_credentials-Dropped :
    (P : Process) (lawful : IsLawful P) (s : P.State) (id : ℕ)
    → P.privileged s ≡ true
    → id ≢ 0
    → id < unchanged_id
    → (t : P.State) × (setup_credentials P s id ≡ ok t) × Dropped P id s t
unfolding setup_credentials
setup_credentials-Dropped P lawful s id root nonzero given =
    let (s1, e1, gid1, uid1, groups1, root1, limits1) = lawful.setresgid_lem s id root given in
    let (s2, e2, groups2, uid2, gid2, root2, limits2) = lawful.setgroups_lem s1 [] root1 in
    let (s3, e3, uid3, gid3, groups3, root3, limits3) =
      lawful.setresuid_lem s2 id root2 nonzero given in
    let (s4, e4, same, limits4) = lawful.setpgrp_lem s3 in
    (
      s4,
      rw (e1, e2, e3, e4) refl,
      record {
        uids = same.uids ∙ uid3;
        gids = same.gids ∙ gid3 ∙ gid2 ∙ gid1;
        groups = same.groups ∙ groups3 ∙ groups2;
        unprivileged = same.privileged ∙ root3;
        limits = λ r. limits4 r ∙ limits3 r ∙ limits2 r ∙ limits1 r;
      },
    )
