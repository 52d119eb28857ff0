-- ===== src/Container/Rights/Limits.antt =====
-- The limits that setup_rlimits of src/container.cpp leaves.
use libsbox.Base.{
  ℕ, ◌≤◌, false, ◌≡◌, refl, ap, ◌∙◌, ℤ, minus_one, eq_ℤ, true, Bool-cases, inl, inr, if◌then◌else◌,
  ok,
}
use libsbox.Container.TaskData.{TaskData}
use libsbox.Container.Rights.{
  Process, IsLawful, Resource, fsize, core, stack, nofile, nproc, memlock, msgqueue, other, Limit,
  SameRights, same, rlim_infinity, to_unsigned, set_rlimit_ext, set_if_limited, setup_rlimits,
}

abbrev pub both : ℕ → Limit
both n = record { soft = n; hard = n }

-- The limit that a task's number stands for: none for -1.
abbrev pub limited : Limit → ℤ → Limit
limited old limit = if eq_ℤ limit minus_one then old else both (to_unsigned limit)

-- max_threads is a limit in any case: -1 sets it to infinity.
abbrev pub threads : TaskData → ℕ
threads d = if eq_ℤ d.max_threads minus_one then rlim_infinity else to_unsigned d.max_threads

-- The limits of the box, from those before.
abbrev pub boxed : TaskData → (Resource → Limit) → Resource → Limit
boxed d old fsize = limited (old fsize) d.fsize_limit_kb
boxed d old core = both 0
boxed d old stack = both rlim_infinity
boxed d old nofile = limited (old nofile) d.max_files
boxed d old nproc = both (threads d)
boxed d old memlock = both 0
boxed d old msgqueue = both 0
boxed d old (other n) = old (other n)

-- One limit is set and nothing else.
record Step (P : Process) (s t : P.State) (r : Resource) (l : Limit) : Type 0 where
  limits : (q : Resource) → P.limit t q ≡ (if same r q then l else P.limit s q)
  rights : SameRights P s t

SameRights-trans :
    {P : Process} {s t u : P.State} → SameRights P s t → SameRights P t u → SameRights P s u
SameRights-trans a b = record {
  uids = b.uids ∙ a.uids;
  gids = b.gids ∙ a.gids;
  groups = b.groups ∙ a.groups;
  privileged = b.privileged ∙ a.privileged;
}

set_rlimit_ext-Step :
    (P : Process) (lawful : IsLawful P) (s : P.State) (r : Resource) (n : ℕ)
    → P.privileged s ≡ true
    → (same nofile r ≡ true → n ≤ P.nr_open)
    → (t : P.State) × (set_rlimit_ext P s r n ≡ ok t) × Step P s t r (both n)
unfolding set_rlimit_ext
set_rlimit_ext-Step P lawful s r n root small =
    let (t, e, limits, rights) = lawful.setrlimit_lem s r (both n) root small in
    (t, rw e refl, record { limits = limits; rights = rights })

fsize-kept :
    (old : Resource → Limit) (q : Resource) → old q ≡ (if same fsize q then old fsize else old q)
fsize-kept old fsize = refl
fsize-kept old core = refl
fsize-kept old stack = refl
fsize-kept old nofile = refl
fsize-kept old nproc = refl
fsize-kept old memlock = refl
fsize-kept old msgqueue = refl
fsize-kept old (other n) = refl

nofile-kept :
    (old : Resource → Limit) (q : Resource) → old q ≡ (if same nofile q then old nofile else old q)
nofile-kept old fsize = refl
nofile-kept old core = refl
nofile-kept old stack = refl
nofile-kept old nofile = refl
nofile-kept old nproc = refl
nofile-kept old memlock = refl
nofile-kept old msgqueue = refl
nofile-kept old (other n) = refl

set_if_limited-Step :
    (P : Process) (lawful : IsLawful P) (s : P.State) (r : Resource) (n : ℤ)
    → ((q : Resource) → P.limit s q ≡ (if same r q then P.limit s r else P.limit s q))
    → P.privileged s ≡ true
    → (same nofile r ≡ true → eq_ℤ n minus_one ≡ false → to_unsigned n ≤ P.nr_open)
    → (t : P.State) × (set_if_limited P s r n ≡ ok t) × Step P s t r (limited (P.limit s r) n)
unfolding set_if_limited
set_if_limited-Step P lawful s r n kept root small = elim (Bool-cases (eq_ℤ n minus_one)) [
  | inl unlimited ↦ (
    s,
    rw unlimited refl,
    record {
      limits = rw unlimited kept;
      rights = record { uids = refl; gids = refl; groups = refl; privileged = refl };
    },
  )
  | inr given ↦
      rw given (set_rlimit_ext-Step P lawful s r (to_unsigned n) root (λ e. small e given))
]

-- The seven steps of setup_rlimits one after the other.
steps-boxed :
    (d : TaskData) {f0 f1 f2 f3 f4 f5 f6 f7 : Resource → Limit}
    → ((q : Resource) → f1 q ≡ (if same fsize q then limited (f0 fsize) d.fsize_limit_kb else f0 q))
    → ((q : Resource) → f2 q ≡ (if same core q then both 0 else f1 q))
    → ((q : Resource) → f3 q ≡ (if same stack q then both rlim_infinity else f2 q))
    → ((q : Resource) → f4 q ≡ (if same nofile q then limited (f3 nofile) d.max_files else f3 q))
    → ((q : Resource) → f5 q ≡ (if same nproc q then both (threads d) else f4 q))
    → ((q : Resource) → f6 q ≡ (if same memlock q then both 0 else f5 q))
    → ((q : Resource) → f7 q ≡ (if same msgqueue q then both 0 else f6 q))
    → (r : Resource) → f7 r ≡ boxed d f0 r
steps-boxed d l1 l2 l3 l4 l5 l6 l7 fsize =
    l7 fsize ∙ l6 fsize ∙ l5 fsize ∙ l4 fsize ∙ l3 fsize ∙ l2 fsize ∙ l1 fsize
steps-boxed d l1 l2 l3 l4 l5 l6 l7 core = l7 core ∙ l6 core ∙ l5 core ∙ l4 core ∙ l3 core ∙ l2 core
steps-boxed d l1 l2 l3 l4 l5 l6 l7 stack = l7 stack ∙ l6 stack ∙ l5 stack ∙ l4 stack ∙ l3 stack
steps-boxed d l1 l2 l3 l4 l5 l6 l7 nofile =
    l7 nofile
    ∙ l6 nofile
    ∙ l5 nofile
    ∙ l4 nofile
    ∙ ap (λ l. limited l d.max_files) (l3 nofile ∙ l2 nofile ∙ l1 nofile)
steps-boxed d l1 l2 l3 l4 l5 l6 l7 nproc = l7 nproc ∙ l6 nproc ∙ l5 nproc
steps-boxed d l1 l2 l3 l4 l5 l6 l7 memlock = l7 memlock ∙ l6 memlock
steps-boxed d l1 l2 l3 l4 l5 l6 l7 msgqueue = l7 msgqueue
steps-boxed d l1 l2 l3 l4 l5 l6 l7 (other n) =
    l7 (other n)
    ∙ l6 (other n)
    ∙ l5 (other n)
    ∙ l4 (other n)
    ∙ l3 (other n)
    ∙ l2 (other n)
    ∙ l1 (other n)

never : {A : Type 0} → false ≡ true → A
never e = cc

-- The number of files that a task may open is one that the kernel allows.
abbrev pub FilesFit : Process → TaskData → Type 0
FilesFit P d = eq_ℤ d.max_files minus_one ≡ false → to_unsigned d.max_files ≤ P.nr_open

-- The limits of the box are `boxed`, and the rights are as before.
pub record Boxed (P : Process) (d : TaskData) (s t : P.State) : Type 0 where
  pub limits : (r : Resource) → P.limit t r ≡ boxed d (P.limit s) r
  pub rights : SameRights P s t

pub setup_rlimits-Boxed :
    (P : Process) (lawful : IsLawful P) (s : P.State) (d : TaskData)
    → P.privileged s ≡ true
    → FilesFit P d
    → (t : P.State) × (setup_rlimits P s d ≡ ok t) × Boxed P d s t
unfolding setup_rlimits
setup_rlimits-Boxed P lawful s0 d root fit =
    let (s1, e1, p1) =
      set_if_limited-Step P lawful s0 fsize d.fsize_limit_kb (fsize-kept (P.limit s0)) root never in
    let r1 = p1.rights in
    let (s2, e2, p2) = set_rlimit_ext-Step P lawful s1 core 0 (r1.privileged ∙ root) never in
    let r2 = SameRights-trans {P = P} r1 p2.rights in
    let (s3, e3, p3) =
      set_rlimit_ext-Step P lawful s2 stack rlim_infinity (r2.privileged ∙ root) never in
    let r3 = SameRights-trans {P = P} r2 p3.rights in
    let (s4, e4, p4) =
      set_if_limited-Step P lawful s3 nofile d.max_files (nofile-kept (P.limit s3))
        (r3.privileged ∙ root) (λ e. fit) in
    let r4 = SameRights-trans {P = P} r3 p4.rights in
    let (s5, e5, p5) =
      set_rlimit_ext-Step P lawful s4 nproc (threads d) (r4.privileged ∙ root) never in
    let r5 = SameRights-trans {P = P} r4 p5.rights in
    let (s6, e6, p6) = set_rlimit_ext-Step P lawful s5 memlock 0 (r5.privileged ∙ root) never in
    let r6 = SameRights-trans {P = P} r5 p6.rights in
    let (s7, e7, p7) = set_rlimit_ext-Step P lawful s6 msgqueue 0 (r6.privileged ∙ root) never in
    (
      s7,
      rw (e1, e2, e3, e4, e5, e6, e7) refl,
      record {
        limits =
            steps-boxed d {f0 = P.limit s0} {f1 = P.limit s1} {f2 = P.limit s2} {f3 = P.limit s3}
              {f4 = P.limit s4} {f5 = P.limit s5} {f6 = P.limit s6} {f7 = P.limit s7} p1.limits
              p2.limits p3.limits p4.limits p5.limits p6.limits p7.limits;
        rights = SameRights-trans {P = P} r6 p7.rights;
      },
    )
