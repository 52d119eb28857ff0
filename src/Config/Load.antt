-- ===== src/Config/Load.antt =====
-- What src/config.cpp reads, and that it reads it once.
use libsbox.Base.{
  ℕ, ◌≡◌, inl, inr, refl, ap, subst, ◌∙◌, ℤ, true, Bool-cases, List, Option, some, codes, ok,
  >>=-eq-ok, or_fail, or_fail-ok, guard, guard-ok, ok-injective, sym, ◌↔◌,
}
use libsbox.Crash.{died}
use libsbox.Task.Json.{Rapidjson}
use libsbox.Container.Rights.{to_unsigned}
use libsbox.Config.{
  Config, Statics, cannot_open, cannot_parse, incorrect, assertion_failed, Source, get_member,
  read_config, load, get, set_path,
}

module _ (J : Rapidjson) (S : Source J) where
  -- The document has a member of that name, which the getter takes to the value.
  abbrev pub Has : {A : Type 0} → (J.Value → Option A) → J.Value → List ℕ → A → Type 0
  Has getter document key a =
      (v : J.Value) × (J.find_member document key ≡ some v) × (getter v ≡ some a)

  -- The file holds a JSON object with the six members of the right types.
  pub record Describes (path : List ℕ) (c : Config) : Type 0 where
    pub text : List ℕ
    pub document : J.Value
    pub interval : ℤ
    pub opens : S.open_file path ≡ some text
    pub parses : S.parse_stream text ≡ some document
    pub object : J.is_object document ≡ true
    pub num_boxes : Has S.get_uint document (codes "num_boxes") c.num_boxes
    pub socket_path : Has J.get_string document (codes "socket_path") c.socket_path
    pub first_uid : Has S.get_uint document (codes "first_uid") c.first_uid
    pub box_dir : Has J.get_string document (codes "box_dir") c.box_dir
    pub cgroup_root : Has J.get_string document (codes "cgroup_root") c.cgroup_root
    pub has_interval : Has J.get_int64 document (codes "timer_interval_ms") interval
    pub timer_interval_ms : c.timer_interval_ms ≡ to_unsigned interval

  get_member-ok :
      {A : Type 0} (getter : J.Value → Option A) (document : J.Value) (key : List ℕ) (a : A)
      → J.is_object document ≡ true
      → Has getter document key a
      → get_member J S getter document key ≡ ok a
  unfolding get_member
  get_member-ok getter document key a object (v, found, got) = rw (object, found, got) refl

  get_member-Has :
      {A : Type 0}
      → (getter : J.Value → Option A) (document : J.Value) (key : List ℕ) (a : A)
      → get_member J S getter document key ≡ ok a
      → (J.is_object document ≡ true) × Has getter document key a
  unfolding get_member
  get_member-Has getter document key a run =
      let (u, object, next) =
        >>=-eq-ok (guard (J.is_object document) (died assertion_failed)) _ run in
      let (v, found, got) =
        >>=-eq-ok (or_fail (J.find_member document key) (died incorrect)) _ next in
      (guard-ok (J.is_object document) _ object, (v, or_fail-ok _ _ found, or_fail-ok _ _ got))

  -- Load returns a configuration exactly if the file holds a JSON object with the six members of
  -- the right types, and then it is the one that they describe, with timer_interval_ms cut to 32
  -- bits.
  pub load_lem : (path : List ℕ) (c : Config) → (load J S path ≡ ok c) ↔ Describes path c
  unfolding load read_config
  load_lem path c = (
    (λ run.
        let (text, opens, run1) = >>=-eq-ok (or_fail (S.open_file path) (died cannot_open)) _ run in
        let (document, parses, run2) =
          >>=-eq-ok (or_fail (S.parse_stream text) (died cannot_parse)) _ run1 in
        let (num_boxes, e1, run3) =
          >>=-eq-ok (get_member J S S.get_uint document (codes "num_boxes")) _ run2 in
        let (socket_path, e2, run4) =
          >>=-eq-ok (get_member J S J.get_string document (codes "socket_path")) _ run3 in
        let (first_uid, e3, run5) =
          >>=-eq-ok (get_member J S S.get_uint document (codes "first_uid")) _ run4 in
        let (box_dir, e4, run6) =
          >>=-eq-ok (get_member J S J.get_string document (codes "box_dir")) _ run5 in
        let (cgroup_root, e5, run7) =
          >>=-eq-ok (get_member J S J.get_string document (codes "cgroup_root")) _ run6 in
        let (interval, e6, run8) =
          >>=-eq-ok (get_member J S J.get_int64 document (codes "timer_interval_ms")) _ run7 in
        let h1 = get_member-Has S.get_uint document (codes "num_boxes") num_boxes e1 in
        subst (Describes path) (ok-injective run8) (record {
          text = text;
          document = document;
          interval = interval;
          opens = or_fail-ok _ _ opens;
          parses = or_fail-ok _ _ parses;
          object = h1.0;
          num_boxes = h1.1;
          socket_path =
              (get_member-Has J.get_string document (codes "socket_path") socket_path e2).1;
          first_uid = (get_member-Has S.get_uint document (codes "first_uid") first_uid e3).1;
          box_dir = (get_member-Has J.get_string document (codes "box_dir") box_dir e4).1;
          cgroup_root =
              (get_member-Has J.get_string document (codes "cgroup_root") cgroup_root e5).1;
          has_interval =
              (get_member-Has J.get_int64 document (codes "timer_interval_ms") interval e6).1;
          timer_interval_ms = refl;
        })),
    λ d.
        rw
          (
            d.opens,
            d.parses,
            get_member-ok S.get_uint d.document (codes "num_boxes") c.num_boxes d.object
                d.num_boxes,
            get_member-ok J.get_string d.document (codes "socket_path") c.socket_path d.object
                d.socket_path,
            get_member-ok S.get_uint d.document (codes "first_uid") c.first_uid d.object
                d.first_uid,
            get_member-ok J.get_string d.document (codes "box_dir") c.box_dir d.object d.box_dir,
            get_member-ok J.get_string d.document (codes "cgroup_root") c.cgroup_root d.object
                d.cgroup_root,
            get_member-ok J.get_int64 d.document (codes "timer_interval_ms") d.interval d.object
                d.has_interval,
            d.timer_interval_ms,
          )
          refl,
  )

  get-loaded : (s : Statics) → s.loaded ≡ true → get J S s ≡ ok (s.config, s)
  unfolding get
  get-loaded s e = rw e refl

  gives_loaded :
      (s t : Statics) (c : Config) → get J S s ≡ ok (c, t) → (t.loaded ≡ true) × (t.config ≡ c)
  unfolding get
  gives_loaded s t c run = elim (Bool-cases s.loaded) [
    | inl loaded ↦
        let both : (s.config, s) ≡ (c, t) = ok-injective (sym (get-loaded s loaded) ∙ run) in
        (
          ap (λ r. r.1.loaded) (sym both) ∙ loaded,
          ap (λ r. r.1.config) (sym both) ∙ ap (λ r. r.0) both,
        )
    | inr fresh ↦
        let (d, ran, next) = >>=-eq-ok (load J S s.path) _ (rw fresh at run) in
        let both : (d, record { loaded = true; config = d; path = s.path }) ≡ (c, t) =
          ok-injective next in
        (ap (λ r. r.1.loaded) (sym both), ap (λ r. r.1.config) (sym both) ∙ ap (λ r. r.0) both)
  ]

-- The configuration that get gives first is the one that it gives from then on.
pub get-get :
    (J : Rapidjson) (S : Source J) (s t : Statics) (c : Config)
    → get J S s ≡ ok (c, t)
    → (later : Source J) (path : List ℕ) → get J later (set_path path t) ≡ ok (c, set_path path t)
unfolding set_path
get-get J S s t c run later path =
    let (loaded, same) = gives_loaded J S s t c run in
    get-loaded J later (set_path path t) loaded ∙ ap (λ x. ok (x, set_path path t)) same
