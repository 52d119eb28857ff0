-- ===== src/Config.antt =====
-- src/config.cpp: the daemon's configuration, which is read from a JSON file when it is first asked
-- for. RapidJSON is the parameter `Rapidjson` of Task.Json; the file, its parsing and GetUint are
-- the parameter `Source`. An HasMember on a value that is no object is an assertion's failure.
pub mod Load
use libsbox.Base.{
  ℕ, ◌<◌, ◌^◌, ◌≡◌, ℤ, Bool, true, false, List, [], ◌∷◌, Option, none, some, codes, if◌then◌else◌,
  Result, ok, err, ◌>>=◌, ◌>>◌, guard, or_fail,
}
use libsbox.Crash.{Crash, died}
use libsbox.Task.Json.{Rapidjson}
use libsbox.Container.Rights.{to_unsigned}

pub record Config : Type 0 where
  pub num_boxes : ℕ
  pub socket_path : List ℕ
  pub first_uid : ℕ
  pub box_dir : List ℕ
  pub cgroup_root : List ℕ
  pub timer_interval_ms : ℕ

-- The static members.
pub record Statics : Type 0 where
  pub loaded : Bool
  pub config : Config
  pub path : List ℕ

pub data Reason : Type 0 where
  cannot_open cannot_parse incorrect assertion_failed : Reason

pub record Source (J : Rapidjson) : Type 0 where
  -- The file's text, and the document of a text: none where opening or parsing fails.
  pub open_file : List ℕ → Option (List ℕ)
  pub parse_stream : List ℕ → Option J.Value
  -- IsUint and GetUint
  pub get_uint : J.Value → Option ℕ

module _ (J : Rapidjson) (S : Source J) where
  abbrev pub Run : Type 0 → Type 0
  Run A = Result (Crash Reason) A

  -- GET_MEMBER
  unfoldable pub get_member : {A : Type 0} → (J.Value → Option A) → J.Value → List ℕ → Run A
  get_member getter document key = do
    guard (J.is_object document) (died assertion_failed)
    v ← or_fail (J.find_member document key) (died incorrect)
    or_fail (getter v) (died incorrect)

  unfoldable pub read_config : J.Value → Run Config
  unfolding get_member
  read_config document = do
    num_boxes ← get_member S.get_uint document (codes "num_boxes")
    socket_path ← get_member J.get_string document (codes "socket_path")
    first_uid ← get_member S.get_uint document (codes "first_uid")
    box_dir ← get_member J.get_string document (codes "box_dir")
    cgroup_root ← get_member J.get_string document (codes "cgroup_root")
    interval ← get_member J.get_int64 document (codes "timer_interval_ms")
    ok (record {
      num_boxes = num_boxes;
      socket_path = socket_path;
      first_uid = first_uid;
      box_dir = box_dir;
      cgroup_root = cgroup_root;
      timer_interval_ms = to_unsigned interval;
    })

  unfoldable pub load : List ℕ → Run Config
  unfolding read_config
  load path = do
    text ← or_fail (S.open_file path) (died cannot_open)
    document ← or_fail (S.parse_stream text) (died cannot_parse)
    read_config document

  -- Config::get, with the static members
  unfoldable pub get : Statics → Run (Config × Statics)
  unfolding load
  get s =
      if s.loaded
      then ok (s.config, s)
      else (do c ← load s.path; ok (c, record s { config = c; loaded = true }))

unfoldable pub set_path : List ℕ → Statics → Statics
set_path path s = record s { path = path }
