-- ===== src/Tests/Runs.antt =====
-- A request of two tasks that a worker answers, and a configuration file.
use mathlib.Core.List.Perm
use libsbox.Base.{ℕ, ◌≡◌, ◌↔◌, ℤ, pos, true, [], Option, none, some, codes, ok}
use libsbox.Pipes.{Pipes}
use libsbox.Task.Json
use libsbox.Worker.Tasks.{Course}
use libsbox.Config.{Config, Source, load}
use libsbox.Config.Load.{Describes, load_lem}
use libsbox.Tests.Tasks.{wakes, world, measures}
use libsbox.Tests.Requests.{plain}

-- Every slave is killed for its time.
abbrev pub course : Course
course = record { wakes = wakes; world = world; measures = measures }

abbrev pub no_pipes : Pipes
no_pipes = record { table = []; shut = []; closes = λ fd. true; supply = [] }

abbrev natural : ℤ → Option ℕ
natural (pos n) = some n
natural _ = none

abbrev document : Json.Json
document = Json.object (
    Json.member (codes "num_boxes") (Json.int (pos 4)) (
      Json.member (codes "socket_path") (Json.string (codes "/run/s")) (
        Json.member (codes "first_uid") (Json.int (pos 1000)) (
          Json.member (codes "box_dir") (Json.string (codes "/box")) (
            Json.member (codes "cgroup_root") (Json.string (codes "/cg"))
              (Json.member (codes "timer_interval_ms") (Json.int64 (pos 50)) Json.end))))))

abbrev source : Source plain
source = record {
  open_file = λ path. some [];
  parse_stream = λ text. some document;
  get_uint = λ j. elim j [ Json.int n ↦ natural n | _ ↦ none ];
}

abbrev pub config : Config
config = record {
  num_boxes = 4;
  socket_path = codes "/run/s";
  first_uid = 1000;
  box_dir = codes "/box";
  cgroup_root = codes "/cg";
  timer_interval_ms = 50;
}

load_lem_example :
    (load plain source (codes "/etc/conf.json") ≡ ok config)
    ↔ Describes plain source (codes "/etc/conf.json") config
load_lem_example = load_lem plain source (codes "/etc/conf.json") config
