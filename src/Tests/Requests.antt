-- ===== src/Tests/Requests.antt =====
-- A reader of JSON that keeps what the writer wrote, and a task with all its parts.
use libsbox.Base.{
  ◌≡◌, refl, ap, arith, pos, true, false, List, [], ◌∷◌, Option, none, some, codes, ok,
}
use libsbox.Task.{Task, new_task}
use libsbox.Task.Json
use libsbox.Task.Json.RoundTrip.{
  RequestFits, ResponseFits, deserialize-serialize_request, deserialize-serialize_response,
}

abbrev elements : Json.Elements → List Json.Json
elements Json.no_more = []
elements (Json.element j rest) = j ∷ elements rest

abbrev pub plain : Json.Rapidjson
plain = record {
  Value = Json.Json;
  read = λ j. j;
  is_object = λ j. elim j [ Json.object ms ↦ true | _ ↦ false ];
  is_null = λ j. false;
  find_member = λ j key. elim j [ Json.object ms ↦ Json.lookup key ms | _ ↦ none ];
  get_string = λ j. elim j [ Json.string s ↦ some s | _ ↦ none ];
  get_int = λ j. elim j [ Json.int n ↦ some n | _ ↦ none ];
  get_int64 = λ j. elim j [ Json.int64 n ↦ some n | _ ↦ none ];
  get_bool = λ j. elim j [ Json.bool b ↦ some b | _ ↦ none ];
  get_array = λ j. elim j [ Json.array js ↦ some (elements js) | _ ↦ none ];
}

pub plain-IsLawful : Json.IsLawful plain
plain-IsLawful = record {
  object-is_object = λ ms. refl;
  object-find_member = λ ms key. same (Json.lookup key ms);
  string-is_null = λ s. refl;
  string-get_string = λ s h. refl;
  int-get_int = λ n h. refl;
  int64-get_int64 = λ n h. refl;
  bool-get_bool = λ b. refl;
  array-get_array = λ js. ap some (all js);
}
  where
    same : (o : Option Json.Json) → o ≡ Json.read_member plain o
    same none = refl
    same (some j) = refl

    all : (js : Json.Elements) → elements js ≡ Json.read_all plain js
    all Json.no_more = refl
    all (Json.element j rest) = ap (◌∷◌ j) (all rest)

abbrev pub job : Task
job = record new_task {
  time_limit_ms = pos 1000;
  stdout = record { filename = codes "@p" };
  argv = codes "ls" ∷ codes "-l" ∷ [];
  env = codes "A=1" ∷ [];
  binds = record { inside = codes "in"; outside = codes "/out"; flags = 5 } ∷ [];
}

abbrev pub done : Task
done = record job { time_usage_ms = pos 12; exited = true; exit_code = pos 1 }

pub job-RequestFits : RequestFits job
unfolding new_task
job-RequestFits = record {
  time_limit_ms = (omega arith, omega arith);
  wall_time_limit_ms = (omega arith, omega arith);
  memory_limit_kb = (omega arith, omega arith);
  fsize_limit_kb = (omega arith, omega arith);
  max_files = (omega arith, omega arith);
  max_threads = (omega arith, omega arith);
  stdin = tt;
  stdout = (omega arith, (omega arith, tt));
  stderr = tt;
  argv = ((omega arith, (omega arith, tt)), ((omega arith, (omega arith, tt)), tt));
  env = ((omega arith, (omega arith, (omega arith, tt))), tt);
  binds = (
    (
      (omega arith, (omega arith, tt)),
      (omega arith, (omega arith, (omega arith, (omega arith, tt)))),
      omega arith,
    ),
    tt,
  );
}

pub done-ResponseFits : ResponseFits done
unfolding new_task
done-ResponseFits = record {
  time_usage_ms = (omega arith, omega arith);
  time_usage_sys_ms = (omega arith, omega arith);
  time_usage_user_ms = (omega arith, omega arith);
  wall_time_usage_ms = (omega arith, omega arith);
  memory_usage_kb = (omega arith, omega arith);
  exit_code = (omega arith, omega arith);
  term_signal = (omega arith, omega arith);
}

deserialize-serialize_request_example :
    Json.deserialize_request plain new_task (Json.serialize_request job) ≡ ok job
unfolding new_task
deserialize-serialize_request_example =
    deserialize-serialize_request plain plain-IsLawful job new_task job-RequestFits

deserialize-serialize_response_example :
    Json.deserialize_response plain job (Json.serialize_response done) ≡ ok done
unfolding new_task
deserialize-serialize_response_example =
    deserialize-serialize_response plain plain-IsLawful done job done-ResponseFits
