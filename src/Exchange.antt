-- ===== src/Exchange.antt =====
-- One request between the client and a worker: run_together of src/libsbox.cpp, and
-- Worker::parse_and_validate_json_request with the texts that Worker::process writes. The texts of a
-- Writer, the parsing and the validation are the parameter `Wire`. Where deserialize_request meets
-- a wrong member the worker dies; `partly_read` stands for that, and in the client for the Error of
-- deserialize_response, after which the partly written task is not modelled.
pub mod RoundTrip
use libsbox.Base.{
  ℕ, ◌≡◌, ℤ, pos, pos_part, ltb_ℤ, Bool, true, false, not, ◌||◌, List, [], ◌∷◌, ◌==◌, Option, none,
  some, length, codes, if◌then◌else◌, Result, ok, err, ◌>>=◌, ◌>>◌, guard, or_fail,
}
use libsbox.Memory.{NulFree, c_str}
use libsbox.Crash.{Crash, died, undefined}
use libsbox.Task.{Task, new_task}
use libsbox.Task.Json.{
  Json, string, array, object, Elements, no_more, element, members, Rapidjson, JsonError,
  serialize_request, serialize_response, deserialize_request, deserialize_response,
}
use libsbox.Transfer
use libsbox.Transfer.{Received, read_all}

-- "tasks": [...]
unfoldable pub task_array : (Task → Json) → List Task → Elements
task_array f [] = no_more
task_array f (t ∷ ts) = element (f t) (task_array f ts)

unfoldable pub request_json : List Task → Json
unfolding task_array
request_json tasks =
    object (members ((codes "tasks", array (task_array serialize_request tasks)) ∷ []))

unfoldable pub response_json : List Task → Json
unfolding task_array
response_json tasks =
    object (members ((codes "tasks", array (task_array serialize_response tasks)) ∷ []))

unfoldable pub error_json : List ℕ → Json
error_json message = object (members ((codes "error", string message) ∷ []))

pub record Wire (J : Rapidjson) : Type 0 where
  pub text : Json → List ℕ
  pub parse : List ℕ → Option J.Value
  pub valid_request : J.Value → Bool
  pub valid_response : J.Value → Bool

pub data Reason : Type 0 where
  parse_error invalid assertion_failed partly_read wrong_size : Reason
  cannot_create cannot_connect cannot_send no_validator : Reason
  cannot_receive : Crash Transfer.Reason → Reason
  remote : List ℕ → Reason

abbrev pub Run : Type 0 → Type 0
Run A = Result Reason A

abbrev pub from_json : {A : Type 0} → Result JsonError A → Result Reason A
from_json (ok a) = ok a
from_json (err e) = err partly_read

abbrev pub from_transfer : {A : Type 0} → Result (Crash Transfer.Reason) A → Result Reason A
from_transfer (ok a) = ok a
from_transfer (err why) = err (cannot_receive why)

-- What the client's calls of the kernel return, and whether the schema of responses is accepted.
pub record Connection : Type 0 where
  pub created : Bool
  pub connected : Bool
  pub sent : ℤ
  pub buf : List ℕ
  pub received : List Received
  pub schema_valid : Bool

module _ (J : Rapidjson) (W : Wire J) where
  -- The loop over document["tasks"] in the worker.
  unfoldable pub read_tasks : List J.Value → Run (List Task)
  read_tasks [] = ok []
  read_tasks (v ∷ vs) = do
    t ← from_json (deserialize_request J new_task v)
    ts ← read_tasks vs
    ok (t ∷ ts)

  abbrev pub tasks_of : J.Value → Run (List J.Value)
  tasks_of document = do
    v ← or_fail (J.find_member document (codes "tasks")) assertion_failed
    or_fail (J.get_array v) assertion_failed

  unfoldable pub parse_and_validate_json_request : List ℕ → Run (List Task)
  unfolding read_tasks
  parse_and_validate_json_request request = do
    document ← or_fail (W.parse request) parse_error
    guard (W.valid_request document) invalid
    values ← tasks_of document
    read_tasks values

  -- The loop over document["tasks"] in the client.
  unfoldable pub read_results : List Task → List J.Value → Run (List Task)
  read_results [] vs = ok []
  read_results (t ∷ ts) [] = err assertion_failed
  read_results (t ∷ ts) (v ∷ vs) = do
    u ← from_json (deserialize_response J t v)
    us ← read_results ts vs
    ok (u ∷ us)

  -- document.HasMember("error") && document["error"].IsString()
  abbrev pub error_of : Option J.Value → Option (List ℕ)
  error_of none = none
  error_of (some v) = J.get_string v

  abbrev pub no_error : Option (List ℕ) → Run (Unit {0})
  no_error none = ok tt
  no_error (some message) = err (remote message)

  -- What follows the receive loop.
  unfoldable pub read_response : List Task → List ℕ → Run (List Task)
  unfolding read_results
  read_response tasks res = do
    document ← or_fail (W.parse res) parse_error
    guard (W.valid_response document) invalid
    no_error (error_of (J.find_member document (codes "error")))
    values ← tasks_of document
    guard (length values == length tasks) wrong_size
    read_results tasks values

  unfoldable pub run_together : List Task → Connection → Run (List Task)
  unfolding request_json read_response
  run_together tasks c = do
    let message = W.text (request_json tasks)
    guard c.created cannot_create
    guard c.connected cannot_connect
    guard (not (ltb_ℤ c.sent (pos 0) || not (pos_part c.sent == length (c_str message))))
        cannot_send
    res ← from_transfer (read_all c.buf [] c.received)
    guard c.schema_valid no_validator
    read_response tasks res

-- What the client relies on for one request and its response.
pub record IsLawful (J : Rapidjson) (W : Wire J) (tasks results : List Task) : Type 0 where
  -- A document parsed from what a Writer wrote has the values written.
  pub parse-request : W.parse (W.text (request_json tasks)) ≡ some (J.read (request_json tasks))
  pub parse-response :
      W.parse (W.text (response_json results)) ≡ some (J.read (response_json results))
  -- JSON has no NUL: a Writer escapes it.
  pub response-NulFree : NulFree (W.text (response_json results))
  -- The two schemas accept what the serialize functions write.
  pub request-valid : W.valid_request (J.read (request_json tasks)) ≡ true
  pub response-valid : W.valid_response (J.read (response_json results)) ≡ true
