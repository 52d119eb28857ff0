-- ===== src/Tests/Exchanges.antt =====
-- One request of one task, whose texts are told by the first name in the task.
use libsbox.Base.{
  ℕ, ◌≡◌, refl, arith, pos, true, List, [], ◌∷◌, Option, some, map, replicate, text_eq,
  if◌then◌else◌, codes, ok,
}
use libsbox.Task.Json
use libsbox.Transfer.{bytes, end_of_stream}
use libsbox.Exchange.{
  Wire, IsLawful, Connection, request_json, response_json, task_array,
  parse_and_validate_json_request, run_together,
}
use libsbox.Exchange.RoundTrip.{requested, answered, Receives, run_together-answered}
use libsbox.Tests.Requests.{plain, plain-IsLawful, job, job-RequestFits, done, done-ResponseFits}

abbrev first_name : Json.Json → List ℕ
first_name
      (Json.object (
        Json.member k
          (Json.array (Json.element (Json.object (Json.member key j rest)) more))
          Json.end)) =
    key
first_name _ = codes "?"

abbrev read_text : List ℕ → Option Json.Json
read_text text =
    if text_eq text (codes "time_limit_ms")
    then some (request_json (job ∷ []))
    else some (response_json (done ∷ []))

abbrev wire : Wire plain
wire = record {
  text = first_name;
  parse = read_text;
  valid_request = λ v. true;
  valid_response = λ v. true;
}

wire-IsLawful : IsLawful plain wire (job ∷ []) (done ∷ [])
unfolding request_json response_json task_array Json.serialize_request Json.serialize_response
wire-IsLawful = record {
  parse-request = refl;
  parse-response = refl;
  response-NulFree = (
    omega arith,
    (
      omega arith,
      (
        omega arith,
        (
          omega arith,
          (
            omega arith,
            (
              omega arith,
              (
                omega arith,
                (
                  omega arith,
                  (omega arith, (omega arith, (omega arith, (omega arith, (omega arith, tt))))),
                ),
              ),
            ),
          ),
        ),
      ),
    ),
  );
  request-valid = refl;
  response-valid = refl;
}

abbrev connection : Connection
connection = record {
  created = true;
  connected = true;
  sent = pos 14;
  buf = replicate 1024 0;
  received = bytes (codes "time_us") ∷ bytes (codes "age_ms") ∷ end_of_stream ∷ [];
  schema_valid = true;
}

connection-Receives :
    Receives plain plain-IsLawful wire connection
      (wire.text (request_json (job ∷ [])))
      (wire.text (response_json (done ∷ [])))
unfolding request_json response_json task_array Json.serialize_request Json.serialize_response
connection-Receives = record {
  chunks = codes "time_us" ∷ codes "age_ms" ∷ [];
  rest = [];
  created = refl;
  connected = refl;
  sent = refl;
  buffer = refl;
  fit = (omega arith, (omega arith, tt));
  whole = refl;
  received = refl;
  schema_valid = refl;
}

run_together-answered_example :
    (parse_and_validate_json_request plain wire (wire.text (request_json (job ∷ [])))
      ≡ ok (map requested (job ∷ [])))
    × (run_together plain wire (job ∷ []) connection ≡ ok (answered (job ∷ []) (done ∷ [])))
run_together-answered_example =
    run_together-answered plain plain-IsLawful wire (job ∷ []) (done ∷ []) connection wire-IsLawful
      (job-RequestFits, tt) (done-ResponseFits, tt) refl connection-Receives
