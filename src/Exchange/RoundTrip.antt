-- ===== src/Exchange/RoundTrip.antt =====
-- What arrives at the worker and at the client of one request.
use libsbox.Base.{
  ℕ, suc, ◌≡◌, refl, ap, ◌∙◌, subst, sym, arith, pos, true, not, ◌||◌, List, [], ◌∷◌, ◌++◌, map,
  length, ◌==◌, ==_iff, some, ok, err, ltb_ℤ,
}
use libsbox.Memory.{NulFree, c_str}
use libsbox.Task.{Task, new_task}
use libsbox.Task.Json
use libsbox.Task.Json.{Rapidjson, serialize_request, serialize_response}
use libsbox.Task.Json.RoundTrip.{
  RequestFits, ResponseFits, deserialize-serialize_request, deserialize-serialize_response,
}
use libsbox.Transfer.{Received, bytes, end_of_stream}
use libsbox.Transfer.Request.{joined, AllFit}
use libsbox.Transfer.Whole.{read_all-joined}
use libsbox.Exchange.{
  Wire, IsLawful, Connection, remote, task_array, request_json, response_json, error_json,
  read_tasks, parse_and_validate_json_request, read_results, read_response, run_together,
}

-- The parameters of the client's task, and nothing else.
abbrev pub requested : Task → Task
requested t = record new_task {
  time_limit_ms = t.time_limit_ms;
  wall_time_limit_ms = t.wall_time_limit_ms;
  memory_limit_kb = t.memory_limit_kb;
  fsize_limit_kb = t.fsize_limit_kb;
  max_files = t.max_files;
  max_threads = t.max_threads;
  need_ipc = t.need_ipc;
  use_standard_binds = t.use_standard_binds;
  stdin = t.stdin;
  stdout = t.stdout;
  stderr = t.stderr;
  argv = t.argv;
  env = t.env;
  binds = t.binds;
}

-- The client's task with the results of the worker's.
abbrev pub with_results : Task → Task → Task
with_results t u = record t {
  time_usage_ms = u.time_usage_ms;
  time_usage_sys_ms = u.time_usage_sys_ms;
  time_usage_user_ms = u.time_usage_user_ms;
  wall_time_usage_ms = u.wall_time_usage_ms;
  memory_usage_kb = u.memory_usage_kb;
  time_limit_exceeded = u.time_limit_exceeded;
  wall_time_limit_exceeded = u.wall_time_limit_exceeded;
  exited = u.exited;
  exit_code = u.exit_code;
  signaled = u.signaled;
  term_signal = u.term_signal;
  oom_killed = u.oom_killed;
  memory_limit_hit = u.memory_limit_hit;
}

abbrev pub answered : List Task → List Task → List Task
answered [] us = []
answered (t ∷ ts) [] = []
answered (t ∷ ts) (u ∷ us) = with_results t u ∷ answered ts us

abbrev pub Each : (Task → Type 0) → List Task → Type 0
Each P [] = Unit
Each P (t ∷ ts) = P t × Each P ts

module _ (J : Rapidjson) (lawful : Json.IsLawful J) (W : Wire J) where
  read_tasks-requested :
      (ts : List Task)
      → Each RequestFits ts
      → read_tasks J W (Json.read_all J (task_array serialize_request ts)) ≡ ok (map requested ts)
  unfolding read_tasks task_array
  read_tasks-requested [] fits = refl
  read_tasks-requested (t ∷ ts) fits =
      rw (deserialize-serialize_request J lawful t new_task fits.0, read_tasks-requested ts fits.1)
        refl

  pub parse-requested :
      (ts us : List Task)
      → IsLawful J W ts us
      → Each RequestFits ts
      → parse_and_validate_json_request J W (W.text (request_json ts)) ≡ ok (map requested ts)
  unfolding parse_and_validate_json_request request_json
  parse-requested ts us wired fits =
      rw
        (
          wired.parse-request, wired.request-valid, lawful.object-find_member,
          lawful.array-get_array,
        )
        (read_tasks-requested ts fits)

  read_results-answered :
      (ts us : List Task)
      → length us ≡ length ts
      → Each ResponseFits us
      → read_results J W ts (Json.read_all J (task_array serialize_response us))
        ≡ ok (answered ts us)
  unfolding read_results task_array
  read_results-answered [] us same fits = refl
  read_results-answered (t ∷ ts) [] same fits = absurd (omega (arith, same))
  read_results-answered (t ∷ ts) (u ∷ us) same fits =
      rw
        (
          deserialize-serialize_response J lawful u t fits.0,
          read_results-answered ts us (omega (arith, same)) fits.1,
        )
        refl

  length_read :
      (us : List Task) → length (Json.read_all J (task_array serialize_response us)) ≡ length us
  unfolding task_array
  length_read [] = refl
  length_read (u ∷ us) = ap suc (length_read us)

  read_response-answered :
      (ts us : List Task)
      → IsLawful J W ts us
      → length us ≡ length ts
      → Each ResponseFits us
      → read_response J W ts (W.text (response_json us)) ≡ ok (answered ts us)
  unfolding read_response response_json
  read_response-answered ts us wired same fits =
      rw
        (
          wired.parse-response,
          wired.response-valid,
          lawful.object-find_member,
          lawful.object-find_member,
          lawful.array-get_array,
          (==_iff _ _).1 (length_read us ∙ same),
        )
        (read_results-answered ts us same fits)

  -- A response that reports an error gives the client that error.
  pub read_response-remote :
      (ts : List Task) (message : List ℕ)
      → W.parse (W.text (error_json message)) ≡ some (J.read (error_json message))
      → W.valid_response (J.read (error_json message)) ≡ true
      → NulFree message
      → read_response J W ts (W.text (error_json message)) ≡ err (remote message)
  unfolding read_response error_json
  read_response-remote ts message parsed valid free =
      rw (parsed, valid, lawful.object-find_member, lawful.string-get_string message free) refl

  sent_whole : (n : ℕ) → not (ltb_ℤ (pos n) (pos 0) || not (n == n)) ≡ true
  sent_whole n = ground arith

  -- The client's calls succeed, and it receives that text, in chunks that fit its buffer.
  pub record Receives (c : Connection) (message response : List ℕ) : Type 0 where
    pub chunks : List (List ℕ)
    pub rest : List Received
    pub created : c.created ≡ true
    pub connected : c.connected ≡ true
    pub sent : c.sent ≡ pos (length (c_str message))
    pub buffer : length c.buf ≡ 1024
    pub fit : AllFit 1024 chunks
    pub whole : joined chunks ≡ response
    pub received : c.received ≡ map bytes chunks ++ (end_of_stream ∷ rest)
    pub schema_valid : c.schema_valid ≡ true

  -- For tasks with numbers in their C++ range and strings without NUL, texts that RapidJSON parses
  -- to what was written and the schemas accept, and calls of the client that succeed: the worker
  -- reads from the request exactly the tasks with the client's parameters, and run_together,
  -- however the response is cut into chunks, gives each task exactly the results of its place in
  -- the response and keeps its parameters.
  pub run_together-answered :
      (ts us : List Task) (c : Connection)
      → IsLawful J W ts us
      → Each RequestFits ts
      → Each ResponseFits us
      → length us ≡ length ts
      → Receives c (W.text (request_json ts)) (W.text (response_json us))
      → (parse_and_validate_json_request J W (W.text (request_json ts)) ≡ ok (map requested ts))
        × (run_together J W ts c ≡ ok (answered ts us))
  unfolding run_together
  run_together-answered ts us c wired fits results same r =
      let free : NulFree (joined r.chunks) = subst NulFree (sym r.whole) wired.response-NulFree in
      let arrived = read_all-joined 1024 c.buf [] r.chunks r.rest r.buffer r.fit free in
      (
        parse-requested ts us wired fits,
        rw
            (
              r.created,
              r.connected,
              r.sent,
              sent_whole (length (c_str (W.text (request_json ts)))),
              r.received,
              arrived,
              r.schema_valid,
              r.whole,
            )
            (read_response-answered ts us wired same results),
      )
