-- ===== src/Worker/Respond/Turns.antt =====
-- A client's connection in the loop of Worker::serve of src/worker.cpp: the request arrives whole, in
-- any chunks, and is answered by Worker::process.
use libsbox.Base.{ℕ, ◌≡◌, ap, pos, true, Bool, List, ◌++◌, map, some, length, ok}
use libsbox.Memory.{NulFree, c_str}
use libsbox.Task.Json.{Rapidjson}
use libsbox.Transfer.{Received, bytes}
use libsbox.Transfer.Request.{joined, AllFit, receive_request-c_str}
use libsbox.Exchange
use libsbox.Exchange.{Wire}
use libsbox.Worker.Serve.{Turn, from_transfer}
use libsbox.Worker.Serve.Stop.{Answers}
use libsbox.Worker.Respond.{Around, Kept, respond, relabel, process_request}

module _ (J : Rapidjson) (W : Wire J) (describe : Exchange.Reason → List ℕ → List ℕ)
    (started waited : ℕ → Bool) (around : ℕ → Around) where
  -- The message arrives with its terminator, and write and close succeed.
  pub record Comes (turn : Turn) (message response : List ℕ) : Type 0 where
    pub chunks : List (List ℕ)
    pub rest : List Received
    pub connected : turn.connection ≡ some (map bytes chunks ++ rest)
    pub buffer : length turn.buf ≡ 1024
    pub fit : AllFit 1024 chunks
    pub free : NulFree message
    pub whole : joined chunks ≡ c_str message
    pub sent : turn.sent ≡ pos (length response)
    pub closed : turn.closed ≡ true

  pub respond-Answers :
      (k k' : Kept) (turn : Turn) (message response : List ℕ)
      → Comes turn message response
      → respond J W describe started waited around k message ≡ ok (response, k')
      → Answers Kept (process_request J W describe started waited around) k turn message response k'
  unfolding process_request
  respond-Answers k k' turn message response comes responds = record {
    chunks = map bytes comes.chunks ++ comes.rest;
    connected = comes.connected;
    received = ap from_transfer (
        receive_request-c_str turn.buf message comes.chunks comes.rest comes.buffer comes.fit
          comes.free comes.whole);
    processed = ap (relabel J W describe started waited around) responds;
    sent = comes.sent;
    closed = comes.closed;
  }
