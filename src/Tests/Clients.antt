-- ===== src/Tests/Clients.antt =====
-- A client with one task, a worker that is idle, and a connection that brings one byte at a time.
use mathlib.Core.List.Perm
use libsbox.Base.{ℕ, pos, true, List, [], ◌∷◌, ◌++◌, map, length, replicate}
use libsbox.Memory.{c_str}
use libsbox.Crash.{Runs}
use libsbox.Task.{Task}
use libsbox.Transfer.{bytes, end_of_stream}
use libsbox.Exchange.{Wire, Connection, request_json}
use libsbox.Worker.Respond.{Around, Kept}
use libsbox.Tests.Requests.{plain, job}
use libsbox.Tests.Tasks.{fresh}
use libsbox.Tests.Runs.{course, no_pipes}
use libsbox.Tests.Workers.{idle}
use libsbox.Tests.Wire.{write, parse}

abbrev wire : Wire plain
wire = record { text = write; parse = parse; valid_request = λ v. true; valid_response = λ v. true }

abbrev one_each : List ℕ → List (List ℕ)
one_each [] = []
one_each (b ∷ bs) = (b ∷ []) ∷ one_each bs

abbrev bytewise : List ℕ → List ℕ → Connection
bytewise message response = record {
  created = true;
  connected = true;
  sent = pos (length (c_str message));
  buf = replicate 1024 0;
  received = map bytes (one_each response) ++ (end_of_stream ∷ []);
  schema_valid = true;
}

abbrev around : Around
around = record { memories = λ c. fresh; course = λ c. course; order = λ cs. cs }

abbrev quiet_job : Task
quiet_job = record job { stdout = record { filename = [] } }

abbrev kept : Kept
kept = record { requests = 0; pipes = no_pipes; worker = idle }

abbrev request : List ℕ
request = write (request_json (quiet_job ∷ []))
