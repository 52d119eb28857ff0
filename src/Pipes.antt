-- ===== src/Pipes.antt =====
-- The pipes of one request: Worker::get_pipe and Worker::close_pipes of src/worker.cpp. `table` is
-- `pipes_`, and `shut` the descriptors that close_pipes has closed so far. pipe(2) belongs to the kernel: `supply` lists the descriptor pairs that its successive
-- calls return, and a call with no pair left fails;
-- `closes` says for which descriptors close(2) succeeds.
pub mod Laws
pub mod Closing
use libsbox.Base.{
  ℕ, ◌≡◌, Bool, true, false, List, [], ◌∷◌, Option, none, some, if◌then◌else◌, text_eq, Result, ok,
  err, ◌>>=◌, ◌>>◌, guard,
}
use libsbox.Crash.{Crash, died}

pub record Pipes : Type 0 where
  pub table : List (List ℕ × (ℕ × ℕ))
  pub shut : List ℕ
  pub supply : List (ℕ × ℕ)
  pub closes : ℕ → Bool

-- pipes_.find(pipe_name)
unfoldable pub find : List ℕ → List (List ℕ × (ℕ × ℕ)) → Option (ℕ × ℕ)
find name [] = none
find name ((n, fds) ∷ rest) = if text_eq n name then some fds else find name rest

-- The new pipe, or nothing if pipe(2) fails.
pub create : Pipes → List ℕ → List (ℕ × ℕ) → Option ((ℕ × ℕ) × Pipes)
create p name [] = none
create p name (fds ∷ supply) =
    some (fds, record p { table = (name, fds) ∷ p.table; supply = supply })

-- `none` if the worker dies because it cannot create the pipe
unfoldable pub get_pipe : Pipes → List ℕ → Option ((ℕ × ℕ) × Pipes)
unfolding find create
get_pipe p name = elim (find name p.table) [
  | some fds ↦ some (fds, p)
  | none ↦ create p name p.supply
]

-- The two ends that could not be closed; the worker dies there.
pub data CloseReason : Type 0 where
  cannot_close_read cannot_close_write : ℕ → CloseReason

-- The loop of close_pipes.
unfoldable pub close_each :
    (ℕ → Bool) → List (List ℕ × (ℕ × ℕ)) → List ℕ → Result (Crash CloseReason) (List ℕ)
close_each closes [] shut = ok shut
close_each closes ((n, (reading, writing)) ∷ rest) shut = do
  guard (closes reading) (died (cannot_close_read reading))
  guard (closes writing) (died (cannot_close_write writing))
  close_each closes rest (reading ∷ writing ∷ shut)

unfoldable pub close_pipes : Pipes → Result (Crash CloseReason) Pipes
unfolding close_each
close_pipes p = do
  shut ← close_each p.closes p.table p.shut
  ok (record p { table = []; shut = shut })
