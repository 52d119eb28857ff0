-- ===== src/Transfer.antt =====
-- Reading in chunks: the loops of Worker::serve in src/worker.cpp, of run_together in
-- src/libsbox.cpp and of read_file in src/utils.cpp. What the calls of recv(2) or read(2) return one
-- after the other is a list; a list that ends means that the call still blocks. The buffer is the
-- array `buf`, with any contents.
pub mod Chunk
pub mod Request
pub mod Whole
use libsbox.Base.{
  ℕ, ◌+◌, List, [], ◌∷◌, ◌++◌, length, drop, leb, ltb, if◌then◌else◌, Result, ok, err, ◌>>=◌,
}
use libsbox.Memory.{Fault, out_of_bounds, store, c_string}
use libsbox.Crash.{Crash, died, lift}

-- What one call returns: some bytes, the end of the stream, or a failure.
pub data Received : Type 0 where
  bytes : List ℕ → Received
  end_of_stream failed : Received

pub data Reason : Type 0 where
  cannot_read still_reading : Reason

abbrev pub Run : Type 0 → Type 0
Run A = Result (Crash Reason) A

-- The call itself: the bytes are written to the front of the buffer.
unfoldable pub fill : List ℕ → List ℕ → Result Fault (List ℕ)
fill buf chunk =
    if leb (length chunk) (length buf)
    then ok (chunk ++ drop (length chunk) buf)
    else err out_of_bounds

-- buf[bytes_read] = 0, and then the C string in the buffer, with the buffer as it is left
unfoldable pub take_chunk : List ℕ → List ℕ → Result Fault (List ℕ × List ℕ)
unfolding fill c_string
take_chunk buf chunk = do
  filled ← fill buf chunk
  ended ← store filled (length chunk) 0
  text ← c_string ended
  ok (text, ended)

-- The loop of Worker::serve, with the request so far. It ends at a chunk with a NUL.
unfoldable pub receive_request : List ℕ → List ℕ → List Received → Run (List ℕ)
receive_request buf request [] = err (died still_reading)
receive_request buf request (failed ∷ rest) = err (died cannot_read)
receive_request buf request (end_of_stream ∷ rest) = ok request
receive_request buf request (bytes chunk ∷ rest) = do
  (text, left) ← lift (take_chunk buf chunk)
  let later = receive_request left (request ++ text) rest
  if ltb (length text) (length chunk) then ok (request ++ text) else later

-- The loops of run_together and of read_file, with the text so far.
unfoldable pub read_all : List ℕ → List ℕ → List Received → Run (List ℕ)
read_all buf res [] = err (died still_reading)
read_all buf res (failed ∷ rest) = err (died cannot_read)
read_all buf res (end_of_stream ∷ rest) = ok res
read_all buf res (bytes chunk ∷ rest) = do
  (text, left) ← lift (take_chunk buf chunk)
  read_all left (res ++ text) rest
