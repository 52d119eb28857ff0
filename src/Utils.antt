-- ===== src/Utils.antt =====
-- src/utils.cpp: vformat, write_file and read_file. vsnprintf(3) is the parameter `print`, from the
-- size of the buffer to the result and the buffer; the descriptors are those of `Kernel`, and
-- write(2) and what the calls of read(2) return are arguments.
pub mod Format
pub mod Files
use libsbox.Base.{
  ℕ, zero, suc, ◌+◌, ◌*◌, ℤ, pos, pos_part, ltb, ltb_ℤ, Bool, not, ◌&&◌, ◌||◌, List, [], length,
  ◌==◌, if◌then◌else◌, Option, none, some, Result, ok, err, ◌>>=◌, ◌>>◌, guard, or_fail,
}
use libsbox.Memory.{Fault, c_string}
use libsbox.Crash.{Crash, died, undefined}
use libsbox.Transfer
use libsbox.Transfer.{Received, read_all}
use libsbox.Container.Slave.{Kernel, Mode, read_only, write_only}

-- One round of the loop has a text, or the size for the next one.
abbrev pub next_size : ℕ → ℤ → ℕ
next_size size res = if ltb_ℤ res (pos 0) then size * 2 else pos_part res + 1

abbrev pub fits : ℕ → ℤ → Bool
fits size res = not (ltb_ℤ res (pos 0)) && ltb (pos_part res) size

-- The loop, with the rounds that are looked at; `none` if it has not ended in these.
unfoldable pub vformat_loop : ℕ → (ℕ → ℤ × List ℕ) → ℕ → Option (Result Fault (List ℕ))
vformat_loop zero print size = none
vformat_loop (suc n) print size =
    let (res, buf) = print size in
    let later = vformat_loop n print (next_size size res) in
    if fits size res then some (c_string buf) else later

-- result(strlen(fmt) * 2)
unfoldable pub vformat : ℕ → (ℕ → ℤ × List ℕ) → List ℕ → Option (Result Fault (List ℕ))
unfolding vformat_loop
vformat rounds print fmt = vformat_loop rounds print (length fmt * 2)

pub data Reason : Type 0 where
  cannot_open cannot_write cannot_read cannot_close : Reason

abbrev pub Run : Type 0 → Type 0
Run A = Result (Crash Reason) A

abbrev pub from_transfer {ℓ} :
    {A : Type ℓ} → Result (Crash Transfer.Reason) A → Result (Crash Reason) A
from_transfer (ok a) = ok a
from_transfer (err (died why)) = err (died cannot_read)
from_transfer (err (undefined f)) = err (undefined f)

-- cnt < 0 || static_cast<size_t>(cnt) != data.size()
abbrev pub is_short : ℤ → ℕ → Bool
is_short cnt size = ltb_ℤ cnt (pos 0) || not (pos_part cnt == size)

module _ (K : Kernel) where
  unfoldable pub write_file :
      (K.State → ℕ → List ℕ → ℤ × K.State) → (path text : List ℕ) → K.State → Run K.State
  write_file write path text s = do
    (fd, t) ← or_fail (K.open_file s path write_only) (died cannot_open)
    let (cnt, u) = write t fd text
    guard (not (is_short cnt (length text))) (died cannot_write)
    or_fail (K.close u fd) (died cannot_close)

  -- `buf` is read_buf, and `calls` is what the calls of read(2) return.
  unfoldable pub read_file : (path buf : List ℕ) → List Received → K.State → Run (List ℕ × K.State)
  read_file path buf calls s = do
    (fd, t) ← or_fail (K.open_file s path read_only) (died cannot_open)
    res ← from_transfer (read_all buf [] calls)
    u ← or_fail (K.close t fd) (died cannot_close)
    ok (res, u)
