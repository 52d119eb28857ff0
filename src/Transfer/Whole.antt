-- ===== src/Transfer/Whole.antt =====
-- The loops of run_together in src/libsbox.cpp and of read_file in src/utils.cpp get a text without
-- NUL whole, whatever the chunks are.
use libsbox.Base.{
  ℕ, ◌<◌, ◌≡◌, sym, ap, ◌∙◌, arith, List, [], ◌∷◌, ◌++◌, append_assoc, append-nil, length, ok, map,
}
use libsbox.Memory.{NulFree}
use libsbox.Transfer.{Received, bytes, end_of_stream, read_all}
use libsbox.Transfer.Chunk.{left_over, take_chunk_lem, length-left_over, until_nul-NulFree}
use libsbox.Transfer.Request.{joined, AllFit}

NulFree-left : (a b : List ℕ) → NulFree (a ++ b) → NulFree a
NulFree-left [] b h = tt
NulFree-left (c ∷ a) b h = (h.0, NulFree-left a b h.1)

NulFree-right : (a b : List ℕ) → NulFree (a ++ b) → NulFree b
NulFree-right [] b h = h
NulFree-right (c ∷ a) b h = NulFree-right a b h.1

pub read_all-joined :
    (size : ℕ) (buf res : List ℕ) (chunks : List (List ℕ)) (rest : List Received)
    → length buf ≡ size
    → AllFit size chunks
    → NulFree (joined chunks)
    → read_all buf res (map bytes chunks ++ (end_of_stream ∷ rest)) ≡ ok (res ++ joined chunks)
unfolding read_all
read_all-joined size buf res [] rest len fit free = ap ok (sym (append-nil res))
read_all-joined size buf res (chunk ∷ chunks) rest len (fits, fit) free =
    let small : length chunk < length buf = omega arith in
    let text = until_nul-NulFree chunk (NulFree-left chunk (joined chunks) free) in
    rw (take_chunk_lem buf chunk small, text)
      (read_all-joined size (left_over buf chunk) (res ++ chunk) chunks rest
          (length-left_over buf chunk small ∙ len) fit (NulFree-right chunk (joined chunks) free)
        ∙ ap ok (append_assoc res chunk (joined chunks)))
