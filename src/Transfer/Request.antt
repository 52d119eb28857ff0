-- ===== src/Transfer/Request.antt =====
-- The loop of Worker::serve in src/worker.cpp gets the request whatever the chunks are.
use libsbox.Base.{
  ◌⊎◌, length-append, ltb-false→le, ℕ, ◌<◌, ◌≡◌, refl, sym, ap, ◌∙◌, arith, false, Bool-cases, inl,
  inr, List, [], ◌∷◌, ◌++◌, append_assoc, append-nil, length, ltb, ok, map,
}
use libsbox.Memory.{NulFree, c_str}
use libsbox.Transfer.{Received, bytes, end_of_stream, receive_request}
use libsbox.Transfer.Chunk.{
  until_nul, left_over, take_chunk_lem, length-left_over, until_nul-append_whole,
  until_nul-append_cut,
}

abbrev pub joined : List (List ℕ) → List ℕ
joined [] = []
joined (chunk ∷ chunks) = chunk ++ joined chunks

-- No chunk fills the buffer, which recv(2) is asked to leave one byte of.
abbrev pub AllFit : ℕ → List (List ℕ) → Type 0
AllFit size [] = Unit
AllFit size (chunk ∷ chunks) = (length chunk < size) × AllFit size chunks

-- What the loop returns once it stops: `rest` is read only if no chunk has a NUL.
receive_request-joined :
    (size : ℕ) (buf request : List ℕ) (chunks : List (List ℕ)) (rest : List Received)
    → length buf ≡ size
    → AllFit size chunks
    → receive_request buf request (map bytes chunks ++ (end_of_stream ∷ rest))
      ≡ ok (request ++ until_nul (joined chunks))
unfolding receive_request
receive_request-joined size buf request [] rest len fit = ap ok (sym (append-nil request))
receive_request-joined size buf request (chunk ∷ chunks) rest len (fits, fit) =
    let small : length chunk < length buf = omega arith in
    rw (take_chunk_lem buf chunk small)
      (elim (Bool-cases (ltb (length (until_nul chunk)) (length chunk))) [
        | inl cut ↦
            rw cut
              (ap (λ t. ok (request ++ t)) (sym (until_nul-append_cut chunk (joined chunks) cut)))
        | inr whole ↦ rw whole (
            receive_request-joined size (left_over buf chunk) (request ++ until_nul chunk) chunks
              rest (length-left_over buf chunk small ∙ len) fit
            ∙ ap ok (
                append_assoc request (until_nul chunk) (until_nul (joined chunks))
                ∙ ap (◌++◌ request) (sym (until_nul-append_whole chunk (joined chunks) whole))))
      ])

-- With a NUL in some chunk nothing behind it is waited for.
receive_request-cut :
    (size : ℕ) (buf request : List ℕ) (chunks : List (List ℕ)) (rest : List Received)
    → length buf ≡ size
    → AllFit size chunks
    → length (until_nul (joined chunks)) < length (joined chunks)
    → receive_request buf request (map bytes chunks ++ rest)
      ≡ ok (request ++ until_nul (joined chunks))
unfolding receive_request
receive_request-cut size buf request [] rest len fit nul = elim nul [ ]
receive_request-cut size buf request (chunk ∷ chunks) rest len (fits, fit) nul =
    let small : length chunk < length buf = omega arith in
    rw (take_chunk_lem buf chunk small)
      (elim (Bool-cases (ltb (length (until_nul chunk)) (length chunk))) [
        | inl cut ↦
            rw cut
              (ap (λ t. ok (request ++ t)) (sym (until_nul-append_cut chunk (joined chunks) cut)))
        | inr whole ↦
            let split = until_nul-append_whole chunk (joined chunks) whole in
            rw whole (
              receive_request-cut size (left_over buf chunk) (request ++ until_nul chunk) chunks
                rest (length-left_over buf chunk small ∙ len) fit
                (later chunk (joined chunks) whole (rw split at nul))
              ∙ ap ok (
                  append_assoc request (until_nul chunk) (until_nul (joined chunks))
                  ∙ ap (◌++◌ request) (sym split)))
      ])
  where
    later :
        (chunk others : List ℕ)
        → ltb (length (until_nul chunk)) (length chunk) ≡ false
        → length (until_nul chunk ++ until_nul others) < length (chunk ++ others)
        → length (until_nul others) < length others
    later chunk others whole lt = omega (
      arith,
      ltb-false→le (length (until_nul chunk)) (length chunk) whole,
      length-append (until_nul chunk) (until_nul others),
      length-append chunk others,
    )

-- However the bytes are cut into chunks of less than 1024, the receive loop of serve returns the
-- bytes before the first NUL of all of them together, if one of the chunks has a NUL or the stream
-- ends behind them.
pub receive_request_lem :
    (buf : List ℕ) (chunks : List (List ℕ)) (rest : List Received)
    → length buf ≡ 1024
    → AllFit 1024 chunks
    → (length (until_nul (joined chunks)) < length (joined chunks))
      ⊎ ((later : List Received) × (rest ≡ end_of_stream ∷ later))
    → receive_request buf [] (map bytes chunks ++ rest) ≡ ok (until_nul (joined chunks))
receive_request_lem buf chunks rest len fit (inl nul) =
    receive_request-cut 1024 buf [] chunks rest len fit nul
receive_request_lem buf chunks rest len fit (inr (later, e)) =
    rw e (receive_request-joined 1024 buf [] chunks later len fit)

until_nul-c_str : (message : List ℕ) → NulFree message → until_nul (c_str message) ≡ message
until_nul-c_str [] free = refl
until_nul-c_str (c ∷ message) free = ground (arith, until_nul-c_str message free.1)

-- A message without NUL that is sent with its terminator, in chunks of less than 1024 bytes, is
-- received whole, and nothing behind it is waited for.
pub receive_request-c_str :
    (buf message : List ℕ) (chunks : List (List ℕ)) (rest : List Received)
    → length buf ≡ 1024
    → AllFit 1024 chunks
    → NulFree message
    → joined chunks ≡ c_str message
    → receive_request buf [] (map bytes chunks ++ rest) ≡ ok message
receive_request-c_str buf message chunks rest len fit free e =
    let text : until_nul (joined chunks) ≡ message =
      ap until_nul e ∙ until_nul-c_str message free in
    let shorter : length (until_nul (joined chunks)) < length (joined chunks) =
      omega (arith, ap length text, ap length e, length-append message (0 ∷ [])) in
    receive_request_lem buf chunks rest len fit (inl shorter) ∙ ap ok text
