-- ===== src/Tests/Wire.antt =====
-- A text without NUL for every JSON value: postfix tokens of two numbers, for a machine with a stack.
use libsbox.Base.{
  ℕ, zero, suc, ◌≡◌, ◌<◌, refl, ap, ◌∙◌, arith, pos, negsuc, true, false, List, [], ◌∷◌, ◌++◌,
  Option, none, some, ◌==◌, if◌then◌else◌,
}
use libsbox.Memory.{NulFree}
use libsbox.Task.Json.{
  Json, string, int, int64, bool, array, object, Elements, no_more, element, Members, end, member,
}

data Item : Type 0 where
  chars : List ℕ → Item
  json : Json → Item
  elems : Elements → Item
  mems : Members → Item

data Token : Type 0 where
  empty text yes no nothing more list finish field whole : Token
  letter small small_neg large large_neg : ℕ → Token

abbrev on_letter : ℕ → List Item → List Item
on_letter n (chars s ∷ st) = chars (n ∷ s) ∷ st
on_letter n st = st

abbrev on_text : List Item → List Item
on_text (chars s ∷ st) = json (string s) ∷ st
on_text st = st

abbrev on_more : List Item → List Item
on_more (json j ∷ elems e ∷ st) = elems (element j e) ∷ st
on_more st = st

abbrev on_list : List Item → List Item
on_list (elems e ∷ st) = json (array e) ∷ st
on_list st = st

abbrev on_field : List Item → List Item
on_field (json j ∷ chars k ∷ mems m ∷ st) = mems (member k j m) ∷ st
on_field st = st

abbrev on_whole : List Item → List Item
on_whole (mems m ∷ st) = json (object m) ∷ st
on_whole st = st

abbrev step : Token → List Item → List Item
step empty st = chars [] ∷ st
step text st = on_text st
step yes st = json (bool true) ∷ st
step no st = json (bool false) ∷ st
step nothing st = elems no_more ∷ st
step more st = on_more st
step list st = on_list st
step finish st = mems end ∷ st
step field st = on_field st
step whole st = on_whole st
step (letter n) st = on_letter n st
step (small n) st = json (int (pos n)) ∷ st
step (small_neg n) st = json (int (negsuc n)) ∷ st
step (large n) st = json (int64 (pos n)) ∷ st
step (large_neg n) st = json (int64 (negsuc n)) ∷ st

abbrev run : List Token → List Item → List Item
run [] st = st
run (t ∷ ts) st = run ts (step t st)

run-append : (a b : List Token) (st : List Item) → run (a ++ b) st ≡ run b (run a st)
run-append [] b st = refl
run-append (t ∷ a) b st = run-append a b (step t st)

abbrev letters : List ℕ → List Token
letters [] = empty ∷ []
letters (c ∷ s) = letters s ++ (letter c ∷ [])

abbrev mutual
  tokens : Json → List Token
  tokens (string s) = letters s ++ (text ∷ [])
  tokens (int (pos n)) = small n ∷ []
  tokens (int (negsuc n)) = small_neg n ∷ []
  tokens (int64 (pos n)) = large n ∷ []
  tokens (int64 (negsuc n)) = large_neg n ∷ []
  tokens (bool true) = yes ∷ []
  tokens (bool false) = no ∷ []
  tokens (array es) = all_tokens es ++ (list ∷ [])
  tokens (object ms) = member_tokens ms ++ (whole ∷ [])

  all_tokens : Elements → List Token
  all_tokens no_more = nothing ∷ []
  all_tokens (element j es) = all_tokens es ++ (tokens j ++ (more ∷ []))

  member_tokens : Members → List Token
  member_tokens end = finish ∷ []
  member_tokens (member k j ms) = member_tokens ms ++ (letters k ++ (tokens j ++ (field ∷ [])))

letters-run : (s : List ℕ) (st : List Item) → run (letters s) st ≡ chars s ∷ st
letters-run [] st = refl
letters-run (c ∷ s) st = run-append (letters s) _ st ∙ ap (on_letter c) (letters-run s st)

mutual
  tokens-run : (j : Json) (st : List Item) → run (tokens j) st ≡ json j ∷ st
  tokens-run (string s) st = run-append (letters s) _ st ∙ ap on_text (letters-run s st)
  tokens-run (int (pos n)) st = refl
  tokens-run (int (negsuc n)) st = refl
  tokens-run (int64 (pos n)) st = refl
  tokens-run (int64 (negsuc n)) st = refl
  tokens-run (bool true) st = refl
  tokens-run (bool false) st = refl
  tokens-run (array es) st = run-append (all_tokens es) _ st ∙ ap on_list (all_tokens-run es st)
  tokens-run (object ms) st =
      run-append (member_tokens ms) _ st ∙ ap on_whole (member_tokens-run ms st)

  all_tokens-run : (es : Elements) (st : List Item) → run (all_tokens es) st ≡ elems es ∷ st
  all_tokens-run no_more st = refl
  all_tokens-run (element j es) st =
      run-append (all_tokens es) _ st
      ∙ run-append (tokens j) (more ∷ []) _
      ∙ ap on_more (ap (run (tokens j)) (all_tokens-run es st) ∙ tokens-run j (elems es ∷ st))

  member_tokens-run : (ms : Members) (st : List Item) → run (member_tokens ms) st ≡ mems ms ∷ st
  member_tokens-run end st = refl
  member_tokens-run (member k j ms) st =
      run-append (member_tokens ms) _ st
      ∙ run-append (letters k) _ _
      ∙ run-append (tokens j) (field ∷ []) _
      ∙ ap on_field (
          ap (run (tokens j))
            (ap (run (letters k)) (member_tokens-run ms st) ∙ letters-run k (mems ms ∷ st))
          ∙ tokens-run j (chars k ∷ mems ms ∷ st))

-- The two numbers of a token.
abbrev code : Token → ℕ × ℕ
code empty = (1, 1)
code text = (2, 1)
code yes = (3, 1)
code no = (4, 1)
code nothing = (5, 1)
code more = (6, 1)
code list = (7, 1)
code finish = (8, 1)
code field = (9, 1)
code whole = (10, 1)
code (letter n) = (11, suc n)
code (small n) = (12, suc n)
code (small_neg n) = (13, suc n)
code (large n) = (14, suc n)
code (large_neg n) = (15, suc n)

abbrev pred : ℕ → ℕ
pred zero = zero
pred (suc n) = n

abbrev token : ℕ → ℕ → Token
token tag n =
    if tag == 1
    then empty
    else if tag == 2
    then text
    else if tag == 3
    then yes
    else if tag == 4
    then no
    else if tag == 5
    then nothing
    else if tag == 6
    then more
    else if tag == 7
    then list
    else if tag == 8
    then finish
    else if tag == 9
    then field
    else if tag == 10
    then whole
    else if tag == 11
    then letter (pred n)
    else if tag == 12
    then small (pred n)
    else if tag == 13
    then small_neg (pred n)
    else if tag == 14
    then large (pred n)
    else large_neg (pred n)

abbrev flatten : List Token → List ℕ
flatten [] = []
flatten (t ∷ ts) = (code t).0 ∷ (code t).1 ∷ flatten ts

abbrev read_tokens : List ℕ → List Token
read_tokens [] = []
read_tokens (tag ∷ []) = []
read_tokens (tag ∷ n ∷ rest) = token tag n ∷ read_tokens rest

token-code : (t : Token) → token (code t).0 (code t).1 ≡ t
token-code empty = refl
token-code text = refl
token-code yes = refl
token-code no = refl
token-code nothing = refl
token-code more = refl
token-code list = refl
token-code finish = refl
token-code field = refl
token-code whole = refl
token-code (letter n) = refl
token-code (small n) = refl
token-code (small_neg n) = refl
token-code (large n) = refl
token-code (large_neg n) = refl

read_tokens-flatten : (ts : List Token) → read_tokens (flatten ts) ≡ ts
read_tokens-flatten [] = refl
read_tokens-flatten (t ∷ ts) = rw (token-code t) (ap (◌∷◌ t) (read_tokens-flatten ts))

code_pos : (t : Token) → (0 < (code t).0) × (0 < (code t).1)
code_pos empty = (omega arith, omega arith)
code_pos text = (omega arith, omega arith)
code_pos yes = (omega arith, omega arith)
code_pos no = (omega arith, omega arith)
code_pos nothing = (omega arith, omega arith)
code_pos more = (omega arith, omega arith)
code_pos list = (omega arith, omega arith)
code_pos finish = (omega arith, omega arith)
code_pos field = (omega arith, omega arith)
code_pos whole = (omega arith, omega arith)
code_pos (letter n) = (omega arith, omega arith)
code_pos (small n) = (omega arith, omega arith)
code_pos (small_neg n) = (omega arith, omega arith)
code_pos (large n) = (omega arith, omega arith)
code_pos (large_neg n) = (omega arith, omega arith)

flatten-NulFree : (ts : List Token) → NulFree (flatten ts)
flatten-NulFree [] = tt
flatten-NulFree (t ∷ ts) = let (a, b) = code_pos t in (a, (b, flatten-NulFree ts))

abbrev only : List Item → Option Json
only (json j ∷ []) = some j
only st = none

pub write : Json → List ℕ
write j = flatten (tokens j)

pub parse : List ℕ → Option Json
parse s = only (run (read_tokens s) [])

pub parse-write : (j : Json) → parse (write j) ≡ some j
unfolding parse write
parse-write j =
    ap (λ ts. only (run ts [])) (read_tokens-flatten (tokens j)) ∙ ap only (tokens-run j [])

pub write-NulFree : (j : Json) → NulFree (write j)
unfolding write
write-NulFree j = flatten-NulFree (tokens j)
