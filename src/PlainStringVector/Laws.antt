-- ===== src/PlainStringVector/Laws.antt =====
-- The vector of strings of src/plain_string_vector.h against the list of its strings.
use libsbox.Base.{
  ℕ, zero, suc, ◌+◌, ◌≤◌, ◌<◌, ◌≡◌, refl, ap, sym, subst, drop-length_add, ◌∙◌, List, [], ◌∷◌, ◌++◌,
  arith, append_assoc, append-nil, length, get_elem?, drop, length-append, drop-split,
  get_elem?-append_left, get_elem?-length, lt-get_elem?, Result, ok, err, none, some,
}
use libsbox.Memory.{Fault, out_of_bounds, size_mod, NulFree, c_string-append}
use libsbox.PlainString
use libsbox.PlainString.{PlainString}
use libsbox.PlainString.Assign
use libsbox.PlainVector
use libsbox.PlainVector.Laws
use libsbox.PlainStringVector.{
  PlainStringVector, Packs, packed, offsets, total_size, init, count, add, clear, add_all, argument,
}

abbrev pub Gives : ℕ → ℕ → List (List ℕ) → Result Fault PlainStringVector → Type 0
Gives mi mt ss r = (w : PlainStringVector) × (r ≡ ok w) × Packs mi mt w ss

length-packed : (ss : List (List ℕ)) → length (packed ss) ≡ total_size ss + length ss
length-packed [] = refl
length-packed (s ∷ ss) = omega (arith, length-append s (0 ∷ packed ss), length-packed ss)

packed-snoc :
    (ss : List (List ℕ)) (s : List ℕ) → packed (ss ++ (s ∷ [])) ≡ (packed ss ++ s) ++ (0 ∷ [])
packed-snoc [] s = refl
packed-snoc (x ∷ ss) s = rw (packed-snoc ss s, append_assoc, append_assoc, append_assoc) refl

length-offsets : (start : ℕ) (ss : List (List ℕ)) → length (offsets start ss) ≡ length ss
length-offsets start [] = refl
length-offsets start (s ∷ ss) = ap suc (length-offsets (start + (length s + 1)) ss)

offsets-snoc :
    (start : ℕ) (ss : List (List ℕ)) (s : List ℕ)
    → offsets start (ss ++ (s ∷ [])) ≡ offsets start ss ++ (some (start + length (packed ss)) ∷ [])
offsets-snoc start [] s = ap (λ k. some k ∷ []) (omega arith)
offsets-snoc start (x ∷ ss) s = ap (◌∷◌ (some start)) (
    offsets-snoc (start + (length x + 1)) ss s
    ∙ ap (λ k. offsets (start + (length x + 1)) ss ++ (some k ∷ []))
        (omega (arith, length-append x (0 ∷ packed ss))))

-- Adding a string within both limits puts it behind those that are there.
pub add_ok :
    (mi mt : ℕ) (v : PlainStringVector) (ss : List (List ℕ)) (s : List ℕ)
    → Packs mi mt v ss
    → length ss < mi
    → total_size ss + length s ≤ mt
    → Gives mi mt (ss ++ (s ∷ [])) (add v s)
unfolding add
add_ok mi mt v ss s h room fits =
    let n = v.text.size in
    let os = offsets 0 ss in
    let size : n ≡ total_size ss + length ss =
      sym (Assign.length-to_list (mt + mi) v.text h.chars_valid)
      ∙ ap length h.chars
      ∙ length-packed ss in
    let (v1, r1, h1) = Laws.pop_back_ok (mi + 1) v.items os none h.pointers in
    let (v2, r2, h2) =
      Laws.push_back_ok (mi + 1) v1 os (some n) h1 (omega (arith, length-offsets 0 ss)) in
    let (v3, r3, h3) =
      Laws.push_back_ok (mi + 1) v2 (os ++ (some n ∷ [])) none h2
        (omega (arith, length-offsets 0 ss, length-append os (some n ∷ []))) in
    let (t1, r4, valid1, l1) =
      Assign.append_ok (mt + mi) v.text s h.chars_valid (omega (arith, size)) in
    let (t2, r5, valid2, l2) = Assign.append_char_ok (mt + mi) t1 0 valid1 (
      omega (
        arith,
        size,
        Assign.length-to_list (mt + mi) t1 valid1,
        ap length l1,
        length-append (PlainString.to_list v.text) s,
        Assign.length-to_list (mt + mi) v.text h.chars_valid,
      )) in
    let same : os ++ (some n ∷ []) ≡ offsets 0 (ss ++ (s ∷ [])) =
      ap (λ k. os ++ (some k ∷ [])) (omega (arith, size, length-packed ss))
      ∙ sym (offsets-snoc 0 ss s) in
    (
      record { items = v3; text = t2 },
      rw (r1, r2, r3, r4, r5) refl,
      record {
        pointers = subst (λ l. PlainVector.Holds (mi + 1) v3 (l ++ (none ∷ []))) same h3;
        chars_valid = valid2;
        chars =
            l2 ∙ ap (λ l. l ++ (0 ∷ [])) (l1 ∙ ap (λ l. l ++ s) h.chars) ∙ sym (packed-snoc ss s);
      },
    )

-- With as many strings as the limit allows, add writes its null pointer outside the array.
pub add_full :
    (mi mt : ℕ) (v : PlainStringVector) (ss : List (List ℕ)) (s : List ℕ)
    → Packs mi mt v ss
    → length ss ≡ mi
    → add v s ≡ err out_of_bounds
unfolding add
add_full mi mt v ss s h full =
    let n = v.text.size in
    let os = offsets 0 ss in
    let (v1, r1, h1) = Laws.pop_back_ok (mi + 1) v.items os none h.pointers in
    let (v2, r2, h2) =
      Laws.push_back_ok (mi + 1) v1 os (some n) h1 (omega (arith, length-offsets 0 ss)) in
    let r3 =
      Laws.push_back_full (mi + 1) v2 (os ++ (some n ∷ [])) none h2
        (omega (arith, length-offsets 0 ss, length-append os (some n ∷ []))) in
    rw (r1, r2, r3) refl

-- A new object holds no string.
pub init_ok : (mi mt : ℕ) → mt + mi + 1 < size_mod → mi + 1 < size_mod → Gives mi mt [] (init mi mt)
unfolding init
init_ok mi mt h k =
    let (v, r, holds) =
      Laws.push_back_ok (mi + 1) (PlainVector.default (mi + 1)) [] none
        (Laws.default-Holds (mi + 1) k) (omega arith) in
    let (valid, empty) = Assign.default-IsValid (mt + mi) h in
    (
      record { items = v; text = PlainString.default (mt + mi) },
      rw r refl,
      record { pointers = holds; chars_valid = valid; chars = empty },
    )

-- clear leaves no string.
pub clear_ok :
    (mi mt : ℕ) (v : PlainStringVector) (ss : List (List ℕ))
    → Packs mi mt v ss
    → Gives mi mt [] (clear v)
unfolding clear
clear_ok mi mt v ss h =
    let (v1, r1, h1) = Laws.clear_ok (mi + 1) v.items _ h.pointers in
    let (v2, r2, h2) = Laws.push_back_ok (mi + 1) v1 [] none h1 (omega arith) in
    let (t, r3, valid, empty) = Assign.clear_lem (mt + mi) v.text h.chars_valid in
    (
      record { items = v2; text = t },
      rw (r1, r2, r3) refl,
      record { pointers = h2; chars_valid = valid; chars = empty },
    )

length-snoc : (ss : List (List ℕ)) (s : List ℕ) → length (ss ++ (s ∷ [])) ≡ length ss + 1
length-snoc ss s = length-append ss (s ∷ [])

total_size-append : (ss ts : List (List ℕ)) → total_size (ss ++ ts) ≡ total_size ss + total_size ts
total_size-append [] ts = omega arith
total_size-append (s ∷ ss) ts = omega (arith, total_size-append ss ts)

-- Adding strings within both limits of the vector puts them behind those that are there.
pub add_all_ok :
    (mi mt : ℕ) (v : PlainStringVector) (ss ts : List (List ℕ))
    → Packs mi mt v ss
    → length ss + length ts ≤ mi
    → total_size ss + total_size ts ≤ mt
    → Gives mi mt (ss ++ ts) (add_all v ts)
unfolding add_all
add_all_ok mi mt v ss [] h room fits = (v, refl, rw append-nil h)
add_all_ok mi mt v ss (t ∷ ts) h room fits =
    let (w, r, h') = add_ok mi mt v ss t h (omega arith) (omega arith) in
    let (u, r', h'') =
      add_all_ok mi mt w (ss ++ (t ∷ [])) ts h' (omega (arith, length-snoc ss t))
        (omega (arith, total_size-append ss (t ∷ []))) in
    (u, rw r r', subst (Packs mi mt u) (append_assoc ss (t ∷ []) ts) h'')

-- The offset of a string, and what lies there.
offsets-packed :
    (start : ℕ) (ss : List (List ℕ)) (i : ℕ) (s : List ℕ)
    → get_elem? ss i ≡ some s
    → (k : ℕ) × (get_elem? (offsets start ss) i ≡ some (some (start + k)))
      × (rest : List ℕ) × (k ≤ length (packed ss))
      × (drop k (packed ss) ≡ s ++ (0 ∷ rest))
offsets-packed start [] i s e = cc
offsets-packed start (x ∷ ss) zero s e = (
  0,
  ap (λ k. some (some k)) (omega arith),
  packed ss,
  omega arith,
  ap (λ l. l ++ (0 ∷ packed ss)) (ground arith),
)
offsets-packed start (x ∷ ss) (suc i) s e =
    let (k, found, rest, le, d) = offsets-packed (start + (length x + 1)) ss i s e in
    (
      length x + 1 + k,
      found ∙ ap (λ k. some (some k)) (omega arith),
      rest,
      omega (arith, length-append x (0 ∷ packed ss)),
      ap (λ n. drop n (x ++ (0 ∷ packed ss))) (omega arith)
          ∙ drop-length_add x (0 ∷ packed ss) (suc k)
          ∙ d,
    )

-- The pointers of the packed vector lead to the strings: the C string at each position is the
-- string added there, if it has no NUL.
pub argument_ok :
    (mi mt : ℕ) (v : PlainStringVector) (ss : List (List ℕ)) (i : ℕ) (s : List ℕ)
    → Packs mi mt v ss
    → get_elem? ss i ≡ some s
    → NulFree s
    → argument v i ≡ ok (some s)
unfolding argument
argument_ok mi mt v ss i s h e free =
    let (k, found, rest, le, d) = offsets-packed 0 ss i s e in
    let size : v.text.size ≡ length (packed ss) =
      sym (Assign.length-to_list (mt + mi) v.text h.chars_valid) ∙ ap length h.chars in
    let at_i : get_elem? (offsets 0 ss ++ (none ∷ [])) i ≡ some (some (0 + k)) =
      get_elem?-append_left (offsets 0 ss) (none ∷ []) i (lt-get_elem? (offsets 0 ss) i found)
      ∙ found in
    let zero_add : 0 + k ≡ k = omega arith in
    let pointer : PlainVector.index v.items i ≡ ok (some k) =
      Laws.index_ok (mi + 1) v.items _ i (some k) h.pointers
        (at_i ∙ ap (λ n. some (some n)) zero_add) in
    let text : drop k v.text.cells
        ≡ s ++ (0 ∷ (rest ++ (0 ∷ drop (suc v.text.size) v.text.cells))) =
      drop-split v.text.cells v.text.size k 0 h.chars_valid.ended (omega arith)
      ∙ ap (λ l. drop k l ++ (0 ∷ drop (suc v.text.size) v.text.cells)) h.chars
      ∙ ap (λ l. l ++ (0 ∷ drop (suc v.text.size) v.text.cells)) d
      ∙ append_assoc s (0 ∷ rest) _ in
    rw (pointer, text)
      (rw (c_string-append s (rest ++ (0 ∷ drop (suc v.text.size) v.text.cells)) free) refl)

-- Behind the strings stands the null pointer, and count is their number.
pub argument_end :
    (mi mt : ℕ) (v : PlainStringVector) (ss : List (List ℕ))
    → Packs mi mt v ss
    → (argument v (length ss) ≡ ok none) × (count v ≡ length ss)
unfolding argument count
argument_end mi mt v ss h =
    let os = offsets 0 ss in
    let last : get_elem? (os ++ (none ∷ [])) (length ss) ≡ some none =
      ap (get_elem? (os ++ (none ∷ []))) (sym (length-offsets 0 ss))
      ∙ get_elem?-length os [] none in
    (
      rw (Laws.index_ok (mi + 1) v.items _ (length ss) none h.pointers last) refl,
      omega (
        arith,
        h.pointers.counted,
        length-append os (none ∷ []),
        length-offsets 0 ss,
        h.pointers.small,
        h.pointers.within,
      ),
    )
