-- ===== src/Streams/LineEnds/Chunks.antt =====
-- lib/line-ends.js: the loop over slices against a byte by byte description, and chunks.
use zone_mta.Prelude.{
  ℕ, ◌+◌, ◌≡◌, refl, sym, ap, ◌∙◌, ◌⊎◌, inl, inr, true, false, not, ◌&&◌, Option, none, some, List,
  [], ◌∷◌, ◌++◌, arith, append_assoc, append-nil, length, length-append, ltb, ◌==◌, if◌then◌else◌,
  Bool-cases,
}
use zone_mta.Streams.LineEnds.{LineEnds, init, is_cr, mend_loop, concat, last_of, transform, run}

-- The stream byte by byte: a line feed with no carriage return before it gets one.
unfoldable pub crlf : Option ℕ → List ℕ → List ℕ
crlf last [] = []
crlf last (b ∷ bs) =
    let rest = crlf (some b) bs in
    if (b == 0x0a) && not (is_cr last) then 0x0d ∷ 0x0a ∷ rest else b ∷ rest

concat-append : (xs : List (List ℕ)) (c : List ℕ) → concat (xs ++ c ∷ []) ≡ concat xs ++ c
unfolding concat
concat-append [] c = append-nil c
concat-append (x ∷ xs) c = ground (arith, concat-append xs c, append_assoc x (concat xs) c)

abbrev grown : List ℕ → List (List ℕ) → List (List ℕ)
grown piece chunks =
    if ltb 0 (length piece)
    then chunks ++ piece ∷ (0x0d ∷ 0x0a ∷ []) ∷ []
    else chunks ++ (0x0d ∷ 0x0a ∷ []) ∷ []

abbrev grown_len : List ℕ → ℕ → ℕ
grown_len piece n = if ltb 0 (length piece) then n + (length piece + 2) else n + 2

not_empty : (x : ℕ) (piece : List ℕ) → ltb 0 (length (x ∷ piece)) ≡ true
not_empty x piece = ground arith

append_two : (xs : List (List ℕ)) (a b : List ℕ) → xs ++ a ∷ b ∷ [] ≡ (xs ++ a ∷ []) ++ b ∷ []
append_two [] a b = refl
append_two (x ∷ xs) a b = ap (◌∷◌ x) (append_two xs a b)

concat-grown :
    (piece : List ℕ) (chunks : List (List ℕ))
    → concat (grown piece chunks) ≡ concat chunks ++ piece ++ 0x0d ∷ 0x0a ∷ []
concat-grown [] chunks =
    concat-append chunks (0x0d ∷ 0x0a ∷ [])
    ∙ ap (λ x. x ++ 0x0d ∷ 0x0a ∷ []) (sym (append-nil (concat chunks)))
concat-grown (x ∷ piece) chunks = rw (
  not_empty x piece,
  append_two chunks (x ∷ piece) (0x0d ∷ 0x0a ∷ []),
  concat-append (chunks ++ (x ∷ piece) ∷ []) (0x0d ∷ 0x0a ∷ []),
  concat-append chunks (x ∷ piece),
)

grown_len_lem : (piece : List ℕ) (n : ℕ) → grown_len piece n ≡ n + length piece + 2
grown_len_lem [] n = omega arith
grown_len_lem (x ∷ piece) n = rw (not_empty x piece) (omega arith)

-- What the loop returns, once it has mended a line break.
mended :
    (bs : List ℕ) (last : Option ℕ) (piece : List ℕ) (chunks : List (List ℕ)) (n : ℕ)
    → (n == 0) ≡ false
    → (concat (mend_loop last piece chunks n bs).0 ≡ concat chunks ++ (piece ++ crlf last bs))
      × ((mend_loop last piece chunks n bs).1 ≡ n + length piece + length (crlf last bs))
unfolding mend_loop crlf
mended [] last [] chunks n h = rw h (sym (append-nil (concat chunks)), omega arith)
mended [] last (x ∷ piece) chunks n h =
    rw (h, not_empty x piece, append-nil piece) (concat-append chunks (x ∷ piece), omega arith)
mended (b ∷ bs) last piece chunks n h = elim (Bool-cases ((b == 0x0a) && not (is_cr last))) [
  | inl broken ↦ rw broken (
      let (bytes, len) =
        mended bs (some b) [] (grown piece chunks) (grown_len piece n)
          (ground (arith, grown_len_lem piece n)) in
      (
        bytes
            ∙ rw (concat-grown piece chunks) (
                append_assoc (concat chunks ++ piece) (0x0d ∷ 0x0a ∷ []) (crlf (some b) bs)
                ∙ append_assoc (concat chunks) piece (0x0d ∷ 0x0a ∷ crlf (some b) bs)),
        omega (arith, len, grown_len_lem piece n),
      ))
  | inr kept ↦ rw kept (
      let (bytes, len) = mended bs (some b) (piece ++ b ∷ []) chunks n h in
      (
        bytes ∙ ap (◌++◌ (concat chunks)) (append_assoc piece (b ∷ []) (crlf (some b) bs)),
        omega (arith, len, length-append piece (b ∷ [])),
      ))
]

-- The loop from the start of a chunk: it mends nothing, and there is nothing to mend, or it returns
-- the mended bytes with their number.
untouched :
    (bs : List ℕ) (last : Option ℕ) (piece : List ℕ)
    → (((mend_loop last piece [] 0 bs).1 ≡ 0) × (crlf last bs ≡ bs))
      ⊎ (((mend_loop last piece [] 0 bs).1 ≡ length piece + length (crlf last bs))
          × (concat (mend_loop last piece [] 0 bs).0 ≡ piece ++ crlf last bs)
          × (((mend_loop last piece [] 0 bs).1 == 0) ≡ false))
unfolding mend_loop crlf concat
untouched [] last piece = inl (refl, refl)
untouched (b ∷ bs) last piece = elim (Bool-cases ((b == 0x0a) && not (is_cr last))) [
  | inl broken ↦ rw broken (
      let (bytes, len) =
        mended bs (some b) [] (grown piece []) (grown_len piece 0)
          (ground (arith, grown_len_lem piece 0)) in
      inr (
        omega (arith, len, grown_len_lem piece 0),
        bytes
            ∙ rw (concat-grown piece []) (append_assoc piece (0x0d ∷ 0x0a ∷ []) (crlf (some b) bs)),
        ground (arith, len, grown_len_lem piece 0),
      ))
  | inr kept ↦ rw kept (elim (untouched bs (some b) (piece ++ b ∷ [])) [
    | inl (z, e) ↦ inl (z, ap (◌∷◌ b) e)
    | inr (len, bytes, nz) ↦ inr (
      omega (arith, len, length-append piece (b ∷ [])),
      bytes ∙ append_assoc piece (b ∷ []) (crlf (some b) bs),
      nz,
    )
  ])
]

-- `_transform` pushes the bytes with every line break mended, and counts them.
pub transform_lem :
    (s : LineEnds) (chunk : List ℕ)
    → ((transform s chunk).1 ≡ crlf s.last_byte chunk)
      × ((transform s chunk).0.in_byte_count ≡ s.in_byte_count + length chunk)
      × ((transform s chunk).0.out_byte_count ≡ s.out_byte_count + length (crlf s.last_byte chunk))
      × ((transform s chunk).0.last_byte ≡ last_of s.last_byte chunk)
unfolding transform crlf
transform_lem s [] = (refl, omega arith, omega arith, refl)
transform_lem s (x ∷ xs) = elim (untouched (x ∷ xs) s.last_byte []) [
  | inl (z, e) ↦ (ground (arith, z, e), refl, ground (arith, z, ap length e), refl)
  | inr (len, bytes, nz) ↦ (ground (arith, nz, bytes), refl, ground (arith, nz, len), refl)
]

crlf-append :
    (last : Option ℕ) (xs ys : List ℕ)
    → crlf last (xs ++ ys) ≡ crlf last xs ++ crlf (last_of last xs) ys
unfolding crlf last_of
crlf-append last [] ys = refl
crlf-append last (x ∷ xs) ys = ground (arith, crlf-append (some x) xs ys)

run_from :
    (chunks : List (List ℕ)) (s : LineEnds)
    → ((run s chunks).1 ≡ crlf s.last_byte (concat chunks))
      × ((run s chunks).0.in_byte_count ≡ s.in_byte_count + length (concat chunks))
      × ((run s chunks).0.out_byte_count ≡ s.out_byte_count + length (run s chunks).1)
unfolding run concat crlf
run_from [] s = (refl, omega arith, omega arith)
run_from (c ∷ cs) s =
    let (bytes, ins, outs, last) = transform_lem s c in
    let (bytes', ins', outs') = run_from cs (transform s c).0 in
    (
      rw (bytes, bytes', last, crlf-append s.last_byte c (concat cs)),
      omega (arith, ins, ins', length-append c (concat cs)),
      omega (
        arith,
        outs,
        outs',
        ap length bytes,
        length-append (transform s c).1 (run (transform s c).0 cs).1,
      ),
    )

-- However the bytes are cut into chunks, the stream pushes them with a carriage return put before
-- each line feed that has none before it, and its two counters are the numbers of bytes in and out.
pub run-crlf :
    (chunks : List (List ℕ))
    → ((run init chunks).1 ≡ crlf none (concat chunks))
      × ((run init chunks).0.in_byte_count ≡ length (concat chunks))
      × ((run init chunks).0.out_byte_count ≡ length (run init chunks).1)
run-crlf chunks =
    let (bytes, ins, outs) = run_from chunks init in
    (bytes, omega (arith, ins), omega (arith, outs))

-- No line feed stands without a carriage return before it.
abbrev pub IsCrlf : Option ℕ → List ℕ → Type 0
IsCrlf last [] = Unit
IsCrlf last (b ∷ bs) = (b ≡ 0x0a → is_cr last ≡ true) × IsCrlf (some b) bs

crlf-IsCrlf_from : (last : Option ℕ) (bs : List ℕ) → IsCrlf last (crlf last bs)
unfolding crlf
crlf-IsCrlf_from last [] = tt
crlf-IsCrlf_from last (b ∷ bs) = ground (arith, crlf-IsCrlf_from (some b) bs)

crlf_of_IsCrlf : (last : Option ℕ) (bs : List ℕ) → IsCrlf last bs → crlf last bs ≡ bs
unfolding crlf
crlf_of_IsCrlf last [] h = refl
crlf_of_IsCrlf last (b ∷ bs) h = ground (arith, crlf_of_IsCrlf (some b) bs h.1, h.0)

-- What the stream pushes has no line feed without a carriage return before it, and a second such
-- stream, fed with it in any chunks, pushes it unchanged.
run_twice :
    (chunks again : List (List ℕ))
    → concat again ≡ (run init chunks).1
    → IsCrlf none (run init chunks).1 × ((run init again).1 ≡ (run init chunks).1)
run_twice chunks again e =
    let proper : IsCrlf none (run init chunks).1 =
      rw (run-crlf chunks).0 (crlf-IsCrlf_from none (concat chunks)) in
    (proper, (run-crlf again).0 ∙ rw e (crlf_of_IsCrlf none (run init chunks).1 proper))
