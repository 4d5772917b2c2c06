-- ===== src/Frames/Parsing.antt =====
-- lib/transport/frame-parser.js: what each call of `read` does with the next buffer of a stream of
-- frames.
use zone_mta.Prelude.{
  ℕ, ◌+◌, ◌<◌, ◌≤◌, ◌≡◌, refl, ap, sym, ◌∙◌, ◌⊎◌, inl, inr, true, false, List, [], ◌∷◌, ◌++◌, arith,
  append_assoc, append-nil, length, take, drop, length-append, length-drop, All, ltb, ◌==◌,
  Bool-cases,
}
use zone_mta.Frames.{
  Parser, Outcome, idle, failed, again, emitted, max_allowed_frame_size, write_u32, read_u32,
  encode, concat, whole, cleared, get_frame, read_body, read_header, read_chunk,
}
use zone_mta.Frames.Bytes.{read_u32-write_u32, read_u32-take, cut, concat-append}

-- The bytes of a sequence of frames.
unfoldable pub encode_all : List (List ℕ) → List ℕ
encode_all [] = []
encode_all (f ∷ fs) = encode f ++ encode_all fs

-- A frame that the parser accepts: not empty, and within the limit.
abbrev pub IsProper : List ℕ → Type 0
IsProper f = (0 < length f) × (length f ≤ max_allowed_frame_size)

-- What is left to read: whole frames, or the rest of one whose length is known and then whole frames.
abbrev pub Left : ℕ → ℕ → List ℕ → List (List ℕ) → Type 0
Left frame chunklen bytes fs =
    ((frame ≡ 0) × (bytes ≡ encode_all fs))
    ⊎ ((f : List ℕ) × (rest : List (List ℕ)) × (fs ≡ f ∷ rest)
        × (frame ≡ length f)
        × (chunklen < frame)
        × (bytes ≡ f ++ encode_all rest))

pub record IsPending (s : Parser) (fs : List (List ℕ)) : Type 0 where
  pub filled : s.chunklen ≡ length (concat s.chunks)
  pub left : Left s.frame s.chunklen (concat s.chunks ++ concat s.socket) fs

abbrev pub measure : Parser → ℕ
measure s = length (concat s.chunks) + length (concat s.socket) + length s.socket

-- The outcome of `read` where the frames `fs` are to come, with fewer than `bound` steps left.
abbrev pub IsGood : ℕ → List (List ℕ) → Outcome → Type 0
IsGood bound fs idle = fs ≡ []
IsGood bound fs failed = ⊥
IsGood bound fs (again s) = IsPending s fs × (measure s < bound)
IsGood bound fs (emitted f s) =
    (rest : List (List ℕ)) × (fs ≡ f ∷ rest) × IsPending s rest × (measure s < bound)

nil_of_length : (xs : List ℕ) → length xs ≡ 0 → xs ≡ []
nil_of_length [] h = refl
nil_of_length (x ∷ xs) h = absurd (omega arith)

take_all : (xs : List ℕ) → take (length xs) xs ≡ xs
take_all [] = refl
take_all (x ∷ xs) = ap (◌∷◌ x) (take_all xs)

drop_all : (xs : List ℕ) → drop (length xs) xs ≡ []
drop_all [] = refl
drop_all (x ∷ xs) = drop_all xs

-- A whole frame at the front of `chunk`, with nothing piled up.
get_frame-IsGood :
    (s : Parser) (chunk f : List ℕ) (rest : List (List ℕ)) (bound : ℕ)
    → s.chunklen ≡ 0
    → concat s.chunks ≡ []
    → s.frame ≡ length f
    → 0 < length f
    → length f ≤ length chunk
    → chunk ++ concat s.socket ≡ f ++ encode_all rest
    → length chunk + length (concat s.socket) + length s.socket ≤ bound
    → IsGood bound (f ∷ rest) (get_frame s chunk)
unfolding get_frame
get_frame-IsGood s chunk f rest bound z n e p fits split small =
    let (front, back) =
      cut s.frame chunk (concat s.socket) f (encode_all rest) (omega arith) split (sym e) in
    elim (Bool-cases (length chunk == s.frame)) [
      | inl q ↦
          let q' : s.frame ≡ length chunk = ground arith in
          rw q (
            rest,
            ap (λ x. x ∷ rest) (sym front ∙ rw q' (take_all chunk)),
            record {
              filled = rw (z, n) refl;
              left = inl (refl, rw n (rw (q', drop_all chunk) at back));
            },
            rw n (omega arith),
          )
      | inr q ↦ rw q (
        rest,
        rw front refl,
        record {
          filled = rw (concat-append s.chunks (drop s.frame chunk), z, n) (omega arith);
          left = inl (refl, rw (concat-append s.chunks (drop s.frame chunk), n) back);
        },
        rw (concat-append s.chunks (drop s.frame chunk), n)
            (omega (arith, length-drop s.frame chunk)),
      )
    ]

whole_lem :
    (s : Parser) (chunk : List ℕ)
    → s.chunklen ≡ length (concat s.chunks)
    → whole s chunk ≡ concat s.chunks ++ chunk
whole_lem s chunk h = elim (Bool-cases (s.chunklen == 0)) [
  | inl e ↦ rw (e, nil_of_length (concat s.chunks) (ground arith)) refl
  | inr e ↦ rw e (concat-append s.chunks chunk)
]

cleared_lem :
    (s : Parser)
    → s.chunklen ≡ length (concat s.chunks)
    → ((cleared s).chunklen ≡ 0)
      × (concat (cleared s).chunks ≡ [])
      × ((cleared s).frame ≡ s.frame)
      × ((cleared s).socket ≡ s.socket)
unfolding concat
cleared_lem s h = elim (Bool-cases (s.chunklen == 0)) [
  | inl e ↦ rw e (ground arith, nil_of_length (concat s.chunks) (ground arith), refl, refl)
  | inr e ↦ rw e (refl, refl, refl, refl)
]

-- The length of the frame is known, `chunk` is the latest buffer.
read_body-IsGood :
    (s : Parser) (chunk f : List ℕ) (rest : List (List ℕ)) (bound : ℕ)
    → s.chunklen ≡ length (concat s.chunks)
    → s.frame ≡ length f
    → 0 < length f
    → concat s.chunks ++ chunk ++ concat s.socket ≡ f ++ encode_all rest
    → length (concat s.chunks) + length chunk + length (concat s.socket) + length s.socket < bound
    → IsGood bound (f ∷ rest) (read_body s chunk)
unfolding read_body
read_body-IsGood s chunk f rest bound h e p split small =
    elim (Bool-cases (ltb (s.chunklen + length chunk) s.frame)) [
      | inl short ↦ rw short (
        record {
          filled =
              rw (concat-append s.chunks chunk)
                (omega (arith, length-append (concat s.chunks) chunk));
          left = inr (f, rest, refl, e, ground arith, rw (concat-append s.chunks chunk) split);
        },
        rw (concat-append s.chunks chunk) (omega (arith, length-append (concat s.chunks) chunk)),
      )
      | inr full ↦
          rw (full, whole_lem s chunk h)
            (let (z, n, fr, so) = cleared_lem s h in
              get_frame-IsGood (cleared s) (concat s.chunks ++ chunk) f rest bound z n (fr ∙ e) p
                (ground (arith, length-append (concat s.chunks) chunk)) (rw so split)
                (rw so (omega (arith, length-append (concat s.chunks) chunk))))
    ]

pub length-write_u32 : (n : ℕ) → length (write_u32 n) ≡ 4
unfolding write_u32
length-write_u32 n = omega arith

pub encode_all-cons :
    (f : List ℕ) (rest : List (List ℕ))
    → encode_all (f ∷ rest) ≡ write_u32 (length f) ++ (f ++ encode_all rest)
unfolding encode_all encode
encode_all-cons f rest = append_assoc (write_u32 (length f)) f (encode_all rest)

-- The four bytes at the front of `chunk` are the length of the first frame.
header :
    (chunk s f : List ℕ) (rest : List (List ℕ))
    → 4 ≤ length chunk
    → length f ≤ max_allowed_frame_size
    → chunk ++ s ≡ encode_all (f ∷ rest)
    → (read_u32 chunk ≡ length f) × (drop 4 chunk ++ s ≡ f ++ encode_all rest)
header chunk s f rest h p e =
    let (front, back) =
      cut 4 chunk s (write_u32 (length f)) (f ++ encode_all rest) h (e ∙ encode_all-cons f rest)
        (length-write_u32 (length f)) in
    (
      sym (read_u32-take chunk)
          ∙ ap read_u32 (front ∙ sym (append-nil (write_u32 (length f))))
          ∙ read_u32-write_u32 (length f) [] (omega arith),
      back,
    )

pub read_header-IsGood :
    (s : Parser) (chunk : List ℕ) (fs : List (List ℕ)) (bound : ℕ)
    → All IsProper fs
    → s.chunklen ≡ 0
    → concat s.chunks ≡ []
    → 4 ≤ length chunk
    → chunk ++ concat s.socket ≡ encode_all fs
    → length chunk + length (concat s.socket) + length s.socket ≤ bound
    → IsGood bound fs (read_header s chunk)
unfolding read_header encode_all
read_header-IsGood s [] [] bound g z n h e small = absurd (omega arith)
read_header-IsGood s (x ∷ chunk) [] bound g z n h e small = cc
read_header-IsGood s chunk (f ∷ rest) bound g z n h e small =
    let (size, back) = header chunk (concat s.socket) f rest h g.0.1 e in
    rw size (elim (Bool-cases (ltb max_allowed_frame_size (length f))) [
      | inl big ↦ absurd (ground (arith, g.0.1))
      | inr fits ↦ rw fits (elim (Bool-cases (ltb 4 (length chunk))) [
        | inl more ↦ rw more (
            read_body-IsGood (record s { frame = length f }) (drop 4 chunk) f rest bound
              (rw (z, n) refl) refl g.0.0 (rw n back) (rw n (ground (arith, length-drop 4 chunk))))
        | inr less ↦ rw less (
          record {
            filled = rw (z, n) refl;
            left =
                inr (
                  f,
                  rest,
                  refl,
                  refl,
                  rw z g.0.0,
                  rw n (rw (drop_4 chunk (ground arith)) at back),
                );
          },
          rw n (omega arith),
        )
      ])
    ])
  where
    drop_4 : (xs : List ℕ) → length xs ≤ 4 → drop 4 xs ≡ []
    drop_4 [] p = refl
    drop_4 (a ∷ []) p = refl
    drop_4 (a ∷ b ∷ []) p = refl
    drop_4 (a ∷ b ∷ c ∷ []) p = refl
    drop_4 (a ∷ b ∷ c ∷ d ∷ []) p = refl
    drop_4 (a ∷ b ∷ c ∷ d ∷ x ∷ xs) p = absurd (omega arith)

-- `chunk` is what `read` took, with the bytes before it and behind it.
abbrev pub Taken : Parser → List ℕ → List (List ℕ) → Type 0
Taken s chunk fs =
    ((s.frame ≡ 0) × (concat s.chunks ++ chunk ++ concat s.socket ≡ encode_all fs))
    ⊎ ((f : List ℕ) × (rest : List (List ℕ)) × (fs ≡ f ∷ rest)
        × (s.frame ≡ length f)
        × (s.chunklen < s.frame)
        × (concat s.chunks ++ chunk ++ concat s.socket ≡ f ++ encode_all rest))

pub read_chunk-IsGood :
    (s : Parser) (chunk : List ℕ) (fs : List (List ℕ)) (bound : ℕ)
    → All IsProper fs
    → s.chunklen ≡ length (concat s.chunks)
    → Taken s chunk fs
    → length (concat s.chunks) + length chunk + length (concat s.socket) + length s.socket < bound
    → IsGood bound fs (read_chunk s chunk)
unfolding read_chunk
read_chunk-IsGood s chunk fs bound g h (inl (z, e)) small =
    rw (none_yet z) (elim (Bool-cases (ltb (s.chunklen + length chunk) 4)) [
      | inl short ↦ rw short (
        record {
          filled =
              rw (concat-append s.chunks chunk)
                (omega (arith, length-append (concat s.chunks) chunk));
          left = inl (z, rw (concat-append s.chunks chunk) e);
        },
        rw (concat-append s.chunks chunk) (omega (arith, length-append (concat s.chunks) chunk)),
      )
      | inr full ↦
          rw (full, whole_lem s chunk h)
            (let (z', n, fr, so) = cleared_lem s h in
              read_header-IsGood (cleared s) (concat s.chunks ++ chunk) fs bound g z' n
                (ground (arith, length-append (concat s.chunks) chunk)) (rw so e)
                (rw so (omega (arith, length-append (concat s.chunks) chunk))))
    ])
  where
    none_yet : s.frame ≡ 0 → (s.frame == 0) ≡ true
    none_yet e = ground arith
read_chunk-IsGood s chunk fs bound g h (inr (f, rest, e, fr, p, split)) small =
    rw (frame_test, e) (read_body-IsGood s chunk f rest bound h fr (omega arith) split small)
  where
    frame_test : (s.frame == 0) ≡ false
    frame_test = ground arith
