-- ===== src/Frames/Delivery.antt =====
-- lib/transport/frame-parser.js: however a stream of frames is cut into buffers, the handler gets the
-- frames.
use zone_mta.Prelude.{
  ℕ, zero, suc, ◌+◌, ◌<◌, ◌≤◌, ◌≡◌, refl, ap, ◌∙◌, inl, inr, true, false, ◌&&◌, some, List, [], ◌∷◌,
  ◌++◌, arith, append_assoc, append-nil, length, length-append, All, ltb, leb, ◌==◌, Bool-cases,
}
use zone_mta.Frames.{
  Parser, Outcome, idle, failed, again, emitted, write_u32, concat, read_chunk, read_socket, read,
  run, start,
}
use zone_mta.Frames.Parsing.{
  IsProper, Left, IsPending, measure, IsGood, Taken, encode_all, read_header-IsGood,
  read_chunk-IsGood, encode_all-cons, length-write_u32,
}

-- Four bytes or more are piled up, and the length of the next frame is not known.
piled-IsGood :
    (s : Parser) (fs : List (List ℕ))
    → All IsProper fs
    → IsPending s fs
    → s.frame ≡ 0
    → 4 ≤ s.chunklen
    → IsGood (measure s) fs (read_chunk (record s { chunks = []; chunklen = 0 }) (concat s.chunks))
unfolding read_chunk concat
piled-IsGood s fs g p z h =
    let size : 4 ≤ length (concat s.chunks) = omega (arith, p.filled) in
    let test : (s.frame == 0) ≡ true = ground arith in
    let long : ltb (0 + length (concat s.chunks)) 4 ≡ false = ground arith in
    rw (test, long)
      (read_header-IsGood (record s { chunks = []; chunklen = 0 }) (concat s.chunks) fs (measure s)
        g refl refl size (split p.left) (omega arith))
  where
    split :
        Left s.frame s.chunklen (concat s.chunks ++ concat s.socket) fs
        → concat s.chunks ++ concat s.socket ≡ encode_all fs
    split (inl (_, e)) = e
    split (inr (f, rest, e, fr, lt, _)) = absurd (omega arith)

length-encode : (f : List ℕ) (rest : List (List ℕ)) → 4 ≤ length (encode_all (f ∷ rest))
length-encode f rest = omega (
  arith,
  ap length (encode_all-cons f rest),
  length-append (write_u32 (length f)) (f ++ encode_all rest),
  length-write_u32 (length f),
)

-- Nothing is left on the socket, and what is piled up is too short to go on with.
drained :
    (s : Parser) (fs : List (List ℕ))
    → s.chunklen ≡ length (concat s.chunks)
    → ((s.frame == 0) && leb 4 s.chunklen) ≡ false
    → Left s.frame s.chunklen (concat s.chunks ++ []) fs
    → fs ≡ []
drained s [] h more p = refl
drained s (f ∷ rest) h more (inl (z, e)) =
    absurd
      (ground (arith, length-encode f rest, ap length e, ap length (append-nil (concat s.chunks))))
drained s fs h more (inr (f, rest, _, fr, lt, e)) = absurd (
    omega
      (arith, ap length e, length-append (concat s.chunks) [], length-append f (encode_all rest)))

-- Every call of `read` goes on in the right way.
read-IsGood :
    (s : Parser) (fs : List (List ℕ))
    → All IsProper fs
    → IsPending s fs
    → IsGood (measure s) fs (read s)
unfolding read read_socket
read-IsGood s fs g p = elim (Bool-cases ((s.frame == 0) && leb 4 s.chunklen)) [
  | inl piled ↦ rw piled (piled-IsGood s fs g p (ground arith) (ground arith))
  | inr more ↦ rw more (socket_read s.socket refl more)
]
  where
    taken :
        (c : List ℕ) (cs : List (List ℕ))
        → Left s.frame s.chunklen (concat s.chunks ++ concat (c ∷ cs)) fs
        → Taken (record s { socket = cs }) c fs
    taken c cs (inl (z, e)) = inl (z, append_assoc (concat s.chunks) c (concat cs) ∙ e)
    taken c cs (inr (f, rest, q, fr, lt, e)) =
        inr (f, rest, q, fr, lt, append_assoc (concat s.chunks) c (concat cs) ∙ e)

    socket_read :
        (cs : List (List ℕ))
        → s.socket ≡ cs
        → ((s.frame == 0) && leb 4 s.chunklen) ≡ false
        → IsGood (measure s) fs (read_socket cs s)
    socket_read [] e more = drained s fs p.filled more (rw e at p.left)
    socket_read (c ∷ cs) e more = rw e (
        read_chunk-IsGood (record s { socket = cs }) c fs _ g p.filled (taken c cs (rw e at p.left))
          (omega (arith, length-append c (concat cs))))

run-Pending :
    (fuel : ℕ) (s : Parser) (fs : List (List ℕ))
    → All IsProper fs
    → IsPending s fs
    → measure s < fuel
    → run fuel s ≡ some fs
unfolding run
run-Pending zero s fs g p h = absurd (omega arith)
run-Pending (suc fuel) s fs g p h =
    outcome (λ s' fs' g' p' h'. run-Pending fuel s' fs' g' p' h') (read s) refl
      (read-IsGood s fs g p)
  where
    outcome :
        ((s' : Parser) (fs' : List (List ℕ))
          → All IsProper fs'
          → IsPending s' fs'
          → measure s' < fuel
          → run fuel s' ≡ some fs')
        → (o : Outcome) → read s ≡ o
        → IsGood (measure s) fs o
        → run (suc fuel) s ≡ some fs
    outcome rec idle e good = rw (e, run, good)
    outcome rec failed e good = absurd good
    outcome rec (again s') e good = rw (e, run) (rec s' fs g good.0 (omega (arith, good.1)))
    outcome rec (emitted f s') e (rest, q, p', m) =
        rw (e, run, rec s' rest (rw q at g).1 p' (omega arith), q)

-- A stream of frames, each of 1 byte to the limit of 3 MB, gives the handler exactly these frames in
-- order, however the bytes are cut into buffers: the parser stops with nothing left to read, within
-- as many calls of `read` as there are bytes and buffers.
pub run-encode_all :
    (socket fs : List (List ℕ))
    → All IsProper fs
    → concat socket ≡ encode_all fs
    → run (length (concat socket) + length socket + 1) (start socket) ≡ some fs
unfolding concat
run-encode_all socket fs g e =
    run-Pending _ (start socket) fs g (record { filled = refl; left = inl (refl, e) }) (omega arith)
