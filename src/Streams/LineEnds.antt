-- ===== src/Streams/LineEnds.antt =====
-- lib/line-ends.js: every line break is made CR LF, whatever the chunks.
pub mod Chunks
use zone_mta.Prelude.{
  ℕ, suc, ◌+◌, ◌≡◌, refl, Bool, true, false, not, ◌&&◌, Option, none, some, List, [], ◌∷◌, ◌++◌,
  length, ltb, ◌==◌, if◌then◌else◌,
}

pub record LineEnds : Type 0 where
  pub in_byte_count : ℕ
  pub out_byte_count : ℕ
  pub last_byte : Option ℕ

abbrev pub init : LineEnds
init = record { in_byte_count = 0; out_byte_count = 0; last_byte = none }

abbrev pub is_cr : Option ℕ → Bool
is_cr none = false
is_cr (some b) = b == 0x0d

-- The loop of `_transform`: `last` is the byte before the index, of the chunk or of the chunk
-- before, `piece` is the slice from `lastPos` to the index, `chunks` and `chunklen` are the code's.
-- At the end the last piece is added, and nothing where no line break was mended.
unfoldable pub mend_loop : Option ℕ → List ℕ → List (List ℕ) → ℕ → List ℕ → List (List ℕ) × ℕ
mend_loop last piece chunks chunklen [] =
    if chunklen == 0
    then (chunks, 0)
    else if ltb 0 (length piece)
    then (chunks ++ piece ∷ [], chunklen + length piece)
    else (chunks, chunklen)
mend_loop last piece chunks chunklen (b ∷ bs) =
    let mended =
      mend_loop (some b) []
        (if ltb 0 (length piece)
          then chunks ++ piece ∷ (0x0d ∷ 0x0a ∷ []) ∷ []
          else chunks ++ (0x0d ∷ 0x0a ∷ []) ∷ [])
        (if ltb 0 (length piece) then chunklen + (length piece + 2) else chunklen + 2) bs in
    let kept = mend_loop (some b) (piece ++ b ∷ []) chunks chunklen bs in
    if (b == 0x0a) && not (is_cr last) then mended else kept

unfoldable pub concat : List (List ℕ) → List ℕ
concat [] = []
concat (c ∷ cs) = c ++ concat cs

-- `chunk[chunk.length - 1]`
unfoldable pub last_of : Option ℕ → List ℕ → Option ℕ
last_of b [] = b
last_of b (x ∷ xs) = last_of (some x) xs

unfoldable pub transform : LineEnds → List ℕ → LineEnds × List ℕ
unfolding mend_loop concat last_of
transform s [] = (s, [])
transform s (x ∷ xs) =
    let chunk = x ∷ xs in
    let (chunks, chunklen) = mend_loop s.last_byte [] [] 0 chunk in
    (
      record {
        in_byte_count = s.in_byte_count + length chunk;
        out_byte_count = s.out_byte_count + (if chunklen == 0 then length chunk else chunklen);
        last_byte = last_of none chunk;
      },
      if chunklen == 0 then chunk else concat chunks,
    )

-- The chunks of a stream, one after the other, and all that is pushed.
unfoldable pub run : LineEnds → List (List ℕ) → LineEnds × List ℕ
run s [] = (s, [])
run s (chunk ∷ chunks) =
    let (s', out) = transform s chunk in let (s'', rest) = run s' chunks in (s'', out ++ rest)
