-- ===== src/Streams/Tests.antt =====
-- Runs of the transform streams of lib/line-ends.js and lib/size-limiter.js.
use zone_mta.Prelude.{ℕ, ◌≡◌, refl, none, some, List, [], ◌∷◌}
use zone_mta.Streams.LineEnds.{init, concat, run, transform}
use zone_mta.Streams.LineEnds.Chunks.{crlf, run-crlf}
use zone_mta.Streams.SizeLimiter.{new, too_large, EndsWith}
use zone_mta.Streams.SizeLimiter

-- "a\r" and "\nb\n": the first line break is cut in two, the second has no carriage return.
abbrev letter : List (List ℕ)
letter = (97 ∷ 13 ∷ []) ∷ (10 ∷ 98 ∷ 10 ∷ []) ∷ []

abbrev mended : List ℕ
mended = 97 ∷ 13 ∷ 10 ∷ 98 ∷ 13 ∷ 10 ∷ []

run-letter : (run init letter).1 ≡ mended
unfolding run transform
run-letter = refl

run-crlf_example :
    ((run init letter).1 ≡ crlf none (concat letter))
    × ((run init letter).0.in_byte_count ≡ 5)
    × ((run init letter).0.out_byte_count ≡ 6)
unfolding run concat transform
run-crlf_example = run-crlf letter

run-over : (SizeLimiter.run (new (some 4)) letter).1 ≡ too_large (some 4) 5
unfolding SizeLimiter.run SizeLimiter.transform
run-over = refl
