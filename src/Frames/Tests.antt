-- ===== src/Frames/Tests.antt =====
-- Runs of the frame parser of lib/transport/frame-parser.js.
use zone_mta.Prelude.{ℕ, ◌+◌, ◌≡◌, refl, some, none, List, [], ◌∷◌, arith, length}
use zone_mta.Frames.{concat, encode, start, run, read}
use zone_mta.Frames.Parsing.{encode_all}
use zone_mta.Frames.Delivery.{run-encode_all}

-- Two frames in three buffers, cut inside a length and inside a content.
abbrev socket : List (List ℕ)
socket = (2 ∷ 0 ∷ []) ∷ (0 ∷ 0 ∷ 7 ∷ []) ∷ (8 ∷ 1 ∷ 0 ∷ 0 ∷ 0 ∷ 9 ∷ []) ∷ []

abbrev frames : List (List ℕ)
frames = (7 ∷ 8 ∷ []) ∷ (9 ∷ []) ∷ []

run-encode_all_example :
    run (length (concat socket) + length socket + 1) (start socket) ≡ some frames
unfolding concat encode_all encode
run-encode_all_example = run-encode_all socket frames (omega arith) refl

run_socket : run 20 (start socket) ≡ some frames
unfolding run read concat
run_socket = refl

-- A length above the limit ends in the error event.
run_oversize : run 20 (start ((0 ∷ 0 ∷ 64 ∷ 0 ∷ []) ∷ [])) ≡ none
unfolding run read concat
run_oversize = refl
