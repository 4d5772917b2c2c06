-- ===== src/Streams/SizeLimiter.antt =====
-- lib/size-limiter.js: a message above the size limit fails at its end.
--
-- `max_size` is `none` where `Number(options.maxSize)` is NaN: no comparison with it is true.
use zone_mta.Prelude.{
  ℕ, ◌+◌, ◌≡◌, refl, inl, inr, Bool, true, false, Option, none, some, List, [], ◌∷◌, ◌++◌, arith,
  length, length-append, subst, ltb, if◌then◌else◌, Bool-cases, subst,
}
use zone_mta.Streams.LineEnds.{concat}

pub record SizeLimiter : Type 0 where
  pub max_size : Option ℕ
  pub byte_size : ℕ
  pub finished : Bool

abbrev pub new : Option ℕ → SizeLimiter
new max_size = record { max_size = max_size; byte_size = 0; finished = false }

abbrev pub exceeds : ℕ → Option ℕ → Bool
exceeds n none = false
exceeds n (some max) = ltb max n

unfoldable pub transform : SizeLimiter → List ℕ → SizeLimiter × List ℕ
transform s [] = (s, [])
transform s (x ∷ xs) =
    let size = s.byte_size + length (x ∷ xs) in
    if s.finished
    then (record s { byte_size = size }, [])
    else (record s { byte_size = size; finished = exceeds size s.max_size }, x ∷ xs)

-- The error of `_flush`, with the two sizes of its message; its response code is 552.
pub data Flushed : Type 0 where
  passed : Flushed
  too_large : Option ℕ → ℕ → Flushed

unfoldable pub flush : SizeLimiter → Flushed
flush s = if s.finished then too_large s.max_size s.byte_size else passed

-- The chunks of a message, all that is pushed, and the end of the stream.
unfoldable pub run : SizeLimiter → List (List ℕ) → List ℕ × Flushed
unfolding transform flush
run s [] = ([], flush s)
run s (chunk ∷ chunks) =
    let (s', out) = transform s chunk in let (rest, end) = run s' chunks in (out ++ rest, end)

run_finished :
    (chunks : List (List ℕ)) (s : SizeLimiter)
    → s.finished ≡ true
    → (run s chunks).1 ≡ too_large s.max_size (s.byte_size + length (concat chunks))
unfolding run concat
run_finished [] s h = ground arith
run_finished ([] ∷ cs) s h = run_finished cs s h
run_finished ((x ∷ xs) ∷ cs) s h = ground (
  arith,
  run_finished cs (record s { byte_size = s.byte_size + length (x ∷ xs) }) h,
  length-append (x ∷ xs) (concat cs),
)

exceeds_more : (n k : ℕ) (max : Option ℕ) → exceeds n max ≡ true → exceeds (n + k) max ≡ true
exceeds_more n k none h = h
exceeds_more n k (some max) h = ground arith

-- How a stream ends.
unfoldable pub EndsWith : List ℕ × Flushed → List ℕ → Option ℕ → ℕ → Type 0
EndsWith r bytes max size =
    if exceeds size max then (r.1 ≡ too_large max size) else (r ≡ (bytes, passed))

EndsWith-more :
    (xs bytes : List ℕ) (r : List ℕ × Flushed) (max : Option ℕ) (size : ℕ)
    → EndsWith r bytes max size
    → EndsWith (xs ++ r.0, r.1) (xs ++ bytes) max size
unfolding EndsWith
EndsWith-more xs bytes r max size h = elim (Bool-cases (exceeds size max)) [
  | inl over ↦ rw over (rw over at h)
  | inr under ↦ rw under (let e = rw under at h in ground (arith, e))
]

length_split :
    (n x : ℕ) (xs ys : List ℕ) → n + length (x ∷ xs ++ ys) ≡ n + length (x ∷ xs) + length ys
length_split n x xs ys = ground (arith, length-append (x ∷ xs) ys)

exceeds_zero : (max : Option ℕ) → exceeds 0 max ≡ false
exceeds_zero none = refl
exceeds_zero (some max) = ground arith

run_open :
    (chunks : List (List ℕ)) (s : SizeLimiter)
    → s.finished ≡ false
    → exceeds s.byte_size s.max_size ≡ false
    → EndsWith (run s chunks) (concat chunks) s.max_size (s.byte_size + length (concat chunks))
unfolding run concat EndsWith
run_open [] s h e = ground arith
run_open ([] ∷ cs) s h e = run_open cs s h e
run_open ((x ∷ xs) ∷ cs) s h e =
    let size = s.byte_size + length (x ∷ xs) in
    rw (h, length_split s.byte_size x xs (concat cs))
      (elim (Bool-cases (exceeds size s.max_size)) [
        | inl over ↦
            rw (over, exceeds_more size (length (concat cs)) s.max_size over)
              (run_finished cs (record { max_size = s.max_size; byte_size = size; finished = true })
                refl)
        | inr under ↦ rw under (
            EndsWith-more (x ∷ xs) _ _ s.max_size _ (
              run_open cs (record { max_size = s.max_size; byte_size = size; finished = false })
                refl under))
      ])

-- A message sent through a new limiter in chunks ends with an error exactly when its length exceeds
-- the limit, and the error carries the limit and the length; without an error all its bytes are passed
-- on.
run-new :
    (max : Option ℕ) (chunks : List (List ℕ))
    → EndsWith (run (new max) chunks) (concat chunks) max (length (concat chunks))
run-new max chunks =
    subst (λ n. EndsWith (run (new max) chunks) (concat chunks) max n) (omega arith)
      (run_open chunks (new max) refl (exceeds_zero max))
