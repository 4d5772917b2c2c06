-- ===== src/Frames/Bytes.antt =====
-- lib/transport/frames.js: the bytes of a frame, and the pieces of a list of bytes.
use zone_mta.Prelude.{
  ℕ, zero, suc, ◌<◌, ◌≤◌, ◌^◌, ◌≡◌, refl, ap, List, [], ◌∷◌, ◌++◌, arith, append_assoc, length,
  take, drop,
}
use zone_mta.Frames.{write_u32, read_u32, concat}

-- A 32-bit length survives the four bytes in which it is sent.
pub read_u32-write_u32 : (n : ℕ) (rest : List ℕ) → n < 2 ^ 32 → read_u32 (write_u32 n ++ rest) ≡ n
unfolding read_u32 write_u32
read_u32-write_u32 n rest h = omega arith

pub read_u32-take : (xs : List ℕ) → read_u32 (take 4 xs) ≡ read_u32 xs
unfolding read_u32
read_u32-take [] = refl
read_u32-take (a ∷ []) = refl
read_u32-take (a ∷ b ∷ []) = refl
read_u32-take (a ∷ b ∷ c ∷ []) = refl
read_u32-take (a ∷ b ∷ c ∷ d ∷ xs) = refl

-- A list that is long enough is cut where another split of the same bytes says.
pub cut :
    (n : ℕ) (w s f r : List ℕ)
    → n ≤ length w
    → w ++ s ≡ f ++ r
    → length f ≡ n
    → (take n w ≡ f) × (drop n w ++ s ≡ r)
cut zero w s [] r h e l = (refl, e)
cut zero w s (x ∷ f) r h e l = absurd (omega arith)
cut (suc n) [] s f r h e l = absurd (omega arith)
cut (suc n) (y ∷ w) s [] r h e l = absurd (omega arith)
cut (suc n) (y ∷ w) s (x ∷ f) r h e l = ground (arith, cut n w s f r)

pub concat-append : (xs : List (List ℕ)) (c : List ℕ) → concat (xs ++ c ∷ []) ≡ concat xs ++ c
unfolding concat
concat-append [] c = ground (arith, append_nil c)
  where
    append_nil : (c : List ℕ) → c ++ [] ≡ c
    append_nil [] = refl
    append_nil (x ∷ c) = ap (◌∷◌ x) (append_nil c)
concat-append (x ∷ xs) c = ground (arith, concat-append xs c, append_assoc x (concat xs) c)
