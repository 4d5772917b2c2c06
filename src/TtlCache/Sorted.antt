-- ===== src/TtlCache/Sorted.antt =====
-- The list `sorted` of lib/ttl-cache.js: order, search by key, and what its edits keep.
pub mod Distinct
use zone_mta.Prelude.{
  ℕ, ◌≤◌, ◌<◌, String, ◌≡◌, refl, ◌≢◌, ite, if_pos, if_neg, if◌then◌else◌, false, Option, none,
  some, List, [], ◌∷◌, arith, All, text_discrete,
}
use zone_mta.TtlCache.{Entry, place, insert_sorted}

module _ {ℓ} {V : Type ℓ} where
  unfoldable pub find : String → List (Entry V) → Option (Entry V)
  find k [] = none
  find k (x ∷ xs) = ite (text_discrete x.key k) (some x) (find k xs)

  -- Expiry times do not fall along the list, and start at `lo` or later.
  abbrev pub SortedFrom : ℕ → List (Entry V) → Type 0
  SortedFrom lo [] = Unit
  SortedFrom lo (x ∷ xs) = (lo ≤ x.expires) × SortedFrom x.expires xs

  -- No two entries share a key or an identity, and identities are below `n`.
  abbrev pub Apart : Entry V → Entry V → Type 0
  Apart x y = (x.key ≢ y.key) × (x.ident ≢ y.ident)

  abbrev pub Distinct : ℕ → List (Entry V) → Type 0
  Distinct n [] = Unit
  Distinct n (x ∷ xs) = (x.ident < n) × All (Apart x) xs × Distinct n xs

  pub SortedFrom-mono :
      (lo hi : ℕ) (xs : List (Entry V)) → lo ≤ hi → SortedFrom hi xs → SortedFrom lo xs
  SortedFrom-mono lo hi [] h s = tt
  SortedFrom-mono lo hi (x ∷ xs) h s = (omega arith, s.1)

  find-place_ne :
      (k : String) (e : Entry V) (xs : List (Entry V))
      → e.key ≢ k
      → find k (place e xs).0 ≡ find k xs
  unfolding find place
  find-place_ne k e [] h = refl
  find-place_ne k e (x ∷ xs) h = ground (arith, find-place_ne k e xs)

  find-place_self :
      (e : Entry V) (xs : List (Entry V))
      → find e.key (place e xs).0 ≡ (if (place e xs).1 then some e else none)
  unfolding find place
  find-place_self e [] = refl
  find-place_self e (x ∷ xs) = ground (arith, find-place_self e xs)

  -- What a search finds once an entry is filed.
  pub find-insert_sorted :
      (k : String) (e : Entry V) (xs : List (Entry V))
      → find k (insert_sorted e xs) ≡ ite (text_discrete e.key k) (some e) (find k xs)
  unfolding find insert_sorted
  find-insert_sorted k e xs = elim (text_discrete e.key k) [
    | yes p ↦ rw (if_pos _ p, ← p) (ground (arith, find-place_self e xs))
    | no p ↦ rw (if_neg _ p) (ground (arith, find-place_ne k e xs))
  ]

  place-SortedFrom :
      (lo : ℕ) (e : Entry V) (xs : List (Entry V))
      → SortedFrom lo xs
      → SortedFrom lo (place e xs).0
        × ((place e xs).1 ≡ false → SortedFrom e.expires (place e xs).0)
  unfolding place
  place-SortedFrom lo e [] s = (tt, λ _. tt)
  place-SortedFrom lo e (x ∷ xs) s = ground (
    arith,
    place-SortedFrom x.expires e xs s.1,
    SortedFrom-mono lo x.expires (place e xs).0,
    SortedFrom-mono e.expires x.expires (place e xs).0,
  )

  -- `insert_sorted` keeps the order.
  pub insert_sorted-SortedFrom :
      (e : Entry V) (xs : List (Entry V)) → SortedFrom 0 xs → SortedFrom 0 (insert_sorted e xs)
  unfolding insert_sorted
  insert_sorted-SortedFrom e xs s =
      ground (arith, place-SortedFrom 0 e xs s, SortedFrom-mono 0 e.expires (place e xs).0)
