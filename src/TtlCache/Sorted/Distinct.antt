-- ===== src/TtlCache/Sorted/Distinct.antt =====
-- Keys and identities in the list `sorted` of lib/ttl-cache.js stay distinct.
use zone_mta.Prelude.{
  ℕ, zero, suc, ◌≤◌, String, ◌≡◌, refl, ◌≢◌, ite, false, none, some, List, [], ◌∷◌, arith, drop,
  All, text_discrete,
}
use zone_mta.TtlCache.{Entry, remove_ident, place, insert_sorted}
use zone_mta.TtlCache.Sorted.{find, SortedFrom, SortedFrom-mono, Apart, Distinct}

module _ {ℓ} {V : Type ℓ} where
  Distinct-mono : (m n : ℕ) (xs : List (Entry V)) → m ≤ n → Distinct m xs → Distinct n xs
  Distinct-mono m n [] h d = tt
  Distinct-mono m n (x ∷ xs) h d = (omega arith, d.1, Distinct-mono m n xs h d.2)

  All-place :
      (P : Entry V → Type 0) (e : Entry V) (xs : List (Entry V))
      → All P xs
      → P e
      → All P (place e xs).0
  unfolding place
  All-place P e [] h p = tt
  All-place P e (x ∷ xs) h p = ground (arith, All-place P e xs h.1 p)

  place-Distinct :
      (e : Entry V) (xs : List (Entry V))
      → Distinct e.ident xs
      → Distinct (suc e.ident) (place e xs).0
        × ((place e xs).1 ≡ false → All (Apart e) (place e xs).0)
  unfolding place
  place-Distinct e [] d = (tt, λ _. tt)
  place-Distinct e (x ∷ xs) d =
      ground (arith, place-Distinct e xs d.2, All-place (Apart x) e xs d.1)

  pub insert_sorted-Distinct :
      (e : Entry V) (xs : List (Entry V))
      → Distinct e.ident xs
      → Distinct (suc e.ident) (insert_sorted e xs)
  unfolding insert_sorted
  insert_sorted-Distinct e xs d = ground (arith, place-Distinct e xs d)

  All-remove_ident :
      (P : Entry V → Type 0) (n : ℕ) (xs : List (Entry V)) → All P xs → All P (remove_ident n xs)
  unfolding remove_ident
  All-remove_ident P n [] h = tt
  All-remove_ident P n (x ∷ xs) h = ground (arith, All-remove_ident P n xs h.1)

  pub remove_ident-Distinct :
      (m n : ℕ) (xs : List (Entry V)) → Distinct m xs → Distinct m (remove_ident n xs)
  unfolding remove_ident
  remove_ident-Distinct m n [] d = tt
  remove_ident-Distinct m n (x ∷ xs) d =
      ground (arith, remove_ident-Distinct m n xs d.2, All-remove_ident (Apart x) n xs d.1)

  pub remove_ident-SortedFrom :
      (lo n : ℕ) (xs : List (Entry V)) → SortedFrom lo xs → SortedFrom lo (remove_ident n xs)
  unfolding remove_ident
  remove_ident-SortedFrom lo n [] s = tt
  remove_ident-SortedFrom lo n (x ∷ xs) s =
      ground (arith, remove_ident-SortedFrom x.expires n xs s.1, SortedFrom-mono lo x.expires xs)

  pub find-key : (k : String) (xs : List (Entry V)) (e : Entry V) → find k xs ≡ some e → e.key ≡ k
  unfolding find
  find-key k [] e h = cc
  find-key k (x ∷ xs) e h = ground (arith, find-key k xs e)

  pub find_of_Apart : (x : Entry V) (xs : List (Entry V)) → All (Apart x) xs → find x.key xs ≡ none
  unfolding find
  find_of_Apart x [] h = refl
  find_of_Apart x (y ∷ xs) h = ground (arith, find_of_Apart x xs h.1, h.0)

  find-ident-ne :
      (x : Entry V) (k : String) (xs : List (Entry V)) (e : Entry V)
      → All (Apart x) xs
      → find k xs ≡ some e
      → x.ident ≢ e.ident
  unfolding find
  find-ident-ne x k [] e h f = cc
  find-ident-ne x k (y ∷ xs) e h f = ground (arith, find-ident-ne x k xs e h.1, h.0)

  -- To take out the object that a key finds is to take out the key.
  pub find-remove_ident :
      (n : ℕ) (k j : String) (xs : List (Entry V)) (e : Entry V)
      → Distinct n xs
      → find k xs ≡ some e
      → find j (remove_ident e.ident xs) ≡ ite (text_discrete k j) none (find j xs)
  unfolding find remove_ident
  find-remove_ident n k j [] e d f = cc
  find-remove_ident n k j (x ∷ xs) e d f =
      ground (
        arith,
        find-remove_ident n k j xs e d.2,
        find-ident-ne x k xs e d.1,
        find_of_Apart x xs d.1,
      )

  pub drop-Distinct : (m n : ℕ) (xs : List (Entry V)) → Distinct m xs → Distinct m (drop n xs)
  drop-Distinct m zero xs d = d
  drop-Distinct m (suc n) [] d = tt
  drop-Distinct m (suc n) (x ∷ xs) d = drop-Distinct m n xs d.2

  pub drop-SortedFrom : (n : ℕ) (xs : List (Entry V)) → SortedFrom 0 xs → SortedFrom 0 (drop n xs)
  drop-SortedFrom zero xs s = s
  drop-SortedFrom (suc n) [] s = tt
  drop-SortedFrom (suc n) (x ∷ xs) s =
      drop-SortedFrom n xs (SortedFrom-mono 0 x.expires xs (omega arith) s.1)
