-- ===== src/TtlCache/Expiry.antt =====
-- lib/ttl-cache.js, `checkExpired`: which entries its loop removes.
use zone_mta.Prelude.{
  ℕ, zero, suc, ◌<◌, String, ◌≡◌, refl, if◌then◌else◌, Option, none, some, List, [], ◌∷◌, arith,
  length, drop, leb,
}
use zone_mta.Prelude.Maps
use zone_mta.Prelude.Maps.{Map, get-delete, get_of_nil}
use zone_mta.TtlCache.{Cache, Entry, expire_loop, run_check_expired}
use zone_mta.TtlCache.Sorted.{find, SortedFrom, SortedFrom-mono, Distinct}
use zone_mta.TtlCache.Sorted.Distinct.{find_of_Apart}

module _ {ℓ} {V : Type ℓ} where
  -- An entry as long as it has not expired.
  abbrev pub alive : ℕ → Option (Entry V) → Option (Entry V)
  alive now none = none
  alive now (some e) = if leb e.expires now then none else some e

  -- The map agrees with the list.
  abbrev pub Agrees : Map (Entry V) → List (Entry V) → Type ℓ
  Agrees m xs = (k : String) → Maps.get k m ≡ find k xs

  Agrees-delete :
      (n : ℕ) (x : Entry V) (xs : List (Entry V)) (m : Map (Entry V))
      → Distinct n (x ∷ xs)
      → Agrees m (x ∷ xs)
      → Agrees (Maps.delete x.key m) xs
  unfolding find
  Agrees-delete n x xs m d a k = ground (arith, get-delete x.key k m, a k, find_of_Apart x xs d.1)

  pub expire_loop-Agrees :
      (n now : ℕ) (xs : List (Entry V)) (m : Map (Entry V))
      → Distinct n xs
      → Agrees m xs
      → Agrees (expire_loop now xs m).1 (drop (expire_loop now xs m).0 xs)
  unfolding expire_loop
  expire_loop-Agrees n now [] m d a k = a k
  expire_loop-Agrees n now (x ∷ xs) m d a k = ground (
    arith,
    a k,
    expire_loop-Agrees n now xs (Maps.delete x.key m) d.2 (Agrees-delete n x xs m d a) k,
  )

  find-alive :
      (now : ℕ) (k : String) (xs : List (Entry V)) (lo : ℕ)
      → SortedFrom lo xs
      → now < lo
      → find k xs ≡ alive now (find k xs)
  unfolding find
  find-alive now k [] lo s h = refl
  find-alive now k (x ∷ xs) lo s h = ground (arith, find-alive now k xs x.expires s.1)

  -- What the loop leaves in the list is what has not expired.
  pub find-drop_expired :
      (n now : ℕ) (k : String) (xs : List (Entry V)) (m : Map (Entry V))
      → Distinct n xs
      → SortedFrom 0 xs
      → find k (drop (expire_loop now xs m).0 xs) ≡ alive now (find k xs)
  unfolding find expire_loop
  find-drop_expired n now k [] m d s = refl
  find-drop_expired n now k (x ∷ xs) m d s = ground (
    arith,
    find-drop_expired n now k xs (Maps.delete x.key m) d.2
        (SortedFrom-mono 0 x.expires xs (omega arith) s.1),
    find_of_Apart x xs d.1,
    find-alive now k xs x.expires s.1,
  )

  drop_all : (xs : List (Entry V)) (n : ℕ) → n ≡ length xs → drop n xs ≡ []
  drop_all [] zero h = refl
  drop_all [] (suc n) h = refl
  drop_all (x ∷ xs) zero h = absurd (omega arith)
  drop_all (x ∷ xs) (suc n) h = drop_all xs n (omega arith)

  nil_of_Agrees : (xs : List (Entry V)) → Agrees [] xs → xs ≡ []
  unfolding find Maps.get
  nil_of_Agrees [] a = refl
  nil_of_Agrees (x ∷ xs) a = ground (arith, a x.key)

  nil_of_length : (m : Map (Entry V)) → length m ≡ 0 → m ≡ []
  nil_of_length [] h = refl
  nil_of_length (e ∷ m) h = absurd (omega arith)

  -- All three ways in which `checkExpired` updates the list drop what the loop counted.
  pub sorted-run_check_expired :
      (n now : ℕ) (c : Cache V)
      → Distinct n c.sorted
      → Agrees c.data_map c.sorted
      → (run_check_expired c now).sorted ≡ drop (expire_loop now c.sorted c.data_map).0 c.sorted
  unfolding run_check_expired
  sorted-run_check_expired n now c d a = ground (
    arith,
    drop_all c.sorted (expire_loop now c.sorted c.data_map).0,
    nil_of_length (expire_loop now c.sorted c.data_map).1,
    λ (e : (expire_loop now c.sorted c.data_map).1 ≡ []).
        nil_of_Agrees (drop (expire_loop now c.sorted c.data_map).0 c.sorted)
          (λ k. rw (← e) (expire_loop-Agrees n now c.sorted c.data_map d a k)),
  )
