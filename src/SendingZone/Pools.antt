-- ===== src/SendingZone/Pools.antt =====
-- lib/sending-zone.js: which local address `getAddress` picks.
use zone_mta.Prelude.{
  ℕ, ◌-◌, ◌%◌, ◌<◌, ◌≢◌, String, ◌≡◌, refl, sym, subst, Bool, true, false, not, ◌&&◌, Option, none,
  some, List, [], ◌∷◌, if◌then◌else◌, ◌==◌, length, arith, Bool-cases, inl, inr, All, All-map, ◌⊎◌,
}
use zone_mta.Prelude.Sets.{has_text}
use zone_mta.Delivery.{Delivery}
use zone_mta.SendingZone.{PoolEntry, Zone, enabled, hash_key, entry_at, get_address}

-- The pools of `getAddress`.
abbrev pub pool_of : Zone → Bool → List PoolEntry
pool_of z use_ipv6 = if use_ipv6 then z.ipv6_pool else z.ipv4_pool

entry_at_lem :
    (P : PoolEntry → Type 0) (n : ℕ) (es : List PoolEntry)
    → n < length es
    → All P es
    → (e : PoolEntry) × (entry_at n es ≡ some e) × P e
unfolding entry_at
entry_at_lem P n [] h all = ground (arith, h)
entry_at_lem P n (e ∷ es) h all = elim (Bool-cases (n == 0)) [
  | inl z ↦ rw (entry_at, z) (e, refl, all.0)
  | inr s ↦ rw (entry_at, s) (entry_at_lem P (n - 1) es (ground (arith, h, s)) all.1)
]

-- The entry is in the pool.
abbrev pub IsIn : PoolEntry → List PoolEntry → Type 0
IsIn e [] = ⊥
IsIn e (x ∷ xs) = (x ≡ e) ⊎ IsIn e xs

All-IsIn : (es : List PoolEntry) → All (λ e. IsIn e es) es
All-IsIn [] = tt
All-IsIn (e ∷ es) =
    (inl refl, All-map (λ x. IsIn x es) (λ x. IsIn x (e ∷ es)) (λ x i. inr i) es (All-IsIn es))

-- An entry of the pool with an address that is not disabled.
abbrev pub IsEnabled : List String → List PoolEntry → PoolEntry → Type 0
IsEnabled disabled pool e = IsIn e pool × (has_text e.address disabled ≡ false)

enabled_lem :
    (disabled : List String) (es : List PoolEntry)
    → All (IsEnabled disabled es) (enabled disabled es)
unfolding enabled
enabled_lem disabled [] = tt
enabled_lem disabled (e ∷ es) =
    let rest =
      All-map (IsEnabled disabled es) (IsEnabled disabled (e ∷ es)) (λ x i. (inr i.0, i.1))
        (enabled disabled es) (enabled_lem disabled es) in
    elim (Bool-cases (has_text e.address disabled)) [
      | inl d ↦ rw (enabled, d) rest
      | inr d ↦ rw (enabled, d) ((inl refl, d), rest)
    ]

enabled_none :
    (disabled : List String) (es : List PoolEntry)
    → length (enabled disabled es) ≡ 0
    → All (λ e. has_text e.address disabled ≡ true) es
unfolding enabled
enabled_none disabled [] h = tt
enabled_none disabled (e ∷ es) h = elim (Bool-cases (has_text e.address disabled)) [
  | inl d ↦ ground (arith, enabled_none disabled es, h, d)
  | inr d ↦ ground (arith, h, d)
]

-- What `getAddress` answers is an entry of the pool: one that is not disabled, or, where the flag
-- is set, any one, and then all of the pool are disabled.
abbrev pub IsPicked : List String → List PoolEntry → Option (PoolEntry × Bool) → Type 0
IsPicked disabled pool none = ⊥
IsPicked disabled pool (some (e, true)) =
    IsIn e pool × All (λ x. has_text x.address disabled ≡ true) pool
IsPicked disabled pool (some (e, false)) = IsEnabled disabled pool e

mod_bound : (a n : ℕ) → n ≢ 0 → a % n < n
mod_bound a n h = grind arith

not_empty :
    (disabled : List String) (es : List PoolEntry)
    → length es ≢ 0
    → (not (length disabled == 0) && length (enabled disabled es) == 0) ≡ false
    → length (enabled disabled es) ≢ 0
unfolding enabled has_text
not_empty [] [] h k = ground (arith, h)
not_empty [] (e ∷ es) h k = ground arith
not_empty (d ∷ disabled) es h k = ground (arith, k)

-- Where the key of the delivery is defined and the pool is not empty, `getAddress` answers an entry
-- of the pool: one with an address that is not disabled, or, where it sets the flag, any one, and
-- then all the addresses of the pool are disabled.
pub get_address-IsPicked :
    (crc32 : String → ℕ) (z : Zone) (d : Delivery) (envelope_from : Option String) (use_ipv6 : Bool)
    (disabled : List String) (key : String)
    → hash_key z d envelope_from ≡ some key
    → length (pool_of z use_ipv6) ≢ 0
    → IsPicked disabled (pool_of z use_ipv6) (get_address crc32 z d envelope_from use_ipv6 disabled)
unfolding get_address
get_address-IsPicked crc32 z d envelope_from use_ipv6 disabled key named filled =
    let all = pool_of z use_ipv6 in
    let left = enabled disabled all in
    elim (Bool-cases (not (length disabled == 0) && length left == 0)) [
      | inl ignored ↦
          let none_left : length left ≡ 0 = ground (arith, ignored) in
          let (e, at, inside) =
            entry_at_lem (λ e. IsIn e all) (crc32 key % length all) all
              (mod_bound (crc32 key) (length all) filled) (All-IsIn all) in
          rw (get_address, named, ignored, at)
            (subst (λ b. IsPicked disabled all (some (e, b))) (sym ignored)
              (inside, enabled_none disabled all none_left))
      | inr kept ↦
          let some_left : length left ≢ 0 = not_empty disabled all filled kept in
          let (e, at, inside) =
            entry_at_lem (IsEnabled disabled all) (crc32 key % length left) left
              (mod_bound (crc32 key) (length left) some_left) (enabled_lem disabled all) in
          rw (get_address, named, kept, at)
            (subst (λ b. IsPicked disabled all (some (e, b))) (sym kept) inside)
    ]
