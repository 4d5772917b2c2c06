-- ===== src/QueueLocker/Owners.antt =====
-- lib/queue-locker.js: the index by owner agrees with the locks, so `releaseLockOwner` and
-- `checkExpired` release exactly what they should.
pub mod Keeps
use zone_mta.Prelude.{
  ℕ, suc, ◌+◌, ◌<◌, String, ◌≡◌, refl, ◌≢◌, ite, if◌then◌else◌, Bool, true, false, Option, none,
  some, List, [], ◌∷◌, ◌++◌, map, arith, ◌==◌, leb, length, All, All-map, All-append, Option-cases,
  Bool-cases, inl, inr, text_discrete,
}
use zone_mta.Prelude.Maps
use zone_mta.Prelude.Maps.{Map, get-set, get-delete, DistinctKeys}
use zone_mta.Prelude.Sets.{has_text}
use zone_mta.QueueLocker.{
  Locker, Lock, delete_lock, locks_under, install, leave_owner, release, expired_keys,
}
use zone_mta.QueueLocker.Held.{holder}

abbrev pub owner_set : String → Locker → List Lock
owner_set o l = locks_under o l.lock_owners

unfoldable pub has_key : String → List Lock → Bool
has_key key [] = false
has_key key (x ∷ xs) = ite (text_discrete x.key key) true (has_key key xs)

-- Every lock stands under its own key, once in each map, and in the set of its owner; the sets of
-- the owners hold nothing else; no two locks are one object.
pub record IsConsistent (l : Locker) : Type 0 where
  pub keyed :
      (key : String) (k : Lock) → holder key l ≡ some k → (k.key ≡ key) × (k.ident < l.next_ident)
  pub unique :
      (key key' : String) (k k' : Lock)
      → holder key l ≡ some k
      → holder key' l ≡ some k'
      → k.ident ≡ k'.ident
      → key ≡ key'
  pub complete :
      (key : String) (k : Lock)
      → holder key l ≡ some k
      → has_key key (owner_set k.lock_owner l) ≡ true
  pub sound :
      (o : String) → All (λ x. (holder x.key l ≡ some x) × (x.lock_owner ≡ o)) (owner_set o l)
  pub distinct : DistinctKeys l.locks

pub has_key-append :
    (key : String) (xs ys : List Lock)
    → has_key key (xs ++ ys) ≡ (if has_key key xs then true else has_key key ys)
unfolding has_key
has_key-append key [] ys = refl
has_key-append key (x ∷ xs) ys = ground (arith, has_key-append key xs ys)

pub All-delete_lock :
    (P : Lock → Type 0) (k : Lock) (xs : List Lock)
    → All P xs
    → All (λ x. P x × (x.ident ≢ k.ident)) (delete_lock k xs)
unfolding delete_lock
All-delete_lock P k [] h = tt
All-delete_lock P k (x ∷ xs) h = ground (arith, All-delete_lock P k xs h.1)

pub has_key-delete_lock :
    (key : String) (k : Lock) (xs : List Lock)
    → All (λ x. x.key ≡ key → x.ident ≢ k.ident) xs
    → has_key key (delete_lock k xs) ≡ has_key key xs
unfolding has_key delete_lock
has_key-delete_lock key k [] h = refl
has_key-delete_lock key k (x ∷ xs) h = ground (arith, has_key-delete_lock key k xs h.1, h.0)

pub has_text-keys :
    (key : String) (xs : List Lock) → has_text key (map (λ k. k.key) xs) ≡ has_key key xs
unfolding has_text has_key
has_text-keys key [] = refl
has_text-keys key (x ∷ xs) = ground (arith, has_text-keys key xs)

-- The set of an owner after a lock joins it.
pub owner_set-install :
    (o : String) (l : Locker) (k : Lock)
    → owner_set o (install l k)
      ≡ ite (text_discrete k.lock_owner o) (owner_set o l ++ k ∷ []) (owner_set o l)
unfolding install
owner_set-install o l k =
    ground (arith, get-set k.lock_owner o (owner_set k.lock_owner l ++ k ∷ []) l.lock_owners)

nil_of_length : (xs : List Lock) → length xs ≡ 0 → xs ≡ []
nil_of_length [] h = refl
nil_of_length (x ∷ xs) h = absurd (omega arith)

locks_under-leave_owner :
    (o : String) (m : Map (List Lock)) (k : Lock)
    → locks_under o (leave_owner m k)
      ≡ ite (text_discrete k.lock_owner o) (delete_lock k (locks_under o m)) (locks_under o m)
unfolding leave_owner delete_lock
locks_under-leave_owner o m k = elim (Option-cases (Maps.get k.lock_owner m)) [
  | inl e ↦ rw (e, leave_owner) (ground arith)
  | inr (ks, e) ↦
      rw (e, leave_owner)
        (ground (
          arith,
          get-delete k.lock_owner o m,
          get-set k.lock_owner o (delete_lock k ks) m,
          nil_of_length (delete_lock k ks),
        ))
]

-- The set of an owner after the lock under a held key leaves it.
pub owner_set-release :
    (o key : String) (l : Locker) (k : Lock)
    → holder key l ≡ some k
    → owner_set o (release l (some key)).0
      ≡ ite (text_discrete k.lock_owner o) (delete_lock k (owner_set o l)) (owner_set o l)
unfolding release
owner_set-release o key l k e = rw (e, release) (locks_under-leave_owner o l.lock_owners k)

abbrev pub expired_at : ℕ → Option Lock → Bool
expired_at now none = false
expired_at now (some k) = leb k.expires now

-- The keys that the loop of `checkExpired` collects are those of the expired locks.
pub has_text-expired_keys :
    (now : ℕ) (m : Map Lock) (key : String)
    → DistinctKeys m
    → ((j : String) (k : Lock) → Maps.get j m ≡ some k → k.key ≡ j)
    → has_text key (expired_keys now m) ≡ expired_at now (Maps.get key m)
unfolding has_text expired_keys Maps.get
has_text-expired_keys now [] key d h = refl
has_text-expired_keys now ((i, v) ∷ m) key d h =
    ground
      (arith, h i v, has_text-expired_keys now m key d.1 (λ j k e. h j k (ground (arith, d.0))))
