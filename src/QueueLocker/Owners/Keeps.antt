-- ===== src/QueueLocker/Owners/Keeps.antt =====
-- lib/queue-locker.js: every operation keeps the maps consistent, and what follows for
-- `releaseLockOwner` and `checkExpired`.
use zone_mta.Prelude.{
  ℕ, suc, String, ◌≡◌, refl, sym, ◌∙◌, ◌≢◌, ite, if_pos, if_neg, if◌then◌else◌, true, Option, none,
  some, List, [], ◌∷◌, arith, leb, All, All-map, All-append, Option-cases, inl, inr, text_discrete,
}
use zone_mta.Prelude.Maps
use zone_mta.Prelude.Maps.{get-set, get-delete, DistinctKeys, set-DistinctKeys, delete-DistinctKeys}
use zone_mta.Prelude.Sets.{has_text}
use zone_mta.QueueLocker.{
  Locker, Lock, init, delete_lock, install, lock, lock_exists, release, release_all,
  release_lock_owner, check_expired, expired_keys, earliest,
}
use zone_mta.QueueLocker.Held.{holder, holder-install, holder-release, holder-release_all}
use zone_mta.QueueLocker.Owners.{
  IsConsistent, owner_set, has_key, has_key-append, All-delete_lock, has_key-delete_lock,
  has_text-keys, owner_set-install, owner_set-release, has_text-expired_keys,
}

pub init-IsConsistent : IsConsistent init
unfolding init Maps.get
init-IsConsistent = record {
  keyed = λ key k h. cc;
  unique = λ key key' k k' h h' e. cc;
  complete = λ key k h. cc;
  sound = λ o. tt;
  distinct = tt;
}

module _ (l : Locker) (k : Lock) (c : IsConsistent l) (new : k.ident ≡ l.next_ident)
    (free : holder k.key l ≡ none) where
  locks-install : (install l k).locks ≡ Maps.set k.key k l.locks
  unfolding install
  locks-install = refl

  next_ident-install : (install l k).next_ident ≡ suc l.next_ident
  unfolding install
  next_ident-install = refl

  sound-install :
      (o : String)
      → All
          (λ x. (holder x.key (install l k) ≡ some x) × (x.lock_owner ≡ o))
          (owner_set o (install l k))
  sound-install o = rw (owner_set-install o l k) (elim (text_discrete k.lock_owner o) [
    | yes p ↦
        rw (if_pos _ p)
          (All-append _ (owner_set o l) (k ∷ []) old (ground (arith, holder-install l k k.key), tt))
    | no p ↦ rw (if_neg _ p) old
  ])
    where
      old : All (λ x. (holder x.key (install l k) ≡ some x) × (x.lock_owner ≡ o)) (owner_set o l)
      old =
          All-map _ _ (λ x h. ground (arith, holder-install l k x.key)) (owner_set o l) (c.sound o)

  pub install-IsConsistent : IsConsistent (install l k)
  unfolding has_key
  install-IsConsistent = record {
    keyed = λ key x h. ground (arith, holder-install l k key, c.keyed key x, next_ident-install);
    unique = λ key key' x x' h h' e. ground (
      arith,
      holder-install l k key,
      holder-install l k key',
      c.keyed key x,
      c.keyed key' x',
      c.unique key key' x x',
    );
    complete = λ key x h. ground (
      arith,
      holder-install l k key,
      owner_set-install x.lock_owner l k,
      has_key-append key (owner_set x.lock_owner l) (k ∷ []),
      c.complete key x,
    );
    sound = sound-install;
    distinct = rw locks-install (set-DistinctKeys k.key k l.locks c.distinct);
  }

module _ (l : Locker) (key : String) (k : Lock) (c : IsConsistent l)
    (held : holder key l ≡ some k) where
  locks-release : (release l (some key)).0.locks ≡ Maps.delete key l.locks
  unfolding release
  locks-release = rw (held, release)

  next_ident-release : (release l (some key)).0.next_ident ≡ l.next_ident
  unfolding release
  next_ident-release = rw (held, release)

  sound-release :
      (o : String)
      → All
          (λ x. (holder x.key (release l (some key)).0 ≡ some x) × (x.lock_owner ≡ o))
          (owner_set o (release l (some key)).0)
  sound-release o = rw (owner_set-release o key l k held) (elim (text_discrete k.lock_owner o) [
    | yes p ↦ rw (if_pos _ p) (
        All-map _ _ (λ x h. ground (arith, holder-release l key x.key, h))
          (delete_lock k (owner_set o l)) (All-delete_lock _ k (owner_set o l) (c.sound o)))
    | no p ↦ rw (if_neg _ p) (
        All-map _ _ (λ x h. ground (arith, holder-release l key x.key, h)) (owner_set o l)
          (c.sound o))
  ])

  complete-release :
      (j : String) (x : Lock)
      → holder j l ≡ some x
      → key ≢ j
      → has_key j (delete_lock k (owner_set x.lock_owner l)) ≡ true
  complete-release j x h n =
      has_key-delete_lock j k (owner_set x.lock_owner l) (
        All-map _ _ (λ y hy e e'. n (c.unique key j k y held (ground (arith, hy)) (sym e')))
          (owner_set x.lock_owner l) (c.sound x.lock_owner))
      ∙ c.complete j x h

  held_release-IsConsistent : IsConsistent (release l (some key)).0
  held_release-IsConsistent = record {
    keyed = λ j x h. ground (arith, holder-release l key j, c.keyed j x, next_ident-release);
    unique = λ i j x y h h' e.
        ground (arith, holder-release l key i, holder-release l key j, c.unique i j x y);
    complete = λ j x h. ground (
      arith,
      holder-release l key j,
      owner_set-release x.lock_owner key l k held,
      complete-release j x,
      c.complete j x,
    );
    sound = sound-release;
    distinct = rw locks-release (delete-DistinctKeys key l.locks c.distinct);
  }

pub release-IsConsistent :
    (l : Locker) (key : Option String) → IsConsistent l → IsConsistent (release l key).0
unfolding release
release-IsConsistent l none c = c
release-IsConsistent l (some key) c = elim (Option-cases (holder key l)) [
  | inl e ↦ rw (e, release) c
  | inr (k, e) ↦ held_release-IsConsistent l key k c e
]

pub lock-IsConsistent :
    (l : Locker) (key zone : String) (domain : Option String) (owner : String) (limit ttl now : ℕ)
    → IsConsistent l
    → IsConsistent (lock l key zone domain owner limit ttl now).0
unfolding lock lock_exists
lock-IsConsistent l key zone domain owner limit ttl now c = elim (Option-cases (holder key l)) [
  | inl e ↦ rw (e, lock) (install-IsConsistent l _ c refl e)
  | inr (k, e) ↦ rw (e, lock) c
]

pub release_all-IsConsistent :
    (keys : List String) (l : Locker) → IsConsistent l → IsConsistent (release_all keys l)
unfolding release_all
release_all-IsConsistent [] l c = c
release_all-IsConsistent (key ∷ keys) l c =
    release_all-IsConsistent keys (release l (some key)).0 (release-IsConsistent l (some key) c)

-- A lock unless the owner has it.
abbrev pub unless_owner : String → Option Lock → Option Lock
unless_owner o none = none
unless_owner o (some k) = ite (text_discrete k.lock_owner o) none (some k)

-- A lock unless its time is over.
abbrev pub unless_expired : ℕ → Option Lock → Option Lock
unless_expired now none = none
unless_expired now (some k) = if leb k.expires now then none else some k

owner_of_has_key :
    (key o : String) (l : Locker) (xs : List Lock)
    → All (λ x. (holder x.key l ≡ some x) × (x.lock_owner ≡ o)) xs
    → has_key key xs ≡ true
    → (k : Lock) × (holder key l ≡ some k) × (k.lock_owner ≡ o)
unfolding has_key
owner_of_has_key key o l [] h e = cc
owner_of_has_key key o l (x ∷ xs) h e = elim (text_discrete x.key key) [
  | yes p ↦ (x, rw (← p) h.0.0, h.0.1)
  | no p ↦ owner_of_has_key key o l xs h.1 (ground arith)
]

-- `releaseLockOwner` releases every lock of the owner and no other lock.
pub holder-release_lock_owner :
    (l : Locker) (owner key : String)
    → IsConsistent l
    → holder key (release_lock_owner l owner) ≡ unless_owner owner (holder key l)
unfolding release_lock_owner
holder-release_lock_owner l owner key c =
    rw (holder-release_all _ l key, has_text-keys key (owner_set owner l))
      (elim (Option-cases (holder key l)) [
        | inl e ↦ ground (arith, listed)
        | inr (k, e) ↦ ground (arith, listed, c.complete key k e)
      ])
  where
    listed :
        has_key key (owner_set owner l) ≡ true
        → (k : Lock) × (holder key l ≡ some k) × (k.lock_owner ≡ owner)
    listed = owner_of_has_key key owner l (owner_set owner l) (c.sound owner)

locks-retimed :
    (l : Locker) (keys : List String) (t timer : Option ℕ) (key : String)
    → holder key (release_all keys (record l { next_expire_check = t; lock_check_timer = timer }))
      ≡ (if has_text key keys then none else holder key l)
locks-retimed l keys t timer key = holder-release_all keys _ key

-- `checkExpired` at time `now` releases every lock whose expiry time is `now` or earlier, and no
-- other lock.
pub holder-check_expired :
    (l : Locker) (now : ℕ) (key : String)
    → IsConsistent l
    → holder key (check_expired l now) ≡ unless_expired now (holder key l)
unfolding check_expired
holder-check_expired l now key c = ground (
  arith,
  locks-retimed l (expired_keys now l.locks) (earliest now l.locks none) none key,
  has_text-expired_keys now l.locks key c.distinct (λ j k e. (c.keyed j k e).0),
)
