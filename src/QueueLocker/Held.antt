-- ===== src/QueueLocker/Held.antt =====
-- lib/queue-locker.js: which keys are held, by which lock.
use zone_mta.Prelude.{
  ℕ, String, ◌≡◌, refl, ◌⊎◌, ite, if◌then◌else◌, true, false, Option, none, some, List, [], ◌∷◌,
  arith, ◌==◌, is_some, Option-cases, inl, inr, text_discrete,
}
use zone_mta.Prelude.Maps
use zone_mta.Prelude.Maps.{get-set, get-delete}
use zone_mta.Prelude.Sets.{has_text}
use zone_mta.QueueLocker.{Locker, Lock, lock_exists, install, lock, new_lock, release, release_all}

-- The lock that holds a key.
abbrev pub holder : String → Locker → Option Lock
holder key l = Maps.get key l.locks

pub holder-install :
    (l : Locker) (k : Lock) (j : String)
    → holder j (install l k) ≡ ite (text_discrete k.key j) (some k) (holder j l)
unfolding install
holder-install l k j = get-set k.key j k l.locks

-- `lock` answers true exactly when nobody holds the key, and then the key is held by the new lock,
-- with its owner, zone, domain and limit, until `now` plus the time to live (the default one where
-- that is 0). Every other key is held as before, and where it answers false nothing changes.
pub holder-lock :
    (l : Locker) (key zone : String) (domain : Option String) (owner : String) (limit ttl now : ℕ)
    → (holder key l ≡ none
        × (lock l key zone domain owner limit ttl now).1 ≡ true
        × ((j : String)
            → holder j (lock l key zone domain owner limit ttl now).0
              ≡ ite
                  (text_discrete key j)
                  (some (
                    new_lock l key zone domain owner limit
                      (if ttl == 0 then l.default_ttl else ttl)
                      now))
                  (holder j l)))
      ⊎ (((k : Lock) × (holder key l ≡ some k))
          × (lock l key zone domain owner limit ttl now ≡ (l, false)))
unfolding lock lock_exists
holder-lock l key zone domain owner limit ttl now = elim (Option-cases (holder key l)) [
  | inl e ↦ inl (e, rw (e, lock), λ j. rw (e, lock) (holder-install l _ j))
  | inr (k, e) ↦ inr ((k, e), rw (e, lock))
]

-- `release` answers true exactly when the key is held, and afterwards nobody holds it; every other
-- key is held as before.
pub holder-release :
    (l : Locker) (key j : String)
    → ((release l (some key)).1 ≡ is_some (holder key l))
      × (holder j (release l (some key)).0 ≡ ite (text_discrete key j) none (holder j l))
unfolding release
holder-release l key j = elim (Option-cases (holder key l)) [
  | inl e ↦ rw (e, release) (refl, ground arith)
  | inr (k, e) ↦ rw (e, release) (refl, get-delete key j l.locks)
]

pub holder-release_all :
    (keys : List String) (l : Locker) (j : String)
    → holder j (release_all keys l) ≡ (if has_text j keys then none else holder j l)
unfolding release_all has_text
holder-release_all [] l j = refl
holder-release_all (key ∷ keys) l j =
    ground (arith, holder-release_all keys (release l (some key)).0 j, holder-release l key j)
