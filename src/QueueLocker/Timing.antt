-- ===== src/QueueLocker/Timing.antt =====
-- lib/queue-locker.js: while a lock is held, a timer is set that will find it expired.
pub mod Check
use zone_mta.Prelude.{
  ℕ, ◌+◌, ◌<◌, ◌≤◌, String, ◌≡◌, refl, sym, ◌∙◌, ◌⊎◌, ◌≢◌, Option, none, some, List, [], ◌∷◌, arith,
  ◌==◌, length, Option-cases, Bool-cases, inl, inr, text_discrete,
}
use zone_mta.Prelude.Maps
use zone_mta.Prelude.Maps.{Map}
use zone_mta.QueueLocker.{
  Locker, Lock, init, install, lock, lock_exists, release, release_all, check_expired, expired_keys,
  earliest,
}
use zone_mta.QueueLocker.Held.{holder, holder-install, holder-release}
use zone_mta.QueueLocker.Owners.{IsConsistent}
use zone_mta.QueueLocker.Owners.Keeps.{holder-check_expired}

abbrev pub AtMost : Option ℕ → ℕ → Type 0
AtMost none e = ⊥
AtMost (some t) e = t ≤ e

-- The timer is due a millisecond after the next expiry time at the latest.
abbrev pub Armed : Option ℕ → Option ℕ → Type 0
Armed none timer = Unit
Armed (some t) none = ⊥
Armed (some t) (some due) = due ≤ t + 1

-- No lock expires before `nextExpireCheck`, for which the timer is set.
pub record IsTimed (l : Locker) : Type 0 where
  pub idle : l.locks ≡ [] → l.next_expire_check ≡ none
  pub armed : Armed l.next_expire_check l.lock_check_timer
  pub covered :
      (key : String) (k : Lock) → holder key l ≡ some k → AtMost l.next_expire_check k.expires

pub init-IsTimed : IsTimed init
unfolding init Maps.get
init-IsTimed = record { idle = λ e. refl; armed = tt; covered = λ key k h. cc }

set-ne-nil : (key : String) (k : Lock) (m : Map Lock) → Maps.set key k m ≢ []
unfolding Maps.set
set-ne-nil key k [] e = cc
set-ne-nil key k ((j, v) ∷ m) e = ground (arith)

pub holder_nil : (key : String) (l : Locker) → l.locks ≡ [] → holder key l ≡ none
holder_nil key l e = Maps.get_of_nil key l.locks e

pub nil_of_length : (m : Map Lock) → length m ≡ 0 → m ≡ []
nil_of_length [] h = refl
nil_of_length (x ∷ m) h = absurd (omega arith)

install_covered :
    (l : Locker) (k : Lock) (key : String) (x : Lock)
    → IsTimed l
    → holder key (install l k) ≡ some x
    → AtMost (install l k).next_expire_check x.expires
unfolding install
install_covered l k key x t h = ground (arith, holder-install l k key, t.covered key x)

Armed-install :
    (l : Locker) (k : Lock)
    → IsTimed l
    → Armed (install l k).next_expire_check (install l k).lock_check_timer
unfolding install
Armed-install l k t = ground (arith, t.armed)

idle-install : (l : Locker) (k : Lock) → (install l k).locks ≢ []
unfolding install
idle-install l k e = set-ne-nil k.key k l.locks e

install-IsTimed : (l : Locker) (k : Lock) → IsTimed l → IsTimed (install l k)
install-IsTimed l k t = record {
  idle = λ e. absurd (idle-install l k e);
  armed = Armed-install l k t;
  covered = λ key x h. install_covered l k key x t h;
}

pub lock-IsTimed :
    (l : Locker) (key zone : String) (domain : Option String) (owner : String) (limit ttl now : ℕ)
    → IsTimed l
    → IsTimed (lock l key zone domain owner limit ttl now).0
unfolding lock lock_exists
lock-IsTimed l key zone domain owner limit ttl now t = elim (Option-cases (holder key l)) [
  | inl e ↦ rw (e, lock) (install-IsTimed l _ t)
  | inr (k, e) ↦ rw (e, lock) t
]

-- What `release` leaves: the timing as it was, or no lock and no timing.
pub release-timing :
    (l : Locker) (key : String)
    → (((release l (some key)).0.next_expire_check ≡ l.next_expire_check)
        × ((release l (some key)).0.lock_check_timer ≡ l.lock_check_timer)
        × ((release l (some key)).0.locks ≡ [] → l.locks ≡ []))
      ⊎ (((release l (some key)).0.next_expire_check ≡ none)
          × ((release l (some key)).0.locks ≡ []))
unfolding release
release-timing l key = elim (Option-cases (holder key l)) [
  | inl e ↦ rw (e, release) (inl (refl, refl, λ h. h))
  | inr (k, e) ↦
      rw (e, release)
        (elim (Bool-cases (length (Maps.delete key l.locks) == 0)) [
          | inl h ↦ rw h (inr (refl, nil_of_length _ (ground arith)))
          | inr h ↦ rw h (inl (refl, refl, λ z. absurd (ground (arith))))
        ])
]

pub release-IsTimed : (l : Locker) (key : Option String) → IsTimed l → IsTimed (release l key).0
unfolding release
release-IsTimed l none t = t
release-IsTimed l (some key) t = record {
  idle = λ e. ground (arith, release-timing l key, t.idle);
  armed = ground (arith, release-timing l key, t.armed);
  covered = λ j x h. ground (
    arith,
    release-timing l key,
    holder-release l key j,
    t.covered j x,
    holder_nil j (release l (some key)).0,
  );
}

pub release_all-IsTimed :
    (keys : List String) (l : Locker) → IsTimed l → IsTimed (release_all keys l)
unfolding release_all
release_all-IsTimed [] l t = t
release_all-IsTimed (key ∷ keys) l t =
    release_all-IsTimed keys (release l (some key)).0 (release-IsTimed l (some key) t)

locks-release_nil : (l : Locker) (key : String) → l.locks ≡ [] → (release l (some key)).0 ≡ l
unfolding release
locks-release_nil l key e = rw (holder_nil key l e, release) refl

pub release_all-nil : (keys : List String) (l : Locker) → l.locks ≡ [] → release_all keys l ≡ l
unfolding release_all
release_all-nil [] l e = refl
release_all-nil (key ∷ keys) l e = rw (locks-release_nil l key e) (release_all-nil keys l e)
