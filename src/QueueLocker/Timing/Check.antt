-- ===== src/QueueLocker/Timing/Check.antt =====
-- lib/queue-locker.js, `checkExpired`: the timer is set for the locks that are left.
use zone_mta.Prelude.{
  ℕ, ◌<◌, String, ◌≡◌, refl, sym, ◌∙◌, ◌⊎◌, Option, none, some, List, [], ◌∷◌, arith, inl, inr,
  text_discrete,
}
use zone_mta.Prelude.Maps
use zone_mta.Prelude.Maps.{Map}
use zone_mta.QueueLocker.{Locker, Lock, release, release_all, check_expired, expired_keys, earliest}
use zone_mta.QueueLocker.Held.{holder}
use zone_mta.QueueLocker.Owners.{IsConsistent}
use zone_mta.QueueLocker.Owners.Keeps.{holder-check_expired}
use zone_mta.QueueLocker.Timing.{
  AtMost, Armed, IsTimed, release-timing, release_all-nil, holder_nil, nil_of_length,
}

release_all-timing :
    (keys : List String) (l : Locker)
    → (((release_all keys l).next_expire_check ≡ l.next_expire_check)
        × ((release_all keys l).locks ≡ [] → l.locks ≡ []))
      ⊎ (((release_all keys l).next_expire_check ≡ none) × ((release_all keys l).locks ≡ []))
unfolding release_all
release_all-timing [] l = inl (refl, λ h. h)
release_all-timing (key ∷ keys) l = ground (
  arith,
  release-timing l key,
  release_all-timing keys (release l (some key)).0,
  release_all-nil keys (release l (some key)).0,
)

earliest-AtMost :
    (now e : ℕ) (m : Map Lock) (t : Option ℕ) → AtMost t e → AtMost (earliest now m t) e
unfolding earliest
earliest-AtMost now e [] t h = h
earliest-AtMost now e ((j, k) ∷ m) t h = earliest-AtMost now e m _ (ground arith)

earliest_lower :
    (now : ℕ) (m : Map Lock) (t : Option ℕ) (key : String) (k : Lock)
    → Maps.get key m ≡ some k
    → now < k.expires
    → AtMost (earliest now m t) k.expires
unfolding earliest Maps.get
earliest_lower now [] t key k h p = cc
earliest_lower now ((j, x) ∷ m) t key k h p = elim (text_discrete j key) [
  | yes q ↦ earliest-AtMost now k.expires m _ (ground arith)
  | no q ↦ earliest_lower now m _ key k (ground arith) p
]

-- Later than `now`.
abbrev After : ℕ → Option ℕ → Type 0
After now none = Unit
After now (some t) = now < t

earliest-After :
    (now : ℕ) (m : Map Lock) (t : Option ℕ) → After now t → After now (earliest now m t)
unfolding earliest
earliest-After now [] t h = h
earliest-After now ((j, k) ∷ m) t h = earliest-After now m _ (ground arith)

module _ (l : Locker) (now : ℕ) (c : IsConsistent l) where
  abbrev found : Locker
  found = record l { next_expire_check = earliest now l.locks none; lock_check_timer = none }

  abbrev left : Locker
  left = release_all (expired_keys now l.locks) found

  left_timing :
      ((left.next_expire_check ≡ earliest now l.locks none) × (left.locks ≡ [] → l.locks ≡ []))
      ⊎ ((left.next_expire_check ≡ none) × (left.locks ≡ []))
  left_timing = release_all-timing (expired_keys now l.locks) found

  idle_left : left.locks ≡ [] → left.next_expire_check ≡ none
  unfolding earliest
  idle_left e = elim left_timing [ inl h ↦ h.0 ∙ rw (h.1 e) | inr h ↦ h.0 ]

  held_left :
      (key : String) (k : Lock)
      → holder key (check_expired l now) ≡ some k
      → (holder key l ≡ some k) × (now < k.expires)
  held_left key k h = ground (arith, holder-check_expired l now key c)

  locks-check_expired : (check_expired l now).locks ≡ left.locks
  unfolding check_expired
  locks-check_expired = ground arith

  next-check_expired : (check_expired l now).next_expire_check ≡ left.next_expire_check
  unfolding check_expired
  next-check_expired = ground arith

  check_expired-Armed :
      Armed (check_expired l now).next_expire_check (check_expired l now).lock_check_timer
  unfolding check_expired
  check_expired-Armed =
      ground (
        arith,
        left_timing,
        earliest-After now l.locks none tt,
        idle_left,
        nil_of_length left.locks,
      )

  covered_left :
      (key : String) (k : Lock)
      → holder key (check_expired l now) ≡ some k
      → AtMost (check_expired l now).next_expire_check k.expires
  covered_left key k h = elim left_timing [
    | inl t ↦
        rw (next-check_expired, t.0)
          (earliest_lower now l.locks none key k (held_left key k h).0 (held_left key k h).1)
    | inr t ↦
        absurd (ground (arith, holder_nil key (check_expired l now) (locks-check_expired ∙ t.1)))
  ]

  pub check_expired-IsTimed : IsTimed (check_expired l now)
  check_expired-IsTimed = record {
    idle = λ e. next-check_expired ∙ idle_left (sym locks-check_expired ∙ e);
    armed = check_expired-Armed;
    covered = covered_left;
  }
