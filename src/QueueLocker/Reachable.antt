-- ===== src/QueueLocker/Reachable.antt =====
-- lib/queue-locker.js: what holds after any sequence of calls and timer runs.
use zone_mta.Prelude.{
  ℕ, String, ◌≡◌, refl, Option, none, some, List, [], ◌∷◌, ◌==◌, leb, length, map, Option-cases,
  Bool-cases, inl, inr,
}
use zone_mta.Prelude.Maps
use zone_mta.Prelude.Maps.{get-set}
use zone_mta.QueueLocker.{
  Locker, init, lock, release, release_lock_owner, check_expired, expired_keys, earliest,
  list_skip_domains, release_all,
}
use zone_mta.QueueLocker.Events.{
  Event, locks_key, releases, releases_owner, fires, lists, fire, step, run,
}
use zone_mta.QueueLocker.Owners.{IsConsistent, owner_set}
use zone_mta.QueueLocker.Owners.Keeps.{
  init-IsConsistent, lock-IsConsistent, release-IsConsistent, release_all-IsConsistent,
}
use zone_mta.QueueLocker.Timing.{
  IsTimed, init-IsTimed, lock-IsTimed, release-IsTimed, release_all-IsTimed,
}
use zone_mta.QueueLocker.Timing.Check.{check_expired-IsTimed}
use zone_mta.QueueLocker.Skips.Linked.{
  IsLinked, init-IsLinked, lock-IsLinked, release-IsLinked, release_all-IsLinked, retimed-IsLinked,
}
use zone_mta.QueueLocker.Skips.Joined.{
  IsJoined, init-IsJoined, lock-IsJoined, release-IsJoined, release_all-IsJoined, retimed-IsJoined,
  list_skip_domains-IsJoined,
}
use zone_mta.QueueLocker.Skips.Cached.{
  IsCached, init-IsCached, lock-IsCached, release-IsCached, release_all-IsCached,
  list_skip_domains-IsCached, list_skip_domains-IsLinked, locks-list_skip_domains,
}

-- All invariants of the locker.
pub record IsSound (l : Locker) : Type 0 where
  pub consistent : IsConsistent l
  pub timed : IsTimed l
  pub linked : IsLinked l
  pub joined : IsJoined l
  pub cached : IsCached l

pub init-IsSound : IsSound init
init-IsSound = record {
  consistent = init-IsConsistent;
  timed = init-IsTimed;
  linked = init-IsLinked;
  joined = init-IsJoined;
  cached = init-IsCached;
}

pub lock-IsSound :
    (l : Locker) (key zone : String) (domain : Option String) (owner : String) (limit ttl now : ℕ)
    → IsSound l
    → IsSound (lock l key zone domain owner limit ttl now).0
lock-IsSound l key zone domain owner limit ttl now s = record {
  consistent = lock-IsConsistent l key zone domain owner limit ttl now s.consistent;
  timed = lock-IsTimed l key zone domain owner limit ttl now s.timed;
  linked = lock-IsLinked l key zone domain owner limit ttl now s.linked;
  joined = lock-IsJoined l key zone domain owner limit ttl now s.consistent s.linked s.joined;
  cached = lock-IsCached l key zone domain owner limit ttl now s.cached;
}

pub release-IsSound : (l : Locker) (key : Option String) → IsSound l → IsSound (release l key).0
release-IsSound l key s = record {
  consistent = release-IsConsistent l key s.consistent;
  timed = release-IsTimed l key s.timed;
  linked = release-IsLinked l key s.linked;
  joined = release-IsJoined l key s.consistent s.linked s.joined;
  cached = release-IsCached l key s.cached;
}

pub release_lock_owner-IsSound :
    (l : Locker) (owner : String) → IsSound l → IsSound (release_lock_owner l owner)
unfolding release_lock_owner
release_lock_owner-IsSound l owner s =
    let keys : List String = map (λ k. k.key) (owner_set owner l) in
    record {
      consistent = release_all-IsConsistent keys l s.consistent;
      timed = release_all-IsTimed keys l s.timed;
      linked = release_all-IsLinked keys l s.linked;
      joined = release_all-IsJoined keys l s.consistent s.linked s.joined;
      cached = release_all-IsCached keys l s.cached;
    }

-- Another timing makes no difference to the locks and their owners.
retimed-IsConsistent :
    (l : Locker) (t timer : Option ℕ)
    → IsConsistent l
    → IsConsistent (record l { next_expire_check = t; lock_check_timer = timer })
retimed-IsConsistent l t timer c = record {
  keyed = c.keyed;
  unique = c.unique;
  complete = c.complete;
  sound = c.sound;
  distinct = c.distinct;
}

check_expired-IsSound : (l : Locker) (now : ℕ) → IsSound l → IsSound (check_expired l now)
unfolding check_expired
check_expired-IsSound l now s = record {
  consistent = consistent;
  timed = check_expired-IsTimed l now s.consistent;
  linked = linked;
  joined = joined;
  cached = cached;
}
  where
    found : Locker
    found = record l { next_expire_check = earliest now l.locks none; lock_check_timer = none }

    left : Locker
    left = release_all (expired_keys now l.locks) found

    kept : IsConsistent left
    kept =
        release_all-IsConsistent (expired_keys now l.locks) found
          (retimed-IsConsistent l _ none s.consistent)

    kept_linked : IsLinked left
    kept_linked =
        release_all-IsLinked (expired_keys now l.locks) found (retimed-IsLinked l _ none s.linked)

    kept_joined : IsJoined left
    kept_joined =
        release_all-IsJoined (expired_keys now l.locks) found
          (retimed-IsConsistent l _ none s.consistent) (retimed-IsLinked l _ none s.linked)
          (retimed-IsJoined l _ none s.joined)

    kept_cached : IsCached left
    kept_cached = release_all-IsCached (expired_keys now l.locks) found s.cached

    consistent : IsConsistent (check_expired l now)
    consistent = elim (Bool-cases (length left.locks == 0)) [
      | inl e ↦ rw e kept
      | inr e ↦ rw e (retimed-IsConsistent left left.next_expire_check _ kept)
    ]

    linked : IsLinked (check_expired l now)
    linked = elim (Bool-cases (length left.locks == 0)) [
      | inl e ↦ rw e kept_linked
      | inr e ↦ rw e (retimed-IsLinked left left.next_expire_check _ kept_linked)
    ]

    joined : IsJoined (check_expired l now)
    joined = elim (Bool-cases (length left.locks == 0)) [
      | inl e ↦ rw e kept_joined
      | inr e ↦ rw e (retimed-IsJoined left left.next_expire_check _ kept_joined)
    ]

    cached : IsCached (check_expired l now)
    cached = elim (Bool-cases (length left.locks == 0)) [
      | inl e ↦ rw e kept_cached
      | inr e ↦ rw e kept_cached
    ]

list_skip_domains-parts :
    (l : Locker) (zone : String)
    → ((list_skip_domains l zone).0.lock_owners ≡ l.lock_owners)
      × ((list_skip_domains l zone).0.next_ident ≡ l.next_ident)
      × ((list_skip_domains l zone).0.next_expire_check ≡ l.next_expire_check)
      × ((list_skip_domains l zone).0.lock_check_timer ≡ l.lock_check_timer)
unfolding list_skip_domains
list_skip_domains-parts l zone = elim (Option-cases (Maps.get zone l.zones)) [
  | inl e ↦ rw (e, list_skip_domains) (refl, refl, refl, refl)
  | inr (z, e) ↦ rw (e, list_skip_domains) (refl, refl, refl, refl)
]

pub list_skip_domains-IsSound :
    (l : Locker) (zone : String) → IsSound l → IsSound (list_skip_domains l zone).0
list_skip_domains-IsSound l zone s =
    let same = locks-list_skip_domains l zone in
    let (owners, ident, next, timer) = list_skip_domains-parts l zone in
    record {
      consistent = record {
        keyed = rw (same, ident) s.consistent.keyed;
        unique = rw same s.consistent.unique;
        complete = rw (same, owners) s.consistent.complete;
        sound = rw (same, owners) s.consistent.sound;
        distinct = rw same s.consistent.distinct;
      };
      timed = record {
        idle = rw (same, next) s.timed.idle;
        armed = rw (next, timer) s.timed.armed;
        covered = rw (same, next) s.timed.covered;
      };
      linked = list_skip_domains-IsLinked l zone s.linked;
      joined = list_skip_domains-IsJoined l zone s.joined;
      cached = list_skip_domains-IsCached l zone s.cached;
    }

pub fire-IsSound :
    (timer : Option ℕ) (l : Locker) (now : ℕ) → IsSound l → IsSound (fire timer l now)
unfolding fire
fire-IsSound none l now s = s
fire-IsSound (some due) l now s = elim (Bool-cases (leb due now)) [
  | inl h ↦ rw h (check_expired-IsSound l now s)
  | inr h ↦ rw h s
]

pub step-IsSound : (l : Locker) (e : ℕ × Event) → IsSound l → IsSound (step l e)
unfolding step
step-IsSound l (now, locks_key key zone domain owner limit ttl) s =
    lock-IsSound l key zone domain owner limit ttl now s
step-IsSound l (now, releases key) s = release-IsSound l key s
step-IsSound l (now, releases_owner owner) s = release_lock_owner-IsSound l owner s
step-IsSound l (now, fires) s = fire-IsSound l.lock_check_timer l now s
step-IsSound l (now, lists zone) s = list_skip_domains-IsSound l zone s

pub run-IsSound : (l : Locker) (es : List (ℕ × Event)) → IsSound l → IsSound (run l es)
unfolding run
run-IsSound l [] s = s
run-IsSound l (e ∷ es) s = run-IsSound (step l e) es (step-IsSound l e s)

-- After any sequence of calls and timer runs on a new locker: the maps by key, by owner and by
-- domain agree (`IsConsistent`, `IsLinked`, `IsJoined`): the set of an owner and the set of a
-- domain have exactly the held locks of that owner and on that domain, the latter each lock once,
-- and a domain is skipped only while its set is not empty; no lock expires before
-- `nextExpireCheck`, for which the timer is set with at most a millisecond to spare (`IsTimed`),
-- and no list of skipped domains that is kept is stale (`IsCached`).
pub run-init-IsSound : (es : List (ℕ × Event)) → IsSound (run init es)
run-init-IsSound es = run-IsSound init es init-IsSound
