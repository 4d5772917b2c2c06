-- ===== src/QueueLocker/Promises.antt =====
-- lib/queue-locker.js: what the locker promises the queue, in every state that it can reach.
use zone_mta.Prelude.{
  ℕ, ◌+◌, ◌<◌, String, ◌≡◌, refl, if◌then◌else◌, true, not, ◌&&◌, Option, none, some, List, [], ◌∷◌,
  arith, ◌==◌, leb, length,
}
use zone_mta.Prelude.Maps.{get-set}
use zone_mta.Prelude.Sets.{has_text}
use zone_mta.QueueLocker.{
  Locker, Lock, install, join_domain, zone_data, lock, lock_exists, new_lock, domain_is_skipped,
}
use zone_mta.QueueLocker.Events.{fires, fire, step}
use zone_mta.QueueLocker.Held.{holder}
use zone_mta.QueueLocker.Owners.Keeps.{holder-check_expired}
use zone_mta.QueueLocker.Timing.{Armed}
use zone_mta.QueueLocker.Skips.{domain_set, has_text-join_domain}
use zone_mta.QueueLocker.Reachable.{IsSound}

fire_expired :
    (timer : Option ℕ) (l : Locker) (key : String) (k : Lock) (now : ℕ)
    → IsSound l
    → Armed l.next_expire_check timer
    → holder key l ≡ some k
    → k.expires < now
    → holder key (fire timer l now) ≡ none
unfolding fire
fire_expired none l key k now s a h p = ground (arith, s.timed.covered key k h)
fire_expired (some due) l key k now s a h p =
    ground (arith, s.timed.covered key k h, holder-check_expired l now key s.consistent)

-- In a reachable state, the timer run at any time past the expiry time of a held lock is due, and
-- releases the lock.
pub fires_expired :
    (l : Locker) (key : String) (k : Lock) (now : ℕ)
    → IsSound l
    → holder key l ≡ some k
    → k.expires < now
    → holder key (step l (now, fires)) ≡ none
unfolding step
fires_expired l key k now s h p = fire_expired l.lock_check_timer l key k now s s.timed.armed h p

-- In a reachable state, a domain of a zone is skipped only while a lock on it is held.
held_of_skipped :
    (l : Locker) (zone d : String)
    → IsSound l
    → domain_is_skipped l zone (some d) ≡ true
    → (k : Lock) × (holder k.key l ≡ some k) × (k.zone ≡ zone) × (k.domain ≡ some d)
unfolding domain_is_skipped has_text
held_of_skipped l zone d s h = first (domain_set zone d l.zones) refl
  where
    first :
        (ks : List Lock)
        → domain_set zone d l.zones ≡ ks
        → (k : Lock) × (holder k.key l ≡ some k) × (k.zone ≡ zone) × (k.domain ≡ some d)
    first [] e = absurd (ground (arith, s.linked.blocked zone d))
    first (k ∷ ks) e =
        let fact = rw e at (s.linked.sound zone d) in (k, fact.0.0, fact.0.1.0, fact.0.1.1)

-- A `lock` on a free key with a domain leaves the domain skipped exactly when the limit is above 0,
-- the set of the domain reaches it with this lock, and the domain was not skipped before. So a lock
-- on a domain that is skipped already takes the mark off, although the domain is full.
domain_is_skipped-lock :
    (l : Locker) (key zone d owner : String) (limit ttl now : ℕ)
    → holder key l ≡ none
    → domain_is_skipped (lock l key zone (some d) owner limit ttl now).0 zone (some d) ≡ (
        not (limit == 0)
        && leb limit (length (domain_set zone d l.zones) + 1)
        && not (domain_is_skipped l zone (some d)))
unfolding domain_is_skipped lock lock_exists install has_text
domain_is_skipped-lock l key zone d owner limit ttl now free =
    let k : Lock =
      new_lock l key zone (some d) owner limit (if ttl == 0 then l.default_ttl else ttl) now in
    rw (free, lock)
      (ground (
        arith,
        get-set zone zone (join_domain (zone_data zone l.zones) k d) l.zones,
        has_text-join_domain (zone_data zone l.zones) k d d,
      ))
