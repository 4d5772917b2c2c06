-- ===== src/QueueLocker/Skips/Cached.antt =====
-- lib/queue-locker.js: `listSkipDomains` keeps a copy of the skipped domains, which is never stale.
use zone_mta.Prelude.{
  ℕ, String, ◌≡◌, refl, ◌⊎◌, if◌then◌else◌, Option, none, some, List, [], ◌∷◌, arith, ◌==◌, length,
  Option-cases, inl, inr, All-map,
}
use zone_mta.Prelude.Maps
use zone_mta.Prelude.Maps.{Map, get-set, get-delete}
use zone_mta.QueueLocker.{
  Locker, Lock, ZoneData, init, zone_data, join_domain, install, leave_domain, leave_zone, lock,
  lock_exists, new_lock, cached_skips, release, release_all, list_skip_domains,
}
use zone_mta.QueueLocker.Held.{holder}
use zone_mta.QueueLocker.Skips.{domain_set, skips}
use zone_mta.QueueLocker.Skips.Zones.{zone_data-left_zone, leave_zone-cases}
use zone_mta.QueueLocker.Skips.Linked.{IsLinked}

abbrev pub Fresh : ZoneData → Type 0
Fresh z = (z.skip_cache ≡ none) ⊎ (z.skip_cache ≡ some z.skip)

-- The copy of every zone is absent or equal to the domains that are skipped.
abbrev pub IsCached : Locker → Type 0
IsCached l = (zone : String) → Fresh (zone_data zone l.zones)

pub init-IsCached : IsCached init
unfolding init Maps.get
init-IsCached zone = inl refl

Fresh-join_domain : (z : ZoneData) (k : Lock) (d : String) → Fresh z → Fresh (join_domain z k d)
unfolding join_domain
Fresh-join_domain z k d f = ground (arith, f)

install-IsCached : (l : Locker) (k : Lock) → IsCached l → IsCached (install l k)
unfolding install
install-IsCached l k c zone = elim (Option-cases k.domain) [
  | inl e ↦ ground (arith, c zone, c k.zone, get-set k.zone zone (zone_data k.zone l.zones) l.zones)
  | inr (x, e) ↦ ground (
    arith,
    c zone,
    Fresh-join_domain (zone_data k.zone l.zones) k x (c k.zone),
    get-set k.zone zone (join_domain (zone_data k.zone l.zones) k x) l.zones,
  )
]

pub lock-IsCached :
    (l : Locker) (key zone : String) (domain : Option String) (owner : String) (limit ttl now : ℕ)
    → IsCached l
    → IsCached (lock l key zone domain owner limit ttl now).0
unfolding lock lock_exists
lock-IsCached l key zone domain owner limit ttl now c = elim (Option-cases (holder key l)) [
  | inl e ↦
      rw (e, lock)
        (install-IsCached l
          (new_lock l key zone domain owner limit (if ttl == 0 then l.default_ttl else ttl) now) c)
  | inr (k, e) ↦ rw (e, lock) c
]

Fresh-leave_domain :
    (z : ZoneData) (k : Lock) (d : String) (ks : List Lock)
    → Fresh z
    → Fresh (leave_domain z k d ks)
unfolding leave_domain
Fresh-leave_domain z k d ks f = ground (arith, f)

Fresh-leave_zone :
    (m : Map ZoneData) (k : Lock) (zone : String)
    → ((j : String) → Fresh (zone_data j m))
    → Fresh (zone_data zone (leave_zone m k))
Fresh-leave_zone m k zone c = elim (leave_zone-cases m k) [
  | inl (same, empty) ↦ rw same (c zone)
  | inr (z, d, ks, f, g, h, moved) ↦ ground (
    arith,
    moved,
    c zone,
    c k.zone,
    Fresh-leave_domain z k d ks,
    zone_data-left_zone m k (leave_domain z k d ks) zone,
  )
]

pub release-IsCached : (l : Locker) (key : Option String) → IsCached l → IsCached (release l key).0
unfolding release
release-IsCached l none c = c
release-IsCached l (some key) c = elim (Option-cases (holder key l)) [
  | inl e ↦ rw (e, release) c
  | inr (k, e) ↦ rw (e, release) (λ zone. Fresh-leave_zone l.zones k zone c)
]

pub release_all-IsCached :
    (keys : List String) (l : Locker) → IsCached l → IsCached (release_all keys l)
unfolding release_all
release_all-IsCached [] l c = c
release_all-IsCached (key ∷ keys) l c =
    release_all-IsCached keys (release l (some key)).0 (release-IsCached l (some key) c)

-- The copy changes, and nothing else does.
pub zone_data-list_skip_domains :
    (l : Locker) (zone j : String)
    → ((zone_data j (list_skip_domains l zone).0.zones).domains ≡ (zone_data j l.zones).domains)
      × ((zone_data j (list_skip_domains l zone).0.zones).skip ≡ (zone_data j l.zones).skip)
unfolding list_skip_domains
zone_data-list_skip_domains l zone j = elim (Option-cases (Maps.get zone l.zones)) [
  | inl e ↦ rw (e, list_skip_domains) (refl, refl)
  | inr (z, e) ↦
      let fact = get-set zone j (record z { skip_cache = some (cached_skips z) }) l.zones in
      rw (e, list_skip_domains) (ground (arith, fact), ground (arith, fact))
]

pub list_skip_domains-IsCached :
    (l : Locker) (zone : String) → IsCached l → IsCached (list_skip_domains l zone).0
unfolding list_skip_domains
list_skip_domains-IsCached l zone c j = elim (Option-cases (Maps.get zone l.zones)) [
  | inl e ↦ rw (e, list_skip_domains) (c j)
  | inr (z, e) ↦
      let fact = get-set zone j (record z { skip_cache = some (cached_skips z) }) l.zones in
      rw (e, list_skip_domains) (ground (arith, fact, c j, c zone))
]

pub locks-list_skip_domains :
    (l : Locker) (zone : String) → (list_skip_domains l zone).0.locks ≡ l.locks
unfolding list_skip_domains
locks-list_skip_domains l zone = elim (Option-cases (Maps.get zone l.zones)) [
  | inl e ↦ rw (e, list_skip_domains)
  | inr (z, e) ↦ rw (e, list_skip_domains)
]

pub list_skip_domains-IsLinked :
    (l : Locker) (zone : String) → IsLinked l → IsLinked (list_skip_domains l zone).0
list_skip_domains-IsLinked l zone c = record {
  sound = λ j d.
      let (same, kept) = zone_data-list_skip_domains l zone j in
      rw same (All-map _ _ (λ x h. (locks_same x h.0, h.1)) (domain_set j d l.zones) (c.sound j d));
  blocked = λ j d h.
      let (same, kept) = zone_data-list_skip_domains l zone j in
      rw kept (c.blocked j d (rw same at h));
}
  where
    locks_same :
        (x : Lock) → holder x.key l ≡ some x → holder x.key (list_skip_domains l zone).0 ≡ some x
    locks_same x h = rw (locks-list_skip_domains l zone) h

-- Where the copies are not stale, `listSkipDomains` answers the domains that are skipped now, or
-- nothing where there is none.
list_skip_domains_current :
    (l : Locker) (zone : String)
    → IsCached l
    → (list_skip_domains l zone).1
      ≡ (if (length (skips zone l.zones) == 0) then none else some (skips zone l.zones))
unfolding list_skip_domains
list_skip_domains_current l zone c = elim (Option-cases (Maps.get zone l.zones)) [
  | inl e ↦ rw (e, list_skip_domains) (ground arith)
  | inr (z, e) ↦ rw (e, list_skip_domains) (ground (arith, c zone))
]
