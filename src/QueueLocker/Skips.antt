-- ===== src/QueueLocker/Skips.antt =====
-- lib/queue-locker.js: the locks of a domain, and when the domain is skipped.
pub mod Cached
pub mod Zones
pub mod Linked
pub mod Joined
use zone_mta.Prelude.{
  ℕ, suc, ◌+◌, ◌<◌, ◌≤◌, String, ◌≡◌, refl, sym, ◌∙◌, ◌⊎◌, ◌≢◌, ite, if_pos, if_neg, if◌then◌else◌,
  Bool, true, false, not, ◌&&◌, ◌||◌, Option, none, some, List, [], ◌∷◌, ◌++◌, arith, ◌==◌, leb,
  ltb, length, All, All-map, All-append, Option-cases, Bool-cases, inl, inr, text_discrete,
  length-append,
}
use zone_mta.Prelude.Maps
use zone_mta.Prelude.Maps.{Map, get-set, get-delete}
use zone_mta.Prelude.Sets.{has_text, delete_text, has_text-append, has_text-delete_text}
use zone_mta.QueueLocker.{
  Locker, Lock, ZoneData, has_lock, delete_lock, locks_under, zone_data, join_domain, install,
  leave_domain, leave_zone, lock, lock_exists, new_lock, release, release_all, domain_is_skipped,
}
use zone_mta.QueueLocker.Held.{holder, holder-install, holder-release, holder-release_all}
use zone_mta.QueueLocker.Owners.{IsConsistent, All-delete_lock}

-- The set of the locks on a domain of a zone.
abbrev pub domain_set : String → String → Map ZoneData → List Lock
domain_set zone d m = locks_under d (zone_data zone m).domains

-- The domains of a zone that are skipped.
abbrev pub skips : String → Map ZoneData → List String
skips zone m = (zone_data zone m).skip

-- On a domain that is not skipped, `lock` marks it when its set reaches the limit; on a domain that is
-- skipped already it takes the mark off, full or not.
pub has_text-join_domain :
    (z : ZoneData) (k : Lock) (d e : String)
    → has_text e (join_domain z k d).skip
      ≡ ite
          (text_discrete d e)
          (not (k.max_connections == 0)
            && leb k.max_connections (length (locks_under d z.domains) + 1)
            && not (has_text d z.skip))
          (has_text e z.skip)
unfolding join_domain has_text
has_text-join_domain z k d e = ground (
  arith,
  has_text-append e z.skip (d ∷ []),
  has_text-delete_text e d z.skip,
  length-append (locks_under d z.domains) (k ∷ []),
)

domains-join_domain :
    (z : ZoneData) (k : Lock) (d e : String)
    → locks_under e (join_domain z k d).domains
      ≡ ite (text_discrete d e) (locks_under d z.domains ++ k ∷ []) (locks_under e z.domains)
unfolding join_domain
domains-join_domain z k d e =
    ground (arith, get-set d e (locks_under d z.domains ++ k ∷ []) z.domains)

-- Whether a lock is on the domain of the zone.
abbrev pub On : String → String → Lock → Type 0
On zone d k = (k.zone ≡ zone) × (k.domain ≡ some d)

nil_of_length : (xs : List Lock) → length xs ≡ 0 → xs ≡ []
nil_of_length [] h = refl
nil_of_length (x ∷ xs) h = absurd (omega arith)

has_lock_of_emptied :
    (k : Lock) (xs : List Lock) → delete_lock k xs ≡ [] → xs ≢ [] → has_lock k xs ≡ true
unfolding has_lock delete_lock
has_lock_of_emptied k [] h n = absurd (n refl)
has_lock_of_emptied k (x ∷ xs) h n = ground arith

domains-leave_domain :
    (z : ZoneData) (k : Lock) (d e : String) (ks : List Lock)
    → Maps.get d z.domains ≡ some ks
    → locks_under e (leave_domain z k d ks).domains
      ≡ ite (text_discrete d e) (delete_lock k ks) (locks_under e z.domains)
unfolding leave_domain
domains-leave_domain z k d e ks h = ground (
  arith,
  get-set d e (delete_lock k ks) z.domains,
  get-delete d e z.domains,
  nil_of_length (delete_lock k ks),
)

skip-leave_domain :
    (z : ZoneData) (k : Lock) (d e : String) (ks : List Lock)
    → has_text e (leave_domain z k d ks).skip ≡ true
    → has_text e z.skip ≡ true
unfolding leave_domain
skip-leave_domain z k d e ks h = ground (arith, has_text-delete_text e d z.skip)

unskip-leave_domain :
    (z : ZoneData) (k : Lock) (d : String) (ks : List Lock)
    → ks ≢ []
    → delete_lock k ks ≡ []
    → has_text d (leave_domain z k d ks).skip ≡ false
unfolding leave_domain
unskip-leave_domain z k d ks n h =
    ground (arith, has_lock_of_emptied k ks h n, has_text-delete_text d d z.skip)
