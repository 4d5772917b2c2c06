-- ===== src/QueueLocker.antt =====
-- lib/queue-locker.js: the in-memory locks on deliveries, by key, by owner, and by zone and domain.
--
-- `Locker` is the object of class QueueLocker; `Date.now()` is the argument `now`. Lock objects are
-- shared between the three maps: `ident` is the identity by which a JavaScript Set compares them.
-- `Infinity` is `none`, a falsy domain is `none`, and a timer is the time at which it is due.
-- `lockExists` compares `lock.nextExpire`, which no code assigns, so that test is never met.
pub mod Held
pub mod Owners
pub mod Timing
pub mod Skips
pub mod Events
pub mod Reachable
pub mod Promises
pub mod Table
mod Tests
use zone_mta.Prelude.{
  ℕ, suc, ◌+◌, ◌*◌, String, ite, Bool, true, false, not, ◌&&◌, ◌||◌, Option, none, some, List, [],
  ◌∷◌, ◌++◌, map, leb, ltb, ◌==◌, if◌then◌else◌, is_some, length, max, text_discrete, ℕ_discrete,
}
use zone_mta.Prelude.Maps
use zone_mta.Prelude.Sets.{has_text, delete_text}
use zone_mta.Prelude.Maps.{Map}

pub record Lock : Type 0 where
  pub ident : ℕ
  pub key : String
  pub zone : String
  pub domain : Option String
  pub lock_owner : String
  pub max_connections : ℕ
  pub ttl : ℕ
  pub expires : ℕ
  pub created : ℕ

-- `skipCache` is `none` where it is false or not set.
pub record ZoneData : Type 0 where
  pub domains : Map (List Lock)
  pub skip : List String
  pub skip_cache : Option (List String)

pub record Locker : Type 0 where
  pub default_ttl : ℕ
  pub locks : Map Lock
  pub zones : Map ZoneData
  pub lock_owners : Map (List Lock)
  pub next_expire_check : Option ℕ
  pub lock_check_timer : Option ℕ
  pub next_ident : ℕ

unfoldable pub init : Locker
init = record {
  default_ttl = 10 * 60 * 1000;
  locks = [];
  zones = [];
  lock_owners = [];
  next_expire_check = none;
  lock_check_timer = none;
  next_ident = 0;
}

-- The operations of a Set of lock objects.
unfoldable pub has_lock : Lock → List Lock → Bool
has_lock k [] = false
has_lock k (x ∷ xs) = ite (ℕ_discrete x.ident k.ident) true (has_lock k xs)

unfoldable pub delete_lock : Lock → List Lock → List Lock
delete_lock k [] = []
delete_lock k (x ∷ xs) =
    let rest = delete_lock k xs in ite (ℕ_discrete x.ident k.ident) rest (x ∷ rest)

unfoldable pub lock_exists : Locker → String → Bool
lock_exists l key = is_some (Maps.get key l.locks)

unfoldable pub domain_is_skipped : Locker → String → Option String → Bool
unfolding has_text
domain_is_skipped l zone domain = elim domain [
  | none ↦ false
  | some d ↦ elim (Maps.get zone l.zones) [ none ↦ false | some z ↦ has_text d z.skip ]
]

-- The set of locks under a key, empty where the map has none.
abbrev pub locks_under : String → Map (List Lock) → List Lock
locks_under k m = elim (Maps.get k m) [ none ↦ [] | some ks ↦ ks ]

abbrev pub empty_zone : ZoneData
empty_zone = record { domains = []; skip = []; skip_cache = none }

abbrev pub zone_data : String → Map ZoneData → ZoneData
zone_data zone m = elim (Maps.get zone m) [ none ↦ empty_zone | some z ↦ z ]

-- `lock` on a domain: the lock joins the set of its domain, and the domain is marked to be skipped or
-- the mark is taken off.
unfoldable pub join_domain : ZoneData → Lock → String → ZoneData
unfolding has_text delete_text
join_domain z k d =
    let joined = locks_under d z.domains ++ k ∷ [] in
    let domains = Maps.set d joined z.domains in
    if not (k.max_connections == 0)
      && leb k.max_connections (length joined)
      && not (has_text d z.skip)
    then record { domains = domains; skip = z.skip ++ d ∷ []; skip_cache = none }
    else if has_text d z.skip
    then record { domains = domains; skip = delete_text d z.skip; skip_cache = none }
    else record z { domains = domains }

abbrev pub new_lock : Locker → String → String → Option String → String → ℕ → ℕ → ℕ → Lock
new_lock l key zone domain lock_owner max_connections ttl now = record {
  ident = l.next_ident;
  key = key;
  zone = zone;
  domain = domain;
  lock_owner = lock_owner;
  max_connections = max_connections;
  ttl = ttl;
  expires = now + ttl;
  created = now;
}

-- `expires < this.nextExpireCheck`
abbrev pub before : ℕ → Option ℕ → Bool
before expires none = true
before expires (some t) = ltb expires t

-- What `lock` does with the lock object that it made. The timer is due a millisecond after the
-- lock expires.
unfoldable pub install : Locker → Lock → Locker
unfolding join_domain
install l k =
    let zone = zone_data k.zone l.zones in
    record l {
      locks = Maps.set k.key k l.locks;
      next_expire_check =
          if before k.expires l.next_expire_check then some k.expires else l.next_expire_check;
      lock_check_timer =
          if before k.expires l.next_expire_check then some (k.expires + 1) else l.lock_check_timer;
      lock_owners =
          Maps.set k.lock_owner (locks_under k.lock_owner l.lock_owners ++ k ∷ []) l.lock_owners;
      zones =
          Maps.set k.zone (elim k.domain [ none ↦ zone | some d ↦ join_domain zone k d ]) l.zones;
      next_ident = suc l.next_ident;
    }

-- `ttl` is 0 where it is undefined or 0.
unfoldable pub lock : Locker → String → String → Option String → String → ℕ → ℕ → ℕ → Locker × Bool
unfolding lock_exists install
lock l key zone domain lock_owner max_connections ttl now =
    if lock_exists l key
    then (l, false)
    else let life : ℕ = if ttl == 0 then l.default_ttl else ttl in
      (install l (new_lock l key zone domain lock_owner max_connections life now), true)

-- `release` on the owners: the lock leaves the set of its owner, and an empty set leaves the map.
unfoldable pub leave_owner : Map (List Lock) → Lock → Map (List Lock)
unfolding delete_lock
leave_owner m k = elim (Maps.get k.lock_owner m) [
  | none ↦ m
  | some ks ↦
      let rest = delete_lock k ks in
      if (length rest == 0) then Maps.delete k.lock_owner m else Maps.set k.lock_owner rest m
]

-- `release` on the set `ks` of the lock's domain `d`.
unfoldable pub leave_domain : ZoneData → Lock → String → List Lock → ZoneData
unfolding has_lock delete_lock has_text delete_text
leave_domain z k d ks =
    let rest = delete_lock k ks in
    let unskip =
      has_lock k ks
      && ((k.max_connections == 0) || ltb (length rest) k.max_connections)
      && has_text d z.skip in
    record {
      domains = if (length rest == 0) then Maps.delete d z.domains else Maps.set d rest z.domains;
      skip = if unskip then delete_text d z.skip else z.skip;
      skip_cache = if unskip then none else z.skip_cache;
    }

unfoldable pub leave_zone : Map ZoneData → Lock → Map ZoneData
unfolding leave_domain
leave_zone m k = elim (Maps.get k.zone m) [
  | none ↦ m
  | some z ↦ elim k.domain [
    | none ↦ m
    | some d ↦ elim (Maps.get d z.domains) [
      | none ↦ m
      | some ks ↦
          let z' = leave_domain z k d ks in
          if (length z'.domains == 0) then Maps.delete k.zone m else Maps.set k.zone z' m
    ]
  ]
]

-- A falsy key is `none`.
unfoldable pub release : Locker → Option String → Locker × Bool
unfolding leave_owner leave_zone
release l none = (l, false)
release l (some key) = elim (Maps.get key l.locks) [
  | none ↦ (l, false)
  | some k ↦
      let locks = Maps.delete key l.locks in
      (
        record l {
          locks = locks;
          lock_owners = leave_owner l.lock_owners k;
          zones = leave_zone l.zones k;
          next_expire_check = if (length locks == 0) then none else l.next_expire_check;
          lock_check_timer = if (length locks == 0) then none else l.lock_check_timer;
        },
        true,
      )
]

-- `keys.forEach(key => this.release(key))`
unfoldable pub release_all : List String → Locker → Locker
unfolding release
release_all [] l = l
release_all (key ∷ keys) l = release_all keys (release l (some key)).0

unfoldable pub release_lock_owner : Locker → String → Locker
unfolding release_all
release_lock_owner l lock_owner =
    release_all (map (λ k. k.key) (locks_under lock_owner l.lock_owners)) l

-- The loop of `checkExpired`: the keys of the locks that have expired, and the earliest expiry time
-- of the others.
unfoldable pub expired_keys : ℕ → Map Lock → List String
expired_keys now [] = []
expired_keys now ((_, k) ∷ m) =
    let rest = expired_keys now m in if leb k.expires now then k.key ∷ rest else rest

unfoldable pub earliest : ℕ → Map Lock → Option ℕ → Option ℕ
earliest now [] t = t
earliest now ((_, k) ∷ m) t =
    earliest now m
      (if leb k.expires now then t else if before k.expires t then some k.expires else t)

unfoldable pub check_expired : Locker → ℕ → Locker
unfolding release_all expired_keys earliest
check_expired l now =
    let found = record l {
      next_expire_check = earliest now l.locks none;
      lock_check_timer = none;
    } in
    let l' = release_all (expired_keys now l.locks) found in
    if (length l'.locks == 0) then l' else record l' {
      lock_check_timer = elim l'.next_expire_check [
        | none ↦ none
        | some t ↦ some (max (t + 1) now)
      ];
    }

-- `zoneData.skipCache`, made from the Set where it is not there.
abbrev pub cached_skips : ZoneData → List String
cached_skips z = elim z.skip_cache [ none ↦ z.skip | some ds ↦ ds ]

-- The list that `listSkipDomains` answers is kept in the zone. An empty list counts as none.
unfoldable pub list_skip_domains : Locker → String → Locker × Option (List String)
list_skip_domains l zone = elim (Maps.get zone l.zones) [
  | none ↦ (l, none)
  | some z ↦ (
    record l { zones = Maps.set zone (record z { skip_cache = some (cached_skips z) }) l.zones },
    if (length (cached_skips z) == 0) then none else some (cached_skips z),
  )
]
