-- ===== src/SendingZone.antt =====
-- lib/sending-zone.js: what a zone does with deliveries: it picks the local address, and hands
-- deliveries to the queue; an address that a domain refused is disabled for the domain until its
-- entry in the cache ends.
--
-- `Site` is the queue with the settings of the domains; a zone has both from its construction, so
-- `Queue missing` does not arise. A pool is what `update` made of the configuration. Log lines are
-- left out.
pub mod Pools
pub mod Blacklist
mod Tests
use zone_mta.Prelude.{
  ℕ, ◌-◌, ◌%◌, String, Bool, true, false, not, ◌&&◌, Option, none, some, List, [], ◌∷◌, ◌++◌,
  if◌then◌else◌, ◌==◌, ite, length, text_discrete,
}
use Prim.Native.String.{◌++◌ as cat}
use zone_mta.Prelude.Sets.{has_text}
use zone_mta.Prelude.Maps
use zone_mta.Delivery.{Delivery, Reply, Store}
use zone_mta.TtlCache
use zone_mta.TtlCache.{Task, run_callback}
use zone_mta.MailQueue.{Queue, Cached, blocked, same, shift}
use zone_mta.MailQueue
use zone_mta.DomainConfig
use zone_mta.DomainConfig.{DomainConfig, Setting, number, text, addresses}

pub record PoolEntry : Type 0 where
  pub address : String
  pub name : String

pub record Zone : Type 0 where
  pub name : String
  pub pool_hash : String
  pub ipv4_pool : List PoolEntry
  pub ipv6_pool : List PoolEntry

-- `pool.filter(entry => !disabledAddresses.includes(entry.address))`
unfoldable pub enabled : List String → List PoolEntry → List PoolEntry
unfolding has_text
enabled disabled [] = []
enabled disabled (e ∷ es) =
    let rest = enabled disabled es in if has_text e.address disabled then rest else e ∷ rest

-- `||` on texts, where the empty one is falsy
unfoldable pub first_text : List (Option String) → Option String
first_text [] = none
first_text (none ∷ ts) = first_text ts
first_text (some t ∷ ts) = ite (text_discrete t "") (first_text ts) (some t)

-- What the address is chosen by; `none` where it is undefined. `envelope_from` is
-- `delivery.parsedEnvelope.from`.
unfoldable pub hash_key : Zone → Delivery → Option String → Option String
unfolding first_text
hash_key z d envelope_from =
    if same
      (elim (first_text (Maps.get "poolHash" d.fields ∷ some z.pool_hash ∷ [])) [
        | none ↦ ""
        | some hash ↦ hash
      ])
      "from"
    then elim (first_text (Maps.get "from" d.fields ∷ envelope_from ∷ [])) [
      | none ↦ Maps.get "origin" d.fields
      | some from ↦ some from
    ]
    else some (cat d.id (cat "." d.seq))

unfoldable pub entry_at : ℕ → List PoolEntry → Option PoolEntry
entry_at n [] = none
entry_at n (e ∷ es) = if n == 0 then some e else entry_at (n - 1) es

-- `crc32` is the absolute value of `crc32.str`. The flag is `delivery.poolDisabled`; the answer is
-- `none` where the key is undefined or the pool is empty.
unfoldable pub get_address :
    (String → ℕ) → Zone → Delivery → Option String → Bool → List String → Option (PoolEntry × Bool)
unfolding enabled hash_key entry_at
get_address crc32 z d envelope_from use_ipv6 disabled =
    let all = if use_ipv6 then z.ipv6_pool else z.ipv4_pool in
    let left = enabled disabled all in
    let ignored = not (length disabled == 0) && length left == 0 in
    let pool = if ignored then all else left in
    elim (hash_key z d envelope_from) [
      | none ↦ none
      | some key ↦ elim (entry_at (crc32 key % length pool) pool) [
        | none ↦ none
        | some entry ↦ some (entry, ignored)
      ]
    ]

pub record Site {ℓ} (S : Type ℓ) : Type ℓ where
  pub queue : Queue S
  pub domains : DomainConfig

abbrev pub addresses_of : Option Setting → List String
addresses_of (some (addresses xs)) = xs
addresses_of _ = []

abbrev pub disabled_addresses : DomainConfig → String → List String
disabled_addresses c domain = addresses_of (DomainConfig.get c domain "disabledAddresses")

-- `disabledAddresses.splice(i, 1)` at the first one that is the address
unfoldable pub splice : String → List String → List String
splice address [] = []
splice address (x ∷ xs) = ite (text_discrete x address) xs (x ∷ splice address xs)

-- What the cache calls for an entry that has ended.
unfoldable pub remove_from_blacklist : DomainConfig → String → String → DomainConfig
unfolding splice
remove_from_blacklist c domain address =
    let disabled = disabled_addresses c domain in
    let left = splice address disabled in
    if not (has_text address disabled)
    then c
    else if length left == 0
    then DomainConfig.remove c domain "disabledAddresses"
    else DomainConfig.set c domain "disabledAddresses" (addresses left)

abbrev pub add_disabled : DomainConfig → String → String → DomainConfig
add_disabled c domain address =
    DomainConfig.set c domain "disabledAddresses"
      (addresses (disabled_addresses c domain ++ address ∷ []))

abbrev pub block_key : String → String → String
block_key domain address = cat "blacklist:" (cat domain (cat ":" address))

-- `Number(this.domainConfig.get(domain, 'maxConnections'))`, where a setting that is not a number
-- counts as none.
abbrev pub max_connections : DomainConfig → String → ℕ
max_connections c domain = elim (DomainConfig.get c domain "maxConnections") [
  | some (number n) ↦ n
  | _ ↦ 0
]

-- What a sender tells of a delivery that it defers; `response` and `log` go into the row.
pub record Response : Type 0 where
  pub category : String
  pub address : String
  pub response : Option String
  pub log : Option String

module _ {ℓ} {S : Type ℓ} where
  -- The part of `deferDelivery` before it calls the queue. `ttl` is `config.blacklist.ttl`; the
  -- callback 0 is `removeFromBlacklist`.
  unfoldable pub block : Site S → Delivery → Response → ℕ → ℕ → Site S
  block s d r ttl now =
      if same r.category "blacklist"
        && not (same r.address "")
        && not (same d.domain "")
        && not (has_text r.address (disabled_addresses s.domains d.domain))
      then record {
        domains = add_disabled s.domains d.domain r.address;
        queue = record s.queue {
          cache =
              (TtlCache.set s.queue.cache (block_key d.domain r.address)
                (some (blocked d.domain r.address)) (some ttl) (some 0) now).0;
        };
      }
      else s

  -- A turn of the event loop for the cache: its oldest task, which may call `removeFromBlacklist`.
  unfoldable pub turn : Site S → ℕ → Site S
  turn s now = record {
    queue = record s.queue { cache = TtlCache.run_pending s.queue.cache now };
    domains = elim s.queue.cache.pending [
      | run_callback func (blocked domain address) ∷ rest ↦
          remove_from_blacklist s.domains domain address
      | _ ↦ s.domains
    ];
  }

module _ {ℓ} {S : Type ℓ} (db : Store S) where
  -- `none` where the fuel of `shift` runs out.
  unfoldable pub get_next_delivery :
      ℕ → Zone → String → (String → String) → Site S → ℕ → Option (Site S × Reply (Option Delivery))
  get_next_delivery fuel z lock_owner normal s now =
      elim (shift db fuel z.name lock_owner (max_connections s.domains) normal s.queue now) [
        | none ↦ none
        | some (q, reply) ↦ some (record s { queue = q }, reply)
      ]

  unfoldable pub release_delivery : Site S → Delivery → Site S × Reply Bool
  release_delivery s d =
      let (q, reply) = MailQueue.release_delivery db s.queue d in (record s { queue = q }, reply)

  unfoldable pub defer_delivery : Site S → Delivery → ℕ → Response → ℕ → ℕ → Site S × Reply Bool
  unfolding block
  defer_delivery s d ttl r blacklist_ttl now =
      let s' = block s d r blacklist_ttl now in
      let (q, reply) = MailQueue.defer_delivery db s'.queue d ttl r.response r.log now in
      (record s' { queue = q }, reply)
