-- ===== src/QueueServer.antt =====
-- lib/queue-server.js: the server from which the sender processes take deliveries.
--
-- A connection is a number, and a client that has closed or failed has no record (`client = null`).
-- A request that needs the database waits in `waiting` until its callbacks run, in any order, and
-- is one step then; `sent` are the answers, the latest first. Metrics, hooks and log lines are left
-- out.
pub mod Server
pub mod Answers
pub mod Sound
pub mod Locks
pub mod Taken
mod Tests
use zone_mta.Prelude.{
  ℕ, String, Bool, true, false, Option, none, some, List, [], ◌∷◌, ◌++◌, if◌then◌else◌,
}
use Prim.Native.String.{◌++◌ as cat}
use zone_mta.Prelude.Maps
use zone_mta.Prelude.Maps.{Map}
use zone_mta.Delivery.{Delivery, Reply, failed, ok, Store}
use zone_mta.QueueLocker.{release}
use zone_mta.TtlCache
use zone_mta.MailQueue.{Queue, Cached, shared, get_meta, set_meta, remove_message, is_entry, same}
use zone_mta.MailQueue.Push.{Envelope, Pushed, RoutedRecipient, push}
use zone_mta.Routing.{Routes}
use zone_mta.DomainConfig
use zone_mta.DomainConfig.{Setting}
use zone_mta.SendingZone.{Zone, Site, Response, get_next_delivery, release_delivery, defer_delivery}

-- `client.zone` and `client.id`, `none` while they are false.
pub record Client : Type 0 where
  pub ident : Option String
  pub zone : Option Zone

-- `data.cmd` with what it reads of `data`. A missing `id`, `key` or `_lock` is `none`.
pub data Command : Type 0 where
  get : Command
  release_entry : String → String → Option String → Command
  defer_entry : String → String → Option String → ℕ → Response → Command
  bounce : Command
  remove : String → Command
  index : Command
  sets_meta : String → Map String → Command
  pushes : String → Envelope → Command
  set_cache : String → Option String → Option ℕ → Command
  get_cache : String → Command
  clear_cache : String → Command
  count_metrics : Command
  unknown : Command

-- A request that waits for the database: a search has the zone and the id that its client had.
pub data Job : Type 0 where
  search : Zone → String → Job
  other : Command → Job

-- `response`: false, true, `id.seq`, a delivery with the settings `disabledAddresses`, `dnsOptions`
-- and `logger` of its domain, a new id, or a value of the cache.
pub data Value : Type 0 where
  nothing done : Value
  entry : String → Value
  next : Delivery → Option Setting → Option Setting → Option Setting → Value
  fresh : String → Value
  cached : Option Cached → Value

-- What the server is set up with: what a zone name is reduced to, `seqIndex.get()`, and what `push`
-- needs. `fuel` is for the search of a delivery.
pub record Setup : Type 0 where
  pub fuel : ℕ
  pub normal : String → String
  pub new_id : ℕ → String
  pub blacklist_ttl : ℕ
  pub zones : Map Zone
  pub routes : Routes
  pub default_zone : String
  pub route_hook : Envelope → RoutedRecipient → Reply RoutedRecipient

-- Each key of the metadata but `sendingZone` is set in the delivery.
unfoldable pub merged : Map String → Map String → Map String
merged [] fields = fields
merged ((key, value) ∷ meta) fields =
    merged meta (if same key "sendingZone" then fields else Maps.set key value fields)

abbrev pub with_locks : {S : Type 0} → Site S → Option String → Site S
with_locks s key = record s { queue = record s.queue { locks = (release s.queue.locks key).0 } }

abbrev pub with_fields : Delivery → Map String → Delivery
with_fields d meta = record d { fields = merged meta d.fields }

abbrev pub named : String → String → String
named id seq = cat id (cat "." seq)

module _ {S : Type 0} (db : Store S) where
  -- `findNext` once `getNextDelivery` has answered.
  unfoldable pub add_meta : Site S → Reply (Option Delivery) → Site S × Reply (Option Delivery)
  unfolding merged
  add_meta s (failed e) = (s, failed e)
  add_meta s (ok none) = (s, ok none)
  add_meta s (ok (some d)) = elim (get_meta db d.id s.queue.store) [
    | failed e ↦ (with_locks s d.lock, failed e)
    | ok none ↦ (s, ok (some d))
    | ok (some meta) ↦ (s, ok (some (with_fields d meta)))
  ]

  -- `none` where the search runs out of fuel.
  unfoldable pub find_next :
      Setup → Zone → String → Site S → ℕ → Option (Site S × Reply (Option Delivery))
  unfolding add_meta
  find_next c z lock_owner s now = elim (get_next_delivery db c.fuel z lock_owner c.normal s now) [
    | none ↦ none
    | some (s', reply) ↦ some (add_meta s' reply)
  ]

  -- `getDelivery`
  unfoldable pub get_delivery : Site S → String → String → Reply (Option Delivery)
  get_delivery s id seq = db.find_one (is_entry id seq) s.queue.store

  abbrev pub answer_entry : Delivery → Site S × Reply Bool → Site S × Reply Value
  answer_entry d (s, failed e) = (s, failed e)
  answer_entry d (s, ok b) = (s, ok (entry (named d.id d.seq)))

  unfoldable pub release_request : Site S → String → String → Option String → Site S × Reply Value
  unfolding get_delivery
  release_request s id seq lock = elim (get_delivery s id seq) [
    | failed e ↦ (s, failed e)
    | ok none ↦ (s, ok nothing)
    | ok (some d) ↦ answer_entry d (release_delivery db s (record d { lock = lock }))
  ]

  unfoldable pub defer_request :
      Setup → Site S → String → String → Option String → ℕ → Response → ℕ → Site S × Reply Value
  unfolding get_delivery
  defer_request c s id seq lock ttl r now = elim (get_delivery s id seq) [
    | failed e ↦ (s, failed e)
    | ok none ↦ (s, ok nothing)
    | ok (some d) ↦
        answer_entry d (defer_delivery db s (record d { lock = lock }) ttl r c.blacklist_ttl now)
  ]

  -- The settings of the domain go with the delivery.
  abbrev pub answer_next : Site S × Reply (Option Delivery) → Site S × Reply Value
  answer_next (s, failed e) = (s, failed e)
  answer_next (s, ok none) = (s, ok nothing)
  answer_next (s, ok (some d)) =
      let setting = DomainConfig.get s.domains d.domain in
      (s, ok (next d (setting "disabledAddresses") (setting "dnsOptions") (setting "logger")))

  abbrev pub answer_done : {A : Type 0} → Queue S × Reply A → Site S → Site S × Reply Value
  answer_done (q, failed e) s = (record s { queue = q }, failed e)
  answer_done (q, ok _) s = (record s { queue = q }, ok done)

  abbrev pub remove_data : Queue S → String → Queue S × Reply Bool
  remove_data q id =
      let (store, reply) = remove_message db q.store id in (record q { store = store }, reply)

  abbrev pub pushed : Setup → String → Envelope → ℕ → Pushed
  pushed c id envelope now = record {
    id = id;
    envelope = envelope;
    routes = c.routes;
    default_zone = c.default_zone;
    zone = none;
    route_hook = c.route_hook;
    now = now;
  }

  -- What the callbacks of a request do, and what they answer; `none` while the search goes on.
  unfoldable pub run_job : Setup → Job → Site S → ℕ → Option (Site S × Reply Value)
  unfolding find_next release_request defer_request
  run_job c (search z owner) s now = elim (find_next c z owner s now) [
    | none ↦ none
    | some found ↦ some (answer_next found)
  ]
  run_job c (other (release_entry id seq lock)) s now = some (release_request s id seq lock)
  run_job c (other (defer_entry id seq lock ttl r)) s now =
      some (defer_request c s id seq lock ttl r now)
  run_job c (other (remove id)) s now = some (answer_done (remove_data s.queue id) s)
  run_job c (other index) s now = some (s, ok (fresh (c.new_id now)))
  run_job c (other (sets_meta id meta)) s now = some (answer_done (set_meta db s.queue id meta) s)
  run_job c (other (pushes id envelope)) s now =
      some (answer_done (push db s.queue c.normal (pushed c id envelope now)) s)
  run_job c (other _) s now = some (s, ok done)
