-- ===== src/MailQueue.antt =====
-- lib/mail-queue.js: how deliveries leave the queue. `shift` takes the next delivery of a zone,
-- `releaseDelivery` removes one that is done and `deferDelivery` puts one back for later.
--
-- `Queue` is the object of class MailQueue with the state of the database; `Date.now()` is `now`, which
-- stays the same during a call. Log lines, counters and plugin hooks are left out: no result
-- depends on them. An answer is what the callback gets.
pub mod Release
pub mod Defer
pub mod Shift
pub mod Answers
pub mod Push
pub mod Remove
pub mod Garbage
pub mod Counts
pub mod Texts
mod Tests
pub mod Memory
pub mod Samples
pub mod Sound
pub mod Meta
pub mod Upload
pub mod Info
use zone_mta.Prelude.{
  ℕ, zero, suc, ◌+◌, ◌*◌, String, Bool, true, false, not, ◌&&◌, ◌||◌, Option, none, some, List, [],
  ◌∷◌, if◌then◌else◌, leb, ◌==◌, ite, text_discrete, is_some,
}
use zone_mta.Prelude.Maps
use zone_mta.Prelude.Maps.{Map}
use zone_mta.Prelude.Sets.{has_text}
use zone_mta.Delivery.{Delivery, Deferred, Reply, failed, ok, File, Store, lock_key, empty_key}
use zone_mta.TtlCache.{Cache}
use zone_mta.TtlCache
use zone_mta.QueueLocker.{Locker, lock, release, list_skip_domains}

abbrev pub same : String → String → Bool
same a b = ite (text_discrete a b) true false

-- What the cache keeps: that a zone is empty, an address that a domain has blocked, or a text that
-- the senders share.
pub data Cached : Type 0 where
  empty_mark : Cached
  blocked : String → String → Cached
  shared : String → Cached

-- An empty text is falsy.
abbrev pub is_set : Option Cached → Bool
is_set none = false
is_set (some empty_mark) = true
is_set (some (blocked domain address)) = true
is_set (some (shared text)) = not (same text "")

pub record Queue {ℓ} (S : Type ℓ) : Type ℓ where
  pub store : S
  pub locks : Locker
  pub cache : Cache Cached
  pub closing : Bool
  pub instance_id : String

abbrev pub of_id : String → Delivery → Bool
of_id id d = same d.id id

abbrev pub is_entry : String → String → Delivery → Bool
is_entry id seq d = same d.id id && same d.seq seq

-- What `deferDelivery` writes into `_deferred`: `marked` tells whether the delivery that it is
-- given has one.
abbrev pub deferred_again :
    Bool → ℕ → ℕ → Option String → Option String → Option Deferred → Deferred
deferred_again marked now ttl response log none = record {
  first = if marked then none else some now;
  count = 1;
  last = now;
  next = now + ttl;
  response = response;
  log = log;
}
deferred_again marked now ttl response log (some old) = record {
  first = if marked then old.first else some now;
  count = old.count + 1;
  last = now;
  next = now + ttl;
  response = elim response [ none ↦ old.response | some r ↦ some r ];
  log = elim log [ none ↦ old.log | some r ↦ some r ];
}

unfoldable pub defer_row : Bool → ℕ → ℕ → Option String → Option String → Delivery → Delivery
defer_row marked now ttl response log d = record d {
  deferred = some (deferred_again marked now ttl response log d.deferred);
  queued = now + ttl;
  locked = false;
}

-- The query of `shift`.
abbrev pub is_next : String → ℕ → String → List String → Delivery → Bool
is_next zone now instance_id skips d =
    same d.sending_zone zone
    && leb d.queued now
    && not d.locked
    && (same d.assigned "no" || same d.assigned instance_id)
    && not (has_text d.domain skips)

abbrev pub mark_locked : ℕ → String → Delivery → Delivery
mark_locked now instance_id d = record d { locked = true; lock_time = now; assigned = instance_id }

abbrev pub succeeded : {A : Type 0} → Reply A → Bool
succeeded (failed e) = false
succeeded (ok a) = true

-- What `shift` is called with, and what it reads before its first query. `max_connections` is
-- `Number(getDomainConfig(domain, 'maxConnections'))`, 0 where that is not a number, and `normal` is
-- `toLowerCase().trim()`.
pub record Search : Type 0 where
  pub zone : String
  pub lock_owner : String
  pub max_connections : String → ℕ
  pub normal : String → String
  pub skips : List String
  pub now : ℕ

-- How a run of `tryNext` ends: with another one, or with an answer.
pub data Attempt {ℓ} (S : Type ℓ) : Type ℓ where
  again : Queue S → Attempt S
  answered : Queue S → Reply (Option Delivery) → Attempt S

-- `Number(...) || 5`
abbrev pub limit_of : Search → Delivery → ℕ
limit_of o d = if o.max_connections d.domain == 0 then 5 else o.max_connections d.domain

-- The row with its lock and the keys of the metadata, except `sendingZone`.
abbrev pub with_meta : Delivery → Map String → Delivery
with_meta d meta = record d {
  lock = some (lock_key d.id d.seq);
  fields = Maps.delete "sendingZone" meta;
}

module _ {ℓ} {S : Type ℓ} (db : Store S) where
  -- `getMeta`
  unfoldable pub get_meta : String → S → Reply (Option (Map String))
  get_meta id s = elim (db.find_file id s) [
    | failed e ↦ failed e
    | ok none ↦ ok none
    | ok (some file) ↦ ok (some (elim file.meta [ none ↦ [] | some m ↦ m ]))
  ]

  -- `setMeta`
  unfoldable pub set_meta : Queue S → String → Map String → Queue S × Reply Unit
  set_meta q id content =
      let (s, reply) = db.set_file_data id content q.store in (record q { store = s }, reply)

  unfoldable pub remove_message : S → String → S × Reply Bool
  remove_message s id = elim (db.find_file id s) [
    | failed e ↦ (s, failed e)
    | ok none ↦ (s, ok false)
    | ok (some file) ↦ elim (db.delete_file file.ident s).1 [
      | failed e ↦ ((db.delete_file file.ident s).0, failed e)
      | ok _ ↦ ((db.delete_file file.ident s).0, ok true)
    ]
  ]

  -- `releaseDelivery` once the row is deleted.
  unfoldable pub drop_message : S → String → S × Reply Bool
  unfolding remove_message
  drop_message s id = elim (db.find_one (of_id id) s) [
    | failed e ↦ (s, failed e)
    | ok none ↦ ((remove_message s id).0, ok (succeeded (remove_message s id).1))
    | ok (some entry) ↦ (s, ok false)
  ]

  unfoldable pub release_delivery : Queue S → Delivery → Queue S × Reply Bool
  unfolding drop_message
  release_delivery q d =
      let (s, deleted) = db.delete_one (is_entry d.id d.seq) q.store in
      let locks = (release q.locks d.lock).0 in
      elim deleted [
        | failed e ↦ (record q { store = s; locks = locks }, failed e)
        | ok _ ↦
            let (s', answer) = drop_message s d.id in
            (record q { store = s'; locks = locks }, answer)
      ]

  -- `deferDelivery`; what its hook `queue:delayed` does is not part of it.
  unfoldable pub defer_delivery :
      Queue S → Delivery → ℕ → Option String → Option String → ℕ → Queue S × Reply Bool
  unfolding defer_row
  defer_delivery q d ttl response log now =
      let (s, reply) =
        db.find_one_and_update (is_entry d.id d.seq)
          (defer_row (is_some d.deferred) now ttl response log) q.store in
      elim reply [
        | failed e ↦ (record q { store = s }, failed e)
        | ok _ ↦ (record q { store = s; locks = (release q.locks d.lock).0 }, ok true)
      ]

  abbrev pub unlocked : Queue S → Option String → Queue S
  unlocked q key = record q { locks = (release q.locks key).0 }

  -- A delivery to a suppressed recipient is released in place of being answered. An error of the look-up
  -- is ignored.
  unfoldable pub answer_unless_suppressed : Search → Queue S → Delivery → Attempt S
  unfolding release_delivery
  answer_unless_suppressed o q d =
      elim (db.find_suppressed (o.normal d.recipient) (o.normal d.domain) q.store) [
        | failed e ↦ answered q (ok (some d))
        | ok false ↦ answered q (ok (some d))
        | ok true ↦ elim (release_delivery q d).1 [
          | failed e ↦ answered (unlocked (release_delivery q d).0 d.lock) (failed e)
          | ok _ ↦ again (release_delivery q d).0
        ]
      ]

  -- The row `d` is locked in memory under its key: its metadata is read.
  unfoldable pub load_meta : Search → Queue S → Delivery → Attempt S
  unfolding answer_unless_suppressed get_meta
  load_meta o q d =
      let key = some (lock_key d.id d.seq) in
      elim (get_meta d.id q.store) [
        | failed e ↦ answered (unlocked q key) (failed e)
        | ok none ↦
            again (unlocked (record q { store = (db.delete_many (of_id d.id) q.store).0 }) key)
        | ok (some meta) ↦ answer_unless_suppressed o q (with_meta d meta)
      ]

  abbrev pub claim : Search → Queue S → Delivery → Locker × Bool
  claim o q d =
      lock q.locks (lock_key d.id d.seq) o.zone (some d.domain) o.lock_owner (limit_of o d)
        (60 * 60 * 1000) o.now

  unfoldable pub attempt : Search → Queue S → Attempt S
  unfolding load_meta
  attempt o q =
      let (s, reply) =
        db.find_one_and_update (is_next o.zone o.now q.instance_id o.skips)
          (mark_locked o.now q.instance_id) q.store in
      let q' = record q { store = s } in
      elim reply [
        | failed e ↦ answered q' (failed e)
        | ok none ↦
            answered
              (record q' {
                cache =
                    (TtlCache.set q'.cache (empty_key o.zone) (some empty_mark) (some (5 * 1000))
                      none o.now).0;
              })
              (ok none)
        | ok (some (before, d)) ↦
            let (locks, locked) = claim o q' d in
            if locked
            then load_meta o (record q' { locks = locks }) d
            else again (record q' { locks = locks })
      ]

  -- `none` where the fuel runs out.
  unfoldable pub try_next : ℕ → Search → Queue S → Option (Queue S × Reply (Option Delivery))
  unfolding attempt
  try_next zero o q = none
  try_next (suc fuel) o q = elim (attempt o q) [
    | again q' ↦ try_next fuel o q'
    | answered q' answer ↦ some (q', answer)
  ]

  -- What `shift` has when it starts to search.
  abbrev pub search_of : String → String → (String → ℕ) → (String → String) → Queue S → ℕ → Search
  search_of zone lock_owner max_connections normal q now = record {
    zone = zone;
    lock_owner = lock_owner;
    max_connections = max_connections;
    normal = normal;
    skips = elim (list_skip_domains q.locks zone).1 [ none ↦ [] | some ds ↦ ds ];
    now = now;
  }

  unfoldable pub shift :
      ℕ
      → String
      → String
      → (String → ℕ)
      → (String → String)
      → Queue S
      → ℕ
      → Option (Queue S × Reply (Option Delivery))
  unfolding try_next
  shift fuel zone lock_owner max_connections normal q now =
      if q.closing
      then some (q, ok none)
      else let (cache, empty) = TtlCache.get q.cache (empty_key zone) now in
        let q' = record q { cache = cache } in
        let found =
          try_next fuel (search_of zone lock_owner max_connections normal q now)
            (record q' { locks = (list_skip_domains q.locks zone).0 }) in
        if is_set empty then some (q', ok none) else found
