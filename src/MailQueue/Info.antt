-- ===== src/MailQueue/Info.antt =====
-- lib/mail-queue.js: `getInfo` lists what is queued of a message, and `update` changes its rows.
pub mod Messages
use zone_mta.Prelude.{
  ℕ, String, Bool, true, false, Option, none, some, List, [], ◌∷◌, map, ltb, if◌then◌else◌,
}
use zone_mta.Prelude.Maps
use zone_mta.Prelude.Maps.{Map}
use zone_mta.Delivery.{Delivery, Deferred, Reply, failed, ok, Store, lock_key}
use zone_mta.QueueLocker.{Lock, Locker}
use zone_mta.MailQueue.{Queue, get_meta, of_id, is_entry}

-- An entry of `messages`; `is_deferred` is its `status`.
pub record Message : Type 0 where
  pub seq : String
  pub zone : String
  pub recipient : String
  pub is_deferred : Bool
  pub lock : Option Lock
  pub deferred : Option Deferred

unfoldable pub message_of : Locker → ℕ → Delivery → Message
message_of l now d = record {
  seq = d.seq;
  zone = d.sending_zone;
  recipient = d.recipient;
  is_deferred = ltb now d.queued;
  lock = Maps.get (lock_key d.id d.seq) l.locks;
  deferred = if ltb now d.queued then d.deferred else none;
}

pub record Info : Type 0 where
  pub meta : Option (Map String)
  pub messages : List Message

module _ {ℓ} {S : Type ℓ} (db : Store S) where
  unfoldable pub get_info : Queue S → String → ℕ → Reply (Option Info)
  unfolding message_of
  get_info q id now = elim (db.find_sorted (of_id id) q.store) [
    | failed e ↦ failed e
    | ok [] ↦ ok none
    | ok (d ∷ ds) ↦ elim (get_meta db id q.store) [
      | failed e ↦ failed e
      | ok meta ↦
          ok (some (record { meta = meta; messages = map (message_of q.locks now) (d ∷ ds) }))
    ]
  ]

  -- `update`; `change` is the update of a row, and the answer the number of rows that the database changed.
  unfoldable pub update :
      Queue S → String → Option String → (Delivery → Delivery) → Queue S × Reply ℕ
  update q id seq change =
      let query : Delivery → Bool = elim seq [ none ↦ of_id id | some n ↦ is_entry id n ] in
      let (s, reply) = db.update_many query change q.store in (record q { store = s }, reply)
