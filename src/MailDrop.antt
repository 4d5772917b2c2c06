-- ===== src/MailDrop.antt =====
-- lib/mail-drop.js: how a message comes into the queue.
--
-- The streams that read, rewrite and hash the message are not part of it: `store` is `queue.store`
-- of what they make, with the end that it comes to. A hook is what its callback gets.
pub mod Added
mod Tests
use zone_mta.Prelude.{String, Bool, true, false, not, Option, none, some, if◌then◌else◌}
use zone_mta.Prelude.Maps.{Map}
use zone_mta.Delivery.{Reply, failed, ok, Store}
use zone_mta.MailQueue.{Queue, set_meta, remove_message}
use zone_mta.MailQueue.Push.{Envelope, Pushed, push}

-- How `queue.store` ends: the body is stored, or it answers an error, which may have a name that
-- ends in `Error`.
pub data Ending : Type 0 where
  stored : Ending
  interrupted : Bool → String → Ending

-- What `add` meets: whether there is a queue, the hooks `message:store` and `message:queue`,
-- `setMeta` of the envelope, and what `push` needs besides it.
pub record Drop {ℓ} (S : Type ℓ) : Type ℓ where
  pub ready : Bool
  pub store_hook : Option String
  pub store : Queue S → Queue S × Ending
  pub queue_hook : Envelope → Reply Envelope
  pub meta_of : Envelope → Map String
  pub pushed : Envelope → Pushed
  pub normal : String → String

module _ {ℓ} {S : Type ℓ} (db : Store S) where
  -- `removeMessage` before the callback gets an error.
  abbrev pub discard : Queue S → String → Queue S
  discard q id = record q { store = (remove_message db q.store id).0 }

  -- `push` and what follows
  unfoldable pub push_message : Drop S → Queue S → String → Envelope → Queue S × Reply Unit
  unfolding push remove_message
  push_message o q id envelope = elim (push db q o.normal (o.pushed envelope)).1 [
    | failed e ↦ (discard (push db q o.normal (o.pushed envelope)).0 id, failed e)
    | ok _ ↦ ((push db q o.normal (o.pushed envelope)).0, ok tt)
  ]

  unfoldable pub queue_message : Drop S → Queue S → String → Envelope → Queue S × Reply Unit
  unfolding push_message set_meta remove_message
  queue_message o q id envelope = elim (set_meta db q id (o.meta_of envelope)).1 [
    | failed e ↦ (discard (set_meta db q id (o.meta_of envelope)).0 id, failed e)
    | ok _ ↦ push_message o (set_meta db q id (o.meta_of envelope)).0 id envelope
  ]

  -- What follows the end of `queue.store`.
  unfoldable pub on_stored : Drop S → Queue S → Ending → String → Envelope → Queue S × Reply Unit
  unfolding queue_message remove_message
  on_stored o q (interrupted is_error e) id envelope =
      (if is_error then discard q id else q, failed e)
  on_stored o q stored id envelope = elim (o.queue_hook envelope) [
    | failed e ↦ (discard q id, failed e)
    | ok envelope' ↦ queue_message o q id envelope'
  ]

  unfoldable pub add : Drop S → Queue S → String → Envelope → Queue S × Reply Unit
  unfolding on_stored
  add o q id envelope =
      if not o.ready then (q, failed "Queue not yet initialized") else elim o.store_hook [
        | some e ↦ (q, failed e)
        | none ↦ on_stored o (o.store q).0 (o.store q).1 id envelope
      ]
