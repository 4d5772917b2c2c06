-- ===== src/MailQueue/Remove.antt =====
-- lib/mail-queue.js: `remove` deletes the deliveries of a message for the API, except those that are being
-- delivered.
--
-- The rows that the cursor gives have no `zoneName`, so the lock stands in the zone that `undefined` names.
-- The random id of the call is the argument `delete_id`.
pub mod Locks
use zone_mta.Prelude.{
  ℕ, ◌*◌, String, Bool, true, false, ◌&&◌, Option, none, some, List, [], ◌∷◌, if◌then◌else◌,
}
use zone_mta.Delivery.{Delivery, Reply, failed, ok, Store, lock_key}
use zone_mta.QueueLocker.{Locker, lock, release_lock_owner}
use zone_mta.MailQueue.{Queue, same, release_delivery}

-- `query.seq` is set where a sequence number is given.
abbrev pub is_asked : String → Option String → Delivery → Bool
is_asked id seq d = same d.id id && elim seq [ none ↦ true | some s ↦ same d.seq s ]

abbrev pub delete_lock : Locker → String → Delivery → ℕ → Locker × Bool
delete_lock l delete_id d now =
    lock l (lock_key d.id d.seq) "undefined" none delete_id 0 (1 * 60 * 1000) now

module _ {ℓ} {S : Type ℓ} (db : Store S) where
  -- A row that the cursor gives: an error of its deletion is logged and nothing else.
  unfoldable pub remove_row : String → ℕ → Queue S → Delivery → Queue S
  unfolding release_delivery
  remove_row delete_id now q d =
      let (locks, locked) = delete_lock q.locks delete_id d now in
      if locked
      then (release_delivery db (record q { locks = locks })
          (record d { lock = some (lock_key d.id d.seq) })).0
      else record q { locks = locks }

  -- `releaseNext` for what the cursor still gives.
  unfoldable pub release_next : String → ℕ → Queue S → List (Reply Delivery) → Queue S × Reply Unit
  unfolding remove_row
  release_next delete_id now q [] = (q, ok tt)
  release_next delete_id now q (failed e ∷ rest) =
      (record q { locks = release_lock_owner q.locks delete_id }, failed e)
  release_next delete_id now q (ok d ∷ rest) =
      release_next delete_id now (remove_row delete_id now q d) rest

  unfoldable pub remove : Queue S → String → Option String → String → ℕ → Queue S × Reply Unit
  unfolding release_next
  remove q id seq delete_id now = release_next delete_id now q (db.find (is_asked id seq) q.store)
