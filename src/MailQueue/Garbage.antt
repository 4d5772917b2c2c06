-- ===== src/MailQueue/Garbage.antt =====
-- lib/mail-queue.js: `clearGarbage`, and the release of old locks by `init`.
--
-- `_id` of a row or a file is told by its time in seconds, and an ObjectId made of a time stands below all
-- others of that second. A time in milliseconds is rounded to seconds as by `Math.round`.
pub mod Unlocked
pub mod Files
pub mod Locks
mod Tests
use zone_mta.Prelude.{
  ℕ, zero, suc, ◌+◌, ◌-◌, ◌*◌, ◌/◌, String, Bool, true, false, not, ◌&&◌, Option, none, some, List,
  [], ◌∷◌, if◌then◌else◌, leb, ltb, ◌==◌,
}
use zone_mta.Delivery.{Delivery, Reply, failed, ok, Store}
use zone_mta.MailQueue.{Queue, same, release_delivery}

abbrev pub to_seconds : ℕ → ℕ
to_seconds ms = (ms + 500) / 1000

-- The rows that `init` unlocks, and those that `clearGarbage` does.
abbrev pub is_own : String → Delivery → Bool
is_own instance_id d = d.locked && same d.assigned instance_id

abbrev pub is_stale : String → ℕ → Delivery → Bool
is_stale instance_id now d = is_own instance_id d && leb d.lock_time (now - 61 * 60 * 1000)

-- The rows that are queued for too long and are not being processed.
abbrev pub is_expired : ℕ → Delivery → Bool
is_expired limit d = ltb d.made limit && not d.locked

abbrev pub unlock_row : Delivery → Delivery
unlock_row d = record d { locked = false; lock_time = 0 }

-- The options `disableGC` and `maxQueueTime`, 0 where the latter is not set.
pub record GarbageOptions : Type 0 where
  pub disable_gc : Bool
  pub max_queue_time : ℕ

-- A step of the async function is made where the one before it did not throw.
abbrev pub then_step {ℓ} :
    {S : Type ℓ} → Queue S × Reply Unit → (Queue S → Queue S × Reply Unit) → Queue S × Reply Unit
then_step (q, failed e) next = (q, failed e)
then_step (q, ok u) next = next q

module _ {ℓ} {S : Type ℓ} (db : Store S) where
  unfoldable pub unlock_rows : (Delivery → Bool) → Queue S → Queue S × Reply Unit
  unlock_rows p q =
      let (s, reply) = db.update_many p unlock_row q.store in
      elim reply [
        | failed e ↦ (record q { store = s }, failed e)
        | ok n ↦ (record q { store = s }, ok tt)
      ]

  -- The end of `init`.
  unfoldable pub release_old_locks : Queue S → Queue S × Reply Unit
  unfolding unlock_rows
  release_old_locks q = unlock_rows (is_own q.instance_id) q

  unfoldable pub clear_locks : Queue S → ℕ → Queue S × Reply Unit
  unfolding unlock_rows
  clear_locks q now = unlock_rows (is_stale q.instance_id now) q

  -- The loop over the rows that are queued for too long, which have no `_lock`: an error of a release is
  -- logged, one of the cursor is thrown.
  unfoldable pub release_expired : Queue S → List (Reply Delivery) → Queue S × Reply Unit
  unfolding release_delivery
  release_expired q [] = (q, ok tt)
  release_expired q (failed e ∷ rest) = (q, failed e)
  release_expired q (ok d ∷ rest) =
      release_expired (release_delivery db q (record d { lock = none })).0 rest

  unfoldable pub clear_before : Queue S → ℕ → Queue S × Reply Unit
  clear_before q limit =
      let (s, files) = db.delete_old_files limit q.store in
      elim files [
        | failed e ↦ (record q { store = s }, failed e)
        | ok n ↦
            let (s', chunks) = db.delete_old_chunks limit s in
            elim chunks [
              | failed e ↦ (record q { store = s' }, failed e)
              | ok m ↦ (record q { store = s' }, ok tt)
            ]
      ]

  -- The stored files that are ten minutes older than the oldest row.
  unfoldable pub clear_files : Queue S → ℕ → Queue S × Reply Unit
  unfolding clear_before
  clear_files q now = elim (db.oldest q.store) [
    | failed e ↦ (q, failed e)
    | ok first ↦
        clear_before q (to_seconds (elim first [ none ↦ now | some t ↦ t * 1000 ] - 10 * 60 * 1000))
  ]

  unfoldable pub clear_expired : GarbageOptions → Queue S → ℕ → Queue S × Reply Unit
  unfolding release_expired
  clear_expired options q now =
      if options.max_queue_time == 0
      then (q, ok tt)
      else release_expired q
          (db.find (is_expired (to_seconds (now - options.max_queue_time))) q.store)

  unfoldable pub clear_garbage : GarbageOptions → Queue S → ℕ → Queue S × Reply Unit
  unfolding clear_locks clear_expired clear_files
  clear_garbage options q now = then_step (clear_locks q now) (λ q'.
      if options.disable_gc
      then (q', ok tt)
      else then_step (clear_expired options q' now) (λ q''. clear_files q'' now))
