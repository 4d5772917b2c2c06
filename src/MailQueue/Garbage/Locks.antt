-- ===== src/MailQueue/Garbage/Locks.antt =====
-- lib/mail-queue.js: `clearGarbage` and the locks in memory.
use zone_mta.Prelude.{either, ℕ, ◌==◌, ◌-◌, ◌≡◌, refl, ◌∙◌, inl, inr, Bool, none, List, [], ◌∷◌}
use zone_mta.Delivery.{Delivery, Reply, failed, ok, Reply-cases, Store}
use zone_mta.QueueLocker.{Locker, release}
use zone_mta.MailQueue.{Queue}
use zone_mta.MailQueue.Release.{release_delivery-locks}
use zone_mta.MailQueue.Garbage.{
  GarbageOptions, unlock_rows, unlock_row, clear_locks, release_expired, clear_before, clear_files,
  clear_expired, clear_garbage, then_step, is_stale, is_expired, to_seconds,
}

-- Two steps that leave the locks.
then_step-locks {ℓ} :
    {S : Type ℓ} (x : Queue S × Reply Unit) (next : Queue S → Queue S × Reply Unit) {l : Locker}
    → x.0.locks ≡ l
    → ((q : Queue S) → q.locks ≡ l → (next q).0.locks ≡ l)
    → (then_step x next).0.locks ≡ l
then_step-locks (q, failed e) next h k = h
then_step-locks (q, ok u) next h k = k q h

module _ {ℓ} {S : Type ℓ} (db : Store S) where
  unlock_rows-locks : (p : Delivery → Bool) (q : Queue S) → (unlock_rows db p q).0.locks ≡ q.locks
  unfolding unlock_rows
  unlock_rows-locks p q = elim (Reply-cases (db.update_many p unlock_row q.store).1) [
    | inl (m, e) ↦ rw (unlock_rows, e) refl
    | inr (n, e) ↦ rw (unlock_rows, e) refl
  ]

  release_expired-locks :
      (rest : List (Reply Delivery)) (q : Queue S) → (release_expired db q rest).0.locks ≡ q.locks
  unfolding release_expired release
  release_expired-locks [] q = refl
  release_expired-locks (failed e ∷ rest) q = refl
  release_expired-locks (ok d ∷ rest) q =
      release_expired-locks rest _ ∙ release_delivery-locks db q (record d { lock = none })

  clear_before-locks : (q : Queue S) (limit : ℕ) → (clear_before db q limit).0.locks ≡ q.locks
  unfolding clear_before
  clear_before-locks q limit = elim (Reply-cases (db.delete_old_files limit q.store).1) [
    | inl (m, e) ↦ rw (clear_before, e) refl
    | inr (n, e) ↦
        elim (Reply-cases (db.delete_old_chunks limit (db.delete_old_files limit q.store).0).1) [
          | inl (m, f) ↦ rw (clear_before, e, f) refl
          | inr (m, f) ↦ rw (clear_before, e, f) refl
        ]
  ]

  clear_files-locks : (q : Queue S) (now : ℕ) → (clear_files db q now).0.locks ≡ q.locks
  unfolding clear_files
  clear_files-locks q now = elim (Reply-cases (db.oldest q.store)) [
    | inl (m, e) ↦ rw (clear_files, e) refl
    | inr (n, e) ↦ rw (clear_files, e) (clear_before-locks q _)
  ]

  clear_expired-locks :
      (options : GarbageOptions) (q : Queue S) (now : ℕ)
      → (clear_expired db options q now).0.locks ≡ q.locks
  unfolding clear_expired
  clear_expired-locks options q now =
      let listed = db.find (is_expired (to_seconds (now - options.max_queue_time))) q.store in
      either (λ (x : Queue S × Reply Unit). x.0.locks ≡ q.locks) (options.max_queue_time == 0)
        (q, ok tt) (release_expired db q listed) refl (release_expired-locks listed q)

  -- `clearGarbage` touches no lock in memory, whatever the database answers and wherever it ends.
  clear_garbage-locks :
      (options : GarbageOptions) (q : Queue S) (now : ℕ)
      → (clear_garbage db options q now).0.locks ≡ q.locks
  unfolding clear_garbage clear_locks
  clear_garbage-locks options q now =
      then_step-locks (clear_locks db q now) _ (unlock_rows-locks (is_stale q.instance_id now) q)
        (λ q' h.
          either (λ (x : Queue S × Reply Unit). x.0.locks ≡ q.locks) options.disable_gc _ _ h
            (then_step-locks (clear_expired db options q' now) _
              (clear_expired-locks options q' now ∙ h) (λ q'' k. clear_files-locks q'' now ∙ k)))
