-- ===== src/MailQueue/Remove/Locks.antt =====
-- lib/mail-queue.js: `remove` leaves the locks as they were, and the rows of locked deliveries.
use zone_mta.Prelude.{
  ℕ, ◌*◌, String, ◌≡◌, refl, sym, ap, subst, ◌∙◌, inl, inr, true, false, Option, none, some, List,
  [], ◌∷◌, arith, Bool-cases, ◌≢◌,
}
use zone_mta.Delivery.{Delivery, Reply, failed, ok, Store, IsDocumented, count, lock_key}
use zone_mta.QueueLocker.{Locker}
use zone_mta.QueueLocker.Held.{holder, holder-lock}
use zone_mta.QueueLocker.Owners.{IsConsistent}
use zone_mta.QueueLocker.Owners.Keeps.{
  unless_owner, holder-release_lock_owner, lock-IsConsistent, release-IsConsistent,
}
use zone_mta.MailQueue.{Queue, is_entry, release_delivery}
use zone_mta.MailQueue.Release.{
  release_delivery-locks, release_delivery-others, holder-release_delivery,
}
use zone_mta.MailQueue.Shift.{SameHolders, released_same, key_of}
use zone_mta.MailQueue.Remove.{is_asked, delete_lock, remove_row, release_next, remove}

same_entry :
    (id seq id' seq' : String) (x : Delivery)
    → is_entry id seq x ≡ true
    → is_entry id' seq' x ≡ true
    → lock_key id seq ≡ lock_key id' seq'
same_entry id seq id' seq' x h h' =
    let ids : id ≡ id' = ground arith in
    let seqs : seq ≡ seq' = ground arith in ap (λ i. lock_key i seq) ids ∙ ap (lock_key id') seqs

other_entry :
    (l : Locker) (d : Delivery) (id seq : String)
    → holder (key_of d) l ≡ none
    → holder (lock_key id seq) l ≢ none
    → (x : Delivery) → is_entry d.id d.seq x ≡ true
    → is_entry id seq x ≡ false
other_entry l d id seq free busy x e = elim (Bool-cases (is_entry id seq x)) [
  | inl e' ↦ absurd (busy (ap (λ j. holder j l) (sym (same_entry d.id d.seq id seq x e e')) ∙ free))
  | inr e' ↦ e'
]

module _ {ℓ} {S : Type ℓ} (db : Store S) where
  -- A row is left alone, or is deleted by `delete_one` while its key is free.
  remove_row_lem :
      IsDocumented db
      → (delete_id : String) (now : ℕ) (q : Queue S) (d : Delivery) → IsConsistent q.locks
      → SameHolders q.locks (remove_row db delete_id now q d).locks
        × IsConsistent (remove_row db delete_id now q d).locks
        × ((id seq : String)
            → holder (lock_key id seq) q.locks ≢ none
            → count (is_entry id seq) (db.rows (remove_row db delete_id now q d).store)
              ≡ count (is_entry id seq) (db.rows q.store))
  unfolding remove_row
  remove_row_lem documented delete_id now q d c =
      let kept =
        lock-IsConsistent q.locks (key_of d) "undefined" none delete_id 0 (1 * 60 * 1000) now c in
      elim (holder-lock q.locks (key_of d) "undefined" none delete_id 0 (1 * 60 * 1000) now) [
        | inl (free, won, held) ↦
            let q' : Queue S = record q { locks = (delete_lock q.locks delete_id d now).0 } in
            let d' : Delivery = record d { lock = some (key_of d) } in
            rw (remove_row, won)
              (
                released_same q.locks q'.locks (release_delivery db q' d').0.locks (key_of d) _ free
                    held (λ j. holder-release_delivery db q' d' (key_of d) j refl),
                subst IsConsistent (sym (release_delivery-locks db q' d'))
                    (release-IsConsistent q'.locks (some (key_of d)) kept),
                λ id seq busy.
                    release_delivery-others db documented q' d' (is_entry id seq)
                      (other_entry q.locks d id seq free busy),
              )
        | inr ((k, busy), same_locks) ↦ rw (remove_row, same_locks) (λ j. refl, c, λ id seq h. refl)
      ]

  -- No lock has the id of the call as its owner.
  abbrev pub IsFresh : String → Locker → Type 0
  IsFresh delete_id l = (j : String) → unless_owner delete_id (holder j l) ≡ holder j l

  release_next_lem :
      IsDocumented db
      → (delete_id : String) (now : ℕ) (q : Queue S) (rest : List (Reply Delivery))
      → IsConsistent q.locks
      → IsFresh delete_id q.locks
      → SameHolders q.locks (release_next db delete_id now q rest).0.locks
        × ((id seq : String)
            → holder (lock_key id seq) q.locks ≢ none
            → count (is_entry id seq) (db.rows (release_next db delete_id now q rest).0.store)
              ≡ count (is_entry id seq) (db.rows q.store))
  unfolding release_next
  release_next_lem documented delete_id now q [] c fresh = (λ j. refl, λ id seq h. refl)
  release_next_lem documented delete_id now q (failed e ∷ rest) c fresh =
      (λ j. holder-release_lock_owner q.locks delete_id j c ∙ fresh j, λ id seq h. refl)
  release_next_lem documented delete_id now q (ok d ∷ rest) c fresh =
      let q' = remove_row db delete_id now q d in
      let (same_now, c', kept_now) = remove_row_lem documented delete_id now q d c in
      let fresh' : IsFresh delete_id q'.locks = λ j. rw (same_now j) (fresh j) in
      let (same_then, kept_then) = release_next_lem documented delete_id now q' rest c' fresh' in
      (
        λ j. same_then j ∙ same_now j,
        λ id seq busy.
            kept_then id seq (λ e. busy (sym (same_now (lock_key id seq)) ∙ e))
            ∙ kept_now id seq busy,
      )

  -- Where the locks are consistent and nobody has the id of the call as an owner, `remove` leaves
  -- every key held as before, whether it ends well or with an error of the cursor; and of a
  -- delivery whose key is held it deletes no row.
  pub remove_lem :
      IsDocumented db
      → (q : Queue S) (id : String) (seq : Option String) (delete_id : String) (now : ℕ)
      → IsConsistent q.locks
      → IsFresh delete_id q.locks
      → SameHolders q.locks (remove db q id seq delete_id now).0.locks
        × ((id' seq' : String)
            → holder (lock_key id' seq') q.locks ≢ none
            → count (is_entry id' seq') (db.rows (remove db q id seq delete_id now).0.store)
              ≡ count (is_entry id' seq') (db.rows q.store))
  unfolding remove
  remove_lem documented q id seq delete_id now c fresh =
      release_next_lem documented delete_id now q (db.find (is_asked id seq) q.store) c fresh
