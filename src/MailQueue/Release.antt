-- ===== src/MailQueue/Release.antt =====
-- lib/mail-queue.js: `releaseDelivery` frees the lock, and keeps a message that still has deliveries.
use zone_mta.Prelude.{
  ◌<◌, ◌≤◌, String, ◌≡◌, refl, ap, ◌∙◌, inl, inr, Bool, true, false, none, some, ite, text_discrete,
  arith, Option-cases,
}
use zone_mta.Delivery.{Delivery, ok, Reply-cases, Store, IsDocumented, count}
use zone_mta.QueueLocker.{release}
use zone_mta.QueueLocker.Held.{holder, holder-release}
use zone_mta.MailQueue.{Queue, of_id, is_entry, remove_message, drop_message, release_delivery}

module _ {ℓ} {S : Type ℓ} (db : Store S) where
  pub release_delivery-locks :
      (q : Queue S) (d : Delivery) → (release_delivery db q d).0.locks ≡ (release q.locks d.lock).0
  unfolding release_delivery
  release_delivery-locks q d = elim (Reply-cases (db.delete_one (is_entry d.id d.seq) q.store).1) [
    | inl (e, f) ↦ rw (release_delivery, f) refl
    | inr (v, f) ↦ rw (release_delivery, f) refl
  ]

  pub release_delivery-instance_id :
      (q : Queue S) (d : Delivery) → (release_delivery db q d).0.instance_id ≡ q.instance_id
  unfolding release_delivery
  release_delivery-instance_id q d =
      elim (Reply-cases (db.delete_one (is_entry d.id d.seq) q.store).1) [
        | inl (e, f) ↦ rw (release_delivery, f) refl
        | inr (v, f) ↦ rw (release_delivery, f) refl
      ]

  -- Whatever the database answers, and after an error too, `releaseDelivery` frees the lock of the
  -- delivery, and every other key is held as before.
  pub holder-release_delivery :
      (q : Queue S) (d : Delivery) (key j : String)
      → d.lock ≡ some key
      → holder j (release_delivery db q d).0.locks
        ≡ ite (text_discrete key j) none (holder j q.locks)
  holder-release_delivery q d key j e =
      rw (release_delivery-locks q d, e) (holder-release q.locks key j).1

  module _ (documented : IsDocumented db) where
    pub remove_message-rows : (s : S) (id : String) → db.rows (remove_message db s id).0 ≡ db.rows s
    unfolding remove_message
    remove_message-rows s id = elim (Reply-cases (db.find_file id s)) [
      | inl (e, f) ↦ rw (remove_message, f) refl
      | inr (v, f) ↦
          rw (remove_message, f)
            (elim (Option-cases v) [
              | inl g ↦ rw g refl
              | inr (file, g) ↦ rw g (elim (Reply-cases (db.delete_file file.ident s).1) [
                | inl (e, h) ↦ rw h (documented.deleted_file file.ident s)
                | inr (u, h) ↦ rw h (documented.deleted_file file.ident s)
              ])
            ])
    ]

    drop_message_lem :
        (s : S) (id : String)
        → ((drop_message db s id).1 ≡ ok true
            → count (of_id id) (db.rows (drop_message db s id).0) ≡ 0)
          × (0 < count (of_id id) (db.rows (drop_message db s id).0) → (drop_message db s id).0 ≡ s)
          × (db.rows (drop_message db s id).0 ≡ db.rows s)
    unfolding drop_message
    drop_message_lem s id = elim (Reply-cases (db.find_one (of_id id) s)) [
      | inl (e, f) ↦ rw (drop_message, f) (λ g. ground (arith, g), λ g. refl, refl)
      | inr (v, f) ↦
          rw (drop_message, f)
            (elim (Option-cases v) [
              | inl g ↦
                  let gone = documented.seen_none (of_id id) s (f ∙ ap ok g) in
                  rw (g, remove_message-rows s id) (λ h. gone, λ h. ground (arith, gone, h), refl)
              | inr (d, g) ↦ rw g (λ h. ground (arith, h), λ h. refl, refl)
            ])
    ]

    -- When `releaseDelivery` answers true, no row of the message is left; while one is left, the
    -- call changes the database by nothing but the deletion of the delivery's row, so the message
    -- stays stored; and it never adds a row of any kind.
    pub release_delivery_lem :
        (q : Queue S) (d : Delivery)
        → ((release_delivery db q d).1 ≡ ok true
            → count (of_id d.id) (db.rows (release_delivery db q d).0.store) ≡ 0)
          × (0 < count (of_id d.id) (db.rows (release_delivery db q d).0.store)
              → (release_delivery db q d).0.store ≡ (db.delete_one (is_entry d.id d.seq) q.store).0)
          × ((r : Delivery → Bool)
              → count r (db.rows (release_delivery db q d).0.store) ≤ count r (db.rows q.store))
    unfolding release_delivery
    release_delivery_lem q d =
        let p = is_entry d.id d.seq in
        elim (Reply-cases (db.delete_one p q.store).1) [
          | inl (e, f) ↦
              rw (release_delivery, f)
                (λ g. ground (arith, g), λ g. refl, λ r. documented.deleted_one p r q.store)
          | inr (v, f) ↦
              let (none_left, kept, same_rows) =
                drop_message_lem (db.delete_one p q.store).0 d.id in
              rw (release_delivery, f, same_rows)
                (
                  rw same_rows at none_left,
                  rw same_rows at kept,
                  λ r. documented.deleted_one p r q.store,
                )
        ]

    -- No row goes but those of the delivery.
    pub release_delivery-others :
        (q : Queue S) (d : Delivery) (r : Delivery → Bool)
        → ((x : Delivery) → is_entry d.id d.seq x ≡ true → r x ≡ false)
        → count r (db.rows (release_delivery db q d).0.store) ≡ count r (db.rows q.store)
    unfolding release_delivery
    release_delivery-others q d r h =
        let p = is_entry d.id d.seq in
        elim (Reply-cases (db.delete_one p q.store).1) [
          | inl (e, f) ↦ rw (release_delivery, f) (documented.deleted_others p r q.store h)
          | inr (v, f) ↦
              rw (release_delivery, f)
                (ap (count r) (drop_message_lem (db.delete_one p q.store).0 d.id).2
                  ∙ documented.deleted_others p r q.store h)
        ]

    -- Where at most one row has the id and the sequence number of the delivery, none is left once
    -- `releaseDelivery` has answered without an error.
    pub release_delivery_gone :
        (q : Queue S) (d : Delivery) (b : Bool)
        → count (is_entry d.id d.seq) (db.rows q.store) ≤ 1
        → (release_delivery db q d).1 ≡ ok b
        → count (is_entry d.id d.seq) (db.rows (release_delivery db q d).0.store) ≡ 0
    unfolding release_delivery
    release_delivery_gone q d b single e =
        let p = is_entry d.id d.seq in
        elim (Reply-cases (db.delete_one p q.store).1) [
          | inl (m, f) ↦ ground (arith, e, f)
          | inr (v, f) ↦
              rw (release_delivery, f)
                (omega (
                  arith,
                  single,
                  documented.deleted_match p q.store f,
                  ap (count p) (drop_message_lem (db.delete_one p q.store).0 d.id).2,
                ))
        ]
