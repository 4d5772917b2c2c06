-- ===== src/MailDrop/Added.antt =====
-- lib/mail-drop.js: what an answer of `add` means.
use zone_mta.Prelude.{
  either, ◌+◌, String, ◌≡◌, refl, ap, ◌∙◌, ◌⊎◌, inl, inr, Bool, true, false, not, Option-cases,
  List, none,
}
use zone_mta.Delivery.{Delivery, Reply, failed, ok, Reply-cases, Store, IsDocumented, count}
use zone_mta.MailQueue.{Queue, set_meta}
use zone_mta.MailQueue.Release.{remove_message-rows}
use zone_mta.MailQueue.Push.{Envelope, push}
use zone_mta.MailQueue.Push.Split.{IsSplit, push_lem, push-cases}
use zone_mta.MailDrop.{
  Drop, Ending, stored, interrupted, discard, push_message, queue_message, on_stored, add,
}

module _ {ℓ} {S : Type ℓ} where
  -- The hook before the body passed, the body was stored, and the hook after it left `envelope` of
  -- the given one.
  abbrev pub IsPassed : Drop S → Queue S → Envelope → Envelope → Type 0
  IsPassed o q given envelope =
      (o.store_hook ≡ none) × ((o.store q).1 ≡ stored) × (o.queue_hook given ≡ ok envelope)

module _ {ℓ} {S : Type ℓ} (db : Store S) (documented : IsDocumented db) where
  -- Either the message is queued: the hooks passed, it has one row for
  -- each recipient of the envelope that the hook left, and no other row has changed. Or the answer
  -- is an error; then no row has changed, or it is the error of `push` for that envelope.
  unfoldable pub IsAdded : Drop S → Queue S → Envelope → Queue S × Reply Unit → Type ℓ
  IsAdded o q given result =
      ((result.1 ≡ ok tt)
        × ((envelope : Envelope) × (ds : List Delivery) × IsPassed o q given envelope
            × IsSplit (o.pushed envelope).id (o.pushed envelope).envelope (o.pushed envelope).now 0
                (o.pushed envelope).envelope.to ds
            × ((r : Delivery → Bool)
                → count r (db.rows result.0.store) ≡ count r ds + count r (db.rows q.store))))
      ⊎ ((e : String) × (result.1 ≡ failed e)
          × ((db.rows result.0.store ≡ db.rows q.store)
              ⊎ ((envelope : Envelope) × (before : Queue S) × IsPassed o q given envelope
                  × (db.rows before.store ≡ db.rows q.store)
                  × ((push db before o.normal (o.pushed envelope)).1 ≡ failed e))))

  discard-rows : (q : Queue S) (id : String) → db.rows (discard db q id).store ≡ db.rows q.store
  discard-rows q id = remove_message-rows db documented q.store id

  refused :
      (o : Drop S) (q q' : Queue S) (given : Envelope) (e : String)
      → db.rows q'.store ≡ db.rows q.store
      → IsAdded o q given (q', failed e)
  unfolding IsAdded
  refused o q q' given e same = inr (e, refl, inl same)

  push_message-IsAdded :
      (o : Drop S) (q before : Queue S) (id : String) (given envelope : Envelope)
      → IsPassed o q given envelope
      → db.rows before.store ≡ db.rows q.store
      → IsAdded o q given (push_message db o before id envelope)
  unfolding push_message IsAdded
  push_message-IsAdded o q before id given envelope passed same =
      elim (push-cases db before o.normal (o.pushed envelope)) [
        | inl (e, f) ↦ rw (push_message, f) (inr (e, refl, inr (envelope, before, passed, same, f)))
        | inr f ↦
            let (ds, split, rows) = push_lem db documented before o.normal (o.pushed envelope) f in
            rw (push_message, f)
              (inl (
                refl,
                (envelope, ds, passed, split, λ r. rows r ∙ ap (λ x. count r ds + count r x) same),
              ))
      ]

  queue_message-IsAdded :
      (o : Drop S) (q before : Queue S) (id : String) (given envelope : Envelope)
      → IsPassed o q given envelope
      → db.rows before.store ≡ db.rows q.store
      → IsAdded o q given (queue_message db o before id envelope)
  unfolding queue_message set_meta
  queue_message-IsAdded o q before id given envelope passed same =
      let kept : db.rows (set_meta db before id (o.meta_of envelope)).0.store ≡ db.rows q.store =
        documented.data_rows id (o.meta_of envelope) before.store ∙ same in
      elim (Reply-cases (set_meta db before id (o.meta_of envelope)).1) [
        | inl (e, f) ↦
            rw (queue_message, f)
              (refused o q _ given e
                (discard-rows (set_meta db before id (o.meta_of envelope)).0 id ∙ kept))
        | inr (u, f) ↦
            rw (queue_message, f)
              (push_message-IsAdded o q (set_meta db before id (o.meta_of envelope)).0 id given
                envelope passed kept)
      ]

  on_stored-IsAdded :
      (o : Drop S) (q before : Queue S) (ending : Ending) (id : String) (envelope : Envelope)
      → o.store_hook ≡ none
      → (o.store q).1 ≡ ending
      → db.rows before.store ≡ db.rows q.store
      → IsAdded o q envelope (on_stored db o before ending id envelope)
  unfolding on_stored
  on_stored-IsAdded o q before (interrupted true e) id envelope first ended same =
      refused o q _ envelope e (discard-rows before id ∙ same)
  on_stored-IsAdded o q before (interrupted false e) id envelope first ended same =
      refused o q _ envelope e same
  on_stored-IsAdded o q before stored id envelope first ended same =
      elim (Reply-cases (o.queue_hook envelope)) [
        | inl (e, f) ↦ rw (on_stored, f) (refused o q _ envelope e (discard-rows before id ∙ same))
        | inr (envelope', f) ↦
            rw (on_stored, f)
              (queue_message-IsAdded o q before id envelope envelope' (first, ended, f) same)
      ]

  -- With a documented database, where storing the body of a message adds and takes off no row:
  -- `add` answers no error only where the body was stored and no hook gave an error, and once the
  -- message is queued, with one row for each recipient of the
  -- envelope that the hook `message:queue` left of the given one, in front of the rows that there
  -- were. Where it answers an error, no row has changed, or it is the error of `push` for that
  -- envelope.
  pub add-IsAdded :
      (o : Drop S) (q : Queue S) (id : String) (envelope : Envelope)
      → ((q : Queue S) → db.rows (o.store q).0.store ≡ db.rows q.store)
      → IsAdded o q envelope (add db o q id envelope)
  unfolding add
  add-IsAdded o q id envelope keeps =
      either (IsAdded o q envelope) (not o.ready) _ _
        (refused o q q envelope "Queue not yet initialized" refl)
        (elim (Option-cases o.store_hook) [
          | inl f ↦
              simp f
                (on_stored-IsAdded o q (o.store q).0 (o.store q).1 id envelope f refl (keeps q))
          | inr (e, f) ↦ simp f (refused o q q envelope e refl)
        ])
