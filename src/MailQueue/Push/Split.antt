-- ===== src/MailQueue/Push/Split.antt =====
-- lib/mail-queue.js: the rows that `push` inserts, one for each recipient.
use zone_mta.Prelude.{
  either, ◌⊎◌, ℕ, suc, ◌+◌, String, ◌≡◌, refl, sym, ap, subst, ◌∙◌, inl, inr, Bool, true, false,
  ◌&&◌, none, some, List, [], ◌∷◌, arith, leb, max, if◌then◌else◌, Option-cases,
}
use zone_mta.Prelude.Sets.{has_text}
use zone_mta.Delivery.{Delivery, Reply, failed, ok, Reply-cases, Store, IsDocumented, count}
use zone_mta.MailQueue.{Queue, is_next, same}
use zone_mta.MailQueue.Texts.{unhex, unhex-seq_text}
use zone_mta.MailQueue.Push.{
  Envelope, RoutedRecipient, Pushed, recipient_domain, choose_zone, new_row, process_recipients,
  push, push_to, store_documents, known_zone,
}

-- When a message is due first.
abbrev pub due_time : Envelope → ℕ → ℕ
due_time e now = elim e.defer_delivery [ none ↦ now | some t ↦ max now t ]

-- From that time on, and not before, any instance finds the row in its zone.
unfoldable pub IsDueFrom : ℕ → Delivery → Type 0
IsDueFrom due d =
    (t : ℕ) (instance_id : String) → is_next d.sending_zone t instance_id [] d ≡ leb due t

-- Row after row the recipients' domains, numbered in hexadecimal after `seq`.
abbrev pub IsSplit : String → Envelope → ℕ → ℕ → List String → List Delivery → Type 0
IsSplit id e now seq [] [] = Unit
IsSplit id e now seq (recipient ∷ rest) (d ∷ ds) =
    (d.id ≡ id)
    × (unhex 0 d.seq ≡ suc seq)
    × (d.domain ≡ recipient_domain recipient)
    × IsDueFrom (due_time e now) d
    × IsSplit id e now (suc seq) rest ds
IsSplit id e now seq _ _ = ⊥

and_true : (b : Bool) → (b && true && true && true) ≡ b
and_true true = refl
and_true false = refl

same_refl : (a : String) → same a a ≡ true
same_refl a = ground arith

new_row-queued :
    (id : String) (e : Envelope) (now seq : ℕ) (domain : String) (routing : RoutedRecipient)
    → (new_row id e now seq domain routing).queued ≡ due_time e now
new_row-queued id e now seq domain routing = elim (Option-cases e.defer_delivery) [
  | inl f ↦ ground (arith, f)
  | inr (t, f) ↦ ground (arith, f)
]

new_row-IsDueFrom :
    (id : String) (e : Envelope) (now seq : ℕ) (domain : String) (routing : RoutedRecipient)
    → IsDueFrom (due_time e now) (new_row id e now seq domain routing)
unfolding IsDueFrom has_text
new_row-IsDueFrom id e now seq domain routing t instance_id =
    rw (same_refl routing.delivery_zone, new_row-queued id e now seq domain routing, same_refl "no")
      (and_true (leb (due_time e now) t))

ok_inj : {A : Type 0} (a b : A) → ok a ≡ ok b → a ≡ b
ok_inj a b h = ground (arith, h)

-- What the hooks get for a recipient.
abbrev choice : Pushed → String → RoutedRecipient
choice p recipient = record {
  recipient = recipient;
  delivery_zone = choose_zone p.routes p.default_zone p.zone p.envelope recipient;
}

process_recipients-IsSplit :
    (p : Pushed) (recipients : List String) (seq : ℕ) (ds : List Delivery)
    → process_recipients p seq recipients ≡ ok ds
    → IsSplit p.id p.envelope p.now seq recipients ds
unfolding process_recipients
process_recipients-IsSplit p [] seq ds h =
    subst (IsSplit p.id p.envelope p.now seq []) (ok_inj [] ds h) tt
process_recipients-IsSplit p (recipient ∷ rest) seq ds h =
    elim (Reply-cases (p.route_hook p.envelope (choice p recipient))) [
      | inl (m, e) ↦
          let refused : failed m ≡ ok ds = sym (rw (process_recipients, e) refl) ∙ h in
          absurd (ground (arith, refused))
      | inr (routing, e) ↦ elim (Reply-cases (process_recipients p (suc seq) rest)) [
        | inl (m, f) ↦
            let refused : failed m ≡ ok ds = sym (rw (process_recipients, e, f) refl) ∙ h in
            absurd (ground (arith, refused))
        | inr (rows, f) ↦
            let row =
              new_row p.id p.envelope p.now (suc seq) (recipient_domain recipient) routing in
            let all : ok (row ∷ rows) ≡ ok ds = sym (rw (process_recipients, e, f) refl) ∙ h in
            subst (IsSplit p.id p.envelope p.now seq (recipient ∷ rest))
              (ok_inj (row ∷ rows) ds all)
              (
                refl,
                unhex-seq_text (suc seq),
                refl,
                new_row-IsDueFrom p.id p.envelope p.now (suc seq) (recipient_domain recipient)
                    routing,
                process_recipients-IsSplit p rest (suc seq) rows f,
              )
      ]
    ]

open_of_ok {ℓ} :
    {S : Type ℓ} (b : Bool) (x y : S × Reply String) {m id : String}
    → x.1 ≡ failed m
    → (if b then x else y).1 ≡ ok id
    → (if b then x else y) ≡ y
open_of_ok true x y {m} {id} e h =
    let refused : failed m ≡ ok id = sym e ∙ h in absurd (ground (arith, refused))
open_of_ok false x y e h = refl

module _ {ℓ} {S : Type ℓ} (db : Store S) where
  store_documents_lem :
      (q : Queue S) (id : String) (r : Reply (List Delivery))
      → (store_documents db q id r).1 ≡ ok id
      → (ds : List Delivery) × (r ≡ ok ds)
        × ((db.insert_many ds q.store).1 ≡ ok tt)
        × ((store_documents db q id r).0.store ≡ (db.insert_many ds q.store).0)
  unfolding store_documents
  store_documents_lem q id (failed e) h = absurd (ground (arith, h))
  store_documents_lem q id (ok ds) h = elim (Reply-cases (db.insert_many ds q.store).1) [
    | inl (m, e) ↦
        let refused : failed m ≡ ok id = sym (rw (store_documents, e) refl) ∙ h in
        absurd (ground (arith, refused))
    | inr (u, e) ↦ (ds, refl, e, rw (store_documents, e) refl)
  ]

  push_to_lem :
      IsDocumented db
      → (q : Queue S) (p : Pushed) (recipients : List String)
      → (push_to db q p recipients).1 ≡ ok p.id
      → (ds : List Delivery) × IsSplit p.id p.envelope p.now 0 recipients ds
        × ((r : Delivery → Bool)
            → count r (db.rows (push_to db q p recipients).0.store)
              ≡ count r ds + count r (db.rows q.store))
  unfolding push_to
  push_to_lem documented q p [] h = absurd (ground (arith, h))
  push_to_lem documented q p (recipient ∷ rest) h =
      let (ds, split, added, stored) =
        store_documents_lem q p.id (process_recipients p 0 (recipient ∷ rest)) h in
      (
        ds,
        process_recipients-IsSplit p (recipient ∷ rest) 0 ds split,
        λ r. ap (λ s. count r (db.rows s)) stored ∙ documented.inserted ds r q.store added,
      )

  -- With a documented database, a `push` that answers the id of its message has put into the database just
  -- one row for each recipient. The rows have the id of the message and are numbered from 1 in
  -- hexadecimal; each has the domain of its recipient, and can be found in its zone from the time on that
  -- the message is deferred to, or from now on, and not before.
  pub push_lem :
      IsDocumented db
      → (q : Queue S) (normal : String → String) (p : Pushed) → (push db q normal p).1 ≡ ok p.id
      → (ds : List Delivery) × IsSplit p.id p.envelope p.now 0 p.envelope.to ds
        × ((r : Delivery → Bool)
            → count r (db.rows (push db q normal p).0.store)
              ≡ count r ds + count r (db.rows q.store))
  unfolding push
  push_lem documented q normal p h =
      let chosen : Pushed = record p {
        zone = known_zone p.routes normal p.envelope.sending_zone;
      } in
      let running = open_of_ok q.closing _ (push_to db q chosen p.envelope.to) refl h in
      let (ds, split, rows) =
        push_to_lem documented q chosen p.envelope.to (ap (λ x. x.1) (sym running) ∙ h) in
      (ds, split, λ r. ap (λ x. count r (db.rows x.0.store)) running ∙ rows r)

  store_documents-cases :
      (q : Queue S) (id : String) (r : Reply (List Delivery))
      → ((e : String) × ((store_documents db q id r).1 ≡ failed e))
        ⊎ ((store_documents db q id r).1 ≡ ok id)
  unfolding store_documents
  store_documents-cases q id (failed e) = inl (e, refl)
  store_documents-cases q id (ok ds) = elim (Reply-cases (db.insert_many ds q.store).1) [
    | inl (m, e) ↦ inl (m, rw (store_documents, e) refl)
    | inr (u, e) ↦ inr (rw (store_documents, e) refl)
  ]

  push_to-cases :
      (q : Queue S) (p : Pushed) (recipients : List String)
      → ((e : String) × ((push_to db q p recipients).1 ≡ failed e))
        ⊎ ((push_to db q p recipients).1 ≡ ok p.id)
  unfolding push_to
  push_to-cases q p [] = inl ("Empty recipients list", refl)
  push_to-cases q p (recipient ∷ rest) =
      store_documents-cases q p.id (process_recipients p 0 (recipient ∷ rest))

  -- `push` answers an error or the id of its message.
  pub push-cases :
      (q : Queue S) (normal : String → String) (p : Pushed)
      → ((e : String) × ((push db q normal p).1 ≡ failed e)) ⊎ ((push db q normal p).1 ≡ ok p.id)
  unfolding push
  push-cases q normal p =
      either (λ (r : Queue S × Reply String). ((e : String) × (r.1 ≡ failed e)) ⊎ (r.1 ≡ ok p.id))
        q.closing _ _ (inl ("Server shutdown in progress", refl))
        (push_to-cases q (record p { zone = known_zone p.routes normal p.envelope.sending_zone })
          p.envelope.to)
