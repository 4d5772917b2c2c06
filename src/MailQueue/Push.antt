-- ===== src/MailQueue/Push.antt =====
-- lib/mail-queue.js: `push` splits a message into one row for each recipient.
--
-- `normal` is `toLowerCase().trim()`, and `route_hook` what the plugins of `queue:route` make of a
-- recipient and a zone. A missing text is empty, as the code tests.
pub mod Split
mod Tests
use zone_mta.Prelude.{
  ℕ, zero, suc, ◌+◌, ◌/◌, String, Bool, true, false, Option, none, some, List, [], ◌∷◌, ltb,
  if◌then◌else◌, is_some,
}
use zone_mta.Prelude.Maps
use zone_mta.Delivery.{Delivery, Deferred, Reply, failed, ok, Store}
use zone_mta.Routing.{Routes, find_by_sender, find_by_recipient, find_by_origin}
use zone_mta.MailQueue.{Queue, same}
use zone_mta.MailQueue.Texts.{domain_part, without_brackets, seq_text}

pub record Envelope : Type 0 where
  pub from : String
  pub header_from : String
  pub to : List String
  pub sending_zone : Option String
  pub origin : Option String
  pub defer_delivery : Option ℕ
  pub session_id : Option String

pub record RoutedRecipient : Type 0 where
  pub recipient : String
  pub delivery_zone : String

-- `||` of two look-ups
abbrev pub or_else : Option String → Option String → Option String
or_else none b = b
or_else (some a) b = some a

abbrev pub recipient_domain : String → String
recipient_domain recipient = without_brackets (domain_part recipient)

abbrev pub sender_domain : Envelope → String
sender_domain e = domain_part (if same e.header_from "" then e.from else e.header_from)

-- A look-up that is made only for a domain that is not empty.
abbrev pub look_up : (String → Option String) → String → Option String
look_up find domain = if same domain "" then none else find domain

abbrev pub known_zone : Routes → (String → String) → Option String → Option String
known_zone routes normal none = none
known_zone routes normal (some zone) =
    if is_some (Maps.get (normal zone) routes.zones) then some zone else none

unfoldable pub choose_zone : Routes → String → Option String → Envelope → String → String
choose_zone routes default_zone zone e recipient =
    elim (or_else zone (
      or_else (look_up (find_by_sender routes) (sender_domain e)) (
        or_else (look_up (find_by_recipient routes) (recipient_domain recipient))
          (elim e.origin [ none ↦ none | some origin ↦ find_by_origin routes origin ])))) [
            | none ↦ default_zone
            | some z ↦ z
          ]

-- `envelope.deferDelivery && envelope.deferDelivery > Date.now()`
abbrev pub deferred_until : Envelope → ℕ → Option ℕ
deferred_until e now = elim e.defer_delivery [
  | none ↦ none
  | some t ↦ if ltb now t then some t else none
]

abbrev pub new_row : String → Envelope → ℕ → ℕ → String → RoutedRecipient → Delivery
new_row id e now seq domain routing = record {
  made = now / 1000;
  id = id;
  seq = seq_text seq;
  domain = domain;
  sending_zone = routing.delivery_zone;
  recipient = routing.recipient;
  locked = false;
  lock_time = 0;
  assigned = "no";
  queued = elim (deferred_until e now) [ none ↦ now | some t ↦ t ];
  created = now;
  session_id = e.session_id;
  deferred = elim (deferred_until e now) [
    | none ↦ none
    | some t ↦ some (record {
      first = some now;
      count = 0;
      last = now;
      next = t;
      response = some "Deferred by router";
      log = none;
    })
  ];
  lock = none;
  fields = [];
}

-- What stays the same from one recipient to the next.
pub record Pushed : Type 0 where
  pub id : String
  pub envelope : Envelope
  pub routes : Routes
  pub default_zone : String
  pub zone : Option String
  pub route_hook : Envelope → RoutedRecipient → Reply RoutedRecipient
  pub now : ℕ

-- `processRecipients`, with `seq` the number of recipients before these.
unfoldable pub process_recipients : Pushed → ℕ → List String → Reply (List Delivery)
unfolding choose_zone
process_recipients p seq [] = ok []
process_recipients p seq (recipient ∷ rest) =
    let documents = process_recipients p (suc seq) rest in
    elim (p.route_hook p.envelope (record {
      recipient = recipient;
      delivery_zone = choose_zone p.routes p.default_zone p.zone p.envelope recipient;
    })) [
      | failed e ↦ failed e
      | ok routing ↦ elim documents [
        | failed e ↦ failed e
        | ok ds ↦
            ok (new_row p.id p.envelope p.now (suc seq) (recipient_domain recipient) routing ∷ ds)
      ]
    ]

module _ {ℓ} {S : Type ℓ} (db : Store S) where
  -- `recipientsProcessed`: the answer is the id of the message.
  unfoldable pub store_documents : Queue S → String → Reply (List Delivery) → Queue S × Reply String
  store_documents q id (failed e) = (q, failed e)
  store_documents q id (ok documents) = elim (db.insert_many documents q.store).1 [
    | failed e ↦ (record q { store = (db.insert_many documents q.store).0 }, failed e)
    | ok _ ↦ (record q { store = (db.insert_many documents q.store).0 }, ok id)
  ]

  unfoldable pub push_to : Queue S → Pushed → List String → Queue S × Reply String
  unfolding store_documents process_recipients
  push_to q p [] = (q, failed "Empty recipients list")
  push_to q p (recipient ∷ rest) =
      store_documents q p.id (process_recipients p 0 (recipient ∷ rest))

  unfoldable pub push : Queue S → (String → String) → Pushed → Queue S × Reply String
  unfolding push_to
  push q normal p =
      if q.closing
      then (q, failed "Server shutdown in progress")
      else push_to q (record p { zone = known_zone p.routes normal p.envelope.sending_zone })
          p.envelope.to
