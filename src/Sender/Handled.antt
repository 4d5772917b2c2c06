-- ===== src/Sender/Handled.antt =====
-- lib/sender.js, lib/queue-server.js and lib/mail-queue.js together: what becomes of a delivery
-- that failed.
use zone_mta.Prelude.{
  ◌↔◌, ◌==◌, ℕ, ◌+◌, ◌≤◌, String, ◌≡◌, refl, sym, ap, ◌∙◌, subst, Bool, true, false, Option, none,
  some, List, [], ◌∷◌, arith, inl, inr, Option-cases, is_some, not, ◌&&◌, ◌||◌,
}
use zone_mta.Delivery.{Delivery, Reply, failed, ok, Reply-cases, Store, IsDocumented, count}
use zone_mta.MailQueue.{is_entry}
use zone_mta.MailQueue.Release.{release_delivery_gone}
use zone_mta.MailQueue.Defer.{is_astray, defer_delivery_lem, defer_delivery-true}
use zone_mta.SendingZone
use zone_mta.SendingZone.{Site, Response, block}
use zone_mta.QueueServer.{
  Setup, Value, other, run_job, release_request, defer_request, answer_entry, get_delivery,
}
use zone_mta.Bounces.{can_send_bounce}
use zone_mta.Sender.{
  Problem, Decision, defers, rejects, decide, decided, request, response_of, on_reply, Outcome,
  closes, continues, BounceRequest, send_bounce_message, is_truthy, text_of,
}
use zone_mta.Sender

abbrev pub left : {S : Type 0} → Store S → (Delivery → Bool) → Site S → ℕ
left db r s = count r (db.rows s.queue.store)

same_entry :
    (id seq : String) (d : Delivery)
    → is_entry id seq d ≡ true
    → is_entry d.id d.seq ≡ is_entry id seq
same_entry id seq d h =
    ap (λ i. is_entry i d.seq) (ground (arith, h)) ∙ ap (is_entry id) (ground (arith, h))

astray_agrees :
    (id seq : String) (t : ℕ) (d : Delivery)
    → is_entry id seq d ≡ true
    → is_astray d.id d.seq t ≡ is_astray id seq t
astray_agrees id seq t d h =
    ap (λ p. λ (x : Delivery). p x && (x.locked || not (x.queued == t))) (same_entry id seq d h)

some_injective : {A : Type 0} (a b : A) → some a ≡ some b → a ≡ b
some_injective a b e = ap (λ o. elim o [ none ↦ a | some x ↦ x ]) e

count_astray :
    (id seq : String) (t : ℕ) (ds : List Delivery)
    → count (is_astray id seq t) ds ≤ count (is_entry id seq) ds
count_astray id seq t [] = omega arith
count_astray id seq t (d ∷ ds) = ground (arith, count_astray id seq t ds)

block-store :
    {S : Type 0} (s : Site S) (d : Delivery) (r : Response) (ttl now : ℕ)
    → (block s d r ttl now).queue.store ≡ s.queue.store
unfolding block
block-store s d r ttl now = ground arith

module _ {S : Type 0} (db : Store S) (documented : IsDocumented db) where
  answer_entry-reply :
      (d : Delivery) (r : Site S × Reply Bool) (v : Value)
      → (answer_entry db d r).1 ≡ ok v
      → ((answer_entry db d r).0 ≡ r.0) × (((b : Bool) × (r.1 ≡ ok b)))
  answer_entry-reply d (s, failed e) v h = ground (arith, h)
  answer_entry-reply d (s, ok b) v h = (refl, (b, refl))

  release_request_lem :
      (s : Site S) (id seq : String) (lock : Option String) (v : Value)
      → left db (is_entry id seq) s ≤ 1
      → (release_request db s id seq lock).1 ≡ ok v
      → left db (is_entry id seq) (release_request db s id seq lock).0 ≡ 0
  unfolding release_request get_delivery SendingZone.release_delivery
  release_request_lem s id seq lock v single e =
      elim (Reply-cases (db.find_one (is_entry id seq) s.queue.store)) [
        | inl (m, f) ↦ ground (arith, e, f)
        | inr (found, f) ↦ elim (Option-cases found) [
          | inl g ↦
              rw (release_request, f, g)
                (documented.seen_none (is_entry id seq) s.queue.store (f ∙ ap ok g))
          | inr (d, g) ↦
              let d' : Delivery = record d { lock = lock } in
              let answer : (answer_entry db d (SendingZone.release_delivery db s d')).1 ≡ ok v =
                rw (release_request, f, g) at e in
              let (same_site, (b, replied)) =
                answer_entry-reply d (SendingZone.release_delivery db s d') v answer in
              rw (release_request, f, g, same_site)
                (subst
                  (λ p. left db p s ≤ 1 → left db p (SendingZone.release_delivery db s d').0 ≡ 0)
                  (same_entry id seq d
                    (documented.seen_some (is_entry id seq) s.queue.store d (f ∙ ap ok g)).0)
                  (λ h. release_delivery_gone db documented s.queue d' b h replied) single)
        ]
      ]

  defer_request_lem :
      (c : Setup) (s : Site S) (id seq : String) (lock : Option String) (ttl : ℕ) (r : Response)
      (now : ℕ) (v : Value)
      → left db (is_entry id seq) s ≤ 1
      → (defer_request db c s id seq lock ttl r now).1 ≡ ok v
      → left db (is_astray id seq (now + ttl)) (defer_request db c s id seq lock ttl r now).0 ≡ 0
  unfolding defer_request get_delivery SendingZone.defer_delivery
  defer_request_lem c s id seq lock ttl r now v single e =
      elim (Reply-cases (db.find_one (is_entry id seq) s.queue.store)) [
        | inl (m, f) ↦ ground (arith, e, f)
        | inr (found, f) ↦ elim (Option-cases found) [
          | inl g ↦
              let nobody = documented.seen_none (is_entry id seq) s.queue.store (f ∙ ap ok g) in
              rw (defer_request, f, g)
                (omega (arith, nobody, count_astray id seq (now + ttl) (db.rows s.queue.store)))
          | inr (d, g) ↦
              let d' : Delivery = record d { lock = lock } in
              let s' = block s d' r c.blacklist_ttl now in
              let result = SendingZone.defer_delivery db s d' ttl r c.blacklist_ttl now in
              let answer : (answer_entry db d result).1 ≡ ok v = rw (defer_request, f, g) at e in
              let (same_site, (b, replied)) = answer_entry-reply d result v answer in
              let entry =
                (documented.seen_some (is_entry id seq) s.queue.store d (f ∙ ap ok g)).0 in
              rw (defer_request, f, g, same_site)
                (subst (λ p. left db p result.0 ≡ 0) (astray_agrees id seq (now + ttl) d entry)
                  (defer_delivery_lem db documented s'.queue d' ttl now r.response r.log
                    (subst (λ p. count p (db.rows s'.queue.store) ≤ 1)
                      (sym (same_entry id seq d entry))
                      (rw (block-store s d' r c.blacklist_ttl now) single))
                    (defer_delivery-true db s'.queue d' ttl now r.response r.log b replied)).0)
        ]
      ]

  -- What a failed delivery may come to, at a decision: `site` and `answer` are what the queue
  -- server leaves and answers.
  abbrev pub IsResolved : Site S → Sender.Job → ℕ → Outcome → Decision → Type 0
  IsResolved site job now (closes e) decision = Unit
  IsResolved site job now (continues bounce) (defers ttl verdict) =
      (left db (is_astray job.row.id job.row.seq (now + ttl)) site ≡ 0) × (bounce ≡ none)
  IsResolved site job now (continues bounce) (rejects verdict) =
      (left db (is_entry job.row.id job.row.seq) site ≡ 0)
      × (is_some bounce && not (can_send_bounce job.origin) ≡ false)

  -- In a database as documented that has at most one row of the delivery: once the queue server has
  -- run the request that a failed delivery leads to, the sender closes exactly on an error, and
  -- otherwise goes on. Then a deferred delivery is in the queue, unlocked and due after the time
  -- that was chosen, or not at all, and no bounce is sent; a rejected one is gone from the queue,
  -- and a bounce is sent only where `canSendBounce` allows it.
  pub on_reply_lem :
      (c : Setup) (job : Sender.Job) (err : Problem) (decision : Decision) (s s' : Site S) (now : ℕ)
      (reply : Reply Value)
      → left db (is_entry job.row.id job.row.seq) s ≤ 1
      → run_job db c (other (request decision job err)) s now ≡ some (s', reply)
      → (((e : String) × (reply ≡ failed e))
          ↔ ((e : String) × (on_reply decision job err reply ≡ closes e)))
        × IsResolved s' job now (on_reply decision job err reply) decision
  unfolding run_job request on_reply send_bounce_message
  on_reply_lem c job err (defers ttl verdict) s s' now (failed e) single h =
      (((λ p. (e, refl)), (λ p. (e, refl))), tt)
  on_reply_lem c job err (defers ttl verdict) s s' now (ok v) single h =
      let r = response_of verdict job err in
      let done = some_injective _ _ h in
      (
        ((λ p. ground (arith, p.1)), (λ p. ground (arith, p.1))),
        (
          subst (λ x. left db (is_astray job.row.id job.row.seq (now + ttl)) x ≡ 0)
              (ap (λ q. q.0) done)
              (defer_request_lem c s job.row.id job.row.seq job.row.lock ttl r now v single
                (ap (λ q. q.1) done)),
          refl,
        ),
      )
  on_reply_lem c job err (rejects verdict) s s' now (failed e) single h =
      (((λ p. (e, refl)), (λ p. (e, refl))), tt)
  on_reply_lem c job err (rejects verdict) s s' now (ok v) single h =
      let done = some_injective _ _ h in
      (
        ((λ p. ground (arith, p.1)), (λ p. ground (arith, p.1))),
        (
          subst (λ x. left db (is_entry job.row.id job.row.seq) x ≡ 0) (ap (λ q. q.0) done)
              (release_request_lem s job.row.id job.row.seq job.row.lock v single
                (ap (λ q. q.1) done)),
          ground arith,
        ),
      )
