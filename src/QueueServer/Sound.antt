-- ===== src/QueueServer/Sound.antt =====
-- lib/queue-server.js: a request keeps the locks sound, whatever the database answers.
use zone_mta.Prelude.{
  either, ℕ, String, ◌≡◌, refl, Bool, Option, none, some, List, [], ◌∷◌, Option-cases, inl, inr,
  subst, sym,
}
use zone_mta.Delivery.{Delivery, Reply, failed, ok, Reply-cases, Store}
use zone_mta.QueueLocker.Reachable.{IsSound, release-IsSound}
use zone_mta.MailQueue.{get_meta, set_meta, Queue, shift}
use zone_mta.MailQueue.Push.{Pushed, push, push_to, store_documents, process_recipients, known_zone}
use zone_mta.MailQueue.Sound.{
  release_delivery-IsSound, defer_delivery-IsSound, EndsSound, shift-EndsSound,
}
use zone_mta.SendingZone.{
  Zone, Site, Response, block, release_delivery, defer_delivery, get_next_delivery, max_connections,
}
use zone_mta.QueueServer.{
  Command, remove, sets_meta, pushes, release_entry, defer_entry, Job, search, other, Setup,
  add_meta, find_next, get_delivery, release_request, defer_request, answer_next, answer_entry,
  answer_done, run_job, remove_data, pushed,
}

module _ {S : Type 0} where
  abbrev pub HasLocks : Site S → Type 0
  HasLocks s = IsSound s.queue.locks

  abbrev pub Ends : {A : Type 0} → Option (Site S × A) → Type 0
  Ends none = Unit
  Ends (some (s, a)) = HasLocks s

  block-HasLocks :
      (s : Site S) (d : Delivery) (r : Response) (ttl now : ℕ)
      → HasLocks s
      → HasLocks (block s d r ttl now)
  unfolding block
  block-HasLocks s d r ttl now h = either HasLocks _ _ _ h h

module _ {S : Type 0} (db : Store S) where
  add_meta-HasLocks :
      (s : Site S) (r : Reply (Option Delivery)) → HasLocks s → HasLocks (add_meta db s r).0
  unfolding add_meta
  add_meta-HasLocks s (failed e) h = h
  add_meta-HasLocks s (ok none) h = h
  add_meta-HasLocks s (ok (some d)) h = elim (Reply-cases (get_meta db d.id s.queue.store)) [
    | inl (e, f) ↦ rw (add_meta, f) (release-IsSound s.queue.locks d.lock h)
    | inr (v, f) ↦ elim (Option-cases v) [
      | inl gone ↦ rw (add_meta, f, gone) h
      | inr (meta, there) ↦ rw (add_meta, f, there) h
    ]
  ]

  find_next-Ends :
      (c : Setup) (z : Zone) (owner : String) (s : Site S) (now : ℕ)
      → HasLocks s
      → Ends (find_next db c z owner s now)
  unfolding find_next get_next_delivery
  find_next-Ends c z owner s now h =
      let limits = max_connections s.domains in
      let searched = shift-EndsSound db c.fuel z.name owner limits c.normal s.queue now h in
      elim (Option-cases (shift db c.fuel z.name owner limits c.normal s.queue now)) [
        | inl e ↦ rw (find_next, get_next_delivery, e) tt
        | inr ((q, r), e) ↦
            rw (find_next, get_next_delivery, e)
              (add_meta-HasLocks (record s { queue = q }) r (subst (EndsSound db) e searched))
      ]

  answer_entry-HasLocks :
      (d : Delivery) (r : Site S × Reply Bool) → HasLocks r.0 → HasLocks (answer_entry db d r).0
  answer_entry-HasLocks d (s, failed e) h = h
  answer_entry-HasLocks d (s, ok b) h = h

  answer_next-HasLocks :
      (r : Site S × Reply (Option Delivery)) → HasLocks r.0 → HasLocks (answer_next db r).0
  answer_next-HasLocks (s, failed e) h = h
  answer_next-HasLocks (s, ok none) h = h
  answer_next-HasLocks (s, ok (some d)) h = h

  answer_done-HasLocks :
      {A : Type 0} (r : Queue S × Reply A) (s : Site S)
      → IsSound r.0.locks
      → HasLocks (answer_done db r s).0
  answer_done-HasLocks (q, failed e) s h = h
  answer_done-HasLocks (q, ok b) s h = h

  release_request-HasLocks :
      (s : Site S) (id seq : String) (lock : Option String)
      → HasLocks s
      → HasLocks (release_request db s id seq lock).0
  unfolding release_request release_delivery
  release_request-HasLocks s id seq lock h = elim (Reply-cases (get_delivery db s id seq)) [
    | inl (e, f) ↦ rw (release_request, f) h
    | inr (v, f) ↦ elim (Option-cases v) [
      | inl gone ↦ rw (release_request, f, gone) h
      | inr (d, there) ↦
          rw (release_request, f, there)
            (answer_entry-HasLocks d _
              (release_delivery-IsSound db s.queue (record d { lock = lock }) h))
    ]
  ]

  defer_request-HasLocks :
      (c : Setup) (s : Site S) (id seq : String) (lock : Option String) (ttl : ℕ) (r : Response)
      (now : ℕ)
      → HasLocks s
      → HasLocks (defer_request db c s id seq lock ttl r now).0
  unfolding defer_request defer_delivery
  defer_request-HasLocks c s id seq lock ttl r now h =
      elim (Reply-cases (get_delivery db s id seq)) [
        | inl (e, f) ↦ rw (defer_request, f) h
        | inr (v, f) ↦ elim (Option-cases v) [
          | inl gone ↦ rw (defer_request, f, gone) h
          | inr (d, there) ↦
              let d' : Delivery = record d { lock = lock } in
              rw (defer_request, f, there)
                (answer_entry-HasLocks d _ (
                  defer_delivery-IsSound db (block s d' r c.blacklist_ttl now).queue d' ttl now
                    r.response r.log (block-HasLocks s d' r c.blacklist_ttl now h)))
        ]
      ]

  store_documents-locks :
      (q : Queue S) (id : String) (r : Reply (List Delivery))
      → (store_documents db q id r).0.locks ≡ q.locks
  unfolding store_documents
  store_documents-locks q id (failed e) = refl
  store_documents-locks q id (ok ds) = elim (Reply-cases (db.insert_many ds q.store).1) [
    | inl (e, f) ↦ rw (store_documents, f) refl
    | inr (v, f) ↦ rw (store_documents, f) refl
  ]

  push_to-locks :
      (q : Queue S) (p : Pushed) (to : List String) → (push_to db q p to).0.locks ≡ q.locks
  unfolding push_to
  push_to-locks q p [] = refl
  push_to-locks q p (recipient ∷ rest) =
      store_documents-locks q p.id (process_recipients p 0 (recipient ∷ rest))

  push-locks :
      (q : Queue S) (normal : String → String) (p : Pushed) → (push db q normal p).0.locks ≡ q.locks
  unfolding push
  push-locks q normal p =
      either (λ (x : Queue S × Reply String). x.0.locks ≡ q.locks) q.closing _ _ refl
        (push_to-locks q (record p { zone = known_zone p.routes normal p.envelope.sending_zone })
          p.envelope.to)

  run_other-Ends :
      (c : Setup) (command : Command) (s : Site S) (now : ℕ)
      → HasLocks s
      → Ends (run_job db c (other command) s now)
  unfolding run_job set_meta
  run_other-Ends c command s now h = elim command as (λ k. Ends (run_job db c (other k) s now)) [
    | release_entry id seq lock ↦ release_request-HasLocks s id seq lock h
    | defer_entry id seq lock ttl r ↦ defer_request-HasLocks c s id seq lock ttl r now h
    | remove id ↦ answer_done-HasLocks (remove_data db s.queue id) s h
    | sets_meta id meta ↦ answer_done-HasLocks (set_meta db s.queue id meta) s h
    | pushes id envelope ↦
        answer_done-HasLocks (push db s.queue c.normal (pushed db c id envelope now)) s
          (subst IsSound (sym (push-locks s.queue c.normal (pushed db c id envelope now))) h)
    | _ ↦ h
  ]

  pub run_job-Ends :
      (c : Setup) (j : Job) (s : Site S) (now : ℕ) → HasLocks s → Ends (run_job db c j s now)
  unfolding run_job
  run_job-Ends c (search z owner) s now h = elim (Option-cases (find_next db c z owner s now)) [
    | inl e ↦ rw (run_job, e) tt
    | inr (found, e) ↦
        rw (run_job, e)
          (answer_next-HasLocks found (subst Ends e (find_next-Ends c z owner s now h)))
  ]
  run_job-Ends c (other command) s now h = run_other-Ends c command s now h
