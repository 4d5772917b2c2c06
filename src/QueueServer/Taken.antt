-- ===== src/QueueServer/Taken.antt =====
-- lib/queue-server.js: what `findNext` answers, and what it leaves locked.
use zone_mta.Prelude.{
  ℕ, ◌<◌, String, ◌≡◌, refl, sym, ap, subst, ◌∙◌, false, Option, none, some, Option-cases, inl, inr,
}
use zone_mta.Delivery.{Delivery, Reply, failed, ok, Reply-cases, Store, IsDocumented, empty_key}
use zone_mta.TtlCache
use zone_mta.QueueLocker.{Locker, release}
use zone_mta.QueueLocker.Held.{holder-release}
use zone_mta.MailQueue.{Search, answered, get_meta, search_of}
use zone_mta.MailQueue.Shift.{IsStep, IsTaken, SameHolders, key_of, released_same, due_count}
use zone_mta.MailQueue.Answers.{shift_lem}
use zone_mta.SendingZone.{Zone, Site, get_next_delivery, max_connections}
use zone_mta.QueueServer.{Setup, add_meta, find_next, with_fields}
use zone_mta.Prelude.Maps.{Map}

module _ {S : Type 0} (db : Store S) where
  freed :
      (o : Search) (instance_id : String) (l l' : Locker) (d : Delivery)
      → IsTaken o instance_id l l' d
      → SameHolders l (release l' d.lock).0
  freed o instance_id l l' d taken =
      let (keyed, free, (k, _, _, held), _, _, _, _, _) = taken in
      rw keyed (
        released_same l l' (release l' (some (key_of d))).0 (key_of d) k free held
          (λ j. (holder-release l' (key_of d) j).1))

  add_meta-none :
      (s : Site S) (d : Delivery)
      → get_meta db d.id s.queue.store ≡ ok none
      → add_meta db s (ok (some d)) ≡ (s, ok (some d))
  unfolding add_meta
  add_meta-none s d f = rw (add_meta, f) refl

  add_meta-some :
      (s : Site S) (d : Delivery) (meta : Map String)
      → get_meta db d.id s.queue.store ≡ ok (some meta)
      → add_meta db s (ok (some d)) ≡ (s, ok (some (with_fields d meta)))
  unfolding add_meta
  add_meta-some s d meta f = rw (add_meta, f) refl

  add_meta_lem :
      (o : Search) (instance_id : String) (l : Locker) (s : Site S) (r : Reply (Option Delivery))
      → IsStep db o instance_id l 0 (answered s.queue r)
      → IsStep db o instance_id l 0 (answered (add_meta db s r).0.queue (add_meta db s r).1)
  unfolding add_meta
  add_meta_lem o instance_id l s (failed e) h = h
  add_meta_lem o instance_id l s (ok none) h = h
  add_meta_lem o instance_id l s (ok (some d)) h =
      let Done : Site S × Reply (Option Delivery) → Type 0 =
        λ x. IsStep db o instance_id l 0 (answered x.0.queue x.1) in
      elim (Reply-cases (get_meta db d.id s.queue.store)) [
        | inl (e, f) ↦ rw (add_meta, f) (freed o instance_id l s.queue.locks d h.0)
        | inr (v, f) ↦ elim (Option-cases v) [
          | inl gone ↦ subst Done (sym (add_meta-none s d (f ∙ ap ok gone))) h
          | inr (meta, there) ↦ subst Done (sym (add_meta-some s d meta (f ∙ ap ok there))) h
        ]
      ]

  -- With a documented database, in a queue that is open and does not remember the zone as empty,
  -- `findNext` ends: fuel above the number of rows that are due is enough. An error, that of the
  -- second read of the metadata too, or nothing, which it answers only when no row is due, leaves
  -- the same keys held. A delivery that it answers was due in the zone; the database has its row,
  -- marked as locked by this instance at `now`; and its key was free and is held now by the client.
  pub find_next_lem :
      IsDocumented db
      → (c : Setup) (z : Zone) (owner : String) (s : Site S) (now : ℕ) → s.queue.closing ≡ false
      → (TtlCache.get s.queue.cache (empty_key z.name) now).1 ≡ none
      → due_count db
          (search_of db z.name owner (max_connections s.domains) c.normal s.queue now)
          s.queue.instance_id
          s.queue.store
        < c.fuel
      → (s' : Site S) × (r : Reply (Option Delivery)) × (find_next db c z owner s now
          ≡ some (s', r))
        × IsStep db
            (search_of db z.name owner (max_connections s.domains) c.normal s.queue now)
            s.queue.instance_id
            s.queue.locks
            0
            (answered s'.queue r)
  unfolding find_next get_next_delivery
  find_next_lem documented c z owner s now running unknown enough =
      let limits = max_connections s.domains in
      let (q, r, run, done) =
        shift_lem db documented c.fuel z.name owner limits c.normal s.queue now running unknown
          enough in
      let s' : Site S = record s { queue = q } in
      (
        (add_meta db s' r).0,
        (add_meta db s' r).1,
        rw (find_next, get_next_delivery, run) refl,
        add_meta_lem (search_of db z.name owner limits c.normal s.queue now) s.queue.instance_id
            s.queue.locks s' r done,
      )
