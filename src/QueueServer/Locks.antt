-- ===== src/QueueServer/Locks.antt =====
-- lib/queue-server.js: the locks through whatever happens to the server.
use zone_mta.Prelude.{
  either, ℕ, String, ◌≡◌, true, none, some, List, [], ◌∷◌, Option-cases, inl, inr, subst,
}
use zone_mta.Prelude.Maps
use zone_mta.Delivery.{Reply, Store}
use zone_mta.QueueLocker.Held.{holder}
use zone_mta.QueueLocker.Owners.Keeps.{unless_owner, holder-release_lock_owner}
use zone_mta.QueueLocker.Reachable.{IsSound, release_lock_owner-IsSound, fire-IsSound}
use zone_mta.MailQueue.{same}
use zone_mta.SendingZone.{Zone, Site, turn}
use zone_mta.QueueServer.{
  Client, Command, get, count_metrics, release_entry, defer_entry, set_cache, get_cache,
  clear_cache, Job, search, other, Value, Setup, run_job,
}
use zone_mta.QueueServer.Sound.{HasLocks, Ends, run_job-Ends}
use zone_mta.QueueServer.Server.{
  Message, hello, request, Waiting, Server, Event, opens, closes, says, runs, turns, cache_fires,
  locks_fire, Plan, ignored, answers, waits, follow, plan, on_data, on_close, deliver, owner_of,
  waits_in_zone, waiting_at, without_at, run_waiting, step, run,
}

module _ {S : Type 0} where
  abbrev PlansSound : Plan S → Type 0
  PlansSound (answers s body) = HasLocks s
  PlansSound _ = Unit

  in_zone :
      (client : Client) (s : Site S) (job : Zone → Job)
      → HasLocks s
      → PlansSound (waits_in_zone s client job)
  in_zone client s job h = elim (Option-cases client.zone) [
    | inl e ↦ rw (waits_in_zone, e) h
    | inr (z, e) ↦ rw (waits_in_zone, e) tt
  ]

module _ {S : Type 0} (db : Store S) where
  plan-PlansSound :
      (client : Client) (command : Command) (s : Site S) (now : ℕ)
      → HasLocks s
      → PlansSound (plan client command s now)
  unfolding plan
  plan-PlansSound client command s now h = elim command as (λ k. PlansSound (plan client k s now)) [
    | get ↦ in_zone client s (λ z. search z (owner_of client)) h
    | release_entry id seq lock ↦ in_zone client s (λ z. other (release_entry id seq lock)) h
    | defer_entry id seq lock ttl r ↦
        in_zone client s (λ z. other (defer_entry id seq lock ttl r)) h
    | set_cache key value ttl ↦ either HasLocks (same key "") _ _ h h
    | clear_cache key ↦ either HasLocks (same key "") _ _ h h
    | get_cache key ↦ h
    | count_metrics ↦ h
    | _ ↦ tt
  ]

  follow_sound :
      (v : Server S) (c : ℕ) (req : String) (p : Plan S)
      → HasLocks v.site
      → PlansSound p
      → HasLocks (follow v c req p).site
  follow_sound v c req ignored h k = h
  follow_sound v c req (answers s body) h k = k
  follow_sound v c req (waits job) h k = h

  on_data_sound :
      (setup : Setup) (v : Server S) (c : ℕ) (client : Client) (m : Message) (now : ℕ)
      → HasLocks v.site
      → HasLocks (on_data setup v c client m now).site
  unfolding on_data
  on_data_sound setup v c client (hello id none) now h = h
  on_data_sound setup v c client (hello id (some zone)) now h =
      elim (Option-cases (Maps.get (setup.normal zone) setup.zones)) [
        | inl e ↦ rw (on_data, e) h
        | inr (z, e) ↦ rw (on_data, e) h
      ]
  on_data_sound setup v c client (request none command) now h = h
  on_data_sound setup v c client (request (some req) command) now h =
      either (λ (x : Server S). HasLocks x.site) v.started _ _
        (follow_sound v c req (plan client command v.site now) h
          (plan-PlansSound client command v.site now h))
        h

  on_close_sound :
      (v : Server S) (c : ℕ) (client : Client)
      → HasLocks v.site
      → HasLocks (on_close v c client).site
  unfolding on_close
  on_close_sound v c client h = elim (Option-cases client.ident) [
    | inl e ↦ rw (on_close, e) h
    | inr (id, e) ↦
        rw (on_close, e)
          (either (λ (x : Server S). HasLocks x.site) v.started _ _
            (release_lock_owner-IsSound v.site.queue.locks id h) h)
  ]

  deliver_sound :
      (v : Server S) (w : Waiting) (body : Reply Value)
      → HasLocks v.site
      → HasLocks (deliver v w body).site
  unfolding deliver
  deliver_sound v w body h = elim (Option-cases (v.clients w.connection)) [
    | inl e ↦ rw (deliver, e) h
    | inr (client, e) ↦ rw (deliver, e) h
  ]

  run_waiting_sound :
      (setup : Setup) (v : Server S) (n now : ℕ)
      → HasLocks v.site
      → HasLocks (run_waiting db setup v n now).site
  unfolding run_waiting
  run_waiting_sound setup v n now h = elim (Option-cases (waiting_at n v.waiting)) [
    | inl e ↦ rw (run_waiting, e) h
    | inr (w, e) ↦
        let ended = run_job-Ends db setup w.job v.site now h in
        elim (Option-cases (run_job db setup w.job v.site now)) [
          | inl f ↦ rw (run_waiting, e, f) h
          | inr ((s, body), f) ↦
              rw (run_waiting, e, f)
                (deliver_sound (record v { site = s; waiting = without_at n v.waiting }) w body
                  (subst Ends f ended))
        ]
  ]

  step_sound :
      (setup : Setup) (v : Server S) (e : ℕ × Event)
      → HasLocks v.site
      → HasLocks (step db setup v e).site
  unfolding step turn
  step_sound setup v (now, opens c) h = h
  step_sound setup v (now, closes c) h = elim (Option-cases (v.clients c)) [
    | inl e ↦ rw (step, e) h
    | inr (client, e) ↦ rw (step, e) (on_close_sound v c client h)
  ]
  step_sound setup v (now, says c m) h = elim (Option-cases (v.clients c)) [
    | inl e ↦ rw (step, e) h
    | inr (client, e) ↦ rw (step, e) (on_data_sound setup v c client m now h)
  ]
  step_sound setup v (now, runs n) h = run_waiting_sound setup v n now h
  step_sound setup v (now, turns) h = h
  step_sound setup v (now, cache_fires) h = h
  step_sound setup v (now, locks_fire) h =
      fire-IsSound v.site.queue.locks.lock_check_timer v.site.queue.locks now h

  -- Whatever the clients do, the database answers and the timers bring, in any order, the locks of
  -- the server stay sound if they were.
  pub server-IsSound :
      (setup : Setup) (v : Server S) (es : List (ℕ × Event))
      → IsSound v.site.queue.locks
      → IsSound (run db setup v es).site.queue.locks
  unfolding run
  server-IsSound setup v [] h = h
  server-IsSound setup v (e ∷ es) h =
      server-IsSound setup (step db setup v e) es (step_sound setup v e h)

  -- After any such run, once the server has its queue, when a client goes that had given its id, no
  -- key is held by this id, and every other lock is held as before.
  pub closes-unless_owner :
      (setup : Setup) (v : Server S) (es : List (ℕ × Event)) (c : ℕ) (client : Client)
      (id key : String) (now : ℕ)
      → IsSound v.site.queue.locks
      → (run db setup v es).clients c ≡ some client
      → client.ident ≡ some id
      → (run db setup v es).started ≡ true
      → holder key (step db setup (run db setup v es) (now, closes c)).site.queue.locks
        ≡ unless_owner id (holder key (run db setup v es).site.queue.locks)
  unfolding step on_close
  closes-unless_owner setup v es c client id key now h e f ready =
      rw (step, e, on_close, f, ready)
        (holder-release_lock_owner (run db setup v es).site.queue.locks id key
          (server-IsSound setup v es h).consistent)
