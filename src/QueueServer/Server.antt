-- ===== src/QueueServer/Server.antt =====
-- lib/queue-server.js: `createServer`, what happens to the connections of the server, one event at a time.
use zone_mta.Prelude.{
  ℕ, ◌-◌, String, Bool, true, Option, none, some, List, [], ◌∷◌, if◌then◌else◌, ◌==◌, ite,
  ℕ_discrete,
}
use zone_mta.Prelude.Maps
use zone_mta.Delivery.{Reply, failed, ok, Store}
use zone_mta.QueueLocker.{release_lock_owner}
use zone_mta.QueueLocker.Events.{fire}
use zone_mta.TtlCache
use zone_mta.MailQueue.{Cached, shared, same}
use zone_mta.SendingZone.{Zone, Site, turn}
use zone_mta.QueueServer.{
  Client, Command, get, release_entry, defer_entry, set_cache, get_cache, clear_cache,
  count_metrics, unknown, Job, search, other, Value, done, cached, Setup, run_job,
}

pub data Message : Type 0 where
  hello : String → Option String → Message
  request : Option String → Command → Message

pub record Waiting : Type 0 where
  pub connection : ℕ
  pub req : String
  pub job : Job

-- An answer without `req` is the one to a HELLO.
pub record Answer : Type 0 where
  pub connection : ℕ
  pub req : Option String
  pub body : Reply Value

-- `started` tells whether the server has its queue, `crashed` whether an error was thrown that
-- nothing catches.
pub record Server (S : Type 0) : Type 0 where
  pub site : Site S
  pub started : Bool
  pub crashed : Bool
  pub clients : ℕ → Option Client
  pub waiting : List Waiting
  pub sent : List Answer

pub data Event : Type 0 where
  opens closes : ℕ → Event
  says : ℕ → Message → Event
  runs : ℕ → Event
  turns cache_fires locks_fire : Event

-- What the handler does with a request: nothing, an answer at once, or a call with callbacks.
pub data Plan (S : Type 0) : Type 0 where
  ignored : Plan S
  answers : Site S → Reply Value → Plan S
  waits : Job → Plan S

abbrev pub owner_of : Client → String
owner_of client = elim client.ident [ none ↦ "" | some id ↦ id ]

abbrev pub put_client : ℕ → Option Client → (ℕ → Option Client) → ℕ → Option Client
put_client c client clients i = ite (ℕ_discrete c i) client (clients i)

-- `n` counts the requests that wait.
unfoldable pub waiting_at : ℕ → List Waiting → Option Waiting
waiting_at n [] = none
waiting_at n (w ∷ ws) = if n == 0 then some w else waiting_at (n - 1) ws

unfoldable pub without_at : ℕ → List Waiting → List Waiting
without_at n [] = []
without_at n (w ∷ ws) = if n == 0 then ws else w ∷ without_at (n - 1) ws

module _ {S : Type 0} where
  abbrev pub with_cache : Site S → TtlCache.Cache Cached → Site S
  with_cache s cache = record s { queue = record s.queue { cache = cache } }

  -- The request is refused where the client has no zone.
  abbrev pub waits_in_zone : Site S → Client → (Zone → Job) → Plan S
  waits_in_zone s client job = elim client.zone [
    | none ↦ answers s (failed "Zone not set")
    | some z ↦ waits (job z)
  ]

  unfoldable pub plan : Client → Command → Site S → ℕ → Plan S
  plan client get s now = waits_in_zone s client (λ z. search z (owner_of client))
  plan client (release_entry id seq lock) s now =
      waits_in_zone s client (λ z. other (release_entry id seq lock))
  plan client (defer_entry id seq lock ttl r) s now =
      waits_in_zone s client (λ z. other (defer_entry id seq lock ttl r))
  plan client (set_cache key value ttl) s now =
      answers
        (if same key ""
          then s
          else with_cache s
              (TtlCache.set s.queue.cache key
                (elim value [ none ↦ none | some v ↦ some (shared v) ]) ttl none now).0)
        (ok done)
  plan client (get_cache key) s now =
      let (cache, value) = TtlCache.get s.queue.cache key now in
      answers (with_cache s cache) (ok (cached value))
  plan client (clear_cache key) s now =
      answers (if same key "" then s else with_cache s (TtlCache.remove s.queue.cache key).0)
        (ok done)
  plan client count_metrics s now = answers s (ok done)
  plan client unknown s now = ignored
  plan client command s now = waits (other command)

  abbrev pub send : Server S → ℕ → Option String → Reply Value → Server S
  send v c req body = record v { sent = record { connection = c; req = req; body = body } ∷ v.sent }

  abbrev pub follow : Server S → ℕ → String → Plan S → Server S
  follow v c req ignored = v
  follow v c req (answers s body) = send (record v { site = s }) c (some req) body
  follow v c req (waits job) = record v {
    waiting = record { connection = c; req = req; job = job } ∷ v.waiting;
  }

  -- `client.onData` of an open client. After the answer to a HELLO that names no zone the socket is
  -- closed, which is an event of its own.
  unfoldable pub on_data : Setup → Server S → ℕ → Client → Message → ℕ → Server S
  unfolding plan
  on_data setup v c client (hello id none) now = record v {
    clients = put_client c (some (record client { ident = some id })) v.clients;
  }
  on_data setup v c client (hello id (some zone)) now =
      let found = Maps.get (setup.normal zone) setup.zones in
      let v' = record v {
        clients = put_client c (some (record { ident = some id; zone = found })) v.clients;
      } in
      elim found [
        | none ↦ send v' c none (failed "Selected Sending Zone does not exist")
        | some z ↦ v'
      ]
  on_data setup v c client (request none command) now = v
  on_data setup v c client (request (some req) command) now =
      if v.started
      then follow v c req (plan client command v.site now)
      else send v c (some req) (failed "Service not yet started")

  -- The events `close` and `error` of a client.
  unfoldable pub on_close : Server S → ℕ → Client → Server S
  on_close v c client =
      let v' = record v { clients = put_client c none v.clients } in
      elim client.ident [
        | none ↦ v'
        | some id ↦
            if v.started
            then record v' {
              site = record v.site {
                queue = record v.site.queue { locks = release_lock_owner v.site.queue.locks id };
              };
            }
            else record v { crashed = true }
      ]

  -- An answer is dropped where the client has gone.
  unfoldable pub deliver : Server S → Waiting → Reply Value → Server S
  deliver v w body = elim (v.clients w.connection) [
    | none ↦ v
    | some client ↦ send v w.connection (some w.req) body
  ]

module _ {S : Type 0} (db : Store S) where
  unfoldable pub run_waiting : Setup → Server S → ℕ → ℕ → Server S
  unfolding deliver waiting_at without_at
  run_waiting setup v n now = elim (waiting_at n v.waiting) [
    | none ↦ v
    | some w ↦ elim (run_job db setup w.job v.site now) [
      | none ↦ v
      | some (s, body) ↦ deliver (record v { site = s; waiting = without_at n v.waiting }) w body
    ]
  ]

  unfoldable pub step : Setup → Server S → ℕ × Event → Server S
  unfolding on_data on_close run_waiting
  step setup v (now, opens c) = record v {
    clients = put_client c (some (record { ident = none; zone = none })) v.clients;
  }
  step setup v (now, closes c) = elim (v.clients c) [ none ↦ v | some client ↦ on_close v c client ]
  step setup v (now, says c message) = elim (v.clients c) [
    | none ↦ v
    | some client ↦ on_data setup v c client message now
  ]
  step setup v (now, runs n) = run_waiting setup v n now
  step setup v (now, turns) = record v { site = turn v.site now }
  step setup v (now, cache_fires) = record v {
    site = with_cache v.site (TtlCache.fire_timer v.site.queue.cache now);
  }
  step setup v (now, locks_fire) =
      let locks = v.site.queue.locks in
      record v {
        site = record v.site {
          queue = record v.site.queue { locks = fire locks.lock_check_timer locks now };
        };
      }

  unfoldable pub run : Setup → Server S → List (ℕ × Event) → Server S
  unfolding step
  run setup v [] = v
  run setup v (e ∷ es) = run setup (step setup v e) es
