-- ===== src/QueueServer/Tests.antt =====
-- Runs of the server of lib/queue-server.js on the sample queue.
use zone_mta.Prelude.{
  ℕ, ◌+◌, ◌≡◌, refl, true, false, Option, none, some, List, [], ◌∷◌, arith, is_some, ℕ_discrete,
  text_discrete,
}
use zone_mta.Prelude.Maps
use zone_mta.Delivery.{Delivery, Reply, ok}
use zone_mta.QueueLocker
use zone_mta.QueueLocker.Held.{holder}
use zone_mta.QueueLocker.Owners.Keeps.{unless_owner}
use zone_mta.QueueLocker.Reachable.{init-IsSound}
use zone_mta.MailQueue.{answered, search_of, shift}
use zone_mta.Prelude.Sets.{has_text}
use zone_mta.TtlCache
use zone_mta.MailQueue.Samples.{idle_queue, as_is}
use zone_mta.MailQueue.Shift.{IsStep}
use zone_mta.MailQueue.Memory.{Memory, memory, memory-IsDocumented}
use zone_mta.Routing.{no_routes}
use zone_mta.DomainConfig
use zone_mta.SendingZone.{Zone, Site, max_connections, get_next_delivery}
use zone_mta.QueueServer.{Client, get, get_cache, unknown, Setup, find_next, merged, run_job}
use zone_mta.QueueServer.Server.{
  Server, Event, opens, closes, says, runs, hello, request, step, run,
}
use zone_mta.QueueServer.Answers.{sent_to, waiting_of, asked, answered_once}
use zone_mta.QueueServer.Locks.{closes-unless_owner}
use zone_mta.QueueServer.Taken.{find_next_lem}

abbrev default_zone : Zone
default_zone = record { name = "default"; pool_hash = ""; ipv4_pool = []; ipv6_pool = [] }

abbrev setup : Setup
setup = record {
  fuel = 4;
  normal = as_is;
  new_id = λ n. "16a6";
  blacklist_ttl = 21600000;
  zones = ("default", default_zone) ∷ [];
  routes = no_routes;
  default_zone = "default";
  route_hook = λ e r. ok r;
}

abbrev site : Site Memory
site = record { queue = idle_queue; domains = DomainConfig.init [] }

abbrev ready : Server Memory
ready = record {
  site = site;
  started = true;
  crashed = false;
  clients = λ c. none;
  waiting = [];
  sent = [];
}

-- A sender says hello and asks for a delivery.
abbrev asking : List (ℕ × Event)
asking =
    (5, opens 1)
    ∷ (6, says 1 (hello "s1" (some "default")))
    ∷ (7, says 1 (request (some "r1") get))
    ∷ []

-- The search ends after its sender has gone: the lock stays with the sender.
left_locked :
    is_some (
      holder "lock 16a5 002"
        (run memory setup
          (run memory setup ready asking)
          ((8, closes 1) ∷ (9, runs 0) ∷ [])).site.queue.locks)
    ≡ true
unfolding run run_job get_next_delivery shift TtlCache.get TtlCache.init Maps.get Maps.set memory
    has_text ℕ_discrete text_discrete QueueLocker.list_skip_domains QueueLocker.release_lock_owner
    QueueLocker.init QueueLocker.lock merged Maps.delete
left_locked = refl

-- A client that gives its id and goes before the server has its queue ends the process.
crashed_early :
    (run memory setup
      (record ready { started = false })
      ((5, opens 1) ∷ (6, says 1 (hello "s1" none)) ∷ (7, closes 1) ∷ [])).crashed
    ≡ true
unfolding run ℕ_discrete
crashed_early = refl

abbrev sender : Client
sender = record { ident = some "s1"; zone = some default_zone }

-- The client of connection 1 has said hello.
abbrev greeted : Server Memory
greeted = record ready { clients = λ c. some sender }

-- It asks for a delivery and reads the cache; the delivery comes last.
abbrev busy : List (ℕ × Event)
busy =
    (7, says 1 (request (some "r1") get))
    ∷ (8, says 1 (request (some "r2") (get_cache "k")))
    ∷ (8, says 2 (request (some "r1") unknown))
    ∷ (8, closes 2)
    ∷ (9, runs 0)
    ∷ []

answered_once_example :
    sent_to 1 "r1" (run memory setup greeted busy).sent
      + waiting_of 1 "r1" (run memory setup greeted busy).waiting
    ≡ asked 1 "r1" busy + (sent_to 1 "r1" [] + waiting_of 1 "r1" [])
answered_once_example =
    answered_once memory setup 1 "r1" greeted busy refl refl
      (refl, (refl, (refl, (refl, (refl, tt)))))

-- The search has ended.
abbrev served : List (ℕ × Event)
served = (7, says 1 (request (some "r1") get)) ∷ (9, runs 0) ∷ []

closes-unless_owner_example :
    holder "lock 16a5 002"
      (step memory setup (run memory setup greeted served) (10, closes 1)).site.queue.locks
    ≡ unless_owner "s1" (holder "lock 16a5 002" (run memory setup greeted served).site.queue.locks)
unfolding run run_job get_next_delivery shift TtlCache.get TtlCache.init Maps.get Maps.set memory
    has_text ℕ_discrete text_discrete QueueLocker.list_skip_domains QueueLocker.release_lock_owner
    QueueLocker.init QueueLocker.lock merged Maps.delete
closes-unless_owner_example =
    closes-unless_owner memory setup greeted served 1 sender "s1" "lock 16a5 002" 10 init-IsSound
      refl refl refl

find_next_lem_example :
    (s' : Site Memory) × (r : Reply (Option Delivery)) × (find_next memory setup default_zone "s1"
        site 10
      ≡ some (s', r))
    × IsStep memory
        (search_of memory "default" "s1" (max_connections site.domains) as_is idle_queue 10)
        "here"
        QueueLocker.init
        0
        (answered s'.queue r)
unfolding TtlCache.get TtlCache.init Maps.get memory QueueLocker.list_skip_domains QueueLocker.init
    text_discrete has_text
find_next_lem_example =
    find_next_lem memory memory-IsDocumented setup default_zone "s1" site 10 refl refl (omega arith)
