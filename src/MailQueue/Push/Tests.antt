-- ===== src/MailQueue/Push/Tests.antt =====
-- Runs of `push` of lib/mail-queue.js on a database in memory.
use zone_mta.Prelude.{◌+◌, String, ◌≡◌, refl, Bool, false, none, some, List, [], ◌∷◌}
use zone_mta.Delivery.{Delivery, ok, count}
use zone_mta.QueueLocker
use zone_mta.TtlCache
use zone_mta.Routing.{no_routes}
use zone_mta.MailQueue.{Queue}
use zone_mta.MailQueue.Memory.{Memory, memory, memory-IsDocumented}
use zone_mta.MailQueue.Texts.{seq_text, without_brackets, domain_part}
use zone_mta.MailQueue.Push.{Pushed, push}
use zone_mta.MailQueue.Push.Split.{IsSplit, push_lem}

abbrev empty_queue : Queue Memory
empty_queue = record {
  store = record { rows = []; files = []; suppressed = [] };
  locks = QueueLocker.init;
  cache = TtlCache.init 0;
  closing = false;
  instance_id = "here";
}

abbrev as_is : String → String
as_is text = text

abbrev letter : Pushed
letter = record {
  id = "16a5";
  envelope = record {
    from = "me@c.example";
    header_from = "";
    to = "x@a.example" ∷ "y@[127.0.0.1]" ∷ [];
    sending_zone = some "default";
    origin = none;
    defer_delivery = some 20;
    session_id = none;
  };
  routes = no_routes;
  default_zone = "default";
  zone = none;
  route_hook = λ e r. ok r;
  now = 10;
}

push_lem_example :
    (ds : List Delivery) × IsSplit "16a5" letter.envelope 10 0
      ("x@a.example" ∷ "y@[127.0.0.1]" ∷ [])
      ds
    × ((r : Delivery → Bool)
        → count r (memory.rows (push memory empty_queue as_is letter).0.store) ≡ count r ds + 0)
unfolding push memory without_brackets domain_part
push_lem_example = push_lem memory memory-IsDocumented empty_queue as_is letter refl

seq_text_run : seq_text 26 ≡ "01a"
unfolding seq_text
seq_text_run = refl

-- The domains of the rows.
abbrev domains : List Delivery → List String
domains [] = []
domains (d ∷ ds) = d.domain ∷ domains ds

domains-push :
    domains (push memory empty_queue as_is letter).0.store.rows ≡ "a.example" ∷ "127.0.0.1" ∷ []
unfolding push memory without_brackets domain_part
domains-push = refl
