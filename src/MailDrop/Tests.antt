-- ===== src/MailDrop/Tests.antt =====
-- Runs of lib/mail-drop.js on a database in memory.
use zone_mta.Prelude.{◌≡◌, refl, true, none, some, [], ◌∷◌}
use zone_mta.Delivery.{ok, failed}
use zone_mta.Routing.{no_routes}
use zone_mta.MailQueue.Memory.{Memory, memory, memory-IsDocumented}
use zone_mta.MailQueue.Samples.{idle_queue, as_is}
use zone_mta.MailQueue.Push.{Envelope}
use zone_mta.MailDrop.{Drop, stored, add}
use zone_mta.MailDrop.Added.{IsAdded, add-IsAdded}

abbrev letter : Envelope
letter = record {
  from = "me@c.example";
  header_from = "";
  to = "x@a.example" ∷ "y@b.example" ∷ [];
  sending_zone = some "default";
  origin = none;
  defer_delivery = none;
  session_id = none;
}

abbrev drop : Drop Memory
drop = record {
  ready = true;
  store_hook = none;
  store = λ q. (q, stored);
  queue_hook = λ e. ok e;
  meta_of = λ e. [];
  pushed = λ e. record {
    id = "16a7";
    envelope = e;
    routes = no_routes;
    default_zone = "default";
    zone = none;
    route_hook = λ e r. ok r;
    now = 10;
  };
  normal = as_is;
}

add-IsAdded_example :
    IsAdded memory memory-IsDocumented drop idle_queue letter
      (add memory drop idle_queue "16a7" letter)
add-IsAdded_example =
    add-IsAdded memory memory-IsDocumented drop idle_queue "16a7" letter (λ q. refl)

-- A message that the plugins refuse.
abbrev refusing : Drop Memory
refusing = record drop { queue_hook = λ e. failed "Rejected" }

rejected : (add memory refusing idle_queue "16a7" letter).1 ≡ failed "Rejected"
unfolding add
rejected = refl
