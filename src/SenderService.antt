-- ===== src/SenderService.antt =====
-- services/sender.js: the process of a zone, its requests to the queue server and its senders.
--
-- A callback is known by the number of its request, a sender by its connection number. The senders
-- that a timer of `spawnConnections` will make are `pending`.
pub mod Requests
pub mod Senders
mod Tests
use zone_mta.Prelude.{
  ℕ, zero, suc, ◌+◌, ◌-◌, String, ite, if◌then◌else◌, Bool, true, false, Option, none, some, List,
  [], ◌∷◌, ◌++◌, ltb, ℕ_discrete, length,
}
use zone_mta.Delivery.{Reply}

pub record Service (A : Type 0) : Type 0 where
  pub cmd_id : ℕ
  pub response_handlers : List ℕ
  pub sent : List ℕ
  pub called : List (ℕ × Reply A)
  pub closing : Bool
  pub senders : List ℕ
  pub pending : ℕ
  pub zone_counter : ℕ
  pub zone_connections : ℕ

abbrev pub init : {A : Type 0} → ℕ → Service A
init connections = record {
  cmd_id = 0;
  response_handlers = [];
  sent = [];
  called = [];
  closing = false;
  senders = [];
  pending = connections;
  zone_counter = 0;
  zone_connections = connections;
}

-- `has` and `delete` of a key of `responseHandlers`
unfoldable pub has_handler : ℕ → List ℕ → Bool
has_handler id [] = false
has_handler id (x ∷ xs) = ite (ℕ_discrete x id) true (has_handler id xs)

unfoldable pub delete_handler : ℕ → List ℕ → List ℕ
delete_handler id [] = []
delete_handler id (x ∷ xs) =
    let rest = delete_handler id xs in ite (ℕ_discrete x id) rest (x ∷ rest)

module _ {A : Type 0} where
  unfoldable pub send_command : Service A → Service A
  send_command s = record s {
    cmd_id = suc s.cmd_id;
    response_handlers = s.response_handlers ++ suc s.cmd_id ∷ [];
    sent = s.sent ++ suc s.cmd_id ∷ [];
  }

  -- `queueClient.onData`
  unfoldable pub on_data : Service A → ℕ → Reply A → Service A
  unfolding has_handler delete_handler
  on_data s req reply =
      if has_handler req s.response_handlers
      then record s {
        response_handlers = delete_handler req s.response_handlers;
        called = s.called ++ (req, reply) ∷ [];
      }
      else s

  -- A timer of `spawnConnections`
  unfoldable pub spawn_one : Service A → Service A
  spawn_one s =
      if ltb 0 s.pending
      then record s {
        pending = s.pending - 1;
        zone_counter = suc s.zone_counter;
        senders = s.senders ++ suc s.zone_counter ∷ [];
      }
      else s

-- The senders for which `i++ > connections` does not hold, from the value that `i` has.
unfoldable pub kept_senders : ℕ → ℕ → List ℕ → List ℕ
kept_senders connections i [] = []
kept_senders connections i (x ∷ xs) =
    let rest = kept_senders connections (suc i) xs in if ltb connections i then rest else x ∷ rest

module _ {A : Type 0} where
  -- The listener of `reload`, for the connections that the zone now has.
  unfoldable pub on_reload : Service A → ℕ → Service A
  unfolding kept_senders
  on_reload s connections =
      if ltb s.zone_connections connections
      then record s {
        pending = s.pending + (connections - s.zone_connections);
        zone_connections = connections;
      }
      else if ltb connections s.zone_connections
      then record s {
        senders = kept_senders connections 0 s.senders;
        zone_connections = connections;
      }
      else s

  -- The listener of the event `error` of a sender.
  unfoldable pub on_sender_error : Service A → Service A
  on_sender_error s = record s { closing = true; senders = [] }
