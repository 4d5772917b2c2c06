-- ===== src/Routing.antt =====
-- lib/sending-zone.js: the maps that route a message to a sending zone. `init` fills them from the
-- configuration, zone by zone, and the `find` functions read them.
--
-- A zone is its `name`; `key` is the one that it has in the configuration, of which `name` is
-- `toLowerCase().trim()`. `to_ascii` is `punycode.toASCII(domain.toLowerCase().trim())`, and the
-- domains of a zone are a list, as the code makes it one. Zones with `disabled` are passed over.
pub mod First
pub mod Headers
mod Tests
use zone_mta.Prelude.{
  ℕ, String, Bool, true, false, Option, none, some, List, [], ◌∷◌, if◌then◌else◌, is_some, map,
}
use zone_mta.Prelude.Maps
use zone_mta.Prelude.Maps.{Map}

pub record Zone : Type 0 where
  pub key : String
  pub name : String
  pub disabled : Bool
  pub sender_domains : List String
  pub recipient_domains : List String
  pub origin_addresses : List String
  pub routing_headers : List (String × String)

pub record Routes : Type 0 where
  pub zones : Map Zone
  pub senders : Map String
  pub recipients : Map String
  pub origins : Map String

abbrev pub no_routes : Routes
no_routes = record { zones = []; senders = []; recipients = []; origins = [] }

-- `if (!map.has(key)) map.set(key, zone)` for each key
unfoldable pub add_routes : String → List String → Map String → Map String
add_routes zone [] m = m
add_routes zone (key ∷ keys) m =
    add_routes zone keys (if is_some (Maps.get key m) then m else Maps.set key zone m)

-- `startNextZone`
unfoldable pub start_zone : (String → String) → Zone → Routes → Routes
unfolding add_routes
start_zone to_ascii z r = if z.disabled then r else record {
  zones = Maps.set z.key z r.zones;
  senders = add_routes z.name (map to_ascii z.sender_domains) r.senders;
  recipients = add_routes z.name (map to_ascii z.recipient_domains) r.recipients;
  origins = add_routes z.name z.origin_addresses r.origins;
}

unfoldable pub start_zones : (String → String) → List Zone → Routes → Routes
unfolding start_zone
start_zones to_ascii [] r = r
start_zones to_ascii (z ∷ zs) r = start_zones to_ascii zs (start_zone to_ascii z r)

unfoldable pub init_zones : (String → String) → List Zone → Routes
unfolding start_zones
init_zones to_ascii zones = start_zones to_ascii zones no_routes

-- `findBySender`, `findByRecipient` and `findByOrigin`; `none` where the code has false
abbrev pub find_by_sender : Routes → String → Option String
find_by_sender r domain = Maps.get domain r.senders

abbrev pub find_by_recipient : Routes → String → Option String
find_by_recipient r domain = Maps.get domain r.recipients

abbrev pub find_by_origin : Routes → String → Option String
find_by_origin r origin = Maps.get origin r.origins
