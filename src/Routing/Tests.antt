-- ===== src/Routing/Tests.antt =====
-- Runs of the routing maps of lib/sending-zone.js.
use zone_mta.Prelude.{String, ◌≡◌, refl, true, false, some, List, [], ◌∷◌, text_discrete}
use zone_mta.Prelude.Maps
use zone_mta.Routing.{Zone, init_zones, find_by_origin}
use zone_mta.Routing.Headers.{Line, start_headers, find_by_headers}
use zone_mta.Routing.Headers.Match.{last_line, first_match, find_by_headers_lem}

abbrev as_is : String → String
as_is text = text

-- The first zone that lists a.example is disabled, and two others list it.
abbrev zones : List Zone
zones =
    record {
      key = "off";
      name = "off";
      disabled = true;
      sender_domains = "a.example" ∷ [];
      recipient_domains = [];
      origin_addresses = [];
      routing_headers = [];
    }
    ∷ record {
      key = "bulk";
      name = "bulk";
      disabled = false;
      sender_domains = "a.example" ∷ [];
      recipient_domains = "b.example" ∷ [];
      origin_addresses = [];
      routing_headers = [];
    }
    ∷ record {
      key = "late";
      name = "late";
      disabled = false;
      sender_domains = "a.example" ∷ [];
      recipient_domains = [];
      origin_addresses = "127.0.0.1" ∷ [];
      routing_headers = ("X-Zone", "late") ∷ [];
    }
    ∷ []

find_by_origin-zones : find_by_origin (init_zones as_is zones) "127.0.0.1" ≡ some "late"
unfolding init_zones Maps.get Maps.set text_discrete
find_by_origin-zones = refl

abbrev lines : List Line
lines = record { key = "X-Zone"; value = "late" } ∷ record { key = "subject"; value = "hello" } ∷ []

find_by_headers_lem_example :
    find_by_headers as_is (start_headers as_is zones []) lines ≡ some "late"
unfolding last_line first_match text_discrete
find_by_headers_lem_example = find_by_headers_lem as_is zones lines
