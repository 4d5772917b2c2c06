-- ===== src/Routing/Headers.antt =====
-- lib/sending-zone.js: routing by the headers of a message. `init` fills `routingHeaders` zone by zone, and
-- `findByHeaders` reads it.
--
-- `normal` is `toLowerCase().trim()`; the value of a line is the text after its first colon.
pub mod Match
use zone_mta.Prelude.{
  String, ◌≡◌, refl, sym, ap, ◌∙◌, Bool, true, false, not, ◌&&◌, Option, none, some, List, [], ◌∷◌,
  arith, if◌then◌else◌, ◌==◌, is_some, length, ite, text_discrete, inl, inr, Option-cases,
  Bool-cases,
}
use zone_mta.Prelude.Maps
use zone_mta.Prelude.Maps.{Map, get-set}
use zone_mta.Routing.{Zone}

pub record Line : Type 0 where
  pub key : String
  pub value : String

abbrev pub Headers : Type 0
Headers = Map (Map String)

abbrev pub is_empty : String → Bool
is_empty t = ite (text_discrete t "") true false

abbrev pub values_of : String → Headers → Map String
values_of key m = elim (Maps.get key m) [ none ↦ [] | some values ↦ values ]

unfoldable pub add_header : (String → String) → String → String × String → Headers → Headers
add_header normal zone (key, value) m =
    let k = normal key in
    let v = normal value in
    if is_empty k
    then m
    else if is_empty v
    then m
    else Maps.set k
        (if is_some (Maps.get v (values_of k m))
          then values_of k m
          else Maps.set v zone (values_of k m))
        m

unfoldable pub add_headers : (String → String) → String → List (String × String) → Headers → Headers
unfolding add_header
add_headers normal zone [] m = m
add_headers normal zone (h ∷ hs) m = add_headers normal zone hs (add_header normal zone h m)

unfoldable pub start_headers : (String → String) → List Zone → Headers → Headers
unfolding add_headers
start_headers normal [] m = m
start_headers normal (z ∷ zs) m =
    start_headers normal zs
      (if z.disabled then m else add_headers normal z.name z.routing_headers m)

abbrev pub zone_of : (String → String) → Headers → Line → Option String
zone_of normal m l = elim (Maps.get l.key m) [
  | none ↦ none
  | some values ↦ Maps.get (normal l.value) values
]

-- The loop, from the last line up.
unfoldable pub find_line : (String → String) → Headers → List Line → Option String
find_line normal m [] = none
find_line normal m (l ∷ ls) = elim (find_line normal m ls) [
  | none ↦ zone_of normal m l
  | some zone ↦ some zone
]

unfoldable pub find_by_headers : (String → String) → Headers → List Line → Option String
unfolding find_line
find_by_headers normal m lines = if length m == 0 then none else find_line normal m lines
