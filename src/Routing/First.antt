-- ===== src/Routing/First.antt =====
-- lib/sending-zone.js: a route leads to the first zone in the configuration that lists it.
use zone_mta.Prelude.{
  String, ◌≡◌, refl, ap, ◌∙◌, inl, inr, Bool, true, false, Option, none, some, List, [], ◌∷◌, arith,
  if◌then◌else◌, is_some, map, ite, text_discrete, Option-cases,
}
use zone_mta.Prelude.Maps
use zone_mta.Prelude.Maps.{Map, get-set}
use zone_mta.Prelude.Sets.{has_text}
use zone_mta.Routing.{
  Zone, Routes, no_routes, add_routes, start_zone, start_zones, init_zones, find_by_sender,
  find_by_recipient, find_by_origin,
}

-- The first zone that is not disabled and whose list has the key.
unfoldable pub first_zone : (Zone → List String) → String → List Zone → Option String
unfolding has_text
first_zone listed key [] = none
first_zone listed key (z ∷ zs) =
    let rest = first_zone listed key zs in
    if z.disabled then rest else if has_text key (listed z) then some z.name else rest

-- The first of two answers that is there.
abbrev or_else : Option String → Option String → Option String
or_else none b = b
or_else (some a) b = some a

or_else-none : (a : Option String) → a ≡ or_else a none
or_else-none none = refl
or_else-none (some a) = refl

or_else_assoc : (a b c : Option String) → or_else (or_else a b) c ≡ or_else a (or_else b c)
or_else_assoc none b c = refl
or_else_assoc (some a) b c = refl

get-add_route :
    (zone k : String) (m : Map String) (key : String)
    → Maps.get key (if is_some (Maps.get k m) then m else Maps.set k zone m)
      ≡ or_else (Maps.get key m) (ite (text_discrete k key) (some zone) none)
get-add_route zone k m key = elim (Option-cases (Maps.get k m)) [
  | inl e ↦ rw e (elim (text_discrete k key) [
    | yes same ↦ ground (arith, e, get-set k key zone m, same, ap (λ x. Maps.get x m) same)
    | no other ↦ ground (arith, e, get-set k key zone m, or_else-none (Maps.get key m), other)
  ])
  | inr (v, e) ↦ rw e (elim (text_discrete k key) [
    | yes same ↦ ground (arith, e, same, ap (λ x. Maps.get x m) same)
    | no other ↦ ground (arith, or_else-none (Maps.get key m), other)
  ])
]

either_listed :
    (zone k key : String) (keys : List String)
    → or_else
        (ite (text_discrete k key) (some zone) none)
        (if has_text key keys then some zone else none)
      ≡ (if has_text key (k ∷ keys) then some zone else none)
unfolding has_text
either_listed zone k key keys = ground arith

get-add_routes :
    (zone : String) (keys : List String) (m : Map String) (key : String)
    → Maps.get key (add_routes zone keys m)
      ≡ or_else (Maps.get key m) (if has_text key keys then some zone else none)
unfolding add_routes has_text
get-add_routes zone [] m key = or_else-none (Maps.get key m)
get-add_routes zone (k ∷ keys) m key =
    get-add_routes zone keys (if is_some (Maps.get k m) then m else Maps.set k zone m) key
    ∙ ap (λ a. or_else a (if has_text key keys then some zone else none))
        (get-add_route zone k m key)
    ∙ or_else_assoc (Maps.get key m) _ _
    ∙ ap (or_else (Maps.get key m)) (either_listed zone k key keys)

-- The lists of a zone as the maps have them.
abbrev pub senders_of : (String → String) → Zone → List String
senders_of to_ascii z = map to_ascii z.sender_domains

abbrev pub recipients_of : (String → String) → Zone → List String
recipients_of to_ascii z = map to_ascii z.recipient_domains

picked :
    (b : Bool) (f : Routes → Option String) (r r' : Routes) {a : Option String}
    → f r' ≡ a
    → f (if b then r else r') ≡ (if b then f r else a)
picked true f r r' h = refl
picked false f r r' h = h

-- What `start_zone` adds to one of the maps.
abbrev added : Zone → Map String → String → List String → Option String
added z m key keys =
    if z.disabled
    then Maps.get key m
    else or_else (Maps.get key m) (if has_text key keys then some z.name else none)

start_zone_lem :
    (to_ascii : String → String) (z : Zone) (r : Routes) (key : String)
    → (find_by_sender (start_zone to_ascii z r) key ≡ added z r.senders key (senders_of to_ascii z))
      × (find_by_recipient (start_zone to_ascii z r) key
          ≡ added z r.recipients key (recipients_of to_ascii z))
      × (find_by_origin (start_zone to_ascii z r) key ≡ added z r.origins key z.origin_addresses)
unfolding start_zone
start_zone_lem to_ascii z r key =
    let s = get-add_routes z.name (senders_of to_ascii z) r.senders key in
    let c = get-add_routes z.name (recipients_of to_ascii z) r.recipients key in
    let o = get-add_routes z.name z.origin_addresses r.origins key in
    (
      picked z.disabled (λ x. Maps.get key x.senders) _ _ s,
      picked z.disabled (λ x. Maps.get key x.recipients) _ _ c,
      picked z.disabled (λ x. Maps.get key x.origins) _ _ o,
    )

first_zone_step :
    (listed : Zone → List String) (z : Zone) (zs : List Zone) (key : String) (m : Map String)
    → or_else
        (if z.disabled
          then Maps.get key m
          else or_else (Maps.get key m) (if has_text key (listed z) then some z.name else none))
        (first_zone listed key zs)
      ≡ or_else (Maps.get key m) (first_zone listed key (z ∷ zs))
unfolding first_zone
first_zone_step listed z zs key m = elim (Option-cases (Maps.get key m)) [
  | inl e ↦ rw e (ground arith)
  | inr (v, e) ↦ rw e (ground arith)
]

start_zones_lem :
    (to_ascii : String → String) (zones : List Zone) (r : Routes) (key : String)
    → (find_by_sender (start_zones to_ascii zones r) key
        ≡ or_else (find_by_sender r key) (first_zone (senders_of to_ascii) key zones))
      × (find_by_recipient (start_zones to_ascii zones r) key
          ≡ or_else (find_by_recipient r key) (first_zone (recipients_of to_ascii) key zones))
      × (find_by_origin (start_zones to_ascii zones r) key
          ≡ or_else (find_by_origin r key) (first_zone (λ z. z.origin_addresses) key zones))
unfolding start_zones first_zone
start_zones_lem to_ascii [] r key = (
  or_else-none (find_by_sender r key),
  or_else-none (find_by_recipient r key),
  or_else-none (find_by_origin r key),
)
start_zones_lem to_ascii (z ∷ zs) r key =
    let (s, c, o) = start_zones_lem to_ascii zs (start_zone to_ascii z r) key in
    let (s', c', o') = start_zone_lem to_ascii z r key in
    (
      s
          ∙ ap (λ a. or_else a (first_zone (senders_of to_ascii) key zs)) s'
          ∙ first_zone_step (senders_of to_ascii) z zs key r.senders,
      c
          ∙ ap (λ a. or_else a (first_zone (recipients_of to_ascii) key zs)) c'
          ∙ first_zone_step (recipients_of to_ascii) z zs key r.recipients,
      o
          ∙ ap (λ a. or_else a (first_zone (λ z. z.origin_addresses) key zs)) o'
          ∙ first_zone_step (λ z. z.origin_addresses) z zs key r.origins,
    )

-- After `init` a look-up by sender, by recipient or by origin finds the first zone of the
-- configuration that is not disabled and lists the domain, made lower case and ASCII, or the
-- address; and nothing where there is no such zone.
init_zones_lem :
    (to_ascii : String → String) (zones : List Zone) (key : String)
    → (find_by_sender (init_zones to_ascii zones) key ≡ first_zone (senders_of to_ascii) key zones)
      × (find_by_recipient (init_zones to_ascii zones) key
          ≡ first_zone (recipients_of to_ascii) key zones)
      × (find_by_origin (init_zones to_ascii zones) key
          ≡ first_zone (λ z. z.origin_addresses) key zones)
unfolding init_zones Maps.get
init_zones_lem to_ascii zones key = start_zones_lem to_ascii zones no_routes key
