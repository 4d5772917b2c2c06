-- ===== src/Routing/Headers/Match.antt =====
-- lib/sending-zone.js: a header leads to the first zone of the configuration that has it.
use zone_mta.Prelude.{
  String, ◌≡◌, refl, ap, ◌∙◌, Bool, true, false, not, ◌&&◌, Option, none, some, List, [], ◌∷◌,
  arith, if◌then◌else◌, is_some, length, ite, text_discrete, inl, inr, Option-cases,
}
use zone_mta.Prelude.Maps
use zone_mta.Prelude.Maps.{Map, get-set}
use zone_mta.Routing.{Zone}
use zone_mta.Routing.Headers.{
  Line, Headers, is_empty, values_of, add_header, add_headers, start_headers, zone_of, find_line,
  find_by_headers,
}

-- The configuration of a zone has the header of the line.
abbrev pub is_match : (String → String) → Line → String × String → Bool
is_match normal l (key, value) =
    not (is_empty (normal key))
    && not (is_empty (normal value))
    && ite (text_discrete (normal key) l.key) true false
    && ite (text_discrete (normal value) (normal l.value)) true false

unfoldable pub has_match : (String → String) → Line → List (String × String) → Bool
has_match normal l [] = false
has_match normal l (h ∷ hs) = if is_match normal l h then true else has_match normal l hs

-- The first zone of the configuration that is not disabled and has the header of the line.
unfoldable pub first_match : (String → String) → Line → List Zone → Option String
unfolding has_match
first_match normal l [] = none
first_match normal l (z ∷ zs) =
    let rest = first_match normal l zs in
    if z.disabled then rest else if has_match normal l z.routing_headers then some z.name else rest

-- The answer for the last line that has one.
unfoldable pub last_line : (Line → Option String) → List Line → Option String
last_line f [] = none
last_line f (l ∷ ls) = elim (last_line f ls) [ none ↦ f l | some zone ↦ some zone ]

abbrev or_else : Option String → Option String → Option String
or_else none b = b
or_else (some a) b = some a

or_else-none : (a : Option String) → or_else a none ≡ a
or_else-none none = refl
or_else-none (some a) = refl

-- What a header leads to; the empty map stands for a key that is not there.
abbrev lookup : String → String → Headers → Option String
lookup key value m = Maps.get value (values_of key m)

zone_of-lookup :
    (normal : String → String) (m : Headers) (l : Line)
    → zone_of normal m l ≡ lookup l.key (normal l.value) m
unfolding Maps.get
zone_of-lookup normal m l = ground arith

values_of-set :
    (k j : String) (values : Map String) (m : Headers)
    → values_of j (Maps.set k values m) ≡ ite (text_discrete k j) values (values_of j m)
values_of-set k j values m = ground (arith, get-set k j values m)

lookup-set :
    (k v j w zone : String) (m : Headers)
    → lookup j w (
        Maps.set k
          (if is_some (Maps.get v (values_of k m))
            then values_of k m
            else Maps.set v zone (values_of k m))
          m)
      ≡ or_else (lookup j w m) (
          if ite (text_discrete k j) true false && ite (text_discrete v w) true false
          then some zone
          else none)
lookup-set k v j w zone m = elim (text_discrete k j) [
  | no other ↦ ground (
    arith,
    values_of-set k j (values_of k m) m,
    values_of-set k j (Maps.set v zone (values_of k m)) m,
    other,
    or_else-none (lookup j w m),
  )
  | yes here ↦ rw (← here) (elim (Option-cases (Maps.get v (values_of k m))) [
    | inl e ↦ rw e (
        ground (
          arith,
          values_of-set k k (Maps.set v zone (values_of k m)) m,
          get-set v w zone (values_of k m),
          ap (λ x. Maps.get x (values_of k m)),
          or_else-none (lookup k w m),
          e,
        ))
    | inr (z, e) ↦
        rw e (ground (arith, values_of-set k k (values_of k m) m, or_else-none (lookup k w m), e))
  ])
]

zone_of-add_header :
    (normal : String → String) (zone : String) (h : String × String) (m : Headers) (l : Line)
    → zone_of normal (add_header normal zone h m) l
      ≡ or_else (zone_of normal m l) (if is_match normal l h then some zone else none)
unfolding add_header Maps.get
zone_of-add_header normal zone (key, value) m l = ground (
  arith,
  zone_of-lookup normal m l,
  zone_of-lookup normal (add_header normal zone (key, value) m) l,
  lookup-set (normal key) (normal value) l.key (normal l.value) zone m,
  or_else-none (lookup l.key (normal l.value) m),
)

zone_of-add_headers :
    (normal : String → String) (zone : String) (hs : List (String × String)) (m : Headers)
    (l : Line)
    → zone_of normal (add_headers normal zone hs m) l
      ≡ or_else (zone_of normal m l) (if has_match normal l hs then some zone else none)
unfolding add_headers has_match
zone_of-add_headers normal zone [] m l = ground arith
zone_of-add_headers normal zone (h ∷ hs) m l = ground (
  arith,
  zone_of-add_headers normal zone hs (add_header normal zone h m) l,
  zone_of-add_header normal zone h m l,
)

zone_of-start_headers :
    (normal : String → String) (zones : List Zone) (m : Headers) (l : Line)
    → zone_of normal (start_headers normal zones m) l
      ≡ or_else (zone_of normal m l) (first_match normal l zones)
unfolding start_headers first_match
zone_of-start_headers normal [] m l = ground arith
zone_of-start_headers normal (z ∷ zs) m l = ground (
  arith,
  zone_of-start_headers normal zs
      (if z.disabled then m else add_headers normal z.name z.routing_headers m) l,
  zone_of-add_headers normal z.name z.routing_headers m l,
)

last_line-agree :
    (f g : Line → Option String) (lines : List Line)
    → ((l : Line) → f l ≡ g l)
    → last_line f lines ≡ last_line g lines
unfolding last_line
last_line-agree f g [] h = refl
last_line-agree f g (l ∷ ls) h = ground (arith, last_line-agree f g ls h, h l)

find_line_lem :
    (normal : String → String) (m : Headers) (lines : List Line)
    → find_line normal m lines ≡ last_line (zone_of normal m) lines
unfolding find_line last_line
find_line_lem normal m [] = refl
find_line_lem normal m (l ∷ ls) = ground (arith, find_line_lem normal m ls)

find_line-empty :
    (normal : String → String) (m : Headers) (lines : List Line)
    → length m ≡ 0
    → find_line normal m lines ≡ none
unfolding find_line Maps.get
find_line-empty normal [] [] h = refl
find_line-empty normal [] (l ∷ ls) h = ground (arith, find_line-empty normal [] ls h)
find_line-empty normal (e ∷ m) lines h = ground (arith, h)

-- After `init`, `findByHeaders` answers the zone for the last line of the message for which the
-- configuration has one: the first zone that is not disabled and has the key of the line with its
-- value, both made lower case and trimmed, and not empty. Without such a line it answers nothing.
pub find_by_headers_lem :
    (normal : String → String) (zones : List Zone) (lines : List Line)
    → find_by_headers normal (start_headers normal zones []) lines
      ≡ last_line (λ l. first_match normal l zones) lines
unfolding find_by_headers Maps.get
find_by_headers_lem normal zones lines =
    let m = start_headers normal zones [] in
    let found =
      find_line_lem normal m lines
      ∙ last_line-agree (zone_of normal m) (λ l. first_match normal l zones) lines
          (λ l. zone_of-start_headers normal zones [] l) in
    ground (arith, found, find_line-empty normal m lines)
