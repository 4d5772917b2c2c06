-- ===== src/DomainConfig/Lookups.antt =====
-- lib/sending-zone.js: what DomainConfig answers after its operations.
use zone_mta.Prelude.{
  String, ◌≡◌, refl, Option, none, some, [], ◌∷◌, length, ite, text_discrete, arith, Option-cases,
  inl, inr,
}
use zone_mta.Prelude.Maps
use zone_mta.Prelude.Maps.{Map, get-set, get-delete, DistinctKeys}
use zone_mta.DomainConfig.{
  Setting, DomainConfig, settings_of, set, get, remove, init, set_all, set_domains, ensure_defaults,
}

-- The settings that a domain has of its own.
abbrev pub own : DomainConfig → String → String → Option Setting
own c domain key = Maps.get key (settings_of domain c.domains)

abbrev pub or_default : Option Setting → Option Setting → Option Setting
or_default none d = d
or_default (some v) d = some v

pub get_of_own :
    (c : DomainConfig) (domain key : String)
    → get c domain key ≡ or_default (own c domain key) (Maps.get key c.defaults)
unfolding get Maps.get
get_of_own c domain key = ground arith

pub own-set :
    (c : DomainConfig) (domain key : String) (value : Setting) (d k : String)
    → own (set c domain key value) d k
      ≡ ite
          (text_discrete domain d)
          (ite (text_discrete key k) (some value) (own c d k))
          (own c d k)
unfolding set Maps.get
own-set c domain key value d k = ground (
  arith,
  get-set domain d (Maps.set key value (settings_of domain c.domains)) c.domains,
  get-set key k value (settings_of domain c.domains),
)

get_of_empty : (k : String) (m : Map Setting) → length m ≡ 0 → Maps.get k m ≡ none
unfolding Maps.get
get_of_empty k [] h = refl
get_of_empty k (e ∷ m) h = ground (arith, h)

remove-settings :
    (c : DomainConfig) (domain key : String) (s : Map Setting) (v : Setting) (d k : String)
    → Maps.get domain c.domains ≡ some s
    → Maps.get key s ≡ some v
    → own (remove c domain key) d k
      ≡ ite (text_discrete domain d) (Maps.get k (Maps.delete key s)) (own c d k)
unfolding remove Maps.get
remove-settings c domain key s v d k e f =
    rw (remove, e, f)
      (ground (
        arith,
        get-set domain d (Maps.delete key s) c.domains,
        get-delete domain d c.domains,
        get_of_empty k (Maps.delete key s),
      ))

pub own-remove :
    (c : DomainConfig) (domain key d k : String)
    → own (remove c domain key) d k
      ≡ ite (text_discrete domain d) (ite (text_discrete key k) none (own c d k)) (own c d k)
unfolding remove Maps.get
own-remove c domain key d k = elim (Option-cases (Maps.get domain c.domains)) [
  | inl e ↦ rw (remove, e) (ground (arith, e))
  | inr (s, e) ↦ elim (Option-cases (Maps.get key s)) [
    | inl f ↦ rw (remove, e, f) (ground (arith, e, f))
    | inr (v, f) ↦ ground (arith, remove-settings c domain key s v d k e f, get-delete key k s, e)
  ]
]

pub get_of_set :
    (c : DomainConfig) (domain key : String) (value : Setting) (d k : String)
    → get (set c domain key value) d k
      ≡ ite
          (text_discrete domain d)
          (ite (text_discrete key k) (some value) (get c d k))
          (get c d k)
unfolding set
get_of_set c domain key value d k = ground (
  arith,
  get_of_own (set c domain key value) d k,
  get_of_own c d k,
  own-set c domain key value d k,
)

defaults-remove :
    (c : DomainConfig) (domain key : String) → (remove c domain key).defaults ≡ c.defaults
unfolding remove
defaults-remove c domain key = ground arith

pub get_of_remove :
    (c : DomainConfig) (domain key d k : String)
    → get (remove c domain key) d k
      ≡ ite
          (text_discrete domain d)
          (ite (text_discrete key k) (Maps.get k c.defaults) (get c d k))
          (get c d k)
get_of_remove c domain key d k = ground (
  arith,
  get_of_own (remove c domain key) d k,
  get_of_own c d k,
  own-remove c domain key d k,
  defaults-remove c domain key,
)

defaults-set_all :
    (domain : String) (m : Map Setting) (c : DomainConfig)
    → (set_all domain m c).defaults ≡ c.defaults
unfolding set_all set
defaults-set_all domain [] c = refl
defaults-set_all domain ((key, value) ∷ m) c = defaults-set_all domain m (set c domain key value)

own-set_all :
    (domain : String) (m : Map Setting) (c : DomainConfig) (d k : String)
    → DistinctKeys m
    → own (set_all domain m c) d k
      ≡ ite (text_discrete domain d) (or_default (Maps.get k m) (own c d k)) (own c d k)
unfolding set_all Maps.get
own-set_all domain [] c d k h = ground arith
own-set_all domain ((key, value) ∷ m) c d k h = ground (
  arith,
  own-set_all domain m (set c domain key value) d k h.1,
  own-set c domain key value d k,
  h.0,
)

-- The keys of an object of objects are distinct.
abbrev pub IsObject : Map (Map Setting) → Type 0
IsObject [] = Unit
IsObject ((domain, settings) ∷ m) = DistinctKeys settings × (Maps.get domain m ≡ none) × IsObject m

defaults-set_domains :
    (m : Map (Map Setting)) (c : DomainConfig) → (set_domains m c).defaults ≡ c.defaults
unfolding set_domains
defaults-set_domains [] c = refl
defaults-set_domains ((domain, s) ∷ m) c = ground (
  arith,
  defaults-set_domains m (ite (text_discrete domain "default") c (set_all domain s c)),
  defaults-set_all domain s c,
)

own-set_domains :
    (m : Map (Map Setting)) (c : DomainConfig) (d k : String)
    → IsObject m
    → own (set_domains m c) d k
      ≡ ite
          (text_discrete d "default")
          (own c d k)
          (or_default (Maps.get k (settings_of d m)) (own c d k))
unfolding set_domains Maps.get
own-set_domains [] c d k h = ground arith
own-set_domains ((domain, s) ∷ m) c d k h = ground (
  arith,
  own-set_domains m (ite (text_discrete domain "default") c (set_all domain s c)) d k h.2,
  own-set_all domain s c d k h.0,
  h.1,
)

-- `get` on a fresh configuration answers what the options have for the domain and the key, the
-- domain `default` apart, and else the default of the key: `maxConnections` and `disabledAddresses`
-- always have one.
get-init :
    (options : Map (Map Setting)) (d k : String)
    → IsObject options
    → get (init options) d k
      ≡ or_default
          (ite (text_discrete d "default") none (Maps.get k (settings_of d options)))
          (Maps.get k (ensure_defaults (settings_of "defaults" options)))
unfolding init Maps.get
get-init options d k h =
    let start : DomainConfig = record {
      defaults = ensure_defaults (settings_of "defaults" options);
      domains = [];
    } in
    ground (
      arith,
      get_of_own (init options) d k,
      own-set_domains options start d k h,
      defaults-set_domains options start,
    )
