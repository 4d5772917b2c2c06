-- ===== src/DomainConfig.antt =====
-- lib/sending-zone.js: class DomainConfig, the settings of the domains, which all the zones share.
--
-- `disabledAddresses` is taken as a list for each domain. `get` gives a clone of a default and the
-- stored object of a domain; the callers of the stored object write it back by `set` or `remove`,
-- so it is a value here.
pub mod Lookups
use zone_mta.Prelude.{
  ℕ, String, ◌≡◌, Bool, Option, none, some, List, [], ◌∷◌, if◌then◌else◌, ◌==◌, length, ite,
  text_discrete,
}
use zone_mta.Prelude.Maps
use zone_mta.Prelude.Maps.{Map}

pub data Setting : Type 0 where
  number : ℕ → Setting
  text : String → Setting
  addresses : List String → Setting

pub record DomainConfig : Type 0 where
  pub defaults : Map Setting
  pub domains : Map (Map Setting)

-- The settings of a domain, empty where it has none.
abbrev pub settings_of : String → Map (Map Setting) → Map Setting
settings_of domain m = elim (Maps.get domain m) [ none ↦ [] | some settings ↦ settings ]

unfoldable pub set : DomainConfig → String → String → Setting → DomainConfig
set c domain key value = record c {
  domains = Maps.set domain (Maps.set key value (settings_of domain c.domains)) c.domains;
}

unfoldable pub get : DomainConfig → String → String → Option Setting
get c domain key = elim (Maps.get domain c.domains) [
  | none ↦ Maps.get key c.defaults
  | some settings ↦ elim (Maps.get key settings) [
    | none ↦ Maps.get key c.defaults
    | some value ↦ some value
  ]
]

unfoldable pub remove : DomainConfig → String → String → DomainConfig
remove c domain key = elim (Maps.get domain c.domains) [
  | none ↦ c
  | some settings ↦ elim (Maps.get key settings) [
    | none ↦ c
    | some value ↦
        let left = Maps.delete key settings in
        record c {
          domains =
              if length left == 0
              then Maps.delete domain c.domains
              else Maps.set domain left c.domains;
        }
  ]
]

-- `ensure defaults`
abbrev pub connections_or_five : Option Setting → Setting
connections_or_five none = number 5
connections_or_five (some (number n)) = if n == 0 then number 5 else number n
connections_or_five (some (text t)) = ite (text_discrete t "") (number 5) (text t)
connections_or_five (some (addresses xs)) = addresses xs

-- A number other than 0 becomes a list too, with no address in it.
abbrev pub as_addresses : Option Setting → Setting
as_addresses none = addresses []
as_addresses (some (number n)) = addresses []
as_addresses (some (text t)) = ite (text_discrete t "") (addresses []) (addresses (t ∷ []))
as_addresses (some (addresses xs)) = addresses xs

abbrev pub ensure_defaults : Map Setting → Map Setting
ensure_defaults m =
    Maps.set "disabledAddresses" (as_addresses (Maps.get "disabledAddresses" m))
      (Maps.set "maxConnections" (connections_or_five (Maps.get "maxConnections" m)) m)

unfoldable pub set_all : String → Map Setting → DomainConfig → DomainConfig
unfolding set
set_all domain [] c = c
set_all domain ((key, value) ∷ settings) c = set_all domain settings (set c domain key value)

unfoldable pub set_domains : Map (Map Setting) → DomainConfig → DomainConfig
unfolding set_all
set_domains [] c = c
set_domains ((domain, settings) ∷ options) c =
    set_domains options (ite (text_discrete domain "default") c (set_all domain settings c))

-- The constructor; `options.defaults` has the defaults.
unfoldable pub init : Map (Map Setting) → DomainConfig
unfolding set_domains
init options =
    set_domains options
      (record { defaults = ensure_defaults (settings_of "defaults" options); domains = [] })
