-- ===== src/SendingZone/Blacklist.antt =====
-- lib/sending-zone.js: an address that a domain refused is disabled for it, until `removeFromBlacklist`.
use zone_mta.Prelude.{
  String, ◌≡◌, refl, ap, ◌∙◌, true, false, some, List, [], ◌∷◌, ◌++◌, ◌==◌, length, ite,
  text_discrete, arith, inl, inr, Bool-cases,
}
use zone_mta.Prelude.Maps
use zone_mta.Prelude.Sets.{has_text}
use zone_mta.DomainConfig
use zone_mta.DomainConfig.{DomainConfig, Setting, addresses}
use zone_mta.DomainConfig.Lookups.{get_of_set, get_of_remove}
use zone_mta.SendingZone.{
  addresses_of, disabled_addresses, splice, remove_from_blacklist, add_disabled,
}

splice-append :
    (address : String) (xs : List String)
    → has_text address xs ≡ false
    → splice address (xs ++ address ∷ []) ≡ xs
unfolding splice has_text
splice-append address [] h = ground arith
splice-append address (x ∷ xs) h = ground (arith, splice-append address xs, h)

disabled-add_disabled :
    (c : DomainConfig) (domain address : String)
    → disabled_addresses (add_disabled c domain address) domain
      ≡ disabled_addresses c domain ++ address ∷ []
disabled-add_disabled c domain address = ground (
  arith,
  get_of_set c domain "disabledAddresses" (addresses (disabled_addresses c domain ++ address ∷ []))
      domain "disabledAddresses",
)

has_added : (address : String) (xs : List String) → has_text address (xs ++ address ∷ []) ≡ true
unfolding has_text
has_added address [] = ground arith
has_added address (x ∷ xs) = ground (arith, has_added address xs)

defaults-add_disabled :
    (c : DomainConfig) (domain address : String)
    → Maps.get "disabledAddresses" (add_disabled c domain address).defaults
      ≡ Maps.get "disabledAddresses" c.defaults
unfolding DomainConfig.set
defaults-add_disabled c domain address = refl

restored :
    (c c' : DomainConfig) (domain address : String) (xs : List String) (d k : String)
    → DomainConfig.get c domain "disabledAddresses" ≡ some (addresses xs)
    → DomainConfig.get c' d k
      ≡ ite
          (text_discrete domain d)
          (ite
            (text_discrete "disabledAddresses" k)
            (some (addresses xs))
            (DomainConfig.get (add_disabled c domain address) d k))
          (DomainConfig.get (add_disabled c domain address) d k)
    → DomainConfig.get c' d k ≡ DomainConfig.get c d k
restored c c' domain address xs d k e h =
    let added = addresses (disabled_addresses c domain ++ address ∷ []) in
    ground (arith, get_of_set c domain "disabledAddresses" added d k, e, h)

-- Where the disabled addresses of a domain are a list without the address, which is not empty or is
-- the default one too, then after the address was added and removed again every setting of every
-- domain is what it was.
pub get-remove_from_blacklist :
    (c : DomainConfig) (domain address : String) (xs : List String) (d k : String)
    → DomainConfig.get c domain "disabledAddresses" ≡ some (addresses xs)
    → has_text address xs ≡ false
    → (length xs ≡ 0 → Maps.get "disabledAddresses" c.defaults ≡ some (addresses xs))
    → DomainConfig.get (remove_from_blacklist (add_disabled c domain address) domain address) d k
      ≡ DomainConfig.get c d k
unfolding remove_from_blacklist
get-remove_from_blacklist c domain address xs d k e free default =
    let was : disabled_addresses c domain ≡ xs = ap addresses_of e in
    let more : disabled_addresses (add_disabled c domain address) domain ≡ xs ++ address ∷ [] =
      disabled-add_disabled c domain address ∙ ap (λ ys. ys ++ address ∷ []) was in
    let has = has_added address xs in
    let left = splice-append address xs free in
    elim (Bool-cases (length xs == 0)) [
      | inl empty ↦
          rw (remove_from_blacklist, more, has, left, empty)
            (restored c
              (DomainConfig.remove (add_disabled c domain address) domain "disabledAddresses")
              domain address xs d k e
              (ground (
                arith,
                get_of_remove (add_disabled c domain address) domain "disabledAddresses" d k,
                defaults-add_disabled c domain address,
                default (ground (arith, empty)),
              )))
      | inr filled ↦
          rw (remove_from_blacklist, more, has, left, filled)
            (restored c
              (DomainConfig.set (add_disabled c domain address) domain "disabledAddresses"
                (addresses xs))
              domain address xs d k e
              (get_of_set (add_disabled c domain address) domain "disabledAddresses" (addresses xs)
                d k))
    ]
