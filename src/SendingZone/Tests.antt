-- ===== src/SendingZone/Tests.antt =====
-- Runs of the domain settings and the address pools of lib/sending-zone.js.
use zone_mta.Prelude.{ℕ, String, ◌≡◌, refl, false, none, some, [], ◌∷◌, arith, text_discrete}
use zone_mta.Prelude.Maps
use zone_mta.Prelude.Maps.{Map}
use zone_mta.Prelude.Sets.{has_text}
use zone_mta.TtlCache
use zone_mta.DomainConfig
use zone_mta.DomainConfig.{DomainConfig, Setting, number, addresses, ensure_defaults, settings_of}
use zone_mta.MailQueue.Samples.{first_row, idle_queue}
use zone_mta.MailQueue.Memory.{Memory}
use zone_mta.SendingZone.{
  Zone, Site, Response, hash_key, get_address, add_disabled, remove_from_blacklist,
  disabled_addresses, block, turn,
}
use zone_mta.SendingZone.Pools.{IsPicked, get_address-IsPicked}
use zone_mta.SendingZone.Blacklist.{get-remove_from_blacklist}

-- Defaults, and a domain with a limit and an address that is disabled.
abbrev options : Map (Map Setting)
options =
    ("default", ("maxConnections", number 20) ∷ [])
    ∷ (
      "a.example",
      ("maxConnections", number 2) ∷ ("disabledAddresses", addresses ("1.2.3.4" ∷ [])) ∷ [],
    )
    ∷ []

-- The defaults that the configuration has under `default` are not read.
default_unread :
    DomainConfig.get (DomainConfig.init options) "b.example" "maxConnections" ≡ some (number 5)
unfolding DomainConfig.get Maps.get DomainConfig.init text_discrete Maps.set
default_unread = refl

get-remove_from_blacklist_example :
    DomainConfig.get
      (remove_from_blacklist
        (add_disabled (DomainConfig.init options) "a.example" "1.2.3.5")
        "a.example"
        "1.2.3.5")
      "a.example"
      "disabledAddresses"
    ≡ DomainConfig.get (DomainConfig.init options) "a.example" "disabledAddresses"
unfolding DomainConfig.get Maps.get DomainConfig.init text_discrete Maps.set has_text
get-remove_from_blacklist_example =
    get-remove_from_blacklist (DomainConfig.init options) "a.example" "1.2.3.5" ("1.2.3.4" ∷ [])
      "a.example" "disabledAddresses" refl refl (λ h. ground (arith, h))

abbrev zone : Zone
zone = record {
  name = "default";
  pool_hash = "";
  ipv4_pool =
      record { address = "1.2.3.4"; name = "a" } ∷ record { address = "1.2.3.5"; name = "b" } ∷ [];
  ipv6_pool = [];
}

abbrev crc32 : String → ℕ
crc32 t = 7

get_address-IsPicked_example :
    IsPicked
      ("1.2.3.4" ∷ [])
      zone.ipv4_pool
      (get_address crc32 zone first_row none false ("1.2.3.4" ∷ []))
unfolding hash_key text_discrete Maps.get
get_address-IsPicked_example =
    get_address-IsPicked crc32 zone first_row none false ("1.2.3.4" ∷ []) "16a5.001" refl
      (omega arith)

picked_enabled :
    get_address crc32 zone first_row none false ("1.2.3.4" ∷ [])
    ≡ some (record { address = "1.2.3.5"; name = "b" }, false)
unfolding get_address text_discrete Maps.get
picked_enabled = refl

-- A refused address is disabled, and free again once its entry in the cache has ended.
abbrev refused : Response
refused = record { category = "blacklist"; address = "1.2.3.4"; response = none; log = none }

abbrev site : Site Memory
site = record { queue = idle_queue; domains = DomainConfig.init [] }

blocked_then_free :
    (disabled_addresses (block site first_row refused 60 10).domains "a.example" ≡ "1.2.3.4" ∷ [])
    × (disabled_addresses
          (let s = turn (block site first_row refused 60 10) 10 in
            turn
              (turn
                (record s {
                  queue = record s.queue { cache = TtlCache.fire_timer s.queue.cache 80 };
                })
                80)
              80).domains
          "a.example"
        ≡ [])
unfolding DomainConfig.get Maps.get block text_discrete has_text DomainConfig.init Maps.set turn
    TtlCache.run_pending TtlCache.fire_timer TtlCache.set TtlCache.init remove_from_blacklist
    DomainConfig.remove Maps.delete
blocked_then_free = (refl, refl)
