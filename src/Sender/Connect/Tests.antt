-- ===== src/Sender/Connect/Tests.antt =====
-- Runs of `getConnection` of lib/sender.js: concrete cases of its theorems.
use Prim.Native.String.{String}
use zone_mta.Prelude.{
  ℕ, ◌+◌, ◌*◌, ◌≡◌, refl, Bool, true, false, none, some, List, [], ◌∷◌, if◌then◌else◌, arith,
  length,
}
use zone_mta.Prelude.Maps
use zone_mta.Prelude.Sets.{has_text}
use zone_mta.ConnectionPool
use zone_mta.ConnectionPool.{find_timer}
use zone_mta.Sender.Connect.{
  Failure, Mx, Found, unreachable, reached, errs, ready, logged_in, settle,
}
use zone_mta.Sender.Connect.Tries.{World, Next, refused, connects, tries, first_state, options_of}
use zone_mta.Sender.Connect.Ends.{IsResolver, tries-ends}
use zone_mta.Sender.Connect.Policy.{IsPolicyKept, tries-IsPolicyKept}
use zone_mta.Sender.Connect.Cached.{cache_command, cache_key}
use zone_mta.Sender.Connect.Blocked.{blocked_lem}

abbrev failure : String → Failure
failure code = record {
  message = "Connection timeout";
  code = code;
  cert = false;
  reason = "";
  response = "";
  category = "";
  temporary = none;
}

-- The first host that is not passed over; the second one asks for TLS.
unfoldable resolve : List String → List String → Found
unfolding has_text
resolve [] ignored = unreachable (failure "ENOTFOUND")
resolve (h ∷ hs) ignored =
    if has_text h ignored then resolve hs ignored else reached (record { host = h; enforce = true })

resolve-known :
    (hosts ignored : List String) (mx : Mx)
    → resolve hosts ignored ≡ reached mx
    → (has_text mx.host hosts ≡ true) × (has_text mx.host ignored ≡ false)
unfolding resolve has_text
resolve-known [] ignored mx e = ground (arith, e)
resolve-known (h ∷ hs) ignored mx e = ground (arith, e, resolve-known hs ignored mx)

abbrev hosts : List String
hosts = "mx1.example.com" ∷ "mx2.example.com" ∷ []

-- Every connection times out.
abbrev slow : ℕ → World
slow i = record {
  pool = ConnectionPool.init;
  alive = λ n. false;
  mx = λ o. resolve hosts o.ignore_mx_hosts;
  events = λ mx plain. errs (failure "ETIMEDOUT") ∷ [];
}

slow-IsResolver : (i : ℕ) → IsResolver hosts (slow i)
slow-IsResolver i o mx e = resolve-known hosts o.ignore_mx_hosts mx e

tries-ends_example :
    (next : Next) × (tries
        (2 * length hosts + 2)
        "1.2.3.4:example.com:25"
        slow
        0
        (first_state false)
      ≡ some next)
tries-ends_example = tries-ends hosts "1.2.3.4:example.com:25" slow false slow-IsResolver

-- No host can be connected to.
abbrev nowhere : ℕ → World
nowhere i = record (slow i) { mx = λ o. unreachable (failure "ETIMEDOUT") }

nowhere-tries :
    tries 1 "1.2.3.4:example.com:25" nowhere 0 (first_state false)
    ≡ some (refused (failure "ETIMEDOUT") (first_state false))
unfolding tries Maps.get ConnectionPool.init
nowhere-tries = refl

-- A host that asks for TLS gets it.
abbrev strict : ℕ → World
strict i = record (slow i) { events = λ mx plain. ready true ∷ logged_in none ∷ [] }

abbrev strict_answer : Next
strict_answer =
    connects (record { host = "mx1.example.com"; enforce = true })
      (record (first_state false) { net_connected = true })

strict-tries : tries 1 "1.2.3.4:example.com:25" strict 0 (first_state false) ≡ some strict_answer
unfolding tries resolve settle Maps.get ConnectionPool.init
strict-tries = refl

tries-IsPolicyKept_example : IsPolicyKept strict strict_answer
tries-IsPolicyKept_example =
    tries-IsPolicyKept 1 "1.2.3.4:example.com:25" strict 0 (first_state false) strict_answer
      strict-tries

abbrev is_late : Failure → Bool
is_late err = true

blocked_lem_example :
    (err : Failure) × ((nowhere 0).mx (options_of (first_state false)) ≡ unreachable err)
    × (refused (failure "ETIMEDOUT") (first_state false) ≡ refused err (first_state false))
unfolding cache_command
blocked_lem_example =
    blocked_lem "default:domain:example.com:25" is_late 1 "1.2.3.4:example.com:25" nowhere false
      (refused (failure "ETIMEDOUT") (first_state false)) nowhere-tries refl

-- The key of a delivery to a domain with no MX of its own.
keyed :
    cache_key
      (record { zone = "default"; exchange = ""; domain = "example.com"; user = ""; port = "25" })
    ≡ "default:domain:example.com:25"
unfolding cache_key
keyed = refl
