-- ===== src/Sender/Connect/Cached.antt =====
-- lib/sender.js: `getConnectionWithCache`, the connection of a delivery, and the host that is
-- blocked for a while after a try that found no socket.
use Prim.Native.String.{String, ◌++◌}
use zone_mta.Prelude.{ℕ, ◌*◌, Bool, true, false, Option, none, some, List, [], ◌∷◌, if◌then◌else◌}
use zone_mta.Delivery.{Reply, failed, ok}
use zone_mta.Bounces.{or_text}
use zone_mta.Bounces.Texts.{is_empty}
use zone_mta.Sender.Connect.{Failure}
use zone_mta.Sender.Connect.Tries.{Next, reuses, connects, refused}

-- `[…].filter(val => val).join(':')`
unfoldable pub join_colons : List String → String
join_colons [] = ""
join_colons (s ∷ ss) =
    let rest = join_colons ss in
    if is_empty s then rest else if is_empty rest then s else s ++ ":" ++ rest

-- What the key is made of: the zone, the first exchange or the domain, the user and the port.
pub record Target : Type 0 where
  pub zone : String
  pub exchange : String
  pub domain : String
  pub user : String
  pub port : String

unfoldable pub cache_key : Target → String
unfolding join_colons
cache_key t =
    t.zone ++ ":" ++ join_colons ("domain" ∷ or_text t.exchange t.domain ∷ t.user ∷ t.port ∷ [])

-- What is sent to the queue server once there is an answer.
pub data CacheCommand : Type 0 where
  sets : String → Failure → ℕ → CacheCommand
  clears : String → CacheCommand

-- `timed_out` tells whether the last error of mx-connect has ETIMEDOUT as its code or number.
unfoldable pub block_ttl : Bool → ℕ
block_ttl timed_out = if timed_out then 15 * 60 * 1000 else 2 * 60 * 1000

unfoldable pub cache_command : String → (Failure → Bool) → Next → Option CacheCommand
unfolding block_ttl
cache_command key timed_out (refused err s) =
    some (if s.net_connected then clears key else sets key err (block_ttl (timed_out err)))
cache_command key timed_out (reuses conn) = some (clears key)
cache_command key timed_out (connects mx s) = some (clears key)
cache_command key timed_out _ = none

-- How the callback is called: with a target URL, with an error, or as `getConnection` does.
pub data Given : Type 0 where
  http_target : String → Given
  refuses_at_once : String → Given
  blocked_host : Failure → Given
  connection : Option Next → Given

-- `url` is the target of a delivery by HTTP, empty where it has none; `cached` is the answer to
-- GETCACHE, an error that was stored or nothing.
unfoldable pub get_connection_with_cache :
    Option String → Reply (Option Failure) → Option Next → Given
get_connection_with_cache (some url) cached found =
    if is_empty url
    then refuses_at_once "No target URL defined for HTTP message"
    else http_target url
get_connection_with_cache none (failed e) found = refuses_at_once e
get_connection_with_cache none (ok (some err)) found = blocked_host err
get_connection_with_cache none (ok none) found = connection found

-- Whether a host is blocked.
abbrev pub is_set : Option CacheCommand → Bool
is_set (some (sets key err ttl)) = true
is_set _ = false
