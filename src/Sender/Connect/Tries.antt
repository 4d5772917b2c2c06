-- ===== src/Sender/Connect/Tries.antt =====
-- lib/sender.js: `tryConnect` and the tries after it.
use Prim.Native.String.{String}
use zone_mta.Prelude.{
  ℕ, zero, suc, Bool, true, false, not, ◌&&◌, Option, none, some, List, [], ◌∷◌, ◌++◌,
  if◌then◌else◌,
}
use zone_mta.Bounces.{text_is}
use zone_mta.ConnectionPool.{Pool, Conn, handed}
use zone_mta.ConnectionPool.Events.{try_take}
use zone_mta.Sender.Connect.{
  Failure, Mx, Options, Found, unreachable, reached, SmtpEvent, Settled, fails, refuses, opens,
  settle, new_line, complete, is_tls_error,
}

-- What `getConnection` keeps between two tries.
pub record State : Type 0 where
  pub net_connected : Bool
  pub ignore_mx_hosts : List String
  pub mx_last_error : Option Failure
  pub ignore_tls : Bool

-- What a try meets: the pool with the test of an open connection, the answer of `mxConnect`, and
-- the events of the connection to a host, by whether TLS is passed over.
pub record World : Type 0 where
  pub pool : Pool
  pub alive : ℕ → Bool
  pub mx : Options → Found
  pub events : Mx → Bool → List SmtpEvent

-- What a try leads to: another one, the callback with a pooled connection, with a new one or with
-- an error, or nothing, where the events of the connection decide nothing.
pub data Next : Type 0 where
  again : State → Next
  reuses : Conn → Next
  connects : Mx → State → Next
  refused : Failure → State → Next
  hangs : Next

-- `_onError` of an error that is complete
unfoldable pub on_error : Mx → Failure → State → Next
unfolding complete
on_error mx err s =
    let told = complete mx err in
    if is_tls_error told && not s.ignore_tls && not mx.enforce
    then again (record s { ignore_tls = true })
    else if text_is told.code "ETIMEDOUT"
    then again (record s {
      ignore_mx_hosts = s.ignore_mx_hosts ++ mx.host ∷ [];
      mx_last_error = some told;
    })
    else refused told s

unfoldable pub on_settled : Mx → List Settled → State → Next
unfolding on_error
on_settled mx [] s = hangs
on_settled mx (fails err ∷ _) s = on_error mx err s
on_settled mx (refuses err ∷ _) s = refused err s
on_settled mx (opens ∷ _) s = connects mx s

-- A policy that asks for TLS is not passed over.
abbrev pub after_reached : Mx → State → State
after_reached mx s = record s {
  net_connected = true;
  ignore_tls = if mx.enforce && s.ignore_tls then false else s.ignore_tls;
}

unfoldable pub on_found : World → Found → State → Next
unfolding on_settled settle
on_found w (unreachable err) s = refused err s
on_found w (reached mx) s =
    let s' = after_reached mx s in
    on_settled mx (settle mx.enforce new_line (w.events mx s'.ignore_tls)) s'

abbrev pub options_of : State → Options
options_of s = record { ignore_mx_hosts = s.ignore_mx_hosts; mx_last_error = s.mx_last_error }

unfoldable pub try_connect : String → World → State → Next
unfolding on_found try_take
try_connect key w s = elim (try_take w.alive w.pool key).1 [
  | handed conn ↦ reuses conn
  | _ ↦ on_found w (w.mx (options_of s)) s
]

-- The tries, each in a world of its own, by how many are made at most and how many were made;
-- `none` where that ends.
unfoldable pub tries : ℕ → String → (ℕ → World) → ℕ → State → Option Next
unfolding try_connect
tries zero key world n s = none
tries (suc fuel) key world n s = elim (try_connect key (world n) s) [
  | again s' ↦ tries fuel key world (suc n) s'
  | next ↦ some next
]

abbrev pub first_state : Bool → State
first_state ignore_tls = record {
  net_connected = false;
  ignore_mx_hosts = [];
  mx_last_error = none;
  ignore_tls = ignore_tls;
}
