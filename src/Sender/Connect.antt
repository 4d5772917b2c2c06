-- ===== src/Sender/Connect.antt =====
-- lib/sender.js: `getConnection`, from the pool or by as many tries as it takes.
--
-- A connection is its identity. mx-connect and the SMTP client are not part of this code: `mx` is
-- what `mxConnect` answers, and `events` are the events of the connection that follows.
mod Words
pub mod Tries
pub mod Ends
pub mod Policy
pub mod Cached
pub mod Blocked
mod Tests
use Prim.Native.String.{String, ◌++◌}
use zone_mta.Prelude.{
  ℕ, zero, suc, ◌+◌, Bool, true, false, not, ◌&&◌, ◌||◌, Option, none, some, List, [], ◌∷◌,
  if◌then◌else◌, is_some,
}
use zone_mta.Bounces.{text_is, or_text}
use zone_mta.Bounces.Texts.{is_empty}
use zone_mta.ConnectionPool.{Pool, Conn, Taken, threw, nothing, handed}
use zone_mta.ConnectionPool.Events.{try_take}
use Words.{contains, has_phrase}

pub record Failure : Type 0 where
  pub message : String
  pub code : String
  pub cert : Bool
  pub reason : String
  pub response : String
  pub category : String
  pub temporary : Option Bool

-- A host that `mxConnect` has a socket to; `enforce` is `policyMatch.mode === 'enforce'`.
pub record Mx : Type 0 where
  pub host : String
  pub enforce : Bool

-- What `mxConnect` is told besides the delivery.
pub record Options : Type 0 where
  pub ignore_mx_hosts : List String
  pub mx_last_error : Option Failure

pub data Found : Type 0 where
  unreachable : Failure → Found
  reached : Mx → Found

-- The events of a connection: `error`, `end`, the end of the second after it (with whether the
-- socket is upgraded to TLS), the callback of `connect` (with `secure`), and that of `login`, which
-- comes at once where there is nothing to log in with.
pub data SmtpEvent : Type 0 where
  errs : Failure → SmtpEvent
  ends : SmtpEvent
  waited : Bool → SmtpEvent
  ready : Bool → SmtpEvent
  logged_in : Option Failure → SmtpEvent

-- What one try comes to: `_onError` is called, or the callback of `getConnection`.
pub data Settled : Type 0 where
  fails : Failure → Settled
  refuses : Failure → Settled
  opens : Settled

abbrev pub policy_text : String
policy_text = "Failed to establish a TLS connection to the MX server as requested by policy"

abbrev pub tls_required : Failure
tls_required = record {
  message = "TLS is required";
  code = "";
  cert = false;
  reason = "";
  response = "Policy error: " ++ policy_text;
  category = "policy";
  temporary = none;
}

abbrev pub closed_socket : Bool → Failure
closed_socket upgraded = record {
  message = "Unexpected socket close";
  code = if upgraded then "ETLS" else "";
  cert = false;
  reason = "";
  response = "";
  category = "";
  temporary = none;
}

-- The flags of a connection: `ended` is set while the second after `end` runs, `asked` once `login`
-- was called.
pub record Line : Type 0 where
  pub returned : Bool
  pub ended : Bool
  pub asked : Bool

abbrev pub new_line : Line
new_line = record { returned = false; ended = false; asked = false }

abbrev pub done : Line → Line
done l = record l { returned = true }

unfoldable pub on_event : Bool → Line → SmtpEvent → Line × Option Settled
on_event enforce l (errs err) = if l.returned then (l, none) else (done l, some (fails err))
on_event enforce l ends = if l.returned then (l, none) else (record l { ended = true }, none)
on_event enforce l (waited upgraded) =
    if l.returned || not l.ended then (l, none) else (done l, some (fails (closed_socket upgraded)))
on_event enforce l (ready secure) =
    if l.returned
    then (l, none)
    else if enforce && not secure
    then (done l, some (refuses tls_required))
    else (record l { asked = true }, none)
on_event enforce l (logged_in err) =
    if l.returned || not l.asked
    then (l, none)
    else (done l, some (elim err [ none ↦ opens | some e ↦ refuses e ]))

-- All that the events of a connection come to.
unfoldable pub settle : Bool → Line → List SmtpEvent → List Settled
unfolding on_event
settle enforce l [] = []
settle enforce l (e ∷ es) =
    let (l', settled) = on_event enforce l e in
    let rest = settle enforce l' es in elim settled [ none ↦ rest | some s ↦ s ∷ rest ]

-- `err` as `_onError` completes it
unfoldable pub complete : Mx → Failure → Failure
unfolding has_phrase
complete mx err =
    let lost =
      has_phrase
        ("disconnected" ∷ "before" ∷ "secure" ∷ "tls" ∷ "connection" ∷ "was" ∷ "established" ∷ [])
        err.message
      || err.cert in
    let told : Failure =
      if not lost
      then err
      else if mx.enforce
      then record err {
        response =
            "Policy error: "
            ++ policy_text
            ++ (if is_empty err.reason then "" else ". " ++ err.reason);
        category = "policy";
        temporary = some false;
      }
      else record err { code = "ETLS" } in
    record told {
      response =
          or_text told.response
            ("Nework error: Error connecting to " ++ mx.host ++ ". " ++ told.message);
      category = or_text told.category "network";
      temporary = elim told.temporary [ none ↦ some true | some t ↦ some t ];
    }

abbrev pub is_tls_error : Failure → Bool
is_tls_error err =
    text_is err.code "ETLS"
    || contains "ssl23_get_server_hello" err.message
    || contains "/deps/openssl" err.message
    || contains "ssl3_check" err.message
    || contains "ssl3_get_record" err.message
    || contains "ssl routines" err.message
    || text_is err.code "ECONNRESET"
