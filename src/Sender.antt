-- ===== src/Sender.antt =====
-- lib/sender.js: what a sender does with a delivery that failed.
--
-- A text or a number that is absent is empty, or 0. `httpResponse` is `none` where it is the text '-'.
pub mod Attempts
pub mod Handled
pub mod Connect
pub mod Turns
mod Tests
use Prim.Native.String.{◌++◌}
use zone_mta.Prelude.{
  ℕ, zero, suc, ◌+◌, ◌*◌, String, Bool, true, false, not, Option, none, some, if◌then◌else◌, ltb,
  leb, ◌==◌, ◌&&◌, ◌||◌, List, [], ◌∷◌, map, length,
}
use zone_mta.Delivery.{Reply, failed, ok, Delivery, Deferred}
use zone_mta.SendingZone.{Response}
use zone_mta.QueueServer.{Command, release_entry, defer_entry, Value, nothing}
use zone_mta.Bounces.{Verdict, Origin, text_is, or_text, can_send_bounce}
use zone_mta.Bounces.Texts.{is_empty, starts_with_code, format_smtp_response}

-- `DEFAULT_DEFER_TIMES`, for the times of the configuration
unfoldable pub default_defer_times : Option (List ℕ) → List ℕ
default_defer_times (some times) = times
default_defer_times none =
    map (λ v. v * 60 * 1000)
      (5 ∷ 7 ∷ 8 ∷ 25 ∷ 75 ∷ 120 ∷ 240 ∷ 240 ∷ 240 ∷ 240 ∷ 240 ∷ 240 ∷ 240 ∷ 240 ∷ 240 ∷ 240 ∷ 240
        ∷ [])

-- An error of a delivery.
pub record Problem : Type 0 where
  pub protocol : String
  pub http_response : Option ℕ
  pub response : String
  pub message : String
  pub category : String
  pub temporary : Bool
  pub action : String
  pub response_code : ℕ
  pub logtrail : Option String

-- What the handler reads of a delivery besides its row. `envelope_from` is `(delivery.envelope &&
-- delivery.envelope.from) || delivery.from`; `defer_times` is empty where it is not a list, and
-- `address` is the local address of the connection or of the zone; `logtrail` is that of the
-- connection, where there is one.
pub record Job : Type 0 where
  pub row : Delivery
  pub origin : Origin
  pub envelope_from : String
  pub address : String
  pub logtrail : Option String
  pub pool_disabled : Bool
  pub defer_times : List ℕ

abbrev pub is_client_error : Option ℕ → Bool
is_client_error none = false
is_client_error (some n) = leb 400 n && ltb n 500

abbrev pub text_of : Problem → String
text_of err = or_text err.response err.message

-- `bounce`, by the rules of bounces.js where nothing else decides
unfoldable pub classify : (String → String → Verdict) → Problem → Verdict
unfolding starts_with_code
classify check err =
    if text_is err.protocol "http"
    then record {
      action = if is_client_error err.http_response then "reject" else "defer";
      category = "http";
      message = text_of err;
      code = elim err.http_response [ none ↦ 0 | some n ↦ n ];
      status = none;
      line = none;
    }
    else if text_is err.category "dns"
        || text_is err.category "network"
        || text_is err.category "policy"
    then record {
      action = if err.temporary || text_is err.action "defer" then "defer" else "reject";
      category = err.category;
      message = text_of err;
      code = 0;
      status = none;
      line = none;
    }
    else if err.response_code == 0 && not (starts_with_code (text_of err))
    then record {
      action = "defer";
      category = "network";
      message = text_of err;
      code = 0;
      status = none;
      line = none;
    }
    else check (text_of err) err.category

-- The action that an error asks for goes first; a sender that is on a blacklist gives up where it
-- has no other address, and on bounce messages.
unfoldable pub final_action : Verdict → Problem → Job → String
final_action bounce err job =
    if text_is bounce.category "blacklist" && (job.pool_disabled || is_empty job.envelope_from)
    then "reject"
    else or_text err.action bounce.action

abbrev pub deferred_count : Option Deferred → ℕ
deferred_count none = 0
deferred_count (some r) = r.count

unfoldable pub times_of : List ℕ → List ℕ → List ℕ
times_of defaults [] = defaults
times_of defaults (t ∷ ts) = t ∷ ts

-- `deferTimes[n]`, `none` past the end
unfoldable pub time_at : ℕ → List ℕ → Option ℕ
time_at n [] = none
time_at zero (t ∷ ts) = some t
time_at (suc n) (t ∷ ts) = time_at n ts

-- What `handleResponseError` decides.
pub data Decision : Type 0 where
  defers : ℕ → Verdict → Decision
  rejects : Verdict → Decision

abbrev pub decided : (String → String → Verdict) → Job → Problem → Verdict
decided check job err = record (classify check err) {
  action = final_action (classify check err) err job;
}

unfoldable pub decide : (String → String → Verdict) → List ℕ → Job → Problem → Decision
unfolding classify final_action times_of time_at
decide check defaults job err =
    let bounce = decided check job err in
    if text_is (final_action (classify check err) err job) "reject"
    then rejects bounce
    else elim (time_at (deferred_count job.row.deferred) (times_of defaults job.defer_times)) [
      | none ↦ rejects bounce
      | some ttl ↦ defers ttl bounce
    ]

abbrev pub optional : String → Option String
optional s = if is_empty s then none else some s

abbrev pub response_of : Verdict → Job → Problem → Response
response_of bounce job err = record {
  category = bounce.category;
  address = job.address;
  response = optional (format_smtp_response (text_of err));
  log = elim job.logtrail [ none ↦ err.logtrail | some log ↦ some log ];
}

-- The request of `deferDelivery` or of `releaseDelivery` to the queue server
unfoldable pub request : Decision → Job → Problem → Command
unfolding format_smtp_response
request (defers ttl bounce) job err =
    defer_entry job.row.id job.row.seq job.row.lock ttl (response_of bounce job err)
request (rejects bounce) job err = release_entry job.row.id job.row.seq job.row.lock

-- The request of `sendBounceMessage`, by the part of it that tells which delivery failed, and why.
pub record BounceRequest : Type 0 where
  pub id : String
  pub seq : String
  pub from : String
  pub to : String
  pub return_path : String
  pub category : String
  pub response : String

unfoldable pub send_bounce_message : Job → Verdict → Problem → Option BounceRequest
unfolding can_send_bounce format_smtp_response
send_bounce_message job bounce err =
    if can_send_bounce job.origin
    then some (record {
      id = job.row.id;
      seq = job.row.seq;
      from = job.origin.from;
      to = job.row.recipient;
      return_path = job.origin.from;
      category = bounce.category;
      response = format_smtp_response (text_of err);
    })
    else none

-- Whether an answer of the queue server is truthy.
abbrev pub is_truthy : Value → Bool
is_truthy nothing = false
is_truthy _ = true

-- What the callbacks of `handleResponseError` do: the sender closes with an error that it emits, or
-- its next delivery is asked for, and a bounce message may be sent.
pub data Outcome : Type 0 where
  closes : String → Outcome
  continues : Option BounceRequest → Outcome

unfoldable pub on_reply : Decision → Job → Problem → Reply Value → Outcome
unfolding send_bounce_message
on_reply decision job err (failed e) = closes e
on_reply (defers ttl bounce) job err (ok v) = continues none
on_reply (rejects bounce) job err (ok v) =
    continues (if is_truthy v then send_bounce_message job bounce err else none)

-- The callback of the request of a bounce message: the error that closes the sender.
abbrev pub on_bounce_reply : Reply Value → Option String
on_bounce_reply (failed e) = some e
on_bounce_reply (ok v) = none
