-- ===== src/Sender/Turns.antt =====
-- lib/sender.js: `sendNext`, one delivery of a sender from its request to the next one.
--
-- The state of a turn is the flags of `sendNext` and what it waits for: each of the other flags
-- stands for a callback or a timer that may still come.
pub mod Once
use zone_mta.Prelude.{ℕ, suc, Bool, true, false, not, ◌&&◌, ◌||◌, List, [], ◌∷◌, if◌then◌else◌}

-- `asking` waits for the answer to GET, `fetching` for the hook `sender:fetch`, `suppressing` for
-- the release of a suppressed delivery, `pausing` for a timer of 1 or 1.5 seconds, `throttled` for
-- the speedometer, `connecting` for the connection (and `connect_timer` for its ten seconds),
-- `preparing` for the hook `sender:headers`, `sending` for the client, `releasing` for the answer
-- to RELEASE, `thanking` for the hook `sender:delivered`, `reporting` for the hook
-- `sender:responseError`, `resolving` for `handleResponseError`, `listening` for events of the
-- connection and `ending` for the second after its end. `continued` counts the calls of `sendNext`
-- that follow, `handled` the errors that are handled.
pub record Turn : Type 0 where
  pub sending_done : Bool
  pub response_sent : Bool
  pub connection_done : Bool
  pub closing : Bool
  pub crashed : Bool
  pub asking : Bool
  pub fetching : Bool
  pub suppressing : Bool
  pub pausing : Bool
  pub throttled : Bool
  pub connecting : Bool
  pub connect_timer : Bool
  pub preparing : Bool
  pub sending : Bool
  pub releasing : Bool
  pub thanking : Bool
  pub reporting : Bool
  pub resolving : Bool
  pub listening : Bool
  pub ending : Bool
  pub continued : ℕ
  pub handled : ℕ

abbrev pub first_turn : Turn
first_turn = record {
  sending_done = false;
  response_sent = false;
  connection_done = false;
  closing = false;
  crashed = false;
  asking = true;
  fetching = false;
  suppressing = false;
  pausing = false;
  throttled = false;
  connecting = false;
  connect_timer = false;
  preparing = false;
  sending = false;
  releasing = false;
  thanking = false;
  reporting = false;
  resolving = false;
  listening = false;
  ending = false;
  continued = 0;
  handled = 0;
}

pub data Event : Type 0 where
  get_fails get_nothing get_delivery : Event
  fetch_fails fetch_suppresses fetch_passes : Event
  suppressed_released pause_ends speed_allows : Event
  connect_timer_fires connect_fails connects_http connects_smtp : Event
  line_errs line_ends end_waited : Event
  headers_fail headers_pass : Event
  send_fails send_succeeds : Event
  release_fails release_succeeds delivered_hooked : Event
  error_hooked error_closes error_resolved : Event

-- `continueSending` and `handleError`
unfoldable pub continue_sending : Turn → Turn
continue_sending t =
    if t.sending_done then t else record t { sending_done = true; continued = suc t.continued }

unfoldable pub handle_error : Turn → Turn
handle_error t =
    if t.response_sent
    then t
    else record t { response_sent = true; reporting = true; handled = suc t.handled }

-- The handler of the event `error` of a connection. It counts until a message was sent or something failed.
unfoldable pub on_line_error : Turn → Turn
unfolding handle_error
on_line_error t =
    if t.listening && not t.connection_done
    then handle_error (record t { connection_done = true })
    else t

-- The handler of `end`, and what it does a second later: it reads `err.message` of the `err` that
-- was null when the connection was made, and nothing catches what that throws.
unfoldable pub on_line_end : Turn → Turn
on_line_end t = if t.listening && not t.connection_done then record t { ending = true } else t

unfoldable pub on_end_waited : Turn → Turn
on_end_waited t =
    if t.ending && not t.connection_done
    then record t { ending = false; connection_done = true; crashed = true }
    else record t { ending = false }

-- An error of the hook `sender:headers`. A target for HTTP has no `close`, so that its call throws.
unfoldable pub on_headers_error : Turn → Turn
unfolding handle_error
on_headers_error t =
    let closed : Turn = record t { preparing = false; connection_done = true } in
    if not t.preparing
    then t
    else if t.listening
    then handle_error closed
    else record closed { crashed = true }

-- The callback of the client, with an error or not, and that of the release.
unfoldable pub on_sent : Turn → Bool → Turn
unfolding handle_error
on_sent t failed =
    let sent : Turn = record t { sending = false; connection_done = true } in
    if not t.sending
    then t
    else if failed
    then handle_error sent
    else record sent { releasing = true }

unfoldable pub on_released : Turn → Bool → Turn
on_released t failed =
    let released : Turn = record t { releasing = false } in
    if not t.releasing
    then t
    else if failed
    then record released { closing = true }
    else record released { thanking = true }

unfoldable pub step : Turn → Event → Turn
unfolding continue_sending handle_error on_line_error on_line_end on_end_waited on_headers_error
    on_sent on_released
step t get_fails = if t.asking then record t { asking = false; pausing = true } else t
step t get_nothing = if t.asking then record t { asking = false; pausing = true } else t
step t get_delivery = if t.asking then record t { asking = false; fetching = true } else t
step t fetch_fails = if t.fetching then handle_error (record t { fetching = false }) else t
step t fetch_suppresses =
    if t.fetching then record t { fetching = false; suppressing = true } else t
step t fetch_passes = if t.fetching then record t { fetching = false; throttled = true } else t
step t suppressed_released =
    if t.suppressing then record t { suppressing = false; pausing = true } else t
step t pause_ends = if t.pausing then continue_sending (record t { pausing = false }) else t
step t speed_allows =
    if t.throttled
    then record t { throttled = false; connecting = true; connect_timer = true }
    else t
step t connect_timer_fires =
    if t.connect_timer then continue_sending (record t { connect_timer = false }) else t
step t connect_fails =
    if t.connecting
    then handle_error (record t { connecting = false; connect_timer = false })
    else t
step t connects_http =
    if t.connecting
    then record t { connecting = false; connect_timer = false; preparing = true }
    else t
step t connects_smtp =
    if t.connecting
    then record t { connecting = false; connect_timer = false; preparing = true; listening = true }
    else t
step t line_errs = on_line_error t
step t line_ends = on_line_end t
step t end_waited = on_end_waited t
step t headers_fail = on_headers_error t
step t headers_pass = if t.preparing then record t { preparing = false; sending = true } else t
step t send_fails = on_sent t true
step t send_succeeds = on_sent t false
step t release_fails = on_released t true
step t release_succeeds = on_released t false
step t delivered_hooked = if t.thanking then continue_sending (record t { thanking = false }) else t
step t error_hooked = if t.reporting then record t { reporting = false; resolving = true } else t
step t error_closes = if t.resolving then record t { resolving = false; closing = true } else t
step t error_resolved = if t.resolving then continue_sending (record t { resolving = false }) else t

unfoldable pub run : Turn → List Event → Turn
unfolding step
run t [] = t
run t (e ∷ es) = run (step t e) es
