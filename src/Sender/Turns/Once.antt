-- ===== src/Sender/Turns/Once.antt =====
-- lib/sender.js: what holds of a turn of a sender after all its events.
use zone_mta.Prelude.{◌≤◌, ◌≡◌, refl, Bool, true, not, ◌||◌, List, [], ◌∷◌, if◌then◌else◌, arith}
use zone_mta.Sender.Turns.{
  Turn, first_turn, Event, get_fails, get_nothing, get_delivery, fetch_fails, fetch_suppresses,
  fetch_passes, suppressed_released, pause_ends, speed_allows, connect_timer_fires, connect_fails,
  connects_http, connects_smtp, line_errs, line_ends, end_waited, headers_fail, headers_pass,
  send_fails, send_succeeds, release_fails, release_succeeds, delivered_hooked, error_hooked,
  error_closes, error_resolved, step, run,
}

-- What a turn waits for that leads on to the next one.
abbrev pub in_progress : Turn → Bool
in_progress t =
    t.asking || t.fetching || t.suppressing || t.pausing || t.throttled || t.connecting
    || t.preparing || t.sending || t.releasing || t.thanking || t.reporting || t.resolving

-- The turn went on to the next one, or it closed the sender, or an error stopped the process, or it
-- waits; and an error that is handled leads on.
abbrev pub IsLive : Turn → Type 0
IsLive t =
    (t.continued ≡ (if t.sending_done then 1 else 0))
    × (t.handled ≡ (if t.response_sent then 1 else 0))
    × (not t.response_sent || t.reporting || t.resolving || t.sending_done || t.closing ≡ true)
    × (t.sending_done || t.closing || t.crashed || in_progress t ≡ true)

step-IsLive : (t : Turn) (e : Event) → IsLive t → IsLive (step t e)
unfolding step
step-IsLive t get_fails h = ground (arith, h.0, h.1, h.2, h.3)
step-IsLive t get_nothing h = ground (arith, h.0, h.1, h.2, h.3)
step-IsLive t get_delivery h = ground (arith, h.0, h.1, h.2, h.3)
step-IsLive t fetch_fails h = ground (arith, h.0, h.1, h.2, h.3)
step-IsLive t fetch_suppresses h = ground (arith, h.0, h.1, h.2, h.3)
step-IsLive t fetch_passes h = ground (arith, h.0, h.1, h.2, h.3)
step-IsLive t suppressed_released h = ground (arith, h.0, h.1, h.2, h.3)
step-IsLive t pause_ends h = ground (arith, h.0, h.1, h.2, h.3)
step-IsLive t speed_allows h = ground (arith, h.0, h.1, h.2, h.3)
step-IsLive t connect_timer_fires h = ground (arith, h.0, h.1, h.2, h.3)
step-IsLive t connect_fails h = ground (arith, h.0, h.1, h.2, h.3)
step-IsLive t connects_http h = ground (arith, h.0, h.1, h.2, h.3)
step-IsLive t connects_smtp h = ground (arith, h.0, h.1, h.2, h.3)
step-IsLive t line_errs h = ground (arith, h.0, h.1, h.2, h.3)
step-IsLive t line_ends h = ground (arith, h.0, h.1, h.2, h.3)
step-IsLive t end_waited h = ground (arith, h.0, h.1, h.2, h.3)
step-IsLive t headers_fail h = ground (arith, h.0, h.1, h.2, h.3)
step-IsLive t headers_pass h = ground (arith, h.0, h.1, h.2, h.3)
step-IsLive t send_fails h = ground (arith, h.0, h.1, h.2, h.3)
step-IsLive t send_succeeds h = ground (arith, h.0, h.1, h.2, h.3)
step-IsLive t release_fails h = ground (arith, h.0, h.1, h.2, h.3)
step-IsLive t release_succeeds h = ground (arith, h.0, h.1, h.2, h.3)
step-IsLive t delivered_hooked h = ground (arith, h.0, h.1, h.2, h.3)
step-IsLive t error_hooked h = ground (arith, h.0, h.1, h.2, h.3)
step-IsLive t error_closes h = ground (arith, h.0, h.1, h.2, h.3)
step-IsLive t error_resolved h = ground (arith, h.0, h.1, h.2, h.3)

kept : (t : Turn) (es : List Event) → IsLive t → IsLive (run t es)
unfolding run
kept t [] h = h
kept t (e ∷ es) h = kept (step t e) es (step-IsLive t e h)

-- Whatever comes in a turn, and in whatever order, `sendNext` follows at most once and at most one
-- error is handled; and a turn never stalls: it went on to the next one, or closed the sender, or
-- an exception that nothing catches was thrown, or a callback or a timer that leads on may still
-- come.
pub run_lem :
    (es : List Event)
    → ((run first_turn es).continued ≤ 1)
      × ((run first_turn es).handled ≤ 1)
      × ((run first_turn es).sending_done
            || (run first_turn es).closing
            || (run first_turn es).crashed
            || in_progress (run first_turn es)
          ≡ true)
run_lem es =
    let (once, handled_once, answered, live) = kept first_turn es (refl, refl, refl, refl) in
    (ground (arith, once), ground (arith, handled_once), live)
