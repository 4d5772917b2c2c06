-- ===== src/SenderService/Tests.antt =====
-- Runs of services/sender.js: concrete cases of its theorems.
use Prim.Native.String.{String}
use zone_mta.Prelude.{◌+◌, ◌≡◌, refl, List, [], ◌∷◌, if◌then◌else◌, ltb, length}
use zone_mta.Delivery.{ok, failed}
use zone_mta.SenderService.{Service, init, on_reload}
use zone_mta.SenderService.Requests.{
  Event, sends, answers, spawns, run, calls, held, was_sent, calls-run,
}
use zone_mta.SenderService.Senders.{planned, spawned, planned-on_reload}

-- Two requests; the second is answered twice.
abbrev talk : List (Event String)
talk = sends ∷ spawns ∷ sends ∷ answers 2 (ok "16a5.001") ∷ answers 2 (failed "late") ∷ []

calls-run_example :
    calls 2 (run (init 5) talk).called + held 2 (run (init 5) talk).response_handlers
    ≡ was_sent 2 (run (init 5) talk)
calls-run_example = calls-run 5 talk 2

abbrev five : Service String
five = record (init 5) { senders = 1 ∷ 2 ∷ 3 ∷ 4 ∷ 5 ∷ []; pending = 0; zone_counter = 5 }

-- From five connections to three: four senders are left.
planned-on_reload_example :
    ((on_reload five 3).zone_connections ≡ 3)
    × (planned (on_reload five 3) ≡ (if ltb 3 5 then 4 else 3))
    × (length (spawned (on_reload five 3).pending (on_reload five 3)).senders
        ≡ planned (on_reload five 3))
planned-on_reload_example = planned-on_reload five 3 refl refl
