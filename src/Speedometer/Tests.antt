-- ===== src/Speedometer/Tests.antt =====
-- Runs of `speedometer` of lib/sending-zone.js.
use zone_mta.Prelude.{◌≡◌, refl, none, List, [], ◌∷◌, arith}
use zone_mta.Speedometer.{Throttling, Call, speedometer, passes}
use zone_mta.Speedometer.Spacing.{IsThrottled, passes-IsThrottled}

-- One message in a second.
abbrev slow : Throttling
slow = record { messages = 1; time = 1 }

-- Each call comes as soon as the one before it has passed, but the second, which is 2 ms late.
abbrev calls : List Call
calls =
    record { at = 5; late = 0 }
    ∷ record { at = 7; late = 0 }
    ∷ record { at = 1006; late = 0 }
    ∷ record { at = 1008; late = 0 }
    ∷ []

-- The second pass and the third are 2 ms apart.
passes-slow : passes slow none calls ≡ 5 ∷ 1006 ∷ 1008 ∷ 2007 ∷ []
unfolding passes speedometer
passes-slow = refl

passes-IsThrottled_example : IsThrottled slow (passes slow none calls)
unfolding passes speedometer
passes-IsThrottled_example = passes-IsThrottled slow calls (omega arith) (omega arith)
