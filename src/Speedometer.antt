-- ===== src/Speedometer.antt =====
-- lib/sending-zone.js: `speedometer`, which throttles the deliveries of a sender.
--
-- `messages` in `time` seconds may be sent. The quotient `minTime` is not rounded in the code: a
-- difference is compared with it by a product here, and the delay of `setTimeout` is cut to whole
-- milliseconds. `timer` is what the WeakMap has for one `ref`.
pub mod Spacing
mod Tests
use zone_mta.Prelude.{
  ℕ, ◌+◌, ◌-◌, ◌*◌, ◌/◌, Bool, Option, none, some, List, [], ◌∷◌, leb, if◌then◌else◌,
}

pub record Throttling : Type 0 where
  pub messages : ℕ
  pub time : ℕ

-- The delay `last + minTime - now + 1`, cut to whole milliseconds as `setTimeout` does.
abbrev pub next_check : Throttling → ℕ → ℕ → ℕ
next_check t last now = last + t.time * 1000 / t.messages + 1 - now

-- How long `next` waits. The timer is set to the time of the call on every branch.
unfoldable pub speedometer : Throttling → Option ℕ → ℕ → Option ℕ × ℕ
speedometer t none now = (some now, 0)
speedometer t (some last) now =
    if leb (t.time * 1000) ((now - last) * t.messages)
    then (some now, 0)
    else (some now, next_check t last now)

-- A call of `speedometer`, and how late the timer of `setTimeout` runs.
pub record Call : Type 0 where
  pub at : ℕ
  pub late : ℕ

-- The times at which `next` runs.
unfoldable pub passes : Throttling → Option ℕ → List Call → List ℕ
passes t timer [] = []
passes t timer (c ∷ cs) =
    let (timer', wait) = speedometer t timer c.at in (c.at + wait + c.late) ∷ passes t timer' cs
