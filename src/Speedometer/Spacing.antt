-- ===== src/Speedometer/Spacing.antt =====
-- lib/sending-zone.js: how far apart the deliveries of a throttled sender are.
use zone_mta.Prelude.{
  ℕ, ◌+◌, ◌-◌, ◌*◌, ◌/◌, ◌≤◌, ◌<◌, ◌≡◌, refl, Option, none, some, List, [], ◌∷◌, arith, leb,
  Bool-cases, inl, inr,
}
use zone_mta.Speedometer.{Throttling, next_check, speedometer, Call, passes}

-- A sender calls again when `next` has run: after the time `from`, each call comes after the pass
-- before it.
abbrev pub IsSequential : ℕ → List Call → List ℕ → Type 0
IsSequential from (c ∷ cs) (p ∷ ps) = (from ≤ c.at) × IsSequential p cs ps
IsSequential from _ _ = Unit

-- From `p` to `r` there is `minTime` or more, as it is in the code, not rounded.
abbrev pub Apart : Throttling → ℕ → ℕ → Type 0
Apart t p r = t.time * 1000 ≤ (r - p) * t.messages

-- Each pass but the first two comes `minTime` or more after the pass before the last one: `from`
-- and `after` are the times of those.
abbrev pub IsSpaced : Throttling → ℕ → ℕ → List ℕ → Type 0
IsSpaced t from after [] = Unit
IsSpaced t from after (p ∷ ps) = Apart t from p × IsSpaced t after p ps

mul_mono : (a b m : ℕ) → a ≤ b → a * m ≤ b * m
mul_mono a b m h = grind arith

Apart-mono : (t : Throttling) (p p' r r' : ℕ) → p' ≤ p → r ≤ r' → Apart t p r → Apart t p' r'
Apart-mono t p p' r r' h k a =
    let wider = mul_mono (r - p) (r' - p') t.messages (omega (arith, h, k)) in
    omega (arith, wider, a)

div_bound : (a m : ℕ) → 0 < m → a ≤ (a / m + 1) * m
div_bound a m h = grind arith

wait_lem :
    (t : Throttling) (last now : ℕ)
    → 0 < t.messages
    → last ≤ now
    → Apart t last (now + (speedometer t (some last) now).1)
unfolding speedometer
wait_lem t last now h k = elim (Bool-cases (leb (t.time * 1000) ((now - last) * t.messages))) [
  | inl e ↦
      rw e (Apart-mono t last last now (now + 0) (omega arith) (omega arith) (ground (arith, e)))
  | inr e ↦ rw e (
      let b = div_bound (t.time * 1000) t.messages h in
      let wider =
        mul_mono (t.time * 1000 / t.messages + 1) (now + next_check t last now - last) t.messages
          (omega (arith, k)) in
      omega (arith, b, wider))
]

timer_lem : (t : Throttling) (timer : Option ℕ) (now : ℕ) → (speedometer t timer now).0 ≡ some now
unfolding speedometer
timer_lem t none now = refl
timer_lem t (some last) now = ground arith

passes-IsSpaced_from :
    (t : Throttling) (before last from : ℕ) (cs : List Call)
    → 0 < t.messages
    → before ≤ last
    → last ≤ from
    → IsSequential from cs (passes t (some last) cs)
    → IsSpaced t before from (passes t (some last) cs)
unfolding passes
passes-IsSpaced_from t before last from [] h j k s = tt
passes-IsSpaced_from t before last from (c ∷ cs) h j k s =
    let (in_turn, rest) = rw (timer_lem t (some last) c.at) at s in
    let wait = wait_lem t last c.at h (omega (arith, k, in_turn)) in
    rw (timer_lem t (some last) c.at) (
      Apart-mono t last before (c.at + (speedometer t (some last) c.at).1)
          (c.at + (speedometer t (some last) c.at).1 + c.late) j (omega arith) wait,
      passes-IsSpaced_from t from c.at (c.at + (speedometer t (some last) c.at).1 + c.late) cs h
          in_turn (omega arith) rest,
    )

-- Of any three in a row the last one comes `minTime` or more after the first.
abbrev pub IsThrottled : Throttling → List ℕ → Type 0
IsThrottled t (p ∷ q ∷ r ∷ ps) = Apart t p r × IsThrottled t (q ∷ r ∷ ps)
IsThrottled t _ = Unit

IsThrottled-of_spaced :
    (t : Throttling) (from after : ℕ) (ps : List ℕ)
    → IsSpaced t from after ps
    → IsThrottled t (from ∷ after ∷ ps)
IsThrottled-of_spaced t from after [] h = tt
IsThrottled-of_spaced t from after (p ∷ ps) h = (h.0, IsThrottled-of_spaced t after p ps h.1)

IsThrottled-next :
    (t : Throttling) (last from : ℕ) (cs : List Call)
    → 0 < t.messages
    → last ≤ from
    → IsSequential from cs (passes t (some last) cs)
    → IsThrottled t (from ∷ passes t (some last) cs)
unfolding passes
IsThrottled-next t last from [] h k s = tt
IsThrottled-next t last from (c ∷ cs) h k s =
    let (in_turn, rest) = rw (timer_lem t (some last) c.at) at s in
    rw (timer_lem t (some last) c.at) (
      IsThrottled-of_spaced t _ _ _ (
        passes-IsSpaced_from t from c.at (c.at + (speedometer t (some last) c.at).1 + c.late) cs h
          in_turn (omega arith) rest))

-- A sender that calls again after each pass gets of any three passes in a row the last one
-- `minTime` or more after the first, however late the timers run: as many milliseconds between them
-- as, times the messages, are the milliseconds in which these may be sent.
pub passes-IsThrottled :
    (t : Throttling) (calls : List Call)
    → 0 < t.messages
    → IsSequential 0 calls (passes t none calls)
    → IsThrottled t (passes t none calls)
unfolding passes speedometer
passes-IsThrottled t [] h s = tt
passes-IsThrottled t (c ∷ cs) h s =
    IsThrottled-next t c.at (c.at + 0 + c.late) cs h (omega arith) s.1
