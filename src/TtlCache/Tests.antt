-- ===== src/TtlCache/Tests.antt =====
-- Runs of the cache of lib/ttl-cache.js.
use zone_mta.Prelude.{ℕ, ◌≡◌, refl, none, some, List, [], ◌∷◌, text_discrete}
use zone_mta.Prelude.Maps
use zone_mta.TtlCache.{
  Cache, Event, gets, removes, sets, turns, fires, init, run, remove, set, run_check_expired,
}
use zone_mta.TtlCache
use zone_mta.TtlCache.Invariant.{IsValid}
use zone_mta.TtlCache.Scheduling.{IsScheduled, run-init}

abbrev history : List (ℕ × Event ℕ)
history =
    (10, sets "a" (some 1) (some 50) none)
    ∷ (12, sets "b" (some 2) (some 20) (some 7))
    ∷ (13, turns)
    ∷ (14, gets "a")
    ∷ []

abbrev cache : Cache ℕ
cache = run (init 0) history

run-init_example :
    IsValid (run (init {V = ℕ} 0) history) × IsScheduled (run (init {V = ℕ} 0) history)
run-init_example = run-init 0 history

-- The entry that expires first is first, and the timer would be due a millisecond after it expires.
expired_order : Maps.get "b" (run_check_expired cache 33).data_map ≡ none
unfolding run init TtlCache.step set TtlCache.get TtlCache.run_pending run_check_expired Maps.get
    Maps.set Maps.delete text_discrete
expired_order = refl
