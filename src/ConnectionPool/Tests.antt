-- ===== src/ConnectionPool/Tests.antt =====
-- Runs of lib/connection-pool.js: concrete cases of its theorems.
use zone_mta.Prelude.{
  ℕ, Bool, true, ◌≡◌, refl, none, some, List, [], ◌∷◌, length, ◌⊎◌, if◌then◌else◌, false,
}
use zone_mta.Prelude.Maps
use zone_mta.ConnectionPool.{Pool, Conn, init, handed, nothing}
use zone_mta.ConnectionPool.Events.{
  Event, adds, fires, run, step, try_take, AllMayHappen, MayHappen, is_timed,
}
use zone_mta.ConnectionPool.Invariant.{IsPooled}
use zone_mta.ConnectionPool.Reuse.{run-IsPooled, try_take_lem}

abbrev always : ℕ → Bool
always n = true

-- Three connections, two of them to one host; one of these is reused.
abbrev busy : List Event
busy =
    adds "1.2.3.4:example.com:25" 7 5 1000
    ∷ adds "1.2.3.4:example.com:25" 8 5 2000
    ∷ adds "1.2.3.4:example.org:25" 9 5 3000
    ∷ fires 2 8000
    ∷ []

busy-AllMayHappen : AllMayHappen init busy
unfolding AllMayHappen MayHappen init step is_timed zone_mta.Prelude.ℕ_discrete
busy-AllMayHappen = (refl, (refl, (refl, (tt, tt))))

run-IsPooled_example : IsPooled (run init busy)
run-IsPooled_example = run-IsPooled busy busy-AllMayHappen

-- The second connection is pooled, and lost with the key when the first is taken.
lost :
    Maps.get "1.2.3.4:example.com:25"
      (try_take always (run init busy) "1.2.3.4:example.com:25").0.connection_pool
    ≡ none
unfolding try_take run init Maps.get zone_mta.ConnectionPool.find_timer zone_mta.Prelude.ℕ_discrete
    Maps.set zone_mta.Prelude.text_discrete Maps.delete
lost = refl

try_take_lem_example :
    (Maps.get "1.2.3.4:example.com:25" (run init busy).connection_pool ≡ none
      × (try_take always (run init busy) "1.2.3.4:example.com:25" ≡ (run init busy, nothing)))
    ⊎ ((c : Conn) × (cs : List Conn) × (Maps.get "1.2.3.4:example.com:25"
            (run init busy).connection_pool
          ≡ some (c ∷ cs))
        × ((try_take always (run init busy) "1.2.3.4:example.com:25").1
            ≡ (if always c.connection then handed c else nothing))
        × (is_timed c.connection (run init busy).timers ≡ true)
        × (is_timed c.connection (try_take always (run init busy) "1.2.3.4:example.com:25").0.timers
            ≡ false)
        × (Maps.get "1.2.3.4:example.com:25"
              (try_take always (run init busy) "1.2.3.4:example.com:25").0.connection_pool
            ≡ none))
try_take_lem_example = try_take_lem busy always "1.2.3.4:example.com:25" busy-AllMayHappen
