-- ===== src/ConnectionPool/Events.antt =====
-- lib/connection-pool.js: sequences of calls and timer runs, as the senders and the clock make them.
use zone_mta.Prelude.{
  ℕ, String, ◌≡◌, ite, if◌then◌else◌, Bool, true, false, Option, none, some, List, [], ◌∷◌, leb,
  ℕ_discrete,
}
use zone_mta.ConnectionPool.{
  Pool, Timer, Taken, nothing, has, get_connection, find_timer, kill, add,
}

-- What can happen to a pool. `takes` is `tryConnect` of a sender, with what the test of an open
-- connection says then; `fires` is a timer run at a time.
pub data Event : Type 0 where
  adds : String → ℕ → ℕ → ℕ → Event
  takes : (ℕ → Bool) → String → Event
  fires : ℕ → ℕ → Event

unfoldable pub fire : Pool → Option Timer → ℕ → Pool
unfolding kill
fire p none now = p
fire p (some t) now = if leb t.due now then kill p t else p

-- `if (pool.has(key)) { let conn = pool.getConnection(key); … }`
unfoldable pub try_take : (ℕ → Bool) → Pool → String → Pool × Taken
unfolding has get_connection
try_take alive p key = if has p key then get_connection alive p key else (p, nothing)

unfoldable pub step : Pool → Event → Pool
unfolding try_take fire add
step p (adds key connection ttl now) = add p key connection ttl now
step p (takes alive key) = (try_take alive p key).0
step p (fires i now) = fire p (find_timer i p.timers) now

unfoldable pub run : Pool → List Event → Pool
unfolding step
run p [] = p
run p (e ∷ es) = run (step p e) es

-- Whether a kill timer is set for a connection.
unfoldable pub is_timed : ℕ → List Timer → Bool
is_timed n [] = false
is_timed n (t ∷ ts) = ite (ℕ_discrete t.connection n) true (is_timed n ts)

-- A sender adds a connection that it holds, so one that is not in the pool.
unfoldable pub MayHappen : Pool → Event → Type 0
MayHappen p (adds key connection ttl now) = is_timed connection p.timers ≡ false
MayHappen p (takes alive key) = Unit
MayHappen p (fires i now) = Unit

unfoldable pub AllMayHappen : Pool → List Event → Type 0
unfolding step MayHappen
AllMayHappen p [] = Unit
AllMayHappen p (e ∷ es) = MayHappen p e × AllMayHappen (step p e) es
