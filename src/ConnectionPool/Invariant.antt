-- ===== src/ConnectionPool/Invariant.antt =====
-- lib/connection-pool.js: what holds of every pool that the senders can bring about.
use zone_mta.Prelude.{
  subst, ℕ, ◌+◌, ◌<◌, ◌≤◌, String, ◌≡◌, ◌≢◌, ite, none, some, List, [], ◌∷◌, arith, length, All,
  text_discrete,
}
use zone_mta.Prelude.Maps
use zone_mta.Prelude.Maps.{Map, get-set, get-delete}
use zone_mta.ConnectionPool.{
  Conn, Timer, Pool, init, pooled_under, clear_timer, find_timer, put_back,
}
use zone_mta.ConnectionPool.Timers.{OneEach, AllOnce, find_timer-clear_timer, find_timer_old}

-- The kill timer of a pooled connection is set, for that connection under that key.
unfoldable pub IsBacked : String → List Timer → Conn → Type 0
unfolding find_timer
IsBacked key ts c =
    (t : Timer) × (find_timer c.timer ts ≡ some t) × (t.key ≡ key) × (t.connection ≡ c.connection)

-- Timers are told apart, no connection has two of them, every pooled connection has its own, no list
-- is empty or has a connection twice, and the gauge counts at least the connections whose timer is set.
pub record IsPooled (p : Pool) : Type 0 where
  pub fresh : All (λ t. t.ident < p.next_timer) p.timers
  pub one_each : OneEach p.timers
  pub backed : (key : String) → All (IsBacked key p.timers) (pooled_under key p.connection_pool)
  pub all_once : (key : String) → AllOnce (pooled_under key p.connection_pool)
  pub filled : (key : String) → Maps.get key p.connection_pool ≢ some []
  pub gauged : p.lowered + length p.timers ≤ p.raised

pub init-IsPooled : IsPooled init
unfolding init Maps.get OneEach AllOnce
init-IsPooled = record {
  fresh = tt;
  one_each = tt;
  backed = λ key. tt;
  all_once = λ key. tt;
  filled = λ key. ground arith;
  gauged = omega arith;
}

-- A timer that is cleared, and one that is set, leave the other connections backed.
pub IsBacked-clear_timer :
    (key : String) (i : ℕ) (ts : List Timer) (c : Conn)
    → c.timer ≢ i
    → IsBacked key ts c
    → IsBacked key (clear_timer i ts) c
unfolding IsBacked
IsBacked-clear_timer key i ts c h (t, e, k, n) =
    (t, ground (arith, find_timer-clear_timer i c.timer ts, h), k, n)

pub IsBacked-add :
    (key : String) (n : ℕ) (t : Timer) (ts : List Timer) (c : Conn)
    → All (λ t. t.ident < n) ts
    → t.ident ≡ n
    → IsBacked key ts c
    → IsBacked key (t ∷ ts) c
unfolding find_timer IsBacked
IsBacked-add key n t ts c old own (u, e, k, m) =
    (u, ground (arith, find_timer_old c.timer n ts u old e, own), k, m)

none_under :
    (key j : String) (m : Map (List Conn))
    → Maps.get key m ≡ none
    → ite (text_discrete key j) [] (pooled_under j m) ≡ pooled_under j m
none_under key j m e = ground (arith, e)

module _ (Q : String → List Conn → Type 0) (key : String) where
  pick :
      (j : String) (v w : List Conn) (d : Dec (key ≡ j))
      → Q key v
      → (key ≢ j → Q j w)
      → Q j (ite d v w)
  pick j v w (yes e) h g = subst (λ k. Q k v) e h
  pick j v w (no ne) h g = g ne

  -- What holds of every list of a map after one is set, or deleted.
  pub at_set :
      (v : List Conn) (m : Map (List Conn))
      → Q key v
      → ((j : String) → key ≢ j → Q j (pooled_under j m))
      → (j : String) → Q j (pooled_under j (Maps.set key v m))
  at_set v m h g j =
      subst (λ l. Q j l) (ground (arith, get-set key j v m))
        (pick j v (pooled_under j m) (text_discrete key j) h (g j))

  pub at_delete :
      (m : Map (List Conn))
      → Q key []
      → ((j : String) → key ≢ j → Q j (pooled_under j m))
      → (j : String) → Q j (pooled_under j (Maps.delete key m))
  at_delete m h g j =
      subst (λ l. Q j l) (ground (arith, get-delete key j m))
        (pick j [] (pooled_under j m) (text_discrete key j) h (g j))

  pub at_put_back :
      (v : List Conn) (m : Map (List Conn))
      → Q key v
      → ((j : String) → key ≢ j → Q j (pooled_under j m))
      → (j : String) → Q j (pooled_under j (put_back key v m))
  at_put_back [] m h g j = at_delete m h g j
  at_put_back (c ∷ cs) m h g j = at_set (c ∷ cs) m h g j

  pub at_none :
      (m : Map (List Conn))
      → Maps.get key m ≡ none
      → Q key []
      → ((j : String) → key ≢ j → Q j (pooled_under j m))
      → (j : String) → Q j (pooled_under j m)
  at_none m e h g j =
      subst (λ l. Q j l) (none_under key j m e)
        (pick j [] (pooled_under j m) (text_discrete key j) h (g j))
