-- ===== src/ConnectionPool/Kept.antt =====
-- lib/connection-pool.js: each operation keeps what holds of a pool, and what a sender gets of it.
use zone_mta.Prelude.{
  ◌⊎◌, ℕ, suc, ◌<◌, ◌≤◌, String, ◌≡◌, refl, ◌≢◌, Bool, none, some, List, [], ◌∷◌, arith, All,
  All-map, Option-cases, inl, inr, Bool-cases, subst, sym,
}
use zone_mta.Prelude.Maps
use zone_mta.Prelude.Maps.{Map, get-set, get-delete}
use zone_mta.ConnectionPool.{
  Conn, Timer, Pool, pooled_under, clear_timer, find_timer, take_first, get_connection, nothing,
  has,
}
use zone_mta.ConnectionPool.Events.{try_take}
use zone_mta.ConnectionPool.Timers.{
  AllOnce, clear_timer-OneEach, length-clear_timer, All-clear_timer,
}
use zone_mta.ConnectionPool.Invariant.{IsBacked, IsPooled, IsBacked-clear_timer, at_delete}

-- Two connections under two keys, or two that are not the same, have two timers.
other_key :
    (key j : String) (ts : List Timer) (c k : Conn)
    → IsBacked key ts c
    → key ≢ j
    → IsBacked j ts k
    → k.timer ≢ c.timer
unfolding IsBacked
other_key key j ts c k (t, e, a, b) ne (u, e', a', b') = ground arith

pub cleared_for :
    (key j : String) (t : Timer) (i : ℕ) (ts : List Timer) (cs : List Conn)
    → find_timer i ts ≡ some t
    → t.key ≡ key
    → key ≢ j
    → All (IsBacked j ts) cs
    → All (IsBacked j (clear_timer i ts)) cs
unfolding IsBacked
cleared_for key j t i ts cs e a ne h =
    All-map (IsBacked j ts) (IsBacked j (clear_timer i ts))
      (λ k b. IsBacked-clear_timer j i ts k (ground (arith, b.1, b.2)) b) cs h

-- What the map has under a key, as a list.
pub at_key :
    (P : List Conn → Type 0) (key : String) (m : Map (List Conn)) (cs : List Conn)
    → Maps.get key m ≡ some cs
    → P (pooled_under key m)
    → P cs
at_key P key m cs e h = subst P (ground (arith, e)) h

-- The pool less the connection that is taken, for any count of the gauge that still fits.
taken-IsPooled :
    (p : Pool) (key : String) (c : Conn) (cs : List Conn) (lowered reused : ℕ)
    → IsPooled p
    → Maps.get key p.connection_pool ≡ some (c ∷ cs)
    → lowered ≤ suc p.lowered
    → IsPooled (record p {
      connection_pool = Maps.delete key p.connection_pool;
      timers = clear_timer c.timer p.timers;
      lowered = lowered;
      reused = reused;
    })
unfolding IsBacked AllOnce
taken-IsPooled p key c cs lowered reused h e le =
    let b =
      (at_key (All (IsBacked key p.timers)) key p.connection_pool (c ∷ cs) e (h.backed key)).0 in
    record {
      fresh = All-clear_timer (λ t. t.ident < p.next_timer) c.timer p.timers h.fresh;
      one_each = clear_timer-OneEach c.timer p.timers h.one_each;
      backed =
          at_delete (λ j l. All (IsBacked j (clear_timer c.timer p.timers)) l) key p.connection_pool
            tt
            (λ j ne.
              cleared_for key j b.0 c.timer p.timers (pooled_under j p.connection_pool) b.1 b.2 ne
                (h.backed j));
      all_once = at_delete (λ j l. AllOnce l) key p.connection_pool tt (λ j ne. h.all_once j);
      filled = λ j. ground (arith, get-delete key j p.connection_pool, h.filled j);
      gauged = omega (arith, h.gauged, length-clear_timer c.timer p.timers b.0 b.1);
    }

take_first-IsPooled :
    (alive : ℕ → Bool) (p : Pool) (key : String) (c : Conn) (cs : List Conn)
    → IsPooled p
    → Maps.get key p.connection_pool ≡ some (c ∷ cs)
    → IsPooled (take_first alive p key c).0
unfolding take_first
take_first-IsPooled alive p key c cs h e = elim (Bool-cases (alive c.connection)) [
  | inl a ↦
      rw (a, take_first)
        (taken-IsPooled p key c cs (suc p.lowered) (suc p.reused) h e (omega arith))
  | inr a ↦ rw (a, take_first) (taken-IsPooled p key c cs p.lowered p.reused h e (omega arith))
]

-- `tryConnect` finds nothing under the key, or takes the first of the connections there.
pub try_take-cases :
    (alive : ℕ → Bool) (p : Pool) (key : String)
    → IsPooled p
    → (Maps.get key p.connection_pool ≡ none × (try_take alive p key ≡ (p, nothing)))
      ⊎ ((c : Conn) × (cs : List Conn) × (Maps.get key p.connection_pool ≡ some (c ∷ cs))
          × (try_take alive p key ≡ take_first alive p key c))
unfolding try_take has get_connection
try_take-cases alive p key h = elim (Option-cases (Maps.get key p.connection_pool)) [
  | inl e ↦ inl (e, rw (e, try_take, has) refl)
  | inr ([], e) ↦ absurd (h.filled key e)
  | inr (c ∷ cs, e) ↦ inr (c, cs, e, rw (e, try_take, has, get_connection) refl)
]

pub try_take-IsPooled :
    (alive : ℕ → Bool) (p : Pool) (key : String) → IsPooled p → IsPooled (try_take alive p key).0
try_take-IsPooled alive p key h = elim (try_take-cases alive p key h) [
  | inl (e, g) ↦ subst (λ r. IsPooled r.0) (sym g) h
  | inr (c, cs, e, g) ↦ subst (λ r. IsPooled r.0) (sym g) (take_first-IsPooled alive p key c cs h e)
]
