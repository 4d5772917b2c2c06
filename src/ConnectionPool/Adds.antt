-- ===== src/ConnectionPool/Adds.antt =====
-- lib/connection-pool.js: `add` and the kill timers keep what holds of a pool.
use zone_mta.Prelude.{
  leb, ◌*◌, ℕ, suc, ◌+◌, ◌<◌, String, ◌≡◌, refl, ◌≢◌, if◌then◌else◌, true, false, some, List, [],
  ◌∷◌, ◌++◌, arith, All, All-map, All-append, Option-cases, inl, inr, Bool-cases, subst, sym,
}
use zone_mta.Prelude.Maps
use zone_mta.Prelude.Maps.{Map, get-set, get-delete}
use zone_mta.ConnectionPool.{
  Conn, Timer, Pool, pooled_under, clear_timer, find_timer, splice_connection, put_back, kill, add,
}
use zone_mta.ConnectionPool.Events.{is_timed, fire}
use zone_mta.ConnectionPool.Timers.{
  OneEach, AllOnce, is_listed, clear_timer-OneEach, length-clear_timer, All-clear_timer,
  find_timer-is_timed, All-spliced, splice-AllOnce,
}
use zone_mta.ConnectionPool.Kept.{at_key, cleared_for}
use zone_mta.ConnectionPool.Invariant.{
  at_none, IsBacked, IsPooled, IsBacked-clear_timer, IsBacked-add, at_set, at_put_back,
}

not_listed :
    (key : String) (n : ℕ) (ts : List Timer) (cs : List Conn)
    → is_timed n ts ≡ false
    → All (IsBacked key ts) cs
    → is_listed n cs ≡ false
unfolding IsBacked is_listed
not_listed key n ts [] h b = refl
not_listed key n ts (c ∷ cs) h b =
    ground
      (arith, not_listed key n ts cs h b.1, find_timer-is_timed c.timer ts b.0.0 b.0.1, b.0.3, h)

is_listed-append :
    (n : ℕ) (cs : List Conn) (c : Conn)
    → is_listed n (cs ++ c ∷ []) ≡ (if is_listed n cs then true else is_listed n (c ∷ []))
unfolding is_listed
is_listed-append n [] c = refl
is_listed-append n (x ∷ xs) c = ground (arith, is_listed-append n xs c)

append-AllOnce :
    (cs : List Conn) (c : Conn)
    → AllOnce cs
    → is_listed c.connection cs ≡ false
    → AllOnce (cs ++ c ∷ [])
unfolding is_listed AllOnce
append-AllOnce [] c h e = (refl, tt)
append-AllOnce (x ∷ xs) c h e =
    ground (arith, append-AllOnce xs c h.1, is_listed-append x.connection xs c, h.0)

append_full : (cs : List Conn) (c : Conn) → some (cs ++ c ∷ []) ≢ some []
append_full [] c = ground arith
append_full (x ∷ xs) c = ground arith

still :
    (key : String) (n : ℕ) (t : Timer) (ts : List Timer) (cs : List Conn)
    → All (λ t. t.ident < n) ts
    → t.ident ≡ n
    → All (IsBacked key ts) cs
    → All (IsBacked key (t ∷ ts)) cs
still key n t ts cs old own h =
    All-map (IsBacked key ts) (IsBacked key (t ∷ ts)) (λ c b. IsBacked-add key n t ts c old own b)
      cs h

-- A connection that has no timer yet may be added.
pub add-IsPooled :
    (p : Pool) (key : String) (connection ttl now : ℕ)
    → IsPooled p
    → is_timed connection p.timers ≡ false
    → IsPooled (add p key connection ttl now)
unfolding add IsBacked AllOnce OneEach find_timer
add-IsPooled p key connection ttl now h free =
    let t : Timer = record {
      ident = p.next_timer;
      key = key;
      connection = connection;
      due = now + ttl * 1000;
    } in
    let c : Conn = record { timer = p.next_timer; connection = connection } in
    let cs = pooled_under key p.connection_pool in
    record {
      fresh = (
        omega arith,
        All-map (λ t. t.ident < p.next_timer) (λ t. t.ident < suc p.next_timer)
            (λ t le. omega (arith, le)) p.timers h.fresh,
      );
      one_each = (free, h.one_each);
      backed =
          at_set (λ j l. All (IsBacked j (t ∷ p.timers)) l) key (cs ++ c ∷ []) p.connection_pool
            (All-append (IsBacked key (t ∷ p.timers)) cs (c ∷ [])
              (still key p.next_timer t p.timers cs h.fresh refl (h.backed key))
              ((t, ground arith, refl, refl), tt))
            (λ j ne.
              still j p.next_timer t p.timers (pooled_under j p.connection_pool) h.fresh refl
                (h.backed j));
      all_once =
          at_set (λ j l. AllOnce l) key (cs ++ c ∷ []) p.connection_pool
            (append-AllOnce cs c (h.all_once key)
              (not_listed key connection p.timers cs free (h.backed key)))
            (λ j ne. h.all_once j);
      filled = λ j.
          ground
            (arith, get-set key j (cs ++ c ∷ []) p.connection_pool, h.filled j, append_full cs c);
      gauged = omega (arith, h.gauged);
    }

found_ident : (i : ℕ) (ts : List Timer) (t : Timer) → find_timer i ts ≡ some t → t.ident ≡ i
unfolding find_timer
found_ident i [] t e = ground arith
found_ident i (x ∷ xs) t e = ground (arith, found_ident i xs t)

find_timer_ident :
    (i : ℕ) (ts : List Timer) (t : Timer)
    → find_timer i ts ≡ some t
    → find_timer t.ident ts ≡ some t
find_timer_ident i ts t e = subst (λ j. find_timer j ts ≡ some t) (sym (found_ident i ts t e)) e

put_back-filled :
    (key j : String) (cs : List Conn) (m : Map (List Conn))
    → Maps.get j m ≢ some []
    → Maps.get j (put_back key cs m) ≢ some []
put_back-filled key j [] m h = ground (arith, get-delete key j m, h)
put_back-filled key j (c ∷ cs) m h = ground (arith, get-set key j (c ∷ cs) m, h)

-- The connections under the key of a timer, less the one that it closes.
splice_connection-IsBacked :
    (t : Timer) (ts : List Timer) (cs : List Conn)
    → find_timer t.ident ts ≡ some t
    → AllOnce cs
    → All (IsBacked t.key ts) cs
    → All (IsBacked t.key (clear_timer t.ident ts)) (splice_connection t.connection cs)
unfolding IsBacked
splice_connection-IsBacked t ts cs e once h =
    All-map (λ c. IsBacked t.key ts c × (c.connection ≢ t.connection))
      (IsBacked t.key (clear_timer t.ident ts))
      (λ c b. IsBacked-clear_timer t.key t.ident ts c (ground (arith, e, b.0.1, b.0.3, b.1)) b.0)
      (splice_connection t.connection cs) (All-spliced (IsBacked t.key ts) t.connection cs once h)

kill-IsPooled :
    (p : Pool) (t : Timer) → IsPooled p → find_timer t.ident p.timers ≡ some t → IsPooled (kill p t)
unfolding kill IsBacked AllOnce
kill-IsPooled p t h e = elim (Option-cases (Maps.get t.key p.connection_pool)) [
  | inl none_there ↦
      rw (none_there, kill)
        (record {
          fresh = All-clear_timer (λ t. t.ident < p.next_timer) t.ident p.timers h.fresh;
          one_each = clear_timer-OneEach t.ident p.timers h.one_each;
          backed =
              at_none (λ j l. All (IsBacked j (clear_timer t.ident p.timers)) l) t.key
                p.connection_pool none_there tt others;
          all_once = h.all_once;
          filled = h.filled;
          gauged = omega (arith, h.gauged, length-clear_timer t.ident p.timers t e);
        })
  | inr (cs, there) ↦
      rw (there, kill)
        (record {
          fresh = All-clear_timer (λ t. t.ident < p.next_timer) t.ident p.timers h.fresh;
          one_each = clear_timer-OneEach t.ident p.timers h.one_each;
          backed =
              at_put_back (λ j l. All (IsBacked j (clear_timer t.ident p.timers)) l) t.key
                (splice_connection t.connection cs) p.connection_pool
                (splice_connection-IsBacked t p.timers cs e
                  (at_key AllOnce t.key p.connection_pool cs there (h.all_once t.key))
                  (at_key (All (IsBacked t.key p.timers)) t.key p.connection_pool cs there
                    (h.backed t.key)))
                others;
          all_once =
              at_put_back (λ j l. AllOnce l) t.key (splice_connection t.connection cs)
                p.connection_pool
                (splice-AllOnce t.connection cs
                  (at_key AllOnce t.key p.connection_pool cs there (h.all_once t.key)))
                (λ j ne. h.all_once j);
          filled = λ j.
              put_back-filled t.key j (splice_connection t.connection cs) p.connection_pool
                (h.filled j);
          gauged = omega (arith, h.gauged, length-clear_timer t.ident p.timers t e);
        })
]
  where
    others :
        (j : String)
        → t.key ≢ j
        → All (IsBacked j (clear_timer t.ident p.timers)) (pooled_under j p.connection_pool)
    others j ne =
        cleared_for t.key j t t.ident p.timers (pooled_under j p.connection_pool) e refl ne
          (h.backed j)

-- A timer that runs closes its connection, which is no longer pooled under its key.
pub fire-IsPooled :
    (p : Pool) (i now : ℕ) → IsPooled p → IsPooled (fire p (find_timer i p.timers) now)
unfolding fire
fire-IsPooled p i now h = elim (Option-cases (find_timer i p.timers)) [
  | inl e ↦ rw (e, fire) h
  | inr (t, e) ↦ elim (Bool-cases (leb t.due now)) [
    | inl g ↦ rw (e, fire, g) (kill-IsPooled p t h (find_timer_ident i p.timers t e))
    | inr g ↦ rw (e, fire, g) h
  ]
]
