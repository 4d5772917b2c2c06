-- ===== src/ConnectionPool/Reuse.antt =====
-- lib/connection-pool.js: what the senders get of a pool, in every run.
use zone_mta.Prelude.{
  ◌∙◌, All, ℕ, String, ◌≡◌, refl, if◌then◌else◌, Bool, true, false, none, some, List, [], ◌∷◌,
  arith, inl, inr, ◌⊎◌, Bool-cases, subst, ap, sym,
}
use zone_mta.Prelude.Maps
use zone_mta.Prelude.Maps.{Map, get-set, get-delete}
use zone_mta.ConnectionPool.{Conn, Pool, init, clear_timer, take_first, nothing, handed}
use zone_mta.ConnectionPool.Events.{
  Event, adds, takes, fires, is_timed, try_take, step, run, MayHappen, AllMayHappen,
}
use zone_mta.ConnectionPool.Timers.{is_timed_cleared, find_timer-is_timed}
use zone_mta.ConnectionPool.Invariant.{IsBacked, IsPooled, init-IsPooled}
use zone_mta.ConnectionPool.Kept.{at_key, try_take-cases, try_take-IsPooled}
use zone_mta.ConnectionPool.Adds.{add-IsPooled, fire-IsPooled}

step-IsPooled : (p : Pool) (e : Event) → IsPooled p → MayHappen p e → IsPooled (step p e)
unfolding step MayHappen
step-IsPooled p (adds key connection ttl now) h m = add-IsPooled p key connection ttl now h m
step-IsPooled p (takes alive key) h m = try_take-IsPooled alive p key h
step-IsPooled p (fires i now) h m = fire-IsPooled p i now h

kept : (p : Pool) (es : List Event) → IsPooled p → AllMayHappen p es → IsPooled (run p es)
unfolding run AllMayHappen MayHappen
kept p [] h m = h
kept p (e ∷ es) h m = kept (step p e) es (step-IsPooled p e h m.0) m.1

-- After every run in which the senders add only connections that they hold, each pooled connection
-- has its own kill timer, set for it under its key; no connection has two timers or stands twice under
-- a key; no key has an empty list; and the size gauge counts at least the connections whose timer is set.
pub run-IsPooled : (es : List Event) → AllMayHappen init es → IsPooled (run init es)
run-IsPooled es m = kept init es init-IsPooled m

taken_lem :
    (alive : ℕ → Bool) (p : Pool) (key : String) (c : Conn)
    → IsPooled p
    → IsBacked key p.timers c
    → ((take_first alive p key c).1 ≡ (if alive c.connection then handed c else nothing))
      × (is_timed c.connection p.timers ≡ true)
      × (is_timed c.connection (take_first alive p key c).0.timers ≡ false)
      × (Maps.get key (take_first alive p key c).0.connection_pool ≡ none)
unfolding take_first IsBacked
taken_lem alive p key c h (t, e, k, n) = elim (Bool-cases (alive c.connection)) [
  | inl a ↦
      rw (a, take_first)
        (refl, timed, cleared, ground (arith, get-delete key key p.connection_pool))
  | inr a ↦
      rw (a, take_first)
        (refl, timed, cleared, ground (arith, get-delete key key p.connection_pool))
]
  where
    timed : is_timed c.connection p.timers ≡ true
    timed = subst (λ k. is_timed k p.timers ≡ true) n (find_timer-is_timed c.timer p.timers t e)

    cleared : is_timed c.connection (clear_timer c.timer p.timers) ≡ false
    cleared =
        subst (λ k. is_timed k (clear_timer c.timer p.timers) ≡ false) n
          (is_timed_cleared c.timer p.timers t h.one_each e)

-- After every such run, `tryConnect` finds nothing under the key, and the pool is as it was; or it
-- takes the first connection there, which it reuses exactly when that is still open. The connection had
-- a kill timer and has none any more, so that no timer closes it while it is used, and the key is gone
-- from the pool with all the connections that waited behind it.
pub try_take_lem :
    (es : List Event) (alive : ℕ → Bool) (key : String)
    → AllMayHappen init es
    → (Maps.get key (run init es).connection_pool ≡ none
        × (try_take alive (run init es) key ≡ (run init es, nothing)))
      ⊎ ((c : Conn) × (cs : List Conn) × (Maps.get key (run init es).connection_pool
            ≡ some (c ∷ cs))
          × ((try_take alive (run init es) key).1
              ≡ (if alive c.connection then handed c else nothing))
          × (is_timed c.connection (run init es).timers ≡ true)
          × (is_timed c.connection (try_take alive (run init es) key).0.timers ≡ false)
          × (Maps.get key (try_take alive (run init es) key).0.connection_pool ≡ none))
unfolding IsBacked
try_take_lem es alive key m = elim (try_take-cases alive (run init es) key (run-IsPooled es m)) [
  | inl g ↦ inl g
  | inr (c, cs, e, g) ↦
      let backed =
        at_key (All (IsBacked key (run init es).timers)) key (run init es).connection_pool (c ∷ cs)
          e ((run-IsPooled es m).backed key) in
      let (same, timed, cleared, gone) =
        taken_lem alive (run init es) key c (run-IsPooled es m) backed.0 in
      inr (
        c,
        cs,
        e,
        ap (λ r. r.1) g ∙ same,
        timed,
        subst (λ r. is_timed c.connection r.0.timers ≡ false) (sym g) cleared,
        subst (λ r. Maps.get key r.0.connection_pool ≡ none) (sym g) gone,
      )
]
