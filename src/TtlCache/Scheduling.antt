-- ===== src/TtlCache/Scheduling.antt =====
-- lib/ttl-cache.js: an entry is never left with nothing scheduled that will expire it.
use zone_mta.Prelude.{
  ℕ, ◌+◌, ◌≤◌, String, ◌≡◌, refl, ◌⊎◌, Option, none, some, List, [], ◌∷◌, ◌++◌, arith, leb, ltb,
  ◌==◌, Option-cases, Bool-cases, inl, inr,
}
use zone_mta.Prelude.Maps
use zone_mta.TtlCache.{
  Cache, Entry, Task, Event, gets, removes, sets, turns, fires, flushes, update_timer,
  check_expired, run_callback, init, remove, set, run_update_timer, run_check_expired, run_task,
  run_pending, fire_timer, flush, callback_of, step, run,
}
use zone_mta.TtlCache
use zone_mta.TtlCache.Invariant.{IsValid}
use zone_mta.TtlCache.Invariant
use zone_mta.TtlCache.Expiry.{alive, find-drop_expired, sorted-run_check_expired}

-- The timer is set, and due at `limit` at the latest.
abbrev pub DueBy : ℕ → Option ℕ → Type 0
DueBy limit none = ⊥
DueBy limit (some due) = due ≤ limit

module _ {ℓ} {V : Type ℓ} where
  -- A task is pending that looks at the list.
  abbrev pub HasWake : List (Task V) → Type 0
  HasWake [] = ⊥
  HasWake (update_timer ∷ ts) = Unit
  HasWake (check_expired ∷ ts) = Unit
  HasWake (run_callback f v ∷ ts) = HasWake ts

  -- If there is a first entry, such a task is pending, or the timer is due at most one
  -- millisecond after the entry expires.
  abbrev pub Covered : List (Entry V) → List (Task V) → Option ℕ → Type 0
  Covered [] ts timer = Unit
  Covered (e ∷ es) ts timer = HasWake ts ⊎ DueBy (e.expires + 1) timer

  abbrev pub IsScheduled : Cache V → Type 0
  IsScheduled c = Covered c.sorted c.pending c.check_timer

  HasWake-append_wake : (ts : List (Task V)) → HasWake (ts ++ update_timer ∷ [])
  HasWake-append_wake [] = tt
  HasWake-append_wake (update_timer ∷ ts) = tt
  HasWake-append_wake (check_expired ∷ ts) = tt
  HasWake-append_wake (run_callback f v ∷ ts) = HasWake-append_wake ts

  HasWake-append_check : (ts : List (Task V)) → HasWake (ts ++ check_expired ∷ [])
  HasWake-append_check [] = tt
  HasWake-append_check (update_timer ∷ ts) = tt
  HasWake-append_check (check_expired ∷ ts) = tt
  HasWake-append_check (run_callback f v ∷ ts) = HasWake-append_check ts

  Covered-HasWake :
      (xs : List (Entry V)) (ts : List (Task V)) (timer : Option ℕ)
      → HasWake ts
      → Covered xs ts timer
  Covered-HasWake [] ts timer h = tt
  Covered-HasWake (x ∷ xs) ts timer h = inl h

  Covered-drop :
      (xs : List (Entry V)) (f : ℕ) (v : V) (ts : List (Task V)) (timer : Option ℕ)
      → Covered xs (run_callback f v ∷ ts) timer
      → Covered xs ts timer
  Covered-drop [] f v ts timer h = tt
  Covered-drop (x ∷ xs) f v ts timer h = h

  remove-IsScheduled : (c : Cache V) (key : String) → IsScheduled c → IsScheduled (remove c key).0
  unfolding remove
  remove-IsScheduled c key s = elim (Option-cases (Maps.get key c.data_map)) [
    | inl e ↦ rw (e, remove) s
    | inr (x, e) ↦
        rw (e, remove) (Covered-HasWake _ _ _ (HasWake-append_wake (c.pending ++ callback_of x)))
  ]

  get-IsScheduled :
      (c : Cache V) (key : String) (now : ℕ)
      → IsScheduled c
      → IsScheduled (TtlCache.get c key now).0
  unfolding TtlCache.get
  get-IsScheduled c key now s = elim (Option-cases (Maps.get key c.data_map)) [
    | inl e ↦ rw (e, TtlCache.get) s
    | inr (x, e) ↦
        rw (e, TtlCache.get)
          (elim (Bool-cases (ltb x.expires now)) [
            | inl old ↦ rw old (remove-IsScheduled c key s)
            | inr live ↦ rw live s
          ])
  ]

  set_life-IsScheduled :
      (c : Cache V) (key : String) (v : V) (life : ℕ) (expire_cb : Option ℕ) (now : ℕ)
      → IsScheduled c
      → IsScheduled (set c key (some v) (some life) expire_cb now).0
  unfolding set
  set_life-IsScheduled c key v life expire_cb now s = elim (Bool-cases (life == 0)) [
    | inl e ↦ rw e (remove-IsScheduled c key s)
    | inr e ↦ rw e (Covered-HasWake _ _ _ (HasWake-append_wake c.pending))
  ]

  set-IsScheduled :
      (c : Cache V) (key : String) (value : Option V) (ttl expire_cb : Option ℕ) (now : ℕ)
      → IsScheduled c
      → IsScheduled (set c key value ttl expire_cb now).0
  unfolding set
  set-IsScheduled c key none ttl expire_cb now s = remove-IsScheduled c key s
  set-IsScheduled c key (some v) (some life) expire_cb now s =
      set_life-IsScheduled c key v life expire_cb now s
  set-IsScheduled c key (some v) none expire_cb now s =
      set_life-IsScheduled c key v c.default_ttl expire_cb now s

  run_update_timer-IsScheduled : (c : Cache V) (now : ℕ) → IsScheduled (run_update_timer c now)
  unfolding run_update_timer
  run_update_timer-IsScheduled c now = timed c.sorted refl
    where
      timed : (xs : List (Entry V)) → c.sorted ≡ xs → IsScheduled (run_update_timer c now)
      timed [] e = rw (e, run_update_timer) (rw e tt)
      timed (x ∷ xs) e =
          rw (e, run_update_timer)
            (elim (Bool-cases (leb x.expires now)) [
              | inl due ↦ rw due (rw e (inl (HasWake-append_check c.pending)))
              | inr live ↦ rw live (rw e (inr (ground arith)))
            ])

  run_check_expired-IsScheduled : (c : Cache V) (now : ℕ) → IsScheduled (run_check_expired c now)
  unfolding run_check_expired
  run_check_expired-IsScheduled c now = Covered-HasWake _ _ _ (HasWake-append_wake (c.pending ++ _))

  run_pending-IsScheduled :
      (c : Cache V) (now : ℕ) → IsScheduled c → IsScheduled (run_pending c now)
  unfolding run_pending run_task
  run_pending-IsScheduled c now s = popped c.pending refl
    where
      popped : (ts : List (Task V)) → c.pending ≡ ts → IsScheduled (run_pending c now)
      popped [] e = rw (e, run_pending) s
      popped (update_timer ∷ ts) e =
          rw (e, run_pending) (run_update_timer-IsScheduled (record c { pending = ts }) now)
      popped (check_expired ∷ ts) e =
          rw (e, run_pending) (run_check_expired-IsScheduled (record c { pending = ts }) now)
      popped (run_callback f v ∷ ts) e =
          rw (e, run_pending) (Covered-drop c.sorted f v ts c.check_timer (rw e at s))

  fire_timer-IsScheduled : (c : Cache V) (now : ℕ) → IsScheduled c → IsScheduled (fire_timer c now)
  unfolding fire_timer
  fire_timer-IsScheduled c now s = elim (Option-cases c.check_timer) [
    | inl e ↦ rw (e, fire_timer) s
    | inr (due, e) ↦
        rw (e, fire_timer)
          (elim (Bool-cases (leb due now)) [
            | inl h ↦ rw h (run_check_expired-IsScheduled (record c { check_timer = none }) now)
            | inr h ↦ rw h s
          ])
  ]

  pub step-IsScheduled : (c : Cache V) (e : ℕ × Event V) → IsScheduled c → IsScheduled (step c e)
  unfolding step flush
  step-IsScheduled c (now, gets key) s = get-IsScheduled c key now s
  step-IsScheduled c (now, removes key) s = remove-IsScheduled c key s
  step-IsScheduled c (now, sets key value ttl cb) s = set-IsScheduled c key value ttl cb now s
  step-IsScheduled c (now, turns) s = run_pending-IsScheduled c now s
  step-IsScheduled c (now, fires) s = fire_timer-IsScheduled c now s
  step-IsScheduled c (now, flushes) s = tt

  step-IsValid : (c : Cache V) (e : ℕ × Event V) → IsValid c → IsValid (step c e)
  unfolding step
  step-IsValid c (now, gets key) v = Invariant.get-IsValid c key now v
  step-IsValid c (now, removes key) v = Invariant.remove-IsValid c key v
  step-IsValid c (now, sets key value ttl cb) v = Invariant.set-IsValid c key value ttl cb now v
  step-IsValid c (now, turns) v = Invariant.run_pending-IsValid c now v
  step-IsValid c (now, fires) v = Invariant.fire_timer-IsValid c now v
  step-IsValid c (now, flushes) v = Invariant.flush-IsValid c v

  run-Inv :
      (c : Cache V) (es : List (ℕ × Event V))
      → IsValid c
      → IsScheduled c
      → IsValid (run c es) × IsScheduled (run c es)
  unfolding run
  run-Inv c [] v s = (v, s)
  run-Inv c (e ∷ es) v s = run-Inv (step c e) es (step-IsValid c e v) (step-IsScheduled c e s)

  -- After any history of calls, event loop turns and timer calls on a new cache, the map and the
  -- list are two views of the same entries (`IsValid`), and while there is an entry, a task that
  -- looks at the list is pending or the timer is due at most a millisecond after the first entry
  -- expires (`IsScheduled`).
  pub run-init :
      (ttl : ℕ) (es : List (ℕ × Event V))
      → IsValid (run (init ttl) es) × IsScheduled (run (init ttl) es)
  unfolding init
  run-init ttl es = run-Inv (init ttl) es (Invariant.init-IsValid ttl) tt

  -- In a valid cache `checkExpired` at time `now` takes out of the map every entry whose expiry
  -- time is `now` or earlier, and leaves all others as they were.
  get-run_check_expired :
      (c : Cache V) (key : String) (now : ℕ)
      → IsValid c
      → Maps.get key (run_check_expired c now).data_map ≡ alive now (Maps.get key c.data_map)
  get-run_check_expired c key now v = rw (
    (Invariant.run_check_expired-IsValid c now v).agrees key,
    sorted-run_check_expired c.next_ident now c v.distinct v.agrees,
    find-drop_expired c.next_ident now key c.sorted c.data_map v.distinct v.ordered,
    v.agrees key,
  )
