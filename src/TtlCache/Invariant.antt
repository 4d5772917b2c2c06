-- ===== src/TtlCache/Invariant.antt =====
-- lib/ttl-cache.js: the map and the sorted list stay two views of the same entries.
use zone_mta.Prelude.{
  ℕ, suc, String, ◌≡◌, refl, Option, none, some, List, [], ◌∷◌, arith, ltb, ◌==◌, Option-cases,
  Bool-cases, inl, inr, leb, ◌+◌,
}
use zone_mta.Prelude.Maps
use zone_mta.Prelude.Maps.{get-set, get-delete}
use zone_mta.TtlCache.{
  Cache, Entry, insert_sorted, Task, update_timer, check_expired, run_callback, init, remove, set,
  run_update_timer, run_check_expired, run_task, run_pending, fire_timer, flush,
}
use zone_mta.TtlCache
use zone_mta.TtlCache.Sorted.{
  find, SortedFrom, Distinct, find-insert_sorted, insert_sorted-SortedFrom,
}
use zone_mta.TtlCache.Sorted.Distinct.{
  insert_sorted-Distinct, remove_ident-Distinct, remove_ident-SortedFrom, find-remove_ident,
  drop-Distinct, drop-SortedFrom,
}
use zone_mta.TtlCache.Expiry.{Agrees, expire_loop-Agrees, sorted-run_check_expired}

-- `data` and `sorted` hold the same entries under the same keys, `sorted` is ordered by expiry time,
-- and no two of its entries share a key or are one object.
pub record IsValid {ℓ} {V : Type ℓ} (c : Cache V) : Type ℓ where
  pub agrees : Agrees c.data_map c.sorted
  pub ordered : SortedFrom 0 c.sorted
  pub distinct : Distinct c.next_ident c.sorted

module _ {ℓ} {V : Type ℓ} where
  pub init-IsValid : (ttl : ℕ) → IsValid (init {V = V} ttl)
  unfolding init find Maps.get
  init-IsValid ttl = record { agrees = λ k. refl; ordered = tt; distinct = tt }

  pub remove-IsValid : (c : Cache V) (key : String) → IsValid c → IsValid (remove c key).0
  unfolding remove
  remove-IsValid c key v = elim (Option-cases (Maps.get key c.data_map)) [
    | inl e ↦ rw (e, remove) v
    | inr (x, e) ↦
        rw (e, remove)
          (record {
            agrees = λ k. ground (
              arith,
              get-delete key k c.data_map,
              v.agrees k,
              v.agrees key,
              find-remove_ident c.next_ident key k c.sorted x v.distinct,
            );
            ordered = remove_ident-SortedFrom 0 x.ident c.sorted v.ordered;
            distinct = remove_ident-Distinct c.next_ident x.ident c.sorted v.distinct;
          })
  ]

  pub get-IsValid :
      (c : Cache V) (key : String) (now : ℕ) → IsValid c → IsValid (TtlCache.get c key now).0
  unfolding TtlCache.get
  get-IsValid c key now v = elim (Option-cases (Maps.get key c.data_map)) [
    | inl e ↦ rw (e, TtlCache.get) v
    | inr (x, e) ↦
        rw (e, TtlCache.get)
          (elim (Bool-cases (ltb x.expires now)) [
            | inl old ↦ rw old (remove-IsValid c key v)
            | inr live ↦ rw live v
          ])
  ]

  -- The entry that `set` makes.
  abbrev pub new_entry : Cache V → String → V → ℕ → Option ℕ → ℕ → Entry V
  new_entry c key v life expire_cb now = record {
    ident = c.next_ident;
    key = key;
    value = v;
    ttl = life;
    created = now;
    expires = now + life;
    expire_cb = expire_cb;
  }

  store-IsValid :
      (c : Cache V) (e : Entry V) (tasks : List (Task V))
      → e.ident ≡ c.next_ident
      → IsValid c
      → IsValid (record c {
        data_map = Maps.set e.key e c.data_map;
        sorted = insert_sorted e c.sorted;
        pending = tasks;
        next_ident = suc c.next_ident;
      })
  store-IsValid c e tasks h v = record {
    agrees = λ k.
        ground (arith, get-set e.key k e c.data_map, v.agrees k, find-insert_sorted k e c.sorted);
    ordered = insert_sorted-SortedFrom e c.sorted v.ordered;
    distinct = rw (← h) (insert_sorted-Distinct e c.sorted (rw h v.distinct));
  }

  set_life-IsValid :
      (c : Cache V) (key : String) (v : V) (life : ℕ) (expire_cb : Option ℕ) (now : ℕ)
      → IsValid c
      → IsValid (TtlCache.set c key (some v) (some life) expire_cb now).0
  unfolding set
  set_life-IsValid c key v life expire_cb now h = elim (Bool-cases (life == 0)) [
    | inl e ↦ rw e (remove-IsValid c key h)
    | inr e ↦ rw e (store-IsValid c (new_entry c key v life expire_cb now) _ refl h)
  ]

  set_default :
      (c : Cache V) (key : String) (value : Option V) (expire_cb : Option ℕ) (now : ℕ)
      → set c key value none expire_cb now ≡ set c key value (some c.default_ttl) expire_cb now
  unfolding set
  set_default c key value expire_cb now = refl

  pub set-IsValid :
      (c : Cache V) (key : String) (value : Option V) (ttl expire_cb : Option ℕ) (now : ℕ)
      → IsValid c
      → IsValid (set c key value ttl expire_cb now).0
  unfolding set
  set-IsValid c key none ttl expire_cb now h = remove-IsValid c key h
  set-IsValid c key (some v) (some life) expire_cb now h =
      set_life-IsValid c key v life expire_cb now h
  set-IsValid c key (some v) none expire_cb now h =
      set_life-IsValid c key v c.default_ttl expire_cb now h

  pub run_check_expired-IsValid :
      (c : Cache V) (now : ℕ) → IsValid c → IsValid (run_check_expired c now)
  unfolding run_check_expired
  run_check_expired-IsValid c now v =
      let e = sorted-run_check_expired c.next_ident now c v.distinct v.agrees in
      record {
        agrees = rw e (expire_loop-Agrees c.next_ident now c.sorted c.data_map v.distinct v.agrees);
        ordered = rw e (drop-SortedFrom _ c.sorted v.ordered);
        distinct = rw e (drop-Distinct c.next_ident _ c.sorted v.distinct);
      }

  -- A change of the timer or of the pending tasks does no harm.
  retime-IsValid :
      (c : Cache V) (timer : Option ℕ) (tasks : List (Task V))
      → IsValid c
      → IsValid (record c { check_timer = timer; pending = tasks })
  retime-IsValid c timer tasks v = record {
    agrees = v.agrees;
    ordered = v.ordered;
    distinct = v.distinct;
  }

  run_update_timer-IsValid : (c : Cache V) (now : ℕ) → IsValid c → IsValid (run_update_timer c now)
  unfolding run_update_timer
  run_update_timer-IsValid c now v = timed c.sorted refl
    where
      timed : (xs : List (Entry V)) → c.sorted ≡ xs → IsValid (run_update_timer c now)
      timed [] e = rw (e, run_update_timer) (retime-IsValid c none c.pending v)
      timed (x ∷ xs) e =
          rw (e, run_update_timer)
            (elim (Bool-cases (leb x.expires now)) [
              | inl due ↦ rw due (retime-IsValid c none _ v)
              | inr live ↦ rw live (retime-IsValid c _ c.pending v)
            ])

  run_task-IsValid : (t : Task V) (c : Cache V) (now : ℕ) → IsValid c → IsValid (run_task t c now)
  unfolding run_task
  run_task-IsValid update_timer c now v = run_update_timer-IsValid c now v
  run_task-IsValid check_expired c now v = run_check_expired-IsValid c now v
  run_task-IsValid (run_callback f a) c now v = v

  pub run_pending-IsValid : (c : Cache V) (now : ℕ) → IsValid c → IsValid (run_pending c now)
  unfolding run_pending
  run_pending-IsValid c now v = popped c.pending refl
    where
      popped : (ts : List (Task V)) → c.pending ≡ ts → IsValid (run_pending c now)
      popped [] e = rw (e, run_pending) v
      popped (t ∷ ts) e =
          rw (e, run_pending) (run_task-IsValid t _ now (retime-IsValid c c.check_timer ts v))

  pub fire_timer-IsValid : (c : Cache V) (now : ℕ) → IsValid c → IsValid (fire_timer c now)
  unfolding fire_timer
  fire_timer-IsValid c now v = elim (Option-cases c.check_timer) [
    | inl e ↦ rw (e, fire_timer) v
    | inr (due, e) ↦
        rw (e, fire_timer)
          (elim (Bool-cases (leb due now)) [
            | inl h ↦ rw h (run_check_expired-IsValid _ now (retime-IsValid c none c.pending v))
            | inr h ↦ rw h v
          ])
  ]

  pub flush-IsValid : (c : Cache V) → IsValid c → IsValid (flush c)
  unfolding flush find Maps.get
  flush-IsValid c v = record { agrees = λ k. refl; ordered = tt; distinct = tt }
