-- ===== src/TtlCache.antt =====
-- lib/ttl-cache.js: the cache that the queue server shares between its senders.
--
-- `Cache` is the object of class TtlCache. `Date.now()` is the argument `now` of each operation;
-- what the code hands to `setImmediate` is appended to `pending`, and `check_timer` holds the time
-- at which the timer set by `updateTimer` is due. Entries are shared between `data` and `sorted`:
-- `ident` is the identity that `===` compares. `turn` is one turn of the event loop.
mod Sorted
pub mod Invariant
pub mod Expiry
pub mod Scheduling
pub mod Reads
mod Tests
use zone_mta.Prelude.{
  ℕ, suc, ◌+◌, ◌-◌, ◌*◌, String, ite, Bool, true, false, Option, none, some, List, [], ◌∷◌, ◌++◌,
  leb, ltb, ◌==◌, if◌then◌else◌, length, drop, text_discrete, ℕ_discrete,
}
use zone_mta.Prelude.Maps
use zone_mta.Prelude.Maps.{Map}

-- The callback of an entry is a name for the function that the caller gave.
pub record Entry {ℓ} (V : Type ℓ) : Type ℓ where
  pub ident : ℕ
  pub key : String
  pub value : V
  pub ttl : ℕ
  pub created : ℕ
  pub expires : ℕ
  pub expire_cb : Option ℕ

pub data Task {ℓ} (V : Type ℓ) : Type ℓ where
  update_timer check_expired : Task V
  run_callback : ℕ → V → Task V

pub record Cache {ℓ} (V : Type ℓ) : Type ℓ where
  pub default_ttl : ℕ
  pub data_map : Map (Entry V)
  pub sorted : List (Entry V)
  pub check_timer : Option ℕ
  pub pending : List (Task V)
  pub next_ident : ℕ

module _ {ℓ} {V : Type ℓ} where
  unfoldable pub init : ℕ → Cache V
  init default_ttl = record {
    default_ttl = if default_ttl == 0 then 5 * 1000 else default_ttl;
    data_map = [];
    sorted = [];
    check_timer = none;
    pending = [];
    next_ident = 0;
  }

  abbrev pub callback_of : Entry V → List (Task V)
  callback_of e = elim e.expire_cb [ none ↦ [] | some func ↦ run_callback func e.value ∷ [] ]

  -- `this.sorted.splice(i, 1)` at the first entry that is this very object
  unfoldable pub remove_ident : ℕ → List (Entry V) → List (Entry V)
  remove_ident n [] = []
  remove_ident n (x ∷ xs) = ite (ℕ_discrete x.ident n) xs (x ∷ remove_ident n xs)

  unfoldable pub remove : Cache V → String → Cache V × Bool
  remove c key = elim (Maps.get key c.data_map) [
    | none ↦ (c, false)
    | some e ↦ (
      record c {
        data_map = Maps.delete key c.data_map;
        sorted = remove_ident e.ident c.sorted;
        pending = (c.pending ++ callback_of e) ++ update_timer ∷ [];
      },
      true,
    )
  ]

  unfoldable pub get : Cache V → String → ℕ → Cache V × Option V
  unfolding remove
  get c key now = elim (Maps.get key c.data_map) [
    | none ↦ (c, none)
    | some e ↦ if ltb e.expires now then ((remove c key).0, none) else (c, some e.value)
  ]

  -- The loop of `set` from the last index down: entries of the key are spliced out, and `e` goes
  -- behind the last one that expires no later. The flag is `added`.
  unfoldable pub place : Entry V → List (Entry V) → List (Entry V) × Bool
  place e [] = ([], false)
  place e (x ∷ xs) =
      let (ys, added) = place e xs in
      ite (text_discrete x.key e.key) (ys, added)
        (if added
          then (x ∷ ys, true)
          else if leb x.expires e.expires
          then (x ∷ e ∷ ys, true)
          else (x ∷ ys, false))

  -- `if (!added) this.sorted.unshift(data)`
  unfoldable pub insert_sorted : Entry V → List (Entry V) → List (Entry V)
  unfolding place
  insert_sorted e xs = let (ys, added) = place e xs in if added then ys else e ∷ ys

  -- `ttl` is `none` where it is undefined, `value` is `none` where it is null. The code returns
  -- false where it refuses, and nothing otherwise.
  unfoldable pub set : Cache V → String → Option V → Option ℕ → Option ℕ → ℕ → Cache V × Bool
  unfolding remove insert_sorted
  set c key value ttl expire_cb now =
      let life : ℕ = elim ttl [ none ↦ c.default_ttl | some t ↦ t ] in
      elim value [
        | none ↦ ((remove c key).0, false)
        | some v ↦
            if life == 0
            then ((remove c key).0, false)
            else let e : Entry V = record {
              ident = c.next_ident;
              key = key;
              value = v;
              ttl = life;
              created = now;
              expires = now + life;
              expire_cb = expire_cb;
            } in
              (
                record c {
                  data_map = Maps.set key e c.data_map;
                  sorted = insert_sorted e c.sorted;
                  pending = c.pending ++ update_timer ∷ [];
                  next_ident = suc c.next_ident;
                },
                true,
              )
      ]

  unfoldable pub run_update_timer : Cache V → ℕ → Cache V
  run_update_timer c now = elim c.sorted [
    | [] ↦ record c { check_timer = none }
    | e ∷ _ ↦
        if leb e.expires now
        then record c { check_timer = none; pending = c.pending ++ check_expired ∷ [] }
        else record c { check_timer = some (now + (e.expires - now + 1)) }
  ]

  -- The loop of `checkExpired`: how many entries have expired, the map without them, and the
  -- callbacks; it stops at the first entry that is still alive.
  unfoldable pub expire_loop :
      ℕ → List (Entry V) → Map (Entry V) → ℕ × Map (Entry V) × List (Task V)
  expire_loop now [] m = (0, m, [])
  expire_loop now (x ∷ xs) m =
      let (n, m', tasks) = expire_loop now xs (Maps.delete x.key m) in
      if leb x.expires now then (suc n, m', callback_of x ++ tasks) else (0, m, [])

  unfoldable pub run_check_expired : Cache V → ℕ → Cache V
  unfolding expire_loop
  run_check_expired c now =
      let (expired, m, tasks) = expire_loop now c.sorted c.data_map in
      record c {
        data_map = m;
        sorted =
            if (expired == length c.sorted)
            then []
            else if (length m == 0)
            then []
            else drop expired c.sorted;
        pending = (c.pending ++ tasks) ++ update_timer ∷ [];
      }

  unfoldable pub flush : Cache V → Cache V
  flush c = record c { data_map = []; sorted = []; check_timer = none }

  run_task : Task V → Cache V → ℕ → Cache V
  unfolding run_update_timer run_check_expired
  run_task update_timer c now = run_update_timer c now
  run_task check_expired c now = run_check_expired c now
  run_task (run_callback func v) c now = c

  -- The event loop takes the oldest task that is pending.
  unfoldable pub run_pending : Cache V → ℕ → Cache V
  unfolding run_task
  run_pending c now = elim c.pending [
    | [] ↦ c
    | task ∷ rest ↦ run_task task (record c { pending = rest }) now
  ]

  -- The timer fires once it is due.
  unfoldable pub fire_timer : Cache V → ℕ → Cache V
  unfolding run_check_expired
  fire_timer c now = elim c.check_timer [
    | none ↦ c
    | some due ↦ if leb due now then run_check_expired (record c { check_timer = none }) now else c
  ]

-- What can happen to a cache: calls, a turn of the event loop, the timer, each at a time.
pub data Event {ℓ} (V : Type ℓ) : Type ℓ where
  gets removes : String → Event V
  sets : String → Option V → Option ℕ → Option ℕ → Event V
  turns fires flushes : Event V

module _ {ℓ} {V : Type ℓ} where
  unfoldable pub step : Cache V → ℕ × Event V → Cache V
  step c (now, gets key) = (get c key now).0
  step c (now, removes key) = (remove c key).0
  step c (now, sets key value ttl expire_cb) = (set c key value ttl expire_cb now).0
  step c (now, turns) = run_pending c now
  step c (now, fires) = fire_timer c now
  step c (now, flushes) = flush c

  unfoldable pub run : Cache V → List (ℕ × Event V) → Cache V
  unfolding step
  run c [] = c
  run c (e ∷ es) = run (step c e) es
