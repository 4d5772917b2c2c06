-- ===== src/ConnectionPool.antt =====
-- lib/connection-pool.js: open connections to reuse, by key.
--
-- A connection is its identity. `alive` is the test `connected && !_closing && !_destroyed` of a
-- connection at the time of the call. `timers` are the kill timers that are set and not cleared;
-- `raised`, `lowered` and `reused` count the commands sent for `connPoolSizeGauge` and
-- `connReuseCounter`, and `killed` are the connections given to `killConnection`.
pub mod Events
pub mod Timers
pub mod Invariant
pub mod Kept
pub mod Adds
pub mod Reuse
mod Tests
use zone_mta.Prelude.{
  ◌≡◌, refl, ◌⊎◌, inl, inr, ℕ, suc, ◌+◌, ◌*◌, String, ite, if◌then◌else◌, Bool, true, false, Option,
  none, some, List, [], ◌∷◌, ◌++◌, is_some, ℕ_discrete,
}
use zone_mta.Prelude.Maps
use zone_mta.Prelude.Maps.{Map}

pub record Conn : Type 0 where
  pub timer : ℕ
  pub connection : ℕ

pub record Timer : Type 0 where
  pub ident : ℕ
  pub key : String
  pub connection : ℕ
  pub due : ℕ

pub record Pool : Type 0 where
  pub connection_pool : Map (List Conn)
  pub timers : List Timer
  pub next_timer : ℕ
  pub raised : ℕ
  pub lowered : ℕ
  pub reused : ℕ
  pub killed : List ℕ

unfoldable pub init : Pool
init = record {
  connection_pool = [];
  timers = [];
  next_timer = 0;
  raised = 0;
  lowered = 0;
  reused = 0;
  killed = [];
}

-- `clearTimeout`, and the timer that runs
unfoldable pub clear_timer : ℕ → List Timer → List Timer
clear_timer i [] = []
clear_timer i (t ∷ ts) = let rest = clear_timer i ts in ite (ℕ_discrete t.ident i) rest (t ∷ rest)

unfoldable pub find_timer : ℕ → List Timer → Option Timer
find_timer i [] = none
find_timer i (t ∷ ts) = ite (ℕ_discrete t.ident i) (some t) (find_timer i ts)

unfoldable pub has : Pool → String → Bool
has p key = is_some (Maps.get key p.connection_pool)

-- `getConnection` reads `length` of what the map has, which throws where it has nothing.
pub data Taken : Type 0 where
  threw : Taken
  nothing : Taken
  handed : Conn → Taken

pub Taken-cases : (t : Taken) → ((c : Conn) × (t ≡ handed c)) ⊎ ((t ≡ nothing) ⊎ (t ≡ threw))
Taken-cases threw = inr (inr refl)
Taken-cases nothing = inr (inl refl)
Taken-cases (handed c) = inl (c, refl)

-- A connection taken off the front of its list. `connList.size` of an array is undefined, so the
-- key is deleted whatever the list still holds.
unfoldable pub take_first : (ℕ → Bool) → Pool → String → Conn → Pool × Taken
unfolding clear_timer
take_first alive p key c =
    let rest : Pool = record p {
      connection_pool = Maps.delete key p.connection_pool;
      timers = clear_timer c.timer p.timers;
    } in
    if alive c.connection
    then (record rest { lowered = suc p.lowered; reused = suc p.reused }, handed c)
    else (rest, nothing)

unfoldable pub get_connection : (ℕ → Bool) → Pool → String → Pool × Taken
unfolding take_first
get_connection alive p key = elim (Maps.get key p.connection_pool) [
  | none ↦ (p, threw)
  | some [] ↦ (p, nothing)
  | some (c ∷ cs) ↦ take_first alive p key c
]

-- The loop with `splice` and `break`
unfoldable pub splice_connection : ℕ → List Conn → List Conn
splice_connection n [] = []
splice_connection n (c ∷ cs) =
    let rest = splice_connection n cs in ite (ℕ_discrete c.connection n) cs (c ∷ rest)

abbrev pub put_back : String → List Conn → Map (List Conn) → Map (List Conn)
put_back key [] m = Maps.delete key m
put_back key (c ∷ cs) m = Maps.set key (c ∷ cs) m

-- What the kill timer does.
unfoldable pub kill : Pool → Timer → Pool
unfolding clear_timer splice_connection
kill p t = record p {
  connection_pool = elim (Maps.get t.key p.connection_pool) [
    | none ↦ p.connection_pool
    | some cs ↦ put_back t.key (splice_connection t.connection cs) p.connection_pool
  ];
  timers = clear_timer t.ident p.timers;
  lowered = suc p.lowered;
  killed = p.killed ++ t.connection ∷ [];
}

abbrev pub pooled_under : String → Map (List Conn) → List Conn
pooled_under key m = elim (Maps.get key m) [ none ↦ [] | some cs ↦ cs ]

-- `ttl` is in seconds, `now` in milliseconds.
unfoldable pub add : Pool → String → ℕ → ℕ → ℕ → Pool
add p key connection ttl now = record p {
  connection_pool =
      Maps.set key
        (pooled_under key p.connection_pool
          ++ record { timer = p.next_timer; connection = connection } ∷ [])
        p.connection_pool;
  timers =
      record { ident = p.next_timer; key = key; connection = connection; due = now + ttl * 1000 }
      ∷ p.timers;
  next_timer = suc p.next_timer;
  raised = suc p.raised;
}
