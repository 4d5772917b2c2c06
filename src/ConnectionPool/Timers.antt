-- ===== src/ConnectionPool/Timers.antt =====
-- lib/connection-pool.js: lemmas on the kill timers and on the lists of connections.
use zone_mta.Prelude.{
  ℕ, ◌<◌, ◌≤◌, ◌≡◌, refl, ◌≢◌, true, false, Bool, ◌≢◌, none, some, List, [], ◌∷◌, arith, length,
  All, ite, ℕ_discrete,
}
use zone_mta.ConnectionPool.{Conn, Timer, splice_connection, clear_timer, find_timer}
use zone_mta.ConnectionPool.Events.{is_timed}

-- No connection has two timers.
unfoldable pub OneEach : List Timer → Type 0
unfolding is_timed
OneEach [] = Unit
OneEach (t ∷ ts) = (is_timed t.connection ts ≡ false) × OneEach ts

pub is_timed-clear_timer :
    (n i : ℕ) (ts : List Timer) → is_timed n ts ≡ false → is_timed n (clear_timer i ts) ≡ false
unfolding is_timed clear_timer OneEach
is_timed-clear_timer n i [] h = refl
is_timed-clear_timer n i (t ∷ ts) h = ground (arith, is_timed-clear_timer n i ts)

pub clear_timer-OneEach : (i : ℕ) (ts : List Timer) → OneEach ts → OneEach (clear_timer i ts)
unfolding is_timed clear_timer OneEach
clear_timer-OneEach i [] h = tt
clear_timer-OneEach i (t ∷ ts) h =
    ground (arith, clear_timer-OneEach i ts h.1, is_timed-clear_timer t.connection i ts h.0)

pub find_timer-is_timed :
    (i : ℕ) (ts : List Timer) (t : Timer)
    → find_timer i ts ≡ some t
    → is_timed t.connection ts ≡ true
unfolding find_timer is_timed
find_timer-is_timed i [] t e = ground arith
find_timer-is_timed i (x ∷ xs) t e = ground (arith, find_timer-is_timed i xs t)

is_timed_other :
    (n i : ℕ) (ts : List Timer) (t : Timer)
    → is_timed n ts ≡ false
    → find_timer i ts ≡ some t
    → n ≢ t.connection
unfolding find_timer is_timed
is_timed_other n i [] t h e = ground arith
is_timed_other n i (x ∷ xs) t h e = ground (arith, is_timed_other n i xs t)

-- Once its timer is cleared, a connection has none.
pub is_timed_cleared :
    (i : ℕ) (ts : List Timer) (t : Timer)
    → OneEach ts
    → find_timer i ts ≡ some t
    → is_timed t.connection (clear_timer i ts) ≡ false
unfolding is_timed clear_timer find_timer OneEach
is_timed_cleared i [] t h e = refl
is_timed_cleared i (x ∷ xs) t h e = ground (
  arith,
  is_timed_cleared i xs t h.1,
  is_timed-clear_timer t.connection i xs,
  is_timed_other x.connection i xs t h.0,
)

pub length-clear_timer_le : (i : ℕ) (ts : List Timer) → length (clear_timer i ts) ≤ length ts
unfolding clear_timer
length-clear_timer_le i [] = omega arith
length-clear_timer_le i (t ∷ ts) = ground (arith, length-clear_timer_le i ts)

pub length-clear_timer :
    (i : ℕ) (ts : List Timer) (t : Timer)
    → find_timer i ts ≡ some t
    → length (clear_timer i ts) < length ts
unfolding clear_timer find_timer
length-clear_timer i [] t e = ground arith
length-clear_timer i (x ∷ xs) t e =
    ground (arith, length-clear_timer i xs t, length-clear_timer_le i xs)

pub find_timer-clear_timer :
    (i j : ℕ) (ts : List Timer)
    → find_timer j (clear_timer i ts) ≡ ite (ℕ_discrete i j) none (find_timer j ts)
unfolding clear_timer find_timer
find_timer-clear_timer i j [] = ground arith
find_timer-clear_timer i j (t ∷ ts) = ground (arith, find_timer-clear_timer i j ts)

pub find_timer_old :
    (i n : ℕ) (ts : List Timer) (t : Timer)
    → All (λ t. t.ident < n) ts
    → find_timer i ts ≡ some t
    → i < n
unfolding find_timer
find_timer_old i n [] t h e = ground arith
find_timer_old i n (x ∷ xs) t h e = ground (arith, find_timer_old i n xs t h.1, h.0)

pub All-clear_timer :
    (P : Timer → Type 0) (i : ℕ) (ts : List Timer) → All P ts → All P (clear_timer i ts)
unfolding clear_timer
All-clear_timer P i [] h = tt
All-clear_timer P i (t ∷ ts) h = ground (arith, All-clear_timer P i ts h.1, h.0)

-- No connection stands twice in a list.
unfoldable pub is_listed : ℕ → List Conn → Bool
is_listed n [] = false
is_listed n (c ∷ cs) = ite (ℕ_discrete c.connection n) true (is_listed n cs)

unfoldable pub AllOnce : List Conn → Type 0
unfolding is_listed
AllOnce [] = Unit
AllOnce (c ∷ cs) = (is_listed c.connection cs ≡ false) × AllOnce cs

pub is_listed-splice :
    (n k : ℕ) (cs : List Conn)
    → is_listed n cs ≡ false
    → is_listed n (splice_connection k cs) ≡ false
unfolding is_listed splice_connection
is_listed-splice n k [] h = refl
is_listed-splice n k (c ∷ cs) h = ground (arith, is_listed-splice n k cs)

pub splice-AllOnce : (n : ℕ) (cs : List Conn) → AllOnce cs → AllOnce (splice_connection n cs)
unfolding is_listed splice_connection AllOnce
splice-AllOnce n [] h = tt
splice-AllOnce n (c ∷ cs) h =
    ground (arith, splice-AllOnce n cs h.1, is_listed-splice c.connection n cs h.0)

All-not_listed :
    (m n : ℕ) (cs : List Conn) → is_listed m cs ≡ false → m ≡ n → All (λ c. c.connection ≢ n) cs
unfolding is_listed
All-not_listed m n [] h e = tt
All-not_listed m n (c ∷ cs) h e = ground (arith, All-not_listed m n cs)

not_spliced :
    (n : ℕ) (cs : List Conn) → AllOnce cs → All (λ c. c.connection ≢ n) (splice_connection n cs)
unfolding is_listed splice_connection AllOnce
not_spliced n [] h = tt
not_spliced n (c ∷ cs) h =
    ground (arith, not_spliced n cs h.1, All-not_listed c.connection n cs h.0)

All-splice :
    (P : Conn → Type 0) (n : ℕ) (cs : List Conn) → All P cs → All P (splice_connection n cs)
unfolding splice_connection
All-splice P n [] h = tt
All-splice P n (c ∷ cs) h = ground (arith, All-splice P n cs h.1, h.0)

All-both : (P Q : Conn → Type 0) (cs : List Conn) → All P cs → All Q cs → All (λ c. P c × Q c) cs
All-both P Q [] h g = tt
All-both P Q (c ∷ cs) h g = ((h.0, g.0), All-both P Q cs h.1 g.1)

-- What is left of a list is as it was, less the connection.
pub All-spliced :
    (P : Conn → Type 0) (n : ℕ) (cs : List Conn)
    → AllOnce cs
    → All P cs
    → All (λ c. P c × (c.connection ≢ n)) (splice_connection n cs)
All-spliced P n cs o h =
    All-both P (λ c. c.connection ≢ n) (splice_connection n cs) (All-splice P n cs h)
      (not_spliced n cs o)
