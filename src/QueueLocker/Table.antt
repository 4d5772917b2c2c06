-- ===== src/QueueLocker/Table.antt =====
-- lib/queue-locker.js: the locker as a table of held keys, without its maps, sets, marks and timer.
use zone_mta.Prelude.{
  ℕ, ◌+◌, ◌*◌, ◌≤◌, String, ◌≡◌, refl, ap, ◌∙◌, ◌⊎◌, inl, inr, ite, Option, none, some, List, [],
  ◌∷◌, arith, ◌==◌, if◌then◌else◌, text_discrete, Option-cases, map,
}
use zone_mta.Prelude.Maps
use zone_mta.QueueLocker.{
  Locker, Lock, init, lock, install, release, release_all, release_lock_owner, check_expired,
  list_skip_domains, expired_keys, earliest, locks_under,
}
use zone_mta.QueueLocker.Events.{
  Event, locks_key, releases, releases_owner, fires, lists, fire, step, run,
}
use zone_mta.QueueLocker.Held.{holder, holder-lock, holder-release}
use zone_mta.QueueLocker.Owners.Keeps.{holder-release_lock_owner, holder-check_expired}
use zone_mta.QueueLocker.Timing.{Armed}
use zone_mta.QueueLocker.Reachable.{IsSound, init-IsSound, step-IsSound}

pub record Holding : Type 0 where
  pub zone : String
  pub domain : Option String
  pub lock_owner : String
  pub max_connections : ℕ
  pub expires : ℕ

-- Who holds which key.
abbrev pub Table : Type 0
Table = String → Option Holding

abbrev pub holding_of : Option Lock → Option Holding
holding_of none = none
holding_of (some k) = some (record {
  zone = k.zone;
  domain = k.domain;
  lock_owner = k.lock_owner;
  max_connections = k.max_connections;
  expires = k.expires;
})

abbrev pub view : Locker → Table
view l key = holding_of (holder key l)

abbrev pub unless_held_by : String → Option Holding → Option Holding
unless_held_by owner none = none
unless_held_by owner (some h) = ite (text_discrete h.lock_owner owner) none (some h)

-- A run of the timer at `now` frees what has expired; it may leave what expires in this very millisecond.
abbrev pub IsChecked : ℕ → Option Holding → Option Holding → Type 0
IsChecked now none after = after ≡ none
IsChecked now (some h) after =
    ((after ≡ some h) × (now ≤ h.expires)) ⊎ ((after ≡ none) × (h.expires ≤ now))

-- What each event may do to the table. A time to live of 0 counts as ten minutes.
abbrev pub IsTableStep : Table → ℕ × Event → Table → Type 0
IsTableStep t (now, locks_key key zone domain owner limit ttl) t' =
    (j : String)
    → t' j ≡ elim (t key) [
      | none ↦
          ite (text_discrete key j)
            (some (record {
              zone = zone;
              domain = domain;
              lock_owner = owner;
              max_connections = limit;
              expires = now + (if ttl == 0 then 10 * 60 * 1000 else ttl);
            }))
            (t j)
      | some h ↦ t j
    ]
IsTableStep t (now, releases none) t' = (j : String) → t' j ≡ t j
IsTableStep t (now, releases (some key)) t' =
    (j : String) → t' j ≡ ite (text_discrete key j) none (t j)
IsTableStep t (now, releases_owner owner) t' = (j : String) → t' j ≡ unless_held_by owner (t j)
IsTableStep t (now, fires) t' = (j : String) → IsChecked now (t j) (t' j)
IsTableStep t (now, lists zone) t' = (j : String) → t' j ≡ t j

-- A run of the table from `t` to `t'`.
abbrev pub IsTableRun : Table → List (ℕ × Event) → Table → Type 0
IsTableRun t [] t' = (j : String) → t' j ≡ t j
IsTableRun t (e ∷ es) t' = (m : Table) × IsTableStep t e m × IsTableRun m es t'

release-default_ttl :
    (l : Locker) (key : Option String) → (release l key).0.default_ttl ≡ l.default_ttl
unfolding release
release-default_ttl l none = refl
release-default_ttl l (some key) = ground arith

release_all-default_ttl :
    (keys : List String) (l : Locker) → (release_all keys l).default_ttl ≡ l.default_ttl
unfolding release_all
release_all-default_ttl [] l = refl
release_all-default_ttl (key ∷ keys) l =
    release_all-default_ttl keys (release l (some key)).0 ∙ release-default_ttl l (some key)

check_expired-default_ttl :
    (l : Locker) (now : ℕ) → (check_expired l now).default_ttl ≡ l.default_ttl
unfolding check_expired
check_expired-default_ttl l now = ground (
  arith,
  release_all-default_ttl (expired_keys now l.locks)
      (record l { next_expire_check = earliest now l.locks none; lock_check_timer = none }),
)

fire-default_ttl :
    (timer : Option ℕ) (l : Locker) (now : ℕ) → (fire timer l now).default_ttl ≡ l.default_ttl
unfolding fire
fire-default_ttl none l now = refl
fire-default_ttl (some due) l now = ground (arith, check_expired-default_ttl l now)

step-default_ttl : (l : Locker) (e : ℕ × Event) → (step l e).default_ttl ≡ l.default_ttl
unfolding step release_lock_owner list_skip_domains lock install
step-default_ttl l (now, locks_key key zone domain owner limit ttl) = ground arith
step-default_ttl l (now, releases key) = release-default_ttl l key
step-default_ttl l (now, releases_owner owner) =
    release_all-default_ttl (map (λ k. k.key) (locks_under owner l.lock_owners)) l
step-default_ttl l (now, fires) = fire-default_ttl l.lock_check_timer l now
step-default_ttl l (now, lists zone) = ground arith

lock-IsTableStep :
    (l : Locker) (key zone : String) (domain : Option String) (owner : String) (limit ttl now : ℕ)
    → l.default_ttl ≡ 10 * 60 * 1000
    → IsTableStep
        (view l)
        (now, locks_key key zone domain owner limit ttl)
        (view (lock l key zone domain owner limit ttl now).0)
lock-IsTableStep l key zone domain owner limit ttl now d j =
    elim (holder-lock l key zone domain owner limit ttl now) [
      | inl (free, won, held) ↦ ground (arith, free, held j, d)
      | inr ((k, busy), kept) ↦ ground (arith, busy, ap (λ x. holder j x.0) kept)
    ]

fire-IsChecked :
    (timer : Option ℕ) (l : Locker) (now : ℕ) (j : String)
    → IsSound l
    → Armed l.next_expire_check timer
    → IsChecked now (view l j) (view (fire timer l now) j)
unfolding fire
fire-IsChecked none l now j s a = elim (Option-cases (holder j l)) [
  | inl e ↦ ground (arith, e)
  | inr (k, e) ↦ ground (arith, e, s.timed.covered j k e)
]
fire-IsChecked (some due) l now j s a = elim (Option-cases (holder j l)) [
  | inl e ↦ ground (arith, e, holder-check_expired l now j s.consistent)
  | inr (k, e) ↦ ground (arith, e, s.timed.covered j k e, holder-check_expired l now j s.consistent)
]

step-IsTableStep :
    (l : Locker) (e : ℕ × Event)
    → IsSound l
    → l.default_ttl ≡ 10 * 60 * 1000
    → IsTableStep (view l) e (view (step l e))
unfolding step list_skip_domains release
step-IsTableStep l (now, locks_key key zone domain owner limit ttl) s d =
    lock-IsTableStep l key zone domain owner limit ttl now d
step-IsTableStep l (now, releases none) s d = λ j. refl
step-IsTableStep l (now, releases (some key)) s d = λ j. ground (arith, holder-release l key j)
step-IsTableStep l (now, releases_owner owner) s d =
    λ j. ground (arith, holder-release_lock_owner l owner j s.consistent)
step-IsTableStep l (now, fires) s d = λ j. fire-IsChecked l.lock_check_timer l now j s s.timed.armed
step-IsTableStep l (now, lists zone) s d = λ j. ground arith

run-IsTableRun :
    (es : List (ℕ × Event)) (l : Locker)
    → IsSound l
    → l.default_ttl ≡ 10 * 60 * 1000
    → IsTableRun (view l) es (view (run l es))
unfolding run
run-IsTableRun [] l s d = λ j. refl
run-IsTableRun (e ∷ es) l s d = (
  view (step l e),
  step-IsTableStep l e s d,
  run-IsTableRun es (step l e) (step-IsSound l e s) (step-default_ttl l e ∙ d),
)

-- Whatever sequence of calls and timer runs a new locker goes through, the table of its held keys
-- goes through a run of the table that starts empty: a lock takes a free key, a release frees its
-- key, the end of an owner frees all that it holds, and a run of the timer frees what has expired.
pub run-init-IsTableRun : (es : List (ℕ × Event)) → IsTableRun (λ key. none) es (view (run init es))
unfolding init Maps.get
run-init-IsTableRun es = run-IsTableRun es init init-IsSound refl
