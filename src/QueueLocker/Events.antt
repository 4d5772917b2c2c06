-- ===== src/QueueLocker/Events.antt =====
-- lib/queue-locker.js: sequences of calls and timer runs.
use zone_mta.Prelude.{ℕ, String, Option, none, some, List, [], ◌∷◌, leb, if◌then◌else◌}
use zone_mta.QueueLocker.{
  Locker, lock, release, release_lock_owner, check_expired, list_skip_domains,
}

-- What can happen to a locker, each at a time.
pub data Event : Type 0 where
  locks_key : String → String → Option String → String → ℕ → ℕ → Event
  releases : Option String → Event
  releases_owner : String → Event
  fires : Event
  lists : String → Event

-- The timer calls `checkExpired` once it is due.
unfoldable pub fire : Option ℕ → Locker → ℕ → Locker
fire none l now = l
fire (some due) l now = if leb due now then check_expired l now else l

unfoldable pub step : Locker → ℕ × Event → Locker
step l (now, locks_key key zone domain owner limit ttl) =
    (lock l key zone domain owner limit ttl now).0
step l (now, releases key) = (release l key).0
step l (now, releases_owner owner) = release_lock_owner l owner
step l (now, fires) = fire l.lock_check_timer l now
step l (now, lists zone) = (list_skip_domains l zone).0

unfoldable pub run : Locker → List (ℕ × Event) → Locker
unfolding step
run l [] = l
run l (e ∷ es) = run (step l e) es
