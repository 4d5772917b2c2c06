-- ===== src/QueueLocker/Tests.antt =====
-- Runs of the locker of lib/queue-locker.js.
use zone_mta.Prelude.{
  ℕ, ◌⊎◌, String, ◌≡◌, refl, ite, if◌then◌else◌, true, false, none, some, List, [], ◌∷◌, arith,
  ◌==◌, text_discrete,
}
use zone_mta.Prelude.Maps
use zone_mta.QueueLocker.{Locker, Lock, init, lock, new_lock, domain_is_skipped, list_skip_domains}
use zone_mta.QueueLocker.Events.{Event, locks_key, fires, lists, step, run}
use zone_mta.QueueLocker.Held.{holder, holder-lock}
use zone_mta.QueueLocker.Reachable.{IsSound, run-init-IsSound}
use zone_mta.QueueLocker.Table.{IsTableRun, view, run-init-IsTableRun}
use zone_mta.QueueLocker.Promises.{fires_expired}

-- Two senders hold three deliveries of a domain with a limit of two.
abbrev history : List (ℕ × Event)
history =
    (10, locks_key "lock a 001" "default" (some "example.com") "s1" 2 3600)
    ∷ (11, locks_key "lock b 001" "default" (some "example.com") "s2" 2 60)
    ∷ (12, lists "default")
    ∷ []

abbrev busy : Locker
busy = run init history

busy-IsSound : IsSound busy
busy-IsSound = run-init-IsSound history

run-init-IsSound_example : IsSound (run init history)
run-init-IsSound_example = run-init-IsSound history

abbrev held : Lock
held =
    new_lock
      (run init ((10, locks_key "lock a 001" "default" (some "example.com") "s1" 2 3600) ∷ []))
      "lock b 001" "default" (some "example.com") "s2" 2 60 11

holder-busy : holder "lock b 001" busy ≡ some held
unfolding run step init lock Maps.set Maps.get text_discrete list_skip_domains
holder-busy = refl

free_busy : holder "lock c 001" busy ≡ none
unfolding run step init lock Maps.set Maps.get text_discrete list_skip_domains
free_busy = refl

holder-lock_example :
    (holder "lock c 001" busy ≡ none
      × (lock busy "lock c 001" "default" none "s1" 0 5 13).1 ≡ true
      × ((j : String)
          → holder j (lock busy "lock c 001" "default" none "s1" 0 5 13).0
            ≡ ite
                (text_discrete "lock c 001" j)
                (some (
                  new_lock busy "lock c 001" "default" none "s1" 0
                    (if 5 == 0 then busy.default_ttl else 5)
                    13))
                (holder j busy)))
    ⊎ (((k : Lock) × (holder "lock c 001" busy ≡ some k))
        × (lock busy "lock c 001" "default" none "s1" 0 5 13 ≡ (busy, false)))
holder-lock_example = holder-lock busy "lock c 001" "default" none "s1" 0 5 13

fires_expired_example : holder "lock b 001" (step busy (100, fires)) ≡ none
fires_expired_example =
    fires_expired busy "lock b 001" held 100 busy-IsSound holder-busy (omega arith)

skipped_busy : domain_is_skipped busy "default" (some "example.com") ≡ true
unfolding run step init lock Maps.set Maps.get text_discrete list_skip_domains domain_is_skipped
skipped_busy = refl

run-init-IsTableRun_example : IsTableRun (λ key. none) history (view (run init history))
run-init-IsTableRun_example = run-init-IsTableRun history
