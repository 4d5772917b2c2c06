-- ===== src/MailQueue/Tests.antt =====
-- Runs of the queue of lib/mail-queue.js on a database in memory.
use zone_mta.Prelude.{
  ◌≤◌, ◌<◌, String, ◌≡◌, refl, ◌⊎◌, Bool, true, false, Option, none, some, List, [], ◌∷◌, ite,
  text_discrete, arith,
}
use zone_mta.Prelude.Maps
use zone_mta.Prelude.Sets.{has_text}
use zone_mta.Delivery.{Delivery, Reply, failed, ok, count}
use zone_mta.QueueLocker
use zone_mta.QueueLocker.{Locker, lock}
use zone_mta.QueueLocker.Held.{holder}
use zone_mta.TtlCache
use zone_mta.MailQueue.{
  Queue, answered, of_id, is_entry, release_delivery, defer_delivery, shift, search_of,
  remove_message,
}
use zone_mta.MailQueue.Samples.{stored, idle_queue, held_key, busy_queue, taken, no_limits, as_is}
use zone_mta.MailQueue.Upload.{UploadEvent, stream_fails, store_fails, finishes, store_message}
use zone_mta.MailQueue.Upload.Outcome.{store_message-outcome}
use zone_mta.MailQueue.Info.{get_info}
use zone_mta.MailQueue.Info.Messages.{IsInfo, get_info-IsInfo}
use zone_mta.MailQueue.Release.{holder-release_delivery, release_delivery_lem}
use zone_mta.MailQueue.Defer.{is_astray, in_place, holder-defer_delivery, defer_delivery_lem}
use zone_mta.MailQueue.Shift.{IsStep}
use zone_mta.MailQueue.Answers.{shift_lem}
use zone_mta.MailQueue.Memory.{Memory, memory, memory-IsDocumented}

holder-release_delivery_example :
    holder held_key (release_delivery memory busy_queue taken).0.locks
    ≡ ite (text_discrete held_key held_key) none (holder held_key busy_queue.locks)
holder-release_delivery_example =
    holder-release_delivery memory busy_queue taken held_key held_key refl

release_delivery_lem_example :
    ((release_delivery memory busy_queue taken).1 ≡ ok true
      → count (of_id "16a5") (memory.rows (release_delivery memory busy_queue taken).0.store) ≡ 0)
    × (0 < count (of_id "16a5") (memory.rows (release_delivery memory busy_queue taken).0.store)
        → (release_delivery memory busy_queue taken).0.store
          ≡ (memory.delete_one (is_entry "16a5" "001") stored).0)
    × ((r : Delivery → Bool)
        → count r (memory.rows (release_delivery memory busy_queue taken).0.store)
          ≤ count r (memory.rows stored))
release_delivery_lem_example = release_delivery_lem memory memory-IsDocumented busy_queue taken

holder-defer_delivery_example :
    (((defer_delivery memory busy_queue taken 60 none none 10).1 ≡ ok true)
      × (holder held_key (defer_delivery memory busy_queue taken 60 none none 10).0.locks
          ≡ ite (text_discrete held_key held_key) none (holder held_key busy_queue.locks)))
    ⊎ ((e : String) × ((defer_delivery memory busy_queue taken 60 none none 10).1 ≡ failed e)
        × ((defer_delivery memory busy_queue taken 60 none none 10).0.locks ≡ busy_queue.locks))
holder-defer_delivery_example =
    holder-defer_delivery memory busy_queue taken 60 10 none none held_key held_key refl

defer_delivery_lem_example :
    (count
        (is_astray "16a5" "001" 70)
        (memory.rows (defer_delivery memory busy_queue taken 60 none none 10).0.store)
      ≡ 0)
    × (count
          (in_place "16a5" "001" 70)
          (memory.rows (defer_delivery memory busy_queue taken 60 none none 10).0.store)
        ≡ count (is_entry "16a5" "001") (memory.rows stored))
    × ((r : Delivery → Bool)
        → ((x : Delivery) → is_entry "16a5" "001" x ≡ true → r x ≡ false)
        → count r (memory.rows (defer_delivery memory busy_queue taken 60 none none 10).0.store)
          ≡ count r (memory.rows stored))
unfolding defer_delivery memory text_discrete
defer_delivery_lem_example =
    defer_delivery_lem memory memory-IsDocumented busy_queue taken 60 10 none none (omega arith)
      refl

shift_lem_example :
    (q' : Queue Memory) × (r : Reply (Option Delivery)) × (shift memory 3 "default" "sender"
        no_limits as_is idle_queue 10
      ≡ some (q', r))
    × IsStep memory
        (search_of memory "default" "sender" no_limits as_is idle_queue 10)
        "here"
        idle_queue.locks
        0
        (answered q' r)
unfolding memory TtlCache.get QueueLocker.list_skip_domains Maps.get TtlCache.init text_discrete
    has_text QueueLocker.init
shift_lem_example =
    shift_lem memory memory-IsDocumented 3 "default" "sender" no_limits as_is idle_queue 10 refl
      refl (omega arith)

-- The sequence number that `shift` answers.
abbrev seq_of : Option (Queue Memory × Reply (Option Delivery)) → Option String
seq_of (some (q, ok (some d))) = some d.seq
seq_of _ = none

-- The first row is on a suppressed domain: it is dropped, and the second one is the answer.
seq_of-shift : seq_of (shift memory 3 "default" "sender" no_limits as_is idle_queue 10) ≡ some "002"
unfolding shift memory TtlCache.get QueueLocker.list_skip_domains Maps.get TtlCache.init
    text_discrete has_text QueueLocker.init lock QueueLocker.release Maps.set Maps.delete
seq_of-shift = refl

-- The body fails, and then the upload ends.
abbrev broken : List UploadEvent
broken = stream_fails "too large" ∷ finishes ∷ []

store_message-outcome_example :
    ((store_message memory "16a5" false stored broken).answers ≡ failed "too large" ∷ [])
    × ((store_message memory "16a5" false stored broken).store
        ≡ (remove_message memory stored "16a5").0)
store_message-outcome_example = store_message-outcome memory "16a5" false stored broken

-- The upload fails after the body: the caller gets no answer.
unanswered :
    (store_message memory "16a5" false stored
      (stream_fails "too large" ∷ store_fails "disk" ∷ [])).answers
    ≡ []
unfolding store_message
unanswered = refl

get_info-IsInfo_example : IsInfo memory busy_queue "16a5" 10 (get_info memory busy_queue "16a5" 10)
get_info-IsInfo_example = get_info-IsInfo memory memory-IsDocumented busy_queue "16a5" 10
