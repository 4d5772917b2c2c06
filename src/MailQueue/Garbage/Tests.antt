-- ===== src/MailQueue/Garbage/Tests.antt =====
-- Runs of `remove`, `clearGarbage`, `count` and the end of `init` on a database in memory.
use zone_mta.Prelude.{
  String, ◌≡◌, ◌≢◌, refl, ite, true, false, none, some, [], ◌∷◌, arith, text_discrete,
}
use zone_mta.Prelude.Maps
use zone_mta.Delivery.{ok, File, lock_key, count}
use zone_mta.QueueLocker
use zone_mta.QueueLocker.{Lock, lock, new_lock}
use zone_mta.QueueLocker.Held.{holder}
use zone_mta.QueueLocker.Owners.Keeps.{unless_owner, init-IsConsistent, lock-IsConsistent}
use zone_mta.MailQueue.{Queue, is_entry}
use zone_mta.MailQueue.Shift.{SameHolders}
use zone_mta.MailQueue.Samples.{first_row, second_row, stored, idle_queue, held_key, busy_queue}
use zone_mta.MailQueue.Memory.{Memory, memory, memory-IsDocumented}
use zone_mta.MailQueue.Remove.{remove}
use zone_mta.MailQueue.Remove.Locks.{IsFresh, remove_lem}
use zone_mta.MailQueue.Garbage.{clear_files, GarbageOptions}
use zone_mta.MailQueue.Garbage.Files.{clear_files_lem}
use zone_mta.MailQueue.Counts.{count_zones}

-- The lock of the sender.
abbrev sender_lock : Lock
sender_lock = new_lock QueueLocker.init held_key "default" (some "a.example") "sender" 5 60 10

busy-IsFresh : IsFresh memory "delete:1" busy_queue.locks
unfolding lock QueueLocker.init Maps.get Maps.set text_discrete
busy-IsFresh j =
    elim (text_discrete "lock 16a5 001" j)
      as (λ x.
        unless_owner "delete:1" (ite x (some sender_lock) none) ≡ ite x (some sender_lock) none) [
          | yes e ↦ refl
          | no e ↦ refl
        ]

remove_lem_example :
    SameHolders busy_queue.locks (remove memory busy_queue "16a5" none "delete:1" 12).0.locks
    × ((id' seq' : String)
        → holder (lock_key id' seq') busy_queue.locks ≢ none
        → count
            (is_entry id' seq')
            (memory.rows (remove memory busy_queue "16a5" none "delete:1" 12).0.store)
          ≡ count (is_entry id' seq') (memory.rows stored))
remove_lem_example =
    remove_lem memory memory-IsDocumented busy_queue "16a5" none "delete:1" 12
      (lock-IsConsistent QueueLocker.init held_key "default" (some "a.example") "sender" 5 60 10
        init-IsConsistent)
      busy-IsFresh

-- Two rows that were locked at 9, one by another instance.
abbrev locked_queue : Queue Memory
locked_queue = record idle_queue {
  store = record stored {
    rows =
        record first_row { locked = true; lock_time = 9; assigned = "here" }
        ∷ record second_row { locked = true; lock_time = 9; assigned = "there" }
        ∷ [];
  };
}

abbrev body : File
body = record { ident = 1; made = 0; meta = some [] }

clear_files_lem_example :
    memory.find_file "16a5" (clear_files memory idle_queue 4000000).0.store ≡ ok (some body)
unfolding memory Maps.get text_discrete
clear_files_lem_example =
    clear_files_lem memory memory-IsDocumented idle_queue 4000000 "16a5" body refl (omega arith)

abbrev options : GarbageOptions
options = record { disable_gc = false; max_queue_time = 1000 }

count_zones_run :
    count_zones memory stored ("default" ∷ "other" ∷ []) false 10
    ≡ ok (("default", 2) ∷ ("other", 0) ∷ [], 2)
unfolding count_zones memory text_discrete
count_zones_run = refl
