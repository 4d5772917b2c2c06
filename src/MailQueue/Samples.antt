-- ===== src/MailQueue/Samples.antt =====
-- Concrete queues of lib/mail-queue.js for the runs: two rows of one message, a database that holds
-- them, and a queue in which the first row is being delivered.
use zone_mta.Prelude.{ℕ, String, false, none, some, [], ◌∷◌}
use zone_mta.Delivery.{Delivery, lock_key}
use zone_mta.QueueLocker
use zone_mta.QueueLocker.{lock}
use zone_mta.TtlCache
use zone_mta.MailQueue.{Queue}
use zone_mta.MailQueue.Memory.{Memory}

abbrev pub first_row : Delivery
first_row = record {
  made = 0;
  id = "16a5";
  seq = "001";
  domain = "a.example";
  sending_zone = "default";
  recipient = "x@a.example";
  locked = false;
  lock_time = 0;
  assigned = "no";
  queued = 5;
  created = 5;
  session_id = none;
  deferred = none;
  lock = none;
  fields = [];
}

abbrev pub second_row : Delivery
second_row = record first_row { seq = "002"; domain = "b.example"; recipient = "y@b.example" }

abbrev pub stored : Memory
stored = record {
  rows = first_row ∷ second_row ∷ [];
  files = ("16a5", record { ident = 1; made = 0; meta = some [] }) ∷ [];
  suppressed = "a.example" ∷ [];
}

abbrev pub idle_queue : Queue Memory
idle_queue = record {
  store = stored;
  locks = QueueLocker.init;
  cache = TtlCache.init 0;
  closing = false;
  instance_id = "here";
}

abbrev pub held_key : String
held_key = lock_key "16a5" "001"

-- The first row is locked by a sender.
abbrev pub busy_queue : Queue Memory
busy_queue = record idle_queue {
  locks = (lock QueueLocker.init held_key "default" (some "a.example") "sender" 5 60 10).0;
}

abbrev pub taken : Delivery
taken = record first_row { lock = some held_key }

abbrev pub no_limits : String → ℕ
no_limits domain = 0

abbrev pub as_is : String → String
as_is text = text
