-- ===== src/Sender/Tests.antt =====
-- Runs of lib/sender.js: concrete cases of its theorems.
use Prim.Native.String.{String}
use zone_mta.Prelude.{
  ◌||◌, text_discrete, ℕ, ◌+◌, ◌≤◌, ◌≡◌, refl, true, false, none, some, List, [], ◌∷◌, length, take,
  ◌⊎◌, ◌↔◌, arith, ◌*◌,
}
use zone_mta.Delivery.{Reply, ok, failed}
use zone_mta.MailQueue.Samples.{taken, busy_queue, held_key, as_is}
use zone_mta.MailQueue.Memory.{Memory, memory, memory-IsDocumented}
use zone_mta.Routing.{no_routes}
use zone_mta.DomainConfig
use zone_mta.SendingZone.{Site}
use zone_mta.QueueServer.{Setup, Value, release_request}
use zone_mta.Bounces.{Verdict}
use zone_mta.Sender.{
  final_action, classify, times_of, time_at, closes, Problem, Job, default_defer_times, rejects,
  request, on_reply,
}
use zone_mta.Sender.Attempts.{
  attempts, AllDue, job_of, is_given_up, total, count_of, times, attempts_lem, attempts-waits,
  queued-attempts,
}
use zone_mta.Sender.Turns.{
  Event, first_turn, run, get_delivery, fetch_passes, speed_allows, connect_timer_fires,
  connects_smtp, headers_pass, send_succeeds, release_succeeds, delivered_hooked, line_ends,
  end_waited,
}
use zone_mta.Sender.Turns.Once.{in_progress, run_lem}
use zone_mta.Sender.Handled.{IsResolved, on_reply_lem}

-- The default times are 17, and 48 hours in all.
defaults_48_hours :
    (length (default_defer_times none) ≡ 17)
    × (total (default_defer_times none) ≡ 48 * 60 * 60 * 1000)
unfolding default_defer_times
defaults_48_hours = (refl, refl)

abbrev rejecting : String → String → Verdict
rejecting text category = record {
  action = "reject";
  category = "other";
  message = "Unknown";
  code = 550;
  status = none;
  line = none;
}

abbrev job : Job
job = record {
  row = taken;
  origin = record {
    skip_bounce = false;
    from = "ann@example.com";
    x_auto_response_suppress = "";
    auto_submitted = "";
    content_type = "";
    parsed_from = none;
  };
  envelope_from = "ann@example.com";
  address = "1.2.3.4";
  logtrail = none;
  pool_disabled = false;
  defer_times = 100 ∷ 200 ∷ [];
}

abbrev timeout : Problem
timeout = record {
  protocol = "";
  http_response = none;
  response = "";
  message = "Connection timeout";
  category = "network";
  temporary = true;
  action = "";
  response_code = 0;
  logtrail = none;
}

abbrev refused : Problem
refused = record timeout { category = ""; response = "550 No such user"; response_code = 550 }

abbrev failures : List (ℕ × Problem)
failures = (10, timeout) ∷ (120, timeout) ∷ (330, timeout) ∷ []

attempts_lem_example :
    (count_of (job_of (attempts rejecting [] job failures)) ≤ length (times rejecting [] job))
    × ((length failures ≤ length (times rejecting [] job))
        ⊎ (is_given_up (attempts rejecting [] job failures) ≡ true))
attempts_lem_example = attempts_lem rejecting [] job failures refl

failures-AllDue : AllDue rejecting [] job failures
unfolding AllDue final_action classify text_discrete times_of time_at
failures-AllDue = (omega arith, (omega arith, (omega arith, tt)))

queued-attempts_example :
    job.row.queued
      + total
          (take (count_of (job_of (attempts rejecting [] job failures))) (times rejecting [] job))
    ≤ (job_of (attempts rejecting [] job failures)).row.queued
queued-attempts_example = queued-attempts rejecting [] job failures refl failures-AllDue

attempts-waits_example :
    (is_given_up (attempts rejecting [] job ((10, timeout) ∷ [])) ≡ false)
    × (count_of (job_of (attempts rejecting [] job ((10, timeout) ∷ []))) ≡ 1)
unfolding final_action classify text_discrete times_of
attempts-waits_example =
    attempts-waits rejecting [] job ((10, timeout) ∷ []) (refl, tt) (omega arith)

abbrev setup : Setup
setup = record {
  fuel = 4;
  normal = as_is;
  new_id = λ n. "16a6";
  blacklist_ttl = 21600000;
  zones = [];
  routes = no_routes;
  default_zone = "default";
  route_hook = λ e r. ok r;
}

abbrev site : Site Memory
site = record { queue = busy_queue; domains = DomainConfig.init [] }

abbrev verdict : Verdict
verdict = rejecting "550 No such user" ""

abbrev released_site : Site Memory × Reply Value
released_site = release_request memory site "16a5" "001" (some held_key)

on_reply_lem_example :
    (((e : String) × (released_site.1 ≡ failed e))
      ↔ ((e : String) × (on_reply (rejects verdict) job refused released_site.1 ≡ closes e)))
    × IsResolved memory memory-IsDocumented released_site.0 job 10
        (on_reply (rejects verdict) job refused released_site.1)
        (rejects verdict)
unfolding memory text_discrete zone_mta.QueueServer.run_job request
on_reply_lem_example =
    on_reply_lem memory memory-IsDocumented setup job refused (rejects verdict) site released_site.0
      10 released_site.1 (omega arith) refl

-- A delivery that goes well, after ten seconds of connecting.
abbrev delivered : List Event
delivered =
    get_delivery ∷ fetch_passes ∷ speed_allows ∷ connect_timer_fires ∷ connects_smtp ∷ headers_pass
    ∷ send_succeeds ∷ release_succeeds ∷ delivered_hooked ∷ []

run_lem_example :
    ((run first_turn delivered).continued ≤ 1)
    × ((run first_turn delivered).handled ≤ 1)
    × ((run first_turn delivered).sending_done
          || (run first_turn delivered).closing
          || (run first_turn delivered).crashed
          || in_progress (run first_turn delivered)
        ≡ true)
run_lem_example = run_lem delivered

-- The server closes the connection while the message is sent.
abbrev cut_off : List Event
cut_off =
    get_delivery ∷ fetch_passes ∷ speed_allows ∷ connects_smtp ∷ headers_pass ∷ line_ends
    ∷ end_waited ∷ []

crashed_by_end : ((run first_turn cut_off).crashed ≡ true) × ((run first_turn cut_off).handled ≡ 0)
unfolding run
crashed_by_end = (refl, refl)
