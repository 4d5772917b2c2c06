-- ===== src/Sender/Attempts.antt =====
-- lib/sender.js: how often a delivery that fails is tried again, and when.
use zone_mta.Prelude.{
  dec_le, ap, ℕ, zero, suc, ◌+◌, ◌≤◌, ◌<◌, String, ◌≡◌, refl, ◌⊎◌, Bool, true, false, Option, none,
  some, List, [], ◌∷◌, length, take, All, arith, inl, inr, Option-cases, Bool-cases, is_some,
}
use zone_mta.MailQueue.{defer_row}
use zone_mta.Bounces.{Verdict, text_is}
use zone_mta.Sender.{
  Job, Problem, defers, rejects, decide, decided, classify, final_action, times_of, time_at,
  deferred_count, text_of,
}

-- Where the attempts of a delivery that fails each time lead: it waits in the queue, or it was given up.
pub data Fate : Type 0 where
  waits : Job → Fate
  given_up : Job → Fate

-- A deferred delivery, with the row that `deferDelivery` of the queue leaves for the next attempt.
abbrev pub deferred_job : Job → ℕ → ℕ → Option String → Job
deferred_job job ttl now response = record job {
  row = defer_row (is_some job.row.deferred) now ttl response none job.row;
}

module _ (check : String → String → Verdict) (defaults : List ℕ) where
  -- One failed attempt after the other, each at a time.
  unfoldable pub attempts : Job → List (ℕ × Problem) → Fate
  unfolding decide defer_row
  attempts job [] = waits job
  attempts job ((now, err) ∷ es) = elim (decide check defaults job err) [
    | rejects bounce ↦ given_up job
    | defers ttl bounce ↦ attempts (deferred_job job ttl now (some (text_of err))) es
  ]

  -- No attempt is made before the delivery is due: `shift` of the queue finds no other.
  unfoldable pub AllDue : Job → List (ℕ × Problem) → Type 0
  unfolding decide defer_row
  AllDue job [] = Unit
  AllDue job ((now, err) ∷ es) = (job.row.queued ≤ now) × elim (decide check defaults job err) [
    | rejects bounce ↦ Unit
    | defers ttl bounce ↦ AllDue (deferred_job job ttl now (some (text_of err))) es
  ]

abbrev pub job_of : Fate → Job
job_of (waits job) = job
job_of (given_up job) = job

abbrev pub count_of : Job → ℕ
count_of job = deferred_count job.row.deferred

abbrev pub is_given_up : Fate → Bool
is_given_up (waits job) = false
is_given_up (given_up job) = true

abbrev pub total : List ℕ → ℕ
total [] = 0
total (t ∷ ts) = t + total ts

pub time_at-cases :
    (n : ℕ) (ts : List ℕ)
    → ((time_at n ts ≡ none) × (length ts ≤ n))
      ⊎ ((t : ℕ) × (time_at n ts ≡ some t)
          × (n < length ts)
          × (total (take (suc n) ts) ≡ total (take n ts) + t))
unfolding time_at
time_at-cases n [] = inl (refl, omega arith)
time_at-cases zero (t ∷ ts) = inr (t, refl, omega arith, omega arith)
time_at-cases (suc n) (t ∷ ts) = elim (time_at-cases n ts) [
  | inl (e, le) ↦ inl (e, omega (arith, le))
  | inr (u, e, lt, sum) ↦ inr (u, e, omega (arith, lt), omega (arith, sum))
]

-- Whether a problem is rejected whatever the number of the attempts is.
abbrev pub is_final : (String → String → Verdict) → Job → Problem → Bool
is_final check job err = text_is (final_action (classify check err) err job) "reject"

count-deferred_job :
    (job : Job) (ttl now : ℕ) (response : Option String)
    → count_of (deferred_job job ttl now response) ≡ suc (count_of job)
unfolding defer_row
count-deferred_job job ttl now response = elim (Option-cases job.row.deferred) [
  | inl e ↦ ground (arith, e)
  | inr (r, e) ↦ ground (arith, e)
]

module _ (check : String → String → Verdict) (defaults : List ℕ) where
  abbrev pub times : Job → List ℕ
  times job = times_of defaults job.defer_times

  -- A problem is rejected because it is final or because no time is left, and deferred for the time of the
  -- attempt otherwise.
  pub decide-cases :
      (job : Job) (err : Problem)
      → ((bounce : Verdict) × (decide check defaults job err ≡ rejects bounce)
          × (is_final check job err ≡ true ⊎ (length (times job) ≤ count_of job)))
        ⊎ ((ttl : ℕ) × (bounce : Verdict) × (decide check defaults job err ≡ defers ttl bounce)
            × (is_final check job err ≡ false)
            × (count_of job < length (times job))
            × (total (take (suc (count_of job)) (times job))
                ≡ total (take (count_of job) (times job)) + ttl))
  unfolding decide
  decide-cases job err = elim (Bool-cases (is_final check job err)) [
    | inl e ↦ inl (decided check job err, rw (decide, e) refl, inl e)
    | inr e ↦ elim (time_at-cases (count_of job) (times job)) [
      | inl (g, le) ↦ inl (decided check job err, rw (decide, e, g) refl, inr le)
      | inr (ttl, g, lt, sum) ↦ inr (ttl, decided check job err, rw (decide, e, g) refl, e, lt, sum)
    ]
  ]

  -- What holds of a run of failed attempts: the number of deferrals stays in the times, the
  -- delivery is queued the sum of the times after its first attempt, and enough failures end it.
  unfoldable IsRun : Job → List (ℕ × Problem) → Fate → Type 0
  IsRun job es fate =
      (count_of (job_of fate) ≤ length (times job))
      × (AllDue check defaults job es
          → job.row.queued + total (take (count_of (job_of fate)) (times job))
            ≤ (job_of fate).row.queued + total (take (count_of job) (times job)))
      × (length (times job) < length es + count_of job → is_given_up fate ≡ true)

  attempts-IsRun :
      (job : Job) (es : List (ℕ × Problem))
      → count_of job ≤ length (times job)
      → IsRun job es (attempts check defaults job es)
  unfolding attempts AllDue IsRun
  attempts-IsRun job [] h = (h, λ due. omega arith, λ lt. absurd (omega (arith, h, lt)))
  attempts-IsRun job ((now, err) ∷ es) h = elim (decide-cases job err) [
    | inl (bounce, e, why) ↦ rw (attempts, AllDue, e) (h, λ due. omega arith, λ lt. refl)
    | inr (ttl, bounce, e, final, lt, sum) ↦
        let next = deferred_job job ttl now (some (text_of err)) in
        let one_more = count-deferred_job job ttl now (some (text_of err)) in
        let same_time : total (take (count_of next) (times job))
            ≡ total (take (suc (count_of job)) (times job)) =
          ap (λ n. total (take n (times job))) one_more in
        let (in_bounds, spaced, ends) = attempts-IsRun next es (omega (arith, lt, one_more)) in
        rw (attempts, AllDue, e)
          (
            in_bounds,
            λ due. omega (arith, due.0, spaced due.1, sum, same_time),
            λ many. ends (omega (arith, many, one_more)),
          )
  ]

  -- A delivery that was never deferred is deferred at most once for each time of its list, however
  -- often it fails, and it is given up where it fails more often than there are times.
  pub attempts_lem :
      (job : Job) (es : List (ℕ × Problem))
      → job.row.deferred ≡ none
      → (count_of (job_of (attempts check defaults job es)) ≤ length (times job))
        × ((length es ≤ length (times job)) ⊎ (is_given_up (attempts check defaults job es) ≡ true))
  unfolding IsRun
  attempts_lem job es fresh =
      let zero_count : count_of job ≡ 0 = ap deferred_count fresh in
      let (in_bounds, spaced, ends) = attempts-IsRun job es (omega (arith, zero_count)) in
      (
        in_bounds,
        elim (dec_le (length es) (length (times job))) [
          | yes few ↦ inl few
          | no many ↦ inr (ends (omega (arith, many, zero_count)))
        ],
      )

  -- Where no attempt is made before the delivery is due, a delivery that was never deferred is
  -- queued, when it was deferred `n` times, no earlier than the sum of the first `n` times after it
  -- was queued first.
  pub queued-attempts :
      (job : Job) (es : List (ℕ × Problem))
      → job.row.deferred ≡ none
      → AllDue check defaults job es
      → job.row.queued
          + total (take (count_of (job_of (attempts check defaults job es))) (times job))
        ≤ (job_of (attempts check defaults job es)).row.queued
  unfolding IsRun
  queued-attempts job es fresh due =
      let zero_count : count_of job ≡ 0 = ap deferred_count fresh in
      let no_time : total (take (count_of job) (times job)) ≡ 0 =
        ap (λ n. total (take n (times job))) zero_count in
      let (in_bounds, spaced, ends) = attempts-IsRun job es (omega (arith, zero_count)) in
      omega (arith, spaced due, no_time)

  -- A delivery that was never deferred, and whose problems are none that is rejected at once, is
  -- deferred each time, as long as there are times left.
  pub attempts-waits :
      (job : Job) (es : List (ℕ × Problem))
      → All (λ e. is_final check job e.1 ≡ false) es
      → length es + count_of job ≤ length (times job)
      → (is_given_up (attempts check defaults job es) ≡ false)
        × (count_of (job_of (attempts check defaults job es)) ≡ length es + count_of job)
  unfolding attempts
  attempts-waits job [] h le = (refl, omega arith)
  attempts-waits job ((now, err) ∷ es) h le = elim (decide-cases job err) [
    | inl (bounce, e, inl final) ↦ ground (arith, h.0, final)
    | inl (bounce, e, inr none_left) ↦ absurd (omega (arith, le, none_left))
    | inr (ttl, bounce, e, final, lt, sum) ↦
        let next = deferred_job job ttl now (some (text_of err)) in
        let one_more = count-deferred_job job ttl now (some (text_of err)) in
        let (waiting, counted) = attempts-waits next es h.1 (omega (arith, le, one_more)) in
        rw (attempts, e) (waiting, omega (arith, counted, one_more))
  ]
