-- ===== src/QueueServer/Answers.antt =====
-- lib/queue-server.js: how many answers a request gets.
use zone_mta.Prelude.{
  ℕ, ◌+◌, ◌-◌, String, ◌≡◌, refl, Bool, true, false, ◌&&◌, Option, none, some, List, [], ◌∷◌,
  if◌then◌else◌, ◌==◌, arith, Option-cases, Bool-cases, inl, inr, is_some, subst,
}
use zone_mta.Prelude.Maps
use zone_mta.Delivery.{Reply, Store}
use zone_mta.MailQueue.{same}
use zone_mta.SendingZone.{Site}
use zone_mta.QueueServer.{
  Client, Command, get, release_entry, defer_entry, unknown, Value, Setup, run_job,
}
use zone_mta.QueueServer.Server.{
  Message, hello, request, Waiting, Answer, Server, Event, opens, closes, says, runs, turns,
  cache_fires, locks_fire, Plan, ignored, answers, waits, follow, plan, on_data, on_close, deliver,
  waiting_at, without_at, run_waiting, step, run,
}

abbrev is_req : String → Option String → Bool
is_req r none = false
is_req r (some q) = same q r

abbrev one_if : Bool → ℕ
one_if b = if b then 1 else 0

-- How many answers to the request `r` of the connection `c` were sent.
abbrev pub sent_to : ℕ → String → List Answer → ℕ
sent_to c r [] = 0
sent_to c r (a ∷ rest) = one_if (a.connection == c && is_req r a.req) + sent_to c r rest

-- How many times it waits.
abbrev pub waiting_of : ℕ → String → List Waiting → ℕ
waiting_of c r [] = 0
waiting_of c r (w ∷ ws) = one_if (w.connection == c && same w.req r) + waiting_of c r ws

abbrev is_known : Command → Bool
is_known unknown = false
is_known command = true

-- How many times an event makes it.
abbrev asks : ℕ → String → ℕ × Event → ℕ
asks c r (now, says i (request (some q) command)) = one_if (i == c && same q r && is_known command)
asks c r _ = 0

abbrev pub asked : ℕ → String → List (ℕ × Event) → ℕ
asked c r [] = 0
asked c r (e ∷ es) = asks c r e + asked c r es

-- No event closes the connection.
abbrev closes_it : ℕ → ℕ × Event → Bool
closes_it c (now, closes i) = i == c
closes_it c _ = false

abbrev pub StaysOpen : ℕ → List (ℕ × Event) → Type 0
StaysOpen c [] = Unit
StaysOpen c (e ∷ es) = (closes_it c e ≡ false) × StaysOpen c es

waiting_of-without_at :
    (c : ℕ) (r : String) (n : ℕ) (ws : List Waiting) (w : Waiting)
    → waiting_at n ws ≡ some w
    → waiting_of c r ws
      ≡ one_if (w.connection == c && same w.req r) + waiting_of c r (without_at n ws)
unfolding waiting_at without_at
waiting_of-without_at c r n [] w h = ground (arith, h)
waiting_of-without_at c r n (x ∷ ws) w h = ground (arith, h, waiting_of-without_at c r (n - 1) ws w)

eq_of_test : (i c : ℕ) → (i == c) ≡ true → i ≡ c
eq_of_test i c h = ground (arith, h)

elsewhere :
    (i c : ℕ) (clients : ℕ → Option Client)
    → clients i ≡ none
    → is_some (clients c) ≡ true
    → (i == c) ≡ false
elsewhere i c clients e here = elim (Bool-cases (i == c)) [
  | inl same_one ↦ ground (arith, here, subst (λ j. clients j ≡ none) (eq_of_test i c same_one) e)
  | inr other_one ↦ other_one
]

if_true :
    {A : Type 0} (P : A → Type 0) (b : Bool) (x y : A) → b ≡ true → P x → P (if b then x else y)
if_true P true x y e h = h
if_true P false x y e h = ground (arith, e)

module _ {S : Type 0} where
  abbrev tally : ℕ → String → Server S → ℕ
  tally c r v = sent_to c r v.sent + waiting_of c r v.waiting

  abbrev IsOpen : ℕ → Server S → Type 0
  IsOpen c v = (is_some (v.clients c) ≡ true) × (v.started ≡ true)

  -- The step keeps the connection open, and the tally grows by `n`.
  abbrev IsCounted : ℕ → String → ℕ → Server S → Server S → Type 0
  IsCounted c r n v v' = IsOpen c v' × (tally c r v' ≡ n + tally c r v)

  abbrev is_answered : Plan S → Bool
  is_answered ignored = false
  is_answered _ = true

  plan_lem :
      (client : Client) (command : Command) (s : Site S) (now : ℕ)
      → is_answered (plan client command s now) ≡ is_known command
  unfolding plan
  plan_lem client command s now =
      elim command as (λ k. is_answered (plan client k s now) ≡ is_known k) [
        | get ↦ ground arith
        | release_entry id seq lock ↦ ground arith
        | defer_entry id seq lock ttl r ↦ ground arith
        | _ ↦ refl
      ]

  follow_lem :
      (c : ℕ) (r : String) (v : Server S) (i : ℕ) (q : String) (p : Plan S)
      → IsOpen c v
      → IsCounted c r (one_if (i == c && same q r && is_answered p)) v (follow v i q p)
  follow_lem c r v i q ignored here = ground (arith, here)
  follow_lem c r v i q (answers s body) here = ground (arith, here)
  follow_lem c r v i q (waits job) here = ground (arith, here)

  deliver_lem :
      (c : ℕ) (r : String) (v : Server S) (w : Waiting) (body : Reply Value)
      → IsOpen c v
      → IsCounted c r (one_if (w.connection == c && same w.req r)) v (deliver v w body)
  unfolding deliver
  deliver_lem c r v w body here = elim (Option-cases (v.clients w.connection)) [
    | inl e ↦ rw (deliver, e) (ground (arith, here, elsewhere w.connection c v.clients e here.0))
    | inr (client, e) ↦ rw (deliver, e) (ground (arith, here))
  ]

  on_data_lem :
      (setup : Setup) (c : ℕ) (r : String) (v : Server S) (i : ℕ) (client : Client) (m : Message)
      (now : ℕ)
      → IsOpen c v
      → IsCounted c r (asks c r (now, says i m)) v (on_data setup v i client m now)
  unfolding on_data
  on_data_lem setup c r v i client (hello id none) now here = ground (arith, here)
  on_data_lem setup c r v i client (hello id (some zone)) now here =
      elim (Option-cases (Maps.get (setup.normal zone) setup.zones)) [
        | inl e ↦ rw (on_data, e) (ground (arith, here))
        | inr (z, e) ↦ rw (on_data, e) (ground (arith, here))
      ]
  on_data_lem setup c r v i client (request none command) now here = ground (arith, here)
  on_data_lem setup c r v i client (request (some q) command) now here =
      if_true (λ x. IsCounted c r (asks c r (now, says i (request (some q) command))) v x) v.started
        _ _ here.1
        (subst
          (λ b.
            IsCounted c r (one_if (i == c && same q r && b)) v
              (follow v i q (plan client command v.site now)))
          (plan_lem client command v.site now)
          (follow_lem c r v i q (plan client command v.site now) here))

  nobody :
      (c : ℕ) (r : String) (v : Server S) (i : ℕ) (m : Message) (now : ℕ)
      → v.clients i ≡ none
      → IsOpen c v
      → IsCounted c r (asks c r (now, says i m)) v v
  nobody c r v i (hello id chosen) now e here = (here, omega arith)
  nobody c r v i (request none command) now e here = (here, omega arith)
  nobody c r v i (request (some q) command) now e here =
      rw (elsewhere i c v.clients e here.0) (here, omega arith)

  on_close_lem :
      (c : ℕ) (r : String) (v : Server S) (i : ℕ) (client : Client)
      → IsOpen c v
      → (i == c) ≡ false
      → IsCounted c r 0 v (on_close v i client)
  unfolding on_close
  on_close_lem c r v i client here apart = elim (Option-cases client.ident) [
    | inl e ↦ rw (on_close, e) (ground (arith, here, apart))
    | inr (id, e) ↦ rw (on_close, e, here.1) (ground (arith, here, apart))
  ]

module _ {S : Type 0} (db : Store S) where
  run_waiting_lem :
      (setup : Setup) (c : ℕ) (r : String) (v : Server S) (n now : ℕ)
      → IsOpen c v
      → IsCounted c r 0 v (run_waiting db setup v n now)
  unfolding run_waiting
  run_waiting_lem setup c r v n now here = elim (Option-cases (waiting_at n v.waiting)) [
    | inl e ↦ rw (run_waiting, e) (here, omega arith)
    | inr (w, e) ↦ elim (Option-cases (run_job db setup w.job v.site now)) [
      | inl f ↦ rw (run_waiting, e, f) (here, omega arith)
      | inr ((s, body), f) ↦
          let v' : Server S = record v { site = s; waiting = without_at n v.waiting } in
          let (still, told) = deliver_lem c r v' w body here in
          rw (run_waiting, e, f)
            (still, omega (arith, told, waiting_of-without_at c r n v.waiting w e))
    ]
  ]

  step_lem :
      (setup : Setup) (c : ℕ) (r : String) (v : Server S) (e : ℕ × Event)
      → IsOpen c v
      → closes_it c e ≡ false
      → IsCounted c r (asks c r e) v (step db setup v e)
  unfolding step
  step_lem setup c r v (now, opens i) here apart = ground (arith, here)
  step_lem setup c r v (now, closes i) here apart = elim (Option-cases (v.clients i)) [
    | inl e ↦ rw (step, e) (here, omega arith)
    | inr (client, e) ↦ rw (step, e) (on_close_lem c r v i client here apart)
  ]
  step_lem setup c r v (now, says i m) here apart = elim (Option-cases (v.clients i)) [
    | inl e ↦ rw (step, e) (nobody c r v i m now e here)
    | inr (client, e) ↦ rw (step, e) (on_data_lem setup c r v i client m now here)
  ]
  step_lem setup c r v (now, runs n) here apart = run_waiting_lem setup c r v n now here
  step_lem setup c r v (now, turns) here apart = (here, omega arith)
  step_lem setup c r v (now, cache_fires) here apart = (here, omega arith)
  step_lem setup c r v (now, locks_fire) here apart = (here, omega arith)

  -- Once the server has its queue: while a connection stays open, whatever else happens and in
  -- whatever order the calls of the database end, each request that it makes with a known command
  -- waits or was answered, once for each time it was made, and nothing else was answered to it.
  pub answered_once :
      (setup : Setup) (c : ℕ) (r : String) (v : Server S) (es : List (ℕ × Event))
      → is_some (v.clients c) ≡ true
      → v.started ≡ true
      → StaysOpen c es
      → sent_to c r (run db setup v es).sent + waiting_of c r (run db setup v es).waiting
        ≡ asked c r es + (sent_to c r v.sent + waiting_of c r v.waiting)
  unfolding run
  answered_once setup c r v [] here ready stays = omega arith
  answered_once setup c r v (e ∷ es) here ready stays =
      let (still, told) = step_lem setup c r v e (here, ready) stays.0 in
      omega (arith, told, answered_once setup c r (step db setup v e) es still.0 still.1 stays.1)
