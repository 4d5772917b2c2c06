-- ===== src/SenderService/Requests.antt =====
-- services/sender.js: each request is called back once.
use zone_mta.Prelude.{
  ℕ, suc, ◌+◌, ◌≤◌, ◌≡◌, ite, if◌then◌else◌, true, List, [], ◌∷◌, ◌++◌, arith, leb, ℕ_discrete,
  ◌&&◌,
}
use zone_mta.Delivery.{Reply}
use zone_mta.SenderService.{
  Service, init, has_handler, delete_handler, send_command, on_data, spawn_one, on_reload,
  on_sender_error,
}

-- What happens to the service.
pub data Event (A : Type 0) : Type 0 where
  sends : Event A
  answers : ℕ → Reply A → Event A
  spawns : Event A
  reloads : ℕ → Event A
  errs : Event A

unfoldable pub step : {A : Type 0} → Service A → Event A → Service A
unfolding send_command on_data spawn_one on_reload on_sender_error
step s sends = send_command s
step s (answers req reply) = on_data s req reply
step s spawns = spawn_one s
step s (reloads connections) = on_reload s connections
step s errs = on_sender_error s

unfoldable pub run : {A : Type 0} → Service A → List (Event A) → Service A
unfolding step
run s [] = s
run s (e ∷ es) = run (step s e) es

-- How often a request was called back, and how often it stands in the map.
abbrev pub calls : {A : Type 0} → ℕ → List (ℕ × Reply A) → ℕ
calls id [] = 0
calls id ((x, reply) ∷ xs) = ite (ℕ_discrete x id) 1 0 + calls id xs

abbrev pub held : ℕ → List ℕ → ℕ
held id [] = 0
held id (x ∷ xs) = ite (ℕ_discrete x id) 1 0 + held id xs

abbrev pub was_sent : {A : Type 0} → ℕ → Service A → ℕ
was_sent id s = if leb 1 id && leb id s.cmd_id then 1 else 0

calls-append :
    {A : Type 0} (id x : ℕ) (reply : Reply A) (xs : List (ℕ × Reply A))
    → calls id (xs ++ (x, reply) ∷ []) ≡ calls id xs + ite (ℕ_discrete x id) 1 0
calls-append id x reply [] = ground arith
calls-append id x reply ((y, r) ∷ xs) = ground (arith, calls-append id x reply xs)

held-append :
    (id x : ℕ) (xs : List ℕ) → held id (xs ++ x ∷ []) ≡ held id xs + ite (ℕ_discrete x id) 1 0
held-append id x [] = ground arith
held-append id x (y ∷ xs) = ground (arith, held-append id x xs)

held-delete :
    (id x : ℕ) (xs : List ℕ) → held id (delete_handler x xs) ≡ ite (ℕ_discrete x id) 0 (held id xs)
unfolding delete_handler
held-delete id x [] = ground arith
held-delete id x (y ∷ xs) = ground (arith, held-delete id x xs)

held-has : (id : ℕ) (xs : List ℕ) → has_handler id xs ≡ true → 1 ≤ held id xs
unfolding has_handler
held-has id [] h = ground (arith, h)
held-has id (x ∷ xs) h = ground (arith, held-has id xs)

module _ {A : Type 0} where
  step_lem :
      (s : Service A) (e : Event A) (id : ℕ)
      → ((j : ℕ) → calls j s.called + held j s.response_handlers ≡ was_sent j s)
      → calls id (step s e).called + held id (step s e).response_handlers ≡ was_sent id (step s e)
  unfolding step
  step_lem s sends id h = ground (arith, h id, held-append id (suc s.cmd_id) s.response_handlers)
  step_lem s (answers req reply) id h = ground (
    arith,
    h id,
    h req,
    held-delete id req s.response_handlers,
    held-has req s.response_handlers,
    calls-append id req reply s.called,
  )
  step_lem s spawns id h = ground (arith, h id)
  step_lem s (reloads connections) id h = ground (arith, h id)
  step_lem s errs id h = h id

  kept :
      (s : Service A) (es : List (Event A))
      → ((j : ℕ) → calls j s.called + held j s.response_handlers ≡ was_sent j s)
      → (id : ℕ)
      → calls id (run s es).called + held id (run s es).response_handlers ≡ was_sent id (run s es)
  unfolding run
  kept s [] h id = h id
  kept s (e ∷ es) h id = kept (step s e) es (λ j. step_lem s e j h) id

  -- After every run of a service that starts, each request that was sent was called back once, or
  -- it waits for its answer and was not called back; a number that was not sent was never called
  -- back.
  pub calls-run :
      (connections : ℕ) (es : List (Event A)) (id : ℕ)
      → calls id (run (init connections) es).called
          + held id (run (init connections) es).response_handlers
        ≡ was_sent id (run (init connections) es)
  calls-run connections es id = kept (init connections) es (λ j. ground arith) id
