-- ===== src/SenderService/Senders.antt =====
-- services/sender.js: how many senders a zone has after a change of its configuration.
use zone_mta.Prelude.{
  ℕ, zero, suc, ◌+◌, ◌-◌, ◌≤◌, ◌<◌, ◌≡◌, refl, ◌∙◌, List, [], ◌∷◌, if◌then◌else◌, ltb, arith,
  length, length-append,
}
use zone_mta.SenderService.{Service, spawn_one, kept_senders, on_reload}

-- The senders that there are, and those that the timers will make.
abbrev pub planned : {A : Type 0} → Service A → ℕ
planned s = length s.senders + s.pending

kept_all :
    (connections i : ℕ) (xs : List ℕ) → connections < i → length (kept_senders connections i xs) ≡ 0
unfolding kept_senders
kept_all connections i [] h = omega arith
kept_all connections i (x ∷ xs) h =
    ground (arith, kept_all connections (suc i) xs (omega (arith, h)), h)

length-kept_senders :
    (connections i : ℕ) (xs : List ℕ)
    → i ≤ suc connections
    → suc connections ≤ i + length xs
    → length (kept_senders connections i xs) ≡ suc connections - i
unfolding kept_senders
length-kept_senders connections i [] h g = omega (arith, h, g)
length-kept_senders connections i (x ∷ xs) h g =
    ground
      (arith, length-kept_senders connections (suc i) xs, kept_all connections (suc i) xs, h, g)

module _ {A : Type 0} where
  planned-spawn_one : (s : Service A) → planned (spawn_one s) ≡ planned s
  unfolding spawn_one
  planned-spawn_one s = ground (arith, length-append s.senders (suc s.zone_counter ∷ []))

  -- The service after as many timers of `spawnConnections` as given.
  abbrev pub spawned : ℕ → Service A → Service A
  spawned zero s = s
  spawned (suc n) s = spawned n (spawn_one s)

  pending-spawn_one : (s : Service A) → (spawn_one s).pending ≡ s.pending - 1
  unfolding spawn_one
  pending-spawn_one s = ground arith

  senders-spawned :
      (n : ℕ) (s : Service A) → s.pending ≡ n → length (spawned n s).senders ≡ planned s
  senders-spawned zero s h = omega (arith, h)
  senders-spawned (suc n) s h =
      senders-spawned n (spawn_one s) (omega (arith, h, pending-spawn_one s)) ∙ planned-spawn_one s

  reloaded :
      (s : Service A) (connections : ℕ)
      → length s.senders ≡ s.zone_connections
      → s.pending ≡ 0
      → ((on_reload s connections).zone_connections ≡ connections)
        × (planned (on_reload s connections)
            ≡ (if ltb connections s.zone_connections then suc connections else connections))
  unfolding on_reload
  reloaded s connections full idle =
      ground (arith, length-kept_senders connections 0 s.senders, full, idle)

  -- Where every connection of the zone has its sender, a reload of the configuration plans a sender
  -- for each connection of the new one, where these are no fewer; where they are fewer, it leaves
  -- one sender more than there are connections. So many senders there are once each timer that
  -- waits then has run.
  pub planned-on_reload :
      (s : Service A) (connections : ℕ)
      → length s.senders ≡ s.zone_connections
      → s.pending ≡ 0
      → ((on_reload s connections).zone_connections ≡ connections)
        × (planned (on_reload s connections)
            ≡ (if ltb connections s.zone_connections then suc connections else connections))
        × (length (spawned (on_reload s connections).pending (on_reload s connections)).senders
            ≡ planned (on_reload s connections))
  planned-on_reload s connections full idle =
      let after = on_reload s connections in
      let (first, second) = reloaded s connections full idle in
      (first, second, senders-spawned after.pending after refl)
