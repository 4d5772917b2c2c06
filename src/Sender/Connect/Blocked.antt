-- ===== src/Sender/Connect/Blocked.antt =====
-- lib/sender.js: when a host is blocked for the other deliveries to it.
use Prim.Native.String.{String}
use zone_mta.Prelude.{
  ℕ, zero, suc, ◌≡◌, refl, ap, subst, sym, ◌∙◌, ◌⊎◌, inl, inr, Bool, true, false, not, ◌&&◌, Option,
  none, some, List, [], ◌∷◌, arith, Bool-cases,
}
use zone_mta.Bounces.{text_is}
use zone_mta.ConnectionPool.{Taken-cases}
use zone_mta.ConnectionPool.Events.{try_take}
use zone_mta.Sender.Connect.{
  Failure, Mx, Found, unreachable, reached, Settled, fails, refuses, opens, complete, is_tls_error,
}
use zone_mta.Sender.Connect.Tries.{
  State, World, Next, again, reuses, connects, refused, hangs, on_error, on_settled, on_found,
  try_connect, tries, options_of, first_state, after_reached,
}
use zone_mta.Sender.Connect.Ends.{Next-cases}
use zone_mta.Sender.Connect.Cached.{cache_command, is_set}

-- What a try tells of the socket: it had one, or mx-connect found none and the state is as it was.
abbrev IsTold : World → State → Next → Type 0
IsTold w s (again s') = s'.net_connected ≡ true
IsTold w s (refused err s') =
    (s'.net_connected ≡ true) ⊎ ((w.mx (options_of s) ≡ unreachable err) × (s' ≡ s))
IsTold w s (reuses conn) = Unit
IsTold w s (connects mx s') = Unit
IsTold w s hangs = Unit

on_error-IsTold :
    (w : World) (s : State) (mx : Mx) (err : Failure) (s' : State)
    → s'.net_connected ≡ true
    → IsTold w s (on_error mx err s')
unfolding on_error
on_error-IsTold w s mx err s' h =
    let told = complete mx err in
    elim (Bool-cases (is_tls_error told && not s'.ignore_tls && not mx.enforce)) [
      | inl plain ↦ rw (on_error, plain) h
      | inr other ↦ elim (Bool-cases (text_is told.code "ETIMEDOUT")) [
        | inl late ↦ rw (on_error, other, late) h
        | inr ended ↦ rw (on_error, other, ended) (inl h)
      ]
    ]

on_settled-IsTold :
    (w : World) (s : State) (mx : Mx) (settled : List Settled) (s' : State)
    → s'.net_connected ≡ true
    → IsTold w s (on_settled mx settled s')
unfolding on_settled
on_settled-IsTold w s mx [] s' h = tt
on_settled-IsTold w s mx (fails err ∷ more) s' h = on_error-IsTold w s mx err s' h
on_settled-IsTold w s mx (refuses err ∷ more) s' h = inl h
on_settled-IsTold w s mx (opens ∷ more) s' h = tt

on_found-IsTold :
    (w : World) (s : State) (found : Found)
    → w.mx (options_of s) ≡ found
    → IsTold w s (on_found w found s)
unfolding on_found
on_found-IsTold w s (unreachable err) e = inr (e, refl)
on_found-IsTold w s (reached mx) e = on_settled-IsTold w s mx _ (after_reached mx s) refl

try_connect-IsTold : (key : String) (w : World) (s : State) → IsTold w s (try_connect key w s)
unfolding try_connect
try_connect-IsTold key w s = elim (Taken-cases (try_take w.alive w.pool key).1) [
  | inl (conn, e) ↦ rw (try_connect, e) tt
  | inr (inl e) ↦ rw (try_connect, e) (on_found-IsTold w s (w.mx (options_of s)) refl)
  | inr (inr e) ↦ rw (try_connect, e) (on_found-IsTold w s (w.mx (options_of s)) refl)
]

from_some : {n : Next} (m : Next) → some n ≡ some m → n ≡ m
from_some m e = ap (λ o. elim o [ none ↦ m | some x ↦ x ]) e

module _ (cache_key : String) (timed_out : Failure → Bool) where
  sets_cache : Option Next → Bool
  sets_cache none = false
  sets_cache (some next) = is_set (cache_command cache_key timed_out next)

  set_once_told :
      (w : World) (s : State) (next : Next)
      → IsTold w s next
      → sets_cache (some next) ≡ true
      → (err : Failure) × (w.mx (options_of s) ≡ unreachable err)
        × (next ≡ refused err s)
        × (s.net_connected ≡ false)
  unfolding cache_command sets_cache
  set_once_told w s (again s') h g = ground (arith, g)
  set_once_told w s (reuses conn) h g = ground (arith, g)
  set_once_told w s (connects mx s') h g = ground (arith, g)
  set_once_told w s hangs h g = ground (arith, g)
  set_once_told w s (refused err s') (inl met) g = ground (arith, g, met)
  set_once_told w s (refused err s') (inr (e, same)) g =
      (err, e, ap (refused err) same, subst (λ x. x.net_connected ≡ false) same (ground (arith, g)))

  -- Once a socket was met, no later answer blocks the host.
  connected-tries :
      (fuel : ℕ) (key : String) (world : ℕ → World) (n : ℕ) (s : State)
      → s.net_connected ≡ true
      → sets_cache (tries fuel key world n s) ≡ false
  unfolding tries sets_cache
  connected-tries zero key world n s h = refl
  connected-tries (suc fuel) key world n s h = elim (Next-cases (try_connect key (world n) s)) [
    | inl (s', e) ↦
        rw (tries, e)
          (connected-tries fuel key world (suc n) s'
            (subst (IsTold (world n) s) e (try_connect-IsTold key (world n) s)))
    | inr stops ↦ elim (Bool-cases (sets_cache (some (try_connect key (world n) s)))) [
      | inr clear ↦ ap sets_cache (stops fuel key world n s refl) ∙ clear
      | inl blocks ↦
          let (err, e, same, fresh) =
            set_once_told (world n) s (try_connect key (world n) s)
              (try_connect-IsTold key (world n) s) blocks in
          ground (arith, fresh, h)
    ]
  ]

  -- A host is blocked in the cache only where the first try found nothing in the pool to reuse and
  -- mx-connect could not connect: the answer is its error, and no try came after it. An error after
  -- a socket was open, of this or of an earlier try, blocks nothing.
  pub blocked_lem :
      (fuel : ℕ) (key : String) (world : ℕ → World) (ignore_tls : Bool) (next : Next)
      → tries fuel key world 0 (first_state ignore_tls) ≡ some next
      → is_set (cache_command cache_key timed_out next) ≡ true
      → (err : Failure) × ((world 0).mx (options_of (first_state ignore_tls)) ≡ unreachable err)
        × (next ≡ refused err (first_state ignore_tls))
  unfolding tries sets_cache
  blocked_lem zero key world ignore_tls next e g = ground (arith, e)
  blocked_lem (suc fuel) key world ignore_tls next e g =
      let s = first_state ignore_tls in
      elim (Next-cases (try_connect key (world 0) s)) [
        | inl (s', again_e) ↦
            let none_set =
              connected-tries fuel key world 1 s'
                (subst (IsTold (world 0) s) again_e (try_connect-IsTold key (world 0) s)) in
            let same : tries fuel key world 1 s' ≡ some next = rw (tries, again_e) at e in
            let unset : is_set (cache_command cache_key timed_out next) ≡ false =
              sym (ap sets_cache same) ∙ none_set in
            ground (arith, g, unset)
        | inr stops ↦
            let same : some (try_connect key (world 0) s) ≡ some next =
              sym (stops fuel key world 0 s refl) ∙ e in
            let here = from_some next same in
            let (err, unreached, result, fresh) =
              set_once_told (world 0) s next
                (subst (IsTold (world 0) s) here (try_connect-IsTold key (world 0) s)) g in
            (err, unreached, result)
      ]
