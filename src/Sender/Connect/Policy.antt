-- ===== src/Sender/Connect/Policy.antt =====
-- lib/sender.js: a connection to a host whose policy asks for TLS.
use zone_mta.Prelude.{
  sym, ℕ, zero, suc, String, ◌≡◌, refl, subst, ◌⊎◌, inl, inr, Bool, true, false, not, ◌&&◌, Option,
  none, some, List, [], ◌∷◌, arith, Bool-cases,
}
use zone_mta.Bounces.{text_is}
use zone_mta.ConnectionPool.{Taken-cases}
use zone_mta.ConnectionPool.Events.{try_take}
use zone_mta.Sender.Connect.{
  Failure, Mx, Found, unreachable, reached, SmtpEvent, errs, ends, waited, ready, logged_in,
  Settled, fails, refuses, opens, settle, new_line, Line, on_event, complete, is_tls_error,
}
use zone_mta.Sender.Connect.Ends.{Next-cases}
use zone_mta.Sender.Connect.Tries.{
  State, World, Next, again, reuses, connects, refused, hangs, on_error, on_settled, on_found,
  try_connect, tries, options_of, after_reached,
}

-- Whether the client was ready over TLS.
unfoldable pub was_secure : List SmtpEvent → Bool
was_secure [] = false
was_secure (ready true ∷ es) = true
was_secure (e ∷ es) = was_secure es

starts_open : List Settled → Bool
starts_open (opens ∷ more) = true
starts_open _ = false

secure_settle :
    (l : Line) (es : List SmtpEvent)
    → l.asked ≡ false
    → starts_open (settle true l es) ≡ true
    → was_secure es ≡ true
unfolding settle on_event was_secure starts_open
secure_settle l [] h g = ground (arith, g)
secure_settle l (errs err ∷ es) h g = ground (arith, g, secure_settle l es h)
secure_settle l (ends ∷ es) h g =
    ground (arith, g, secure_settle l es h, secure_settle (record l { ended = true }) es h)
secure_settle l (waited u ∷ es) h g = ground (arith, g, secure_settle l es h)
secure_settle l (ready true ∷ es) h g = refl
secure_settle l (ready false ∷ es) h g = ground (arith, g, secure_settle l es h)
secure_settle l (logged_in err ∷ es) h g = ground (arith, g, secure_settle l es h)

-- A new connection to a host whose policy asks for TLS was made with TLS, and was ready over it, in
-- one of the worlds.
abbrev pub IsPolicyKept : (ℕ → World) → Next → Type 0
IsPolicyKept world (connects mx s) =
    (mx.enforce ≡ false) ⊎ ((i : ℕ) × (was_secure ((world i).events mx false) ≡ true))
IsPolicyKept world (again s) = Unit
IsPolicyKept world (reuses conn) = Unit
IsPolicyKept world (refused err s) = Unit
IsPolicyKept world hangs = Unit

on_error-IsPolicyKept :
    (world : ℕ → World) (mx : Mx) (err : Failure) (s : State)
    → IsPolicyKept world (on_error mx err s)
unfolding on_error
on_error-IsPolicyKept world mx err s =
    let told = complete mx err in
    elim (Bool-cases (is_tls_error told && not s.ignore_tls && not mx.enforce)) [
      | inl plain ↦ rw (on_error, plain) tt
      | inr other ↦ elim (Bool-cases (text_is told.code "ETIMEDOUT")) [
        | inl late ↦ rw (on_error, other, late) tt
        | inr ended ↦ rw (on_error, other, ended) tt
      ]
    ]

on_settled-IsPolicyKept :
    (world : ℕ → World) (mx : Mx) (settled : List Settled) (s : State)
    → (starts_open settled ≡ true
        → (mx.enforce ≡ false) ⊎ ((i : ℕ) × (was_secure ((world i).events mx false) ≡ true)))
    → IsPolicyKept world (on_settled mx settled s)
unfolding on_settled starts_open
on_settled-IsPolicyKept world mx [] s h = tt
on_settled-IsPolicyKept world mx (fails err ∷ more) s h = on_error-IsPolicyKept world mx err s
on_settled-IsPolicyKept world mx (refuses err ∷ more) s h = tt
on_settled-IsPolicyKept world mx (opens ∷ more) s h = h refl

on_found-IsPolicyKept :
    (world : ℕ → World) (i : ℕ) (found : Found) (s : State)
    → IsPolicyKept world (on_found (world i) found s)
unfolding on_found
on_found-IsPolicyKept world i (unreachable err) s = tt
on_found-IsPolicyKept world i (reached mx) s = elim (Bool-cases mx.enforce) [
  | inr lax ↦ on_settled-IsPolicyKept world mx _ (after_reached mx s) (λ p. inl lax)
  | inl strict ↦
      on_settled-IsPolicyKept world mx _ (after_reached mx s)
        (λ p. inr (i, secure_settle new_line _ refl (with_policy i mx s strict p)))
]
  where
    with_policy :
        (i : ℕ) (mx : Mx) (s : State)
        → mx.enforce ≡ true
        → starts_open
            (settle mx.enforce new_line ((world i).events mx (after_reached mx s).ignore_tls))
          ≡ true
        → starts_open (settle true new_line ((world i).events mx false)) ≡ true
    with_policy i mx s strict p =
        subst (λ b. starts_open (settle b new_line ((world i).events mx false)) ≡ true) strict
          (subst (λ b. starts_open (settle mx.enforce new_line ((world i).events mx b)) ≡ true)
            (ground (arith, strict)) p)

try_connect-IsPolicyKept :
    (key : String) (world : ℕ → World) (i : ℕ) (s : State)
    → IsPolicyKept world (try_connect key (world i) s)
unfolding try_connect
try_connect-IsPolicyKept key world i s =
    elim (Taken-cases (try_take (world i).alive (world i).pool key).1) [
      | inl (conn, e) ↦ rw (try_connect, e) tt
      | inr (inl e) ↦
          rw (try_connect, e) (on_found-IsPolicyKept world i ((world i).mx (options_of s)) s)
      | inr (inr e) ↦
          rw (try_connect, e) (on_found-IsPolicyKept world i ((world i).mx (options_of s)) s)
    ]

OfSome : (Next → Type 0) → Option Next → Type 0
OfSome P none = Unit
OfSome P (some next) = P next

kept-tries :
    (fuel : ℕ) (key : String) (world : ℕ → World) (n : ℕ) (s : State)
    → OfSome (IsPolicyKept world) (tries fuel key world n s)
unfolding tries OfSome
kept-tries zero key world n s = tt
kept-tries (suc fuel) key world n s = elim (Next-cases (try_connect key (world n) s)) [
  | inl (s', e) ↦ rw (tries, e) (kept-tries fuel key world (suc n) s')
  | inr stops ↦
      subst (OfSome (IsPolicyKept world)) (sym (stops fuel key world n s refl))
        (try_connect-IsPolicyKept key world n s)
]

-- Whatever the tries before it were, and whatever made them fail, a new connection that
-- `getConnection` answers to a host whose policy asks for TLS was tried with TLS and was ready over
-- TLS: the try without TLS is for other hosts only.
pub tries-IsPolicyKept :
    (fuel : ℕ) (key : String) (world : ℕ → World) (n : ℕ) (s : State) (next : Next)
    → tries fuel key world n s ≡ some next
    → IsPolicyKept world next
unfolding OfSome
tries-IsPolicyKept fuel key world n s next e =
    subst (OfSome (IsPolicyKept world)) e (kept-tries fuel key world n s)
