-- ===== src/Sender/Connect/Ends.antt =====
-- lib/sender.js: the callback of a connection is called once, and the tries of `getConnection` end.
use zone_mta.Prelude.{
  ℕ, zero, suc, ◌+◌, ◌*◌, ◌≤◌, ◌<◌, String, ◌≡◌, refl, subst, ◌⊎◌, inl, inr, Bool, true, false, not,
  ◌&&◌, none, some, List, [], ◌∷◌, ◌++◌, if◌then◌else◌, length, arith, Bool-cases, Option-cases,
}
use zone_mta.Prelude.Sets.{has_text, has_text-append}
use zone_mta.Bounces.{text_is}
use zone_mta.Sender.Connect.{
  Failure, Mx, Options, Found, unreachable, reached, SmtpEvent, errs, ends, waited, ready,
  logged_in, Settled, fails, refuses, opens, settle, new_line, Line, on_event, complete,
  is_tls_error,
}
use zone_mta.ConnectionPool.{Taken-cases}
use zone_mta.ConnectionPool.Events.{try_take}
use zone_mta.Sender.Connect.Tries.{
  State, World, Next, again, reuses, connects, refused, hangs, on_error, on_settled, on_found,
  try_connect, tries, first_state, options_of, after_reached,
}

settle_returned :
    (enforce : Bool) (l : Line) (es : List SmtpEvent) → l.returned ≡ true → settle enforce l es ≡ []
unfolding settle on_event
settle_returned enforce l [] h = refl
settle_returned enforce l (errs err ∷ es) h = ground (arith, settle_returned enforce l es h)
settle_returned enforce l (ends ∷ es) h = ground (arith, settle_returned enforce l es h)
settle_returned enforce l (waited u ∷ es) h = ground (arith, settle_returned enforce l es h)
settle_returned enforce l (ready s ∷ es) h = ground (arith, settle_returned enforce l es h)
settle_returned enforce l (logged_in err ∷ es) h = ground (arith, settle_returned enforce l es h)

on_event-returned :
    (enforce : Bool) (l : Line) (e : SmtpEvent)
    → ((on_event enforce l e).1 ≡ none) ⊎ ((on_event enforce l e).0.returned ≡ true)
unfolding on_event
on_event-returned enforce l (errs err) = ground arith
on_event-returned enforce l ends = ground arith
on_event-returned enforce l (waited u) = ground arith
on_event-returned enforce l (ready s) = ground arith
on_event-returned enforce l (logged_in err) = ground arith

settle_once : (enforce : Bool) (l : Line) (es : List SmtpEvent) → length (settle enforce l es) ≤ 1
unfolding settle
settle_once enforce l [] = omega arith
settle_once enforce l (e ∷ es) =
    let later = settle_once enforce (on_event enforce l e).0 es in
    elim (Option-cases (on_event enforce l e).1) [
      | inl none_yet ↦ rw (settle, none_yet) later
      | inr (s, now) ↦ elim (on_event-returned enforce l e) [
        | inl no_settled ↦ ground (arith, no_settled, now)
        | inr closed ↦
            rw (settle, now, settle_returned enforce (on_event enforce l e).0 es closed)
              (omega arith)
      ]
    ]

-- Whatever the order of its events, a new connection leads to one decision at most: to `_onError`,
-- or to one call of the callback.
length-settle : (enforce : Bool) (es : List SmtpEvent) → length (settle enforce new_line es) ≤ 1
length-settle enforce es = settle_once enforce new_line es

-- How many of the hosts are not passed over.
unfoldable free : List String → List String → ℕ
unfolding has_text
free [] ignored = 0
free (h ∷ hs) ignored = (if has_text h ignored then 0 else 1) + free hs ignored

free_le :
    (hosts ignored : List String) (h : String) → free hosts (ignored ++ h ∷ []) ≤ free hosts ignored
unfolding free has_text
free_le [] ignored h = omega arith
free_le (x ∷ xs) ignored h =
    ground (arith, free_le xs ignored h, has_text-append x ignored (h ∷ []))

free_lt :
    (hosts ignored : List String) (h : String)
    → has_text h hosts ≡ true
    → has_text h ignored ≡ false
    → free hosts (ignored ++ h ∷ []) < free hosts ignored
unfolding free has_text
free_lt [] ignored h e g = ground (arith, e)
free_lt (x ∷ xs) ignored h e g =
    ground
      (arith, free_lt xs ignored h, free_le xs ignored h, has_text-append x ignored (h ∷ []), e, g)

free-length : (hosts ignored : List String) → free hosts ignored ≤ length hosts
unfolding free
free-length [] ignored = omega arith
free-length (x ∷ xs) ignored = ground (arith, free-length xs ignored)

-- mx-connect answers a host of the delivery's domain that it was not told to pass over.
abbrev pub IsResolver : List String → World → Type 0
IsResolver hosts w =
    (o : Options) (mx : Mx)
    → w.mx o ≡ reached mx
    → (has_text mx.host hosts ≡ true) × (has_text mx.host o.ignore_mx_hosts ≡ false)

-- How many tries may still come, and how many a try leaves, its own counted.
measure : List String → State → ℕ
measure hosts s = 2 * free hosts s.ignore_mx_hosts + (if s.ignore_tls then 0 else 1)

size : List String → Next → ℕ
size hosts (again s) = suc (measure hosts s)
size hosts (reuses conn) = 0
size hosts (connects mx s) = 0
size hosts (refused err s) = 0
size hosts hangs = 0

size-on_error :
    (hosts : List String) (mx : Mx) (err : Failure) (s : State)
    → has_text mx.host hosts ≡ true
    → has_text mx.host s.ignore_mx_hosts ≡ false
    → size hosts (on_error mx err (after_reached mx s)) ≤ measure hosts s
unfolding on_error size measure
size-on_error hosts mx err s known fresh =
    let told = complete mx err in
    let s' = after_reached mx s in
    elim (Bool-cases (is_tls_error told && not s'.ignore_tls && not mx.enforce)) [
      | inl plain ↦ rw (on_error, plain) (ground (arith, plain))
      | inr other ↦ elim (Bool-cases (text_is told.code "ETIMEDOUT")) [
        | inl late ↦
            rw (on_error, other, late)
              (ground (arith, free_lt hosts s.ignore_mx_hosts mx.host known fresh))
        | inr ended ↦ rw (on_error, other, ended) (omega arith)
      ]
    ]

size-on_settled :
    (hosts : List String) (mx : Mx) (settled : List Settled) (s : State)
    → has_text mx.host hosts ≡ true
    → has_text mx.host s.ignore_mx_hosts ≡ false
    → size hosts (on_settled mx settled (after_reached mx s)) ≤ measure hosts s
unfolding on_settled size
size-on_settled hosts mx [] s known fresh = omega arith
size-on_settled hosts mx (fails err ∷ more) s known fresh = size-on_error hosts mx err s known fresh
size-on_settled hosts mx (refuses err ∷ more) s known fresh = omega arith
size-on_settled hosts mx (opens ∷ more) s known fresh = omega arith

size-on_found :
    (hosts : List String) (w : World) (found : Found) (s : State)
    → w.mx (options_of s) ≡ found
    → IsResolver hosts w
    → size hosts (on_found w found s) ≤ measure hosts s
unfolding size on_found
size-on_found hosts w (unreachable err) s e h = omega arith
size-on_found hosts w (reached mx) s e h =
    let (known, fresh) = h (options_of s) mx e in
    size-on_settled hosts mx
      (settle mx.enforce new_line (w.events mx (after_reached mx s).ignore_tls)) s known fresh

size-try_connect :
    (hosts : List String) (key : String) (w : World) (s : State)
    → IsResolver hosts w
    → size hosts (try_connect key w s) ≤ measure hosts s
unfolding try_connect size
size-try_connect hosts key w s h = elim (Taken-cases (try_take w.alive w.pool key).1) [
  | inl (conn, e) ↦ rw (try_connect, e) (omega arith)
  | inr (inl e) ↦ rw (try_connect, e) (size-on_found hosts w (w.mx (options_of s)) s refl h)
  | inr (inr e) ↦ rw (try_connect, e) (size-on_found hosts w (w.mx (options_of s)) s refl h)
]

pub Next-cases :
    (n : Next)
    → ((s : State) × (n ≡ again s))
      ⊎ (((fuel : ℕ) (key : String) (world : ℕ → World) (i : ℕ) (s : State)
          → try_connect key (world i) s ≡ n
          → tries (suc fuel) key world i s ≡ some n))
unfolding tries
Next-cases (again s) = inl (s, refl)
Next-cases (reuses conn) = inr (λ fuel key world i s e. rw (tries, e) refl)
Next-cases (connects mx s) = inr (λ fuel key world i s e. rw (tries, e) refl)
Next-cases (refused err s) = inr (λ fuel key world i s e. rw (tries, e) refl)
Next-cases hangs = inr (λ fuel key world i s e. rw (tries, e) refl)

tries_end :
    (hosts : List String) (fuel : ℕ) (key : String) (world : ℕ → World) (n : ℕ) (s : State)
    → ((i : ℕ) → IsResolver hosts (world i))
    → measure hosts s < fuel
    → (next : Next) × (tries fuel key world n s ≡ some next)
unfolding tries size
tries_end hosts zero key world n s h lt = absurd (omega (arith, lt))
tries_end hosts (suc fuel) key world n s h lt = elim (Next-cases (try_connect key (world n) s)) [
  | inl (s', e) ↦
      let smaller : suc (measure hosts s') ≤ measure hosts s =
        subst (λ x. size hosts x ≤ measure hosts s) e
          (size-try_connect hosts key (world n) s (h n)) in
      rw (tries, e) (tries_end hosts fuel key world (suc n) s' h (omega (arith, smaller, lt)))
  | inr stops ↦ (try_connect key (world n) s, stops fuel key world n s refl)
]

-- Where mx-connect answers hosts of the domain only, and none that it was told to pass over,
-- `getConnection` makes at most two tries for each host and two more, whatever the connections and
-- the pool do: then it has its answer, or it waits for the events of a connection.
pub tries-ends :
    (hosts : List String) (key : String) (world : ℕ → World) (ignore_tls : Bool)
    → ((i : ℕ) → IsResolver hosts (world i))
    → (next : Next) × (tries (2 * length hosts + 2) key world 0 (first_state ignore_tls)
        ≡ some next)
unfolding measure
tries-ends hosts key world ignore_tls h =
    tries_end hosts (2 * length hosts + 2) key world 0 (first_state ignore_tls) h
      (ground (arith, free-length hosts []))
