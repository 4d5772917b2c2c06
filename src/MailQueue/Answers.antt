-- ===== src/MailQueue/Answers.antt =====
-- lib/mail-queue.js: `shift` with enough fuel answers, and what the answer says.
use zone_mta.Prelude.{
  ℕ, zero, suc, ◌<◌, String, ◌≡◌, refl, sym, subst, ◌∙◌, ◌⊎◌, inl, inr, Bool, false, Option, none,
  some, arith, Option-cases, if◌then◌else◌,
}
use zone_mta.Prelude.Maps
use zone_mta.Delivery.{Delivery, Reply, failed, ok, Store, IsDocumented, empty_key}
use zone_mta.TtlCache
use zone_mta.QueueLocker.{Locker, list_skip_domains}
use zone_mta.MailQueue.{
  Queue, Search, Attempt, again, answered, attempt, try_next, shift, search_of,
}
use zone_mta.MailQueue.Shift.{SameHolders, IsTaken, IsStep, due_count, attempt_lem, key_of}

pub Attempt-cases {ℓ} :
    {S : Type ℓ} (a : Attempt S)
    → ((q : Queue S) × (a ≡ again q))
      ⊎ ((q : Queue S) × (r : Reply (Option Delivery)) × (a ≡ answered q r))
Attempt-cases (again q) = inl (q, refl)
Attempt-cases (answered q r) = inr (q, r, refl)

if_false {ℓ} : {A : Type ℓ} (b : Bool) (x y : A) → b ≡ false → (if b then x else y) ≡ y
if_false b x y e = rw e refl

IsTaken-of_same :
    (o : Search) (instance_id : String) (l l' m : Locker) (d : Delivery)
    → SameHolders l l'
    → IsTaken o instance_id l' m d
    → IsTaken o instance_id l m d
IsTaken-of_same o instance_id l l' m d same (keyed, free, (k, owner, domain, held), a, b, c, e, f) =
    (
      keyed,
      sym (same (key_of d)) ∙ free,
      (k, owner, domain, λ j. rw⁻¹ (same j) (held j)),
      a,
      b,
      c,
      e,
      f,
    )

list_skip_domains-locks : (l : Locker) (zone : String) → SameHolders l (list_skip_domains l zone).0
unfolding list_skip_domains
list_skip_domains-locks l zone j = elim (Option-cases (Maps.get zone l.zones)) [
  | inl e ↦ rw (list_skip_domains, e) refl
  | inr (z, e) ↦ rw (list_skip_domains, e) refl
]

module _ {ℓ} {S : Type ℓ} (db : Store S) where
  IsStep-of_same :
      (o : Search) (instance_id : String) (l l' : Locker) (q : Queue S)
      (r : Reply (Option Delivery)) (n m : ℕ)
      → SameHolders l l'
      → IsStep db o instance_id l' n (answered q r)
      → IsStep db o instance_id l m (answered q r)
  IsStep-of_same o instance_id l l' q (failed e) n m same h = λ j. h j ∙ same j
  IsStep-of_same o instance_id l l' q (ok none) n m same h = (λ j. h.0 j ∙ same j, h.1)
  IsStep-of_same o instance_id l l' q (ok (some d)) n m same h =
      (IsTaken-of_same o instance_id l l' q.locks d same h.0, h.1)

  try_next_again :
      (fuel : ℕ) (o : Search) (q q' : Queue S)
      → attempt db o q ≡ again q'
      → try_next db (suc fuel) o q ≡ try_next db fuel o q'
  unfolding try_next
  try_next_again fuel o q q' e = rw (try_next, e) refl

  try_next_answered :
      (fuel : ℕ) (o : Search) (q q' : Queue S) (r : Reply (Option Delivery))
      → attempt db o q ≡ answered q' r
      → try_next db (suc fuel) o q ≡ some (q', r)
  unfolding try_next
  try_next_answered fuel o q q' r e = rw (try_next, e) refl

  try_next_lem :
      IsDocumented db
      → (fuel : ℕ) (o : Search) (q : Queue S) → due_count db o q.instance_id q.store < fuel
      → (q' : Queue S) × (r : Reply (Option Delivery)) × (try_next db fuel o q ≡ some (q', r))
        × IsStep db o q.instance_id q.locks 0 (answered q' r)
  unfolding try_next
  try_next_lem documented zero o q h = absurd (omega (arith, h))
  try_next_lem documented (suc fuel) o q h =
      let step = attempt_lem db documented o q in
      let n = due_count db o q.instance_id q.store in
      elim (Attempt-cases (attempt db o q)) [
        | inl (q', e) ↦
            let (same, instance, fewer) =
              subst (λ a. IsStep db o q.instance_id q.locks n a) e step in
            let (q'', r, run, done) = try_next_lem documented fuel o q' (
              subst (λ i. due_count db o i q'.store < fuel) (sym instance)
                (omega (arith, h, fewer))) in
            (
              q'',
              r,
              try_next_again fuel o q q' e ∙ run,
              IsStep-of_same o q.instance_id q.locks q'.locks q'' r 0 0 same
                  (subst (λ i. IsStep db o i q'.locks 0 (answered q'' r)) instance done),
            )
        | inr (q', r, e) ↦ (
          q',
          r,
          try_next_answered fuel o q q' r e,
          IsStep-of_same o q.instance_id q.locks q.locks q' r n 0 (λ j. refl)
              (subst (λ a. IsStep db o q.instance_id q.locks n a) e step),
        )
      ]

  shift_open :
      (fuel : ℕ) (zone owner : String) (limits : String → ℕ) (normal : String → String)
      (q : Queue S) (now : ℕ)
      → q.closing ≡ false
      → (TtlCache.get q.cache (empty_key zone) now).1 ≡ none
      → shift db fuel zone owner limits normal q now
        ≡ try_next db fuel (search_of db zone owner limits normal q now) (record q {
          cache = (TtlCache.get q.cache (empty_key zone) now).0;
          locks = (list_skip_domains q.locks zone).0;
        })
  unfolding shift
  shift_open fuel zone owner limits normal q now running unknown =
      if_false q.closing _ _ running ∙ rw unknown refl

  -- With a documented database, in a queue that is open and does not remember its zone as empty,
  -- `shift` ends: fuel above the number of rows that are due is enough. An error, or nothing, which
  -- it answers only when no row is due, leaves the same keys held. A delivery that it answers was
  -- due in the zone on a domain that is not skipped; the database has its row, marked as locked by
  -- this instance at `now`; and its key was free and is held now, by the caller, beside the others.
  pub shift_lem :
      IsDocumented db
      → (fuel : ℕ) (zone owner : String) (limits : String → ℕ) (normal : String → String)
        (q : Queue S) (now : ℕ)
      → q.closing ≡ false
      → (TtlCache.get q.cache (empty_key zone) now).1 ≡ none
      → due_count db (search_of db zone owner limits normal q now) q.instance_id q.store < fuel
      → (q' : Queue S) × (r : Reply (Option Delivery)) × (shift db fuel zone owner limits normal q
            now
          ≡ some (q', r))
        × IsStep db
            (search_of db zone owner limits normal q now)
            q.instance_id
            q.locks
            0
            (answered q' r)
  shift_lem documented fuel zone owner limits normal q now running unknown enough =
      let o = search_of db zone owner limits normal q now in
      let l = (list_skip_domains q.locks zone).0 in
      let ready : Queue S = record q {
        cache = (TtlCache.get q.cache (empty_key zone) now).0;
        locks = l;
      } in
      let (q', r, run, done) = try_next_lem documented fuel o ready enough in
      (
        q',
        r,
        shift_open fuel zone owner limits normal q now running unknown ∙ run,
        IsStep-of_same o q.instance_id q.locks l q' r 0 0 (list_skip_domains-locks q.locks zone)
            done,
      )
