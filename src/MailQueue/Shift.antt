-- ===== src/MailQueue/Shift.antt =====
-- lib/mail-queue.js: what one run of `tryNext` and a whole `shift` do.
use zone_mta.Prelude.{
  ℕ, ◌*◌, ◌<◌, ◌≤◌, String, ◌≡◌, refl, sym, ap, subst, ◌∙◌, inl, inr, Bool, ◌&&◌, ◌==◌, true, false,
  Option, none, some, List, [], ite, text_discrete, arith, Option-cases, Bool-cases,
}
use zone_mta.Prelude.Sets.{has_text}
use zone_mta.Delivery.{Delivery, failed, ok, Reply-cases, Store, IsDocumented, count, one, lock_key}
use zone_mta.QueueLocker.{Locker, Lock}
use zone_mta.QueueLocker.Held.{holder, holder-lock, holder-release}
use zone_mta.MailQueue.{
  Queue, Search, Attempt, is_entry, same, again, answered, of_id, is_next, mark_locked, limit_of,
  with_meta, get_meta, answer_unless_suppressed, release_delivery, load_meta, claim, attempt,
  unlocked,
}
use zone_mta.MailQueue.Release.{
  release_delivery_lem, release_delivery-instance_id, holder-release_delivery,
}

mark_locked_lem :
    (zone : String) (now : ℕ) (instance_id : String) (skips : List String) (d : Delivery)
    → is_next zone now instance_id skips (mark_locked now instance_id d) ≡ false
mark_locked_lem zone now instance_id skips d = ground arith

-- The same keys are held.
abbrev pub SameHolders : Locker → Locker → Type 0
SameHolders l l' = (j : String) → holder j l' ≡ holder j l

abbrev pub key_of : Delivery → String
key_of d = lock_key d.id d.seq

-- What `shift` promises of the delivery that it answers, `l` the locks before and `l'` those after: its
-- key was free and is the one that is held now beside the others; it is marked, and it was due in
-- the zone, on a domain that was not skipped.
abbrev pub IsTaken : Search → String → Locker → Locker → Delivery → Type 0
IsTaken o instance_id l l' d =
    (d.lock ≡ some (key_of d))
    × (holder (key_of d) l ≡ none)
    × ((k : Lock) × (k.lock_owner ≡ o.lock_owner)
        × (k.domain ≡ some d.domain)
        × ((j : String) → holder j l' ≡ ite (text_discrete (key_of d) j) (some k) (holder j l)))
    × (d.locked ≡ true)
    × (d.assigned ≡ instance_id)
    × (d.sending_zone ≡ o.zone)
    × (d.queued ≤ o.now)
    × (has_text d.domain o.skips ≡ false)

-- The row of the delivery with the marks that `shift` sets.
abbrev pub is_marked : String → ℕ → Delivery → Delivery → Bool
is_marked instance_id now d x =
    is_entry d.id d.seq x && x.locked && same x.assigned instance_id && x.lock_time == now

pub released_same :
    (l l' l'' : Locker) (key : String) (k : Lock)
    → holder key l ≡ none
    → ((j : String) → holder j l' ≡ ite (text_discrete key j) (some k) (holder j l))
    → ((j : String) → holder j l'' ≡ ite (text_discrete key j) none (holder j l'))
    → SameHolders l l''
released_same l l' l'' key k free held left j = elim (text_discrete key j) [
  | yes e ↦ ground (arith, left j, free, ap (λ x. holder x l) e)
  | no e ↦ ground (arith, left j, held j)
]

module _ {ℓ} {S : Type ℓ} (db : Store S) where
  -- The rows that a search may still take.
  abbrev pub due_count : Search → String → S → ℕ
  due_count o instance_id s = count (is_next o.zone o.now instance_id o.skips) (db.rows s)

  -- The database has the row of the delivery, marked.
  abbrev pub IsStored : Search → String → Delivery → S → Type 0
  IsStored o instance_id d s = 0 < count (is_marked instance_id o.now d) (db.rows s)

  -- What a run of `tryNext` did, with `l` the locks before it: another run follows with fewer rows than `n`
  -- to take, or it answers.
  abbrev pub IsStep : Search → String → Locker → ℕ → Attempt S → Type 0
  IsStep o instance_id l n (again q) =
      (SameHolders l q.locks
        × (q.instance_id ≡ instance_id)
        × (due_count o instance_id q.store < n))
  IsStep o instance_id l n (answered q (failed e)) = SameHolders l q.locks
  IsStep o instance_id l n (answered q (ok none)) =
      SameHolders l q.locks × (due_count o instance_id q.store ≡ 0)
  IsStep o instance_id l n (answered q (ok (some d))) =
      IsTaken o instance_id l q.locks d × IsStored o instance_id d q.store

  unlocked_same :
      (l : Locker) (q : Queue S) (key : String) (lock_name : Option String)
      → lock_name ≡ some key
      → holder key l ≡ none
      → SameHolders l q.locks
      → SameHolders l (unlocked db q lock_name).locks
  unlocked_same l q key lock_name named free same j =
      let left = (holder-release q.locks key j).1 in
      rw named (elim (text_discrete key j) [
        | yes e ↦ ground (arith, left, free, same j, ap (λ x. holder x l) e)
        | no e ↦ ground (arith, left, same j)
      ])

  module _ (documented : IsDocumented db) (o : Search) (instance_id : String) (l : Locker)
      (n : ℕ) where
    answer_unless_suppressed_lem :
        (q : Queue S) (d : Delivery)
        → q.instance_id ≡ instance_id
        → IsTaken o instance_id l q.locks d
        → IsStored o instance_id d q.store
        → due_count o instance_id q.store < n
        → IsStep o instance_id l n (answer_unless_suppressed db o q d)
    unfolding answer_unless_suppressed
    answer_unless_suppressed_lem q d i taken there less =
        let (keyed, free, (k, _, _, held), _, _, _, _, _) = taken in
        let fewer =
          (release_delivery_lem db documented q d).2 (is_next o.zone o.now instance_id o.skips) in
        let released = holder-release_delivery db q d (key_of d) in
        let same =
          released_same l q.locks (release_delivery db q d).0.locks (key_of d) k free held
            (λ j. released j keyed) in
        elim (Reply-cases (db.find_suppressed (o.normal d.recipient) (o.normal d.domain) q.store)) [
          | inl (e, f) ↦ rw (answer_unless_suppressed, f) (taken, there)
          | inr (b, f) ↦ elim (Bool-cases b) [
            | inr no_match ↦ rw (answer_unless_suppressed, f, no_match) (taken, there)
            | inl match ↦ elim (Reply-cases (release_delivery db q d).1) [
              | inl (e, g) ↦
                  rw (answer_unless_suppressed, f, match, g)
                    (unlocked_same l (release_delivery db q d).0 (key_of d) d.lock keyed free same)
              | inr (v, g) ↦
                  rw (answer_unless_suppressed, f, match, g)
                    (same, release_delivery-instance_id db q d ∙ i, omega (arith, less, fewer))
            ]
          ]
        ]

    load_meta_lem :
        (q : Queue S) (d : Delivery)
        → q.instance_id ≡ instance_id
        → IsTaken o instance_id l q.locks (with_meta d [])
        → IsStored o instance_id d q.store
        → due_count o instance_id q.store < n
        → IsStep o instance_id l n (load_meta db o q d)
    unfolding load_meta
    load_meta_lem q d i taken there less =
        let (keyed, free, (k, _, _, held), _, _, _, _, _) = taken in
        elim (Reply-cases (get_meta db d.id q.store)) [
          | inl (e, f) ↦
              rw (load_meta, f)
                (released_same l q.locks (unlocked db q (some (key_of d))).locks (key_of d) k free
                  held (λ j. (holder-release q.locks (key_of d) j).1))
          | inr (v, f) ↦ elim (Option-cases v) [
            | inl none_left ↦
                rw (load_meta, f, none_left)
                  (
                    released_same l q.locks (unlocked db q (some (key_of d))).locks (key_of d) k
                        free held (λ j. (holder-release q.locks (key_of d) j).1),
                    i,
                    (let fewer =
                          documented.deleted_many (of_id d.id)
                            (is_next o.zone o.now instance_id o.skips) q.store in
                        omega (arith, less, fewer)),
                  )
            | inr (meta, some_left) ↦
                rw (load_meta, f, some_left)
                  (answer_unless_suppressed_lem q (with_meta d meta) i taken there less)
          ]
        ]

  -- A row after `mark_locked`
  is_marked_lem :
      (instance_id : String) (now : ℕ) (before d : Delivery)
      → d ≡ mark_locked now instance_id before
      → is_marked instance_id now d d ≡ true
  is_marked_lem instance_id now before d set = rw set (ground arith)

  due_facts :
      (o : Search) (instance_id : String) (d : Delivery)
      → is_next o.zone o.now instance_id o.skips d ≡ true
      → (d.sending_zone ≡ o.zone) × (d.queued ≤ o.now) × (has_text d.domain o.skips ≡ false)
  due_facts o instance_id d h = ground arith

  -- With a documented database one run of `tryNext` answers an error, or nothing as no row is due, and then
  -- holds the keys that were held before; or it answers a delivery that it has taken; or it leaves fewer
  -- rows that are due and calls for another run.
  pub attempt_lem :
      IsDocumented db
      → (o : Search) (q : Queue S)
      → IsStep o q.instance_id q.locks (due_count o q.instance_id q.store) (attempt db o q)
  unfolding attempt
  attempt_lem documented o q =
      let p = is_next o.zone o.now q.instance_id o.skips in
      let f = mark_locked o.now q.instance_id in
      let s = (db.find_one_and_update p f q.store).0 in
      elim (Reply-cases (db.find_one_and_update p f q.store).1) [
        | inl (m, e) ↦ rw (attempt, e) (λ j. refl)
        | inr (v, e) ↦ elim (Option-cases v) [
          | inl e' ↦
              let (empty, unchanged) = documented.not_found p f q.store (e ∙ ap ok e') in
              rw (attempt, e, e') (λ j. refl, ap (count p) unchanged ∙ empty)
          | inr ((before, d), e') ↦
              let (due, set, old, change) = documented.found p f q.store before d (e ∙ ap ok e') in
              let taken : one (p d) ≡ 0 =
                ap (λ x. one (p x)) set
                ∙ ap one (mark_locked_lem o.zone o.now q.instance_id o.skips before) in
              let was : one (p before) ≡ 1 = ap one due in
              let fewer : due_count o q.instance_id s < due_count o q.instance_id q.store =
                omega (arith, change p, taken, was) in
              let here : one (is_marked q.instance_id o.now d d) ≡ 1 =
                ap one (is_marked_lem q.instance_id o.now before d set) in
              let there : IsStored o q.instance_id d s = omega (
                arith,
                here,
                old (is_marked q.instance_id o.now d),
                change (is_marked q.instance_id o.now d),
              ) in
              let (in_zone, in_time, on_domain) = due_facts o q.instance_id before due in
              elim (holder-lock q.locks (key_of d) o.zone (some d.domain) o.lock_owner
                (limit_of o d) (60 * 60 * 1000) o.now) [
                  | inl (free, won, held) ↦
                      rw (attempt, e, e', won)
                        (load_meta_lem documented o q.instance_id q.locks
                          (due_count o q.instance_id q.store)
                          (record q {
                            store = s;
                            locks = (claim db o (record q { store = s }) d).0;
                          })
                          d refl
                          (
                            refl,
                            free,
                            (_, refl, refl, held),
                            ap (λ x. x.locked) set,
                            ap (λ x. x.assigned) set,
                            ap (λ x. x.sending_zone) set ∙ in_zone,
                            subst (λ x. x.queued ≤ o.now) (sym set) in_time,
                            ap (λ x. has_text x.domain o.skips) set ∙ on_domain,
                          )
                          there fewer)
                  | inr ((k, busy), same) ↦ rw (attempt, e, e', same) (λ j. refl, refl, fewer)
                ]
        ]
      ]
