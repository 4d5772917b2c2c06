-- ===== src/MailQueue/Defer.antt =====
-- lib/mail-queue.js: `deferDelivery` puts a delivery back into the queue for later.
use zone_mta.Prelude.{
  ℕ, ◌+◌, ◌≤◌, String, ◌≡◌, refl, sym, ap, ◌∙◌, ◌⊎◌, inl, inr, Bool, true, false, not, ◌&&◌, ◌||◌,
  Option, none, some, List, [], ◌∷◌, ite, text_discrete, arith, Option-cases, is_some, ◌==◌,
}
use zone_mta.Delivery.{Delivery, failed, ok, Reply-cases, Store, IsDocumented, count, one}
use zone_mta.QueueLocker.Held.{holder, holder-release}
use zone_mta.MailQueue.{Queue, is_entry, defer_row, defer_delivery}

-- The row of a delivery that is not free to be taken at `t` and at `t` alone.
abbrev pub is_astray : String → String → ℕ → Delivery → Bool
is_astray id seq t x = is_entry id seq x && (x.locked || not (x.queued == t))

-- The row of a delivery that is free to be taken from `t` on.
abbrev pub in_place : String → String → ℕ → Delivery → Bool
in_place id seq t x = is_entry id seq x && not (x.locked || not (x.queued == t))

count_entries :
    (id seq : String) (t : ℕ) (ds : List Delivery)
    → count (is_entry id seq) ds ≡ count (is_astray id seq t) ds + count (in_place id seq t) ds
count_entries id seq t [] = ground arith
count_entries id seq t (d ∷ ds) = ground (arith, count_entries id seq t ds)

one_entry :
    (id seq : String) (t : ℕ) (d : Delivery)
    → is_entry id seq d ≡ true
    → one (is_astray id seq t d) + one (in_place id seq t d) ≡ 1
one_entry id seq t d h = ground arith

deferred_in_place :
    (id seq : String) (marked : Bool) (now ttl : ℕ) (response log : Option String) (d : Delivery)
    → is_entry id seq d ≡ true
    → (is_astray id seq (now + ttl) (defer_row marked now ttl response log d) ≡ false)
      × (in_place id seq (now + ttl) (defer_row marked now ttl response log d) ≡ true)
unfolding defer_row
deferred_in_place id seq marked now ttl response log d h = ground arith

entry_after :
    (id seq : String) (t : ℕ) (d : Delivery) → in_place id seq t d ≡ true → is_entry id seq d ≡ true
entry_after id seq t d h = ground (arith, h)

module _ {ℓ} {S : Type ℓ} (db : Store S) where
  -- Where `deferDelivery` answers true it has freed the lock of the delivery; where it answers an
  -- error, every lock is held as before. No other key is touched.
  pub holder-defer_delivery :
      (q : Queue S) (d : Delivery) (ttl now : ℕ) (response log : Option String) (key j : String)
      → d.lock ≡ some key
      → (((defer_delivery db q d ttl response log now).1 ≡ ok true)
          × (holder j (defer_delivery db q d ttl response log now).0.locks
              ≡ ite (text_discrete key j) none (holder j q.locks)))
        ⊎ ((e : String) × ((defer_delivery db q d ttl response log now).1 ≡ failed e)
            × ((defer_delivery db q d ttl response log now).0.locks ≡ q.locks))
  unfolding defer_delivery
  holder-defer_delivery q d ttl now response log key j e =
      elim (Reply-cases
        (db.find_one_and_update (is_entry d.id d.seq)
          (defer_row (is_some d.deferred) now ttl response log) q.store).1) [
            | inl (m, f) ↦ inr (m, rw (defer_delivery, f) refl, rw (defer_delivery, f) refl)
            | inr (v, f) ↦ inl (
              rw (defer_delivery, f) refl,
              rw (defer_delivery, f) (rw e (holder-release q.locks key j).1),
            )
          ]

  defer_delivery-store :
      (q : Queue S) (d : Delivery) (ttl now : ℕ) (response log : Option String)
      → (defer_delivery db q d ttl response log now).0.store
        ≡ (db.find_one_and_update
            (is_entry d.id d.seq)
            (defer_row (is_some d.deferred) now ttl response log)
            q.store).0
  unfolding defer_delivery
  defer_delivery-store q d ttl now response log =
      elim (Reply-cases
        (db.find_one_and_update (is_entry d.id d.seq)
          (defer_row (is_some d.deferred) now ttl response log) q.store).1) [
            | inl (m, f) ↦ rw (defer_delivery, f) refl
            | inr (v, f) ↦ rw (defer_delivery, f) refl
          ]

  -- An error of the database is the answer.
  defer_delivery_failed :
      (q : Queue S) (d : Delivery) (ttl now : ℕ) (response log : Option String) (e : String)
      → (db.find_one_and_update
          (is_entry d.id d.seq)
          (defer_row (is_some d.deferred) now ttl response log)
          q.store).1
        ≡ failed e
      → (defer_delivery db q d ttl response log now).1 ≡ failed e
  unfolding defer_delivery
  defer_delivery_failed q d ttl now response log e f = rw (defer_delivery, f) refl

  -- With a documented database, in which at most one row has the id and the sequence number of the
  -- delivery: where `deferDelivery` answers true, that row is there if it was there before, it is
  -- unlocked and queued at `now + ttl`, and every other row is as it was.
  pub defer_delivery_lem :
      IsDocumented db
      → (q : Queue S) (d : Delivery) (ttl now : ℕ) (response log : Option String)
      → count (is_entry d.id d.seq) (db.rows q.store) ≤ 1
      → (defer_delivery db q d ttl response log now).1 ≡ ok true
      → (count
            (is_astray d.id d.seq (now + ttl))
            (db.rows (defer_delivery db q d ttl response log now).0.store)
          ≡ 0)
        × (count
              (in_place d.id d.seq (now + ttl))
              (db.rows (defer_delivery db q d ttl response log now).0.store)
            ≡ count (is_entry d.id d.seq) (db.rows q.store))
        × ((r : Delivery → Bool)
            → ((x : Delivery) → is_entry d.id d.seq x ≡ true → r x ≡ false)
            → count r (db.rows (defer_delivery db q d ttl response log now).0.store)
              ≡ count r (db.rows q.store))
  defer_delivery_lem documented q d ttl now response log h g =
      let p = is_entry d.id d.seq in
      let f = defer_row (is_some d.deferred) now ttl response log in
      let astray = is_astray d.id d.seq (now + ttl) in
      let placed = in_place d.id d.seq (now + ttl) in
      let split = count_entries d.id d.seq (now + ttl) (db.rows q.store) in
      rw (defer_delivery-store q d ttl now response log)
        (elim (Reply-cases (db.find_one_and_update p f q.store).1) [
          | inl (m, e) ↦
              let refused = sym (defer_delivery_failed q d ttl now response log m e) ∙ g in
              ground (arith, refused)
          | inr (v, e) ↦ elim (Option-cases v) [
            | inl e' ↦
                let (empty, unchanged) = documented.not_found p f q.store (e ∙ ap ok e') in
                rw unchanged
                  (omega (arith, empty, split), omega (arith, empty, split), λ r out. refl)
            | inr ((before, after), e') ↦
                let (entry, set, old, change) =
                  documented.found p f q.store before after (e ∙ ap ok e') in
                let (left, right) =
                  deferred_in_place d.id d.seq (is_some d.deferred) now ttl response log before
                    entry in
                let single = one_entry d.id d.seq (now + ttl) before entry in
                let gone : one (astray after) ≡ 0 = rw (set, left) refl in
                let put : one (placed after) ≡ 1 = rw (set, right) refl in
                let still = entry_after d.id d.seq (now + ttl) after (rw set right) in
                (
                  omega (arith, h, split, single, gone, old astray, old placed, change astray),
                  omega (arith, h, split, single, gone, put, old astray, old placed, change placed),
                  λ r out.
                      let was : one (r before) ≡ 0 = ap one (out before entry) in
                      let is : one (r after) ≡ 0 = ap one (out after still) in
                      omega (arith, was, is, change r),
                )
          ]
        ])

  -- `deferDelivery` answers true or an error.
  pub defer_delivery-true :
      (q : Queue S) (d : Delivery) (ttl now : ℕ) (response log : Option String) (b : Bool)
      → (defer_delivery db q d ttl response log now).1 ≡ ok b
      → (defer_delivery db q d ttl response log now).1 ≡ ok true
  unfolding defer_delivery
  defer_delivery-true q d ttl now response log b h =
      elim (Reply-cases
        (db.find_one_and_update (is_entry d.id d.seq)
          (defer_row (is_some d.deferred) now ttl response log) q.store).1) [
            | inl (m, f) ↦ ground (arith, h, f)
            | inr (v, f) ↦ rw (defer_delivery, f) refl
          ]
