-- ===== src/MailQueue/Info/Messages.antt =====
-- lib/mail-queue.js: what `getInfo` lists.
use zone_mta.Prelude.{
  ℕ, ◌<◌, ◌≤◌, ltb, ◌⊎◌, Bool-cases, String, ◌≡◌, refl, sym, Bool, true, false, ◌&&◌, Option, none,
  some, List, [], ◌∷◌, map, arith, inl, inr, ◌∙◌,
}
use zone_mta.Delivery.{
  Delivery, Reply, failed, ok, Reply-cases, Store, IsDocumented, count, lock_key,
}
use zone_mta.QueueLocker.{Locker}
use zone_mta.QueueLocker.Held.{holder}
use zone_mta.MailQueue.{Queue, get_meta, of_id}
use zone_mta.MailQueue.Info.{Message, message_of, Info, get_info}

-- What `getInfo` tells of a row: one that is due later is deferred, and only of such a one the
-- details of that are told; `lock` is the lock that is held in memory under its key.
abbrev pub IsMessage : Locker → ℕ → Delivery → Message → Type 0
IsMessage l now d x =
    (x.seq ≡ d.seq)
    × (x.zone ≡ d.sending_zone)
    × (x.recipient ≡ d.recipient)
    × (x.lock ≡ holder (lock_key d.id d.seq) l)
    × (((now < d.queued) × (x.is_deferred ≡ true) × (x.deferred ≡ d.deferred))
        ⊎ ((d.queued ≤ now) × (x.is_deferred ≡ false) × (x.deferred ≡ none)))

-- One message for each row, in their order.
abbrev pub AllMessages : Locker → ℕ → List Delivery → List Message → Type 0
AllMessages l now [] [] = Unit
AllMessages l now (d ∷ ds) (x ∷ xs) = IsMessage l now d x × AllMessages l now ds xs
AllMessages l now _ _ = ⊥

message_of-IsMessage :
    (l : Locker) (now : ℕ) (d : Delivery) → IsMessage l now d (message_of l now d)
unfolding message_of
message_of-IsMessage l now d = (
  refl,
  refl,
  refl,
  refl,
  elim (Bool-cases (ltb now d.queued)) [
    | inl e ↦ inl (ground (arith, e), e, ground (arith, e))
    | inr e ↦ inr (ground (arith, e), e, ground (arith, e))
  ],
)

map-AllMessages :
    (l : Locker) (now : ℕ) (ds : List Delivery) → AllMessages l now ds (map (message_of l now) ds)
map-AllMessages l now [] = tt
map-AllMessages l now (d ∷ ds) = (message_of-IsMessage l now d, map-AllMessages l now ds)

module _ {ℓ} {S : Type ℓ} (db : Store S) where
  -- The list is that of rows which the database has as many times with the id, by any test; nothing
  -- is answered where there is no row.
  abbrev pub IsInfo : Queue S → String → ℕ → Reply (Option Info) → Type 0
  IsInfo q id now (failed e) = Unit
  IsInfo q id now (ok none) = count (of_id id) (db.rows q.store) ≡ 0
  IsInfo q id now (ok (some info)) =
      (ds : List Delivery) × ((r : Delivery → Bool)
        → count r ds ≡ count (λ d. of_id id d && r d) (db.rows q.store))
      × AllMessages q.locks now ds info.messages
      × (get_meta db id q.store ≡ ok info.meta)

  count_true : (p : Delivery → Bool) (ds : List Delivery) → count (λ d. p d && true) ds ≡ count p ds
  count_true p [] = refl
  count_true p (d ∷ ds) = ground (arith, count_true p ds)

  -- With a documented database, `getInfo` fails, or answers nothing, which it does only where the
  -- message has no row, or lists one message for each row of the id, with its number, its zone, its
  -- recipient and the lock that is held in memory on the delivery; it is told to be deferred, with
  -- the details of that, exactly where it is due after `now`. With the list it answers what
  -- `getMeta` does.
  pub get_info-IsInfo :
      IsDocumented db
      → (q : Queue S) (id : String) (now : ℕ) → IsInfo q id now (get_info db q id now)
  unfolding get_info
  get_info-IsInfo documented q id now = elim (Reply-cases (db.find_sorted (of_id id) q.store)) [
    | inl (e, f) ↦ rw (get_info, f) tt
    | inr ([], f) ↦
        rw (get_info, f)
          (sym (count_true (of_id id) (db.rows q.store))
            ∙ sym (documented.found_sorted (of_id id) (λ d. true) q.store [] f))
    | inr (d ∷ ds, f) ↦ elim (Reply-cases (get_meta db id q.store)) [
      | inl (e, g) ↦ rw (get_info, f, g) tt
      | inr (meta, g) ↦
          rw (get_info, f, g)
            (
              d ∷ ds,
              λ r. documented.found_sorted (of_id id) r q.store (d ∷ ds) f,
              map-AllMessages q.locks now (d ∷ ds),
              g,
            )
    ]
  ]
