-- ===== src/MailQueue/Garbage/Unlocked.antt =====
-- lib/mail-queue.js: which rows `init` and `clearGarbage` unlock.
use zone_mta.Prelude.{
  ℕ, String, ◌≡◌, refl, sym, ap, ◌∙◌, inl, inr, Bool, false, not, ◌&&◌, List, [], ◌∷◌, arith,
  if◌then◌else◌,
}
use zone_mta.Delivery.{Delivery, failed, ok, Reply-cases, Store, IsDocumented, count, one}
use zone_mta.MailQueue.{Queue, same, is_entry}
use zone_mta.MailQueue.Garbage.{
  is_own, is_stale, unlock_row, unlock_rows, release_old_locks, clear_locks,
}

count_same :
    (r r' : Delivery → Bool) (ds : List Delivery)
    → ((d : Delivery) → r d ≡ r' d)
    → count r ds ≡ count r' ds
count_same r r' [] h = refl
count_same r r' (d ∷ ds) h = omega (arith, ap one (h d), count_same r r' ds h)

count_never :
    (r : Delivery → Bool) (ds : List Delivery) → ((d : Delivery) → r d ≡ false) → count r ds ≡ 0
count_never r [] h = refl
count_never r (d ∷ ds) h = omega (arith, ap one (h d), count_never r ds h)

-- Whether a row is locked, but not by this instance.
abbrev pub is_foreign : String → Delivery → Bool
is_foreign instance_id d = d.locked && not (same d.assigned instance_id)

abbrev pub is_fresh : String → ℕ → Delivery → Bool
is_fresh instance_id now d = is_own instance_id d && not (is_stale instance_id now d)

module _ {ℓ} {S : Type ℓ} (db : Store S) (documented : IsDocumented db) where
  -- A test of rows counts, after rows that meet `p` are unlocked, the rows that it would meet unlocked.
  count-unlock_rows :
      (p r r' : Delivery → Bool) (q : Queue S)
      → (unlock_rows db p q).1 ≡ ok tt
      → ((d : Delivery) → r (if p d then unlock_row d else d) ≡ r' d)
      → count r (db.rows (unlock_rows db p q).0.store) ≡ count r' (db.rows q.store)
  unfolding unlock_rows
  count-unlock_rows p r r' q h e = elim (Reply-cases (db.update_many p unlock_row q.store).1) [
    | inl (m, f) ↦
        let refused : failed m ≡ ok tt = sym (rw (unlock_rows, f) refl) ∙ h in
        absurd (ground (arith, refused))
    | inr (n, f) ↦
        rw (unlock_rows, f)
          (documented.updated_many p unlock_row r q.store n f ∙ count_same _ r' (db.rows q.store) e)
  ]

  -- Where `init` ends well, the instance has no locked row, and every delivery still has its rows; the rows
  -- that other instances locked are locked as before.
  release_old_locks_lem :
      (q : Queue S)
      → (release_old_locks db q).1 ≡ ok tt
      → (count (is_own q.instance_id) (db.rows (release_old_locks db q).0.store) ≡ 0)
        × (count (is_foreign q.instance_id) (db.rows (release_old_locks db q).0.store)
            ≡ count (is_foreign q.instance_id) (db.rows q.store))
        × ((id seq : String)
            → count (is_entry id seq) (db.rows (release_old_locks db q).0.store)
              ≡ count (is_entry id seq) (db.rows q.store))
  unfolding release_old_locks
  release_old_locks_lem q h =
      let p = is_own q.instance_id in
      (
        count-unlock_rows p p (λ d. false) q h (λ d. ground arith)
            ∙ count_never (λ d. false) (db.rows q.store) (λ d. refl),
        count-unlock_rows p (is_foreign q.instance_id) (is_foreign q.instance_id) q h
            (λ d. ground arith),
        λ id seq. count-unlock_rows p (is_entry id seq) (is_entry id seq) q h (λ d. ground arith),
      )

  -- Where the first step of `clearGarbage` ends well, no row of the instance is left that was locked 61
  -- minutes ago or earlier; its younger locks and those of other instances stay.
  clear_locks_lem :
      (q : Queue S) (now : ℕ)
      → (clear_locks db q now).1 ≡ ok tt
      → (count (is_stale q.instance_id now) (db.rows (clear_locks db q now).0.store) ≡ 0)
        × (count (is_fresh q.instance_id now) (db.rows (clear_locks db q now).0.store)
            ≡ count (is_fresh q.instance_id now) (db.rows q.store))
        × (count (is_foreign q.instance_id) (db.rows (clear_locks db q now).0.store)
            ≡ count (is_foreign q.instance_id) (db.rows q.store))
  unfolding clear_locks
  clear_locks_lem q now h =
      let p = is_stale q.instance_id now in
      (
        count-unlock_rows p p (λ d. false) q h (λ d. ground arith)
            ∙ count_never (λ d. false) (db.rows q.store) (λ d. refl),
        count-unlock_rows p (is_fresh q.instance_id now) (is_fresh q.instance_id now) q h
            (λ d. ground arith),
        count-unlock_rows p (is_foreign q.instance_id) (is_foreign q.instance_id) q h
            (λ d. ground arith),
      )
