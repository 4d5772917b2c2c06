-- ===== src/MailQueue/Garbage/Files.antt =====
-- lib/mail-queue.js: `clearGarbage` keeps the messages that are queued.
use zone_mta.Prelude.{
  ℕ, ◌+◌, ◌-◌, ◌*◌, ◌≤◌, ◌<◌, String, ◌≡◌, refl, ap, ◌∙◌, inl, inr, Bool, true, ◌&&◌, some, List,
  [], ◌∷◌, arith, ltb, Option-cases,
}
use zone_mta.Delivery.{Delivery, ok, Reply-cases, File, Store, IsDocumented, count}
use zone_mta.MailQueue.{Queue, of_id}
use zone_mta.MailQueue.Garbage.{to_seconds, clear_before, clear_files}

-- A row of the message that was made at most ten minutes after its file.
abbrev pub is_row_of : String → File → Delivery → Bool
is_row_of id file d = of_id id d && ltb d.made (file.made + 10 * 60)

-- No row is younger than one that is counted.
row_bound :
    (id : String) (file : File) (t : ℕ) (ds : List Delivery)
    → 0 < count (is_row_of id file) ds
    → count (λ d. ltb d.made t) ds ≡ 0
    → t < file.made + 10 * 60
row_bound id file t [] h k = absurd (omega (arith, h))
row_bound id file t (d ∷ ds) h k = ground (arith, row_bound id file t ds)

row_counts :
    (id : String) (file : File) (ds : List Delivery)
    → count (λ d. true) ds ≡ 0
    → count (is_row_of id file) ds ≡ 0
row_counts id file [] h = refl
row_counts id file (d ∷ ds) h = absurd (omega (arith, h))

module _ {ℓ} {S : Type ℓ} (db : Store S) (documented : IsDocumented db) where
  clear_before_lem :
      (q : Queue S) (limit : ℕ) (id : String) (file : File)
      → db.find_file id q.store ≡ ok (some file)
      → limit ≤ file.made
      → db.find_file id (clear_before db q limit).0.store ≡ ok (some file)
  unfolding clear_before
  clear_before_lem q limit id file here young =
      let kept = documented.kept_file limit q.store id file here young in
      let s = (db.delete_old_files limit q.store).0 in
      elim (Reply-cases (db.delete_old_files limit q.store).1) [
        | inl (m, e) ↦ rw (clear_before, e) kept
        | inr (n, e) ↦ elim (Reply-cases (db.delete_old_chunks limit s).1) [
          | inl (m, f) ↦ rw (clear_before, e, f) (documented.kept_by_chunks limit s id ∙ kept)
          | inr (m, f) ↦ rw (clear_before, e, f) (documented.kept_by_chunks limit s id ∙ kept)
        ]
      ]

  -- The stored file of a message stays while there is a row of it that was made less than ten
  -- minutes after the file.
  pub clear_files_lem :
      (q : Queue S) (now : ℕ) (id : String) (file : File)
      → db.find_file id q.store ≡ ok (some file)
      → 0 < count (is_row_of id file) (db.rows q.store)
      → db.find_file id (clear_files db q now).0.store ≡ ok (some file)
  unfolding clear_files
  clear_files_lem q now id file here queued = elim (Reply-cases (db.oldest q.store)) [
    | inl (m, e) ↦ rw (clear_files, e) here
    | inr (v, e) ↦ elim (Option-cases v) [
      | inl e' ↦
          let empty =
            row_counts id file (db.rows q.store) (documented.oldest_none q.store (e ∙ ap ok e')) in
          absurd (omega (arith, queued, empty))
      | inr (t, e') ↦
          let bound =
            row_bound id file t (db.rows q.store) queued
              (documented.oldest_some q.store t (e ∙ ap ok e')) in
          rw (clear_files, e, e')
            (clear_before_lem q (to_seconds (t * 1000 - 10 * 60 * 1000)) id file here
              (omega (arith, bound)))
    ]
  ]
