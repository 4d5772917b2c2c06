-- ===== src/MailQueue/Sound.antt =====
-- lib/mail-queue.js: the operations keep the locks sound, whatever the database answers.
use zone_mta.Prelude.{
  either, ℕ, zero, suc, ◌*◌, String, Option, none, some, Option-cases, Bool-cases, inl, inr, subst,
  sym, is_some,
}
use zone_mta.Delivery.{Delivery, Reply, Reply-cases, Store, lock_key}
use zone_mta.QueueLocker.{list_skip_domains}
use zone_mta.QueueLocker.Reachable.{
  IsSound, lock-IsSound, release-IsSound, list_skip_domains-IsSound,
}
use zone_mta.TtlCache
use zone_mta.MailQueue.{
  Queue, Search, Attempt, again, answered, is_entry, is_next, mark_locked, defer_row,
  release_delivery, defer_delivery, get_meta, with_meta, answer_unless_suppressed, load_meta,
  attempt, try_next, shift, search_of, claim, limit_of, empty_key, is_set,
}
use zone_mta.MailQueue.Answers.{Attempt-cases}
use zone_mta.MailQueue.Release.{release_delivery-locks}

module _ {ℓ} {S : Type ℓ} (db : Store S) where
  pub release_delivery-IsSound :
      (q : Queue S) (d : Delivery) → IsSound q.locks → IsSound (release_delivery db q d).0.locks
  release_delivery-IsSound q d s =
      subst IsSound (sym (release_delivery-locks db q d)) (release-IsSound q.locks d.lock s)

  pub defer_delivery-IsSound :
      (q : Queue S) (d : Delivery) (ttl now : ℕ) (response log : Option String)
      → IsSound q.locks
      → IsSound (defer_delivery db q d ttl response log now).0.locks
  unfolding defer_delivery
  defer_delivery-IsSound q d ttl now response log s =
      elim (Reply-cases
        (db.find_one_and_update (is_entry d.id d.seq)
          (defer_row (is_some d.deferred) now ttl response log) q.store).1) [
            | inl (m, f) ↦ rw (defer_delivery, f) s
            | inr (v, f) ↦ rw (defer_delivery, f) (release-IsSound q.locks d.lock s)
          ]

  abbrev HasSound : Attempt S → Type 0
  HasSound (again q) = IsSound q.locks
  HasSound (answered q r) = IsSound q.locks

  answer_unless_suppressed-HasSound :
      (o : Search) (q : Queue S) (d : Delivery)
      → IsSound q.locks
      → HasSound (answer_unless_suppressed db o q d)
  unfolding answer_unless_suppressed
  answer_unless_suppressed-HasSound o q d s =
      let after = release_delivery-IsSound q d s in
      elim (Reply-cases (db.find_suppressed (o.normal d.recipient) (o.normal d.domain) q.store)) [
        | inl (e, f) ↦ rw (answer_unless_suppressed, f) s
        | inr (b, f) ↦ elim (Bool-cases b) [
          | inr no_match ↦ rw (answer_unless_suppressed, f, no_match) s
          | inl match ↦ elim (Reply-cases (release_delivery db q d).1) [
            | inl (e, g) ↦
                rw (answer_unless_suppressed, f, match, g)
                  (release-IsSound (release_delivery db q d).0.locks d.lock after)
            | inr (v, g) ↦ rw (answer_unless_suppressed, f, match, g) after
          ]
        ]
      ]

  load_meta-HasSound :
      (o : Search) (q : Queue S) (d : Delivery) → IsSound q.locks → HasSound (load_meta db o q d)
  unfolding load_meta
  load_meta-HasSound o q d s =
      let freed = release-IsSound q.locks (some (lock_key d.id d.seq)) s in
      elim (Reply-cases (get_meta db d.id q.store)) [
        | inl (e, f) ↦ rw (load_meta, f) freed
        | inr (v, f) ↦ elim (Option-cases v) [
          | inl gone ↦ rw (load_meta, f, gone) freed
          | inr (meta, there) ↦
              rw (load_meta, f, there) (answer_unless_suppressed-HasSound o q (with_meta d meta) s)
        ]
      ]

  attempt-HasSound : (o : Search) (q : Queue S) → IsSound q.locks → HasSound (attempt db o q)
  unfolding attempt
  attempt-HasSound o q s =
      let p = is_next o.zone o.now q.instance_id o.skips in
      let f = mark_locked o.now q.instance_id in
      let store = (db.find_one_and_update p f q.store).0 in
      elim (Reply-cases (db.find_one_and_update p f q.store).1) [
        | inl (m, e) ↦ rw (attempt, e) s
        | inr (v, e) ↦ elim (Option-cases v) [
          | inl e' ↦ rw (attempt, e, e') s
          | inr ((before, d), e') ↦
              let locked : IsSound (claim db o (record q { store = store }) d).0 =
                lock-IsSound q.locks (lock_key d.id d.seq) o.zone (some d.domain) o.lock_owner
                  (limit_of o d) (60 * 60 * 1000) o.now s in
              elim (Bool-cases (claim db o (record q { store = store }) d).1) [
                | inl won ↦
                    rw (attempt, e, e', won)
                      (load_meta-HasSound o
                        (record q {
                          store = store;
                          locks = (claim db o (record q { store = store }) d).0;
                        })
                        d locked)
                | inr lost ↦ rw (attempt, e, e', lost) locked
              ]
        ]
      ]

  abbrev pub EndsSound : Option (Queue S × Reply (Option Delivery)) → Type 0
  EndsSound none = Unit
  EndsSound (some (q, r)) = IsSound q.locks

  try_next-EndsSound :
      (fuel : ℕ) (o : Search) (q : Queue S) → IsSound q.locks → EndsSound (try_next db fuel o q)
  unfolding try_next
  try_next-EndsSound zero o q s = tt
  try_next-EndsSound (suc fuel) o q s =
      let now_sound = attempt-HasSound o q s in
      elim (Attempt-cases (attempt db o q)) [
        | inl (q', e) ↦ rw (try_next, e) (try_next-EndsSound fuel o q' (subst HasSound e now_sound))
        | inr (q', r, e) ↦ rw (try_next, e) (subst HasSound e now_sound)
      ]

  pub shift-EndsSound :
      (fuel : ℕ) (zone owner : String) (limits : String → ℕ) (normal : String → String)
      (q : Queue S) (now : ℕ)
      → IsSound q.locks
      → EndsSound (shift db fuel zone owner limits normal q now)
  unfolding shift
  shift-EndsSound fuel zone owner limits normal q now s = either EndsSound q.closing _ _ s (
      either EndsSound (is_set (TtlCache.get q.cache (empty_key zone) now).1) _ _ s (
        try_next-EndsSound fuel (search_of db zone owner limits normal q now)
          (record q {
            cache = (TtlCache.get q.cache (empty_key zone) now).0;
            locks = (list_skip_domains q.locks zone).0;
          })
          (list_skip_domains-IsSound q.locks zone s)))
