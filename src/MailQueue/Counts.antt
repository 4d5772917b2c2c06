-- ===== src/MailQueue/Counts.antt =====
-- lib/mail-queue.js: `count`, the numbers of rows that are queued or deferred in some zones.
pub mod Sum
use zone_mta.Prelude.{
  ℕ, ◌+◌, String, Bool, true, false, not, ◌&&◌, List, [], ◌∷◌, leb, if◌then◌else◌,
}
use zone_mta.Delivery.{Delivery, Reply, failed, ok, Store}
use zone_mta.MailQueue.{Queue, same}

-- `type === 'deferred' ? '$gt' : '$lte'`
abbrev pub is_listed : Bool → ℕ → Delivery → Bool
is_listed deferred now d = if deferred then not (leb d.queued now) else leb d.queued now

module _ {ℓ} {S : Type ℓ} (db : Store S) where
  unfoldable pub check_zone : S → String → Bool → ℕ → Reply (String × ℕ)
  check_zone s zone deferred now =
      elim (db.count_documents (λ d. same d.sending_zone zone && is_listed deferred now d) s) [
        | failed e ↦ failed e
        | ok n ↦ ok (zone, n)
      ]

  -- The entries and their sum, or the first error.
  unfoldable pub count_zones : S → List String → Bool → ℕ → Reply (List (String × ℕ) × ℕ)
  unfolding check_zone
  count_zones s [] deferred now = ok ([], 0)
  count_zones s (zone ∷ zones) deferred now =
      let rest = count_zones s zones deferred now in
      elim (check_zone s zone deferred now) [
        | failed e ↦ failed e
        | ok entry ↦ elim rest [
          | failed e ↦ failed e
          | ok (entries, rows) ↦ ok (entry ∷ entries, entry.1 + rows)
        ]
      ]
