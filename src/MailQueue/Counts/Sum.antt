-- ===== src/MailQueue/Counts/Sum.antt =====
-- lib/mail-queue.js: what the sum of `count` counts.
use zone_mta.Prelude.{
  ℕ, ◌+◌, String, ◌≡◌, refl, sym, ap, subst, inl, inr, Bool, false, ◌&&◌, List, [], ◌∷◌, arith,
  text_discrete,
}
use zone_mta.Prelude.Sets.{has_text}
use zone_mta.Delivery.{Delivery, Reply, failed, ok, Reply-cases, Store, IsDocumented, count, one}
use zone_mta.MailQueue.{same}
use zone_mta.MailQueue.Counts.{is_listed, check_zone, count_zones}

abbrev pub DistinctTexts : List String → Type 0
DistinctTexts [] = Unit
DistinctTexts (x ∷ xs) = (has_text x xs ≡ false) × DistinctTexts xs

abbrev pub in_zones : List String → Bool → ℕ → Delivery → Bool
in_zones zones deferred now d = has_text d.sending_zone zones && is_listed deferred now d

abbrev in_zone : String → Bool → ℕ → Delivery → Bool
in_zone zone deferred now d = same d.sending_zone zone && is_listed deferred now d

split_row :
    (zone : String) (zones : List String) (deferred : Bool) (now : ℕ) (d : Delivery)
    → has_text zone zones ≡ false
    → one (in_zones (zone ∷ zones) deferred now d)
      ≡ one (in_zone zone deferred now d) + one (in_zones zones deferred now d)
unfolding has_text
split_row zone zones deferred now d h = elim (text_discrete zone d.sending_zone) [
  | yes e ↦ ground (arith, h, ap (λ x. has_text x zones) e, e)
  | no e ↦ ground (arith, e)
]

split_count :
    (zone : String) (zones : List String) (deferred : Bool) (now : ℕ) (ds : List Delivery)
    → has_text zone zones ≡ false
    → count (in_zones (zone ∷ zones) deferred now) ds
      ≡ count (in_zone zone deferred now) ds + count (in_zones zones deferred now) ds
split_count zone zones deferred now [] h = omega arith
split_count zone zones deferred now (d ∷ ds) h =
    omega (arith, split_row zone zones deferred now d h, split_count zone zones deferred now ds h)

count_never :
    (deferred : Bool) (now : ℕ) (ds : List Delivery) → count (in_zones [] deferred now) ds ≡ 0
unfolding has_text
count_never deferred now [] = refl
count_never deferred now (d ∷ ds) = ground (arith, count_never deferred now ds)

-- Each entry is of its zone, in the order of the zones.
abbrev pub IsCounted : List Delivery → Bool → ℕ → List String → List (String × ℕ) → Type 0
IsCounted ds deferred now [] [] = Unit
IsCounted ds deferred now (zone ∷ zones) ((key, value) ∷ entries) =
    (key ≡ zone)
    × (value ≡ count (in_zone zone deferred now) ds)
    × IsCounted ds deferred now zones entries
IsCounted ds deferred now _ _ = ⊥

-- What an answer of `count` holds: the entries of the zones, and the number of the rows in all of them.
abbrev pub IsSum : List Delivery → List String → Bool → ℕ → Reply (List (String × ℕ) × ℕ) → Type 0
IsSum ds zones deferred now (failed e) = Unit
IsSum ds zones deferred now (ok (entries, rows)) =
    IsCounted ds deferred now zones entries × (rows ≡ count (in_zones zones deferred now) ds)

module _ {ℓ} {S : Type ℓ} (db : Store S) where
  -- With a documented database, where no zone is named twice, `count` fails or answers for each
  -- zone the number of its rows that are queued, or deferred, and as the sum the number of such
  -- rows in all the zones.
  count_zones_lem :
      IsDocumented db
      → (s : S) (zones : List String) (deferred : Bool) (now : ℕ) → DistinctTexts zones
      → IsSum (db.rows s) zones deferred now (count_zones db s zones deferred now)
  unfolding count_zones check_zone
  count_zones_lem documented s [] deferred now distinct =
      (tt, sym (count_never deferred now (db.rows s)))
  count_zones_lem documented s (zone ∷ zones) deferred now distinct =
      let rest = count_zones_lem documented s zones deferred now distinct.1 in
      elim (Reply-cases (db.count_documents (in_zone zone deferred now) s)) [
        | inl (e, f) ↦ rw (count_zones, check_zone, f) tt
        | inr (n, f) ↦ elim (Reply-cases (count_zones db s zones deferred now)) [
          | inl (e, g) ↦ rw (count_zones, check_zone, f, g) tt
          | inr ((entries, rows), g) ↦
              let (counted, total) = subst (IsSum (db.rows s) zones deferred now) g rest in
              let first = documented.counted (in_zone zone deferred now) s n f in
              let both = split_count zone zones deferred now (db.rows s) distinct.0 in
              rw (count_zones, check_zone, f, g)
                ((refl, first, counted), omega (arith, total, first, both))
        ]
      ]
