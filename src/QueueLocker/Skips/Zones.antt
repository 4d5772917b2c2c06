-- ===== src/QueueLocker/Skips/Zones.antt =====
-- lib/queue-locker.js: the sets of the domains hold held locks only, and a domain is skipped only
-- while a lock on it is held.
use zone_mta.Prelude.{
  String, ◌≡◌, refl, ◌⊎◌, ite, if◌then◌else◌, true, false, some, List, [], ◌∷◌, arith, ◌==◌, length,
  Option-cases, Bool-cases, inl, inr, text_discrete,
}
use zone_mta.Prelude.Maps
use zone_mta.Prelude.Maps.{Map, get-set, get-delete}
use zone_mta.Prelude.Sets.{has_text}
use zone_mta.QueueLocker.{
  Lock, ZoneData, empty_zone, delete_lock, zone_data, leave_domain, leave_zone,
}
use zone_mta.QueueLocker.Skips.{
  domain_set, skips, On, domains-leave_domain, skip-leave_domain, unskip-leave_domain,
}

-- The map of zones after `leave_zone` finds the set `ks` of the lock's domain.
pub left_zone : Map ZoneData → Lock → ZoneData → Map ZoneData
left_zone m k z' = if (length z'.domains == 0) then Maps.delete k.zone m else Maps.set k.zone z' m

pub zone_data-left_zone :
    (m : Map ZoneData) (k : Lock) (z' : ZoneData) (zone : String)
    → (zone_data zone (left_zone m k z') ≡ ite (text_discrete k.zone zone) z' (zone_data zone m))
      ⊎ ((z'.domains ≡ [])
          × (zone_data zone (left_zone m k z')
              ≡ ite (text_discrete k.zone zone) empty_zone (zone_data zone m)))
unfolding left_zone
zone_data-left_zone m k z' zone = elim (Bool-cases (length z'.domains == 0)) [
  | inl h ↦
      rw h (inr (nil_of_map z'.domains (ground arith), ground (arith, get-delete k.zone zone m)))
  | inr h ↦ rw h (inl (ground (arith, get-set k.zone zone z' m)))
]
  where
    nil_of_map : (x : Map (List Lock)) → length x ≡ 0 → x ≡ []
    nil_of_map [] e = refl
    nil_of_map (x ∷ xs) e = absurd (omega arith)

-- How `leave_zone` ends: it finds no set for the lock, or the set leaves or shrinks.
pub leave_zone-cases :
    (m : Map ZoneData) (k : Lock)
    → ((leave_zone m k ≡ m) × ((d : String) → k.domain ≡ some d → domain_set k.zone d m ≡ []))
      ⊎ ((z : ZoneData) × (d : String) × (ks : List Lock) × (k.domain ≡ some d)
          × (Maps.get k.zone m ≡ some z)
          × (Maps.get d z.domains ≡ some ks)
          × (leave_zone m k ≡ left_zone m k (leave_domain z k d ks)))
unfolding leave_zone left_zone
leave_zone-cases m k = elim (Option-cases (Maps.get k.zone m)) [
  | inl e ↦
      rw (e, leave_zone)
        (inl (refl, λ d h. ground (arith, Maps.get_of_nil {V = List Lock} d [] refl)))
  | inr (z, e) ↦ elim (Option-cases k.domain) [
    | inl f ↦ inl (rw (e, leave_zone) (rw f refl), λ d h. cc)
    | inr (d, f) ↦ elim (Option-cases (Maps.get d z.domains)) [
      | inl g ↦ inl (rw (e, leave_zone) (rw f (rw g refl)), λ d' h. ground arith)
      | inr (ks, g) ↦ inr (z, d, ks, f, e, g, rw (e, leave_zone) (rw f (rw g refl)))
    ]
  ]
]

-- The lock leaves the set of its domain, and every other set stays.
pub domain_set-leave_zone :
    (m : Map ZoneData) (k : Lock) (zone e : String)
    → (On zone e k → domain_set zone e (leave_zone m k) ≡ delete_lock k (domain_set zone e m))
      × (¬ On zone e k → domain_set zone e (leave_zone m k) ≡ domain_set zone e m)
unfolding delete_lock
domain_set-leave_zone m k zone e = elim (leave_zone-cases m k) [
  | inl (same, empty) ↦ (λ on. ground (arith, same, empty e), λ off. ground (arith, same))
  | inr (z, d, ks, f, g, h, moved) ↦ (
    λ on. ground (
      arith,
      moved,
      zone_data-left_zone m k (leave_domain z k d ks) zone,
      domains-leave_domain z k d e ks h,
      Maps.get_of_nil {V = List Lock} e (leave_domain z k d ks).domains,
    ),
    λ off. ground (
      arith,
      moved,
      zone_data-left_zone m k (leave_domain z k d ks) zone,
      domains-leave_domain z k d e ks h,
      Maps.get_of_nil {V = List Lock} e (leave_domain z k d ks).domains,
    ),
  )
]

-- No domain is skipped that was not; nor is one whose set the lock leaves empty.
pub skips-leave_zone :
    (m : Map ZoneData) (k : Lock) (zone e : String)
    → (domain_set zone e m ≡ [] → has_text e (skips zone m) ≡ false)
    → (has_text e (skips zone (leave_zone m k)) ≡ true → has_text e (skips zone m) ≡ true)
      × (domain_set zone e (leave_zone m k) ≡ [] → has_text e (skips zone (leave_zone m k)) ≡ false)
unfolding has_text
skips-leave_zone m k zone e ok = elim (leave_zone-cases m k) [
  | inl (same, empty) ↦ (λ on. ground (arith, same), λ off. ground (arith, same, ok))
  | inr (z, d, ks, f, g, h, moved) ↦ (
    λ on. ground (
      arith,
      moved,
      zone_data-left_zone m k (leave_domain z k d ks) zone,
      skip-leave_domain z k d e ks,
    ),
    λ off. ground (
      arith,
      moved,
      ok,
      zone_data-left_zone m k (leave_domain z k d ks) zone,
      domains-leave_domain z k d e ks h,
      skip-leave_domain z k d e ks,
      unskip-leave_domain z k d ks,
    ),
  )
]
