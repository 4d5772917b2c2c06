-- ===== src/QueueLocker/Skips/Linked.antt =====
-- lib/queue-locker.js: every operation keeps the sets of the domains in step with the locks.
use zone_mta.Prelude.{
  ℕ, String, ◌≡◌, refl, sym, ◌∙◌, ◌≢◌, false, Option, none, some, List, [], ◌∷◌, ◌++◌, arith, All,
  All-map, All-append, Option-cases, inl, inr, text_discrete,
}
use zone_mta.Prelude.Maps
use zone_mta.Prelude.Maps.{Map, get-set, get-delete}
use zone_mta.Prelude.Sets.{has_text}
use zone_mta.QueueLocker.{
  Locker, Lock, init, delete_lock, zone_data, join_domain, install, leave_zone, lock, lock_exists,
  release, release_all,
}
use zone_mta.QueueLocker.Held.{holder, holder-install, holder-release}
use zone_mta.QueueLocker.Owners.{All-delete_lock}
use zone_mta.QueueLocker.Skips.{domain_set, skips, On, has_text-join_domain, domains-join_domain}
use zone_mta.QueueLocker.Skips.Zones.{domain_set-leave_zone, skips-leave_zone}

-- The set of a domain holds only held locks on that domain, and a domain is skipped only while its
-- set is not empty.
pub record IsLinked (l : Locker) : Type 0 where
  pub sound :
      (zone d : String)
      → All (λ x. (holder x.key l ≡ some x) × On zone d x) (domain_set zone d l.zones)
  pub blocked :
      (zone d : String) → domain_set zone d l.zones ≡ [] → has_text d (skips zone l.zones) ≡ false

pub dec_On : (zone d : String) (k : Lock) → Dec (On zone d k)
dec_On zone d k = elim (Option-cases k.domain) [
  | inl e ↦ no (λ h. cc (h.1))
  | inr (x, e) ↦ elim (text_discrete x d) [
    | no p ↦ no (λ h. p (ground (arith, h.1)))
    | yes p ↦ elim (text_discrete k.zone zone) [
      | yes q ↦ yes (q, rw (← p) e)
      | no q ↦ no (λ h. q h.0)
    ]
  ]
]

pub init-IsLinked : IsLinked init
unfolding init Maps.get has_text
init-IsLinked = record { sound = λ zone d. tt; blocked = λ zone d h. refl }

module _ (l : Locker) (k : Lock) where
  pub domain_set-install :
      (zone d : String)
      → (On zone d k → domain_set zone d (install l k).zones ≡ domain_set zone d l.zones ++ k ∷ [])
        × (¬ On zone d k → domain_set zone d (install l k).zones ≡ domain_set zone d l.zones)
  unfolding install
  domain_set-install zone d = elim (Option-cases k.domain) [
    | inl e ↦ (
      λ on. cc (on.1),
      λ off. ground (arith, get-set k.zone zone (zone_data k.zone l.zones) l.zones),
    )
    | inr (x, e) ↦ (
      λ on. ground (
        arith,
        get-set k.zone zone (join_domain (zone_data k.zone l.zones) k x) l.zones,
        domains-join_domain (zone_data k.zone l.zones) k x d,
      ),
      λ off. ground (
        arith,
        get-set k.zone zone (join_domain (zone_data k.zone l.zones) k x) l.zones,
        domains-join_domain (zone_data k.zone l.zones) k x d,
      ),
    )
  ]

  skips-install_off :
      (zone d : String)
      → ¬ On zone d k
      → has_text d (skips zone (install l k).zones) ≡ has_text d (skips zone l.zones)
  unfolding install
  skips-install_off zone d off = elim (Option-cases k.domain) [
    | inl e ↦ ground (arith, get-set k.zone zone (zone_data k.zone l.zones) l.zones)
    | inr (x, e) ↦ ground (
      arith,
      get-set k.zone zone (join_domain (zone_data k.zone l.zones) k x) l.zones,
      has_text-join_domain (zone_data k.zone l.zones) k x d,
    )
  ]

  append-ne-nil : (xs : List Lock) → (xs ++ k ∷ []) ≢ []
  append-ne-nil [] e = cc
  append-ne-nil (x ∷ xs) e = cc

  pub install-IsLinked : IsLinked l → holder k.key l ≡ none → IsLinked (install l k)
  install-IsLinked c free = record {
    sound = λ zone d.
        let old : All (λ x. (holder x.key (install l k) ≡ some x) × On zone d x)
            (domain_set zone d l.zones) =
          All-map _ _ (λ x h. (ground (arith, holder-install l k x.key), h.1))
            (domain_set zone d l.zones) (c.sound zone d) in
        elim (dec_On zone d k) [
          | yes on ↦ rw ((domain_set-install zone d).0 on) (
              All-append _ (domain_set zone d l.zones) (k ∷ []) old
                ((ground (arith, holder-install l k k.key), on), tt))
          | no off ↦ rw ((domain_set-install zone d).1 off) old
        ];
    blocked = λ zone d h. elim (dec_On zone d k) [
      | yes on ↦
          absurd
            (append-ne-nil (domain_set zone d l.zones) (sym ((domain_set-install zone d).0 on) ∙ h))
      | no off ↦
          skips-install_off zone d off
          ∙ c.blocked zone d (sym ((domain_set-install zone d).1 off) ∙ h)
    ];
  }

module _ (l : Locker) (key : String) (k : Lock) (held : holder key l ≡ some k)
    (c : IsLinked l) where
  pub zones-release : (release l (some key)).0.zones ≡ leave_zone l.zones k
  unfolding release
  zones-release = rw (held, release)

  held_release-IsLinked : IsLinked (release l (some key)).0
  held_release-IsLinked = record {
    sound = λ zone d. rw zones-release (elim (dec_On zone d k) [
      | yes on ↦ rw ((domain_set-leave_zone l.zones k zone d).0 on) (
          All-map _ _ (λ x h. (ground (arith, holder-release l key x.key, h), h.0.1))
            (delete_lock k (domain_set zone d l.zones))
            (All-delete_lock _ k (domain_set zone d l.zones) (c.sound zone d)))
      | no off ↦ rw ((domain_set-leave_zone l.zones k zone d).1 off) (
          All-map _ _ (λ x h. (ground (arith, holder-release l key x.key, h, off), h.1))
            (domain_set zone d l.zones) (c.sound zone d))
    ]);
    blocked = λ zone d h.
        rw zones-release
          ((skips-leave_zone l.zones k zone d (c.blocked zone d)).1 (rw zones-release at h));
  }

pub release-IsLinked : (l : Locker) (key : Option String) → IsLinked l → IsLinked (release l key).0
unfolding release
release-IsLinked l none c = c
release-IsLinked l (some key) c = elim (Option-cases (holder key l)) [
  | inl e ↦ rw (e, release) c
  | inr (k, e) ↦ held_release-IsLinked l key k e c
]

pub lock-IsLinked :
    (l : Locker) (key zone : String) (domain : Option String) (owner : String) (limit ttl now : ℕ)
    → IsLinked l
    → IsLinked (lock l key zone domain owner limit ttl now).0
unfolding lock lock_exists
lock-IsLinked l key zone domain owner limit ttl now c = elim (Option-cases (holder key l)) [
  | inl e ↦ rw (e, lock) (install-IsLinked l _ c e)
  | inr (k, e) ↦ rw (e, lock) c
]

pub release_all-IsLinked :
    (keys : List String) (l : Locker) → IsLinked l → IsLinked (release_all keys l)
unfolding release_all
release_all-IsLinked [] l c = c
release_all-IsLinked (key ∷ keys) l c =
    release_all-IsLinked keys (release l (some key)).0 (release-IsLinked l (some key) c)

-- Another timing makes no difference.
pub retimed-IsLinked :
    (l : Locker) (t timer : Option ℕ)
    → IsLinked l
    → IsLinked (record l { next_expire_check = t; lock_check_timer = timer })
retimed-IsLinked l t timer c = record { sound = c.sound; blocked = c.blocked }
