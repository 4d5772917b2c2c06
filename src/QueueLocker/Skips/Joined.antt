-- ===== src/QueueLocker/Skips/Joined.antt =====
-- lib/queue-locker.js: every held lock on a domain counts in the set of the domain, and counts once.
use zone_mta.Prelude.{
  ℕ, String, ◌≡◌, refl, sym, ◌≢◌, true, Option, none, some, List, [], ◌∷◌, ◌++◌, arith, All,
  All-map, Option-cases, inl, inr,
}
use zone_mta.Prelude.Maps
use zone_mta.QueueLocker.{
  Locker, Lock, init, delete_lock, install, lock, lock_exists, release, release_all,
  list_skip_domains,
}
use zone_mta.QueueLocker.Held.{holder, holder-install, holder-release}
use zone_mta.QueueLocker.Owners.{
  IsConsistent, has_key, has_key-append, has_key-delete_lock, All-delete_lock,
}
use zone_mta.QueueLocker.Owners.Keeps.{release-IsConsistent}
use zone_mta.QueueLocker.Skips.{domain_set}
use zone_mta.QueueLocker.Skips.Linked.{
  IsLinked, dec_On, domain_set-install, zones-release, release-IsLinked,
}
use zone_mta.QueueLocker.Skips.Zones.{domain_set-leave_zone}
use zone_mta.QueueLocker.Skips.Cached.{zone_data-list_skip_domains, locks-list_skip_domains}

-- No lock object stands twice in the list.
abbrev pub IsSingle : List Lock → Type 0
IsSingle [] = Unit
IsSingle (x ∷ xs) = All (λ y. y.ident ≢ x.ident) xs × IsSingle xs

-- A held lock on a domain is in the set of the domain, and no lock is in a set twice.
pub record IsJoined (l : Locker) : Type 0 where
  pub complete :
      (key d : String) (x : Lock)
      → holder key l ≡ some x
      → x.domain ≡ some d
      → has_key key (domain_set x.zone d l.zones) ≡ true
  pub single : (zone d : String) → IsSingle (domain_set zone d l.zones)

IsSingle-append :
    (xs : List Lock) (k : Lock)
    → IsSingle xs
    → All (λ y. y.ident ≢ k.ident) xs
    → IsSingle (xs ++ k ∷ [])
IsSingle-append [] k s n = (tt, tt)
IsSingle-append (x ∷ xs) k s n = (others x xs s.0 (λ e. n.0 (sym e)), IsSingle-append xs k s.1 n.1)
  where
    others :
        (x : Lock) (ys : List Lock)
        → All (λ y. y.ident ≢ x.ident) ys
        → k.ident ≢ x.ident
        → All (λ y. y.ident ≢ x.ident) (ys ++ k ∷ [])
    others x [] a b = (b, tt)
    others x (y ∷ ys) a b = (a.0, others x ys a.1 b)

IsSingle-delete_lock : (k : Lock) (xs : List Lock) → IsSingle xs → IsSingle (delete_lock k xs)
unfolding delete_lock
IsSingle-delete_lock k [] s = tt
IsSingle-delete_lock k (x ∷ xs) s =
    let rest = IsSingle-delete_lock k xs s.1 in
    let others =
      All-map _ _ (λ y h. h.0) (delete_lock k xs)
        (All-delete_lock (λ y. y.ident ≢ x.ident) k xs s.0) in
    ground (arith, rest, others)

pub init-IsJoined : IsJoined init
unfolding init Maps.get
init-IsJoined = record { complete = λ key d x h e. cc; single = λ zone d. tt }

module _ (l : Locker) (k : Lock) (new : k.ident ≡ l.next_ident) (free : holder k.key l ≡ none)
    (c : IsConsistent l) (linked : IsLinked l) (j : IsJoined l) where
  complete-install :
      (key d : String) (x : Lock)
      → holder key (install l k) ≡ some x
      → x.domain ≡ some d
      → has_key key (domain_set x.zone d (install l k).zones) ≡ true
  unfolding has_key
  complete-install key d x h e = elim (dec_On x.zone d k) [
    | yes on ↦ rw ((domain_set-install l k x.zone d).0 on) (
        ground (
          arith,
          holder-install l k key,
          has_key-append key (domain_set x.zone d l.zones) (k ∷ []),
          j.complete key d x,
          h,
          e,
        ))
    | no off ↦
        rw ((domain_set-install l k x.zone d).1 off)
          (ground (arith, holder-install l k key, j.complete key d x, off, h, e))
  ]

  IsSingle-install : (zone d : String) → IsSingle (domain_set zone d (install l k).zones)
  IsSingle-install zone d = elim (dec_On zone d k) [
    | yes on ↦ rw ((domain_set-install l k zone d).0 on) (
        IsSingle-append (domain_set zone d l.zones) k (j.single zone d)
          (All-map _ _ (λ x h. older x h.0) (domain_set zone d l.zones) (linked.sound zone d)))
    | no off ↦ rw ((domain_set-install l k zone d).1 off) (j.single zone d)
  ]
    where
      older : (x : Lock) → holder x.key l ≡ some x → x.ident ≢ k.ident
      older x h e = let (same, less) = c.keyed x.key x h in omega (arith, less, new, e)

  install-IsJoined : IsJoined (install l k)
  install-IsJoined = record { complete = complete-install; single = IsSingle-install }

module _ (l : Locker) (key : String) (k : Lock) (held : holder key l ≡ some k) (c : IsConsistent l)
    (linked : IsLinked l) (j : IsJoined l) where
  -- Another lock stays in the set that the lock leaves.
  has_key-left :
      (i d : String) (x : Lock)
      → holder i l ≡ some x
      → x.domain ≡ some d
      → key ≢ i
      → has_key i (delete_lock k (domain_set x.zone d l.zones)) ≡ true
  has_key-left i d x h e n =
      rw
        (has_key-delete_lock i k (domain_set x.zone d l.zones) (
          All-map _ _ (λ y hy e e'. n (c.unique key i k y held (ground (arith, hy)) (sym e')))
            (domain_set x.zone d l.zones) (linked.sound x.zone d)))
        (j.complete i d x h e)

  complete-release :
      (i d : String) (x : Lock)
      → holder i (release l (some key)).0 ≡ some x
      → x.domain ≡ some d
      → has_key i (domain_set x.zone d (release l (some key)).0.zones) ≡ true
  complete-release i d x h e = rw (zones-release l key k held linked) (elim (dec_On x.zone d k) [
    | yes on ↦
        rw ((domain_set-leave_zone l.zones k x.zone d).0 on)
          (ground (arith, holder-release l key i, has_key-left i d x, h, e))
    | no off ↦
        rw ((domain_set-leave_zone l.zones k x.zone d).1 off)
          (ground (arith, holder-release l key i, j.complete i d x, h, e))
  ])

  held_release-IsJoined : IsJoined (release l (some key)).0
  held_release-IsJoined = record {
    complete = complete-release;
    single = λ zone d. rw (zones-release l key k held linked) (elim (dec_On zone d k) [
      | yes on ↦
          rw ((domain_set-leave_zone l.zones k zone d).0 on)
            (IsSingle-delete_lock k (domain_set zone d l.zones) (j.single zone d))
      | no off ↦ rw ((domain_set-leave_zone l.zones k zone d).1 off) (j.single zone d)
    ]);
  }

pub release-IsJoined :
    (l : Locker) (key : Option String)
    → IsConsistent l
    → IsLinked l
    → IsJoined l
    → IsJoined (release l key).0
unfolding release
release-IsJoined l none c linked j = j
release-IsJoined l (some key) c linked j = elim (Option-cases (holder key l)) [
  | inl e ↦ rw (e, release) j
  | inr (k, e) ↦ held_release-IsJoined l key k e c linked j
]

pub lock-IsJoined :
    (l : Locker) (key zone : String) (domain : Option String) (owner : String) (limit ttl now : ℕ)
    → IsConsistent l
    → IsLinked l
    → IsJoined l
    → IsJoined (lock l key zone domain owner limit ttl now).0
unfolding lock lock_exists
lock-IsJoined l key zone domain owner limit ttl now c linked j =
    elim (Option-cases (holder key l)) [
      | inl e ↦ rw (e, lock) (install-IsJoined l _ refl e c linked j)
      | inr (k, e) ↦ rw (e, lock) j
    ]

pub release_all-IsJoined :
    (keys : List String) (l : Locker)
    → IsConsistent l
    → IsLinked l
    → IsJoined l
    → IsJoined (release_all keys l)
unfolding release_all
release_all-IsJoined [] l c linked j = j
release_all-IsJoined (key ∷ keys) l c linked j =
    release_all-IsJoined keys (release l (some key)).0 (release-IsConsistent l (some key) c)
      (release-IsLinked l (some key) linked) (release-IsJoined l (some key) c linked j)

-- Another timing makes no difference.
pub retimed-IsJoined :
    (l : Locker) (t timer : Option ℕ)
    → IsJoined l
    → IsJoined (record l { next_expire_check = t; lock_check_timer = timer })
retimed-IsJoined l t timer j = record { complete = j.complete; single = j.single }

pub list_skip_domains-IsJoined :
    (l : Locker) (zone : String) → IsJoined l → IsJoined (list_skip_domains l zone).0
list_skip_domains-IsJoined l zone j = record {
  complete = λ key d x h e.
      rw ((zone_data-list_skip_domains l zone x.zone).0)
        (j.complete key d x (rw (locks-list_skip_domains l zone) at h) e);
  single = λ i d. rw ((zone_data-list_skip_domains l zone i).0) (j.single i d);
}
