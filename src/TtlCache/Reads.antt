-- ===== src/TtlCache/Reads.antt =====
-- lib/ttl-cache.js: what `get` answers after `set` and `remove`.
use zone_mta.Prelude.{
  ℕ, ◌+◌, ◌≡◌, ite, if◌then◌else◌, Option, none, some, String, arith, ltb, text_discrete,
  Option-cases, inl, inr, ◌<◌,
}
use zone_mta.Prelude.Maps
use zone_mta.Prelude.Maps.{get-set, get-delete}
use zone_mta.TtlCache.{Cache, Entry, remove, set}
use zone_mta.TtlCache

module _ {ℓ} {V : Type ℓ} where
  -- The answer of `get`, from the entry under the key.
  abbrev answer : ℕ → Option (Entry V) → Option V
  answer now none = none
  answer now (some e) = if ltb e.expires now then none else some e.value

  get-answer :
      (c : Cache V) (key : String) (now : ℕ)
      → (TtlCache.get c key now).1 ≡ answer now (Maps.get key c.data_map)
  unfolding TtlCache.get
  get-answer c key now = elim (Option-cases (Maps.get key c.data_map)) [
    | inl e ↦ rw (e, TtlCache.get)
    | inr (x, e) ↦ rw (e, TtlCache.get) (ground arith)
  ]

  data_map-remove :
      (c : Cache V) (key j : String)
      → Maps.get j (remove c key).0.data_map
        ≡ ite (text_discrete key j) none (Maps.get j c.data_map)
  unfolding remove
  data_map-remove c key j = elim (Option-cases (Maps.get key c.data_map)) [
    | inl e ↦ rw (e, remove) (ground arith)
    | inr (x, e) ↦ rw (e, remove) (get-delete key j c.data_map)
  ]

  -- After `set` of a value with a time to live above zero, `get` at a time up to the expiry time
  -- answers the value under that key, later it answers nothing, and every other key answers as before.
  get-set_value :
      (c : Cache V) (key j : String) (v : V) (ttl : ℕ) (expire_cb : Option ℕ) (now later : ℕ)
      → 0 < ttl
      → (TtlCache.get (set c key (some v) (some ttl) expire_cb now).0 j later).1
        ≡ ite
            (text_discrete key j)
            (if ltb (now + ttl) later then none else some v)
            (TtlCache.get c j later).1
  unfolding set
  get-set_value c key j v ttl expire_cb now later h = ground (
    arith,
    get-answer (set c key (some v) (some ttl) expire_cb now).0 j later,
    get-answer c j later,
    get-set key j
        (record {
          ident = c.next_ident;
          key = key;
          value = v;
          ttl = ttl;
          created = now;
          expires = now + ttl;
          expire_cb = expire_cb;
        })
        c.data_map,
  )

  -- After `remove`, and after `set` of null, `get` answers nothing for the key and every other key
  -- answers as before.
  pub get-remove :
      (c : Cache V) (key j : String) (ttl expire_cb : Option ℕ) (now later : ℕ)
      → ((TtlCache.get (remove c key).0 j later).1
          ≡ ite (text_discrete key j) none (TtlCache.get c j later).1)
        × ((TtlCache.get (set c key none ttl expire_cb now).0 j later).1
            ≡ ite (text_discrete key j) none (TtlCache.get c j later).1)
  unfolding set
  get-remove c key j ttl expire_cb now later = let fact = get_remove c key j later in (fact, fact)
    where
      get_remove :
          (c : Cache V) (key j : String) (later : ℕ)
          → (TtlCache.get (remove c key).0 j later).1
            ≡ ite (text_discrete key j) none (TtlCache.get c j later).1
      get_remove c key j later = ground (
        arith,
        get-answer (remove c key).0 j later,
        get-answer c j later,
        data_map-remove c key j,
      )
