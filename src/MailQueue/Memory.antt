-- ===== src/MailQueue/Memory.antt =====
-- A database in memory for lib/mail-queue.js: rows in the order of insertion, and the files of
-- GridFS. Its calls do what is documented, so the hypotheses on the database can hold.
use zone_mta.Prelude.{
  ℕ, ◌+◌, ◌-◌, ◌<◌, ◌≤◌, String, ◌≡◌, ◌≢◌, refl, sym, ap, subst, ◌&&◌, ltb, Option-cases, Bool,
  true, false, Option, none, some, List, [], ◌∷◌, ◌++◌, arith, if◌then◌else◌, ◌==◌, Bool-cases, inl,
  inr, ◌||◌,
}
use zone_mta.Prelude.Maps
use zone_mta.Prelude.Sets.{has_text}
use zone_mta.Prelude.Maps.{Map}
use zone_mta.Delivery.{Delivery, Reply, ok, File, Store, IsDocumented, count, one}

pub record Memory : Type 0 where
  pub rows : List Delivery
  pub files : Map File
  pub suppressed : List String

unfoldable pub found :
    (Delivery → Bool) → (Delivery → Delivery) → List Delivery → Option (Delivery × Delivery)
found p f [] = none
found p f (d ∷ ds) = let rest = found p f ds in if p d then some (d, f d) else rest

unfoldable pub updated : (Delivery → Bool) → (Delivery → Delivery) → List Delivery → List Delivery
updated p f [] = []
updated p f (d ∷ ds) = let rest = updated p f ds in if p d then f d ∷ ds else d ∷ rest

unfoldable pub seen : (Delivery → Bool) → List Delivery → Option Delivery
seen p [] = none
seen p (d ∷ ds) = let rest = seen p ds in if p d then some d else rest

unfoldable pub without_one : (Delivery → Bool) → List Delivery → List Delivery
without_one p [] = []
without_one p (d ∷ ds) = let rest = without_one p ds in if p d then ds else d ∷ rest

unfoldable pub without : (Delivery → Bool) → List Delivery → List Delivery
without p [] = []
without p (d ∷ ds) = let rest = without p ds in if p d then rest else d ∷ rest

unfoldable pub without_file : ℕ → Map File → Map File
without_file n [] = []
without_file n ((name, file) ∷ m) =
    let rest = without_file n m in if file.ident == n then rest else (name, file) ∷ rest

unfoldable pub with_data : String → Map String → Map File → Map File
with_data id content m = elim (Maps.get id m) [
  | none ↦ m
  | some file ↦ Maps.set id (record file { meta = some content }) m
]

unfoldable pub picked : (Delivery → Bool) → List Delivery → List Delivery
picked p [] = []
picked p (d ∷ ds) = let rest = picked p ds in if p d then d ∷ rest else rest

unfoldable pub cursor : (Delivery → Bool) → List Delivery → List (Reply Delivery)
cursor p [] = []
cursor p (d ∷ ds) = let rest = cursor p ds in if p d then ok d ∷ rest else rest

unfoldable pub updated_all :
    (Delivery → Bool) → (Delivery → Delivery) → List Delivery → List Delivery
updated_all p f [] = []
updated_all p f (d ∷ ds) = (if p d then f d else d) ∷ updated_all p f ds

unfoldable pub oldest_of : List Delivery → Option ℕ
oldest_of [] = none
oldest_of (d ∷ ds) = elim (oldest_of ds) [
  | none ↦ some d.made
  | some t ↦ some (if ltb d.made t then d.made else t)
]

unfoldable pub young_files : ℕ → Map File → Map File
young_files limit [] = []
young_files limit ((name, file) ∷ m) =
    let rest = young_files limit m in if ltb file.made limit then rest else (name, file) ∷ rest

unfoldable pub memory : Store Memory
unfolding found updated seen without_one without without_file cursor updated_all oldest_of
    young_files with_data picked
memory = record {
  rows = λ m. m.rows;
  find_one_and_update = λ p f m. (record m { rows = updated p f m.rows }, ok (found p f m.rows));
  find_one = λ p m. ok (seen p m.rows);
  delete_one = λ p m. (record m { rows = without_one p m.rows }, ok tt);
  delete_many = λ p m. (record m { rows = without p m.rows }, ok tt);
  insert_many = λ ds m. (record m { rows = m.rows ++ ds }, ok tt);
  find_file = λ id m. ok (Maps.get id m.files);
  delete_file = λ n m. (record m { files = without_file n m.files }, ok tt);
  set_file_data = λ id content m. (record m { files = with_data id content m.files }, ok tt);
  find_suppressed =
      λ address domain m. ok (has_text address m.suppressed || has_text domain m.suppressed);
  find = λ p m. cursor p m.rows;
  find_sorted = λ p m. ok (picked p m.rows);
  update_many = λ p f m. (record m { rows = updated_all p f m.rows }, ok (count p m.rows));
  count_documents = λ p m. ok (count p m.rows);
  oldest = λ m. ok (oldest_of m.rows);
  delete_old_files = λ limit m. (record m { files = young_files limit m.files }, ok 0);
  delete_old_chunks = λ limit m. (m, ok 0);
}

found_lem :
    (p : Delivery → Bool) (f : Delivery → Delivery) (ds : List Delivery) (before after : Delivery)
    → found p f ds ≡ some (before, after)
    → (p before ≡ true)
      × (after ≡ f before)
      × ((r : Delivery → Bool) → one (r before) ≤ count r ds)
      × ((r : Delivery → Bool)
          → count r (updated p f ds) + one (r before) ≡ count r ds + one (r after))
unfolding found updated
found_lem p f [] before after h = ground (arith, h)
found_lem p f (d ∷ ds) before after h = elim (Bool-cases (p d)) [
  | inl e ↦ ground (arith, h, e)
  | inr e ↦
      let (met, set, old, change) = found_lem p f ds before after (rw e at h) in
      (
        met,
        set,
        λ r. (let o = old r in omega (arith, o)),
        λ r. rw e (let c = change r in omega (arith, c)),
      )
]

not_found_lem :
    (p : Delivery → Bool) (f : Delivery → Delivery) (ds : List Delivery)
    → found p f ds ≡ none
    → (count p ds ≡ 0) × (updated p f ds ≡ ds)
unfolding found updated
not_found_lem p f [] h = ground (arith, h)
not_found_lem p f (d ∷ ds) h = ground (arith, h, not_found_lem p f ds)

seen_none_lem : (p : Delivery → Bool) (ds : List Delivery) → seen p ds ≡ none → count p ds ≡ 0
unfolding seen
seen_none_lem p [] h = refl
seen_none_lem p (d ∷ ds) h = ground (arith, h, seen_none_lem p ds)

seen_some_lem :
    (p : Delivery → Bool) (ds : List Delivery) (d : Delivery)
    → seen p ds ≡ some d
    → (p d ≡ true) × (0 < count p ds)
unfolding seen
seen_some_lem p [] d h = ground (arith, h)
seen_some_lem p (x ∷ ds) d h = ground (arith, h, seen_some_lem p ds d)

without_one_lem :
    (p r : Delivery → Bool) (ds : List Delivery) → count r (without_one p ds) ≤ count r ds
unfolding without_one
without_one_lem p r [] = ground arith
without_one_lem p r (d ∷ ds) = ground (arith, without_one_lem p r ds)

without_lem : (p r : Delivery → Bool) (ds : List Delivery) → count r (without p ds) ≤ count r ds
unfolding without
without_lem p r [] = ground arith
without_lem p r (d ∷ ds) = ground (arith, without_lem p r ds)

without_one_others :
    (p r : Delivery → Bool) (ds : List Delivery)
    → ((d : Delivery) → p d ≡ true → r d ≡ false)
    → count r (without_one p ds) ≡ count r ds
unfolding without_one
without_one_others p r [] h = refl
without_one_others p r (d ∷ ds) h = ground (arith, without_one_others p r ds h, h d)

without_one_match :
    (p : Delivery → Bool) (ds : List Delivery) → count p (without_one p ds) ≡ count p ds - 1
unfolding without_one
without_one_match p [] = omega arith
without_one_match p (d ∷ ds) = ground (arith, without_one_match p ds)

updated_all_lem :
    (p : Delivery → Bool) (f : Delivery → Delivery) (r : Delivery → Bool) (ds : List Delivery)
    → count r (updated_all p f ds) ≡ count (λ d. r (if p d then f d else d)) ds
unfolding updated_all
updated_all_lem p f r [] = refl
updated_all_lem p f r (d ∷ ds) = omega (arith, updated_all_lem p f r ds)

oldest_none_lem : (r : Delivery → Bool) (ds : List Delivery) → oldest_of ds ≡ none → count r ds ≡ 0
unfolding oldest_of
oldest_none_lem r [] h = refl
oldest_none_lem r (d ∷ ds) h = ground (arith, h)

oldest_some_lem :
    (ds : List Delivery) (t u : ℕ)
    → oldest_of ds ≡ some t
    → u ≤ t
    → count (λ d. ltb d.made u) ds ≡ 0
unfolding oldest_of
oldest_some_lem [] t u h k = refl
oldest_some_lem (d ∷ ds) t u h k = elim (Option-cases (oldest_of ds)) [
  | inl e ↦ ground (arith, h, e, oldest_none_lem (λ x. ltb x.made u) ds e)
  | inr (v, e) ↦ ground (arith, h, e, oldest_some_lem ds v u e)
]

young_files_lem :
    (limit : ℕ) (m : Map File) (id : String) (file : File)
    → Maps.get id m ≡ some file
    → limit ≤ file.made
    → Maps.get id (young_files limit m) ≡ some file
unfolding young_files Maps.get
young_files_lem limit [] id file h k = h
young_files_lem limit ((name, f) ∷ m) id file h k =
    ground (arith, h, young_files_lem limit m id file)

with_data_others :
    (id id' : String) (content : Map String) (m : Map File)
    → id ≢ id'
    → Maps.get id' (with_data id content m) ≡ Maps.get id' m
unfolding with_data
with_data_others id id' content m h = elim (Option-cases (Maps.get id m)) [
  | inl e ↦ rw (with_data, e) refl
  | inr (v, e) ↦
      rw (with_data, e)
        (ground (arith, h, Maps.get-set id id' (record v { meta = some content }) m))
]

with_data_lem :
    (id : String) (content : Map String) (m : Map File) (file : File)
    → Maps.get id m ≡ some file
    → Maps.get id (with_data id content m) ≡ some (record file { meta = some content })
unfolding with_data
with_data_lem id content m file e =
    rw (with_data, e) (ground (arith, Maps.get-set id id (record file { meta = some content }) m))

picked_lem :
    (p r : Delivery → Bool) (ds : List Delivery)
    → count r (picked p ds) ≡ count (λ d. p d && r d) ds
unfolding picked
picked_lem p r [] = refl
picked_lem p r (d ∷ ds) = ground (arith, picked_lem p r ds)

count-append :
    (r : Delivery → Bool) (xs ys : List Delivery) → count r (xs ++ ys) ≡ count r ys + count r xs
count-append r [] ys = omega arith
count-append r (x ∷ xs) ys = ground (arith, count-append r xs ys)

ok_injective : {A : Type 0} (a b : A) → ok a ≡ ok b → a ≡ b
ok_injective a b h = ground (arith, h)

pub memory-IsDocumented : IsDocumented memory
unfolding memory
memory-IsDocumented = record {
  found = λ p f s before after h. found_lem p f s.rows before after (ok_injective _ _ h);
  not_found = λ p f s h. not_found_lem p f s.rows (ok_injective _ _ h);
  seen_none = λ p s h. seen_none_lem p s.rows (ok_injective _ _ h);
  seen_some = λ p s d h. seen_some_lem p s.rows d (ok_injective _ _ h);
  inserted = λ ds r s h. count-append r s.rows ds;
  deleted_one = λ p r s. without_one_lem p r s.rows;
  deleted_many = λ p r s. without_lem p r s.rows;
  deleted_file = λ n s. refl;
  deleted_others = λ p r s h. without_one_others p r s.rows h;
  deleted_match = λ p s h. without_one_match p s.rows;
  found_sorted = λ p r s ds h.
      subst (λ x. count r x ≡ count (λ d. p d && r d) s.rows) (ok_injective _ _ h)
        (picked_lem p r s.rows);
  updated_many = λ p f r s n h. updated_all_lem p f r s.rows;
  counted = λ p s n h. sym (ok_injective _ _ h);
  oldest_none = λ s h. oldest_none_lem (λ d. true) s.rows (ok_injective _ _ h);
  oldest_some = λ s t h. oldest_some_lem s.rows t t (ok_injective _ _ h) (omega arith);
  kept_file =
      λ limit s id file h k. ap ok (young_files_lem limit s.files id file (ok_injective _ _ h) k);
  kept_by_chunks = λ limit s id. refl;
  data_rows = λ id content s. refl;
  kept_by_data = λ id id' content s h. ap ok (with_data_others id id' content s.files h);
  has_data =
      λ id content s file h k. ap ok (with_data_lem id content s.files file (ok_injective _ _ h));
}
