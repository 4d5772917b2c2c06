-- ===== src/Delivery.antt =====
-- lib/mail-queue.js: the rows of the queue collection, and the database that keeps them.
--
-- MongoDB is not part of this code: `Store` is what mail-queue.js calls of it, over any type of states,
-- and `IsDocumented` is what its documentation says of a call that succeeds or fails. A query is a test of
-- a row, an update is a function of a row.
use zone_mta.Prelude.{
  if◌then◌else◌, ◌&&◌, ltb, ℕ, ◌+◌, ◌-◌, ◌≤◌, ◌<◌, String, ◌≡◌, ◌≢◌, ◌⊎◌, inl, inr, refl, Bool,
  true, false, Option, none, some, List, [], ◌∷◌,
}
use zone_mta.Prelude.Maps.{Map}
use Prim.Native.String.{◌++◌}

-- `_deferred`; `log` stands for the object of that name.
pub record Deferred : Type 0 where
  pub first : Option ℕ
  pub count : ℕ
  pub last : ℕ
  pub next : ℕ
  pub response : Option String
  pub log : Option String

-- A delivery. `made` is the time, in seconds, of its `_id`, which the driver gives it; `lock` is
-- `_lock`, and `fields` are the keys that come from the metadata of the message; both are set in
-- the object only, not in the row. In the code a key of the metadata also takes the place of a key of
-- the row that has its name; no such key is taken to be there with another value.
pub record Delivery : Type 0 where
  pub made : ℕ
  pub id : String
  pub seq : String
  pub domain : String
  pub sending_zone : String
  pub recipient : String
  pub locked : Bool
  pub lock_time : ℕ
  pub assigned : String
  pub queued : ℕ
  pub created : ℕ
  pub session_id : Option String
  pub deferred : Option Deferred
  pub lock : Option String
  pub fields : Map String

-- `'lock ' + id + ' ' + seq` and `'empty:' + zone`
abbrev pub lock_key : String → String → String
lock_key id seq = "lock " ++ id ++ " " ++ seq

abbrev pub empty_key : String → String
empty_key zone = "empty:" ++ zone

-- What a callback gets: an error, or a result.
pub data Reply (A : Type 0) : Type 0 where
  failed : String → Reply A
  ok : A → Reply A

pub Reply-cases :
    {A : Type 0} (r : Reply A) → ((e : String) × (r ≡ failed e)) ⊎ ((a : A) × (r ≡ ok a))
Reply-cases (failed e) = inl (e, refl)
Reply-cases (ok a) = inr (a, refl)

-- A file of GridFS: its `_id`, the time of that in seconds, and `metadata.data` where it is there.
pub record File : Type 0 where
  pub ident : ℕ
  pub made : ℕ
  pub meta : Option (Map String)

-- `find_one_and_update` answers the row before and after. `find_suppressed` is the look-up of an
-- address or a domain in the suppression list. `find` is a cursor, by what its `next` answers
-- before it answers nothing; `find_sorted` is `toArray` of the rows by `seq`; `oldest` is the time
-- of the first row by `_id`. The two last calls delete what is older, by the time of `_id`, than a
-- number of seconds.
pub record Store {ℓ} (S : Type ℓ) : Type ℓ where
  pub rows : S → List Delivery
  pub find_one_and_update :
      (Delivery → Bool) → (Delivery → Delivery) → S → S × Reply (Option (Delivery × Delivery))
  pub find_one : (Delivery → Bool) → S → Reply (Option Delivery)
  pub delete_one : (Delivery → Bool) → S → S × Reply Unit
  pub delete_many : (Delivery → Bool) → S → S × Reply Unit
  pub insert_many : List Delivery → S → S × Reply Unit
  pub find_file : String → S → Reply (Option File)
  pub delete_file : ℕ → S → S × Reply Unit
  pub set_file_data : String → Map String → S → S × Reply Unit
  pub find_suppressed : String → String → S → Reply Bool
  pub find : (Delivery → Bool) → S → List (Reply Delivery)
  pub find_sorted : (Delivery → Bool) → S → Reply (List Delivery)
  pub update_many : (Delivery → Bool) → (Delivery → Delivery) → S → S × Reply ℕ
  pub count_documents : (Delivery → Bool) → S → Reply ℕ
  pub oldest : S → Reply (Option ℕ)
  pub delete_old_files : ℕ → S → S × Reply ℕ
  pub delete_old_chunks : ℕ → S → S × Reply ℕ

abbrev pub one : Bool → ℕ
one true = 1
one false = 0

-- How many rows meet a test.
abbrev pub count : (Delivery → Bool) → List Delivery → ℕ
count r [] = 0
count r (d ∷ ds) = one (r d) + count r ds

-- The documented behaviour of the calls, by how many rows meet any test `r`.
pub record IsDocumented {ℓ} {S : Type ℓ} (db : Store S) : Type ℓ where
  pub found :
      (p : Delivery → Bool) (f : Delivery → Delivery) (s : S) (before after : Delivery)
      → (db.find_one_and_update p f s).1 ≡ ok (some (before, after))
      → (p before ≡ true)
        × (after ≡ f before)
        × ((r : Delivery → Bool) → one (r before) ≤ count r (db.rows s))
        × ((r : Delivery → Bool)
            → count r (db.rows (db.find_one_and_update p f s).0) + one (r before)
              ≡ count r (db.rows s) + one (r after))
  pub not_found :
      (p : Delivery → Bool) (f : Delivery → Delivery) (s : S)
      → (db.find_one_and_update p f s).1 ≡ ok none
      → (count p (db.rows s) ≡ 0) × (db.rows (db.find_one_and_update p f s).0 ≡ db.rows s)
  pub seen_none :
      (p : Delivery → Bool) (s : S) → db.find_one p s ≡ ok none → count p (db.rows s) ≡ 0
  pub seen_some :
      (p : Delivery → Bool) (s : S) (d : Delivery)
      → db.find_one p s ≡ ok (some d)
      → (p d ≡ true) × (0 < count p (db.rows s))
  pub inserted :
      (ds : List Delivery) (r : Delivery → Bool) (s : S)
      → (db.insert_many ds s).1 ≡ ok tt
      → count r (db.rows (db.insert_many ds s).0) ≡ count r ds + count r (db.rows s)
  pub deleted_one :
      (p r : Delivery → Bool) (s : S)
      → count r (db.rows (db.delete_one p s).0) ≤ count r (db.rows s)
  pub deleted_many :
      (p r : Delivery → Bool) (s : S)
      → count r (db.rows (db.delete_many p s).0) ≤ count r (db.rows s)
  pub deleted_file : (n : ℕ) (s : S) → db.rows (db.delete_file n s).0 ≡ db.rows s
  pub deleted_others :
      (p r : Delivery → Bool) (s : S)
      → ((d : Delivery) → p d ≡ true → r d ≡ false)
      → count r (db.rows (db.delete_one p s).0) ≡ count r (db.rows s)
  pub deleted_match :
      (p : Delivery → Bool) (s : S)
      → (db.delete_one p s).1 ≡ ok tt
      → count p (db.rows (db.delete_one p s).0) ≡ count p (db.rows s) - 1
  pub found_sorted :
      (p r : Delivery → Bool) (s : S) (ds : List Delivery)
      → db.find_sorted p s ≡ ok ds
      → count r ds ≡ count (λ d. p d && r d) (db.rows s)
  pub updated_many :
      (p : Delivery → Bool) (f : Delivery → Delivery) (r : Delivery → Bool) (s : S) (n : ℕ)
      → (db.update_many p f s).1 ≡ ok n
      → count r (db.rows (db.update_many p f s).0)
        ≡ count (λ d. r (if p d then f d else d)) (db.rows s)
  pub counted :
      (p : Delivery → Bool) (s : S) (n : ℕ)
      → db.count_documents p s ≡ ok n
      → n ≡ count p (db.rows s)
  pub oldest_none : (s : S) → db.oldest s ≡ ok none → count (λ d. true) (db.rows s) ≡ 0
  pub oldest_some :
      (s : S) (t : ℕ) → db.oldest s ≡ ok (some t) → count (λ d. ltb d.made t) (db.rows s) ≡ 0
  pub kept_file :
      (limit : ℕ) (s : S) (id : String) (file : File)
      → db.find_file id s ≡ ok (some file)
      → limit ≤ file.made
      → db.find_file id (db.delete_old_files limit s).0 ≡ ok (some file)
  pub kept_by_chunks :
      (limit : ℕ) (s : S) (id : String)
      → db.find_file id (db.delete_old_chunks limit s).0 ≡ db.find_file id s
  pub kept_by_data :
      (id id' : String) (content : Map String) (s : S)
      → id ≢ id'
      → db.find_file id' (db.set_file_data id content s).0 ≡ db.find_file id' s
  pub data_rows :
      (id : String) (content : Map String) (s : S)
      → db.rows (db.set_file_data id content s).0 ≡ db.rows s
  pub has_data :
      (id : String) (content : Map String) (s : S) (file : File)
      → db.find_file id s ≡ ok (some file)
      → (db.set_file_data id content s).1 ≡ ok tt
      → db.find_file id (db.set_file_data id content s).0
        ≡ ok (some (record file { meta = some content }))
