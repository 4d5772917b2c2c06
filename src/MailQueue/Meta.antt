-- ===== src/MailQueue/Meta.antt =====
-- lib/mail-queue.js: the metadata of a message, written by `setMeta` and read by `getMeta`.
use zone_mta.Prelude.{String, ◌≡◌, refl, ite, some, arith, text_discrete}
use zone_mta.Prelude.Maps.{Map}
use zone_mta.Delivery.{ok, File, Store, IsDocumented}
use zone_mta.MailQueue.{Queue, get_meta, set_meta}

module _ {ℓ} {S : Type ℓ} (db : Store S) where
  get_meta_file :
      (s s' : S) (id : String)
      → db.find_file id s' ≡ db.find_file id s
      → get_meta db id s' ≡ get_meta db id s
  unfolding get_meta
  get_meta_file s s' id e = rw (get_meta, e) refl

  get_meta_data :
      (s : S) (id : String) (file : File) (content : Map String)
      → db.find_file id s ≡ ok (some (record file { meta = some content }))
      → get_meta db id s ≡ ok (some content)
  unfolding get_meta
  get_meta_data s id file content e = rw (get_meta, e) refl

  -- With a documented database: where the message is stored and `setMeta` ends well, `getMeta`
  -- answers what was set, and for every other message what it answered before.
  get_meta-set_meta :
      IsDocumented db
      → (q : Queue S) (id j : String) (content : Map String) (file : File)
      → db.find_file id q.store ≡ ok (some file)
      → (set_meta db q id content).1 ≡ ok tt
      → get_meta db j (set_meta db q id content).0.store
        ≡ ite (text_discrete id j) (ok (some content)) (get_meta db j q.store)
  unfolding set_meta
  get_meta-set_meta documented q id j content file e f = elim (text_discrete id j) [
    | yes p ↦ rw (← p) (
        ground (
          arith,
          get_meta_data (db.set_file_data id content q.store).0 id file content
              (documented.has_data id content q.store file e f),
        ))
    | no p ↦ ground (
      arith,
      p,
      get_meta_file q.store (db.set_file_data id content q.store).0 j
          (documented.kept_by_data id j content q.store p),
    )
  ]
