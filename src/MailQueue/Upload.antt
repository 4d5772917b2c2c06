-- ===== src/MailQueue/Upload.antt =====
-- lib/mail-queue.js and lib/remote-queue.js: `store` writes the body of a message into GridFS.
--
-- `stream` is the body, `store` the upload stream: an error of either and the end of the upload are
-- events. A stream tells of one error; what a further one does is left out.
pub mod Outcome
use zone_mta.Prelude.{
  String, Bool, true, false, Option, none, some, List, [], ◌∷◌, ◌++◌, if◌then◌else◌,
}
use zone_mta.Delivery.{Reply, failed, ok, Store}
use zone_mta.MailQueue.{remove_message}

pub data UploadEvent : Type 0 where
  stream_fails store_fails : String → UploadEvent
  finishes : UploadEvent

-- `cleaning` is the error of the stream while the listener that removes the message waits for the
-- end of the upload. `answers` are the calls of the callback.
pub record Upload {ℓ} (S : Type ℓ) : Type ℓ where
  pub store : S
  pub returned : Bool
  pub cleaning : Option String
  pub answers : List (Reply String)

abbrev pub fresh_upload {ℓ} : {S : Type ℓ} → S → Upload S
fresh_upload s = record { store = s; returned = false; cleaning = none; answers = [] }

module _ {ℓ} {S : Type ℓ} (db : Store S) (id : String) where
  abbrev pub answer : Upload S → Reply String → Upload S
  answer u reply = record u { answers = u.answers ++ reply ∷ [] }

  -- The listener of `finish` that `stream.once('error')` adds.
  unfoldable pub clean_up : Upload S → Upload S
  clean_up u = elim u.cleaning [
    | none ↦ u
    | some e ↦
        answer (record u { store = (remove_message db u.store id).0; cleaning = none }) (failed e)
  ]

  unfoldable pub on_event : Upload S → UploadEvent → Upload S
  unfolding clean_up
  on_event u (stream_fails e) =
      if u.returned then u else record u { returned = true; cleaning = some e }
  on_event u (store_fails e) =
      if u.returned then u else answer (record u { returned = true }) (failed e)
  on_event u finishes =
      clean_up (if u.returned then u else answer (record u { returned = true }) (ok id))

  unfoldable pub run_upload : Upload S → List UploadEvent → Upload S
  unfolding on_event
  run_upload u [] = u
  run_upload u (e ∷ es) = run_upload (on_event u e) es

  -- `store`, with what happens to the streams.
  unfoldable pub store_message : Bool → S → List UploadEvent → Upload S
  unfolding run_upload
  store_message closing s es =
      if closing
      then answer (fresh_upload s) (failed "Server shutdown in progress")
      else run_upload (fresh_upload s) es
