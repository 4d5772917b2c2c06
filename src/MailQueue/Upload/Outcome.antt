-- ===== src/MailQueue/Upload/Outcome.antt =====
-- lib/mail-queue.js: what `store` answers, and when.
use zone_mta.Prelude.{
  String, ◌≡◌, refl, Bool, true, false, none, some, List, [], ◌∷◌, arith, if◌then◌else◌,
}
use zone_mta.Delivery.{Reply, failed, ok, Store}
use zone_mta.MailQueue.{remove_message}
use zone_mta.MailQueue.Upload.{
  UploadEvent, stream_fails, store_fails, finishes, fresh_upload, run_upload, store_message,
}

abbrev pub ends : List UploadEvent → Bool
ends [] = false
ends (finishes ∷ es) = true
ends (e ∷ es) = ends es

-- The first event decides; an error of the body is answered when the upload has ended.
abbrev pub outcome : String → List UploadEvent → List (Reply String)
outcome id [] = []
outcome id (finishes ∷ es) = ok id ∷ []
outcome id (store_fails e ∷ es) = failed e ∷ []
outcome id (stream_fails e ∷ es) = if ends es then failed e ∷ [] else []

module _ {ℓ} {S : Type ℓ} (db : Store S) (id : String) where
  -- The message is removed again just where the body failed and the upload ended after that.
  abbrev pub left : S → List UploadEvent → S
  left s (stream_fails e ∷ es) = if ends es then (remove_message db s id).0 else s
  left s es = s

  run_upload-returned :
      (s : S) (told : List (Reply String)) (es : List UploadEvent)
      → run_upload db id (record { store = s; returned = true; cleaning = none; answers = told }) es
        ≡ record { store = s; returned = true; cleaning = none; answers = told }
  unfolding run_upload
  run_upload-returned s told [] = refl
  run_upload-returned s told (stream_fails e ∷ es) = run_upload-returned s told es
  run_upload-returned s told (store_fails e ∷ es) = run_upload-returned s told es
  run_upload-returned s told (finishes ∷ es) = run_upload-returned s told es

  run_upload-cleaning :
      (s : S) (e : String) (es : List UploadEvent)
      → run_upload db id (record { store = s; returned = true; cleaning = some e; answers = [] }) es
        ≡ (if ends es
            then record {
              store = (remove_message db s id).0;
              returned = true;
              cleaning = none;
              answers = failed e ∷ [];
            }
            else record { store = s; returned = true; cleaning = some e; answers = [] })
  unfolding run_upload
  run_upload-cleaning s e [] = refl
  run_upload-cleaning s e (stream_fails x ∷ es) = run_upload-cleaning s e es
  run_upload-cleaning s e (store_fails x ∷ es) = run_upload-cleaning s e es
  run_upload-cleaning s e (finishes ∷ es) =
      run_upload-returned (remove_message db s id).0 (failed e ∷ []) es

  run_upload-outcome :
      (s : S) (es : List UploadEvent)
      → ((run_upload db id (fresh_upload s) es).answers ≡ outcome id es)
        × ((run_upload db id (fresh_upload s) es).store ≡ left s es)
  unfolding run_upload
  run_upload-outcome s [] = (refl, refl)
  run_upload-outcome s (finishes ∷ es) = ground (arith, run_upload-returned s (ok id ∷ []) es)
  run_upload-outcome s (store_fails e ∷ es) =
      ground (arith, run_upload-returned s (failed e ∷ []) es)
  run_upload-outcome s (stream_fails e ∷ es) = ground (arith, run_upload-cleaning s e es)

  -- Whatever happens to the two streams, `store` answers at most once. In a queue that is closing
  -- it answers an error and stores nothing. Else the answer is the id if the upload ends first, the
  -- error of the upload if that comes first; and if the body fails first, its error once the upload
  -- has ended, with the message removed. If the upload fails after the body, so that it never ends,
  -- there is no answer.
  pub store_message-outcome :
      (closing : Bool) (s : S) (es : List UploadEvent)
      → ((store_message db id closing s es).answers
          ≡ (if closing then failed "Server shutdown in progress" ∷ [] else outcome id es))
        × ((store_message db id closing s es).store ≡ (if closing then s else left s es))
  unfolding store_message
  store_message-outcome true s es = (refl, refl)
  store_message-outcome false s es = run_upload-outcome s es
