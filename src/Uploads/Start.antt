-- ===== src/Uploads/Start.antt =====
-- From the received upload to its ingestion, in upload_document of backend/app/api/upload_routes.py.
use omni_ai_v.Prelude.{
  ℕ, String, Bool, true, false, Option, none, some, [], ◌∷◌, ◌++◌, if◌then◌else◌, ◌==◌,
  nat_comparable, text_comparable, is_empty,
}
use omni_ai_v.Rows.{find_first}
use omni_ai_v.Ingestion.{IndexedDocument, to_stage, update_indexing_progress}
use omni_ai_v.Ingestion.Worker.{Store, ingest_document_record}
use omni_ai_v.Ingestion.Queue.{Broker, Dispatched, dispatched, raised, dispatch_document_ingestion}
use omni_ai_v.Ingestion.Queue
use omni_ai_v.Uploads.Validation.{UploadFile, Result, ok, http_exception}
use omni_ai_v.Uploads.{
  Env, Params, State, ingest_queue_enabled, receive, should_use_background_tasks,
}

-- The answer to an upload that was received: a document id with whether it is still being indexed, or
-- an HTTPException.
pub record Uploaded : Type 0 where
  pub document_id : ℕ
  pub indexing : Bool
  pub chunks_created : ℕ

abbrev pub accepted : ℕ → Uploaded
accepted id = record { document_id = id; indexing = true; chunks_created = 0 }

-- With what the queue did; its exception is not caught.
abbrev pub to_queue : ℕ → State → Dispatched × Queue.State → Result Uploaded × State
to_queue id s (dispatched route queued, after) = (
  ok (accepted id),
  record s { jobs = after; store = record s.store { documents = after.documents } },
)
to_queue id s (raised e, after) = (
  http_exception 500 e,
  record s { jobs = after; store = record s.store { documents = after.documents } },
)

-- After the synchronous ingestion: the exception that it raised, or the row as it is now.
abbrev settled : ℕ → State → Option IndexedDocument → Result Uploaded
settled id s none =
    http_exception 500
      "Document upload failed during processing. Check backend logs for [INGEST_*] lines."
settled id s (some d) =
    if d.indexing_stage == "failed"
    then http_exception 400 (failure d.indexing_error)
    else ok (record { document_id = id; indexing = false; chunks_created = d.chunks_created })
  where
    failure : Option String → String
    failure none = "Document indexing failed."
    failure (some e) = if is_empty e then "Document indexing failed." else e

abbrev after_ingestion : ℕ → State → Option String × Store → Result Uploaded × State
after_ingestion id s (some error, store) = (
  http_exception 500
      "Document upload failed during processing. Check backend logs for [INGEST_*] lines.",
  record s { store = store },
)
after_ingestion id s (none, store) =
    (settled id s (find_first (λ d. d.id == id) store.documents), record s { store = store })

module _ (env : Env) where
  -- `upload_document` from the insert on.
  unfoldable pub start : ℕ → State → Result Uploaded × State
  unfolding ingest_queue_enabled should_use_background_tasks dispatch_document_ingestion
      update_indexing_progress ingest_document_record find_first
  start id s =
      if env.ingest_in_background
      then if ingest_queue_enabled env
        then to_queue id s (
            dispatch_document_ingestion env.broker id
              (record s.jobs { documents = s.store.documents }))
        else if should_use_background_tasks env
        then (
          ok (accepted id),
          record s {
            store = record s.store {
              documents =
                  update_indexing_progress env.now s.store.documents id
                    (record (to_stage "queued") { mark_started = true });
            };
            background_tasks = s.background_tasks ++ id ∷ [];
          },
        )
        else (
          http_exception 503
              "Background ingestion is enabled but no dispatch backend is configured.",
          s,
        )
      else after_ingestion id s (ingest_document_record env.pipeline env.now id false s.store)

  abbrev pub started : Result IndexedDocument × State → Result Uploaded × State
  started (http_exception status detail, s) = (http_exception status detail, s)
  started (ok d, s) = start d.id s

  unfoldable pub upload_document : ℕ → UploadFile → Params → State → Result Uploaded × State
  unfolding receive start
  upload_document user_id file p s = started (receive env user_id file p s)
