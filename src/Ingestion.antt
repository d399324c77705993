-- ===== src/Ingestion.antt =====
-- backend/app/services/indexing_progress.py and detect_stale_indexing of
-- backend/app/services/ingestion_service.py, over the columns of `documents`
-- (backend/app/models/document.py) that the ingestion reads and writes. Clock readings are
-- seconds; of the time stamps only `indexing_started_at`, from which staleness is computed, is kept.
pub mod Chunks
pub mod Worker
pub mod Queue
mod Status
mod Tests
use Prim.Native.String.{◌++◌ as concat}
use omni_ai_v.Prelude.{
  ℕ, ◌-◌, String, Bool, true, false, ◌&&◌, ◌||◌, not, Option, none, some, List, if◌then◌else◌, ◌==◌,
  nat_comparable, text_comparable, ltb, is_empty, take_text, is_some,
}
use omni_ai_v.Rows.{update_where}

pub record IndexedDocument : Type 0 where
  pub id : ℕ
  pub user_id : ℕ
  pub workspace_id : String
  pub collection_id : ℕ
  pub session_id : Option ℕ
  pub filename : String
  pub storage_path : String
  pub chunks_created : ℕ
  pub embeddings_completed : ℕ
  pub indexing_stage : String
  pub indexing_error : Option String
  pub indexing_started_at : Option ℕ
  pub indexing_job_id : Option String
  pub created_at : ℕ

-- The keyword arguments of `update_indexing_progress`.
pub record Progress : Type 0 where
  pub stage : Option String
  pub chunks_created : Option ℕ
  pub embeddings_completed : Option ℕ
  pub error : Option String
  pub mark_started : Bool

abbrev or_else {ℓ} : {A : Type ℓ} → Option A → A → A
or_else none y = y
or_else (some x) y = x

abbrev stored_error : Option String → Option String → Option String
stored_error none old = old
stored_error (some error) old = if is_empty error then none else some (take_text 4000 error)

abbrev started : Bool → ℕ → Option ℕ → Option ℕ
started mark now none = if mark then some now else none
started mark now (some at) = some at

abbrev pub progressed : ℕ → Progress → IndexedDocument → IndexedDocument
progressed now p d = record d {
  indexing_started_at = started p.mark_started now d.indexing_started_at;
  indexing_stage = or_else p.stage d.indexing_stage;
  chunks_created = or_else p.chunks_created d.chunks_created;
  embeddings_completed = or_else p.embeddings_completed d.embeddings_completed;
  indexing_error = stored_error p.error d.indexing_error;
}

unfoldable pub update_indexing_progress :
    ℕ → List IndexedDocument → ℕ → Progress → List IndexedDocument
update_indexing_progress now db document_id p =
    update_where (λ d. d.id == document_id) (progressed now p) db

abbrev pub to_stage : String → Progress
to_stage stage = record {
  stage = some stage;
  chunks_created = none;
  embeddings_completed = none;
  error = none;
  mark_started = false;
}

abbrev pub to_failed : String → Progress
to_failed error = record (to_stage "failed") { error = some error }

unfoldable pub mark_indexing_failed : ℕ → List IndexedDocument → ℕ → String → List IndexedDocument
unfolding update_indexing_progress
mark_indexing_failed now db document_id error =
    update_indexing_progress now db document_id (to_failed error)

abbrev pub to_ready : ℕ → Progress
to_ready chunk_count = record (to_stage "ready") {
  chunks_created = some chunk_count;
  embeddings_completed = some chunk_count;
  error = some "";
}

unfoldable pub mark_indexing_ready : ℕ → List IndexedDocument → ℕ → ℕ → List IndexedDocument
unfolding update_indexing_progress
mark_indexing_ready now db document_id chunk_count =
    update_indexing_progress now db document_id (to_ready chunk_count)

-- The part of the answer to a polling client that is computed.
pub record StatusPayload : Type 0 where
  pub id : ℕ
  pub filename : String
  pub chunks_created : ℕ
  pub embeddings_completed : ℕ
  pub indexing_stage : String
  pub indexing_error : Option String
  pub status : String
  pub indexing_job_id : Option String

-- The stage and the status that are shown, by whether chunks exist and by the stored stage.
abbrev pub shown_stage : Bool → String → String
shown_stage has_chunks stored =
    let stage = if is_empty stored then if has_chunks then "ready" else "queued" else stored in
    if has_chunks && not (stage == "failed") then "ready" else stage

abbrev pub shown_status : Bool → String → String
shown_status has_chunks stage =
    let status = if stage == "ready" || has_chunks then "ready" else "indexing" in
    if stage == "failed" then "failed" else status

unfoldable pub document_status_payload : IndexedDocument → StatusPayload
document_status_payload document =
    let has_chunks = ltb 0 document.chunks_created in
    let stage = shown_stage has_chunks document.indexing_stage in
    record {
      id = document.id;
      filename = document.filename;
      chunks_created = document.chunks_created;
      embeddings_completed = document.embeddings_completed;
      indexing_stage = stage;
      indexing_error = document.indexing_error;
      status = shown_status has_chunks stage;
      indexing_job_id = document.indexing_job_id;
    }

abbrev pub max_indexing_seconds : ℕ
max_indexing_seconds = 900

abbrev pub queued_stale_seconds : ℕ
queued_stale_seconds = 45

abbrev stage_name : String → String
stage_name stage = if is_empty stage then "unknown" else stage

overdue_message : String → String
overdue_message stage =
    concat "Indexing exceeded 15 minutes at stage '"
      (concat (stage_name stage) "'. Check logs for [EMBEDDING_*], [SLOW_STAGE], or [ERROR].")

-- The message for a document stuck in the queue is composed from what the queue answers.
unfoldable pub detect_stale_indexing :
    (IndexedDocument → ℕ → String) → ℕ → IndexedDocument → Option String
unfolding overdue_message
detect_stale_indexing build_stale_queued_message now document =
    let elapsed = now - or_else document.indexing_started_at document.created_at in
    if ltb 0 document.chunks_created || document.indexing_stage == "ready"
    then none
    else if document.indexing_stage == "failed"
    then document.indexing_error
    else if document.indexing_stage == "queued" && ltb queued_stale_seconds elapsed
    then some (build_stale_queued_message document elapsed)
    else if ltb max_indexing_seconds elapsed
    then some (overdue_message document.indexing_stage)
    else none
