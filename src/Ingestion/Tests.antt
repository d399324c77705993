-- ===== src/Ingestion/Tests.antt =====
-- The ingestion on small inputs.
use omni_ai_v.Prelude.{
  ℕ, ◌≡◌, refl, true, none, some, List, [], ◌∷◌, ◌++◌, nat_comparable, text_comparable, length,
  strip, lower,
}
use omni_ai_v.Rows
use omni_ai_v.Ingestion.{IndexedDocument, mark_indexing_ready}
use omni_ai_v.Ingestion.Chunks.{LoadedDocumentPart, truncate_parts, chunk_document_parts}
use omni_ai_v.Ingestion.Chunks
use omni_ai_v.Ingestion.Chunks.Shape.{IsChunked, chunk_document_parts-IsChunked}
use omni_ai_v.Ingestion.Worker
use omni_ai_v.Ingestion.Worker.{
  Outcome, returned, raised, Pipeline, Store, numbered, store_chunks, chunks_of,
  ingest_document_record, stage_is_ready,
}
use omni_ai_v.Ingestion.Worker.Batches.{store_chunks_whole}
use omni_ai_v.Ingestion.Worker.Isolation.{
  other_documents, other_chunks, ingest_document_record_others,
}
use omni_ai_v.Ingestion.Worker.Outcomes.{Indexed, ingest_document_record-Indexed}
use omni_ai_v.Ingestion.Queue.{State, Broker, WorkerCount, connected}
use omni_ai_v.Ingestion.Queue.Failures.{
  Event, dispatch, recover, job_failure, steps, HasLetters, steps-HasLetters,
}

abbrev document : IndexedDocument
document = record {
  id = 3;
  user_id = 7;
  workspace_id = "default";
  collection_id = 4;
  session_id = none;
  filename = "p.pdf";
  storage_path = "/u/p.pdf";
  chunks_created = 0;
  embeddings_completed = 0;
  indexing_stage = "queued";
  indexing_error = none;
  indexing_started_at = none;
  indexing_job_id = none;
  created_at = 100;
}

abbrev page : LoadedDocumentPart
page = record { text = " A page with more than thirty-two characters "; page_number = some 1 }

abbrev page_2 : LoadedDocumentPart
page_2 = record { text = "Another page with more than thirty-two characters"; page_number = some 2 }

abbrev pipeline : Pipeline
pipeline = record {
  load = λ path. returned (page ∷ page_2 ∷ page ∷ []);
  lower = lower;
  split = λ parts. parts;
  max_chunks = 100;
  max_text_chars = 5000;
  add_batch_size = 1;
  encode = λ texts. none;
  add = λ start. none;
  removable = λ path. true;
  failure_is_saved = true;
}

abbrev store : Store
store = record { documents = document ∷ []; chunks = []; files = λ path. true; events = [] }

-- The repeated page is stored once.
ingest_run : length (ingest_document_record pipeline 100 3 true store).1.chunks ≡ 2
unfolding ingest_document_record Worker.process_document Worker.chunks_of chunk_document_parts
    Chunks.dedupe Worker.joined_length strip lower Rows.find_first store_chunks Worker.store_from
    Worker.store_batch numbered Worker.clean mark_indexing_ready Rows.update_where
ingest_run = refl

chunk_document_parts-IsChunked_example :
    IsChunked lower 100
      (chunk_document_parts lower (λ parts. parts) 100 (page ∷ page_2 ∷ page ∷ []))
chunk_document_parts-IsChunked_example =
    chunk_document_parts-IsChunked lower (λ parts. parts) 100 (page ∷ page_2 ∷ page ∷ [])

store_chunks_whole_example :
    (store_chunks pipeline 9 document (page ∷ page_2 ∷ []) store).1.chunks
    ≡ store.chunks ++ numbered document 0 (page ∷ page_2 ∷ [])
unfolding store_chunks Worker.store_from Worker.store_batch
store_chunks_whole_example = store_chunks_whole pipeline 9 document (page ∷ page_2 ∷ []) store refl

ingest_document_record-Indexed_example :
    Indexed pipeline document
      (page ∷ page_2 ∷ page ∷ [])
      store
      (ingest_document_record pipeline 9 3 true store)
unfolding Rows.find_first chunks_of chunk_document_parts Chunks.dedupe Worker.joined_length strip
    lower
ingest_document_record-Indexed_example =
    ingest_document_record-Indexed pipeline 9 3 true store (λ texts. refl) (λ start. refl) refl refl
      refl refl

ingest_document_record_others_example :
    (other_documents 3 (ingest_document_record pipeline 9 3 true store).1 ≡ other_documents 3 store)
    × (other_chunks 3 (ingest_document_record pipeline 9 3 true store).1 ≡ other_chunks 3 store)
ingest_document_record_others_example = ingest_document_record_others pipeline 9 3 true store

abbrev broken : Pipeline
broken = record pipeline { encode = λ texts. some "401 Unauthorized" }

abbrev broker : WorkerCount → Broker
broker count = record {
  worker_count = count;
  now = 9;
  max_retries = 3;
  job_id = λ i index. "ingest-doc";
  exhausted_message = λ reason. reason;
  enqueue_error = λ index i. none;
}

abbrev state : State
state = record {
  documents = document ∷ [];
  queue = [];
  dead_letters = [];
  threads = [];
  recovery_started = [];
}

abbrev mentioned : List ℕ
mentioned = 3 ∷ 0 ∷ 3 ∷ []

abbrev three : ℕ
three = 3

abbrev events : List Event
events =
    dispatch (broker (connected 1)) (3 ∷ [])
    ∷ job_failure (broker (connected 1)) "j" (some 3) 0 "401"
    ∷ recover (broker (connected 0)) 3
    ∷ []

steps-HasLetters_example : HasLetters (steps state events)
steps-HasLetters_example = steps-HasLetters state events (refl, tt)
