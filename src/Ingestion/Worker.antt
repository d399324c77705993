-- ===== src/Ingestion/Worker.antt =====
-- ingest_document_record of backend/app/services/ingestion_service.py with store_chunks and
-- process_document of backend/app/services/documents_services.py. The loaders, the splitter, the
-- embedding model and the vector store are a `Pipeline`; vectors and random ids are left out.
pub mod Batches
pub mod Outcomes
pub mod Isolation
use omni_ai_v.Prelude.{
  ℕ, zero, suc, ◌+◌, ◌*◌, ◌-◌, min, max, String, Bool, true, false, ◌&&◌, ◌||◌, not, Option, none,
  some, List, [], ◌∷◌, ◌++◌, map, if◌then◌else◌, ◌==◌, nat_comparable, text_comparable, ltb, length,
  take, drop, is_empty, text_length, is_some,
}
use omni_ai_v.Rows.{find_first}
use omni_ai_v.Ingestion.{
  IndexedDocument, Progress, to_stage, update_indexing_progress, mark_indexing_ready,
  mark_indexing_failed,
}
use omni_ai_v.Ingestion.Chunks.{LoadedDocumentPart, truncate_parts, chunk_document_parts}

pub data Outcome {ℓ} (A : Type ℓ) : Type ℓ where
  returned : A → Outcome A
  raised : String → Outcome A

-- The settings and the libraries: a call of `encode` or `add` answers the exception that it
-- raises; `add` is told the index of the first chunk of the batch.
pub record Pipeline : Type 0 where
  pub load : String → Outcome (List LoadedDocumentPart)
  pub lower : String → String
  pub split : List LoadedDocumentPart → List LoadedDocumentPart
  pub max_chunks : ℕ
  pub max_text_chars : ℕ
  pub add_batch_size : ℕ
  pub encode : List String → Option String
  pub add : ℕ → Option String
  pub removable : String → Bool
  pub failure_is_saved : Bool

-- A chunk in the vector store, with its metadata but for those that the others determine.
pub record StoredChunk : Type 0 where
  pub text : String
  pub page_number : Option ℕ
  pub filename : String
  pub user_id : ℕ
  pub workspace_id : String
  pub collection_id : ℕ
  pub session_id : Option ℕ
  pub document_id : ℕ
  pub chunk_index : ℕ

pub record IngestionEvent : Type 0 where
  pub user_id : ℕ
  pub filename : String
  pub chunks_created : ℕ
  pub success : Bool
  pub error_message : Option String

pub record Store : Type 0 where
  pub documents : List IndexedDocument
  pub chunks : List StoredChunk
  pub files : String → Bool
  pub events : List IngestionEvent

abbrev pub progress : ℕ → ℕ → Progress → Store → Store
progress now i p s = record s { documents = update_indexing_progress now s.documents i p }

abbrev pub stored : IndexedDocument → ℕ → LoadedDocumentPart → StoredChunk
stored d index part = record {
  text = part.text;
  page_number = part.page_number;
  filename = d.filename;
  user_id = d.user_id;
  workspace_id = d.workspace_id;
  collection_id = d.collection_id;
  session_id = d.session_id;
  document_id = d.id;
  chunk_index = index;
}

-- The chunks of a batch, numbered from `start`.
unfoldable pub numbered : IndexedDocument → ℕ → List LoadedDocumentPart → List StoredChunk
numbered d start [] = []
numbered d start (part ∷ parts) = stored d start part ∷ numbered d (suc start) parts

abbrev pub text_of : LoadedDocumentPart → String
text_of part = part.text

abbrev pub after_add :
    IndexedDocument → ℕ → List LoadedDocumentPart → Store → Option String → Option String × Store
after_add d start batch s (some error) = (some error, s)
after_add d start batch s none = (none, record s { chunks = s.chunks ++ numbered d start batch })

abbrev pub after_encode :
    Pipeline
    → ℕ
    → IndexedDocument
    → ℕ
    → ℕ
    → List LoadedDocumentPart
    → Store
    → Option String
    → Option String × Store
after_encode p now d total start batch s (some error) = (some error, s)
after_encode p now d total start batch s none =
    after_add d start batch
      (progress now d.id
        (record (to_stage "vector_store") {
          embeddings_completed = some (min (start + length batch) total);
        })
        s)
      (p.add start)

-- One turn of the loop over the batches.
unfoldable pub store_batch :
    Pipeline → ℕ → IndexedDocument → ℕ → ℕ → List LoadedDocumentPart → Store → Option String × Store
store_batch p now d total start batch s =
    after_encode p now d total start batch s (p.encode (map text_of batch))

abbrev pub unless_raised : Option String × Store → Option String × Store → Option String × Store
unless_raised (some error, s) rest = (some error, s)
unless_raised (none, s) rest = rest

-- `for start in range(0, total, batch_size)`; the fuel is the number of chunks that are left.
unfoldable pub store_from :
    Pipeline
    → ℕ
    → IndexedDocument
    → ℕ
    → ℕ
    → ℕ
    → List LoadedDocumentPart
    → Store
    → Option String × Store
unfolding store_batch
store_from p now d total zero start chunks s = (none, s)
store_from p now d total (suc fuel) start [] s = (none, s)
store_from p now d total (suc fuel) start (chunk ∷ chunks) s =
    let size = max 1 p.add_batch_size in
    let turn = store_batch p now d total start (take size (chunk ∷ chunks)) s in
    unless_raised turn
      (store_from p now d total fuel (start + size) (drop size (chunk ∷ chunks)) turn.1)

unfoldable pub store_chunks :
    Pipeline → ℕ → IndexedDocument → List LoadedDocumentPart → Store → Option String × Store
unfolding store_from
store_chunks p now d [] s = (none, s)
store_chunks p now d (chunk ∷ chunks) s =
    let total = length (chunk ∷ chunks) in
    store_from p now d total total 0 (chunk ∷ chunks) (progress now d.id (to_stage "embedding") s)

-- len("\n\n".join(part.text for part in parts))
unfoldable pub joined_length : List LoadedDocumentPart → ℕ
joined_length [] = 0
joined_length (part ∷ []) = text_length part.text
joined_length (part ∷ next ∷ parts) = text_length part.text + 2 + joined_length (next ∷ parts)

-- The chunks that `process_document` computes from the loaded parts.
unfoldable pub chunks_of : Pipeline → List LoadedDocumentPart → List LoadedDocumentPart
unfolding joined_length
chunks_of p parts = chunk_document_parts p.lower p.split p.max_chunks (
    if ltb p.max_text_chars (joined_length parts)
    then truncate_parts parts p.max_text_chars
    else parts)

abbrev pub counted : ℕ → Option String × Store → Outcome ℕ × Store
counted n (none, s) = (returned n, s)
counted n (some error, s) = (raised error, s)

abbrev pub store_all :
    Pipeline → ℕ → IndexedDocument → List LoadedDocumentPart → Store → Outcome ℕ × Store
store_all p now d [] s = (raised "No indexable text chunks were produced from the document.", s)
store_all p now d (chunk ∷ chunks) s =
    counted (length (chunk ∷ chunks)) (store_chunks p now d (chunk ∷ chunks) s)

abbrev pub process_parts :
    Pipeline → ℕ → IndexedDocument → Store → Outcome (List LoadedDocumentPart) → Outcome ℕ × Store
process_parts p now d s (raised error) = (raised error, s)
process_parts p now d s (returned parts) =
    store_all p now d (chunks_of p parts) (progress now d.id (to_stage "chunking") s)

unfoldable pub process_document : Pipeline → ℕ → IndexedDocument → Store → Outcome ℕ × Store
unfolding chunks_of store_chunks
process_document p now d s = process_parts p now d s (p.load d.storage_path)

abbrev pub event : IndexedDocument → ℕ → Option String → IngestionEvent
event d n error = record {
  user_id = d.user_id;
  filename = d.filename;
  chunks_created = n;
  success = not (is_some error);
  error_message = error;
}

abbrev pub logged : IngestionEvent → Store → Store
logged e s = record s { events = s.events ++ e ∷ [] }

-- The body of the `try`, with its `except`: the exception that the call will raise, and the state.
-- `saved` says whether `mark_indexing_failed` goes through; its own exception is only logged.
abbrev pub concluded : ℕ → Bool → Bool → IndexedDocument → Outcome ℕ × Store → Option String × Store
concluded now saved propagate_errors d (returned n, s) = (
  none,
  logged (event d n none) (record s { documents = mark_indexing_ready now s.documents d.id n }),
)
concluded now saved true d (raised error, s) = (some error, logged (event d 0 (some error)) s)
concluded now saved false d (raised error, s) = (
  none,
  record (logged (event d 0 (some error)) s) {
    documents = if saved then mark_indexing_failed now s.documents d.id error else s.documents;
  },
)

abbrev pub attempted : Pipeline → ℕ → IndexedDocument → Store → Outcome ℕ × Store
attempted p now d s =
    if is_empty d.storage_path || not (s.files d.storage_path)
    then (raised "Uploaded file is no longer available on disk.", s)
    else process_document p now d
        (progress now d.id (record (to_stage "loading") { mark_started = true }) s)

abbrev remove_file : (String → Bool) → String → String → Bool
remove_file files path q = if q == path then false else files q

abbrev pub stage_is_ready : Option IndexedDocument → Bool
stage_is_ready none = false
stage_is_ready (some d) = d.indexing_stage == "ready"

-- The `finally`: the uploaded file of a document that is ready is removed.
unfoldable pub clean : Pipeline → IndexedDocument → Store → Store
unfolding find_first
clean p d s =
    if not (is_empty d.storage_path)
      && s.files d.storage_path
      && stage_is_ready (find_first (λ x. x.id == d.id) s.documents)
      && p.removable d.storage_path
    then record s { files = remove_file s.files d.storage_path }
    else s

abbrev pub cleaned : Pipeline → IndexedDocument → Option String × Store → Option String × Store
cleaned p d (error, s) = (error, clean p d s)

abbrev pub ingest_found :
    Pipeline → ℕ → Bool → Store → Option IndexedDocument → Option String × Store
ingest_found p now propagate_errors s none = (none, s)
ingest_found p now propagate_errors s (some d) =
    cleaned p d (concluded now p.failure_is_saved propagate_errors d (attempted p now d s))

-- The exception that the call raises, if it raises one, and the state after it.
unfoldable pub ingest_document_record : Pipeline → ℕ → ℕ → Bool → Store → Option String × Store
unfolding process_document clean
ingest_document_record p now document_id propagate_errors s =
    ingest_found p now propagate_errors s (find_first (λ d. d.id == document_id) s.documents)
