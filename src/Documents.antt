-- ===== src/Documents.antt =====
-- The routes of backend/app/api/upload_routes.py that list, count, watch and delete documents, over the
-- tables of Ingestion. A query by a session or a collection is given neither, one or both; that a
-- file cannot be removed and that the vector store raises are parameters.
pub mod Pages
pub mod Summary
pub mod Removal
mod Tests
use omni_ai_v.Prelude.{
  ℕ, ◌+◌, ◌-◌, String, Bool, true, false, ◌&&◌, ◌||◌, not, Option, none, some, List, [], ◌∷◌,
  if◌then◌else◌, ◌==◌, nat_comparable, text_comparable, leb, ltb, length, take, drop, select,
  sort_by, is_empty, map,
}
use omni_ai_v.Rows.{find_first, delete_where}
use omni_ai_v.Ingestion.{
  IndexedDocument, StatusPayload, document_status_payload, detect_stale_indexing,
}
use omni_ai_v.Ingestion.Worker.{StoredChunk, Store}
use omni_ai_v.Ingestion.Queue.{
  State, Broker, WorkerCount, unreachable, connected, try_recover_stuck_queued_document,
}
use omni_ai_v.Uploads.Names.{basename}

-- The caller, and the parameters of the queries.
pub record Filter : Type 0 where
  pub user_id : ℕ
  pub workspace_id : String
  pub session_id : Option ℕ
  pub collection_id : Option ℕ

abbrev pub in_session : Option ℕ → Option ℕ → Bool
in_session none of_document = true
in_session (some i) none = false
in_session (some i) (some j) = j == i

abbrev in_collection : Option ℕ → ℕ → Bool
in_collection none of_document = true
in_collection (some i) j = j == i

abbrev pub is_selected : Filter → IndexedDocument → Bool
is_selected f d =
    d.user_id == f.user_id
    && d.workspace_id == f.workspace_id
    && in_session f.session_id d.session_id
    && in_collection f.collection_id d.collection_id

abbrev pub is_unscoped : Option ℕ → Option ℕ → Bool
is_unscoped none none = true
is_unscoped none (some j) = false
is_unscoped (some i) c = false

pub record Page : Type 0 where
  pub documents : List StatusPayload
  pub total : ℕ
  pub limit : ℕ
  pub offset : ℕ
  pub has_more : Bool

-- `order_by(created_at.desc())` as the database answers it to one request, which may put documents of
-- one time in any order, and in another one for the next request.
abbrev pub Order : Type 0
Order = List IndexedDocument → List IndexedDocument

-- The route admits limits from 1 to 200.
unfoldable pub list_documents : Order → Filter → ℕ → ℕ → List IndexedDocument → Page
unfolding document_status_payload
list_documents order f limit offset documents =
    let query = select (is_selected f) documents in
    let records = take limit (drop offset (order query)) in
    if is_unscoped f.session_id f.collection_id
    then record { documents = []; total = 0; limit = limit; offset = offset; has_more = false }
    else record {
      documents = map document_status_payload records;
      total = length query;
      limit = limit;
      offset = offset;
      has_more = ltb (offset + length records) (length query);
    }

-- A value, an HTTPException, or the text of another exception.
pub data Reply {ℓ} (A : Type ℓ) : Type ℓ where
  ok : A → Reply A
  http_exception : ℕ → String → Reply A
  raised : String → Reply A

pub record Counts : Type 0 where
  pub total : ℕ
  pub ready : ℕ
  pub indexing : ℕ
  pub failed : ℕ
  pub by_stage : List (String × ℕ)

-- `GROUP BY`: one row for each stage, with its number of documents.
abbrev pub counted : String → List (String × ℕ) → List (String × ℕ)
counted stage [] = (stage, 1) ∷ []
counted stage ((s, n) ∷ groups) =
    let rest = counted stage groups in if s == stage then (s, n + 1) ∷ groups else (s, n) ∷ rest

unfoldable pub group_by_stage : List IndexedDocument → List (String × ℕ)
group_by_stage [] = []
group_by_stage (d ∷ documents) = counted d.indexing_stage (group_by_stage documents)

-- counts.get(stage, 0)
abbrev pub count_of : String → List (String × ℕ) → ℕ
count_of stage [] = 0
count_of stage ((s, n) ∷ groups) =
    let rest = count_of stage groups in if s == stage then n else rest

abbrev pub sum_of : List (String × ℕ) → ℕ
sum_of [] = 0
sum_of ((s, n) ∷ groups) = n + sum_of groups

abbrev pub has_stage : String → List (String × ℕ) → Bool
has_stage stage [] = false
has_stage stage ((s, n) ∷ groups) = s == stage || has_stage stage groups

-- `{stage or "queued": count for ...}`, but for the order of its entries: the last one of a key counts.
unfoldable pub counts_of : List (String × ℕ) → List (String × ℕ)
counts_of [] = []
counts_of ((s, n) ∷ groups) =
    let key = if is_empty s then "queued" else s in
    let rest = counts_of groups in if has_stage key rest then rest else (key, n) ∷ rest

unfoldable pub documents_indexing_summary : Filter → List IndexedDocument → Reply Counts
unfolding group_by_stage counts_of
documents_indexing_summary f documents =
    let counts = counts_of (group_by_stage (select (is_selected f) documents)) in
    let ready = count_of "ready" counts in
    let failed = count_of "failed" counts in
    if is_unscoped f.session_id f.collection_id
    then http_exception 400 "Provide session_id or collection_id."
    else ok (record {
      total = sum_of counts;
      ready = ready;
      indexing = sum_of counts - ready - failed;
      failed = failed;
      by_stage = counts;
    })

-- The exception of the removal of a file, and that of the vector store.
pub record Faults : Type 0 where
  pub remove_error : String → Option String
  pub store_error : Option String

abbrev pub is_chunk_of : IndexedDocument → StoredChunk → Bool
is_chunk_of d c = c.filename == d.filename && c.user_id == d.user_id && c.document_id == d.id

abbrev pub without_file : String → Store → Store
without_file path s = record s { files = λ p. if p == path then false else s.files p }

abbrev pub remove_rows : IndexedDocument → Option String → Store → Reply String × Store
remove_rows d (some e) s = (raised e, s)
remove_rows d none s = (
  ok d.filename,
  record s {
    chunks = delete_where (is_chunk_of d) s.chunks;
    documents = delete_where (λ x. x.id == d.id) s.documents;
  },
)

abbrev pub remove_file : Faults → IndexedDocument → Option String → Store → Reply String × Store
remove_file faults d (some e) s = (raised e, s)
remove_file faults d none s = remove_rows d faults.store_error (without_file d.storage_path s)

unfoldable pub delete_document_record : Faults → IndexedDocument → Store → Reply String × Store
unfolding delete_where
delete_document_record faults d s =
    remove_file faults d
      (if s.files d.storage_path then faults.remove_error d.storage_path else none) s

abbrev pub delete_found : Faults → Option IndexedDocument → Store → Reply String × Store
delete_found faults none s = (http_exception 404 "Document not found", s)
delete_found faults (some d) s = delete_document_record faults d s

abbrev pub has_key : ℕ → ℕ → IndexedDocument → Bool
has_key user_id document_id d = d.id == document_id && d.user_id == user_id

unfoldable pub delete_document_by_id : Faults → ℕ → ℕ → Store → Reply String × Store
unfolding delete_document_record find_first
delete_document_by_id faults user_id document_id s =
    delete_found faults (find_first (has_key user_id document_id) s.documents) s

abbrev pub first_of : List IndexedDocument → Option IndexedDocument
first_of [] = none
first_of (d ∷ documents) = some d

abbrev pub has_name : ℕ → String → Option ℕ → IndexedDocument → Bool
has_name user_id name session_id d =
    d.user_id == user_id && d.filename == name && in_session session_id d.session_id

unfoldable pub delete_document : Faults → ℕ → String → Option ℕ → Store → Reply String × Store
unfolding delete_document_record sort_by basename
delete_document faults user_id filename session_id s =
    delete_found faults
      (first_of (
        sort_by (λ a b. leb b.created_at a.created_at)
          (select (has_name user_id (basename filename) session_id) s.documents)))
      s

-- What the route adds for a document that is stuck.
pub record Watched : Type 0 where
  pub payload : StatusPayload
  pub stale : Option String
  pub worker_count : Option WorkerCount
  pub recovered : Bool

abbrev pub plain : StatusPayload → Watched
plain payload = record { payload = payload; stale = none; worker_count = none; recovered = false }

abbrev pub has_no_worker : WorkerCount → Bool
has_no_worker unreachable = false
has_no_worker (connected n) = n == 0

abbrev pub watch_stuck :
    Bool → Broker → IndexedDocument → StatusPayload → String → State → Watched × State
watch_stuck queue_enabled broker d payload message s =
    let (recovered, after) = try_recover_stuck_queued_document broker d.id s in
    let stale : Watched = record (plain payload) { stale = some message } in
    if not queue_enabled
    then (stale, s)
    else if has_no_worker broker.worker_count
    then (record stale { worker_count = some broker.worker_count; recovered = recovered }, after)
    else (record stale { worker_count = some broker.worker_count }, s)

abbrev pub watch :
    Bool → Broker → IndexedDocument → StatusPayload → Option String → State → Watched × State
watch queue_enabled broker d payload none s = (plain payload, s)
watch queue_enabled broker d payload (some message) s =
    if not (is_empty message) && payload.status == "indexing"
    then watch_stuck queue_enabled broker d payload message s
    else (plain payload, s)

abbrev pub status_found :
    Bool
    → Broker
    → (IndexedDocument → ℕ → String)
    → Option IndexedDocument
    → State
    → Reply Watched × State
status_found queue_enabled broker message none s = (http_exception 404 "Document not found", s)
status_found queue_enabled broker message (some d) s =
    let (watched, after) =
      watch queue_enabled broker d (document_status_payload d)
        (detect_stale_indexing message broker.now d) s in
    (ok watched, after)

-- `message` composes the text for a document that waits too long in the queue.
unfoldable pub get_document_status :
    Bool → Broker → (IndexedDocument → ℕ → String) → ℕ → ℕ → State → Reply Watched × State
unfolding find_first document_status_payload detect_stale_indexing try_recover_stuck_queued_document
get_document_status queue_enabled broker message user_id document_id s =
    status_found queue_enabled broker message (find_first (has_key user_id document_id) s.documents)
      s
