-- ===== src/Uploads.antt =====
-- The upload of a document: upload_document of backend/app/api/upload_routes.py, with
-- backend/app/schemas/upload_schemas.py, over the checks of the child modules, the ingestion worker
-- and the ingestion queue. Directories are not modelled, nor are log lines.
pub mod Start
pub mod Names
pub mod Validation
pub mod Security
pub mod Receipt
pub mod Dispatch
mod Tests
use Prim.Native.Char.{Char, code}
use Prim.Native.String.{◌++◌ as concat}
use omni_ai_v.Prelude.{
  ℕ, suc, String, Bool, true, false, ◌&&◌, ◌||◌, not, Option, none, some, List, [], ◌∷◌, ◌++◌, ltb,
  leb, if◌then◌else◌, ◌==◌, nat_comparable, text_comparable, is_empty, text_length,
}
use omni_ai_v.Rows.{find_first}
use omni_ai_v.Workspace.{ChatSession, DocumentCollection}
use omni_ai_v.Ingestion.{IndexedDocument, Progress, to_stage, update_indexing_progress}
use omni_ai_v.Ingestion.Worker.{Pipeline, Store, ingest_document_record}
use omni_ai_v.Ingestion.Queue.{Broker, Dispatched, dispatch_document_ingestion}
use omni_ai_v.Ingestion.Queue
use omni_ai_v.Uploads.Names.{all_text, sanitize_upload_filename}
use omni_ai_v.Uploads.Validation.{UploadFile, Result, ok, http_exception, validate_document_upload}
use omni_ai_v.Uploads.Security.{Probe, ScanSettings, process_upload_security}

-- The settings, the clock, and the answers of the libraries, the disk and the scanner.
pub record Env : Type 0 where
  pub nfkc : String → String
  pub upper : String → String
  pub max_upload_bytes : ℕ
  pub ingest_in_background : Bool
  pub ingest_uses_rq_queue : Bool
  pub scan : ScanSettings
  pub probe : String → List ℕ → Probe
  pub upload_path : ℕ → ℕ → String → String
  pub quarantine_path : ℕ → ℕ → String → String
  pub writes : Bool
  pub moves : Bool
  pub now : ℕ
  pub broker : Broker
  pub pipeline : Pipeline

-- The tables, the files in quarantine, the audit log (action and user), and what was dispatched. The
-- rows of `documents` are those of `store`; `jobs` holds the queues.
pub record State : Type 0 where
  pub sessions : List ChatSession
  pub collections : List DocumentCollection
  pub next_collection : ℕ
  pub next_document : ℕ
  pub store : Store
  pub jobs : Queue.State
  pub quarantined : String → Bool
  pub audits : List (String × ℕ)
  pub background_tasks : List ℕ

-- The query parameters of the request.
pub record Params : Type 0 where
  pub workspace_id : String
  pub collection_id : Option ℕ
  pub session_id : Option ℕ

abbrev is_word : Char → Bool
is_word c =
    let n = code c in
    (leb b'A' n && leb n b'Z')
    || (leb b'a' n && leb n b'z')
    || (leb b'0' n && leb n b'9')
    || n == b'_'
    || n == b'-'

abbrev is_positive : Option ℕ → Bool
is_positive none = true
is_positive (some n) = ltb 0 n

-- Whether pydantic accepts `UploadFormParams`.
unfoldable pub is_valid_form : Params → Bool
is_valid_form p =
    all_text is_word p.workspace_id
    && leb 1 (text_length p.workspace_id)
    && leb (text_length p.workspace_id) 80
    && is_positive p.collection_id
    && is_positive p.session_id

unfoldable pub ingest_queue_enabled : Env → Bool
ingest_queue_enabled env = env.ingest_in_background && env.ingest_uses_rq_queue

unfoldable pub should_use_background_tasks : Env → Bool
should_use_background_tasks env = env.ingest_in_background && not env.ingest_uses_rq_queue

abbrev pub is_session_of : ℕ → ℕ → ChatSession → Bool
is_session_of user_id session_id s = s.id == session_id && s.user_id == user_id

abbrev pub is_collection_of : ℕ → ℕ → DocumentCollection → Bool
is_collection_of user_id collection_id c = c.id == collection_id && c.user_id == user_id

abbrev default_of : ℕ → String → DocumentCollection → Bool
default_of user_id workspace_id c =
    c.user_id == user_id && c.workspace_id == workspace_id && c.name == "Default"

abbrev with_default : ℕ → String → State → Option DocumentCollection → ℕ × State
with_default user_id workspace_id s (some c) = (c.id, s)
with_default user_id workspace_id s none = (
  s.next_collection,
  record s {
    collections =
        s.collections
        ++ record {
          id = s.next_collection;
          user_id = user_id;
          workspace_id = workspace_id;
          name = "Default";
        }
          ∷ [];
    next_collection = suc s.next_collection;
  },
)

-- The collection that the request names, or the default one, which is made if there is none.
unfoldable pub choose_collection : ℕ → String → Option ℕ → State → Option ℕ × State
choose_collection user_id workspace_id none s =
    let (id, after) =
      with_default user_id workspace_id s
        (find_first (default_of user_id workspace_id) s.collections) in
    (some id, after)
choose_collection user_id workspace_id (some collection_id) s =
    named (find_first (is_collection_of user_id collection_id) s.collections)
  where
    named : Option DocumentCollection → Option ℕ × State
    named none = (none, s)
    named (some c) = (some c.id, s)

abbrev pub set_path : Bool → String → (String → Bool) → String → Bool
set_path present path files q = if q == path then present else files q

abbrev audited : String → ℕ → State → State
audited action user_id s = record s { audits = s.audits ++ (action, user_id) ∷ [] }

-- A row as `upload_document` inserts it.
abbrev pub new_row : Env → ℕ → Params → ℕ → ℕ → String → State → IndexedDocument
new_row env user_id p collection_id session_id safe_name s = record {
  id = s.next_document;
  user_id = user_id;
  workspace_id = p.workspace_id;
  collection_id = collection_id;
  session_id = some session_id;
  filename = safe_name;
  storage_path = env.upload_path user_id session_id safe_name;
  chunks_created = 0;
  embeddings_completed = 0;
  indexing_stage = "queued";
  indexing_error = none;
  indexing_started_at = none;
  indexing_job_id = none;
  created_at = env.now;
}

module _ (env : Env) (user_id : ℕ) where
  -- The insert, after the file has been moved to its place.
  abbrev pub insert : Params → ℕ → ℕ → String → State → Result IndexedDocument × State
  insert p collection_id session_id safe_name s =
      let path = env.upload_path user_id session_id safe_name in
      let held = env.quarantine_path user_id session_id safe_name in
      let d = new_row env user_id p collection_id session_id safe_name s in
      (
        ok d,
        record (audited "upload.received" user_id s) {
          quarantined = set_path false held s.quarantined;
          store = record s.store {
            documents = s.store.documents ++ d ∷ [];
            files = set_path true path s.store.files;
          };
          next_document = suc s.next_document;
        },
      )

  abbrev after_scan :
      Params → ℕ → ℕ → String → Option String → State → Result IndexedDocument × State
  after_scan p collection_id session_id safe_name (some error) s = (
    http_exception 400 error,
    record (audited "upload.rejected.security" user_id s) {
      quarantined = set_path false (env.quarantine_path user_id session_id safe_name) s.quarantined;
    },
  )
  after_scan p collection_id session_id safe_name none s =
      if env.moves
      then insert p collection_id session_id safe_name s
      else (http_exception 500 "Unable to store uploaded file.", s)

  -- The `try` block: quarantine, checks, storage.
  unfoldable pub secure :
      UploadFile → Params → ℕ → ℕ → String → State → Result IndexedDocument × State
  unfolding process_upload_security
  secure file p collection_id session_id safe_name s =
      let held = env.quarantine_path user_id session_id safe_name in
      if env.writes
      then after_scan p collection_id session_id safe_name
          (process_upload_security env.scan (env.probe held file.body) safe_name file.content_type)
          (record s { quarantined = set_path true held s.quarantined })
      else (http_exception 500 "Unable to store uploaded file.", s)

  abbrev pub into_collection :
      UploadFile → Params → ℕ → Option String → Option ℕ × State → Result IndexedDocument × State
  into_collection file p session_id safe_name (none, s) =
      (http_exception 404 "Collection not found", s)
  into_collection file p session_id none (some collection_id, s) =
      (http_exception 400 "Invalid filename.", s)
  into_collection file p session_id (some safe_name) (some collection_id, s) =
      secure file p collection_id session_id safe_name s

  abbrev pub into_session :
      UploadFile → Params → State → Option ℕ → Result ℕ → Result IndexedDocument × State
  into_session file p s session_id (http_exception status detail) =
      (http_exception status detail, s)
  into_session file p s none (ok size) =
      (http_exception 400 "session_id is required — documents must belong to a chat session.", s)
  into_session file p s (some session_id) (ok size) =
      owned (find_first (is_session_of user_id session_id) s.sessions)
    where
      owned : Option ChatSession → Result IndexedDocument × State
      owned none = (http_exception 404 "Session not found", s)
      owned (some session) =
          into_collection file p session_id (sanitize_upload_filename env.nfkc file.filename)
            (choose_collection user_id p.workspace_id p.collection_id s)

  -- `upload_document` up to the insert of the row.
  unfoldable pub receive : UploadFile → Params → State → Result IndexedDocument × State
  unfolding is_valid_form validate_document_upload sanitize_upload_filename choose_collection secure
  receive file p s =
      if is_valid_form p
      then into_session file p s p.session_id
          (validate_document_upload env.nfkc env.upper file env.max_upload_bytes)
      else (http_exception 422 "validation error", s)
