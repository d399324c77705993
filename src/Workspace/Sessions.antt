-- ===== src/Workspace/Sessions.antt =====
-- backend/app/services/session_service.py: deleting a chat session with all that hangs on it, the
-- rows in one transaction first, then the stored files and the vector chunks.
pub mod Deletion
pub mod Cleanup
use omni_ai_v.Prelude.{
  ℕ, String, Bool, true, false, ◌&&◌, not, Option, none, some, List, [], ◌∷◌, if◌then◌else◌, ◌==◌,
  nat_comparable, text_comparable, select, map, is_empty,
}
use omni_ai_v.Rows.{find_first, update_where, delete_where}
use omni_ai_v.Workspace.{
  ChatSession, DocumentRecord, Message, ConversationSummary, Usage, Db, is_ref,
}

pub data DeleteSessionResult : Type 0 where
  not_found deleted failed : DeleteSessionResult

pub record DocumentCleanupTarget : Type 0 where
  pub document_id : ℕ
  pub user_id : ℕ
  pub filename : String
  pub storage_path : String

-- A chunk of the vector store, with the two metadata fields that the cleanup asks for.
pub record Chunk : Type 0 where
  pub id : String
  pub user_id : ℕ
  pub document_id : ℕ

-- The disk and the vector store.
pub record Externals : Type 0 where
  pub files : String → Bool
  pub chunks : List Chunk

-- What the environment answers: whether the analytics tables and the transaction go through, which
-- files `os.remove` can remove, and for which documents the vector store answers.
pub record Environment : Type 0 where
  pub analytics_ok : Bool
  pub commit_ok : Bool
  pub removable : String → Bool
  pub chroma_ok : ℕ → Bool

abbrev pub forget_session : Usage → Usage
forget_session u = record u { session_id = none }

-- The nested transaction is rolled back alone if a table is unavailable.
unfoldable pub detach_analytics_session : Bool → Db → ℕ → Db
detach_analytics_session false db session_id = db
detach_analytics_session true db session_id = record db {
  token_usage = update_where (λ u. is_ref u.session_id session_id) forget_session db.token_usage;
  model_usage = update_where (λ u. is_ref u.session_id session_id) forget_session db.model_usage;
}

abbrev remove_file : (String → Bool) → String → String → Bool
remove_file files path p = if p == path then false else files p

unfoldable pub cleanup_file : Environment → (String → Bool) → String → String → Bool
cleanup_file env files path =
    if not (is_empty path) && files path && env.removable path
    then remove_file files path
    else files

abbrev pub is_chunk_of : DocumentCleanupTarget → Chunk → Bool
is_chunk_of target c = c.user_id == target.user_id && c.document_id == target.document_id

unfoldable pub cleanup_chunks : Environment → List Chunk → DocumentCleanupTarget → List Chunk
cleanup_chunks env chunks target =
    if env.chroma_ok target.document_id then delete_where (is_chunk_of target) chunks else chunks

unfoldable pub cleanup_document_externals :
    Environment → Externals → DocumentCleanupTarget → Externals
unfolding cleanup_file cleanup_chunks
cleanup_document_externals env ext target = record {
  files = cleanup_file env ext.files target.storage_path;
  chunks = cleanup_chunks env ext.chunks target;
}

unfoldable pub cleanup_all : Environment → Externals → List DocumentCleanupTarget → Externals
unfolding cleanup_document_externals
cleanup_all env ext [] = ext
cleanup_all env ext (target ∷ rest) =
    cleanup_all env (cleanup_document_externals env ext target) rest

abbrev pub cleanup_target : DocumentRecord → DocumentCleanupTarget
cleanup_target d = record {
  document_id = d.id;
  user_id = d.user_id;
  filename = d.filename;
  storage_path = d.storage_path;
}

abbrev pub of_session : ℕ → DocumentRecord → Bool
of_session session_id d = is_ref d.session_id session_id

abbrev pub targets : Db → ℕ → List DocumentCleanupTarget
targets db session_id = map cleanup_target (select (of_session session_id) db.documents)

-- The statements between `try` and `commit`, for an answer of the analytics tables.
abbrev pub delete_rows_with : Bool → Db → ChatSession → ℕ → Db
delete_rows_with analytics_ok db session session_id =
    let detached = detach_analytics_session analytics_ok db session_id in
    record detached {
      messages = delete_where (λ m. is_ref m.session_id session_id) detached.messages;
      summaries = delete_where (λ s. is_ref s.session_id session_id) detached.summaries;
      documents = delete_where (of_session session_id) detached.documents;
      sessions = delete_where (λ s. s.id == session.id) detached.sessions;
    }

unfoldable pub delete_rows : Environment → Db → ChatSession → ℕ → Db
unfolding detach_analytics_session
delete_rows env = delete_rows_with env.analytics_ok

pub record State : Type 0 where
  pub db : Db
  pub ext : Externals

abbrev pub delete_found : Environment → State → ℕ → Option ChatSession → DeleteSessionResult × State
delete_found env state session_id none = (not_found, state)
delete_found env state session_id (some session) =
    if env.commit_ok
    then (
      deleted,
      record {
        db = delete_rows env state.db session session_id;
        ext = cleanup_all env state.ext (targets state.db session_id);
      },
    )
    else (failed, state)

unfoldable pub delete_chat_session : Environment → State → ℕ → ℕ → DeleteSessionResult × State
unfolding delete_rows cleanup_all
delete_chat_session env state user_id session_id =
    delete_found env state session_id
      (find_first (λ s. s.id == session_id && s.user_id == user_id) state.db.sessions)
