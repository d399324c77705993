-- ===== src/Workspace.antt =====
-- The rows of the workspace and what a service call returns: backend/app/models/chat_folder.py,
-- chat_session.py, document.py, message.py, conversation_summary.py and analytics.py. Time stamps
-- and the columns that no modelled service reads are left out. A `Db` is the committed state:
-- what a call changed and did not commit is dropped with its session, so a call that raises
-- returns the state that it committed last.
pub mod Folders
pub mod Collections
pub mod Sessions
mod Tests
use omni_ai_v.Prelude.{ℕ, String, Bool, true, false, Option, none, some, List, ◌==◌, nat_comparable}

pub record ChatFolder : Type 0 where
  pub id : ℕ
  pub user_id : ℕ
  pub workspace_id : String
  pub name : String

pub record ChatSession : Type 0 where
  pub id : ℕ
  pub user_id : ℕ
  pub workspace_id : String
  pub title : String
  pub is_pinned : Bool
  pub folder_id : Option ℕ

pub record DocumentCollection : Type 0 where
  pub id : ℕ
  pub user_id : ℕ
  pub workspace_id : String
  pub name : String

pub record DocumentRecord : Type 0 where
  pub id : ℕ
  pub user_id : ℕ
  pub collection_id : ℕ
  pub session_id : Option ℕ
  pub filename : String
  pub storage_path : String

pub record Message : Type 0 where
  pub id : ℕ
  pub session_id : Option ℕ
  pub content : String

pub record ConversationSummary : Type 0 where
  pub id : ℕ
  pub session_id : Option ℕ

-- A row of `token_usage` or of `model_usage`.
pub record Usage : Type 0 where
  pub id : ℕ
  pub session_id : Option ℕ

-- The tables, and the next primary key of those that the services insert into.
pub record Db : Type 0 where
  pub folders : List ChatFolder
  pub next_folder : ℕ
  pub sessions : List ChatSession
  pub collections : List DocumentCollection
  pub next_collection : ℕ
  pub documents : List DocumentRecord
  pub messages : List Message
  pub summaries : List ConversationSummary
  pub token_usage : List Usage
  pub model_usage : List Usage

-- What a service returns: a value, a `ValueError`, or the `IntegrityError` of a constraint.
pub data Result {ℓ} (A : Type ℓ) : Type ℓ where
  ok : A → Result A
  value_error : String → Result A
  integrity_error : Result A

-- `column == value` on a nullable column: NULL equals nothing.
abbrev pub is_ref : Option ℕ → ℕ → Bool
is_ref none i = false
is_ref (some j) i = j == i
