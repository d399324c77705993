-- ===== src/Connectors.antt =====
-- Connections to outside services and their synchronisation:
-- backend/app/connectors/sync_engine.py, backend/app/connectors/registry.py and
-- backend/app/connectors/base.py over the tables of backend/app/models/connector_hub.py. What a
-- connector's `sync` answers is an argument, and so is the encrypted text of the credentials.
pub mod Runs
pub mod Ownership
mod Tests
use Prim.Native.String.{◌++◌ as concat}
use omni_ai_v.Prelude.{
  ℕ, ◌+◌, String, Bool, true, false, ◌&&◌, Option, none, some, List, [], ◌∷◌, ◌++◌, map, any,
  select, if◌then◌else◌, ◌==◌, nat_comparable, text_comparable, is_empty, take_text,
}
use omni_ai_v.Rows.{find_first, update_where, delete_where}

pub record ConnectorConnection : Type 0 where
  pub id : ℕ
  pub user_id : ℕ
  pub connector_type : String
  pub display_name : Option String
  pub credentials_encrypted : String
  pub status : String
  pub last_sync_at : Option ℕ
  pub document_count : ℕ

pub data RunStatus : Type 0 where
  running complete failed : RunStatus

pub record ConnectorSyncRun : Type 0 where
  pub id : ℕ
  pub connection_id : ℕ
  pub user_id : ℕ
  pub status : RunStatus
  pub files_synced : ℕ
  pub error_message : Option String

pub record Db : Type 0 where
  pub connections : List ConnectorConnection
  pub runs : List ConnectorSyncRun
  pub next_run : ℕ

-- The dictionary that a connector's `sync` returns, where it has these keys, or its exception. After
-- `unsaved`, the exception of a write to the database, the session takes no further commit.
pub data Synced : Type 0 where
  answered : Option ℕ → Option ℕ → Option ℕ → Synced
  raised : String → Synced
  unsaved : String → Synced

-- A result, or an exception with its message.
pub data Result {ℓ} (A : Type ℓ) : Type ℓ where
  ok : A → Result A
  error : String → Result A

unfoldable pub connector_types : List String
connector_types = "github" ∷ "notion" ∷ "confluence" ∷ "google_drive" ∷ "dropbox" ∷ []

abbrev pub is_known : String → Bool
is_known connector_type = any (λ t. t == connector_type) connector_types

abbrev pub unknown : String → String
unknown connector_type = concat "Unknown connector type: " connector_type

abbrev pub is_connection : ℕ → String → ConnectorConnection → Bool
is_connection user_id connector_type c = c.user_id == user_id && c.connector_type == connector_type

unfoldable pub get_connection : Db → ℕ → String → Option ConnectorConnection
unfolding find_first
get_connection db user_id connector_type =
    find_first (is_connection user_id connector_type) db.connections

abbrev pub disconnect_found : Db → String → Option ConnectorConnection → Result Bool × Db
disconnect_found db connector_type none = (ok false, db)
disconnect_found db connector_type (some c) =
    if is_known connector_type
    then (ok true, record db { connections = delete_where (λ x. x.id == c.id) db.connections })
    else (error (unknown connector_type), db)

unfoldable pub disconnect_connector : Db → ℕ → String → Result Bool × Db
unfolding get_connection connector_types delete_where
disconnect_connector db user_id connector_type =
    disconnect_found db connector_type (get_connection db user_id connector_type)

-- `x or y or 0`, for the numbers that the dictionary may have.
abbrev pub or_zero : Option ℕ → ℕ → ℕ
or_zero none y = y
or_zero (some n) y = if n == 0 then y else n

abbrev pub new_run : Db → ConnectorConnection → ℕ → ConnectorSyncRun
new_run db c user_id = record {
  id = db.next_run;
  connection_id = c.id;
  user_id = user_id;
  status = running;
  files_synced = 0;
  error_message = none;
}

abbrev pub completed : ℕ → ConnectorSyncRun → ConnectorSyncRun
completed files run = record run { status = complete; files_synced = files }

abbrev pub failed_with : String → ConnectorSyncRun → ConnectorSyncRun
failed_with message run = record run {
  status = failed;
  error_message = some (take_text 2000 message);
}

abbrev pub synced_now : ℕ → Option ℕ → ConnectorConnection → ConnectorConnection
synced_now now documents c = record c {
  last_sync_at = some now;
  document_count = or_zero documents c.document_count;
}

abbrev pub on_run : ℕ → ConnectorSyncRun → Bool
on_run id run = run.id == id

-- The `try` and the `except`, after the row of the run has been committed under `id`.
unfoldable pub run_outcome : ℕ → ℕ → ConnectorConnection → Synced → Db → Result ℕ × Db
unfolding update_where
run_outcome now id c (answered files_synced files_indexed documents) db = (
  ok id,
  record db {
    runs =
        update_where (on_run id) (completed (or_zero files_synced (or_zero files_indexed 0)))
          db.runs;
    connections = update_where (λ x. x.id == c.id) (synced_now now documents) db.connections;
  },
)
run_outcome now id c (raised message) db =
    (error message, record db { runs = update_where (on_run id) (failed_with message) db.runs })
run_outcome now id c (unsaved message) db = (error message, db)

abbrev pub answer_of : String → Synced → Synced
answer_of connector_type answer =
    if is_known connector_type then answer else raised (unknown connector_type)

abbrev pub sync_found : ℕ → ℕ → String → Synced → Db → Option ConnectorConnection → Result ℕ × Db
sync_found now user_id connector_type answer db none =
    (error (concat connector_type " is not connected."), db)
sync_found now user_id connector_type answer db (some c) =
    run_outcome now db.next_run c (answer_of connector_type answer)
      (record db { runs = db.runs ++ new_run db c user_id ∷ []; next_run = db.next_run + 1 })

-- The key of the run, and the tables.
unfoldable pub sync_connector : ℕ → ℕ → String → Synced → Db → Result ℕ × Db
unfolding get_connection connector_types run_outcome
sync_connector now user_id connector_type answer db =
    sync_found now user_id connector_type answer db (get_connection db user_id connector_type)

-- One entry of `get_connection_status`: the type, whether it is connected, its number of documents
-- and its status.
pub record ConnectionStatus : Type 0 where
  pub id : String
  pub connected : Bool
  pub document_count : ℕ
  pub status : String

abbrev status_of : String → Option ConnectorConnection → ConnectionStatus
status_of id none = record {
  id = id;
  connected = false;
  document_count = 0;
  status = "disconnected";
}
status_of id (some c) = record {
  id = id;
  connected = true;
  document_count = c.document_count;
  status = c.status;
}

-- A user has one connection of each type at most, so the dictionary by type is a lookup.
unfoldable pub get_connection_status : Db → ℕ → List ConnectionStatus
unfolding get_connection connector_types
get_connection_status db user_id =
    map (λ t. status_of t (get_connection db user_id t)) connector_types
