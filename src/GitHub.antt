-- ===== src/GitHub.antt =====
-- backend/app/services/github_connector_service.py over the tables of
-- backend/app/models/github_connector.py. What GitHub and the disk answer is a `Remote`; the OAuth
-- exchange, the URLs and the time of the last synchronisation are left out, and the database is
-- taken to accept what it is given.
pub mod Account
pub mod Paths
pub mod Archive
pub mod Download
pub mod Sync
mod Tests
use Prim.Native.String.{◌++◌ as concat}
use omni_ai_v.Prelude.{
  ℕ, ◌+◌, String, Bool, true, false, ◌&&◌, not, Option, none, some, List, [], ◌∷◌, ◌++◌,
  if◌then◌else◌, ◌==◌, nat_comparable, text_comparable, is_empty, take_text, strip, decimal,
}
use omni_ai_v.Rows.{find_first, update_where, delete_where}
use omni_ai_v.Workspace.{DocumentCollection}
use omni_ai_v.Ingestion.Queue.{State}

pub record GitHubConnection : Type 0 where
  pub id : ℕ
  pub user_id : ℕ
  pub github_user_id : String
  pub github_login : String
  pub access_token : String
  pub scopes : Option String

-- The column `metadata` as far as it is read: the error of a failed synchronisation.
pub record GitHubRepositorySync : Type 0 where
  pub id : ℕ
  pub user_id : ℕ
  pub repo_full_name : String
  pub workspace_id : String
  pub collection_id : ℕ
  pub last_commit_sha : Option String
  pub sync_status : String
  pub files_indexed : ℕ
  pub error : Option String

-- The tables, the queues of the ingestion, and the files that were staged, the latest first.
pub record Db : Type 0 where
  pub connections : List GitHubConnection
  pub syncs : List GitHubRepositorySync
  pub collections : List DocumentCollection
  pub ingestion : State
  pub staged : List (String × String)
  pub next_connection : ℕ
  pub next_sync : ℕ
  pub next_collection : ℕ
  pub next_document : ℕ

-- A returned value or the text of an exception.
pub data Result {ℓ} (A : Type ℓ) : Type ℓ where
  ok : A → Result A
  error : String → Result A

abbrev pub belongs_to : ℕ → GitHubConnection → Bool
belongs_to user_id c = c.user_id == user_id

unfoldable pub get_connection : Db → ℕ → Option GitHubConnection
unfolding find_first
get_connection db user_id = find_first (belongs_to user_id) db.connections

pub record Profile : Type 0 where
  pub github_user_id : String
  pub github_login : String

abbrev pub with_profile : Profile → String → Option String → GitHubConnection → GitHubConnection
with_profile p access_token scopes c = record c {
  github_user_id = p.github_user_id;
  github_login = p.github_login;
  access_token = access_token;
  scopes = scopes;
}

abbrev pub save_found :
    Db → ℕ → Profile → String → Option String → Option GitHubConnection → GitHubConnection × Db
save_found db user_id p access_token scopes none =
    let c : GitHubConnection = record {
      id = db.next_connection;
      user_id = user_id;
      github_user_id = p.github_user_id;
      github_login = p.github_login;
      access_token = access_token;
      scopes = scopes;
    } in
    (
      c,
      record db {
        connections = db.connections ++ c ∷ [];
        next_connection = db.next_connection + 1;
      },
    )
save_found db user_id p access_token scopes (some c) =
    let saved = with_profile p access_token scopes c in
    (
      saved,
      record db {
        connections =
            update_where (λ x. x.id == c.id) (with_profile p access_token scopes) db.connections;
      },
    )

unfoldable pub save_connection : Db → ℕ → Profile → String → Option String → GitHubConnection × Db
unfolding get_connection update_where
save_connection db user_id p access_token scopes =
    save_found db user_id p access_token scopes (get_connection db user_id)

abbrev pub disconnect_found : Db → ℕ → Option GitHubConnection → Bool × Db
disconnect_found db user_id none = (false, db)
disconnect_found db user_id (some c) = (
  true,
  record db {
    syncs = delete_where (λ s. s.user_id == user_id) db.syncs;
    connections = delete_where (λ x. x.id == c.id) db.connections;
  },
)

unfoldable pub disconnect_github : Db → ℕ → Bool × Db
unfolding get_connection delete_where
disconnect_github db user_id = disconnect_found db user_id (get_connection db user_id)

abbrev pub is_sync_of : ℕ → String → GitHubRepositorySync → Bool
is_sync_of user_id repo_full_name s = s.user_id == user_id && s.repo_full_name == repo_full_name

unfoldable pub get_sync : Db → ℕ → String → Option GitHubRepositorySync
unfolding find_first
get_sync db user_id repo_full_name = find_first (is_sync_of user_id repo_full_name) db.syncs

-- Assignments to the fields of a row that was read.
unfoldable pub write_sync : ℕ → (GitHubRepositorySync → GitHubRepositorySync) → Db → Db
unfolding update_where
write_sync id f db = record db { syncs = update_where (λ s. s.id == id) f db.syncs }

abbrev pub failed_with : String → GitHubRepositorySync → GitHubRepositorySync
failed_with message s = record s { sync_status = "failed"; error = some (take_text 500 message) }

unfoldable pub mark_sync_failed : Db → Option GitHubRepositorySync → String → Db
unfolding write_sync
mark_sync_failed db none message = db
mark_sync_failed db (some s) message = write_sync s.id (failed_with message) db

unfoldable pub github_http_error_message : ℕ → String → String
unfolding decimal
github_http_error_message status repo =
    if status == 401
    then "GitHub authorization expired. Sign in with GitHub again or reconnect the connector."
    else if status == 403
    then concat "GitHub denied access to "
        (concat repo ". Reconnect the connector and grant repository access.")
    else if status == 404
    then concat "Repository " (concat repo " was not found or you do not have access.")
    else if status == 409
    then concat "Repository " (concat repo " is empty or has no commits on the default branch.")
    else concat "GitHub sync failed (" (concat (decimal status) "). Please try again.")

abbrev pub is_github : ℕ → String → DocumentCollection → Bool
is_github user_id workspace_id c =
    c.user_id == user_id && c.workspace_id == workspace_id && c.name == "GitHub"

abbrev pub ensure_found : Db → ℕ → String → Option DocumentCollection → DocumentCollection × Db
ensure_found db user_id workspace_id (some c) = (c, db)
ensure_found db user_id workspace_id none =
    let c : DocumentCollection = record {
      id = db.next_collection;
      user_id = user_id;
      workspace_id = workspace_id;
      name = "GitHub";
    } in
    (
      c,
      record db {
        collections = db.collections ++ c ∷ [];
        next_collection = db.next_collection + 1;
      },
    )

unfoldable pub ensure_collection : Db → ℕ → String → DocumentCollection × Db
unfolding find_first
ensure_collection db user_id workspace_id =
    ensure_found db user_id workspace_id
      (find_first (is_github user_id workspace_id) db.collections)
