-- ===== src/GitHub/Sync.antt =====
-- sync_repository and run_github_sync_job.
pub mod Attempts
pub mod Settled
use Prim.Native.String.{◌++◌ as concat}
use omni_ai_v.Prelude.{
  ℕ, ◌+◌, String, Bool, true, false, ◌&&◌, Option, none, some, List, [], ◌∷◌, ◌++◌, if◌then◌else◌,
  ◌==◌, nat_comparable, text_comparable, ltb, is_empty, strip, decimal, take_text,
}
use omni_ai_v.Workspace.{DocumentCollection}
use omni_ai_v.GitHub.{
  Db, GitHubConnection, GitHubRepositorySync, Result, ok, error, get_connection, get_sync,
  write_sync, mark_sync_failed, github_http_error_message, ensure_collection,
}
use omni_ai_v.GitHub.Paths.{Member}
use omni_ai_v.GitHub.Archive.{Environment, Target, Stats, index_repo_from_tarball}
use omni_ai_v.GitHub.Download.{Answer, answered, http_status, raised, Remote, download_repo_tarball}

-- The dictionaries that are returned, and the ValueError.
pub data Outcome : Type 0 where
  complete : (commit_sha : String) → Stats → Outcome
  unchanged : (commit_sha : String) (files_indexed : ℕ) → Outcome
  failed : String → Outcome

unfoldable pub ensure_sync_indexed_files : String → String → Stats → Option String
unfolding decimal
ensure_sync_indexed_files revoke_url repo s =
    if ltb 0 s.files_indexed
    then none
    else if ltb 0 s.candidates_seen
    then some (
        concat "Found " (
          concat (decimal s.candidates_seen) (
            concat " source files in "
              (concat repo (concat " but indexed 0. " (detail s.first_error))))))
    else if ltb 0 s.tarball_files
    then some (
        concat "GitHub archive for " (
          concat repo (
            concat " had "
              (concat (decimal s.tarball_files) " files but none were eligible to index."))))
    else some (
        concat "GitHub returned no indexable files for " (
          concat repo
            (concat ". Revoke Omni-AI at " (concat revoke_url ", reconnect, and sync again."))))
  where
    detail : Option String → String
    detail none = "document writes failed on the server"
    detail (some e) = if is_empty e then "document writes failed on the server" else e

-- What a `try` body leaves: the variable `sync`, the tables, and the value or the exception.
pub record Attempt : Type 0 where
  pub sync : Option GitHubRepositorySync
  pub db : Db
  pub answer : Answer Outcome

abbrev pub started : ℕ → GitHubRepositorySync → GitHubRepositorySync
started collection_id s = record s {
  sync_status = "running";
  collection_id = collection_id;
  error = none;
}

abbrev pub new_sync : ℕ → ℕ → String → String → ℕ → GitHubRepositorySync
new_sync id user_id repo workspace_id collection_id = record {
  id = id;
  user_id = user_id;
  repo_full_name = repo;
  workspace_id = workspace_id;
  collection_id = collection_id;
  last_commit_sha = none;
  sync_status = "running";
  files_indexed = 0;
  error = none;
}

-- The row of the synchronisation that is committed before the archive is read.
abbrev pub start_sync :
    Db → ℕ → String → String → ℕ → Option GitHubRepositorySync → GitHubRepositorySync × Db
start_sync db user_id repo workspace_id collection_id (some s) =
    (started collection_id s, write_sync s.id (started collection_id) db)
start_sync db user_id repo workspace_id collection_id none =
    let s = new_sync db.next_sync user_id repo workspace_id collection_id in
    (s, record db { syncs = db.syncs ++ s ∷ []; next_sync = db.next_sync + 1 })

abbrev pub completed : String → Stats → GitHubRepositorySync → GitHubRepositorySync
completed sha stats s = record s {
  last_commit_sha = some sha;
  sync_status = "complete";
  files_indexed = stats.files_indexed;
  error = none;
}

-- After the archive has been indexed.
abbrev pub conclude : GitHubRepositorySync → String → Stats → Db → Option String → Attempt
conclude s sha stats db (some e) = record { sync = some s; db = db; answer = raised e }
conclude s sha stats db none = record {
  sync = some s;
  db = write_sync s.id (completed sha stats) db;
  answer = answered (complete sha stats);
}

abbrev pub after_index :
    Environment → GitHubRepositorySync → String → String → Result Stats × Db → Attempt
after_index env s repo sha (error e, db) = record { sync = some s; db = db; answer = raised e }
after_index env s repo sha (ok stats, db) =
    conclude s sha stats db (ensure_sync_indexed_files env.revoke_url repo stats)

abbrev pub index_archive :
    Environment → Target → GitHubRepositorySync → String → Db → Answer (List Member) → Attempt
index_archive env t s sha db (http_status n) = record {
  sync = some s;
  db = db;
  answer = http_status n;
}
index_archive env t s sha db (raised e) = record { sync = some s; db = db; answer = raised e }
index_archive env t s sha db (answered members) =
    after_index env s t.repo_full_name sha (index_repo_from_tarball env t members db)

-- The arguments of `sync_repository`.
pub record Request : Type 0 where
  pub user_id : ℕ
  pub repo_full_name : String
  pub workspace_id : String
  pub session_id : Option ℕ

abbrev pub target_of : Request → ℕ → Target
target_of r collection_id = record {
  user_id = r.user_id;
  collection_id = collection_id;
  workspace_id = r.workspace_id;
  session_id = r.session_id;
  repo_full_name = r.repo_full_name;
}

-- From the collection on.
unfoldable pub index_commit :
    Environment → Remote → Request → String → String → Option GitHubRepositorySync → Db → Attempt
unfolding ensure_collection write_sync download_repo_tarball index_repo_from_tarball
    ensure_sync_indexed_files
index_commit env remote r branch sha sync db =
    let (collection, filed) = ensure_collection db r.user_id r.workspace_id in
    let (s, begun) =
      start_sync filed r.user_id r.repo_full_name r.workspace_id collection.id sync in
    index_archive env (target_of r collection.id) s sha begun
      (download_repo_tarball remote r.repo_full_name branch)

abbrev pub is_current : String → Option GitHubRepositorySync → Bool
is_current sha none = false
is_current sha (some s) =
    is_sha s.last_commit_sha && s.sync_status == "complete" && ltb 0 s.files_indexed
  where
    is_sha : Option String → Bool
    is_sha none = false
    is_sha (some last) = last == sha

abbrev pub files_of : Option GitHubRepositorySync → ℕ
files_of none = 0
files_of (some s) = s.files_indexed

abbrev pub with_commit :
    Environment
    → Remote
    → Request
    → String
    → Option GitHubRepositorySync
    → Db
    → Answer String
    → Attempt
with_commit env remote r branch sync db (http_status n) = record {
  sync = sync;
  db = db;
  answer = http_status n;
}
with_commit env remote r branch sync db (raised e) = record {
  sync = sync;
  db = db;
  answer = raised e;
}
with_commit env remote r branch sync db (answered sha) =
    if is_current sha sync
    then record { sync = sync; db = db; answer = answered (unchanged sha (files_of sync)) }
    else index_commit env remote r branch sha sync db

abbrev pub or_main : Option String → String
or_main none = "main"
or_main (some branch) = branch

abbrev pub with_repository :
    Environment
    → Remote
    → Request
    → Option GitHubRepositorySync
    → Db
    → Answer (Option String)
    → Attempt
with_repository env remote r sync db (http_status n) = record {
  sync = sync;
  db = db;
  answer = http_status n;
}
with_repository env remote r sync db (raised e) = record { sync = sync; db = db; answer = raised e }
with_repository env remote r sync db (answered branch) =
    with_commit env remote r (or_main branch) sync db (remote.commit_sha (or_main branch))

abbrev or_default : String → String
or_default message = if is_empty (strip message) then "GitHub sync failed." else strip message

-- The two `except` clauses.
abbrev pub settle : String → Option GitHubRepositorySync → Db → Answer Outcome → Outcome × Db
settle repo sync db (answered outcome) = (outcome, db)
settle repo sync db (http_status n) =
    let message = github_http_error_message n repo in
    (failed message, mark_sync_failed db sync message)
settle repo sync db (raised e) = (failed (or_default e), mark_sync_failed db sync (or_default e))

unfoldable pub settled : String → Attempt → Outcome × Db
unfolding mark_sync_failed github_http_error_message strip
settled repo a = settle repo a.sync a.db a.answer

abbrev pub connected : Environment → Remote → Request → Db → Option GitHubConnection → Outcome × Db
connected env remote r db none =
    (failed "GitHub is not connected. Authorize the connector first.", db)
connected env remote r db (some c) =
    settled r.repo_full_name (
      with_repository env remote r (get_sync db r.user_id r.repo_full_name) db
        remote.default_branch)

unfoldable pub sync_repository : Environment → Remote → Request → Db → Outcome × Db
unfolding get_connection get_sync index_commit settled
sync_repository env remote r db = connected env remote r db (get_connection db r.user_id)

abbrev pub mark_running : Db → String → Option GitHubRepositorySync → Db
mark_running db message none = db
mark_running db message (some s) =
    if s.sync_status == "running"
    then mark_sync_failed db (some s)
        (if is_empty (take_text 500 message) then "GitHub sync failed." else take_text 500 message)
    else db

abbrev pub after_job : Request → Outcome × Db → Db
after_job r (failed message, db) = mark_running db message (get_sync db r.user_id r.repo_full_name)
after_job r (complete sha stats, db) = db
after_job r (unchanged sha n, db) = db

-- In the background, where the user's row is there or is not.
unfoldable pub run_github_sync_job : Environment → Remote → Bool → ℕ → String → String → Db → Db
unfolding sync_repository mark_sync_failed get_sync
run_github_sync_job env remote user_exists user_id repo workspace_id db =
    let r : Request = record {
      user_id = user_id;
      repo_full_name = repo;
      workspace_id = workspace_id;
      session_id = none;
    } in
    if user_exists then after_job r (sync_repository env remote r db) else db
