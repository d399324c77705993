-- ===== src/GitHub/Tests.antt =====
-- A repository on small archives.
use omni_ai_v.Prelude.{
  ℕ, ◌≡◌, refl, String, true, false, none, some, List, [], ◌∷◌, arith, any, select, ◌==◌,
  nat_comparable, All, map,
}
use omni_ai_v.Ingestion.{IndexedDocument}
use omni_ai_v.Ingestion.Queue.{Broker, connected}
use omni_ai_v.GitHub.{Db, get_connection, ok}
use omni_ai_v.GitHub.Account.{
  Provider, Grants, connect_github_account_from_token, connect_github_account_from_token-Grants,
}
use omni_ai_v.GitHub.Paths.{text, Member}
use omni_ai_v.GitHub.Archive.{Environment, Target, index_files}
use omni_ai_v.GitHub.Archive.Owned.{is_outside, is_waiting, index_files-Filed}
use omni_ai_v.GitHub.Download.{answered, opened, response, Remote}
use omni_ai_v.GitHub.Sync.{Request, failed, sync_repository}
use omni_ai_v.GitHub.Sync.Settled.{sync_repository-Agrees}
use omni_ai_v.GitHub.Sync.Attempts.{Agrees}

abbrev broker : Broker
broker = record {
  worker_count = connected 1;
  now = 900;
  max_retries = 3;
  job_id = λ i index. "job";
  exhausted_message = λ e. e;
  enqueue_error = λ index i. none;
}

-- The names have no capitals, and the disk takes every file.
abbrev env : Environment
env = record {
  lower = λ s. s;
  upload_staging_root = "/s";
  write_error = λ path. none;
  broker = broker;
  now = 900;
  revoke_url = "u";
}

abbrev file : String → String → Member
file name content = record { name = name; is_file = true; size = 9; content = text content }

abbrev members : List Member
members = file "r/a.py" "x" ∷ file "r/bin/b.py" "y" ∷ file "r/c.png" "z" ∷ file "r/d.md" " " ∷ []

abbrev other : IndexedDocument
other = record {
  id = 1;
  user_id = 8;
  workspace_id = "default";
  collection_id = 3;
  session_id = none;
  filename = "a";
  storage_path = "/a";
  chunks_created = 2;
  embeddings_completed = 2;
  indexing_stage = "ready";
  indexing_error = none;
  indexing_started_at = some 5;
  indexing_job_id = none;
  created_at = 4;
}

abbrev db : Db
db = record {
  connections =
      record {
        id = 1;
        user_id = 7;
        github_user_id = "70";
        github_login = "ada";
        access_token = "t";
        scopes = some "repo";
      }
      ∷ [];
  syncs = [];
  collections = [];
  ingestion = record {
    documents = other ∷ [];
    queue = [];
    dead_letters = [];
    threads = [];
    recovery_started = [];
  };
  staged = [];
  next_connection = 2;
  next_sync = 1;
  next_collection = 4;
  next_document = 2;
}

abbrev target : Target
target = record {
  user_id = 7;
  collection_id = 4;
  workspace_id = "default";
  session_id = none;
  repo_full_name = "o/r";
}

abbrev second : ℕ
second = 2

abbrev request : Request
request = record {
  user_id = 7;
  repo_full_name = "o/r";
  workspace_id = "default";
  session_id = none;
}

abbrev remote : List Member → Remote
remote found = record {
  default_branch = answered none;
  commit_sha = λ branch. answered "c1";
  tarball = λ branch with_token. response (record {
    status_code = 200;
    location = none;
    body = record { is_gzip = true; size = 99; preview = ""; archive = opened found };
  });
  follow = λ url. response (record {
    status_code = 404;
    location = none;
    body = record { is_gzip = false; size = 0; preview = ""; archive = opened [] };
  });
}

indexed_one :
    map (λ d. d.filename) (index_files env target members db).db.ingestion.documents
    ≡ "a" ∷ "o__r__a.py" ∷ []
unfolding index_files
indexed_one = refl

-- An archive without an eligible file is reported as one whose documents could not be written.
misreported :
    (sync_repository env (remote (file "r/c.png" "z" ∷ [])) request db).0
    ≡ failed "Found 1 source files in o/r but indexed 0. document writes failed on the server"
unfolding sync_repository
misreported = refl

index_files-Filed_example :
    (select (is_outside target) (index_files env target members db).db.ingestion.documents
      ≡ select (is_outside target) db.ingestion.documents)
    × All
        (λ i.
          any (is_waiting target i) (index_files env target members db).db.ingestion.documents
          ≡ true)
        (index_files env target members db).pending
index_files-Filed_example =
    index_files-Filed env target (λ i. i == 1) members db (refl, tt) (λ i h. ground arith)

sync_repository-Agrees_example : Agrees request (sync_repository env (remote members) request db)
unfolding get_connection
sync_repository-Agrees_example = sync_repository-Agrees env (remote members) request db refl

abbrev provider : Provider
provider = record {
  lower = λ s. s;
  user = λ token. ok (record { github_user_id = "70"; github_login = "ada" });
  token_scopes = λ token. ok "read:user, repo";
  revoke_url = "u";
}

connect_github_account_from_token-Grants_example :
    Grants provider 7 "t2" (connect_github_account_from_token provider db 7 "t2" none) db
connect_github_account_from_token-Grants_example =
    connect_github_account_from_token-Grants provider db 7 "t2" none
