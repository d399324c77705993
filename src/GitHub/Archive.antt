-- ===== src/GitHub/Archive.antt =====
-- _index_repo_from_tarball and _index_github_file: the files of an archive as documents.
pub mod Keeping
pub mod Counts
pub mod Owned
use Prim.Native.String.{◌++◌ as concat}
use omni_ai_v.Ingestion.Queue.{Dispatched, dispatched, raised}
use omni_ai_v.Ingestion.Queue
use omni_ai_v.Prelude.{
  ℕ, ◌+◌, ◌-◌, String, Bool, true, false, ◌&&◌, not, Option, none, some, List, [], ◌∷◌, ◌++◌,
  if◌then◌else◌, ◌==◌, nat_comparable, text_comparable, leb, ltb, length, select, is_empty, is_some,
  strip, decimal, drop_text, text_length,
}
use omni_ai_v.Rows.{find_first, update_where}
use omni_ai_v.Ingestion.{IndexedDocument}
use omni_ai_v.Ingestion.Queue.{State, Broker, dispatch_documents_ingestion}
use omni_ai_v.Uploads.Names.{basename}
use omni_ai_v.GitHub.{Db, Result, ok, error}
use omni_ai_v.GitHub.Paths.{
  Content, text, no_stream, unreadable, Member, tarball_root_prefix, tarball_relative_path,
  skip_filenames, indexable_extensions, member_of, should_skip_repo_path, indexed_extension,
  flattened,
}

-- `str.lower`, the directory of staged files, the exception of a write to a path, RQ, the clock, and
-- the address at which GitHub's permission is revoked.
pub record Environment : Type 0 where
  pub lower : String → String
  pub upload_staging_root : String
  pub write_error : String → Option String
  pub broker : Broker
  pub now : ℕ
  pub revoke_url : String

-- Whose repository is indexed, and for which collection.
pub record Target : Type 0 where
  pub user_id : ℕ
  pub collection_id : ℕ
  pub workspace_id : String
  pub session_id : Option ℕ
  pub repo_full_name : String

pub record Stats : Type 0 where
  pub files_indexed : ℕ
  pub skipped_files : ℕ
  pub skipped_ignored_path : ℕ
  pub skipped_extension : ℕ
  pub skipped_too_large : ℕ
  pub candidates_seen : ℕ
  pub tarball_members : ℕ
  pub tarball_files : ℕ
  pub truncated : ℕ
  pub first_error : Option String

pub record Work : Type 0 where
  pub stats : Stats
  pub pending : List ℕ
  pub db : Db

abbrev pub max_indexable_file_bytes : ℕ
max_indexable_file_bytes = 512000

abbrev pub max_files_per_sync : ℕ
max_files_per_sync = 500

abbrev slash : String → String → String
slash a b = concat a (concat "/" b)

unfoldable pub filename_of : Target → String → String
unfolding flattened
filename_of t path = flattened (slash t.repo_full_name path)

unfoldable pub storage_path_of : Environment → Target → String → String
unfolding decimal flattened
storage_path_of env t filename =
    let staging_dir =
      slash env.upload_staging_root
        (slash "github" (slash (decimal t.user_id) (flattened t.repo_full_name))) in
    let path = slash staging_dir filename in
    if ltb 240 (text_length path)
    then slash staging_dir (drop_text (text_length filename - 200) filename)
    else path

abbrev pub is_file_of : Target → String → IndexedDocument → Bool
is_file_of t filename d =
    d.user_id == t.user_id && d.collection_id == t.collection_id && d.filename == filename

abbrev pub renewed : String → IndexedDocument → IndexedDocument
renewed storage_path d = record d {
  storage_path = storage_path;
  indexing_stage = "queued";
  indexing_error = none;
}

abbrev pub new_document : Environment → Target → ℕ → String → String → IndexedDocument
new_document env t id filename storage_path = record {
  id = id;
  user_id = t.user_id;
  workspace_id = t.workspace_id;
  collection_id = t.collection_id;
  session_id = t.session_id;
  filename = filename;
  storage_path = storage_path;
  chunks_created = 0;
  embeddings_completed = 0;
  indexing_stage = "queued";
  indexing_error = none;
  indexing_started_at = none;
  indexing_job_id = none;
  created_at = env.now;
}

abbrev pub with_documents : Db → List IndexedDocument → Db
with_documents db documents = record db {
  ingestion = record db.ingestion { documents = documents };
}

-- After the file has been written.
abbrev pub record_file :
    Environment → Target → String → String → Db → Option IndexedDocument → ℕ × Db
record_file env t filename path db (some d) = (
  d.id,
  with_documents db (update_where (λ x. x.id == d.id) (renewed path) db.ingestion.documents),
)
record_file env t filename path db none = (
  db.next_document,
  record (with_documents db
      (db.ingestion.documents ++ new_document env t db.next_document filename path ∷ [])) {
        next_document = db.next_document + 1;
      },
)

abbrev pub written :
    Environment → Target → String → String → String → Db → Option String → Result ℕ × Db
written env t filename path content db (some e) = (error e, db)
written env t filename path content db none =
    let staged = record db { staged = (path, content) ∷ db.staged } in
    let (id, after) =
      record_file env t filename path staged
        (find_first (is_file_of t filename) db.ingestion.documents) in
    (ok id, after)

unfoldable pub index_github_file : Environment → Target → String → String → Db → Result ℕ × Db
unfolding filename_of storage_path_of find_first update_where
index_github_file env t path content db =
    let filename = filename_of t path in
    let storage_path = storage_path_of env t filename in
    written env t filename storage_path content db (env.write_error storage_path)

pub data Verdict : Type 0 where
  ignored_path skipped_file other_extension too_large eligible : Verdict

-- The tests of the loop up to the limit of files.
unfoldable pub judge : (String → String) → String → ℕ → Verdict
unfolding should_skip_repo_path indexed_extension basename
judge lower path size =
    if should_skip_repo_path path
    then ignored_path
    else if member_of skip_filenames (lower (basename path))
    then skipped_file
    else if not (member_of indexable_extensions (indexed_extension lower path))
    then other_extension
    else if ltb max_indexable_file_bytes size
    then too_large
    else eligible

abbrev pub with_stats : (Stats → Stats) → Work → Work
with_stats f w = record w { stats = f w.stats }

abbrev pub skipped : Stats → Stats
skipped s = record s { skipped_files = s.skipped_files + 1 }

abbrev pub failed : String → String → Stats → Stats
failed path e s = record s {
  skipped_files = s.skipped_files + 1;
  first_error = if is_some s.first_error then s.first_error else some (concat path (concat ": " e));
}

abbrev pub indexed : String → Work → Result ℕ × Db → Work
indexed path w (ok id, db) = record w {
  stats = record w.stats { files_indexed = w.stats.files_indexed + 1 };
  pending = w.pending ++ id ∷ [];
  db = db;
}
indexed path w (error e, db) = record w { stats = failed path e w.stats; db = db }

unfoldable pub extract : Environment → Target → String → Content → Work → Work
unfolding index_github_file strip
extract env t path no_stream w = with_stats skipped w
extract env t path (unreadable e) w = with_stats (failed path e) w
extract env t path (text content) w =
    if is_empty (strip content)
    then w
    else indexed path w (index_github_file env t path content w.db)

-- Whether the loop stops, and the work after the member.
abbrev pub decided : Environment → Target → String → Content → Work → Verdict → Bool × Work
decided env t path content w ignored_path =
    (false, with_stats (λ s. record s { skipped_ignored_path = s.skipped_ignored_path + 1 }) w)
decided env t path content w skipped_file = (false, with_stats skipped w)
decided env t path content w other_extension =
    (false, with_stats (λ s. record s { skipped_extension = s.skipped_extension + 1 }) w)
decided env t path content w too_large =
    (false, with_stats (λ s. record s { skipped_too_large = s.skipped_too_large + 1 }) w)
decided env t path content w eligible =
    if leb max_files_per_sync w.stats.files_indexed
    then (true, with_stats (λ s. record s { truncated = 1 }) w)
    else (false, extract env t path content w)

abbrev pub seen : Stats → Stats
seen s = record s { candidates_seen = s.candidates_seen + 1 }

unfoldable pub visit : Environment → Target → String → Member → Work → Bool × Work
unfolding tarball_relative_path judge extract
visit env t root_prefix m w =
    let path = tarball_relative_path m.name root_prefix in
    if is_empty path
    then (false, w)
    else decided env t path m.content (with_stats seen w) (judge env.lower path m.size)

unfoldable pub index_members : Environment → Target → String → List Member → Work → Work
unfolding visit
index_members env t root_prefix [] w = w
index_members env t root_prefix (m ∷ members) w =
    let (stop, after) = visit env t root_prefix m w in
    let rest = index_members env t root_prefix members after in if stop then after else rest

abbrev pub new_stats : List Member → Stats
new_stats members = record {
  files_indexed = 0;
  skipped_files = 0;
  skipped_ignored_path = 0;
  skipped_extension = 0;
  skipped_too_large = 0;
  candidates_seen = 0;
  tarball_members = length members;
  tarball_files = length (select (λ m. m.is_file) members);
  truncated = 0;
  first_error = none;
}

abbrev pub with_queue : Db → Dispatched × Queue.State → Option String × Db
with_queue db (dispatched route n, queue) = (none, record db { ingestion = queue })
with_queue db (raised e, queue) = (some e, record db { ingestion = queue })

-- The exception of the queue, if it raises one, and the tables.
abbrev pub dispatch_github_ingestion : Environment → List ℕ → Db → Option String × Db
dispatch_github_ingestion env [] db = (none, db)
dispatch_github_ingestion env (id ∷ ids) db =
    with_queue db (dispatch_documents_ingestion env.broker (id ∷ ids) db.ingestion)

-- The loop over the files of an archive.
unfoldable pub index_files : Environment → Target → List Member → Db → Work
unfolding tarball_root_prefix index_members
index_files env t members db =
    index_members env t (tarball_root_prefix members) (select (λ m. m.is_file) members)
      (record { stats = new_stats members; pending = []; db = db })

abbrev pub after_dispatch : Stats → Option String × Db → Result Stats × Db
after_dispatch stats (none, db) = (ok stats, db)
after_dispatch stats (some e, db) = (error e, db)

-- From the members of the archive on.
unfoldable pub index_repo_from_tarball : Environment → Target → List Member → Db → Result Stats × Db
unfolding index_files dispatch_documents_ingestion
index_repo_from_tarball env t members db =
    let work = index_files env t members db in
    if (new_stats members).tarball_files == 0
    then (
      error (
          concat "GitHub archive for " (
            concat t.repo_full_name (
              concat " contained no files. Revoke Omni-AI at "
                (concat env.revoke_url ", reconnect, and sync again.")))),
      db,
    )
    else after_dispatch work.stats (dispatch_github_ingestion env work.pending work.db)
