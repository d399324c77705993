-- ===== src/GitHub/Sync/Settled.antt =====
-- What a synchronisation leaves behind.
use omni_ai_v.Prelude.{
  ℕ, ◌≡◌, refl, String, true, Option, none, some, List, arith, nat_comparable, text_comparable,
  eq_of_beq, beq_refl, Bool-cases, Option-cases, inl, inr, is_some,
}
use omni_ai_v.Rows.{find_first, find_first_append}
use omni_ai_v.GitHub.{
  Db, GitHubRepositorySync, Result, ok, error, get_connection, is_sync_of, get_sync,
  ensure_collection, is_github,
}
use omni_ai_v.GitHub.Paths.{Member}
use omni_ai_v.GitHub.Archive.{Environment, Stats, index_repo_from_tarball}
use omni_ai_v.GitHub.Download.{Answer, answered, http_status, raised, Remote, download_repo_tarball}
use omni_ai_v.GitHub.Sync.{
  started, new_sync, start_sync, after_index, index_archive, Request, target_of, index_commit,
  is_current, files_of, with_commit, or_main, with_repository, settled, sync_repository,
}
use omni_ai_v.GitHub.Sync.Attempts.{
  IsIndexed, Agrees, Tracks, IsAttempt, get_sync-write_sync, settle-Agrees, conclude-IsAttempt,
  index_repo-syncs,
}

Tracks-same :
    (r : Request) (s : GitHubRepositorySync) (db after : Db)
    → after.syncs ≡ db.syncs
    → Tracks r (some s) db
    → Tracks r (some s) after
unfolding get_sync
Tracks-same r s db after e (x, found, own) = (x, rw e found, own)

after_index-IsAttempt :
    (env : Environment) (r : Request) (s : GitHubRepositorySync) (sha : String)
    (x : Result Stats × Db)
    → Tracks r (some s) x.1
    → IsAttempt r (after_index env s r.repo_full_name sha x)
after_index-IsAttempt env r s sha (ok stats, db) h =
    conclude-IsAttempt r env.revoke_url s sha stats db h
after_index-IsAttempt env r s sha (error e, db) h = h

index_archive-IsAttempt :
    (env : Environment) (r : Request) (id : ℕ) (s : GitHubRepositorySync) (sha : String) (db : Db)
    (a : Answer (List Member))
    → Tracks r (some s) db
    → IsAttempt r (index_archive env (target_of r id) s sha db a)
index_archive-IsAttempt env r id s sha db (http_status n) h = h
index_archive-IsAttempt env r id s sha db (raised e) h = h
index_archive-IsAttempt env r id s sha db (answered members) h =
    let after = index_repo_from_tarball env (target_of r id) members db in
    after_index-IsAttempt env r s sha after
      (Tracks-same r s db after.1 (index_repo-syncs env (target_of r id) members db) h)

start_sync-Tracks :
    (r : Request) (id : ℕ) (sync : Option GitHubRepositorySync) (db : Db)
    → get_sync db r.user_id r.repo_full_name ≡ sync
    → Tracks r
        (some (start_sync db r.user_id r.repo_full_name r.workspace_id id sync).0)
        (start_sync db r.user_id r.repo_full_name r.workspace_id id sync).1
unfolding get_sync
start_sync-Tracks r id (some s) db found =
    (started id s, get_sync-write_sync r (started id) s.id db (λ y. refl) found refl, refl)
start_sync-Tracks r id none db absent =
    let s = new_sync db.next_sync r.user_id r.repo_full_name r.workspace_id id in
    (
      s,
      find_first_append (is_sync_of r.user_id r.repo_full_name) db.syncs s absent
          (rw (beq_refl r.user_id, beq_refl r.repo_full_name) refl),
      refl,
    )

ensure_collection-syncs :
    (db : Db) (user_id : ℕ) (workspace_id : String)
    → (ensure_collection db user_id workspace_id).1.syncs ≡ db.syncs
unfolding ensure_collection
ensure_collection-syncs db user_id workspace_id =
    elim (Option-cases (find_first (is_github user_id workspace_id) db.collections)) [
      | inl absent ↦ rw absent refl
      | inr (c, found) ↦ rw found refl
    ]

index_commit-IsAttempt :
    (env : Environment) (remote : Remote) (r : Request) (branch sha : String)
    (sync : Option GitHubRepositorySync) (db : Db)
    → get_sync db r.user_id r.repo_full_name ≡ sync
    → IsAttempt r (index_commit env remote r branch sha sync db)
unfolding index_commit get_sync
index_commit-IsAttempt env remote r branch sha sync db found =
    let filed = ensure_collection db r.user_id r.workspace_id in
    let same = ensure_collection-syncs db r.user_id r.workspace_id in
    let begun = start_sync filed.1 r.user_id r.repo_full_name r.workspace_id filed.0.id sync in
    index_archive-IsAttempt env r filed.0.id begun.0 sha begun.1
      (download_repo_tarball remote r.repo_full_name branch)
      (start_sync-Tracks r filed.0.id sync filed.1 (rw same found))

Tracks-found :
    (r : Request) (sync : Option GitHubRepositorySync) (db : Db)
    → get_sync db r.user_id r.repo_full_name ≡ sync
    → Tracks r sync db
Tracks-found r none db h = h
Tracks-found r (some s) db h = (s, h, refl)

current-IsIndexed :
    (r : Request) (sha : String) (sync : Option GitHubRepositorySync) (db : Db)
    → get_sync db r.user_id r.repo_full_name ≡ sync
    → is_current sha sync ≡ true
    → IsIndexed r db sha (files_of sync)
current-IsIndexed r sha none db found h = cc
current-IsIndexed r sha (some s) db found h = elim (Option-cases s.last_commit_sha) [
  | inl never ↦ absurd (ground arith)
  | inr (last, e) ↦
      let at_sha : last ≡ sha = eq_of_beq last sha (ground arith) in
      (
        s,
        found,
        eq_of_beq s.sync_status "complete" (ground arith),
        rw (← at_sha) e,
        refl,
        ground arith,
      )
]

with_commit-IsAttempt :
    (env : Environment) (remote : Remote) (r : Request) (branch : String)
    (sync : Option GitHubRepositorySync) (db : Db) (a : Answer String)
    → get_sync db r.user_id r.repo_full_name ≡ sync
    → IsAttempt r (with_commit env remote r branch sync db a)
with_commit-IsAttempt env remote r branch sync db (http_status n) found =
    Tracks-found r sync db found
with_commit-IsAttempt env remote r branch sync db (raised e) found = Tracks-found r sync db found
with_commit-IsAttempt env remote r branch sync db (answered sha) found =
    elim (Bool-cases (is_current sha sync)) [
      | inl current ↦ rw current (current-IsIndexed r sha sync db found current)
      | inr stale ↦ rw stale (index_commit-IsAttempt env remote r branch sha sync db found)
    ]

with_repository-IsAttempt :
    (env : Environment) (remote : Remote) (r : Request) (sync : Option GitHubRepositorySync)
    (db : Db) (a : Answer (Option String))
    → get_sync db r.user_id r.repo_full_name ≡ sync
    → IsAttempt r (with_repository env remote r sync db a)
with_repository-IsAttempt env remote r sync db (http_status n) found = Tracks-found r sync db found
with_repository-IsAttempt env remote r sync db (raised e) found = Tracks-found r sync db found
with_repository-IsAttempt env remote r sync db (answered branch) found =
    with_commit-IsAttempt env remote r (or_main branch) sync db (remote.commit_sha (or_main branch))
      found

-- If the user has a connection: whatever GitHub, the archive, the disk and the queue answer, after a
-- synchronisation that answers `complete` or `unchanged` the row of the repository is complete, for
-- the commit and with the number of files that are answered, at least one; after one that fails there
-- is no row of the repository or it has failed, so that none is left running.
pub sync_repository-Agrees :
    (env : Environment) (remote : Remote) (r : Request) (db : Db)
    → is_some (get_connection db r.user_id) ≡ true
    → Agrees r (sync_repository env remote r db)
unfolding sync_repository settled
sync_repository-Agrees env remote r db h =
    let sync = get_sync db r.user_id r.repo_full_name in
    let a = with_repository env remote r sync db remote.default_branch in
    elim (Option-cases (get_connection db r.user_id)) [
      | inl absent ↦ absurd (cc (rw absent at h))
      | inr (c, found) ↦ rw found (
          settle-Agrees r a.sync a.db a.answer
            (with_repository-IsAttempt env remote r sync db remote.default_branch refl))
    ]
