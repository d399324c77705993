-- ===== src/GitHub/Sync/Attempts.antt =====
-- The row of a repository under the attempts of a synchronisation.
use omni_ai_v.Prelude.{
  ℕ, ◌<◌, ◌≡◌, refl, ◌∙◌, String, true, Option, none, some, List, [], ◌∷◌, arith, ◌==◌,
  nat_comparable, text_comparable, ltb, beq_refl, Bool-cases, Option-cases, inl, inr,
}
use omni_ai_v.Rows.{find_first-update_where}
use omni_ai_v.GitHub.{
  Db, GitHubRepositorySync, is_sync_of, get_sync, write_sync, mark_sync_failed, failed_with,
  github_http_error_message,
}
use omni_ai_v.GitHub.Paths.{Member}
use omni_ai_v.Ingestion.Queue.{Dispatched, dispatched}
use omni_ai_v.Ingestion.Queue
use omni_ai_v.GitHub.Archive.{
  with_queue, after_dispatch, Environment, Target, Stats, new_stats, index_files,
  index_repo_from_tarball, dispatch_github_ingestion,
}
use omni_ai_v.GitHub.Archive.Owned.{index_files-IsAside}
use omni_ai_v.GitHub.Download.{Answer, answered, http_status, raised}
use omni_ai_v.GitHub.Sync.{
  Outcome, complete, unchanged, failed, ensure_sync_indexed_files, Attempt, completed, conclude,
  Request, settle,
}

-- The row of the repository says that `sha` was indexed completely, with `n` files.
abbrev pub IsIndexed : Request → Db → String → ℕ → Type 0
IsIndexed r db sha n =
    (s : GitHubRepositorySync) × (get_sync db r.user_id r.repo_full_name ≡ some s)
    × (s.sync_status ≡ "complete")
    × (s.last_commit_sha ≡ some sha)
    × (s.files_indexed ≡ n)
    × (0 < n)

abbrev pub IsFailed : Option GitHubRepositorySync → Type 0
IsFailed none = Unit
IsFailed (some s) = s.sync_status ≡ "failed"

-- The row and the answer agree.
abbrev pub Agrees : Request → Outcome × Db → Type 0
Agrees r (complete sha stats, db) = IsIndexed r db sha stats.files_indexed
Agrees r (unchanged sha n, db) = IsIndexed r db sha n
Agrees r (failed message, db) = IsFailed (get_sync db r.user_id r.repo_full_name)

-- The variable `sync` stands for the row of the repository.
abbrev pub Tracks : Request → Option GitHubRepositorySync → Db → Type 0
Tracks r none db = get_sync db r.user_id r.repo_full_name ≡ none
Tracks r (some s) db =
    (x : GitHubRepositorySync) × (get_sync db r.user_id r.repo_full_name ≡ some x) × (x.id ≡ s.id)

-- An attempt that answers agrees with the row, any other can still be marked.
abbrev pub IsAttempt : Request → Attempt → Type 0
IsAttempt r a = go a.answer
  where
    go : Answer Outcome → Type 0
    go (answered outcome) = Agrees r (outcome, a.db)
    go (http_status n) = Tracks r a.sync a.db
    go (raised e) = Tracks r a.sync a.db

pub get_sync-write_sync :
    (r : Request) (f : GitHubRepositorySync → GitHubRepositorySync) (id : ℕ) (db : Db)
    {s : GitHubRepositorySync}
    → ((x : GitHubRepositorySync)
        → is_sync_of r.user_id r.repo_full_name (f x) ≡ is_sync_of r.user_id r.repo_full_name x)
    → get_sync db r.user_id r.repo_full_name ≡ some s
    → s.id ≡ id
    → get_sync (write_sync id f db) r.user_id r.repo_full_name ≡ some (f s)
unfolding get_sync write_sync
get_sync-write_sync r f id db {s} blind found own =
    let e =
      find_first-update_where (is_sync_of r.user_id r.repo_full_name) (λ x. x.id == id) f db.syncs
        {x = s} blind found in
    let hit : (s.id == id) ≡ true = rw own (beq_refl id) in rw hit at e

mark_sync_failed-IsFailed :
    (r : Request) (sync : Option GitHubRepositorySync) (db : Db) (message : String)
    → Tracks r sync db
    → IsFailed (get_sync (mark_sync_failed db sync message) r.user_id r.repo_full_name)
unfolding mark_sync_failed
mark_sync_failed-IsFailed r none db message h = rw h tt
mark_sync_failed-IsFailed r (some s) db message (x, found, own) =
    rw (get_sync-write_sync r (failed_with message) s.id db (λ y. refl) found own) refl

pub settle-Agrees :
    (r : Request) (sync : Option GitHubRepositorySync) (db : Db) (a : Answer Outcome)
    → IsAttempt r (record { sync = sync; db = db; answer = a })
    → Agrees r (settle r.repo_full_name sync db a)
settle-Agrees r sync db (answered outcome) h = h
settle-Agrees r sync db (http_status n) h =
    mark_sync_failed-IsFailed r sync db (github_http_error_message n r.repo_full_name) h
settle-Agrees r sync db (raised e) h = mark_sync_failed-IsFailed r sync db _ h

some_indexed :
    (url repo : String) (stats : Stats)
    → ensure_sync_indexed_files url repo stats ≡ none
    → 0 < stats.files_indexed
unfolding ensure_sync_indexed_files
some_indexed url repo stats h = elim (Bool-cases (ltb 0 stats.files_indexed)) [
  | inl yes_files ↦ ground arith
  | inr none_indexed ↦ elim (Bool-cases (ltb 0 stats.candidates_seen)) [
    | inl seen ↦ absurd (cc (rw (none_indexed, seen) at h))
    | inr unseen ↦ elim (Bool-cases (ltb 0 stats.tarball_files)) [
      | inl files ↦ absurd (cc (rw (none_indexed, unseen, files) at h))
      | inr empty ↦ absurd (cc (rw (none_indexed, unseen, empty) at h))
    ]
  ]
]

pub conclude-IsAttempt :
    (r : Request) (url : String) (s : GitHubRepositorySync) (sha : String) (stats : Stats) (db : Db)
    → Tracks r (some s) db
    → IsAttempt r (conclude s sha stats db (ensure_sync_indexed_files url r.repo_full_name stats))
conclude-IsAttempt r url s sha stats db (x, found, own) =
    elim (Option-cases (ensure_sync_indexed_files url r.repo_full_name stats)) [
      | inl fine ↦ rw fine (
        completed sha stats x,
        get_sync-write_sync r (completed sha stats) s.id db (λ y. refl) found own,
        refl,
        refl,
        refl,
        some_indexed url r.repo_full_name stats fine,
      )
      | inr (e, wrong) ↦ rw wrong (x, found, own)
    ]

with_queue-syncs : (db : Db) (r : Dispatched × Queue.State) → (with_queue db r).1.syncs ≡ db.syncs
with_queue-syncs db (dispatched route n, queue) = refl
with_queue-syncs db (Dispatched.raised e, queue) = refl

after_dispatch-syncs :
    (stats : Stats) (r : Option String × Db) → (after_dispatch stats r).1.syncs ≡ r.1.syncs
after_dispatch-syncs stats (none, db) = refl
after_dispatch-syncs stats (some e, db) = refl

pub index_repo-syncs :
    (env : Environment) (t : Target) (members : List Member) (db : Db)
    → (index_repo_from_tarball env t members db).1.syncs ≡ db.syncs
unfolding index_repo_from_tarball
index_repo-syncs env t members db =
    let (queue, syncs) = index_files-IsAside env t members db in
    elim (Bool-cases ((new_stats members).tarball_files == 0)) [
      | inl empty ↦ rw empty refl
      | inr files ↦ rw files (
          after_dispatch-syncs (index_files env t members db).stats _
          ∙ dispatched-syncs env (index_files env t members db).pending
              (index_files env t members db).db
          ∙ syncs)
    ]
  where
    dispatched-syncs :
        (env : Environment) (ids : List ℕ) (db : Db)
        → (dispatch_github_ingestion env ids db).1.syncs ≡ db.syncs
    dispatched-syncs env [] db = refl
    dispatched-syncs env (id ∷ ids) db = with_queue-syncs db _
