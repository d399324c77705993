-- ===== src/GitHub/Archive/Owned.antt =====
-- Which rows the index of an archive touches, and what is queued afterwards.
use omni_ai_v.Prelude.{
  ℕ, ◌≤◌, ◌≡◌, refl, sym, ◌∙◌, String, Bool, true, false, ◌&&◌, not, Option, none, some, List, [],
  ◌∷◌, ◌++◌, arith, any, select, ◌==◌, nat_comparable, text_comparable, All, All-append, All-imp,
  Option-cases, inl, inr, beq_refl,
}
use omni_ai_v.Rows.{
  find_first, find_first-All, update_where, All-update_where, select-append_out, any-append_left,
  any-append_right,
}
use omni_ai_v.Rows.Updates.{select-update_where-All, any-update_where_imp, any-update_where_found}
use omni_ai_v.Ingestion.{IndexedDocument}
use omni_ai_v.GitHub.{Db}
use omni_ai_v.GitHub.Paths.{Member}
use omni_ai_v.Ingestion.Queue
use omni_ai_v.GitHub.Archive.{
  Environment, Target, Work, indexed, is_file_of, renewed, new_document, record_file, filename_of,
  storage_path_of, index_github_file, index_files,
}
use omni_ai_v.GitHub.Archive.Keeping.{index_files-Keeps}

-- A document of another user or collection.
abbrev pub is_outside : Target → IndexedDocument → Bool
is_outside t d = not (d.user_id == t.user_id && d.collection_id == t.collection_id)

-- The document waits for its ingestion in the collection.
abbrev pub is_waiting : Target → ℕ → IndexedDocument → Bool
is_waiting t i d = d.id == i && not (is_outside t d) && d.indexing_stage == "queued"

-- Of the keys `place` says which are those of documents outside, new ones not among them.
abbrev IsFiled : Target → (ℕ → Bool) → List IndexedDocument → ℕ → List ℕ → Db → Type 0
IsFiled t place before first pending db =
    All (λ d. is_outside t d ≡ place d.id) db.ingestion.documents
    × (select (is_outside t) db.ingestion.documents ≡ before)
    × (first ≤ db.next_document)
    × All (λ i. any (is_waiting t i) db.ingestion.documents ≡ true) pending

-- The row of a file that is found or inserted.
record_file-IsFiled :
    (env : Environment) (t : Target) (place : ℕ → Bool) (before : List IndexedDocument) (first : ℕ)
    (pending : List ℕ) (filename path : String) (db : Db) (found : Option IndexedDocument)
    → ((i : ℕ) → first ≤ i → place i ≡ false)
    → find_first (is_file_of t filename) db.ingestion.documents ≡ found
    → IsFiled t place before first pending db
    → IsFiled t place before first
        (pending ++ (record_file env t filename path db found).0 ∷ [])
        (record_file env t filename path db found).1
unfolding update_where
record_file-IsFiled env t place before first pending filename path db none fresh e
      (keyed, same, below, waiting) =
    let d = new_document env t db.next_document filename path in
    let inside : is_outside t d ≡ false = rw (beq_refl t.user_id, beq_refl t.collection_id) refl in
    let here : any (is_waiting t d.id) (db.ingestion.documents ++ d ∷ []) ≡ true =
      any-append_right (is_waiting t d.id) db.ingestion.documents (d ∷ [])
        (rw (beq_refl d.id, inside) refl) in
    (
      All-append _ db.ingestion.documents (d ∷ []) keyed
          (inside ∙ sym (fresh db.next_document below), tt),
      select-append_out (is_outside t) db.ingestion.documents d inside ∙ same,
      omega arith,
      All-append _ pending (d.id ∷ [])
          (All-imp pending
            (λ i w. any-append_left (is_waiting t i) db.ingestion.documents (d ∷ []) w) waiting)
          (here, tt),
    )
record_file-IsFiled env t place before first pending filename path db (some d) fresh e
      (keyed, same, below, waiting) =
    let (hit, here) = find_first-All _ (is_file_of t filename) db.ingestion.documents e keyed in
    let inside : is_outside t d ≡ false = ground arith in
    (
      All-update_where _ _ (renewed path) db.ingestion.documents (λ x k q. k) keyed,
      select-update_where-All _ (is_outside t) (λ x. x.id == d.id) (renewed path)
            db.ingestion.documents
            (λ x k q.
              let eq : x.id ≡ d.id = ground arith in
              let out : is_outside t x ≡ false = rw eq at k ∙ sym here ∙ inside in (out, out))
            keyed
          ∙ same,
      below,
      All-append _ pending (d.id ∷ [])
          (All-imp pending
            (λ i w.
              any-update_where_imp (is_waiting t i) (λ x. x.id == d.id) (renewed path)
                db.ingestion.documents (λ x q. ground arith) w)
            waiting)
          (
            any-update_where_found (is_waiting t d.id) (is_file_of t filename) (λ x. x.id == d.id)
                (renewed path) db.ingestion.documents e (beq_refl d.id)
                (rw (beq_refl d.id, inside) refl),
            tt,
          ),
    )

indexed-IsFiled :
    (env : Environment) (t : Target) (place : ℕ → Bool) (before : List IndexedDocument) (first : ℕ)
    → ((i : ℕ) → first ≤ i → place i ≡ false)
    → (path content : String) (w : Work) → IsFiled t place before first w.pending w.db
    → IsFiled t place before first
        (indexed path w (index_github_file env t path content w.db)).pending
        (indexed path w (index_github_file env t path content w.db)).db
unfolding index_github_file
indexed-IsFiled env t place before first fresh path content w h =
    let filename = filename_of t path in
    let storage_path = storage_path_of env t filename in
    elim (Option-cases (env.write_error storage_path)) [
      | inl fine ↦ rw fine (
          record_file-IsFiled env t place before first w.pending filename storage_path
            (record w.db { staged = (storage_path, content) ∷ w.db.staged })
            (find_first (is_file_of t filename) w.db.ingestion.documents) fresh refl h)
      | inr (e, broken) ↦ rw broken h
    ]

-- If the keys say which documents are outside the collection, and new keys do not: whatever the archive
-- holds and the disk answers, the documents outside the collection of the target are as before, and
-- each indexed file has a document in the collection that waits for its ingestion.
pub index_files-Filed :
    (env : Environment) (t : Target) (place : ℕ → Bool) (members : List Member) (db : Db)
    → All (λ d. is_outside t d ≡ place d.id) db.ingestion.documents
    → ((i : ℕ) → db.next_document ≤ i → place i ≡ false)
    → (select (is_outside t) (index_files env t members db).db.ingestion.documents
        ≡ select (is_outside t) db.ingestion.documents)
      × All
          (λ i. any (is_waiting t i) (index_files env t members db).db.ingestion.documents ≡ true)
          (index_files env t members db).pending
index_files-Filed env t place members db keyed fresh =
    let before = select (is_outside t) db.ingestion.documents in
    let (k, same, b, waiting) =
      index_files-Keeps (IsFiled t place before db.next_document) env t
        (indexed-IsFiled env t place before db.next_document fresh) members db
        (keyed, refl, omega arith, tt) in
    (same, waiting)

-- The tables that the loop does not touch.
abbrev IsAside : Db → List ℕ → Db → Type 0
IsAside before pending db =
    (db.ingestion.queue ≡ before.ingestion.queue) × (db.syncs ≡ before.syncs)

indexed-IsAside :
    (env : Environment) (t : Target) (before : Db) (path content : String) (w : Work)
    → IsAside before w.pending w.db
    → IsAside before
        (indexed path w (index_github_file env t path content w.db)).pending
        (indexed path w (index_github_file env t path content w.db)).db
unfolding index_github_file
indexed-IsAside env t before path content w h =
    let filename = filename_of t path in
    let storage_path = storage_path_of env t filename in
    elim (Option-cases (env.write_error storage_path)) [
      | inl fine ↦
          elim (Option-cases (find_first (is_file_of t filename) w.db.ingestion.documents)) [
            | inl absent ↦ rw (fine, absent) h
            | inr (d, found) ↦ rw (fine, found) h
          ]
      | inr (e, broken) ↦ rw broken h
    ]

pub index_files-IsAside :
    (env : Environment) (t : Target) (members : List Member) (db : Db)
    → ((index_files env t members db).db.ingestion.queue ≡ db.ingestion.queue)
      × ((index_files env t members db).db.syncs ≡ db.syncs)
index_files-IsAside env t members db =
    index_files-Keeps (IsAside db) env t (indexed-IsAside env t db) members db (refl, refl)
