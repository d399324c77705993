-- ===== src/Documents/Removal.antt =====
-- What the deletion of a document leaves.
use omni_ai_v.Prelude.{
  ℕ, ◌≡◌, refl, String, Bool, true, false, not, none, some, ◌==◌, nat_comparable, text_comparable,
  select, All, Option-cases, Bool-cases, inl, inr, ◌⊎◌, beq_refl,
}
use omni_ai_v.Rows.{find_first, delete_where_gone, select-delete_where}
use omni_ai_v.Ingestion.{IndexedDocument}
use omni_ai_v.Ingestion.Worker.{Store}
use omni_ai_v.Documents.{
  Faults, Reply, ok, http_exception, raised, is_chunk_of, without_file, remove_rows,
  delete_document_record, has_key, delete_document_by_id,
}

-- The rows of a document, its chunks and its file are gone, and all other rows and chunks are there.
pub record IsGone (d : IndexedDocument) (before after : Store) : Type 0 where
  pub rows : All (λ x. (x.id == d.id) ≡ false) after.documents
  pub chunks : All (λ c. is_chunk_of d c ≡ false) after.chunks
  pub file : after.files d.storage_path ≡ false
  pub other_rows :
      select (λ x. not (x.id == d.id)) after.documents
      ≡ select (λ x. not (x.id == d.id)) before.documents
  pub other_chunks :
      select (λ c. not (is_chunk_of d c)) after.chunks
      ≡ select (λ c. not (is_chunk_of d c)) before.chunks

-- The disk has the file and raised, and nothing has changed; or the vector store raised, and only the
-- file is gone.
abbrev pub IsRaised : Faults → IndexedDocument → String → Store → Store → Type 0
IsRaised faults d e before after =
    ((before.files d.storage_path ≡ true)
      × (faults.remove_error d.storage_path ≡ some e)
      × (after ≡ before))
    ⊎ ((faults.store_error ≡ some e) × (after ≡ without_file d.storage_path before))

-- By the answer: the user's document is gone; there is none, and nothing has changed; or the disk or the
-- vector store raised the exception for the user's document.
abbrev pub Removes : Faults → ℕ → ℕ → Store → Reply String × Store → Type 0
Removes faults user_id document_id before (ok name, after) =
    (d : IndexedDocument) × (find_first (has_key user_id document_id) before.documents ≡ some d)
    × (name ≡ d.filename)
    × IsGone d before after
Removes faults user_id document_id before (http_exception status detail, after) =
    (status ≡ 404)
    × (find_first (has_key user_id document_id) before.documents ≡ none)
    × (after ≡ before)
Removes faults user_id document_id before (raised e, after) =
    (d : IndexedDocument) × (find_first (has_key user_id document_id) before.documents ≡ some d)
    × IsRaised faults d e before after

out_of : (b : Bool) → b ≡ true → not b ≡ false
out_of b e = rw e refl

remove_rows-Removes :
    (faults : Faults) (user_id document_id : ℕ) (before : Store) (d : IndexedDocument)
    → find_first (has_key user_id document_id) before.documents ≡ some d
    → Removes faults user_id document_id before
        (remove_rows d faults.store_error (without_file d.storage_path before))
remove_rows-Removes faults user_id document_id before d found =
    elim (Option-cases faults.store_error) [
      | inr (e, down) ↦ rw down (d, found, inr (refl, refl))
      | inl up ↦ rw up (
        d,
        found,
        refl,
        record {
          rows = delete_where_gone (λ x. x.id == d.id) before.documents;
          chunks = delete_where_gone (is_chunk_of d) before.chunks;
          file = rw (beq_refl d.storage_path) refl;
          other_rows =
              select-delete_where (λ x. not (x.id == d.id)) (λ x. x.id == d.id) before.documents
                (λ x e. out_of (x.id == d.id) e);
          other_chunks =
              select-delete_where (λ c. not (is_chunk_of d c)) (is_chunk_of d) before.chunks
                (λ c e. out_of (is_chunk_of d c) e);
        },
      )
    ]

delete_document_record-Removes :
    (faults : Faults) (user_id document_id : ℕ) (before : Store) (d : IndexedDocument)
    → find_first (has_key user_id document_id) before.documents ≡ some d
    → Removes faults user_id document_id before (delete_document_record faults d before)
unfolding delete_document_record
delete_document_record-Removes faults user_id document_id before d found =
    let gone = remove_rows-Removes faults user_id document_id before d found in
    elim (Bool-cases (before.files d.storage_path)) [
      | inr absent ↦ rw absent gone
      | inl present ↦ elim (Option-cases (faults.remove_error d.storage_path)) [
        | inl quiet ↦ rw (present, quiet) gone
        | inr (e, down) ↦ rw (present, down) (d, found, inl (present, down, refl))
      ]
    ]

-- A deletion by key is answered with the name of the user's document, whose row, chunks and file are then
-- gone and all other rows and chunks there; with 404 where the user has no such document, and nothing
-- has changed; or, for the user's document, with the exception of the disk, which has its file, and
-- nothing has changed, or with that of the vector store, and nothing but its file is gone.
pub delete_document_by_id-Removes :
    (faults : Faults) (user_id document_id : ℕ) (s : Store)
    → Removes faults user_id document_id s (delete_document_by_id faults user_id document_id s)
unfolding delete_document_by_id
delete_document_by_id-Removes faults user_id document_id s =
    elim (Option-cases (find_first (has_key user_id document_id) s.documents)) [
      | inl absent ↦ rw absent (refl, absent, refl)
      | inr (d, found) ↦
          rw found (delete_document_record-Removes faults user_id document_id s d found)
    ]
