-- ===== src/Ingestion/Worker/Isolation.antt =====
-- ingest_document_record against the rows and chunks of other documents and the uploaded files.
use mathlib.Core.List.{append-nil, append_assoc}
use omni_ai_v.Prelude.{
  ℕ, zero, suc, ◌≡◌, refl, sym, ap, ◌∙◌, String, Bool, true, false, ◌||◌, not, Option, none, some,
  List, [], ◌∷◌, ◌++◌, map, arith, ◌==◌, nat_comparable, text_comparable, select, length, is_empty,
  Bool-cases, Option-cases, inl, inr,
}
use omni_ai_v.Rows.{find_first, find_first_sound, select-update_where, select-append_out}
use omni_ai_v.Ingestion.{
  IndexedDocument, Progress, to_stage, to_ready, to_failed, update_indexing_progress,
  mark_indexing_ready, mark_indexing_failed,
}
use omni_ai_v.Ingestion.Chunks.{LoadedDocumentPart}
use omni_ai_v.Ingestion.Worker.{
  Outcome, returned, raised, Pipeline, Store, StoredChunk, progress, stored, numbered, text_of,
  store_batch, unless_raised, store_from, store_chunks, chunks_of, counted, store_all,
  process_parts, process_document, concluded, attempted, clean, ingest_document_record,
  stage_is_ready,
}

abbrev pub other_documents : ℕ → Store → List IndexedDocument
other_documents i s = select (λ d. not (d.id == i)) s.documents

abbrev pub other_chunks : ℕ → Store → List StoredChunk
other_chunks i s = select (λ c. not (c.document_id == i)) s.chunks

-- Between the two stores nothing changed but for the document of that key.
record Kept (i : ℕ) (before after : Store) : Type 0 where
  documents : other_documents i after ≡ other_documents i before
  chunks : other_chunks i after ≡ other_chunks i before
  files : after.files ≡ before.files

Kept-refl : (i : ℕ) (s : Store) → Kept i s s
Kept-refl i s = record { documents = refl; chunks = refl; files = refl }

Kept-trans : (i : ℕ) (r s t : Store) → Kept i r s → Kept i s t → Kept i r t
Kept-trans i r s t h k = record {
  documents = k.documents ∙ h.documents;
  chunks = k.chunks ∙ h.chunks;
  files = k.files ∙ h.files;
}

updated_others :
    (now i : ℕ) (p : Progress) (db : List IndexedDocument)
    → select (λ d. not (d.id == i)) (update_indexing_progress now db i p)
      ≡ select (λ d. not (d.id == i)) db
unfolding update_indexing_progress
updated_others now i p db = select-update_where _ _ _ db (λ d e. ground arith) (λ d e. ground arith)

progress-Kept : (now i : ℕ) (p : Progress) (s : Store) → Kept i s (progress now i p s)
progress-Kept now i p s = record {
  documents = updated_others now i p s.documents;
  chunks = refl;
  files = refl;
}

numbered_out :
    (d : IndexedDocument) (start : ℕ) (parts : List LoadedDocumentPart) (cs : List StoredChunk)
    → select (λ c. not (c.document_id == d.id)) (cs ++ numbered d start parts)
      ≡ select (λ c. not (c.document_id == d.id)) cs
unfolding numbered
numbered_out d start [] cs = ap (λ l. select (λ c. not (c.document_id == d.id)) l) (append-nil cs)
numbered_out d start (x ∷ xs) cs =
    ap (λ l. select (λ c. not (c.document_id == d.id)) l)
      (sym (append_assoc cs (stored d start x ∷ []) (numbered d (suc start) xs)))
    ∙ numbered_out d (suc start) xs (cs ++ stored d start x ∷ [])
    ∙ select-append_out _ cs (stored d start x) (ground arith)

module _ (p : Pipeline) (now : ℕ) (d : IndexedDocument) where
  store_batch-Kept :
      (total start : ℕ) (batch : List LoadedDocumentPart) (s : Store)
      → Kept d.id s (store_batch p now d total start batch s).1
  unfolding store_batch
  store_batch-Kept total start batch s = elim (Option-cases (p.encode (map text_of batch))) [
    | inr (error, e) ↦ rw e (Kept-refl d.id s)
    | inl e ↦ rw e (elim (Option-cases (p.add start)) [
      | inr (error, f) ↦ rw f (progress-Kept now d.id _ s)
      | inl f ↦ rw f (record {
        documents = updated_others now d.id _ s.documents;
        chunks = numbered_out d start batch s.chunks;
        files = refl;
      })
    ])
  ]

  unless_raised-Kept :
      (before : Store) (turn rest : Option String × Store)
      → Kept d.id before turn.1
      → Kept d.id turn.1 rest.1
      → Kept d.id before (unless_raised turn rest).1
  unless_raised-Kept before (some error, s) rest h k = h
  unless_raised-Kept before (none, s) rest h k = Kept-trans d.id before s rest.1 h k

  store_from-Kept :
      (total fuel start : ℕ) (xs : List LoadedDocumentPart) (s : Store)
      → Kept d.id s (store_from p now d total fuel start xs s).1
  unfolding store_from
  store_from-Kept total zero start xs s = Kept-refl d.id s
  store_from-Kept total (suc fuel) start [] s = Kept-refl d.id s
  store_from-Kept total (suc fuel) start (x ∷ xs) s =
      unless_raised-Kept s _ _ (store_batch-Kept total start _ s) (store_from-Kept total fuel _ _ _)

  store_chunks-Kept :
      (xs : List LoadedDocumentPart) (s : Store) → Kept d.id s (store_chunks p now d xs s).1
  unfolding store_chunks
  store_chunks-Kept [] s = Kept-refl d.id s
  store_chunks-Kept (x ∷ xs) s =
      Kept-trans d.id s _ _ (progress-Kept now d.id (to_stage "embedding") s)
        (store_from-Kept (length (x ∷ xs)) (length (x ∷ xs)) 0 (x ∷ xs) _)

  counted-Kept :
      (before : Store) (n : ℕ) (r : Option String × Store)
      → Kept d.id before r.1
      → Kept d.id before (counted n r).1
  counted-Kept before n (none, s) h = h
  counted-Kept before n (some error, s) h = h

  store_all-Kept :
      (xs : List LoadedDocumentPart) (s : Store) → Kept d.id s (store_all p now d xs s).1
  store_all-Kept [] s = Kept-refl d.id s
  store_all-Kept (x ∷ xs) s = counted-Kept s _ _ (store_chunks-Kept (x ∷ xs) s)

  process_parts-Kept :
      (s : Store) (loaded : Outcome (List LoadedDocumentPart))
      → Kept d.id s (process_parts p now d s loaded).1
  process_parts-Kept s (raised error) = Kept-refl d.id s
  process_parts-Kept s (returned parts) =
      Kept-trans d.id s _ _ (progress-Kept now d.id (to_stage "chunking") s)
        (store_all-Kept (chunks_of p parts) _)

  attempted-Kept : (s : Store) → Kept d.id s (attempted p now d s).1
  unfolding process_document
  attempted-Kept s = elim (Bool-cases (is_empty d.storage_path || not (s.files d.storage_path))) [
    | inl e ↦ rw e (Kept-refl d.id s)
    | inr e ↦ rw e (
        Kept-trans d.id s _ _ (progress-Kept now d.id _ s)
          (process_parts-Kept _ (p.load d.storage_path)))
  ]

  concluded-Kept :
      (propagate_errors : Bool) (before : Store) (r : Outcome ℕ × Store)
      → Kept d.id before r.1
      → Kept d.id before (concluded now p.failure_is_saved propagate_errors d r).1
  unfolding mark_indexing_ready mark_indexing_failed
  concluded-Kept propagate_errors before (returned n, s) h = record {
    documents = updated_others now d.id (to_ready n) s.documents ∙ h.documents;
    chunks = h.chunks;
    files = h.files;
  }
  concluded-Kept true before (raised error, s) h = record {
    documents = h.documents;
    chunks = h.chunks;
    files = h.files;
  }
  concluded-Kept false before (raised error, s) h = record {
    documents = elim (Bool-cases p.failure_is_saved) [
      | inl saved ↦ rw saved (updated_others now d.id (to_failed error) s.documents ∙ h.documents)
      | inr lost ↦ rw lost h.documents
    ];
    chunks = h.chunks;
    files = h.files;
  }

pub clean-rows :
    (p : Pipeline) (d : IndexedDocument) (s : Store) → (clean p d s).documents ≡ s.documents
unfolding clean
clean-rows p d s = ground arith

pub clean-chunks :
    (p : Pipeline) (d : IndexedDocument) (s : Store) → (clean p d s).chunks ≡ s.chunks
unfolding clean
clean-chunks p d s = ground arith

not_cleaned :
    (p : Pipeline) (d : IndexedDocument) (s : Store)
    → stage_is_ready (find_first (λ x. x.id == d.id) (clean p d s).documents) ≡ false
    → (clean p d s).files ≡ s.files
not_cleaned p d s h =
    let k : stage_is_ready (find_first (λ x. x.id == d.id) s.documents) ≡ false =
      rw clean-rows at h in
    unfold clean in rw k (ground arith)

-- Whatever fails, the rows and the chunks of all other documents are as they were.
pub ingest_document_record_others :
    (p : Pipeline) (now document_id : ℕ) (propagate_errors : Bool) (s : Store)
    → (other_documents document_id (ingest_document_record p now document_id propagate_errors s).1
        ≡ other_documents document_id s)
      × (other_chunks document_id (ingest_document_record p now document_id propagate_errors s).1
          ≡ other_chunks document_id s)
unfolding ingest_document_record
ingest_document_record_others p now i propagate_errors s =
    elim (Option-cases (find_first (λ d. d.id == i) s.documents)) [
      | inl absent ↦ rw absent (refl, refl)
      | inr (d, found) ↦
          let own = find_first_sound (λ x. x.id == i) s.documents found in
          let same : i ≡ d.id = ground arith in
          let kept =
            concluded-Kept p now d propagate_errors s (attempted p now d s)
              (attempted-Kept p now d s) in
          let after = concluded now p.failure_is_saved propagate_errors d (attempted p now d s) in
          rw (found, same)
            (
              ap (λ l. select (λ x. not (x.id == d.id)) l) (clean-rows p d after.1)
                  ∙ kept.documents,
              ap (λ l. select (λ x. not (x.document_id == d.id)) l) (clean-chunks p d after.1)
                  ∙ kept.chunks,
            )
    ]

-- An ingestion after which the document is not ready has removed no file.
ingest_document_record_files :
    (p : Pipeline) (now document_id : ℕ) (propagate_errors : Bool) (s : Store)
    → stage_is_ready (
        find_first
          (λ d. d.id == document_id)
          (ingest_document_record p now document_id propagate_errors s).1.documents)
      ≡ false
    → (ingest_document_record p now document_id propagate_errors s).1.files ≡ s.files
unfolding ingest_document_record
ingest_document_record_files p now i propagate_errors s h =
    elim (Option-cases (find_first (λ d. d.id == i) s.documents)) [
      | inl absent ↦ rw absent refl
      | inr (d, found) ↦
          let own = find_first_sound (λ x. x.id == i) s.documents found in
          let same : i ≡ d.id = ground arith in
          let kept =
            concluded-Kept p now d propagate_errors s (attempted p now d s)
              (attempted-Kept p now d s) in
          let after = concluded now p.failure_is_saved propagate_errors d (attempted p now d s) in
          let h' : stage_is_ready (find_first (λ x. x.id == d.id) (clean p d after.1).documents)
              ≡ false =
            rw (found, same) at h in
          rw found (not_cleaned p d after.1 h' ∙ kept.files)
    ]
