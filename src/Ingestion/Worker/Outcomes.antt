-- ===== src/Ingestion/Worker/Outcomes.antt =====
-- The state in which ingest_document_record leaves its document.
use omni_ai_v.Prelude.{
  ℕ, zero, suc, ◌≡◌, refl, String, Bool, true, false, ◌&&◌, ◌||◌, not, Option, none, some, List, [],
  ◌∷◌, ◌++◌, arith, ◌==◌, nat_comparable, text_comparable, length, is_empty, All, All-imp,
  All-trivial, Option-cases, inl, inr, beq_refl,
}
use omni_ai_v.Rows.{find_first, find_first_sound, find_first-none, update_where_imp}
use omni_ai_v.Ingestion.{
  IndexedDocument, Progress, to_stage, to_ready, update_indexing_progress, mark_indexing_ready,
}
use omni_ai_v.Ingestion.Chunks.{LoadedDocumentPart}
use omni_ai_v.Ingestion.Worker.{
  Outcome, returned, raised, Pipeline, Store, progress, numbered, store_batch, store_from,
  store_chunks, chunks_of, counted, store_all, process_document, concluded, attempted,
  ingest_document_record,
}
use omni_ai_v.Ingestion.Worker.Batches.{is_nil, store_chunks_whole}
use omni_ai_v.Ingestion.Worker.Isolation.{clean-rows, clean-chunks}

-- The row is another one's, or in a stage of the list.
abbrev pub in_stage : ℕ → String → IndexedDocument → Bool
in_stage i stage d = not (d.id == i) || d.indexing_stage == stage

abbrev pub is_settled : ℕ → IndexedDocument → Bool
is_settled i d = in_stage i "ready" d || in_stage i "failed" d

marked :
    (now i : ℕ) (p : Progress) (stage : String) (db : List IndexedDocument)
    → p.stage ≡ some stage
    → All (λ d. in_stage i stage d ≡ true) (update_indexing_progress now db i p)
unfolding update_indexing_progress
marked now i p stage db h =
    update_where_imp (λ d. Unit {0}) _ _ _ db (λ d t hit. rw h (ground (arith, beq_refl stage)))
      (λ d t miss. ground arith) (All-trivial db)

concluded_ready :
    (now : ℕ) (saved : Bool) (d : IndexedDocument) (r : Outcome ℕ × Store)
    → (concluded now saved true d r).0 ≡ none
    → All (λ x. in_stage d.id "ready" x ≡ true) (concluded now saved true d r).1.documents
unfolding mark_indexing_ready
concluded_ready now saved d (returned n, s) h =
    marked now d.id (to_ready n) "ready" s.documents refl
concluded_ready now saved d (raised error, s) h = absurd (cc h)

-- A call from a worker, which propagates errors, leaves its document ready if it raises nothing.
pub ingest_document_record_ready :
    (p : Pipeline) (now document_id : ℕ) (s : Store)
    → (ingest_document_record p now document_id true s).0 ≡ none
    → All
        (λ d. in_stage document_id "ready" d ≡ true)
        (ingest_document_record p now document_id true s).1.documents
unfolding ingest_document_record
ingest_document_record_ready p now i s h =
    elim (Option-cases (find_first (λ d. d.id == i) s.documents)) [
      | inl absent ↦
          rw absent (All-imp _ (λ d e. ground arith) (find_first-none _ s.documents absent))
      | inr (d, found) ↦
          let own = find_first_sound (λ x. x.id == i) s.documents found in
          let same : i ≡ d.id = ground arith in
          let h' : (concluded now p.failure_is_saved true d (attempted p now d s)).0 ≡ none =
            rw found at h in
          rw (found, same)
            (rw clean-rows (concluded_ready now p.failure_is_saved d (attempted p now d s) h'))
    ]

-- The run in which nothing fails.
module _ (p : Pipeline) (encodes : (texts : List String) → p.encode texts ≡ none)
    (adds : (start : ℕ) → p.add start ≡ none) where
  store_from_quiet :
      (now : ℕ) (d : IndexedDocument) (total fuel start : ℕ) (xs : List LoadedDocumentPart)
      (s : Store)
      → (store_from p now d total fuel start xs s).0 ≡ none
  unfolding store_from store_batch
  store_from_quiet now d total zero start xs s = refl
  store_from_quiet now d total (suc fuel) start [] s = refl
  store_from_quiet now d total (suc fuel) start (x ∷ xs) s =
      rw encodes (rw adds (store_from_quiet now d total fuel _ _ _))

  pub store_chunks_quiet :
      (now : ℕ) (d : IndexedDocument) (xs : List LoadedDocumentPart) (s : Store)
      → (store_chunks p now d xs s).0 ≡ none
  unfolding store_chunks
  store_chunks_quiet now d [] s = refl
  store_chunks_quiet now d (x ∷ xs) s =
      store_from_quiet now d (length (x ∷ xs)) (length (x ∷ xs)) 0 (x ∷ xs)
        (progress now d.id (to_stage "embedding") s)

  store_all_quiet :
      (now : ℕ) (d : IndexedDocument) (xs : List LoadedDocumentPart) (s : Store)
      → is_nil xs ≡ false
      → store_all p now d xs s ≡ (returned (length xs), (store_chunks p now d xs s).1)
  store_all_quiet now d [] s h = absurd (cc h)
  store_all_quiet now d (x ∷ xs) s h =
      counted_quiet _ (store_chunks p now d (x ∷ xs) s) (store_chunks_quiet now d (x ∷ xs) s)
    where
      counted_quiet :
          (n : ℕ) (r : Option String × Store) → r.0 ≡ none → counted n r ≡ (returned n, r.1)
      counted_quiet n (none, t) e = refl
      counted_quiet n (some error, t) e = absurd (cc e)

abbrev pub ready_with : ℕ → ℕ → IndexedDocument → Bool
ready_with i n x =
    not (x.id == i)
    || (x.indexing_stage == "ready" && x.chunks_created == n && x.embeddings_completed == n)

-- Nothing was raised, the document is ready with its number of chunks, and the vector store has the
-- chunks, in order, behind what it had.
pub record Indexed (p : Pipeline) (d : IndexedDocument) (parts : List LoadedDocumentPart)
    (before : Store) (r : Option String × Store) : Type 0 where
  pub silent : r.0 ≡ none
  pub rows : All (λ x. ready_with d.id (length (chunks_of p parts)) x ≡ true) r.1.documents
  pub chunks : r.1.chunks ≡ before.chunks ++ numbered d 0 (chunks_of p parts)

ready_rows :
    (now i n : ℕ) (db : List IndexedDocument)
    → All (λ x. ready_with i n x ≡ true) (update_indexing_progress now db i (to_ready n))
unfolding update_indexing_progress
ready_rows now i n db =
    update_where_imp (λ d. Unit {0}) _ _ _ db (λ d t hit. ground (arith, beq_refl n))
      (λ d t miss. ground arith) (All-trivial db)

-- An ingestion succeeds if the document and its file exist, the loader answers, a chunk is left,
-- and the embedding model and the vector store raise nothing.
pub ingest_document_record-Indexed :
    (p : Pipeline) (now document_id : ℕ) (propagate_errors : Bool) (s : Store) {d : IndexedDocument}
    {parts : List LoadedDocumentPart}
    → ((texts : List String) → p.encode texts ≡ none)
    → ((start : ℕ) → p.add start ≡ none)
    → find_first (λ x. x.id == document_id) s.documents ≡ some d
    → (is_empty d.storage_path || not (s.files d.storage_path)) ≡ false
    → p.load d.storage_path ≡ returned parts
    → is_nil (chunks_of p parts) ≡ false
    → Indexed p d parts s (ingest_document_record p now document_id propagate_errors s)
unfolding ingest_document_record process_document mark_indexing_ready
ingest_document_record-Indexed p now i propagate_errors s {d} {parts} encodes adds found file loaded
      some_chunk =
    let marked_chunking : Store =
      progress now d.id (to_stage "chunking")
        (progress now d.id (record (to_stage "loading") { mark_started = true }) s) in
    let stores =
      store_all_quiet p encodes adds now d (chunks_of p parts) marked_chunking some_chunk in
    let silent = store_chunks_quiet p encodes adds now d (chunks_of p parts) marked_chunking in
    let whole = store_chunks_whole p now d (chunks_of p parts) marked_chunking silent in
    rw found (
      rw file (
        rw loaded (
          rw stores record {
            silent = refl;
            rows = rw clean-rows (ready_rows now d.id _ _);
            chunks = rw clean-chunks whole;
          })))
