-- ===== src/Ingestion/Status.antt =====
-- What document_status_payload and detect_stale_indexing show of a document.
use omni_ai_v.Prelude.{
  ℕ, String, ◌≡◌, ◌⊎◌, inl, inr, refl, Bool, true, false, ◌||◌, Option, none, List, if◌then◌else◌,
  ◌==◌, nat_comparable, text_comparable, ltb, All, All-trivial, Bool-cases,
}
use omni_ai_v.Rows.{update_where_imp}
use omni_ai_v.Ingestion.{
  IndexedDocument, update_indexing_progress, mark_indexing_ready, shown_stage, shown_status,
  document_status_payload, detect_stale_indexing,
}

shown_lem :
    (has_chunks : Bool) (stage : String)
    → shown_status has_chunks (shown_stage has_chunks stage) ≡ (
        if stage == "failed"
        then "failed"
        else if has_chunks || stage == "ready"
        then "ready"
        else "indexing")
shown_lem true String.[] = refl
shown_lem false String.[] = refl
shown_lem has_chunks (String.◌∷◌ c s) = elim (Bool-cases has_chunks) [
  | inl e ↦ rw e (elim (Bool-cases (String.◌∷◌ c s == "failed")) [
    | inl f ↦ rw f (rw f refl)
    | inr f ↦ rw f refl
  ])
  | inr e ↦ rw e (elim (Bool-cases (String.◌∷◌ c s == "failed")) [
    | inl f ↦ rw f refl
    | inr f ↦
        rw f
          (elim (Bool-cases (String.◌∷◌ c s == "ready")) [ inl g ↦ rw g refl | inr g ↦ rw g refl ])
  ])
]

ready_lem : (has_chunks : Bool) → shown_status has_chunks (shown_stage has_chunks "ready") ≡ "ready"
ready_lem true = refl
ready_lem false = refl

-- A document is shown as failed exactly in stage `failed`, and else as ready exactly if it has
-- chunks or is in stage `ready`.
pub status_shown :
    (d : IndexedDocument)
    → (document_status_payload d).status ≡ (
        if d.indexing_stage == "failed"
        then "failed"
        else if ltb 0 d.chunks_created || d.indexing_stage == "ready"
        then "ready"
        else "indexing")
unfolding document_status_payload
status_shown d = shown_lem (ltb 0 d.chunks_created) d.indexing_stage

ready_fresh :
    (o : Option String) (has_chunks : Bool) → (if has_chunks || true then none else o) ≡ none
ready_fresh o true = refl
ready_fresh o false = refl

-- The row is another one's, or is shown as ready and reported stale at no time.
abbrev pub ReadyOrOther : ℕ → IndexedDocument → Type 0
ReadyOrOther i d =
    ((d.id == i) ≡ false)
    ⊎ (((document_status_payload d).status ≡ "ready")
        × ((build : IndexedDocument → ℕ → String) (t : ℕ) → detect_stale_indexing build t d ≡ none))

-- A document that is marked ready is shown as ready and is reported stale at no time.
mark_indexing_ready-ReadyOrOther :
    (now : ℕ) (db : List IndexedDocument) (document_id chunk_count : ℕ)
    → All (ReadyOrOther document_id) (mark_indexing_ready now db document_id chunk_count)
unfolding mark_indexing_ready update_indexing_progress document_status_payload detect_stale_indexing
mark_indexing_ready-ReadyOrOther now db i n =
    update_where_imp (λ d. Unit {0}) (ReadyOrOther i) _ _ db
      (λ d t hit. inr (ready_lem (ltb 0 n), λ build at. ready_fresh _ (ltb 0 n)))
      (λ d t miss. inl miss) (All-trivial db)
