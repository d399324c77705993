-- ===== src/Documents/Tests.antt =====
-- The routes of the documents on a small table.
use omni_ai_v.Prelude.{
  ℕ, ◌≡◌, refl, String, true, false, none, some, List, [], ◌∷◌, arith, map, select,
}
use omni_ai_v.Ingestion.{IndexedDocument, document_status_payload}
use omni_ai_v.Ingestion.Worker.{Store}
use omni_ai_v.Documents.{
  Filter, Faults, Order, is_selected, list_documents, documents_indexing_summary,
  delete_document_by_id, delete_document,
}
use omni_ai_v.Prelude.{sort_by, leb, tally-sort_by}
use omni_ai_v.Documents.Pages.{all_pages, list_documents_pages}
use omni_ai_v.Documents.Summary.{IsSummary, documents_indexing_summary-IsSummary}
use omni_ai_v.Documents.Removal.{Removes, delete_document_by_id-Removes}

abbrev document : ℕ → ℕ → String → IndexedDocument
document id user_id stage = record {
  id = id;
  user_id = user_id;
  workspace_id = "default";
  collection_id = 3;
  session_id = none;
  filename = "notes.txt";
  storage_path = "/s/notes.txt";
  chunks_created = 0;
  embeddings_completed = 0;
  indexing_stage = stage;
  indexing_error = none;
  indexing_started_at = none;
  indexing_job_id = none;
  created_at = id;
}

abbrev documents : List IndexedDocument
documents =
    document 1 7 "queued"
    ∷ document 2 7 "failed"
    ∷ document 3 8 "ready"
    ∷ document 4 7 "queued"
    ∷ []

abbrev by_collection : Filter
by_collection = record {
  user_id = 7;
  workspace_id = "default";
  session_id = none;
  collection_id = some 3;
}

abbrev store : Store
store = record {
  documents = documents;
  chunks =
      record {
        text = "a";
        page_number = none;
        filename = "notes.txt";
        user_id = 7;
        workspace_id = "default";
        collection_id = 3;
        session_id = none;
        document_id = 2;
        chunk_index = 0;
      }
      ∷ [];
  files = λ path. true;
  events = [];
}

abbrev no_faults : Faults
no_faults = record { remove_error = λ path. none; store_error = none }

abbrev latest_first : Order
latest_first = sort_by (λ a b. leb b.created_at a.created_at)

first_page :
    map (λ p. p.id) (list_documents latest_first by_collection 2 0 documents).documents ≡ 4 ∷ 2 ∷ []
unfolding list_documents sort_by
first_page = refl

latest_of_name :
    map (λ d. d.id) (delete_document no_faults 7 "x/notes.txt" none store).1.documents
    ≡ 1 ∷ 2 ∷ 3 ∷ []
unfolding delete_document
latest_of_name = refl

-- The file is gone when the vector store raises, and the row is not.
half_deleted :
    (delete_document_by_id
        (record { remove_error = λ path. none; store_error = some "down" })
        7
        2
        store).1.files
      "/s/notes.txt"
    ≡ false
unfolding delete_document_by_id
half_deleted = refl

list_documents_pages_example :
    all_pages (λ offset. latest_first) 4 by_collection 2 0 documents
    ≡ map document_status_payload (latest_first (select (is_selected by_collection) documents))
list_documents_pages_example =
    list_documents_pages (λ offset. latest_first) by_collection 2 documents
      (latest_first (select (is_selected by_collection) documents)) 4
      (record {
        same = λ offset. refl;
        whole = λ p.
            tally-sort_by p (λ a b. leb b.created_at a.created_at)
              (select (is_selected by_collection) documents);
      })
      refl (omega arith) (omega arith)

documents_indexing_summary-IsSummary_example :
    IsSummary
      (select (is_selected by_collection) documents)
      (documents_indexing_summary by_collection documents)
documents_indexing_summary-IsSummary_example =
    documents_indexing_summary-IsSummary by_collection documents refl (refl, (refl, (refl, tt)))

delete_document_by_id-Removes_example :
    Removes no_faults 7 2 store (delete_document_by_id no_faults 7 2 store)
delete_document_by_id-Removes_example = delete_document_by_id-Removes no_faults 7 2 store
