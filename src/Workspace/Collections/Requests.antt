-- ===== src/Workspace/Collections/Requests.antt =====
-- Sequences of requests to backend/app/services/collection_service.py.
use omni_ai_v.Prelude.{ℕ, String, List, [], ◌∷◌}
use omni_ai_v.Workspace.{Db}
use omni_ai_v.Workspace.Collections.{
  get_or_create_default_collection, update_collection_name, delete_collection,
  move_document_to_collection,
}
use omni_ai_v.Workspace.Collections.Ownership.{IsFiled}
use omni_ai_v.Workspace.Collections.Ownership.Changes.{
  get_or_create_default_collection-IsFiled, update_collection_name-IsFiled,
  move_document_to_collection-IsFiled,
}
use omni_ai_v.Workspace.Collections.Ownership.Deletion.{delete_collection-IsFiled}

-- One request to the collection services.
pub data CollectionRequest : Type 0 where
  default_of : (user_id : ℕ) (workspace_id : String) → CollectionRequest
  rename_to : (user_id collection_id : ℕ) (name : String) → CollectionRequest
  drop_it : (user_id collection_id : ℕ) → CollectionRequest
  move_in : (user_id document_id collection_id : ℕ) → CollectionRequest

unfoldable pub handle : Db → CollectionRequest → Db
handle db (default_of user_id workspace_id) =
    (get_or_create_default_collection db user_id workspace_id).1
handle db (rename_to user_id collection_id name) =
    (update_collection_name db user_id collection_id name).1
handle db (drop_it user_id collection_id) = (delete_collection db user_id collection_id).1
handle db (move_in user_id document_id collection_id) =
    (move_document_to_collection db user_id document_id collection_id).1

unfoldable pub handle_all : Db → List CollectionRequest → Db
unfolding handle
handle_all db [] = db
handle_all db (r ∷ rest) = handle_all (handle db r) rest

handle-IsFiled : (db : Db) (r : CollectionRequest) → IsFiled db → IsFiled (handle db r)
unfolding handle
handle-IsFiled db (default_of u w) h = get_or_create_default_collection-IsFiled db u w h
handle-IsFiled db (rename_to u c n) h = update_collection_name-IsFiled db u c n h
handle-IsFiled db (drop_it u c) h = delete_collection-IsFiled db u c h
handle-IsFiled db (move_in u d c) h = move_document_to_collection-IsFiled db u d c h

-- If every document's collection exists and is its user's, the primary keys of the collections are
-- below the next one, and rows of one key agree on owner and name, then this is so after any
-- requests to the collection services.
pub handle_all-IsFiled :
    (db : Db) (requests : List CollectionRequest) → IsFiled db → IsFiled (handle_all db requests)
unfolding handle_all
handle_all-IsFiled db [] h = h
handle_all-IsFiled db (r ∷ rest) h = handle_all-IsFiled (handle db r) rest (handle-IsFiled db r h)
