-- ===== src/Workspace/Collections.antt =====
-- backend/app/services/collection_service.py: the collections of documents.
pub mod Ownership
pub mod Requests
pub mod Default
use omni_ai_v.Prelude.{
  ℕ, suc, String, Bool, true, false, ◌&&◌, not, Option, none, some, List, [], ◌∷◌, ◌++◌,
  if◌then◌else◌, ◌==◌, nat_comparable, text_comparable, tally, is_empty, strip,
}
use omni_ai_v.Rows.{find_first, update_where, delete_where}
use omni_ai_v.Workspace.{DocumentCollection, DocumentRecord, Db, Result, ok, value_error}

abbrev pub is_owned : ℕ → ℕ → DocumentCollection → Bool
is_owned user_id collection_id c = c.id == collection_id && c.user_id == user_id

abbrev pub is_default : ℕ → String → DocumentCollection → Bool
is_default user_id workspace_id c =
    c.user_id == user_id && c.workspace_id == workspace_id && c.name == "Default"

unfoldable pub get_owned_collection : Db → ℕ → ℕ → Option DocumentCollection
unfolding find_first
get_owned_collection db user_id collection_id =
    find_first (is_owned user_id collection_id) db.collections

abbrev pub new_default : Db → ℕ → String → DocumentCollection
new_default db user_id workspace_id = record {
  id = db.next_collection;
  user_id = user_id;
  workspace_id = workspace_id;
  name = "Default";
}

abbrev pub or_insert : Db → ℕ → String → Option DocumentCollection → DocumentCollection × Db
or_insert db user_id workspace_id (some collection) = (collection, db)
or_insert db user_id workspace_id none = (
  new_default db user_id workspace_id,
  record db {
    collections = db.collections ++ new_default db user_id workspace_id ∷ [];
    next_collection = suc db.next_collection;
  },
)

unfoldable pub get_or_create_default_collection : Db → ℕ → String → DocumentCollection × Db
get_or_create_default_collection db user_id workspace_id =
    or_insert db user_id workspace_id (find_first (is_default user_id workspace_id) db.collections)

abbrev set_name : String → DocumentCollection → DocumentCollection
set_name name c = record c { name = name }

abbrev pub rename :
    Db → String → Option DocumentCollection → Result (Option DocumentCollection) × Db
rename db name none = (ok none, db)
rename db name (some collection) =
    let cleaned = strip name in
    if is_empty cleaned
    then (value_error "Collection name is required.", db)
    else if collection.name == "Default" && not (cleaned == "Default")
    then (value_error "The default collection cannot be renamed.", db)
    else (
      ok (some (set_name cleaned collection)),
      record db {
        collections = update_where (λ c. c.id == collection.id) (set_name cleaned) db.collections;
      },
    )

unfoldable pub update_collection_name :
    Db → ℕ → ℕ → String → Result (Option DocumentCollection) × Db
update_collection_name db user_id collection_id name =
    rename db name (get_owned_collection db user_id collection_id)

abbrev pub in_collection : ℕ → ℕ → DocumentRecord → Bool
in_collection user_id collection_id d = d.user_id == user_id && d.collection_id == collection_id

abbrev pub move_to : ℕ → DocumentRecord → DocumentRecord
move_to collection_id d = record d { collection_id = collection_id }

-- The update and the delete of `delete_collection`, once the default collection is known.
abbrev pub drain : ℕ → DocumentCollection → DocumentCollection × Db → Db
drain user_id collection (default_collection, db) = record db {
  documents =
      update_where (in_collection user_id collection.id) (move_to default_collection.id)
        db.documents;
  collections = delete_where (λ c. c.id == collection.id) db.collections;
}

abbrev pub remove : Db → ℕ → Option DocumentCollection → Result Bool × Db
remove db user_id none = (ok false, db)
remove db user_id (some collection) =
    if collection.name == "Default"
    then (value_error "The default collection cannot be deleted.", db)
    else (
      ok true,
      drain user_id collection
          (get_or_create_default_collection db user_id collection.workspace_id),
    )

unfoldable pub delete_collection : Db → ℕ → ℕ → Result Bool × Db
delete_collection db user_id collection_id =
    remove db user_id (get_owned_collection db user_id collection_id)

abbrev pub move_found :
    Db → Option DocumentRecord → Option DocumentCollection → Result (Option DocumentRecord) × Db
move_found db none collection = (ok none, db)
move_found db (some document) none = (value_error "Collection not found.", db)
move_found db (some document) (some collection) = (
  ok (some (move_to collection.id document)),
  record db {
    documents =
        update_where (λ d. d.id == document.id) (λ d. move_to collection.id document) db.documents;
  },
)

unfoldable pub move_document_to_collection : Db → ℕ → ℕ → ℕ → Result (Option DocumentRecord) × Db
move_document_to_collection db user_id document_id collection_id =
    move_found db (find_first (λ d. d.id == document_id && d.user_id == user_id) db.documents)
      (get_owned_collection db user_id collection_id)

unfoldable pub collection_document_count : Db → ℕ → ℕ
collection_document_count db collection_id =
    tally (λ d. d.collection_id == collection_id) db.documents
