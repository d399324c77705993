-- ===== src/Workspace/Collections/Ownership.antt =====
-- The owners of documents and collections under the single operations of
-- backend/app/services/collection_service.py.
pub mod Deletion
pub mod Changes
use omni_ai_v.Prelude.{
  ℕ, ◌<◌, String, ◌≡◌, refl, ◌∙◌, true, false, ◌&&◌, not, Option, none, some, List, [], ◌∷◌, ◌++◌,
  arith, ◌==◌, nat_comparable, text_comparable, any, is_empty, strip, All, All-append, All-imp,
  All-both, Bool-cases, inl, inr, beq_refl,
}
use omni_ai_v.Rows.{
  find_first, update_where, delete_where, find_first-All, find_first_sound, any-All, any_of_found,
  All-update_where, All-delete_where, update_where_imp, any-append_left, any-append_right, any-imp,
  any-delete_where, any-update_where,
}
use omni_ai_v.Workspace.{DocumentCollection, DocumentRecord, Db}
use omni_ai_v.Workspace.Collections.{
  is_owned, is_default, get_owned_collection, get_or_create_default_collection, new_default,
  or_insert, update_collection_name, rename, set_name, in_collection, move_to, drain, remove,
  delete_collection, move_found, move_document_to_collection,
}

abbrev pub Filed : List DocumentCollection → DocumentRecord → Type 0
Filed cs d = any (is_owned d.user_id d.collection_id) cs ≡ true

-- Rows with one key agree on the owner and the name.
abbrev pub SameRow : DocumentCollection → DocumentCollection → Type 0
SameRow c b = b.id ≡ c.id → (b.user_id ≡ c.user_id) × (b.name ≡ c.name)

pub record IsFiled (db : Db) : Type 0 where
  pub fresh : All (λ c. c.id < db.next_collection) db.collections
  pub one_row : All (λ c. All (SameRow c) db.collections) db.collections
  pub filed : All (Filed db.collections) db.documents

-- What `get_or_create_default_collection` returns is a default collection of the user that is
-- stored, and the rest of the state is as it was.
pub record Defaulted (user_id : ℕ) (db : Db) (c : DocumentCollection) (after : Db) : Type 0 where
  pub stored :
      any (λ b. b.id == c.id && b.user_id == user_id && b.name == "Default") after.collections
      ≡ true
  pub state : IsFiled after
  pub same_documents : after.documents ≡ db.documents
  pub extends :
      (d : DocumentCollection)
      → d.id < db.next_collection
      → All (SameRow d) db.collections
      → All (SameRow d) after.collections

SameRow-append :
    (db : Db) (user_id : ℕ) (workspace_id : String) (cs : List DocumentCollection)
    → All (λ c. c.id < db.next_collection) cs
    → All (λ c. All (SameRow c) db.collections) cs
    → All (λ c. All (SameRow c) (db.collections ++ new_default db user_id workspace_id ∷ [])) cs
SameRow-append db user_id workspace_id [] p q = tt
SameRow-append db user_id workspace_id (c ∷ cs) p q = (
  All-append (SameRow c) db.collections _ q.0 (λ e. absurd (omega (arith, p.0)), tt),
  SameRow-append db user_id workspace_id cs p.1 q.1,
)

pub or_insert-Defaulted :
    (db : Db) (user_id : ℕ) (workspace_id : String) (o : Option DocumentCollection)
    → find_first (is_default user_id workspace_id) db.collections ≡ o
    → IsFiled db
    → Defaulted user_id db
        (or_insert db user_id workspace_id o).0
        (or_insert db user_id workspace_id o).1
or_insert-Defaulted db user_id workspace_id (some c) found h =
    let own = find_first_sound (is_default user_id workspace_id) db.collections found in
    record {
      stored =
          any_of_found _ (is_default user_id workspace_id) db.collections found
            (rw (beq_refl c.id) (ground arith));
      state = h;
      same_documents = refl;
      extends = λ d below same. same;
    }
or_insert-Defaulted db user_id workspace_id none found h =
    let new = new_default db user_id workspace_id in
    record {
      stored = any-append_right _ db.collections (new ∷ []) (simp beq_refl);
      state = record {
        fresh =
            All-append _ db.collections _ (All-imp db.collections (λ c p. omega arith) h.fresh)
              (omega arith, tt);
        one_row =
            All-append _ db.collections _
              (SameRow-append db user_id workspace_id db.collections h.fresh h.one_row)
              (
                All-append _ db.collections _
                    (All-imp db.collections (λ c p e. absurd (omega arith)) h.fresh)
                    (λ e. (refl, refl), tt),
                tt,
              );
        filed = All-imp db.documents (λ d p. any-append_left _ db.collections _ p) h.filed;
      };
      same_documents = refl;
      extends = λ d below same.
          All-append (SameRow d) db.collections _ same (λ e. absurd (omega arith), tt);
    }
