-- ===== src/Workspace/Collections/Ownership/Changes.antt =====
-- The owners of documents after a rename or a move.
use omni_ai_v.Prelude.{
  ℕ, String, ◌≡◌, refl, ◌∙◌, ◌&&◌, not, Option, none, some, List, arith, ◌==◌, nat_comparable,
  text_comparable, is_empty, strip, All, All-imp, Bool-cases, inl, inr,
}
use omni_ai_v.Rows.{
  update_where, find_first_sound, any_of_found, All-update_where, update_where_imp,
  any-update_where,
}
use omni_ai_v.Workspace.{DocumentCollection, DocumentRecord, Db}
use omni_ai_v.Workspace.Collections.{
  is_owned, get_owned_collection, get_or_create_default_collection, update_collection_name, rename,
  set_name, move_found, move_document_to_collection,
}
use omni_ai_v.Workspace.Collections.Ownership.{Filed, IsFiled, SameRow, or_insert-Defaulted}

abbrev renamed : String → ℕ → List DocumentCollection → List DocumentCollection
renamed name i = update_where (λ c. c.id == i) (set_name name)

-- A rename by key reaches all rows of the key, so rows with one key still agree.
renamed-SameRow :
    (name : String) (i : ℕ) (cs : List DocumentCollection)
    → All (λ c. All (SameRow c) cs) cs
    → All (λ c. All (SameRow c) (renamed name i cs)) (renamed name i cs)
renamed-SameRow name i cs h =
    update_where_imp (λ c. All (SameRow c) cs) _ _ (set_name name) cs
      (λ c p hit.
        update_where_imp (SameRow c) _ _ (set_name name) cs (λ b q hit' e. ((q e).0, refl))
          (λ b q miss e. absurd (ground arith)) p)
      (λ c p miss.
        update_where_imp (SameRow c) _ _ (set_name name) cs (λ b q hit e. absurd (ground arith))
          (λ b q miss' e. q e) p)
      h

renamed-IsFiled :
    (name : String) (i : ℕ) (db : Db)
    → IsFiled db
    → IsFiled (record db { collections = renamed name i db.collections })
renamed-IsFiled name i db h = record {
  fresh = All-update_where _ _ _ db.collections (λ c p e. p) h.fresh;
  one_row = renamed-SameRow name i db.collections h.one_row;
  filed =
      All-imp db.documents
        (λ d p.
          any-update_where (is_owned d.user_id d.collection_id) _ _ db.collections (λ c. refl) ∙ p)
        h.filed;
}

rename-IsFiled :
    (db : Db) (name : String) (o : Option DocumentCollection)
    → IsFiled db
    → IsFiled (rename db name o).1
rename-IsFiled db name none h = h
rename-IsFiled db name (some c) h = elim (Bool-cases (is_empty (strip name))) [
  | inl e ↦ rw e h
  | inr e ↦ elim (Bool-cases (c.name == "Default" && not (strip name == "Default"))) [
    | inl kept ↦ rw (e, kept) h
    | inr free ↦ rw (e, free) (renamed-IsFiled (strip name) c.id db h)
  ]
]

pub update_collection_name-IsFiled :
    (db : Db) (user_id collection_id : ℕ) (name : String)
    → IsFiled db
    → IsFiled (update_collection_name db user_id collection_id name).1
unfolding update_collection_name
update_collection_name-IsFiled db user_id collection_id name h =
    rename-IsFiled db name (get_owned_collection db user_id collection_id) h

pub get_or_create_default_collection-IsFiled :
    (db : Db) (user_id : ℕ) (workspace_id : String)
    → IsFiled db
    → IsFiled (get_or_create_default_collection db user_id workspace_id).1
unfolding get_or_create_default_collection
get_or_create_default_collection-IsFiled db user_id workspace_id h =
    (or_insert-Defaulted db user_id workspace_id _ refl h).state

move_found-IsFiled :
    (db : Db) (user_id collection_id : ℕ) (d : Option DocumentRecord)
    (c : Option DocumentCollection)
    → ((x : DocumentRecord) → d ≡ some x → x.user_id ≡ user_id)
    → get_owned_collection db user_id collection_id ≡ c
    → IsFiled db
    → IsFiled (move_found db d c).1
unfolding get_owned_collection
move_found-IsFiled db user_id collection_id none c owner found h = h
move_found-IsFiled db user_id collection_id (some d) none owner found h = h
move_found-IsFiled db user_id collection_id (some d) (some c) owner found h =
    let u = owner d refl in
    let own = find_first_sound (is_owned user_id collection_id) db.collections found in
    record {
      fresh = h.fresh;
      one_row = h.one_row;
      filed =
          All-update_where (Filed db.collections) _ _ db.documents
            (λ x p e.
              any_of_found (is_owned d.user_id c.id) (is_owned user_id collection_id) db.collections
                found (ground arith))
            h.filed;
    }

pub move_document_to_collection-IsFiled :
    (db : Db) (user_id document_id collection_id : ℕ)
    → IsFiled db
    → IsFiled (move_document_to_collection db user_id document_id collection_id).1
unfolding move_document_to_collection
move_document_to_collection-IsFiled db user_id document_id collection_id h =
    move_found-IsFiled db user_id collection_id _ (get_owned_collection db user_id collection_id)
      (λ x e.
        let own =
          find_first_sound (λ d. d.id == document_id && d.user_id == user_id) db.documents e in
        ground arith)
      refl h
