-- ===== src/Workspace/Collections/Ownership/Deletion.antt =====
-- The owners of documents after delete_collection.
use omni_ai_v.Prelude.{
  ℕ, ◌<◌, ◌≡◌, refl, true, false, ◌&&◌, Option, none, some, List, arith, ◌==◌, nat_comparable,
  text_comparable, any, All, All-imp, All-both, Bool-cases, inl, inr,
}
use omni_ai_v.Rows.{
  delete_where, find_first-All, any-All, All-delete_where, update_where_imp, any-imp,
  any-delete_where,
}
use omni_ai_v.Workspace.{DocumentCollection, DocumentRecord, Db}
use omni_ai_v.Workspace.Collections.{
  is_owned, get_owned_collection, get_or_create_default_collection, in_collection, move_to, drain,
  remove, delete_collection,
}
use omni_ai_v.Workspace.Collections.Ownership.{Filed, IsFiled, SameRow, or_insert-Defaulted}

-- A document whose collection is deleted moves to the default; any other keeps its collection.
module _ (user_id : ℕ) (collection target : DocumentCollection) (after : Db) (state : IsFiled after)
    (same : All (SameRow collection) after.collections) (owner : collection.user_id ≡ user_id)
    (ordinary : (collection.name == "Default") ≡ false)
    (stored : any
        (λ b. b.id == target.id && b.user_id == user_id && b.name == "Default")
        after.collections
      ≡ true) where
  abbrev rest : List DocumentCollection
  rest = delete_where (λ c. c.id == collection.id) after.collections

  pub target_differs : (target.id == collection.id) ≡ false
  target_differs =
      let (b, own, agrees) = any-All (SameRow collection) _ after.collections stored same in
      elim (Bool-cases (target.id == collection.id)) [
        | inr e ↦ e
        | inl e ↦
            let at_row : b.id ≡ collection.id = ground arith in
            let name : b.name ≡ collection.name = (agrees at_row).1 in
            let named : (b.name == "Default") ≡ true = ground arith in absurd (cc name)
      ]

  target_kept : any (is_owned user_id target.id) rest ≡ true
  target_kept =
      any-delete_where (is_owned user_id target.id) _ after.collections
        (λ c o. ground (arith, target_differs))
        (any-imp _ (is_owned user_id target.id) after.collections (λ b o. ground arith) stored)

  other_kept :
      (d : DocumentRecord)
      → Filed after.collections d
      → in_collection user_id collection.id d ≡ false
      → Filed rest d
  other_kept d p e = elim (Bool-cases (d.collection_id == collection.id)) [
    | inl hit ↦
        let (b, own, agrees) =
          any-All (SameRow collection) (is_owned d.user_id d.collection_id) after.collections p
            same in
        let at_row : b.id ≡ collection.id = ground arith in
        let owned : b.user_id ≡ collection.user_id = (agrees at_row).0 in absurd (ground arith)
    | inr miss ↦
        any-delete_where (is_owned d.user_id d.collection_id) _ after.collections
          (λ c o. ground arith) p
  ]

  drain-IsFiled : IsFiled (drain user_id collection (target, after))
  drain-IsFiled = record {
    fresh = All-delete_where _ _ after.collections state.fresh;
    one_row = All-delete_where _ _ after.collections (
        All-imp after.collections (λ c p. All-delete_where (SameRow c) _ after.collections p)
          state.one_row);
    filed =
        update_where_imp _ _ (in_collection user_id collection.id) (move_to target.id)
          after.documents (λ d p e. let u : d.user_id ≡ user_id = ground arith in rw u target_kept)
          other_kept state.filed;
  }

remove-IsFiled :
    (db : Db) (user_id collection_id : ℕ) (o : Option DocumentCollection)
    → get_owned_collection db user_id collection_id ≡ o
    → IsFiled db
    → IsFiled (remove db user_id o).1
unfolding get_owned_collection get_or_create_default_collection
remove-IsFiled db user_id collection_id none found h = h
remove-IsFiled db user_id collection_id (some c) found h = elim (Bool-cases (c.name == "Default")) [
  | inl e ↦ rw e h
  | inr e ↦
      let (own, (below, same)) =
        find_first-All (λ b. (b.id < db.next_collection) × All (SameRow b) db.collections)
          (is_owned user_id collection_id) db.collections found
          (All-both _ _ db.collections h.fresh h.one_row) in
      let d = or_insert-Defaulted db user_id c.workspace_id _ refl h in
      rw e (
        drain-IsFiled user_id c (get_or_create_default_collection db user_id c.workspace_id).0
          (get_or_create_default_collection db user_id c.workspace_id).1 d.state
          (d.extends c below same) (ground arith) e d.stored)
]

pub delete_collection-IsFiled :
    (db : Db) (user_id collection_id : ℕ)
    → IsFiled db
    → IsFiled (delete_collection db user_id collection_id).1
unfolding delete_collection
delete_collection-IsFiled db user_id collection_id h =
    remove-IsFiled db user_id collection_id (get_owned_collection db user_id collection_id) refl h
