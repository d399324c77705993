-- ===== src/Workspace/Collections/Default.antt =====
-- delete_collection of backend/app/services/collection_service.py and the default collection.
use mathlib.Core.Bool.{and-false}
use omni_ai_v.Prelude.{
  ℕ, ◌<◌, String, ◌≡◌, refl, ◌∙◌, ap, true, false, Option, none, some, arith, ◌==◌, nat_comparable,
  text_comparable, any, length, tally, tally_zero, strip, All, All-both, All-trivial, Bool-cases,
  Option-cases, inl, inr, beq_refl,
}
use omni_ai_v.Rows.{
  find_first, find_first-All, any-append_left, any-delete_where-All, find_first-update_where,
  length-update_where, update_where_imp,
}
use omni_ai_v.Workspace.{DocumentCollection, DocumentRecord, Db, ok, value_error}
use omni_ai_v.Workspace.Collections.{
  is_owned, is_default, get_owned_collection, get_or_create_default_collection, or_insert,
  update_collection_name, set_name, in_collection, move_to, delete_collection,
}
use omni_ai_v.Workspace.Collections.Ownership.{IsFiled, SameRow, or_insert-Defaulted}
use omni_ai_v.Workspace.Collections.Ownership.Deletion.{target_differs}

abbrev pub HasDefault : ℕ → String → Db → Type 0
HasDefault user_id workspace_id db = any (is_default user_id workspace_id) db.collections ≡ true

or_insert-HasDefault :
    (db : Db) (v : ℕ) (x : String) (o : Option DocumentCollection) (user_id : ℕ)
    (workspace_id : String)
    → HasDefault user_id workspace_id db
    → HasDefault user_id workspace_id (or_insert db v x o).1
or_insert-HasDefault db v x none u w h = any-append_left (is_default u w) db.collections _ h
or_insert-HasDefault db v x (some c) u w h = h

-- A row with the key of an ordinary collection is no default collection.
ordinary_kept :
    (owner : ℕ) (workspace_id : String) (c b : DocumentCollection)
    → (c.name == "Default") ≡ false
    → SameRow c b
    → is_default owner workspace_id b ≡ true
    → (b.id == c.id) ≡ false
ordinary_kept owner workspace_id c b ordinary agrees q = elim (Bool-cases (b.id == c.id)) [
  | inr e ↦ e
  | inl e ↦
      let at_row : b.id ≡ c.id = ground arith in
      let name : b.name ≡ c.name = (agrees at_row).1 in absurd (ground arith)
]

-- In a state that `IsFiled` describes, no delete takes a default collection away, whoever asks for
-- it.
pub delete_collection-HasDefault :
    (db : Db) (user_id collection_id owner : ℕ) (workspace_id : String)
    → IsFiled db
    → HasDefault owner workspace_id db
    → HasDefault owner workspace_id (delete_collection db user_id collection_id).1
unfolding delete_collection get_owned_collection get_or_create_default_collection
delete_collection-HasDefault db user_id collection_id owner workspace_id h has =
    elim (Option-cases (find_first (is_owned user_id collection_id) db.collections)) [
      | inl absent ↦ rw absent has
      | inr (c, found) ↦ elim (Bool-cases (c.name == "Default")) [
        | inl e ↦ rw found (rw e has)
        | inr e ↦
            let (own, (below, same)) =
              find_first-All (λ b. (b.id < db.next_collection) × All (SameRow b) db.collections)
                (is_owned user_id collection_id) db.collections found
                (All-both _ _ db.collections h.fresh h.one_row) in
            let d = or_insert-Defaulted db user_id c.workspace_id _ refl h in
            rw found (
              rw e (
                any-delete_where-All (SameRow c) (is_default owner workspace_id) _ _
                  (λ b agrees q. ordinary_kept owner workspace_id c b e agrees q)
                  (d.extends c below same)
                  (or_insert-HasDefault db user_id c.workspace_id _ owner workspace_id has)))
      ]
    ]

-- An ordinary collection that is renamed to `Default` can no longer be deleted.
renamed_to_default_stays :
    (db : Db) (user_id collection_id : ℕ) {c : DocumentCollection}
    → get_owned_collection db user_id collection_id ≡ some c
    → (delete_collection
        (update_collection_name db user_id collection_id "Default").1
        user_id
        collection_id).0
      ≡ value_error "The default collection cannot be deleted."
unfolding delete_collection update_collection_name get_owned_collection strip
renamed_to_default_stays db user_id collection_id {c} found =
    let again =
      find_first-update_where (is_owned user_id collection_id) (λ b. b.id == c.id)
        (set_name "Default") db.collections {x = c} (λ b. refl) found in
    rw (found, and-false) (rw again (rw (beq_refl c.id)))

in_moved :
    (user_id i j : ℕ) (d : DocumentRecord)
    → (j == i) ≡ false
    → in_collection user_id i (move_to j d) ≡ false
in_moved user_id i j d e = ground arith

-- In a state that `IsFiled` describes, a delete that succeeds leaves the user no document in the
-- collection and loses none.
delete_collection_moves :
    (db : Db) (user_id collection_id : ℕ)
    → IsFiled db
    → (delete_collection db user_id collection_id).0 ≡ ok true
    → (tally
          (in_collection user_id collection_id)
          (delete_collection db user_id collection_id).1.documents
        ≡ 0)
      × (length (delete_collection db user_id collection_id).1.documents ≡ length db.documents)
unfolding delete_collection get_owned_collection get_or_create_default_collection
delete_collection_moves db user_id collection_id h deleted =
    elim (Option-cases (find_first (is_owned user_id collection_id) db.collections)) [
      | inl absent ↦ absurd (cc (rw absent at deleted))
      | inr (c, found) ↦ elim (Bool-cases (c.name == "Default")) [
        | inl e ↦ absurd (cc (rw (found, e) at deleted))
        | inr e ↦
            let (own, (below, same)) =
              find_first-All (λ b. (b.id < db.next_collection) × All (SameRow b) db.collections)
                (is_owned user_id collection_id) db.collections found
                (All-both _ _ db.collections h.fresh h.one_row) in
            let d = or_insert-Defaulted db user_id c.workspace_id _ refl h in
            let (target, after) = get_or_create_default_collection db user_id c.workspace_id in
            let differs =
              target_differs user_id c target after d.state (d.extends c below same) (ground arith)
                e d.stored in
            let at_id : collection_id ≡ c.id = ground arith in
            rw (found, at_id)
              (rw e (
                tally_zero _ _ (
                    update_where_imp (λ x. Unit {0}) _ (in_collection user_id c.id)
                      (move_to target.id) after.documents
                      (λ x t hit. in_moved user_id c.id target.id x differs) (λ x t miss. miss)
                      (All-trivial after.documents)),
                length-update_where _ _ after.documents ∙ ap (λ l. length l) d.same_documents,
              ))
      ]
    ]
