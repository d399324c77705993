-- ===== src/Workspace/Folders/Ownership/Deletion.antt =====
-- The owners of sessions after delete_folder.
use omni_ai_v.Prelude.{
  ℕ, ◌≡◌, refl, false, Option, none, some, arith, ◌==◌, nat_comparable, text_comparable, All,
  All-imp, Bool-cases, inl, inr,
}
use omni_ai_v.Rows.{
  delete_where, find_first-All, any-All, All-delete_where, update_where_imp, any-delete_where,
}
use omni_ai_v.Workspace.{ChatFolder, ChatSession, Db}
use omni_ai_v.Workspace.Folders.{
  is_owned, in_folder, get_owned_folder, delete_folder, clear_folder, remove,
}
use omni_ai_v.Workspace.Folders.Ownership.{IsOrganized, PlacedAt, SameOwner}

-- A reference that survives the update of `delete_folder` is to a folder that survives too.
cleared_placed :
    (db : Db) (user_id : ℕ) (folder : ChatFolder)
    → IsOrganized db
    → folder.user_id ≡ user_id
    → All (SameOwner folder) db.folders
    → (s : ChatSession) → PlacedAt db.folders s.user_id s.folder_id
    → in_folder user_id folder.id s ≡ false
    → PlacedAt (delete_where (λ f. f.id == folder.id) db.folders) s.user_id s.folder_id
cleared_placed db user_id folder h owner one s p e = go s.folder_id refl
  where
    go :
        (o : Option ℕ)
        → s.folder_id ≡ o
        → PlacedAt (delete_where (λ f. f.id == folder.id) db.folders) s.user_id o
    go none q = tt
    go (some i) q = elim (Bool-cases (i == folder.id)) [
      | inl hit ↦
          let (g, own, same) =
            any-All (SameOwner folder) (is_owned s.user_id i) db.folders (rw q at p) one in
          let at_folder : g.id ≡ folder.id = ground arith in
          let owned : g.user_id ≡ folder.user_id = same at_folder in absurd (ground arith)
      | inr miss ↦
          any-delete_where (is_owned s.user_id i) _ db.folders (λ f o. ground arith) (rw q at p)
    ]

remove-IsOrganized :
    (db : Db) (user_id folder_id : ℕ) (o : Option ChatFolder)
    → get_owned_folder db user_id folder_id ≡ o
    → IsOrganized db
    → IsOrganized (remove db user_id o).1
unfolding get_owned_folder
remove-IsOrganized db user_id folder_id none found h = h
remove-IsOrganized db user_id folder_id (some folder) found h =
    let (own, one) =
      find_first-All (λ f. All (SameOwner f) db.folders) (is_owned user_id folder_id) db.folders
        found h.one_owner in
    record {
      fresh = All-delete_where _ _ db.folders h.fresh;
      one_owner =
          All-delete_where _ _ db.folders
            (All-imp db.folders (λ f p. All-delete_where (SameOwner f) _ db.folders p) h.one_owner);
      placed =
          update_where_imp _ _ (in_folder user_id folder.id) clear_folder db.sessions (λ s p e. tt)
            (λ s p e. cleared_placed db user_id folder h (ground arith) one s p e) h.placed;
    }

pub delete_folder-IsOrganized :
    (db : Db) (user_id folder_id : ℕ)
    → IsOrganized db
    → IsOrganized (delete_folder db user_id folder_id).1
unfolding delete_folder
delete_folder-IsOrganized db user_id folder_id h =
    remove-IsOrganized db user_id folder_id (get_owned_folder db user_id folder_id) refl h
