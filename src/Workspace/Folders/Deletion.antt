-- ===== src/Workspace/Folders/Deletion.antt =====
-- delete_folder of backend/app/services/folder_service.py.
use omni_ai_v.Prelude.{
  ℕ, ◌≡◌, refl, true, false, not, List, arith, ◌==◌, nat_comparable, select, tally, tally_zero, All,
  All-trivial, inl, inr, Option-cases,
}
use omni_ai_v.Rows.{
  find_first, find_first-All, find_first_sound, update_where_imp, delete_where_gone,
  select-update_where, select-delete_where-All,
}
use omni_ai_v.Workspace.{ChatFolder, ChatSession, Db}
use omni_ai_v.Workspace.Folders.{is_owned, in_folder, get_owned_folder, delete_folder, clear_folder}
use omni_ai_v.Workspace.Folders.Ownership.{IsOrganized, SameOwner}

cleared-in_folder : (u i : ℕ) (s : ChatSession) → in_folder u i (clear_folder s) ≡ false
cleared-in_folder u i s = ground arith

-- A successful delete leaves the user no session in the folder and no folder of that key.
delete_folder_gone :
    (db : Db) (user_id folder_id : ℕ)
    → (delete_folder db user_id folder_id).0 ≡ true
    → (tally (in_folder user_id folder_id) (delete_folder db user_id folder_id).1.sessions ≡ 0)
      × All (λ f. (f.id == folder_id) ≡ false) (delete_folder db user_id folder_id).1.folders
unfolding delete_folder get_owned_folder
delete_folder_gone db user_id folder_id h =
    elim (Option-cases (find_first (is_owned user_id folder_id) db.folders)) [
      | inl absent ↦ absurd (cc (rw absent at h))
      | inr (folder, found) ↦
          let own = find_first_sound (is_owned user_id folder_id) db.folders found in
          let same : folder_id ≡ folder.id = ground arith in
          rw (found, same)
            (
              tally_zero _ _ (
                  update_where_imp (λ s. Unit {0}) _ (in_folder user_id folder.id) clear_folder
                    db.sessions (λ s t e. cleared-in_folder user_id folder.id s) (λ s t e. e)
                    (All-trivial db.sessions)),
              delete_where_gone (λ f. f.id == folder.id) db.folders,
            )
    ]

abbrev pub other_sessions : ℕ → Db → List ChatSession
other_sessions user_id db = select (λ s. not (s.user_id == user_id)) db.sessions

abbrev pub other_folders : ℕ → Db → List ChatFolder
other_folders user_id db = select (λ f. not (f.user_id == user_id)) db.folders

-- Rows of one key belong to one user, so the delete by key takes none of another user.
apart :
    (user_id folder_id : ℕ) (folder f : ChatFolder)
    → is_owned user_id folder_id folder ≡ true
    → SameOwner folder f
    → (f.id == folder.id) ≡ true
    → not (f.user_id == user_id) ≡ false
apart user_id folder_id folder f own same e =
    let p : f.id ≡ folder.id = ground arith in
    let q : f.user_id ≡ folder.user_id = same p in ground arith

-- In a state in which rows of one key have one owner (`IsOrganized`), deleting a folder leaves the
-- sessions and the folders of all other users as they were.
delete_folder_others :
    (db : Db) (user_id folder_id : ℕ)
    → IsOrganized db
    → (other_sessions user_id (delete_folder db user_id folder_id).1 ≡ other_sessions user_id db)
      × (other_folders user_id (delete_folder db user_id folder_id).1 ≡ other_folders user_id db)
unfolding delete_folder get_owned_folder
delete_folder_others db user_id folder_id h =
    elim (Option-cases (find_first (is_owned user_id folder_id) db.folders)) [
      | inl absent ↦ rw absent (refl, refl)
      | inr (folder, found) ↦
          let (own, one) =
            find_first-All (λ f. All (SameOwner f) db.folders) (is_owned user_id folder_id)
              db.folders found h.one_owner in
          rw found (
            select-update_where _ (in_folder user_id folder.id) clear_folder db.sessions
                (λ s e. ground arith) (λ s e. ground arith),
            select-delete_where-All (SameOwner folder) _ _ db.folders
                (λ f same e. apart user_id folder_id folder f own same e) one,
          )
    ]
