-- ===== src/Workspace/Folders/Names.antt =====
-- create_folder of backend/app/services/folder_service.py and the names of folders.
use omni_ai_v.Prelude.{
  ℕ, ◌≤◌, String, ◌≡◌, refl, true, none, List, [], ◌∷◌, ◌++◌, arith, if◌then◌else◌, nat_comparable,
  text_comparable, beq_refl, eq_of_beq, Bool-cases, Option-cases, inl, inr, is_empty, strip, tally,
  tally_zero, tally-append,
}
use omni_ai_v.Rows.{find_first, find_first_sound, find_first_append, find_first-none}
use omni_ai_v.Workspace.{ChatFolder, Db, ok, value_error}
use omni_ai_v.Workspace.Folders.{is_named, create_folder, insert_folder, new_folder}

-- A name that is only white space is refused and nothing is stored.
-- Otherwise the folder returned is the user's, in the workspace, under the stripped name.
create_folder_result :
    (db : Db) (user_id : ℕ) (name workspace_id : String)
    → if is_empty (strip name)
      then create_folder db user_id name workspace_id ≡ (value_error "Folder name is required.", db)
      else ((f : ChatFolder) × ((create_folder db user_id name workspace_id).0 ≡ ok f)
          × (is_named user_id workspace_id (strip name) f ≡ true))
unfolding create_folder insert_folder
create_folder_result db user_id name workspace_id = elim (Bool-cases (is_empty (strip name))) [
  | inl e ↦ rw e refl
  | inr e ↦
      rw e
        (elim (Option-cases (find_first (is_named user_id workspace_id (strip name)) db.folders)) [
          | inl absent ↦ rw absent (_, refl, simp beq_refl)
          | inr (f, found) ↦ rw found (f, refl, find_first_sound _ db.folders found)
        ])
]

-- Creating a folder again returns the folder of the first call and stores nothing new.
create_folder_twice :
    (db : Db) (user_id : ℕ) (name workspace_id : String)
    → create_folder (create_folder db user_id name workspace_id).1 user_id name workspace_id
      ≡ create_folder db user_id name workspace_id
unfolding create_folder insert_folder
create_folder_twice db user_id name workspace_id = elim (Bool-cases (is_empty (strip name))) [
  | inl e ↦ rw e refl
  | inr e ↦
      rw e
        (elim (Option-cases (find_first (is_named user_id workspace_id (strip name)) db.folders)) [
          | inl absent ↦ rw absent (
              rw (
                find_first_append (is_named user_id workspace_id (strip name)) db.folders
                  (new_folder db user_id workspace_id (strip name)) absent (simp beq_refl)))
          | inr (f, found) ↦ rw found (rw found)
        ])
]

-- No two folders of one user in one workspace have one name.
abbrev pub NamesUnique : Db → Type 0
NamesUnique db =
    (user_id : ℕ) (workspace_id name : String)
    → tally (is_named user_id workspace_id name) db.folders ≤ 1

-- Two tests that one folder passes are the same test.
is_named_inj :
    (u : ℕ) (w n : String) (f : ChatFolder)
    → is_named u w n f ≡ true
    → (f.user_id ≡ u) × (f.workspace_id ≡ w) × (f.name ≡ n)
is_named_inj u w n f h = (
  eq_of_beq f.user_id u (ground arith),
  eq_of_beq f.workspace_id w (ground arith),
  eq_of_beq f.name n (ground arith),
)

appended_unique :
    (fs : List ChatFolder) (new : ChatFolder) (u : ℕ) (w n : String)
    → tally (is_named u w n) fs ≤ 1
    → find_first (is_named new.user_id new.workspace_id new.name) fs ≡ none
    → tally (is_named u w n) (fs ++ new ∷ []) ≤ 1
appended_unique fs new u w n h absent = elim (Bool-cases (is_named u w n new)) [
  | inr e ↦ rw (tally-append (is_named u w n) fs (new ∷ []), e) (omega arith)
  | inl e ↦
      let (p, q, r) = is_named_inj u w n new e in
      let none_yet : tally (is_named u w n) fs ≡ 0 =
        rw (← p, ← q, ← r) (tally_zero _ fs (find_first-none _ fs absent)) in
      rw (tally-append (is_named u w n) fs (new ∷ []), e, none_yet) (omega arith)
]

-- `create_folder` keeps the names unique.
create_folder-NamesUnique :
    (db : Db) (user_id : ℕ) (name workspace_id : String)
    → NamesUnique db
    → NamesUnique (create_folder db user_id name workspace_id).1
unfolding create_folder insert_folder
create_folder-NamesUnique db user_id name workspace_id h =
    elim (Bool-cases (is_empty (strip name))) [
      | inl e ↦ rw e h
      | inr e ↦
          rw e
            (elim (Option-cases
              (find_first (is_named user_id workspace_id (strip name)) db.folders)) [
                | inl absent ↦
                    rw absent (λ u w n. appended_unique db.folders _ u w n (h u w n) absent)
                | inr (f, found) ↦ rw found h
              ])
    ]
