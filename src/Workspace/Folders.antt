-- ===== src/Workspace/Folders.antt =====
-- backend/app/services/folder_service.py: the folders of chat sessions.
pub mod Ownership
pub mod Requests
pub mod Names
pub mod Deletion
use omni_ai_v.Prelude.{
  ℕ, suc, String, Bool, true, false, ◌&&◌, not, Option, none, some, List, [], ◌∷◌, ◌++◌,
  if◌then◌else◌, ◌==◌, nat_comparable, text_comparable, any, select, sort_by, tally, map, is_empty,
  strip,
}
use omni_ai_v.Rows.{find_first, update_where, delete_where}
use omni_ai_v.Workspace.{
  ChatFolder, ChatSession, Db, Result, ok, value_error, integrity_error, is_ref,
}

-- The filter of the lookups by owner.
abbrev pub is_owned : ℕ → ℕ → ChatFolder → Bool
is_owned user_id folder_id f = f.id == folder_id && f.user_id == user_id

abbrev pub is_named : ℕ → String → String → ChatFolder → Bool
is_named user_id workspace_id name f =
    f.user_id == user_id && f.workspace_id == workspace_id && f.name == name

abbrev pub in_folder : ℕ → ℕ → ChatSession → Bool
in_folder user_id folder_id s = s.user_id == user_id && is_ref s.folder_id folder_id

-- One item of `list_folders`.
pub record FolderItem : Type 0 where
  pub id : ℕ
  pub name : String
  pub workspace_id : String
  pub session_count : ℕ

abbrev pub folder_item : Db → ℕ → ChatFolder → FolderItem
folder_item db user_id f = record {
  id = f.id;
  name = f.name;
  workspace_id = f.workspace_id;
  session_count = tally (in_folder user_id f.id) db.sessions;
}

-- `ORDER BY name` is the database's: `le` is the order of its collation.
unfoldable pub list_folders : (String → String → Bool) → Db → ℕ → String → List FolderItem
unfolding sort_by
list_folders le db user_id workspace_id = map (folder_item db user_id) (
    sort_by (λ f g. le f.name g.name)
      (select (λ f. f.user_id == user_id && f.workspace_id == workspace_id) db.folders))

unfoldable pub get_owned_folder : Db → ℕ → ℕ → Option ChatFolder
unfolding find_first
get_owned_folder db user_id folder_id = find_first (is_owned user_id folder_id) db.folders

abbrev pub new_folder : Db → ℕ → String → String → ChatFolder
new_folder db user_id workspace_id name = record {
  id = db.next_folder;
  user_id = user_id;
  workspace_id = workspace_id;
  name = name;
}

insert_folder : Db → ℕ → String → String → Result ChatFolder × Db
insert_folder db user_id workspace_id name = (
  ok (new_folder db user_id workspace_id name),
  record db {
    folders = db.folders ++ new_folder db user_id workspace_id name ∷ [];
    next_folder = suc db.next_folder;
  },
)

abbrev or_insert : Db → ℕ → String → String → Option ChatFolder → Result ChatFolder × Db
or_insert db user_id workspace_id name (some existing) = (ok existing, db)
or_insert db user_id workspace_id name none = insert_folder db user_id workspace_id name

unfoldable pub create_folder : Db → ℕ → String → String → Result ChatFolder × Db
unfolding insert_folder
create_folder db user_id name workspace_id =
    let cleaned = strip name in
    if is_empty cleaned
    then (value_error "Folder name is required.", db)
    else or_insert db user_id workspace_id cleaned
        (find_first (is_named user_id workspace_id cleaned) db.folders)

-- The commit of a rename: `uq_chat_folders_user_workspace_name` refuses a name that another
-- folder of the user has in the workspace.
commit_name : Db → ChatFolder → String → Result (Option ChatFolder) × Db
commit_name db folder name =
    let renamed : ChatFolder = record folder { name = name } in
    if any (λ f. is_named folder.user_id folder.workspace_id name f && not (f.id == folder.id))
      db.folders
    then (integrity_error, db)
    else (
      ok (some renamed),
      record db {
        folders = update_where (λ f. f.id == folder.id) (λ f. record f { name = name }) db.folders;
      },
    )

abbrev rename : Db → String → Option ChatFolder → Result (Option ChatFolder) × Db
rename db name none = (ok none, db)
rename db name (some folder) =
    let cleaned = strip name in
    if is_empty cleaned
    then (value_error "Folder name is required.", db)
    else commit_name db folder cleaned

unfoldable pub update_folder : Db → ℕ → ℕ → String → Result (Option ChatFolder) × Db
unfolding commit_name
update_folder db user_id folder_id name = rename db name (get_owned_folder db user_id folder_id)

abbrev clear_folder : ChatSession → ChatSession
clear_folder s = record s { folder_id = none }

abbrev remove : Db → ℕ → Option ChatFolder → Bool × Db
remove db user_id none = (false, db)
remove db user_id (some folder) = (
  true,
  record db {
    sessions = update_where (in_folder user_id folder.id) clear_folder db.sessions;
    folders = delete_where (λ f. f.id == folder.id) db.folders;
  },
)

unfoldable pub delete_folder : Db → ℕ → ℕ → Bool × Db
delete_folder db user_id folder_id = remove db user_id (get_owned_folder db user_id folder_id)

-- What `update_session_organization` stores in `folder_id`.
pub data Placement : Type 0 where
  keep : Placement
  place : Option ℕ → Placement
  missing : Placement

abbrev owned_place : Option ChatFolder → Placement
owned_place none = missing
owned_place (some folder) = place (some folder.id)

placement : Db → ℕ → Option ℕ → Bool → Placement
placement db user_id folder_id true = place none
placement db user_id none false = keep
placement db user_id (some folder_id) false = owned_place (get_owned_folder db user_id folder_id)

abbrev pin : Option Bool → ChatSession → ChatSession
pin none s = s
pin (some is_pinned) s = record s { is_pinned = is_pinned }

abbrev store : Db → ChatSession → Result (Option ChatSession) × Db
store db s =
    (ok (some s), record db { sessions = update_where (λ t. t.id == s.id) (λ t. s) db.sessions })

abbrev organize : Db → ChatSession → Placement → Result (Option ChatSession) × Db
organize db s missing = (value_error "Folder not found.", db)
organize db s keep = store db s
organize db s (place folder_id) = store db (record s { folder_id = folder_id })

abbrev organize_found :
    Db → ℕ → Option Bool → Option ℕ → Bool → Option ChatSession → Result (Option ChatSession) × Db
organize_found db user_id is_pinned folder_id clear none = (ok none, db)
organize_found db user_id is_pinned folder_id clear (some s) =
    organize db (pin is_pinned s) (placement db user_id folder_id clear)

unfoldable pub update_session_organization :
    Db → ℕ → ℕ → Option Bool → Option ℕ → Bool → Result (Option ChatSession) × Db
unfolding placement
update_session_organization db user_id session_id is_pinned folder_id clear =
    organize_found db user_id is_pinned folder_id clear
      (find_first (λ s. s.id == session_id && s.user_id == user_id) db.sessions)
