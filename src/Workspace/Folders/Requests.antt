-- ===== src/Workspace/Folders/Requests.antt =====
-- Sequences of requests to backend/app/services/folder_service.py.
use omni_ai_v.Prelude.{ℕ, String, Bool, Option, List, [], ◌∷◌}
use omni_ai_v.Workspace.{Db}
use omni_ai_v.Workspace.Folders.{
  create_folder, update_folder, delete_folder, update_session_organization,
}
use omni_ai_v.Workspace.Folders.Ownership.{
  IsOrganized, create_folder-IsOrganized, update_folder-IsOrganized,
}
use omni_ai_v.Workspace.Folders.Ownership.Deletion.{delete_folder-IsOrganized}
use omni_ai_v.Workspace.Folders.Ownership.Organization.{update_session_organization-IsOrganized}

-- One request to the folder services.
pub data Request : Type 0 where
  create : (user_id : ℕ) (name workspace_id : String) → Request
  update : (user_id folder_id : ℕ) (name : String) → Request
  delete : (user_id folder_id : ℕ) → Request
  organize_session :
      (user_id session_id : ℕ) (is_pinned : Option Bool) (folder_id : Option ℕ) (clear : Bool)
      → Request

unfoldable pub serve : Db → Request → Db
serve db (create user_id name workspace_id) = (create_folder db user_id name workspace_id).1
serve db (update user_id folder_id name) = (update_folder db user_id folder_id name).1
serve db (delete user_id folder_id) = (delete_folder db user_id folder_id).1
serve db (organize_session user_id session_id is_pinned folder_id clear) =
    (update_session_organization db user_id session_id is_pinned folder_id clear).1

unfoldable pub serve_all : Db → List Request → Db
unfolding serve
serve_all db [] = db
serve_all db (r ∷ rest) = serve_all (serve db r) rest

serve-IsOrganized : (db : Db) (r : Request) → IsOrganized db → IsOrganized (serve db r)
unfolding serve
serve-IsOrganized db (create u n w) h = create_folder-IsOrganized db u n w h
serve-IsOrganized db (update u f n) h = update_folder-IsOrganized db u f n h
serve-IsOrganized db (delete u f) h = delete_folder-IsOrganized db u f h
serve-IsOrganized db (organize_session u s p f c) h =
    update_session_organization-IsOrganized db u s p f c h

-- If every session's folder exists and is its user's, and the primary keys are below the next one
-- and name one owner each, then this is so after any requests to the folder services.
pub serve_all-IsOrganized :
    (db : Db) (requests : List Request) → IsOrganized db → IsOrganized (serve_all db requests)
unfolding serve_all
serve_all-IsOrganized db [] h = h
serve_all-IsOrganized db (r ∷ rest) h =
    serve_all-IsOrganized (serve db r) rest (serve-IsOrganized db r h)
