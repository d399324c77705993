-- ===== src/Workspace/Tests.antt =====
-- The workspace services on a small database.
use omni_ai_v.Prelude.{
  ◌≡◌, refl, true, false, none, some, List, [], ◌∷◌, arith, nat_comparable, text_comparable, strip,
}
use omni_ai_v.Rows
use omni_ai_v.Workspace.Folders
use omni_ai_v.Workspace.{Db}
use omni_ai_v.Workspace.Folders.{
  create_folder, delete_folder, update_session_organization, in_folder, is_named, get_owned_folder,
}
use omni_ai_v.Workspace.Folders.Ownership.{IsOrganized}
use omni_ai_v.Workspace.Folders.Requests.{
  Request, create, update, delete, organize_session, serve_all, serve_all-IsOrganized,
}
use omni_ai_v.Workspace.Folders.Names.{NamesUnique}
use omni_ai_v.Workspace.Collections.{delete_collection}
use omni_ai_v.Workspace.Collections.Ownership.{IsFiled}
use omni_ai_v.Workspace.Collections.Requests.{
  CollectionRequest, default_of, rename_to, drop_it, move_in, handle_all, handle_all-IsFiled,
}
use omni_ai_v.Workspace.Collections.Default.{HasDefault, delete_collection-HasDefault}
use omni_ai_v.Workspace.Sessions.{Environment, State, delete_chat_session}
use omni_ai_v.Workspace.Sessions.Deletion.{IsGone, Spares, delete_chat_session_rows}

abbrev db : Db
db = record {
  folders =
      record { id = 1; user_id = 7; workspace_id = "default"; name = "Work" }
      ∷ record { id = 2; user_id = 8; workspace_id = "default"; name = "Work" }
      ∷ [];
  next_folder = 3;
  sessions =
      record {
        id = 10;
        user_id = 7;
        workspace_id = "default";
        title = "a";
        is_pinned = false;
        folder_id = some 1;
      }
      ∷ record {
        id = 11;
        user_id = 8;
        workspace_id = "default";
        title = "b";
        is_pinned = true;
        folder_id = some 2;
      }
      ∷ [];
  collections =
      record { id = 4; user_id = 7; workspace_id = "default"; name = "Default" }
      ∷ record { id = 5; user_id = 7; workspace_id = "default"; name = "Papers" }
      ∷ [];
  next_collection = 6;
  documents =
      record {
        id = 20;
        user_id = 7;
        collection_id = 5;
        session_id = some 10;
        filename = "p.pdf";
        storage_path = "/u/p.pdf";
      }
      ∷ record {
        id = 21;
        user_id = 7;
        collection_id = 4;
        session_id = none;
        filename = "q.pdf";
        storage_path = "/u/q.pdf";
      }
      ∷ [];
  messages =
      record { id = 30; session_id = some 10; content = "hi" }
      ∷ record { id = 31; session_id = some 11; content = "ho" }
      ∷ [];
  summaries = record { id = 40; session_id = some 10 } ∷ [];
  token_usage = record { id = 50; session_id = some 10 } ∷ [];
  model_usage = [];
}

db-IsOrganized : IsOrganized db
db-IsOrganized = record {
  fresh = omega arith;
  one_owner = (
    (λ e. refl, (λ e. absurd (omega arith), tt)),
    ((λ e. absurd (omega arith), (λ e. refl, tt)), tt),
  );
  placed = (refl, (refl, tt));
}

db-IsFiled : IsFiled db
db-IsFiled = record {
  fresh = omega arith;
  one_row = (
    (λ e. (refl, refl), (λ e. absurd (omega arith), tt)),
    ((λ e. absurd (omega arith), (λ e. (refl, refl), tt)), tt),
  );
  filed = (refl, (refl, tt));
}

abbrev folder_requests : List Request
folder_requests =
    create 7 " Trips " "default"
    ∷ organize_session 7 10 (some true) (some 3) false
    ∷ organize_session 8 11 none (some 3) false
    ∷ delete 7 3
    ∷ update 7 1 "Home"
    ∷ []

-- Five requests, one of them for a folder of another user.
folder_requests_run :
    (serve_all db folder_requests).sessions
    ≡ record {
      id = 10;
      user_id = 7;
      workspace_id = "default";
      title = "a";
      is_pinned = true;
      folder_id = none;
    }
      ∷ record {
        id = 11;
        user_id = 8;
        workspace_id = "default";
        title = "b";
        is_pinned = true;
        folder_id = some 2;
      }
      ∷ []
unfolding serve_all create_folder delete_folder update_session_organization Folders.update_folder
    get_owned_folder strip Rows.find_first Rows.update_where Rows.delete_where
folder_requests_run = refl

serve_all-IsOrganized_example : IsOrganized (serve_all db folder_requests)
serve_all-IsOrganized_example = serve_all-IsOrganized db folder_requests db-IsOrganized

abbrev no_folders : Db
no_folders = record db { folders = [] }

no_folders-NamesUnique : NamesUnique no_folders
no_folders-NamesUnique user_id workspace_id name = omega arith

abbrev collection_requests : List CollectionRequest
collection_requests =
    move_in 7 21 5 ∷ drop_it 7 5 ∷ default_of 8 "default" ∷ rename_to 8 6 "Mine" ∷ []

handle_all-IsFiled_example : IsFiled (handle_all db collection_requests)
handle_all-IsFiled_example = handle_all-IsFiled db collection_requests db-IsFiled

delete_collection-HasDefault_example : HasDefault 7 "default" (delete_collection db 7 5).1
delete_collection-HasDefault_example =
    delete_collection-HasDefault db 7 5 7 "default" db-IsFiled refl

abbrev all_up : Environment
all_up = record {
  analytics_ok = true;
  commit_ok = true;
  removable = λ path. true;
  chroma_ok = λ document_id. true;
}

abbrev state : State
state = record {
  db = db;
  ext = record {
    files = λ path. true;
    chunks =
        record { id = "a"; user_id = 7; document_id = 20 }
        ∷ record { id = "b"; user_id = 7; document_id = 21 }
        ∷ [];
  };
}

delete_chat_session_rows_example :
    IsGone 10 (delete_chat_session all_up state 7 10).1.db
    × Spares true 10 state.db (delete_chat_session all_up state 7 10).1.db
unfolding delete_chat_session Rows.find_first
delete_chat_session_rows_example = delete_chat_session_rows all_up state 7 10 refl
