-- ===== src/Workspace/Folders/Ownership.antt =====
-- The owners of sessions and folders under the single operations of
-- backend/app/services/folder_service.py.
pub mod Deletion
pub mod Organization
use omni_ai_v.Prelude.{
  ℕ, ◌<◌, String, ◌≡◌, refl, ◌∙◌, Bool, true, false, ◌&&◌, not, Option, none, some, List, [], ◌∷◌,
  ◌++◌, arith, ◌==◌, nat_comparable, text_comparable, any, is_empty, strip, All, All-append,
  All-imp, Bool-cases, Option-cases, inl, inr,
}
use omni_ai_v.Rows.{
  find_first, update_where, delete_where, find_first-All, find_first_sound, any-All, any_of_found,
  All-update_where, All-delete_where, update_where_imp, any-append_left, any-delete_where,
  any-update_where,
}
use omni_ai_v.Workspace.{ChatFolder, ChatSession, Db}
use omni_ai_v.Workspace.Folders.{
  is_owned, is_named, in_folder, get_owned_folder, insert_folder, create_folder, update_folder,
  commit_name, delete_folder, update_session_organization, placement, Placement, keep, place,
  missing, clear_folder, organize, organize_found, remove, rename,
}

abbrev pub PlacedAt : List ChatFolder → ℕ → Option ℕ → Type 0
PlacedAt folders user_id none = Unit
PlacedAt folders user_id (some i) = any (is_owned user_id i) folders ≡ true

abbrev pub SameOwner : ChatFolder → ChatFolder → Type 0
SameOwner f g = g.id ≡ f.id → g.user_id ≡ f.user_id

pub record IsOrganized (db : Db) : Type 0 where
  pub fresh : All (λ f. f.id < db.next_folder) db.folders
  pub one_owner : All (λ f. All (SameOwner f) db.folders) db.folders
  pub placed : All (λ s. PlacedAt db.folders s.user_id s.folder_id) db.sessions

PlacedAt-mono :
    (fs gs : List ChatFolder) (user_id : ℕ) (folder_id : Option ℕ)
    → ((i : ℕ) → any (is_owned user_id i) fs ≡ true → any (is_owned user_id i) gs ≡ true)
    → PlacedAt fs user_id folder_id
    → PlacedAt gs user_id folder_id
PlacedAt-mono fs gs user_id none more h = tt
PlacedAt-mono fs gs user_id (some i) more h = more i h

insert_folder-IsOrganized :
    (db : Db) (user_id : ℕ) (workspace_id name : String)
    → IsOrganized db
    → IsOrganized (insert_folder db user_id workspace_id name).1
unfolding insert_folder
insert_folder-IsOrganized db user_id workspace_id name h = record {
  fresh =
      All-append _ db.folders _ (All-imp db.folders (λ f p. omega arith) h.fresh) (omega arith, tt);
  one_owner = All-append _ db.folders _ (old db.folders h.fresh h.one_owner) (
    All-append _ db.folders _ (All-imp db.folders (λ g p e. absurd (omega arith)) h.fresh)
        (λ e. refl, tt),
    tt,
  );
  placed =
      All-imp db.sessions
        (λ s p.
          PlacedAt-mono db.folders _ s.user_id s.folder_id
            (λ i q. any-append_left (is_owned s.user_id i) db.folders _ q) p)
        h.placed;
}
  where
    new : ChatFolder
    new = record {
      id = db.next_folder;
      user_id = user_id;
      workspace_id = workspace_id;
      name = name;
    }

    old :
        (fs : List ChatFolder)
        → All (λ f. f.id < db.next_folder) fs
        → All (λ f. All (SameOwner f) db.folders) fs
        → All (λ f. All (SameOwner f) (db.folders ++ new ∷ [])) fs
    old [] p q = tt
    old (f ∷ fs) p q = (
      All-append (SameOwner f) db.folders _ q.0 (λ e. absurd (omega (arith, p.0)), tt),
      old fs p.1 q.1,
    )

pub create_folder-IsOrganized :
    (db : Db) (user_id : ℕ) (name workspace_id : String)
    → IsOrganized db
    → IsOrganized (create_folder db user_id name workspace_id).1
unfolding create_folder
create_folder-IsOrganized db user_id name workspace_id h =
    elim (Bool-cases (is_empty (strip name))) [
      | inl e ↦ rw e h
      | inr e ↦
          rw e
            (elim (Option-cases
              (find_first (is_named user_id workspace_id (strip name)) db.folders)) [
                | inl absent ↦
                    rw absent (insert_folder-IsOrganized db user_id workspace_id (strip name) h)
                | inr (f, found) ↦ rw found h
              ])
    ]

module _ (name : String) where
  abbrev renamed : ℕ → List ChatFolder → List ChatFolder
  renamed i = update_where (λ f. f.id == i) (λ f. record f { name = name })

  All-renamed :
      (P : ChatFolder → Type 0) (i : ℕ) (fs : List ChatFolder)
      → ((f : ChatFolder) → P f → P (record f { name = name }))
      → All P fs
      → All P (renamed i fs)
  All-renamed P i fs keeps h = All-update_where P _ _ fs (λ f p e. keeps f p) h

  renamed-IsOrganized :
      (db : Db) (i : ℕ)
      → IsOrganized db
      → IsOrganized (record db { folders = renamed i db.folders })
  renamed-IsOrganized db i h = record {
    fresh = All-renamed _ i db.folders (λ f p. p) h.fresh;
    one_owner =
        All-renamed _ i db.folders (λ f p. p)
          (All-imp db.folders (λ f p. All-renamed _ i db.folders (λ g q. q) p) h.one_owner);
    placed =
        All-imp db.sessions
          (λ s p.
            PlacedAt-mono db.folders _ s.user_id s.folder_id
              (λ j q. any-update_where (is_owned s.user_id j) _ _ db.folders (λ f. refl) ∙ q) p)
          h.placed;
  }

commit_name-IsOrganized :
    (db : Db) (folder : ChatFolder) (name : String)
    → IsOrganized db
    → IsOrganized (commit_name db folder name).1
unfolding commit_name
commit_name-IsOrganized db folder name h =
    elim (Bool-cases (
      any (λ f. is_named folder.user_id folder.workspace_id name f && not (f.id == folder.id))
        db.folders)) [
          | inl clash ↦ rw clash h
          | inr free ↦ rw free (renamed-IsOrganized name db folder.id h)
        ]

pub update_folder-IsOrganized :
    (db : Db) (user_id folder_id : ℕ) (name : String)
    → IsOrganized db
    → IsOrganized (update_folder db user_id folder_id name).1
unfolding update_folder
update_folder-IsOrganized db user_id folder_id name h = go (get_owned_folder db user_id folder_id)
  where
    go : (o : Option ChatFolder) → IsOrganized (rename db name o).1
    go none = h
    go (some folder) = elim (Bool-cases (is_empty (strip name))) [
      | inl e ↦ rw e h
      | inr e ↦ rw e (commit_name-IsOrganized db folder (strip name) h)
    ]
