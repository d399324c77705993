-- ===== src/Workspace/Folders/Ownership/Organization.antt =====
-- The owners of sessions after update_session_organization.
use omni_ai_v.Prelude.{
  ℕ, ◌≡◌, refl, Bool, true, false, ◌&&◌, Option, none, some, arith, ◌==◌, nat_comparable,
  text_comparable, Option-cases, inl, inr,
}
use omni_ai_v.Rows.{find_first, find_first-All, find_first_sound, any_of_found, All-update_where}
use omni_ai_v.Workspace.{ChatSession, Db}
use omni_ai_v.Workspace.Folders.{
  is_owned, get_owned_folder, update_session_organization, placement, Placement, keep, place,
  missing, organize, organize_found,
}
use omni_ai_v.Workspace.Folders.Ownership.{IsOrganized, PlacedAt}

-- The row that `organize` stores is placed as `placement` says.
organize-IsOrganized :
    (db : Db) (s : ChatSession) (to : Placement)
    → ((o : Option ℕ) → to ≡ place o → PlacedAt db.folders s.user_id o)
    → PlacedAt db.folders s.user_id s.folder_id
    → IsOrganized db
    → IsOrganized (organize db s to).1
organize-IsOrganized db s missing target stays h = h
organize-IsOrganized db s keep target stays h = record {
  fresh = h.fresh;
  one_owner = h.one_owner;
  placed = All-update_where _ _ _ db.sessions (λ t p e. stays) h.placed;
}
organize-IsOrganized db s (place o) target stays h = record {
  fresh = h.fresh;
  one_owner = h.one_owner;
  placed = All-update_where _ _ _ db.sessions (λ t p e. target o refl) h.placed;
}

placement-PlacedAt :
    (db : Db) (user_id : ℕ) (folder_id : Option ℕ) (clear : Bool) (o : Option ℕ)
    → placement db user_id folder_id clear ≡ place o
    → PlacedAt db.folders user_id o
unfolding placement get_owned_folder
placement-PlacedAt db user_id folder_id true none e = tt
placement-PlacedAt db user_id folder_id true (some i) e = cc
placement-PlacedAt db user_id none false o e = cc
placement-PlacedAt db user_id (some j) false none e = tt
placement-PlacedAt db user_id (some j) false (some i) e =
    elim (Option-cases (find_first (is_owned user_id j) db.folders)) [
      | inl absent ↦ absurd (cc (rw absent at e))
      | inr (folder, found) ↦
          let own = find_first_sound (is_owned user_id j) db.folders found in
          let there = any_of_found (is_owned user_id j) (is_owned user_id j) db.folders found own in
          let same : place (some folder.id) ≡ place (some i) = rw found at e in
          let at_j : j ≡ i = ground arith in rw at_j at there
    ]

organize_found-IsOrganized :
    (db : Db) (user_id : ℕ) (is_pinned : Option Bool) (folder_id : Option ℕ) (clear : Bool)
    (o : Option ChatSession)
    → ((s : ChatSession)
        → o ≡ some s
        → (s.user_id ≡ user_id) × PlacedAt db.folders s.user_id s.folder_id)
    → IsOrganized db
    → IsOrganized (organize_found db user_id is_pinned folder_id clear o).1
organize_found-IsOrganized db user_id is_pinned folder_id clear none found h = h
organize_found-IsOrganized db user_id none folder_id clear (some s) found h =
    let (owner, stays) = found s refl in
    organize-IsOrganized db s (placement db user_id folder_id clear)
      (λ o e. rw owner (placement-PlacedAt db user_id folder_id clear o e)) stays h
organize_found-IsOrganized db user_id (some b) folder_id clear (some s) found h =
    let (owner, stays) = found s refl in
    organize-IsOrganized db (record s { is_pinned = b }) (placement db user_id folder_id clear)
      (λ o e. rw owner (placement-PlacedAt db user_id folder_id clear o e)) stays h

pub update_session_organization-IsOrganized :
    (db : Db) (user_id session_id : ℕ) (is_pinned : Option Bool) (folder_id : Option ℕ)
    (clear : Bool)
    → IsOrganized db
    → IsOrganized (update_session_organization db user_id session_id is_pinned folder_id clear).1
unfolding update_session_organization
update_session_organization-IsOrganized db user_id session_id is_pinned folder_id clear h =
    organize_found-IsOrganized db user_id is_pinned folder_id clear _
      (λ s e.
        let (own, stays) =
          find_first-All (λ t. PlacedAt db.folders t.user_id t.folder_id)
            (λ t. t.id == session_id && t.user_id == user_id) db.sessions e h.placed in
        (ground arith, stays))
      h
