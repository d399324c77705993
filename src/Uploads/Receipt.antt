-- ===== src/Uploads/Receipt.antt =====
-- What upload_document of backend/app/api/upload_routes.py has stored once it has inserted the row,
-- or when it raises before that.
use omni_ai_v.Prelude.{
  ℕ, ◌≡◌, refl, ap, String, Bool, true, false, Option, none, some, List, [], ◌∷◌, ◌++◌, arith, ◌==◌,
  nat_comparable, text_comparable, any, beq_refl, Bool-cases, Option-cases, inl, inr, ◌⊎◌,
}
use omni_ai_v.Rows.{find_first, find_first_sound, any_of_found, any-append_right}
use omni_ai_v.Workspace.{ChatSession, DocumentCollection}
use omni_ai_v.Ingestion.{IndexedDocument}
use omni_ai_v.Uploads.{
  Env, State, Params, is_session_of, is_collection_of, default_of, choose_collection, secure,
  into_collection, into_session, is_valid_form, receive,
}
use omni_ai_v.Uploads.Names.Safety.{IsSafe, sanitize_upload_filename-IsSafe}
use omni_ai_v.Uploads.Validation.{UploadFile, Result, ok, http_exception}
use omni_ai_v.Uploads.Security.{process_upload_security}

abbrev in_session : ℕ → Option ℕ → List ChatSession → Bool
in_session user_id none sessions = false
in_session user_id (some session_id) sessions = any (is_session_of user_id session_id) sessions

-- The sessions are as before, and so are the collections, but for one of the user that may be new.
abbrev pub MayFile : ℕ → State → State → Type 0
MayFile user_id s after =
    (after.sessions ≡ s.sessions)
    × ((after.collections ≡ s.collections)
        ⊎ ((c : DocumentCollection) × (after.collections ≡ s.collections ++ c ∷ [])
            × (c.user_id ≡ user_id)
            × (c.name ≡ "Default")))

-- A rejected upload leaves the documents, the chunks, the files and the sessions, and may have made the
-- user's collection Default; a received one adds its row, which is its user's, in a collection and a
-- session that are the user's too, under a safe name, with its file in place.
abbrev pub IsReceived : ℕ → State → Result IndexedDocument × State → Type 0
IsReceived user_id s (http_exception status detail, after) =
    (after.store ≡ s.store) × MayFile user_id s after
IsReceived user_id s (ok d, after) =
    (after.store.documents ≡ s.store.documents ++ d ∷ [])
    × (after.store.chunks ≡ s.store.chunks)
    × MayFile user_id s after
    × (d.user_id ≡ user_id)
    × (any (is_collection_of user_id d.collection_id) after.collections ≡ true)
    × (in_session user_id d.session_id after.sessions ≡ true)
    × (after.store.files d.storage_path ≡ true)
    × IsSafe d.filename

abbrev ExistsFor : ℕ → State → Option ℕ → Type 0
ExistsFor user_id s none = Unit
ExistsFor user_id s (some collection_id) =
    any (is_collection_of user_id collection_id) s.collections ≡ true

abbrev IsChosen : ℕ → State → Option ℕ × State → Type 0
IsChosen user_id s (o, after) =
    (after.store ≡ s.store) × MayFile user_id s after × ExistsFor user_id after o

choose_collection-IsChosen :
    (user_id : ℕ) (workspace_id : String) (collection_id : Option ℕ) (s : State)
    → IsChosen user_id s (choose_collection user_id workspace_id collection_id s)
unfolding choose_collection
choose_collection-IsChosen user_id workspace_id none s =
    elim (Option-cases (find_first (default_of user_id workspace_id) s.collections)) [
      | inl absent ↦ rw absent (
        refl,
        (refl, inr (_, refl, refl, refl)),
        any-append_right (is_collection_of user_id s.next_collection) s.collections _
            (rw (beq_refl s.next_collection, beq_refl user_id) refl),
      )
      | inr (c, found) ↦
          let own = find_first_sound (default_of user_id workspace_id) s.collections found in
          let its : (c.user_id == user_id) ≡ true = ground arith in
          rw found (
            refl,
            (refl, inl refl),
            any_of_found (is_collection_of user_id c.id) (default_of user_id workspace_id)
                s.collections found (rw (beq_refl c.id, its) refl),
          )
    ]
choose_collection-IsChosen user_id workspace_id (some collection_id) s =
    elim (Option-cases (find_first (is_collection_of user_id collection_id) s.collections)) [
      | inl absent ↦ rw absent (refl, (refl, inl refl), tt)
      | inr (c, found) ↦
          let own = find_first_sound (is_collection_of user_id collection_id) s.collections found in
          let its : (c.user_id == user_id) ≡ true = ground arith in
          rw found (
            refl,
            (refl, inl refl),
            any_of_found (is_collection_of user_id c.id) (is_collection_of user_id collection_id)
                s.collections found (rw (beq_refl c.id, its) refl),
          )
    ]

module _ (env : Env) (user_id : ℕ) where
  secure-IsReceived :
      (file : UploadFile) (p : Params) (collection_id session_id : ℕ) (name : String) (s t : State)
      → t.store ≡ s.store
      → MayFile user_id s t
      → any (is_collection_of user_id collection_id) t.collections ≡ true
      → any (is_session_of user_id session_id) t.sessions ≡ true
      → IsSafe name
      → IsReceived user_id s (secure env user_id file p collection_id session_id name t)
  unfolding secure
  secure-IsReceived file p collection_id session_id name s t same may filed owned safe =
      let held = env.quarantine_path user_id session_id name in
      let verdict =
        process_upload_security env.scan (env.probe held file.body) name file.content_type in
      elim (Bool-cases env.writes) [
        | inr e ↦ rw e (same, may)
        | inl e ↦ rw e (elim (Option-cases verdict) [
          | inr (error, refused) ↦ rw refused (same, may)
          | inl passed ↦ rw passed (elim (Bool-cases env.moves) [
            | inr f ↦ rw f (same, may)
            | inl f ↦ rw f (
              rw same refl,
              ap (λ store. store.chunks) same,
              may,
              refl,
              filed,
              owned,
              rw (beq_refl (env.upload_path user_id session_id name)) refl,
              safe,
            )
          ])
        ])
      ]

  into_collection-IsReceived :
      (file : UploadFile) (p : Params) (session_id : ℕ) (name : Option String) (s : State)
      (chosen : Option ℕ × State)
      → IsChosen user_id s chosen
      → any (is_session_of user_id session_id) s.sessions ≡ true
      → ((n : String) → name ≡ some n → IsSafe n)
      → IsReceived user_id s (into_collection env user_id file p session_id name chosen)
  into_collection-IsReceived file p session_id name s (none, t) c owned safe = (c.0, c.1)
  into_collection-IsReceived file p session_id none s (some id, t) c owned safe = (c.0, c.1)
  into_collection-IsReceived file p session_id (some n) s (some id, t) c owned safe =
      secure-IsReceived file p id session_id n s t c.0 c.1 c.2 (rw (c.1).0 owned) (safe n refl)

  into_session-IsReceived :
      (file : UploadFile) (p : Params) (s : State) (session_id : Option ℕ) (r : Result ℕ)
      → IsReceived user_id s (into_session env user_id file p s session_id r)
  into_session-IsReceived file p s none (http_exception status detail) = (refl, (refl, inl refl))
  into_session-IsReceived file p s (some i) (http_exception status detail) =
      (refl, (refl, inl refl))
  into_session-IsReceived file p s none (ok size) = (refl, (refl, inl refl))
  into_session-IsReceived file p s (some i) (ok size) =
      elim (Option-cases (find_first (is_session_of user_id i) s.sessions)) [
        | inl absent ↦ rw absent (refl, (refl, inl refl))
        | inr (session, found) ↦ rw found (
            into_collection-IsReceived file p i _ s _
              (choose_collection-IsChosen user_id p.workspace_id p.collection_id s)
              (any_of_found (is_session_of user_id i) (is_session_of user_id i) s.sessions found
                (find_first_sound (is_session_of user_id i) s.sessions found))
              (λ n e. sanitize_upload_filename-IsSafe env.nfkc file.filename e))
      ]

  -- However the checks, the disk and the scanner answer: a rejected upload leaves the documents, the
  -- chunks, the files and the sessions as they were, and the collections but for a new one of the user
  -- named Default; a received one adds one document, which is its user's, in a collection and a session
  -- that are the user's too, under a safe name, with its file in place, and no chunk.
  pub receive-IsReceived :
      (file : UploadFile) (p : Params) (s : State)
      → IsReceived user_id s (receive env user_id file p s)
  unfolding receive
  receive-IsReceived file p s = elim (Bool-cases (is_valid_form p)) [
    | inr e ↦ rw e (refl, (refl, inl refl))
    | inl e ↦ rw e (into_session-IsReceived file p s p.session_id _)
  ]
