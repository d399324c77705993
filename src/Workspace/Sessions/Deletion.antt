-- ===== src/Workspace/Sessions/Deletion.antt =====
-- The rows after delete_chat_session of backend/app/services/session_service.py.
use omni_ai_v.Prelude.{
  ℕ, ◌≡◌, ap, refl, Bool, true, false, ◌&&◌, not, none, List, [], ◌∷◌, map, arith, if◌then◌else◌,
  ◌==◌, nat_comparable, select, All, Bool-cases, Option-cases, inl, inr, any,
}
use omni_ai_v.Rows.{
  find_first, find_first_sound, update_where, any-eq-is_some, delete_where, delete_where_gone,
  select-delete_where,
}
use omni_ai_v.Workspace.{ChatSession, Usage, Db, is_ref}
use omni_ai_v.Workspace.Sessions.{
  not_found, deleted, failed, Environment, State, delete_rows, delete_rows_with,
  delete_chat_session, detach_analytics_session, forget_session,
}

-- The session is deleted exactly if it is the user's and the transaction goes through.
pub delete_chat_session_iff :
    (env : Environment) (state : State) (user_id session_id : ℕ)
    → (delete_chat_session env state user_id session_id).0 ≡ (
        if any (λ s. s.id == session_id && s.user_id == user_id) state.db.sessions
        then if env.commit_ok then deleted else failed
        else not_found)
unfolding delete_chat_session
delete_chat_session_iff env state user_id session_id = rw any-eq-is_some (ground arith)

-- Where the analytics tables answer, the rows of usage are all there, and those of the session, and no
-- others, have lost their reference; where they do not, nothing of them has changed.
abbrev pub IsDetached : Bool → ℕ → List Usage → List Usage → Type 0
IsDetached false session_id before after = after ≡ before
IsDetached true session_id before after =
    after
    ≡ map (λ u. if is_ref u.session_id session_id then record u { session_id = none } else u) before

-- No row refers to the session.
pub record IsGone (session_id : ℕ) (db : Db) : Type 0 where
  pub sessions : All (λ s. (s.id == session_id) ≡ false) db.sessions
  pub messages : All (λ m. is_ref m.session_id session_id ≡ false) db.messages
  pub summaries : All (λ s. is_ref s.session_id session_id ≡ false) db.summaries
  pub documents : All (λ d. is_ref d.session_id session_id ≡ false) db.documents

-- The rows that do not belong to the session are the same, in the same order.
pub record Spares (analytics_ok : Bool) (session_id : ℕ) (before after : Db) : Type 0 where
  pub sessions :
      select (λ s. not (s.id == session_id)) after.sessions
      ≡ select (λ s. not (s.id == session_id)) before.sessions
  pub messages :
      select (λ m. not (is_ref m.session_id session_id)) after.messages
      ≡ select (λ m. not (is_ref m.session_id session_id)) before.messages
  pub summaries :
      select (λ s. not (is_ref s.session_id session_id)) after.summaries
      ≡ select (λ s. not (is_ref s.session_id session_id)) before.summaries
  pub documents :
      select (λ d. not (is_ref d.session_id session_id)) after.documents
      ≡ select (λ d. not (is_ref d.session_id session_id)) before.documents
  pub folders : after.folders ≡ before.folders
  pub collections : after.collections ≡ before.collections
  pub token_usage : IsDetached analytics_ok session_id before.token_usage after.token_usage
  pub model_usage : IsDetached analytics_ok session_id before.model_usage after.model_usage

update_where-IsDetached :
    (session_id : ℕ) (rows : List Usage)
    → IsDetached true session_id rows
        (update_where (λ u. is_ref u.session_id session_id) forget_session rows)
unfolding update_where
update_where-IsDetached session_id [] = refl
update_where-IsDetached session_id (u ∷ rows) =
    ap (λ rest. (if is_ref u.session_id session_id then forget_session u else u) ∷ rest)
      (update_where-IsDetached session_id rows)

module _ {A : Type 0} (p : A → Bool) (xs : List A) where
  spared : select (λ x. not (p x)) (delete_where p xs) ≡ select (λ x. not (p x)) xs
  spared = select-delete_where _ p xs (λ x e. ground arith)

module _ (db : Db) (session : ChatSession) where
  abbrev rows : Bool → Db
  rows analytics_ok = delete_rows_with analytics_ok db session session.id

  rows-IsGone : (analytics_ok : Bool) → IsGone session.id (rows analytics_ok)
  unfolding detach_analytics_session
  rows-IsGone true = record {
    sessions = delete_where_gone _ db.sessions;
    messages = delete_where_gone _ db.messages;
    summaries = delete_where_gone _ db.summaries;
    documents = delete_where_gone _ db.documents;
  }
  rows-IsGone false = record {
    sessions = delete_where_gone _ db.sessions;
    messages = delete_where_gone _ db.messages;
    summaries = delete_where_gone _ db.summaries;
    documents = delete_where_gone _ db.documents;
  }

  rows-Spares : (analytics_ok : Bool) → Spares analytics_ok session.id db (rows analytics_ok)
  unfolding detach_analytics_session
  rows-Spares true = record {
    sessions = spared _ db.sessions;
    messages = spared _ db.messages;
    summaries = spared _ db.summaries;
    documents = spared _ db.documents;
    folders = refl;
    collections = refl;
    token_usage = update_where-IsDetached session.id db.token_usage;
    model_usage = update_where-IsDetached session.id db.model_usage;
  }
  rows-Spares false = record {
    sessions = spared _ db.sessions;
    messages = spared _ db.messages;
    summaries = spared _ db.summaries;
    documents = spared _ db.documents;
    folders = refl;
    collections = refl;
    token_usage = refl;
    model_usage = refl;
  }

-- After `deleted` no session, message, summary or document of the session is left, and every other one,
-- and all folders and collections, are as they were; the rows of usage are all there, where the
-- analytics tables answer those of the session without their reference, and otherwise as they were.
pub delete_chat_session_rows :
    (env : Environment) (state : State) (user_id session_id : ℕ)
    → (delete_chat_session env state user_id session_id).0 ≡ deleted
    → IsGone session_id (delete_chat_session env state user_id session_id).1.db
      × Spares env.analytics_ok session_id state.db
          (delete_chat_session env state user_id session_id).1.db
unfolding delete_chat_session delete_rows
delete_chat_session_rows env state user_id session_id h =
    elim (Option-cases
      (find_first (λ s. s.id == session_id && s.user_id == user_id) state.db.sessions)) [
        | inl absent ↦ absurd (cc (rw absent at h))
        | inr (s, found) ↦ elim (Bool-cases env.commit_ok) [
          | inr e ↦ absurd (cc (rw (found, e) at h))
          | inl e ↦
              let own =
                find_first_sound (λ t. t.id == session_id && t.user_id == user_id) state.db.sessions
                  found in
              let same : session_id ≡ s.id = ground arith in
              rw (found, e)
                (rw same (
                  rows-IsGone state.db s env.analytics_ok,
                  rows-Spares state.db s env.analytics_ok,
                ))
        ]
      ]
