-- ===== src/Workspace/Sessions/Cleanup.antt =====
-- The vector store after delete_chat_session of backend/app/services/session_service.py.
use omni_ai_v.Prelude.{
  ℕ, ◌≡◌, refl, ◌∙◌, Bool, true, false, ◌&&◌, not, List, [], ◌∷◌, arith, any, ◌==◌, nat_comparable,
  text_comparable, select, All, Bool-cases, Option-cases, inl, inr,
}
use omni_ai_v.Rows.{find_first, delete_where_gone, All-delete_where, select-delete_where}
use omni_ai_v.Workspace.Sessions.{
  deleted, DocumentCleanupTarget, Chunk, Externals, Environment, State, cleanup_chunks,
  cleanup_document_externals, cleanup_all, is_chunk_of, targets, delete_chat_session,
}

-- The chunk belongs to one of the targets.
abbrev pub is_chunk_of_any : List DocumentCleanupTarget → Chunk → Bool
is_chunk_of_any ts c = any (λ t. is_chunk_of t c) ts

-- Cleaning up touches no chunk of another document.
cleanup_all_keeps :
    (env : Environment) (q : Chunk → Bool) (ts : List DocumentCleanupTarget) (ext : Externals)
    → ((c : Chunk) → is_chunk_of_any ts c ≡ true → q c ≡ false)
    → select q (cleanup_all env ext ts).chunks ≡ select q ext.chunks
unfolding cleanup_all cleanup_chunks
cleanup_all_keeps env q [] ext apart = refl
cleanup_all_keeps env q (t ∷ ts) ext apart =
    cleanup_all_keeps env q ts (cleanup_document_externals env ext t)
      (λ c e. apart c (ground arith))
    ∙ (elim (Bool-cases (env.chroma_ok t.document_id)) [
      | inl up ↦
          rw up (select-delete_where q (is_chunk_of t) ext.chunks (λ c e. apart c (ground arith)))
      | inr down ↦ rw down
    ])

cleanup_all_removes :
    (env : Environment) (P : Chunk → Type 0) (ts : List DocumentCleanupTarget) (ext : Externals)
    → All P ext.chunks
    → All P (cleanup_all env ext ts).chunks
unfolding cleanup_all cleanup_chunks
cleanup_all_removes env P [] ext h = h
cleanup_all_removes env P (t ∷ ts) ext h =
    cleanup_all_removes env P ts (cleanup_document_externals env ext t)
      (elim (Bool-cases (env.chroma_ok t.document_id)) [
        | inl up ↦ rw up (All-delete_where P _ ext.chunks h)
        | inr down ↦ rw down h
      ])

-- While the vector store answers, no chunk of a target is left.
cleanup_all_gone :
    (env : Environment) (ts : List DocumentCleanupTarget) (ext : Externals)
    → ((i : ℕ) → env.chroma_ok i ≡ true)
    → All (λ t. All (λ c. is_chunk_of t c ≡ false) (cleanup_all env ext ts).chunks) ts
unfolding cleanup_all cleanup_chunks
cleanup_all_gone env [] ext up = tt
cleanup_all_gone env (t ∷ ts) ext up = (
  cleanup_all_removes env (λ c. is_chunk_of t c ≡ false) ts (cleanup_document_externals env ext t)
      (rw up (delete_where_gone (is_chunk_of t) ext.chunks)),
  cleanup_all_gone env ts (cleanup_document_externals env ext t) up,
)

-- Whatever the call answers, the vector store has the chunks of all other documents as before.
other_chunks_kept :
    (env : Environment) (state : State) (user_id session_id : ℕ)
    → select
        (λ c. not (is_chunk_of_any (targets state.db session_id) c))
        (delete_chat_session env state user_id session_id).1.ext.chunks
      ≡ select (λ c. not (is_chunk_of_any (targets state.db session_id) c)) state.ext.chunks
unfolding delete_chat_session
other_chunks_kept env state user_id session_id =
    elim (Option-cases
      (find_first (λ s. s.id == session_id && s.user_id == user_id) state.db.sessions)) [
        | inl absent ↦ rw absent
        | inr (s, found) ↦ elim (Bool-cases env.commit_ok) [
          | inr e ↦ rw (found, e)
          | inl e ↦
              rw (found, e)
                (cleanup_all_keeps env _ (targets state.db session_id) state.ext
                  (λ c q. ground arith))
        ]
      ]

-- After `deleted`, if the vector store answered each time, it has no chunk of a document of the
-- session.
session_chunks_gone :
    (env : Environment) (state : State) (user_id session_id : ℕ)
    → ((i : ℕ) → env.chroma_ok i ≡ true)
    → (delete_chat_session env state user_id session_id).0 ≡ deleted
    → All
        (λ t.
          All
            (λ c. is_chunk_of t c ≡ false)
            (delete_chat_session env state user_id session_id).1.ext.chunks)
        (targets state.db session_id)
unfolding delete_chat_session
session_chunks_gone env state user_id session_id up h =
    elim (Option-cases
      (find_first (λ s. s.id == session_id && s.user_id == user_id) state.db.sessions)) [
        | inl absent ↦ absurd (cc (rw absent at h))
        | inr (s, found) ↦ elim (Bool-cases env.commit_ok) [
          | inr e ↦ absurd (cc (rw (found, e) at h))
          | inl e ↦ rw (found, e) (cleanup_all_gone env (targets state.db session_id) state.ext up)
        ]
      ]
