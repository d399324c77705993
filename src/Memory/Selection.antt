-- ===== src/Memory/Selection.antt =====
-- Which memories a question is given.
use omni_ai_v.Prelude.{
  ℕ, ◌≤◌, ◌≡◌, refl, String, Bool, true, false, List, [], ◌∷◌, arith, if◌then◌else◌, ◌==◌,
  nat_comparable, text_comparable, eq_of_beq, any, sort_by, length, tally, tally-sort_by,
  tally-take-le, length-take-le, All, All-sort_by, All-take, All-select, Bool-cases, inl, inr,
}
use omni_ai_v.Memory.{
  UserMemory, Db, Floats, is_kept_for, comes_first, list_memories, memory_tokens, content_key,
  is_relevant, score, scored_from, retrieve_memory_context,
}

module _ {ℓ} {S : Type ℓ} (lower : String → String) (floats : Floats S) where
  abbrev has_key : String → S × UserMemory S → Bool
  has_key k x = content_key lower floats x.1 == k

  scored_from-All {κ} :
      (P : UserMemory S → Type κ) (query_terms seen : List String) (ms : List (UserMemory S))
      → All P ms
      → All
          (λ x. P x.1 × (is_relevant lower floats query_terms x.1 ≡ true))
          (scored_from lower floats query_terms seen ms)
  unfolding scored_from
  scored_from-All P query_terms seen [] h = tt
  scored_from-All P query_terms seen (m ∷ ms) h =
      let key = content_key lower floats m in
      elim (Bool-cases (any (λ s. s == key) seen)) [
        | inl old ↦ rw old (scored_from-All P query_terms seen ms h.1)
        | inr new ↦ elim (Bool-cases (is_relevant lower floats query_terms m)) [
          | inl good ↦
              rw (new, good) ((h.0, good), scored_from-All P query_terms (key ∷ seen) ms h.1)
          | inr bad ↦ rw (new, bad) (scored_from-All P query_terms seen ms h.1)
        ]
      ]

  scored_from_once :
      (query_terms seen : List String) (ms : List (UserMemory S)) (k : String)
      → tally (has_key k) (scored_from lower floats query_terms seen ms)
        ≤ (if any (λ s. s == k) seen then 0 else 1)
  unfolding scored_from
  scored_from_once query_terms seen [] k = omega arith
  scored_from_once query_terms seen (m ∷ ms) k =
      let key = content_key lower floats m in
      let ih = scored_from_once query_terms seen ms k in
      elim (Bool-cases (any (λ s. s == key) seen)) [
        | inl old ↦ rw old ih
        | inr new ↦ elim (Bool-cases (is_relevant lower floats query_terms m)) [
          | inr bad ↦ rw (new, bad) ih
          | inl good ↦
              let after = scored_from_once query_terms (key ∷ seen) ms k in
              elim (Bool-cases (key == k)) [
                | inl hit ↦
                    let same : key ≡ k = eq_of_beq key k hit in
                    let fresh : any (λ s. s == k) seen ≡ false = rw (← same) new in
                    rw (new, good) (ground arith)
                | inr miss ↦ rw (new, good) (ground arith)
              ]
        ]
      ]

  scored_from_some :
      (query_terms : List String) (ms : List (UserMemory S))
      → any (is_relevant lower floats query_terms) ms ≡ true
      → (x : S × UserMemory S) × (xs : List (S × UserMemory S)) × (scored_from lower floats
            query_terms [] ms
          ≡ x ∷ xs)
  unfolding scored_from
  scored_from_some query_terms [] h = cc
  scored_from_some query_terms (m ∷ ms) h =
      elim (Bool-cases (is_relevant lower floats query_terms m)) [
        | inl good ↦ (
          (score lower floats query_terms m, m),
          scored_from lower floats query_terms (content_key lower floats m ∷ []) ms,
          rw good refl,
        )
        | inr bad ↦
            let (x, xs, e) = scored_from_some query_terms ms (ground arith) in (x, xs, rw bad e)
      ]

  list_memories-All :
      (db : Db S) (user_id : ℕ) (workspace_id : String)
      → All
          (λ m. is_kept_for user_id workspace_id m ≡ true)
          (list_memories floats db user_id workspace_id)
  unfolding list_memories
  list_memories-All db user_id workspace_id =
      All-sort_by _ (comes_first floats) _
        (All-select (is_kept_for user_id workspace_id) db.memories)

  -- If one of the user's memories of the workspace shares with the query a word of more than two
  -- characters or is important: those that are selected are no more than the limit, all of this user
  -- and workspace, each shares such a word or is important, and no two have the same text up to case
  -- and the white space around it.
  pub retrieve_memory_context-IsSelection :
      (db : Db S) (user_id : ℕ) (query workspace_id : String) (limit : ℕ)
      → any
          (is_relevant lower floats (memory_tokens lower query))
          (list_memories floats db user_id workspace_id)
        ≡ true
      → (length (retrieve_memory_context lower floats db user_id query workspace_id limit) ≤ limit)
        × All
            (λ x.
              (is_kept_for user_id workspace_id x.1 ≡ true)
              × (is_relevant lower floats (memory_tokens lower query) x.1 ≡ true))
            (retrieve_memory_context lower floats db user_id query workspace_id limit)
        × ((k : String)
            → tally
                (λ x. content_key lower floats x.1 == k)
                (retrieve_memory_context lower floats db user_id query workspace_id limit)
              ≤ 1)
  unfolding retrieve_memory_context
  retrieve_memory_context-IsSelection db user_id query workspace_id limit some_relevant =
      let terms = memory_tokens lower query in
      let ms = list_memories floats db user_id workspace_id in
      let (x, xs, e) = scored_from_some terms ms some_relevant in
      let le : S × UserMemory S → S × UserMemory S → Bool = λ a b. floats.le b.0 a.0 in
      let rows = scored_from-All _ terms [] ms (list_memories-All db user_id workspace_id) in
      rw e (
        length-take-le limit (sort_by le (x ∷ xs)),
        All-take _ limit (sort_by le (x ∷ xs)) (All-sort_by _ le (x ∷ xs) (rw e at rows)),
        λ k.
            let once = scored_from_once terms [] ms k in
            let once_here : tally (has_key k) (x ∷ xs) ≤ 1 = rw e at once in
            omega (
              arith,
              tally-take-le (has_key k) limit (sort_by le (x ∷ xs)),
              tally-sort_by (has_key k) le (x ∷ xs),
              once_here,
            ),
      )
