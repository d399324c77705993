-- ===== src/Search/Scoping.antt =====
-- What the searches of backend/app/services/hybrid_search.py find, for a store that answers only
-- chunks which satisfy the condition.
use mathlib.Core.List.{Mem}
use omni_ai_v.Prelude.{
  ℕ, ◌≡◌, refl, String, true, Option, none, some, List, [], ◌∷◌, map, false, is_some, is_empty,
  decimal, if◌then◌else◌, All, Bool-cases, inl, inr,
}
use omni_ai_v.Search.{
  Where, field, conjunction, Chunk, Scope, filters_of, build_filter, VectorStore, get_where,
  combined, id_filter, get_scoped_documents, semantic_search,
}

abbrev pub Has : (String → Option String) → String × String → Type 0
Has metadata f = metadata f.0 ≡ some f.1

-- The documented meaning of a condition.
unfoldable pub Satisfies : Where → Chunk → Type 0
Satisfies (field name value) c = c.metadata name ≡ some value
Satisfies (conjunction fs) c = All (Has c.metadata) fs

abbrev pub AsAsked : Option Where → Chunk → Type 0
AsAsked none c = Unit
AsAsked (some w) c = Satisfies w c

-- What the store answers is a chunk of it, and as asked for.
abbrev pub Answers : List Chunk → Option Where → Chunk → Type 0
Answers chunks w c = Mem c chunks × AsAsked w c

-- The chunk has the id under the name, if one is asked for.
abbrev pub HasId : String → Option ℕ → Chunk → Type 0
HasId name none c = Unit
HasId name (some n) c = c.metadata name ≡ some (decimal n)

-- The search has a user, and the chunk is that user's and, where these are given, of its workspace,
-- collection and session.
unfoldable pub IsInScope : Scope → Chunk → Type 0
IsInScope s c =
    (is_some s.user_id ≡ true)
    × HasId "user_id" s.user_id c
    × (is_empty s.workspace_id ≡ false → c.metadata "workspace_id" ≡ some s.workspace_id)
    × HasId "collection_id" s.collection_id c
    × HasId "session_id" s.session_id c

-- A chunk of the store that has the text and satisfies the condition.
abbrev pub Found : List Chunk → (Chunk → Type 0) → String → Type 0
Found chunks P d = (c : Chunk) × (c.document ≡ d) × Mem c chunks × P c

filter-All :
    (fs : List (String × String)) (c : Chunk) → AsAsked (combined fs) c → All (Has c.metadata) fs
unfolding Satisfies
filter-All [] c h = tt
filter-All (f ∷ []) c h = (h, tt)
filter-All (f ∷ g ∷ rest) c h = h

id_filter-All :
    (name : String) (o : Option ℕ) (rest : List (String × String)) (c : Chunk)
    → All (Has c.metadata) (id_filter name o rest)
    → HasId name o c × All (Has c.metadata) rest
id_filter-All name none rest c h = (tt, h)
id_filter-All name (some n) rest c h = (h.0, h.1)

workspace-All :
    (workspace_id : String) (rest : List (String × String)) (c : Chunk)
    → All
        (Has c.metadata)
        (if is_empty workspace_id then rest else ("workspace_id", workspace_id) ∷ rest)
    → (is_empty workspace_id ≡ false → c.metadata "workspace_id" ≡ some workspace_id)
      × All (Has c.metadata) rest
workspace-All String.[] rest c h = (λ e. absurd (cc e), h)
workspace-All (String.◌∷◌ x xs) rest c h = (λ e. h.0, h.1)

filters_of-IsInScope :
    (s : Scope) (c : Chunk)
    → is_some s.user_id ≡ true
    → All (Has c.metadata) (filters_of s)
    → IsInScope s c
unfolding filters_of IsInScope
filters_of-IsInScope s c user h =
    let (of_user, h1) = id_filter-All "user_id" s.user_id _ c h in
    let (of_workspace, h2) = workspace-All s.workspace_id _ c h1 in
    let (of_collection, h3) = id_filter-All "collection_id" s.collection_id _ c h2 in
    let (of_session, h4) = id_filter-All "session_id" s.session_id [] c h3 in
    (user, of_user, of_workspace, of_collection, of_session)

documents-Found :
    (chunks : List Chunk) (s : Scope) (cs : List Chunk)
    → is_some s.user_id ≡ true
    → All (Answers chunks (build_filter s)) cs
    → All (Found chunks (IsInScope s)) (map (λ c. c.document) cs)
unfolding build_filter
documents-Found chunks s [] user h = tt
documents-Found chunks s (c ∷ cs) user h = (
  (c, refl, h.0.0, filters_of-IsInScope s c user (filter-All (filters_of s) c h.0.1)),
  documents-Found chunks s cs user h.1,
)

module _ (chunks : List Chunk) (store : VectorStore) (s : Scope) where
  pub semantic_search-Found :
      (top_k : ℕ)
      → ((n : ℕ) (w : Option Where) → All (Answers chunks w) (store.query n w))
      → All (Found chunks (IsInScope s)) (semantic_search store top_k s)
  unfolding semantic_search
  semantic_search-Found top_k asked = elim (Bool-cases (is_some s.user_id)) [
    | inr e ↦ rw e tt
    | inl e ↦ rw e (documents-Found chunks s _ e (asked top_k (build_filter s)))
  ]

  get_where-All :
      (w : Option Where)
      → ((w : Where) → All (Answers chunks (some w)) (store.get w))
      → All (Answers chunks w) (get_where store w)
  get_where-All none asked = tt
  get_where-All (some w) asked = asked w

  pub get_scoped_documents-Found :
      ((w : Where) → All (Answers chunks (some w)) (store.get w))
      → All (Found chunks (IsInScope s)) (map (λ c. c.document) (get_scoped_documents store s))
  unfolding get_scoped_documents
  get_scoped_documents-Found asked = elim (Bool-cases (is_some s.user_id)) [
    | inr e ↦ rw e tt
    | inl e ↦ rw e (documents-Found chunks s _ e (get_where-All (build_filter s) asked))
  ]
