-- ===== src/Search.antt =====
-- backend/app/services/hybrid_search.py: the search of a user's chunks by meaning, by words, and by
-- both, fused by rank. The vector store, the embedding, the BM25 scores and the floating point
-- numbers are parameters.
pub mod Scoping
pub mod Fusion
mod Tests
use omni_ai_v.Prelude.{
  ℕ, suc, ◌+◌, max, String, Bool, true, not, ◌&&◌, Option, none, some, List, [], ◌∷◌, map,
  if◌then◌else◌, ◌==◌, text_comparable, is_empty, is_some, all, decimal, sort_by, take, length,
}

-- A metadata condition of the vector store: a field's value, or `$and` of conditions.
pub data Where : Type 0 where
  field : String → String → Where
  conjunction : List (String × String) → Where

pub record Chunk : Type 0 where
  pub document : String
  pub metadata : String → Option String

-- The arguments by which a search is scoped.
pub record Scope : Type 0 where
  pub user_id : Option ℕ
  pub workspace_id : String
  pub collection_id : Option ℕ
  pub session_id : Option ℕ

-- `filters.append({name: str(id)})` if the id is given.
abbrev pub id_filter : String → Option ℕ → List (String × String) → List (String × String)
id_filter name none filters = filters
id_filter name (some n) filters = (name, decimal n) ∷ filters

unfoldable pub filters_of : Scope → List (String × String)
filters_of s =
    let last = id_filter "collection_id" s.collection_id (id_filter "session_id" s.session_id []) in
    id_filter "user_id" s.user_id
      (if is_empty s.workspace_id then last else ("workspace_id", s.workspace_id) ∷ last)

abbrev pub combined : List (String × String) → Option Where
combined [] = none
combined ((name, value) ∷ []) = some (field name value)
combined (f ∷ g ∷ rest) = some (conjunction (f ∷ g ∷ rest))

unfoldable pub build_filter : Scope → Option Where
unfolding filters_of
build_filter s = combined (filters_of s)

-- Python's floats with what the search does with them; `divide` is by a positive integer.
pub record Floats {ℓ} (S : Type ℓ) : Type ℓ where
  pub zero_score : S
  pub plus : S → S → S
  pub divide : S → ℕ → S
  pub le : S → S → Bool
  pub round6 : S → S

-- The store's answers: `get(where=...)` and `query(n_results=..., where=...)`.
pub record VectorStore : Type 0 where
  pub get : Where → List Chunk
  pub query : ℕ → Option Where → List Chunk

abbrev get_where : VectorStore → Option Where → List Chunk
get_where store none = []
get_where store (some w) = store.get w

unfoldable pub get_scoped_documents : VectorStore → Scope → List Chunk
unfolding build_filter
get_scoped_documents store s =
    let found = get_where store (build_filter s) in if is_some s.user_id then found else []

-- `store` answers for the embedding of the query.
unfoldable pub semantic_search : VectorStore → ℕ → Scope → List String
unfolding build_filter
semantic_search store top_k s =
    let found = map (λ c. c.document) (store.query top_k (build_filter s)) in
    if is_some s.user_id then found else []

module _ {ℓ} {S : Type ℓ} where
  abbrev pub zip_scores : List String → List S → List (String × S)
  zip_scores [] scores = []
  zip_scores (d ∷ ds) [] = []
  zip_scores (d ∷ ds) (x ∷ scores) = (d, x) ∷ zip_scores ds scores

  -- `fused_scores[document] = fused_scores.get(document, 0.0) + share`, in the dictionary's order.
  abbrev pub bump : Floats S → String → S → List (String × S) → List (String × S)
  bump f document share [] = (document, f.plus f.zero_score share) ∷ []
  bump f document share ((d, x) ∷ rest) =
      let later = bump f document share rest in
      if d == document then (d, f.plus x share) ∷ rest else (d, x) ∷ later

  abbrev pub rounded : Floats S → String × S → String × S
  rounded f item = (item.0, f.round6 item.1)

module _ {ℓ} {S : Type ℓ} (floats : Floats S) where
  -- `sorted(items, key=lambda item: item[1], reverse=True)` keeps the order of equal scores.
  unfoldable pub ranked : List (String × S) → List (String × S)
  unfolding sort_by
  ranked items = sort_by (λ a b. floats.le b.1 a.1) items

  -- One of the two loops over a ranking, from the rank on.
  unfoldable pub fuse : S → ℕ → List String → List (String × S) → List (String × S)
  fuse weight rank [] scores = scores
  fuse weight rank (d ∷ ds) scores =
      fuse weight (suc rank) ds (bump floats d (floats.divide weight (60 + rank + 1)) scores)

module _ {ℓ} {S : Type ℓ} (floats : Floats S) (bm25_scores : List String → List S) where
  unfoldable pub bm25_search_ranked : VectorStore → ℕ → Scope → List (String × S)
  unfolding get_scoped_documents ranked
  bm25_search_ranked store top_k s =
      let documents = map (λ c. c.document) (get_scoped_documents store s) in
      take top_k (ranked floats (zip_scores documents (bm25_scores documents)))

  unfoldable pub hybrid_search_ranked : S → S → VectorStore → ℕ → Scope → List (String × S)
  unfolding semantic_search bm25_search_ranked fuse ranked
  hybrid_search_ranked semantic_weight bm25_weight store top_k s =
      let semantic_results = semantic_search store (max top_k 10) s in
      let bm25_results = map (λ item. item.0) (bm25_search_ranked store (max top_k 10) s) in
      let fused_scores =
        fuse floats bm25_weight 0 bm25_results
          (fuse floats semantic_weight 0 semantic_results []) in
      map (rounded floats) (take top_k (ranked floats fused_scores))

  unfoldable pub hybrid_search : S → S → VectorStore → ℕ → Scope → List String
  unfolding hybrid_search_ranked
  hybrid_search semantic_weight bm25_weight store top_k s =
      map (λ item. item.0) (hybrid_search_ranked semantic_weight bm25_weight store top_k s)
