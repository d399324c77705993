-- ===== src/Search/Fusion.antt =====
-- The fused ranking of hybrid_search_ranked of backend/app/services/hybrid_search.py.
use omni_ai_v.Prelude.{
  ℕ, suc, ◌≤◌, max, ◌≡◌, refl, String, Bool, false, Option, some, List, [], ◌∷◌, map, arith, ◌==◌,
  text_comparable, take, length, tally, All, All-take, All-map, All-sort_by, Bool-cases, inl, inr,
  eq_of_beq, tally-sort_by, length-take-le, length-map, tally-map, tally-take-le,
}
use omni_ai_v.Search.{
  Where, Chunk, Scope, Floats, VectorStore, semantic_search, bump, fuse, zip_scores, ranked,
  rounded, bm25_search_ranked, hybrid_search_ranked,
}
use omni_ai_v.Search.Scoping.{
  Answers, IsInScope, Found, semantic_search-Found, get_scoped_documents-Found,
}

module _ {ℓ} {S : Type ℓ} where
  abbrev pub Named : (String → Type 0) → String × S → Type 0
  Named P item = P item.0

  zip_scores-All :
      (P : String → Type 0) (ds : List String) (scores : List S)
      → All P ds
      → All (Named P) (zip_scores ds scores)
  zip_scores-All P [] scores h = tt
  zip_scores-All P (d ∷ ds) [] h = tt
  zip_scores-All P (d ∷ ds) (x ∷ scores) h = (h.0, zip_scores-All P ds scores h.1)

  bump-All :
      (P : String → Type 0) (f : Floats S) (d : String) (share : S) (items : List (String × S))
      → P d
      → All (Named P) items
      → All (Named P) (bump f d share items)
  bump-All P f d share [] p h = (p, tt)
  bump-All P f d share ((e, x) ∷ rest) p h = elim (Bool-cases (e == d)) [
    | inl same ↦ rw same h
    | inr other ↦ rw other (h.0, bump-All P f d share rest p h.1)
  ]

  abbrev is_for : String → String × S → Bool
  is_for d item = item.0 == d

  -- At most one item for each document.
  abbrev pub Distinct : List (String × S) → Type 0
  Distinct items = (d : String) → tally (is_for d) items ≤ 1

  tally-bump_other :
      (f : Floats S) (d k : String) (share : S) (items : List (String × S))
      → (d == k) ≡ false
      → tally (is_for k) (bump f d share items) ≡ tally (is_for k) items
  tally-bump_other f d k share [] other = rw other refl
  tally-bump_other f d k share ((e, x) ∷ rest) other = elim (Bool-cases (e == d)) [
    | inl same ↦ rw same refl
    | inr e_other ↦ rw e_other (omega (arith, tally-bump_other f d k share rest other))
  ]

  tally-bump_same :
      (f : Floats S) (d : String) (share : S) (items : List (String × S))
      → tally (is_for d) items ≤ 1
      → tally (is_for d) (bump f d share items) ≤ 1
  tally-bump_same f d share [] h = ground arith
  tally-bump_same f d share ((e, x) ∷ rest) h = elim (Bool-cases (e == d)) [
    | inl same ↦ rw same (rw same (rw same at h))
    | inr other ↦
        let tail : tally (is_for d) rest ≤ 1 = omega arith in
        rw other (rw other (omega (arith, tally-bump_same f d share rest tail)))
  ]

  bump-Distinct :
      (f : Floats S) (d : String) (share : S) (items : List (String × S))
      → Distinct items
      → Distinct (bump f d share items)
  bump-Distinct f d share items h k = elim (Bool-cases (d == k)) [
    | inl same ↦ rw (← eq_of_beq d k same) (tally-bump_same f d share items (h d))
    | inr other ↦ omega (arith, tally-bump_other f d k share items other, h k)
  ]

  fuse-Distinct :
      (f : Floats S) (weight : S) (rank : ℕ) (ds : List String) (items : List (String × S))
      → Distinct items
      → Distinct (fuse f weight rank ds items)
  unfolding fuse
  fuse-Distinct f weight rank [] items h = h
  fuse-Distinct f weight rank (d ∷ ds) items h =
      fuse-Distinct f weight (suc rank) ds _ (bump-Distinct f d _ items h)

  fuse-All :
      (P : String → Type 0) (f : Floats S) (weight : S) (rank : ℕ) (ds : List String)
      (items : List (String × S))
      → All P ds
      → All (Named P) items
      → All (Named P) (fuse f weight rank ds items)
  unfolding fuse
  fuse-All P f weight rank [] items p h = h
  fuse-All P f weight rank (d ∷ ds) items p h =
      fuse-All P f weight (suc rank) ds _ p.1 (bump-All P f d _ items p.0 h)

module _ {ℓ} {S : Type ℓ} (floats : Floats S) (bm25_scores : List String → List S)
    (semantic_weight bm25_weight : S) (chunks : List Chunk) (store : VectorStore) (top_k : ℕ)
    (s : Scope) where
  abbrev pub found : List (String × S)
  found = hybrid_search_ranked floats bm25_scores semantic_weight bm25_weight store top_k s

  bm25_search_ranked-Found :
      (n : ℕ)
      → ((w : Where) → All (Answers chunks (some w)) (store.get w))
      → All
          (Found chunks (IsInScope s))
          (map (λ item. item.0) (bm25_search_ranked floats bm25_scores store n s))
  unfolding bm25_search_ranked ranked
  bm25_search_ranked-Found n asked =
      All-map (λ item. item.0) (Found chunks (IsInScope s)) _
        (All-take (Named (Found chunks (IsInScope s))) n _ (
          All-sort_by (Named (Found chunks (IsInScope s))) _ _ (
            zip_scores-All (Found chunks (IsInScope s)) _ _
              (get_scoped_documents-Found chunks store s asked))))

  -- If the store answers only chunks of its own that satisfy the condition: a hybrid search gives at
  -- most `top_k` documents, each once, and each is the text of a chunk of the store that is in the scope
  -- of the search; without a user there is none.
  pub hybrid_search_ranked_lem :
      ((w : Where) → All (Answers chunks (some w)) (store.get w))
      → ((n : ℕ) (w : Option Where) → All (Answers chunks w) (store.query n w))
      → (length found ≤ top_k) × Distinct found × All (Named (Found chunks (IsInScope s))) found
  unfolding hybrid_search_ranked ranked
  hybrid_search_ranked_lem got asked =
      let by_words =
        map (λ item. item.0) (bm25_search_ranked floats bm25_scores store (max top_k 10) s) in
      let by_meaning = semantic_search store (max top_k 10) s in
      let first = fuse floats semantic_weight 0 by_meaning [] in
      let fused = fuse floats bm25_weight 0 by_words first in
      let first-Distinct =
        fuse-Distinct floats semantic_weight 0 by_meaning [] (λ d. omega arith) in
      let all-Found =
        fuse-All (Found chunks (IsInScope s)) floats bm25_weight 0 by_words first
          (bm25_search_ranked-Found (max top_k 10) got)
          (fuse-All (Found chunks (IsInScope s)) floats semantic_weight 0 by_meaning []
            (semantic_search-Found chunks store s (max top_k 10) asked) tt) in
      let order : String × S → String × S → Bool = λ a b. floats.le b.1 a.1 in
      (
        omega (
          arith,
          length-map (rounded floats) (take top_k (ranked floats fused)),
          length-take-le top_k (ranked floats fused),
        ),
        (λ d. omega (
          arith,
          tally-map (rounded floats) (is_for d) (take top_k (ranked floats fused)),
          tally-take-le (is_for d) top_k (ranked floats fused),
          tally-sort_by (is_for d) order fused,
          fuse-Distinct floats bm25_weight 0 by_words first first-Distinct d,
        )),
        All-map _ (Named (Found chunks (IsInScope s))) _ (
            All-take (Named (Found chunks (IsInScope s))) top_k _
              (All-sort_by (Named (Found chunks (IsInScope s))) order fused all-Found)),
      )
