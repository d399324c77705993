-- ===== src/Documents/Summary.antt =====
-- The figures of documents_indexing_summary.
use omni_ai_v.Prelude.{
  ℕ, suc, ◌+◌, ◌-◌, ◌≡◌, refl, String, Bool, false, ◌&&◌, ◌||◌, not, List, [], ◌∷◌, arith,
  if◌then◌else◌, ◌==◌, nat_comparable, text_comparable, eq_of_beq, beq_refl, is_empty, length,
  select, tally, All, Bool-cases, inl, inr,
}
use omni_ai_v.Ingestion.{IndexedDocument}
use omni_ai_v.Documents.{
  Filter, Reply, ok, Counts, is_selected, is_unscoped, counted, group_by_stage, count_of, sum_of,
  has_stage, counts_of, documents_indexing_summary,
}

abbrev pub is_at : String → IndexedDocument → Bool
is_at stage d = d.indexing_stage == stage

-- A group has a name of its own that is not blank.
abbrev AreGroups : List (String × ℕ) → Type 0
AreGroups [] = Unit
AreGroups ((s, n) ∷ groups) = (is_empty s ≡ false) × (has_stage s groups ≡ false) × AreGroups groups

sum-counted : (k : String) (g : List (String × ℕ)) → sum_of (counted k g) ≡ suc (sum_of g)
sum-counted k [] = omega arith
sum-counted k ((s, n) ∷ g) = elim (Bool-cases (s == k)) [
  | inl hit ↦ rw hit (omega arith)
  | inr miss ↦ rw miss (omega (arith, sum-counted k g))
]

count-counted :
    (k s : String) (g : List (String × ℕ))
    → count_of s (counted k g) ≡ count_of s g + (if k == s then 1 else 0)
count-counted k s [] = ground arith
count-counted k s ((t, n) ∷ g) = elim (Bool-cases (t == k)) [
  | inl hit ↦
      let same : t ≡ k = eq_of_beq t k hit in
      rw (hit, same)
        (elim (Bool-cases (k == s)) [ inl e ↦ rw e (omega arith) | inr e ↦ rw e (omega arith) ])
  | inr miss ↦ rw miss (elim (Bool-cases (t == s)) [
    | inl e ↦
        let same : t ≡ s = eq_of_beq t s e in
        let other : (k == s) ≡ false = (elim (Bool-cases (k == s)) [
          | inl f ↦ absurd (cc (rw (eq_of_beq k s f, same, beq_refl s) at miss))
          | inr f ↦ f
        ]) in
        rw (e, other) (omega arith)
    | inr e ↦ rw e (count-counted k s g)
  ])
]

has-counted :
    (k s : String) (g : List (String × ℕ)) → has_stage s (counted k g) ≡ (k == s || has_stage s g)
has-counted k s [] = ground arith
has-counted k s ((t, n) ∷ g) = elim (Bool-cases (t == k)) [
  | inl hit ↦ let same : t ≡ k = eq_of_beq t k hit in rw (hit, same) (ground arith)
  | inr miss ↦ rw (miss, has-counted k s g) (ground arith)
]

counted-AreGroups :
    (k : String) (g : List (String × ℕ))
    → is_empty k ≡ false
    → AreGroups g
    → AreGroups (counted k g)
counted-AreGroups k [] full h = (full, refl, tt)
counted-AreGroups k ((s, n) ∷ g) full (named, fresh, rest) = elim (Bool-cases (s == k)) [
  | inl hit ↦ rw hit (named, fresh, rest)
  | inr miss ↦
      let other : (k == s) ≡ false = (elim (Bool-cases (k == s)) [
        | inl f ↦ absurd (cc (rw (eq_of_beq k s f, beq_refl s) at miss))
        | inr f ↦ f
      ]) in
      rw miss (named, rw (has-counted k s g, other) fresh, counted-AreGroups k g full rest)
]

group_by_stage-AreGroups :
    (documents : List IndexedDocument)
    → All (λ d. is_empty d.indexing_stage ≡ false) documents
    → AreGroups (group_by_stage documents)
unfolding group_by_stage
group_by_stage-AreGroups [] h = tt
group_by_stage-AreGroups (d ∷ documents) h =
    counted-AreGroups d.indexing_stage (group_by_stage documents) h.0
      (group_by_stage-AreGroups documents h.1)

counts-same : (g : List (String × ℕ)) → AreGroups g → counts_of g ≡ g
unfolding counts_of
counts-same [] h = refl
counts-same ((s, n) ∷ g) (named, fresh, rest) = rw (named, counts-same g rest) (rw fresh refl)

sum-group :
    (documents : List IndexedDocument) → sum_of (group_by_stage documents) ≡ length documents
unfolding group_by_stage
sum-group [] = refl
sum-group (d ∷ documents) =
    omega (arith, sum-counted d.indexing_stage (group_by_stage documents), sum-group documents)

count-group :
    (s : String) (documents : List IndexedDocument)
    → count_of s (group_by_stage documents) ≡ tally (is_at s) documents
unfolding group_by_stage
count-group s [] = refl
count-group s (d ∷ documents) =
    omega
      (arith, count-counted d.indexing_stage s (group_by_stage documents), count-group s documents)

abbrev pub is_under_way : IndexedDocument → Bool
is_under_way d = not (is_at "ready" d) && not (is_at "failed" d)

-- A document is in one of three states.
three_ways :
    (documents : List IndexedDocument)
    → tally (is_at "ready") documents
        + tally (is_at "failed") documents
        + tally is_under_way documents
      ≡ length documents
three_ways [] = refl
three_ways (d ∷ documents) =
    let ih = three_ways documents in
    elim (Bool-cases (d.indexing_stage == "ready")) [
      | inl ready ↦ let e = eq_of_beq d.indexing_stage "ready" ready in rw e (omega (arith, ih))
      | inr other ↦ elim (Bool-cases (d.indexing_stage == "failed")) [
        | inl failed ↦ rw (other, failed) (omega (arith, ih))
        | inr open_ ↦ rw (other, open_) (omega (arith, ih))
      ]
    ]

-- The figures are those of the documents that pass the filter.
abbrev pub IsSummary : List IndexedDocument → Reply Counts → Type 0
IsSummary documents reply =
    (c : Counts) × (reply ≡ ok c)
    × (c.total ≡ length documents)
    × (c.ready ≡ tally (is_at "ready") documents)
    × (c.failed ≡ tally (is_at "failed") documents)
    × (c.indexing ≡ tally is_under_way documents)
    × ((stage : String) → count_of stage c.by_stage ≡ tally (is_at stage) documents)

-- For a session or a collection, and stages that are not blank: the summary counts the documents that
-- pass the filter, those that are ready, those that have failed, all others as under way, and those
-- of each stage.
pub documents_indexing_summary-IsSummary :
    (f : Filter) (documents : List IndexedDocument)
    → is_unscoped f.session_id f.collection_id ≡ false
    → All (λ d. is_empty d.indexing_stage ≡ false) (select (is_selected f) documents)
    → IsSummary (select (is_selected f) documents) (documents_indexing_summary f documents)
unfolding documents_indexing_summary
documents_indexing_summary-IsSummary f documents scoped named =
    let rows = select (is_selected f) documents in
    let g = group_by_stage rows in
    let same = counts-same g (group_by_stage-AreGroups rows named) in
    let ready = count-group "ready" rows in
    let failed = count-group "failed" rows in
    rw (scoped, same)
      (
        record {
          total = sum_of g;
          ready = count_of "ready" g;
          indexing = sum_of g - count_of "ready" g - count_of "failed" g;
          failed = count_of "failed" g;
          by_stage = g;
        },
        refl,
        sum-group rows,
        ready,
        failed,
        omega (arith, sum-group rows, ready, failed, three_ways rows),
        λ stage. count-group stage rows,
      )
