-- ===== src/Search/Tests.antt =====
-- The searches on a store of two users' chunks.
use mathlib.Core.List.{Mem, mem-cons_self, mem-cons_of_mem}
use omni_ai_v.Prelude.{
  ℕ, ◌+◌, ◌/◌, ◌≤◌, ◌≡◌, refl, ap, String, Bool, true, false, Option, none, some, List, [], ◌∷◌,
  map, leb, all, select, decimal, if◌then◌else◌, arith, ◌==◌, text_comparable, All, All-imp,
  All-both, Bool-cases, inl, inr, All-select, eq_of_beq, length, sort_by,
}
use omni_ai_v.Search.{
  Where, field, conjunction, Chunk, Scope, Floats, VectorStore, fuse, ranked, semantic_search,
  bm25_search_ranked, get_scoped_documents, build_filter, filters_of, hybrid_search_ranked,
  hybrid_search,
}
use omni_ai_v.Search.Scoping.{Satisfies, AsAsked, Answers, IsInScope, Found, Has}
use omni_ai_v.Search.Fusion.{found, hybrid_search_ranked_lem, Distinct, Named}

abbrev metadata : String → String → Option String
metadata user name =
    if name == "user_id" then some user else if name == "workspace_id" then some "default" else none

abbrev chunks : List Chunk
chunks =
    record { document = "a b"; metadata = metadata "1" }
    ∷ record { document = "b c"; metadata = metadata "2" }
    ∷ record { document = "c"; metadata = metadata "1" }
    ∷ []

abbrev is_text : String → Option String → Bool
is_text value none = false
is_text value (some v) = v == value

abbrev satisfies : Where → Chunk → Bool
satisfies (field name value) c = is_text value (c.metadata name)
satisfies (conjunction fs) c = all (λ f. is_text f.1 (c.metadata f.0)) fs

abbrev store : VectorStore
store = record {
  get = λ w. select (satisfies w) chunks;
  query = λ n w. elim w [ none ↦ chunks | some v ↦ select (satisfies v) chunks ];
}

is_text_sound : (value : String) (o : Option String) → is_text value o ≡ true → o ≡ some value
is_text_sound value none h = absurd (cc h)
is_text_sound value (some v) h = ap some (eq_of_beq v value h)

all_sound :
    (c : Chunk) (fs : List (String × String))
    → all (λ f. is_text f.1 (c.metadata f.0)) fs ≡ true
    → All (Has c.metadata) fs
all_sound c [] h = tt
all_sound c (f ∷ fs) h =
    (is_text_sound f.1 (c.metadata f.0) (ground arith), all_sound c fs (ground arith))

satisfies_sound : (w : Where) (c : Chunk) → satisfies w c ≡ true → Satisfies w c
unfolding Satisfies
satisfies_sound (field name value) c h = is_text_sound value (c.metadata name) h
satisfies_sound (conjunction fs) c h = all_sound c fs h

select-Mem {ℓ} :
    {A : Type ℓ} (p : A → Bool) (xs whole : List A)
    → All (λ x. Mem x whole) xs
    → All (λ x. Mem x whole) (select p xs)
select-Mem p [] whole h = tt
select-Mem p (x ∷ xs) whole h = elim (Bool-cases (p x)) [
  | inl e ↦ rw e (h.0, select-Mem p xs whole h.1)
  | inr e ↦ rw e (select-Mem p xs whole h.1)
]

chunks-Mem : All (λ c. Mem c chunks) chunks
chunks-Mem = (
  mem-cons_self,
  (mem-cons_of_mem _ mem-cons_self, (mem-cons_of_mem _ (mem-cons_of_mem _ mem-cons_self), tt)),
)

got : (w : Where) → All (Answers chunks (some w)) (store.get w)
got w =
    All-both (λ c. Mem c chunks) (AsAsked (some w)) (select (satisfies w) chunks)
      (select-Mem (satisfies w) chunks chunks chunks-Mem)
      (All-imp (select (satisfies w) chunks) (λ c h. satisfies_sound w c h)
        (All-select (satisfies w) chunks))

asked : (n : ℕ) (w : Option Where) → All (Answers chunks w) (store.query n w)
asked n none = All-imp {Q = Answers chunks none} chunks (λ c h. (h, tt)) chunks-Mem
asked n (some w) = got w

abbrev floats : Floats ℕ
floats = record {
  zero_score = 0;
  plus = λ x y. x + y;
  divide = λ x n. x / n;
  le = leb;
  round6 = λ x. x;
}

abbrev scores : List String → List ℕ
scores ds = map (λ d. if d == "c" then 2 else 1) ds

abbrev of_user : ℕ → Scope
of_user u = record {
  user_id = some u;
  workspace_id = "default";
  collection_id = none;
  session_id = none;
}

hybrid_run : hybrid_search floats scores 6000 4000 store 5 (of_user 1) ≡ "a b" ∷ "c" ∷ []
unfolding hybrid_search hybrid_search_ranked semantic_search bm25_search_ranked get_scoped_documents
    build_filter filters_of fuse ranked sort_by decimal
hybrid_run = refl

hybrid_search_ranked_lem_example :
    (length (found floats scores 6000 4000 chunks store 5 (of_user 1)) ≤ 5)
    × Distinct (found floats scores 6000 4000 chunks store 5 (of_user 1))
    × All
        (Named (Found chunks (IsInScope (of_user 1))))
        (found floats scores 6000 4000 chunks store 5 (of_user 1))
hybrid_search_ranked_lem_example =
    hybrid_search_ranked_lem floats scores 6000 4000 chunks store 5 (of_user 1) got asked
