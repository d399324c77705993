-- ===== src/Memory.antt =====
-- backend/app/services/user_memory_service.py over the table of backend/app/models/memory.py. Floats
-- and `str.lower` are arguments; the titles of sources are left out.
pub mod Selection
mod Tests
use Prim.Native.Char.{Char}
use omni_ai_v.Prelude.{
  ℕ, ◌+◌, String, Bool, true, false, ◌&&◌, ◌||◌, not, Option, none, some, List, [], ◌∷◌, ◌++◌,
  if◌then◌else◌, ◌==◌, nat_comparable, text_comparable, leb, ltb, any, take, select, sort_by,
  length, map, strip, is_space, text_length, is_empty,
}
use omni_ai_v.Rows.{find_first, delete_where}

pub record UserMemory {ℓ} (S : Type ℓ) : Type ℓ where
  pub id : ℕ
  pub user_id : ℕ
  pub workspace_id : String
  pub category : String
  pub content : String
  pub importance : S
  pub updated_at : ℕ

pub record Db {ℓ} (S : Type ℓ) : Type ℓ where
  pub memories : List (UserMemory S)
  pub next_memory : ℕ

-- Python's floats with what the service does with them: the order, the test against 0.75, and the
-- weighted sum for the overlap, the number of terms, the importance and the time of the last update.
pub record Floats {ℓ} (S : Type ℓ) : Type ℓ where
  pub le : S → S → Bool
  pub is_important : S → Bool
  pub semantic_proxy : ℕ → ℕ → S → ℕ → S

cons_head : Char → List String → List String
cons_head c [] = String.◌∷◌ c "" ∷ []
cons_head c (w ∷ ws) = String.◌∷◌ c w ∷ ws

-- `text.split()`, with empty words where white space follows white space.
unfoldable pub pieces : String → List String
unfolding is_space cons_head
pieces String.[] = "" ∷ []
pieces (String.◌∷◌ c s) = let rest = pieces s in if is_space c then "" ∷ rest else cons_head c rest

-- The members of a set, for an enumeration of it.
unfoldable pub as_set : List String → List String
as_set [] = []
as_set (t ∷ ts) = let rest = as_set ts in if any (λ u. u == t) rest then rest else t ∷ rest

unfoldable pub memory_tokens : (String → String) → String → List String
unfolding pieces as_set
memory_tokens lower text =
    as_set (map lower (select (λ term. ltb 2 (text_length term)) (pieces text)))

abbrev pub overlap : List String → List String → ℕ
overlap query_terms tokens = length (select (λ t. any (λ u. u == t) tokens) query_terms)

module _ {ℓ} {S : Type ℓ} where
  abbrev pub is_kept_for : ℕ → String → UserMemory S → Bool
  is_kept_for user_id workspace_id m = m.user_id == user_id && m.workspace_id == workspace_id

  -- The most important first, and of equally important ones the latest.
  abbrev pub comes_first : Floats S → UserMemory S → UserMemory S → Bool
  comes_first floats a b =
      if floats.le a.importance b.importance
      then floats.le b.importance a.importance && leb b.updated_at a.updated_at
      else true

  unfoldable pub list_memories : Floats S → Db S → ℕ → String → List (UserMemory S)
  unfolding sort_by
  list_memories floats db user_id workspace_id =
      sort_by (comes_first floats) (select (is_kept_for user_id workspace_id) db.memories)

  unfoldable pub create_memory : ℕ → Db S → ℕ → String → String → S → String → UserMemory S × Db S
  create_memory now db user_id content category importance workspace_id =
      let memory : UserMemory S = record {
        id = db.next_memory;
        user_id = user_id;
        workspace_id = workspace_id;
        category = category;
        content = content;
        importance = importance;
        updated_at = now;
      } in
      (memory, record { memories = db.memories ++ memory ∷ []; next_memory = db.next_memory + 1 })

  abbrev pub delete_found : Db S → Option (UserMemory S) → Bool × Db S
  delete_found db none = (false, db)
  delete_found db (some m) =
      (true, record db { memories = delete_where (λ x. x.id == m.id) db.memories })

  unfoldable pub delete_memory : Db S → ℕ → ℕ → Bool × Db S
  unfolding find_first delete_where
  delete_memory db user_id memory_id =
      delete_found db (find_first (λ m. m.id == memory_id && m.user_id == user_id) db.memories)

module _ {ℓ} {S : Type ℓ} (lower : String → String) (floats : Floats S) where
  unfoldable pub content_key : UserMemory S → String
  unfolding strip
  content_key m = lower (strip m.content)

  unfoldable pub matches : List String → UserMemory S → ℕ
  unfolding memory_tokens
  matches query_terms m = overlap query_terms (memory_tokens lower m.content)

  abbrev pub is_relevant : List String → UserMemory S → Bool
  is_relevant query_terms m =
      not (matches query_terms m == 0 && not (floats.is_important m.importance))

  abbrev pub score : List String → UserMemory S → S
  score query_terms m =
      floats.semantic_proxy (matches query_terms m) (length query_terms) m.importance m.updated_at

  -- The loop, from the keys that were seen on.
  unfoldable pub scored_from :
      List String → List String → List (UserMemory S) → List (S × UserMemory S)
  unfolding content_key matches
  scored_from query_terms seen [] = []
  scored_from query_terms seen (m ∷ memories) =
      let key = content_key m in
      let skip = any (λ s. s == key) seen || not (is_relevant query_terms m) in
      let rest = scored_from query_terms (if skip then seen else key ∷ seen) memories in
      if skip then rest else (score query_terms m, m) ∷ rest

  abbrev or_first : ℕ → List (UserMemory S) → List (S × UserMemory S) → List (S × UserMemory S)
  or_first limit memories [] = map (λ m. (m.importance, m)) (take limit memories)
  or_first limit memories (x ∷ xs) = x ∷ xs

  -- `ranked[:limit]` of `retrieve_memory_context`, from which the context and the sources are written.
  unfoldable pub retrieve_memory_context : Db S → ℕ → String → String → ℕ → List (S × UserMemory S)
  unfolding list_memories scored_from sort_by memory_tokens
  retrieve_memory_context db user_id query workspace_id limit =
      let memories = list_memories floats db user_id workspace_id in
      let scored = scored_from (memory_tokens lower query) [] memories in
      take limit (sort_by (λ a b. floats.le b.0 a.0) (or_first limit memories scored))
