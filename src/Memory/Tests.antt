-- ===== src/Memory/Tests.antt =====
-- Memories with whole numbers for floats.
use omni_ai_v.Prelude.{
  ℕ, ◌+◌, ◌*◌, ◌≤◌, ◌≡◌, refl, String, true, false, [], ◌∷◌, ◌==◌, nat_comparable, text_comparable,
  leb, length, tally, All, map,
}
use omni_ai_v.Memory
use omni_ai_v.Memory.{
  UserMemory, Db, Floats, is_kept_for, list_memories, delete_memory, memory_tokens, content_key,
  is_relevant, retrieve_memory_context,
}
use omni_ai_v.Memory.Selection.{retrieve_memory_context-IsSelection}

-- The texts have no capitals.
abbrev as_is : String → String
as_is text = text

abbrev floats : Floats ℕ
floats = record {
  le = leb;
  is_important = λ importance. leb 75 importance;
  semantic_proxy = λ overlap terms importance at. overlap * 55 + importance * 35;
}

abbrev memory : ℕ → ℕ → String → ℕ → UserMemory ℕ
memory id user_id content importance = record {
  id = id;
  user_id = user_id;
  workspace_id = "default";
  category = "preference";
  content = content;
  importance = importance;
  updated_at = id;
}

abbrev db : Db ℕ
db = record {
  memories =
      memory 1 7 "likes green tea" 50
      ∷ memory 2 7 " likes green tea" 60
      ∷ memory 3 7 "lives in oslo" 80
      ∷ memory 4 8 "likes black tea" 90
      ∷ memory 5 7 "owns a boat" 10
      ∷ [];
  next_memory = 6;
}

answer :
    map (λ x. x.1.id) (retrieve_memory_context as_is floats db 7 "which tea?  tea" "default" 6)
    ≡ 3 ∷ 2 ∷ []
unfolding retrieve_memory_context list_memories memory_tokens content_key Memory.matches
answer = refl

-- If nothing fits, a text can be repeated.
fallback :
    map
      (λ x. x.1.id)
      (retrieve_memory_context as_is floats
        (record {
          memories = memory 1 7 "likes tea" 50 ∷ memory 2 7 " likes tea" 60 ∷ [];
          next_memory = 3;
        })
        7
        "weather"
        "default"
        6)
    ≡ 2 ∷ 1 ∷ []
unfolding retrieve_memory_context
fallback = refl

not_owned : (delete_memory db 7 4).0 ≡ false
unfolding delete_memory
not_owned = refl

retrieve_memory_context-IsSelection_example :
    (length (retrieve_memory_context as_is floats db 7 "green tea" "default" 2) ≤ 2)
    × All
        (λ x.
          (is_kept_for 7 "default" x.1 ≡ true)
          × (is_relevant as_is floats (memory_tokens as_is "green tea") x.1 ≡ true))
        (retrieve_memory_context as_is floats db 7 "green tea" "default" 2)
    × ((k : String)
        → tally
            (λ x. content_key as_is floats x.1 == k)
            (retrieve_memory_context as_is floats db 7 "green tea" "default" 2)
          ≤ 1)
unfolding list_memories memory_tokens Memory.matches
retrieve_memory_context-IsSelection_example =
    retrieve_memory_context-IsSelection as_is floats db 7 "green tea" "default" 2 refl
