-- ===== src/Chunker/Tests.antt =====
-- Runs of chunk_text on small texts.
use omni_ai_v.Prelude.{◌≡◌, refl, String, none, some, List, [], ◌∷◌, arith}
use omni_ai_v.Chunker.{chunk_text}
use omni_ai_v.Chunker.Windows.{Covers, chunk_text-Covers}

windows : chunk_text 9 "Retrieval" 4 1 ≡ some ("Retr" ∷ "riev" ∷ "val" ∷ [])
unfolding chunk_text
windows = refl

-- Without progress the loop goes on.
no_progress : chunk_text 50 "Retrieval" 4 4 ≡ none
unfolding chunk_text
no_progress = refl

chunk_text-Covers_example :
    (chunks : List String) × (chunk_text 9 "Retrieval" 4 1 ≡ some chunks)
    × Covers 4 1 "Retrieval" chunks
chunk_text-Covers_example = chunk_text-Covers 9 "Retrieval" 4 1 (omega arith) (omega arith)
