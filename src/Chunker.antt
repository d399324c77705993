-- ===== src/Chunker.antt =====
-- chunk_text of backend/app/rag/chunker.py: a text in windows of `chunk_size` characters that overlap
-- the window before by `overlap`. The loop runs on fuel, and `none` is a loop that is still running.
-- An overlap above the size of a chunk, by which the source would walk backwards, is not modelled.
pub mod Windows
mod Tests
use omni_ai_v.Prelude.{
  ℕ, zero, suc, ◌+◌, ◌-◌, String, Option, none, some, List, [], ◌∷◌, if◌then◌else◌, ltb, take_text,
  drop_text, text_length,
}

-- `text[start:end]` for a start that is not after the end
abbrev pub slice : String → ℕ → ℕ → String
slice text start end = take_text (end - start) (drop_text start text)

abbrev pub appended : String → Option (List String) → Option (List String)
appended chunk none = none
appended chunk (some chunks) = some (chunk ∷ chunks)

-- The `while` loop, for the chunks that it appends from `start` on.
unfoldable pub chunks_from : ℕ → String → ℕ → ℕ → ℕ → Option (List String)
chunks_from zero text chunk_size overlap start =
    if ltb start (text_length text) then none else some []
chunks_from (suc fuel) text chunk_size overlap start =
    let end = start + chunk_size in
    let chunk = slice text start end in
    let rest = chunks_from fuel text chunk_size overlap (start + (chunk_size - overlap)) in
    if ltb start (text_length text) then appended chunk rest else some []

unfoldable pub chunk_text : ℕ → String → ℕ → ℕ → Option (List String)
unfolding chunks_from
chunk_text fuel text chunk_size overlap = chunks_from fuel text chunk_size overlap 0
