-- ===== src/Ingestion/Chunks.antt =====
-- backend/app/services/documents_services.py up to the vector store: the parts of a loaded document
-- are cut to a total length, split, cleaned of short and repeated chunks, and numbered as they are
-- stored. The text splitter and `str.lower` are arguments.
pub mod Shape
use omni_ai_v.Prelude.{
  ℕ, suc, ◌-◌, String, Bool, true, false, ◌&&◌, ◌||◌, not, List, [], ◌∷◌, Option, none, some,
  if◌then◌else◌, ◌==◌, text_comparable, ltb, leb, any, take, is_empty, strip, take_text,
  text_length,
}

-- A part of a loaded document, and a chunk of one; the loaders set no metadata but the page.
pub record LoadedDocumentPart : Type 0 where
  pub text : String
  pub page_number : Option ℕ

unfoldable pub truncate_parts : List LoadedDocumentPart → ℕ → List LoadedDocumentPart
unfolding strip
truncate_parts [] remaining = []
truncate_parts (part ∷ parts) remaining =
    let text = take_text remaining part.text in
    let rest = truncate_parts parts (remaining - text_length text) in
    if leb remaining 0
    then []
    else if is_empty (strip text)
    then rest
    else record part { text = text } ∷ rest

unfoldable pub dedupe :
    (String → String) → List String → List LoadedDocumentPart → List LoadedDocumentPart
unfolding strip
dedupe lower seen [] = []
dedupe lower seen (document ∷ documents) =
    let normalized = strip document.text in
    let key = lower normalized in
    let skip = ltb (text_length normalized) 32 || any (λ s. s == key) seen in
    let rest = dedupe lower (if skip then seen else key ∷ seen) documents in
    if skip then rest else record document { text = normalized } ∷ rest

-- `split` is `RecursiveCharacterTextSplitter.create_documents`.
unfoldable pub chunk_document_parts :
    (String → String)
    → (List LoadedDocumentPart → List LoadedDocumentPart)
    → ℕ
    → List LoadedDocumentPart
    → List LoadedDocumentPart
unfolding dedupe
chunk_document_parts lower split max_chunks parts = take max_chunks (dedupe lower [] (split parts))
