-- ===== src/Ingestion/Chunks/Shape.antt =====
-- The chunks of chunk_document_parts and the parts that _truncate_parts keeps
-- (backend/app/services/documents_services.py).
use omni_ai_v.Prelude.{
  ℕ, zero, suc, ◌+◌, ◌-◌, ◌≤◌, ◌≡◌, refl, sym, String, Bool, false, ◌||◌, not, List, [], ◌∷◌, arith,
  ◌==◌, text_comparable, ltb, leb, any, select, take, length, length-take-le, is_empty, strip,
  strip_idem, empty_text, lstrip, rstrip, take_text, text_length, text_length-take_text,
  take_text_all, All, All-take, All-imp, Bool-cases, inl, inr,
}
use omni_ai_v.Ingestion.Chunks.{LoadedDocumentPart, truncate_parts, dedupe, chunk_document_parts}

-- No two chunks have one key.
abbrev pub Distinct : (String → String) → List LoadedDocumentPart → Type 0
Distinct lower [] = Unit {0}
Distinct lower (c ∷ cs) = All (λ d. (lower c.text == lower d.text) ≡ false) cs × Distinct lower cs

abbrev pub IsClean : LoadedDocumentPart → Type 0
IsClean c = (strip c.text ≡ c.text) × (32 ≤ text_length c.text)

pub record IsChunked (lower : String → String) (max_chunks : ℕ) (cs : List LoadedDocumentPart)
    : Type 0 where
  pub distinct : Distinct lower cs
  pub clean : All IsClean cs
  pub few : length cs ≤ max_chunks

module _ (lower : String → String) where
  Distinct-take :
      (n : ℕ) (cs : List LoadedDocumentPart) → Distinct lower cs → Distinct lower (take n cs)
  Distinct-take zero cs h = tt
  Distinct-take (suc n) [] h = tt
  Distinct-take (suc n) (c ∷ cs) h = (All-take _ n cs h.0, Distinct-take n cs h.1)

  dedupe-IsClean :
      (seen : List String) (ds : List LoadedDocumentPart) → All IsClean (dedupe lower seen ds)
  unfolding dedupe
  dedupe-IsClean seen [] = tt
  dedupe-IsClean seen (d ∷ ds) =
      elim (Bool-cases
        (ltb (text_length (strip d.text)) 32 || any (λ s. s == lower (strip d.text)) seen)) [
          | inl e ↦ rw e (dedupe-IsClean seen ds)
          | inr e ↦
              rw e
                ((strip_idem d.text, ground arith), dedupe-IsClean (lower (strip d.text) ∷ seen) ds)
        ]

  -- A key that was seen is not used again.
  dedupe_fresh :
      (seen : List String) (ds : List LoadedDocumentPart)
      → All (λ c. any (λ s. s == lower c.text) seen ≡ false) (dedupe lower seen ds)
  unfolding dedupe
  dedupe_fresh seen [] = tt
  dedupe_fresh seen (d ∷ ds) =
      elim (Bool-cases
        (ltb (text_length (strip d.text)) 32 || any (λ s. s == lower (strip d.text)) seen)) [
          | inl e ↦ rw e (dedupe_fresh seen ds)
          | inr e ↦ rw e (
            ground arith,
            All-imp _ (λ c h. ground arith) (dedupe_fresh (lower (strip d.text) ∷ seen) ds),
          )
        ]

  dedupe-Distinct :
      (seen : List String) (ds : List LoadedDocumentPart) → Distinct lower (dedupe lower seen ds)
  unfolding dedupe
  dedupe-Distinct seen [] = tt
  dedupe-Distinct seen (d ∷ ds) =
      elim (Bool-cases
        (ltb (text_length (strip d.text)) 32 || any (λ s. s == lower (strip d.text)) seen)) [
          | inl e ↦ rw e (dedupe-Distinct seen ds)
          | inr e ↦ rw e (
            All-imp _ (λ c h. ground arith) (dedupe_fresh (lower (strip d.text) ∷ seen) ds),
            dedupe-Distinct (lower (strip d.text) ∷ seen) ds,
          )
        ]

-- Whatever the splitter answers, the chunks are stripped, have 32 characters at least, differ in
-- their lower-case texts, and are as many as the setting allows at most.
pub chunk_document_parts-IsChunked :
    (lower : String → String) (split : List LoadedDocumentPart → List LoadedDocumentPart)
    (max_chunks : ℕ) (parts : List LoadedDocumentPart)
    → IsChunked lower max_chunks (chunk_document_parts lower split max_chunks parts)
unfolding chunk_document_parts
chunk_document_parts-IsChunked lower split max_chunks parts = record {
  distinct = Distinct-take lower max_chunks _ (dedupe-Distinct lower [] (split parts));
  clean = All-take IsClean max_chunks _ (dedupe-IsClean lower [] (split parts));
  few = length-take-le max_chunks _;
}

abbrev pub total_length : List LoadedDocumentPart → ℕ
total_length [] = 0
total_length (p ∷ ps) = text_length p.text + total_length ps

abbrev is_blank : LoadedDocumentPart → Bool
is_blank p = is_empty (strip p.text)

-- The cut keeps at most the characters allowed.
pub total_length-truncate_parts :
    (parts : List LoadedDocumentPart) (max_chars : ℕ)
    → total_length (truncate_parts parts max_chars) ≤ max_chars
unfolding truncate_parts
total_length-truncate_parts [] m = omega arith
total_length-truncate_parts (p ∷ ps) m =
    let short = text_length-take_text m p.text in
    let rest = total_length-truncate_parts ps (m - text_length (take_text m p.text)) in ground arith

-- Parts without a character are blank.
all_blank :
    (parts : List LoadedDocumentPart)
    → total_length parts ≤ 0
    → select (λ p. not (is_blank p)) parts ≡ []
unfolding strip lstrip rstrip
all_blank [] h = refl
all_blank (p ∷ ps) h =
    let e : p.text ≡ "" = empty_text p.text (omega arith) in rw e (all_blank ps (omega arith))

-- A document that is short enough loses only its blank parts.
pub truncate_parts_whole :
    (parts : List LoadedDocumentPart) (max_chars : ℕ)
    → total_length parts ≤ max_chars
    → truncate_parts parts max_chars ≡ select (λ p. not (is_blank p)) parts
unfolding truncate_parts
truncate_parts_whole [] m h = refl
truncate_parts_whole (p ∷ ps) m h =
    let rest = truncate_parts_whole ps (m - text_length p.text) (omega arith) in
    rw (take_text_all m p.text (omega arith)) (elim (Bool-cases (leb m 0)) [
      | inl e ↦ rw e (sym (all_blank (p ∷ ps) (ground arith)))
      | inr e ↦
          rw (e, rest) (elim (Bool-cases (is_blank p)) [ inl b ↦ rw b refl | inr b ↦ rw b refl ])
    ])
