-- ===== src/Chunker/Windows.antt =====
-- The walk of chunk_text over the text.
use Prim.Native.String.{◌++◌}
use text.Mathlib.TextLemmas.{nil-append, cons-append}
use omni_ai_v.Prelude.{
  ℕ, zero, suc, ◌+◌, ◌-◌, ◌≤◌, ◌<◌, ◌≡◌, refl, ap, ◌∙◌, String, some, List, [], ◌∷◌, arith, ltb,
  take_text, drop_text, text_length, text_length-take_text, All, Bool-cases, inl, inr, false,
}
use omni_ai_v.Chunker.{slice, chunks_from, chunk_text}

text_length-drop_text : (n : ℕ) (s : String) → text_length (drop_text n s) ≡ text_length s - n
text_length-drop_text zero s = omega arith
text_length-drop_text (suc n) String.[] = omega arith
text_length-drop_text (suc n) (String.◌∷◌ c s) = omega (arith, text_length-drop_text n s)

drop_text_empty : (n : ℕ) → drop_text n "" ≡ ""
drop_text_empty zero = refl
drop_text_empty (suc n) = refl

drop_text_add : (m n : ℕ) (s : String) → drop_text n (drop_text m s) ≡ drop_text (m + n) s
drop_text_add zero n s = ap (λ k. drop_text k s) (omega arith)
drop_text_add (suc m) n String.[] = rw (drop_text_empty n, drop_text_empty (suc m + n)) refl
drop_text_add (suc m) n (String.◌∷◌ c s) =
    let next : suc m + n ≡ suc (m + n) = omega arith in rw next (drop_text_add m n s)

drop_text_all : (n : ℕ) (s : String) → text_length s ≤ n → "" ≡ drop_text n s
drop_text_all zero String.[] h = refl
drop_text_all zero (String.◌∷◌ c s) h = absurd (omega arith)
drop_text_all (suc n) String.[] h = refl
drop_text_all (suc n) (String.◌∷◌ c s) h = drop_text_all n s (omega arith)

take_take_text : (m n : ℕ) (s : String) → m ≤ n → take_text m (take_text n s) ≡ take_text m s
take_take_text zero n s h = refl
take_take_text (suc m) zero s h = absurd (omega arith)
take_take_text (suc m) (suc n) String.[] h = refl
take_take_text (suc m) (suc n) (String.◌∷◌ c s) h =
    ap (String.◌∷◌ c) (take_take_text m n s (omega arith))

take_drop_text : (n : ℕ) (s : String) → take_text n s ++ drop_text n s ≡ s
take_drop_text zero s = nil-append _
take_drop_text (suc n) String.[] = nil-append _
take_drop_text (suc n) (String.◌∷◌ c s) = cons-append _ _ _ ∙ ap (String.◌∷◌ c) (take_drop_text n s)

-- The first `step` characters of every chunk, one after the other.
abbrev pub joined : ℕ → List String → String
joined step [] = ""
joined step (chunk ∷ chunks) = take_text step chunk ++ joined step chunks

abbrev pub Covers : ℕ → ℕ → String → List String → Type 0
Covers chunk_size overlap text chunks =
    All (λ c. text_length c ≤ chunk_size) chunks × (joined (chunk_size - overlap) chunks ≡ text)

length-slice :
    (text : String) (chunk_size start : ℕ)
    → text_length (slice text start (start + chunk_size)) ≤ chunk_size
length-slice text chunk_size start =
    omega (arith, text_length-take_text (start + chunk_size - start) (drop_text start text))

chunk_joined :
    (text : String) (chunk_size overlap start : ℕ) (rest : String)
    → rest ≡ drop_text (start + (chunk_size - overlap)) text
    → take_text (chunk_size - overlap) (slice text start (start + chunk_size)) ++ rest
      ≡ drop_text start text
chunk_joined text chunk_size overlap start rest e =
    let width : start + chunk_size - start ≡ chunk_size = omega arith in
    let here =
      take_take_text (chunk_size - overlap) chunk_size (drop_text start text) (omega arith) in
    let there = drop_text_add start (chunk_size - overlap) text in
    rw (width, here, e, ← there) (take_drop_text (chunk_size - overlap) (drop_text start text))

chunks_from-Covers :
    (fuel : ℕ) (text : String) (chunk_size overlap start : ℕ)
    → overlap < chunk_size
    → text_length text ≤ start + fuel
    → (chunks : List String) × (chunks_from fuel text chunk_size overlap start ≡ some chunks)
      × Covers chunk_size overlap (drop_text start text) chunks
unfolding chunks_from
chunks_from-Covers zero text chunk_size overlap start less enough =
    let over : ltb start (text_length text) ≡ false = ground arith in
    ([], rw over refl, (tt, drop_text_all start text (omega arith)))
chunks_from-Covers (suc fuel) text chunk_size overlap start less enough =
    elim (Bool-cases (ltb start (text_length text))) [
      | inl more ↦
          let (chunks, e, (short, back)) =
            chunks_from-Covers fuel text chunk_size overlap (start + (chunk_size - overlap)) less
              (omega arith) in
          let chunk = slice text start (start + chunk_size) in
          (
            chunk ∷ chunks,
            rw (more, e) refl,
            (
              (length-slice text chunk_size start, short),
              chunk_joined text chunk_size overlap start (joined (chunk_size - overlap) chunks)
                  back,
            ),
          )
      | inr over ↦ ([], rw over refl, (tt, drop_text_all start text (ground arith)))
    ]

-- With an overlap below the size of a chunk the loop ends after no more rounds than the text has
-- characters; no chunk is longer than the size, and the first `chunk_size - overlap` characters of each
-- chunk, one after the other, are the text again.
pub chunk_text-Covers :
    (fuel : ℕ) (text : String) (chunk_size overlap : ℕ)
    → overlap < chunk_size
    → text_length text ≤ fuel
    → (chunks : List String) × (chunk_text fuel text chunk_size overlap ≡ some chunks)
      × Covers chunk_size overlap text chunks
unfolding chunk_text
chunk_text-Covers fuel text chunk_size overlap less enough =
    chunks_from-Covers fuel text chunk_size overlap 0 less (omega arith)
