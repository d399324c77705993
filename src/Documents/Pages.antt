-- ===== src/Documents/Pages.antt =====
-- The pages of a list of documents.
use omni_ai_v.Prelude.{
  ℕ, zero, suc, ◌+◌, ◌≤◌, ◌<◌, ◌≡◌, refl, ap, sym, ◌∙◌, true, Bool, select, tally, false, List, [],
  ◌∷◌, ◌++◌, map, arith, if◌then◌else◌, ltb, length, take, drop, take-append-drop, length-drop,
  Bool-cases, inl, inr,
}
use omni_ai_v.Ingestion.{IndexedDocument, StatusPayload, document_status_payload}
use omni_ai_v.Documents.{Filter, Order, is_selected, is_unscoped, list_documents}

-- What a client collects that asks for the next page as long as there is more. The order is the
-- database's for the request of that offset.
unfoldable pub all_pages :
    (ℕ → Order) → ℕ → Filter → ℕ → ℕ → List IndexedDocument → List StatusPayload
unfolding list_documents
all_pages order zero f limit offset documents = []
all_pages order (suc fuel) f limit offset documents =
    let page = list_documents (order offset) f limit offset documents in
    let rest = all_pages order fuel f limit (offset + limit) documents in
    if page.has_more then page.documents ++ rest else page.documents

-- Each request sees the documents in the same order, and each of them once.
pub record IsStable (order : ℕ → Order) (query ordered : List IndexedDocument) : Type 0 where
  pub same : (offset : ℕ) → order offset query ≡ ordered
  pub whole : (p : IndexedDocument → Bool) → tally p ordered ≡ tally p query

length-tally {ℓ} : {A : Type ℓ} (xs : List A) → length xs ≡ tally (λ x. true) xs
length-tally [] = refl
length-tally (x ∷ xs) = omega (arith, length-tally xs)

module _ {ℓ} {A : Type ℓ} where
  drop_empty : (n : ℕ) → drop {A = A} n [] ≡ []
  drop_empty zero = refl
  drop_empty (suc n) = refl

  drop_add : (m n : ℕ) (xs : List A) → drop n (drop m xs) ≡ drop (m + n) xs
  drop_add zero n xs = ap (λ k. drop k xs) (omega arith)
  drop_add (suc m) n [] = drop_empty n ∙ sym (drop_empty (suc m + n))
  drop_add (suc m) n (x ∷ xs) =
      let next : suc m + n ≡ suc (m + n) = omega arith in rw next (drop_add m n xs)

  drop_all : (n : ℕ) (xs : List A) → length xs ≤ n → drop n xs ≡ []
  drop_all n [] h = drop_empty n
  drop_all zero (x ∷ xs) h = absurd (omega arith)
  drop_all (suc n) (x ∷ xs) h = drop_all n xs (omega arith)

  take_all : (n : ℕ) (xs : List A) → length xs ≤ length (take n xs) → take n xs ≡ xs
  take_all zero [] h = refl
  take_all zero (x ∷ xs) h = absurd (omega arith)
  take_all (suc n) [] h = refl
  take_all (suc n) (x ∷ xs) h = ap (λ ys. x ∷ ys) (take_all n xs (omega arith))

map_append {ℓ κ} :
    {A : Type ℓ} {B : Type κ} (f : A → B) (xs ys : List A) → map f (xs ++ ys) ≡ map f xs ++ map f ys
map_append f [] ys = refl
map_append f (x ∷ xs) ys = ap (λ zs. f x ∷ zs) (map_append f xs ys)

module _ (order : ℕ → Order) (f : Filter) (limit : ℕ) (documents ordered : List IndexedDocument)
    (stable : IsStable order (select (is_selected f) documents) ordered)
    (scoped : is_unscoped f.session_id f.collection_id ≡ false) (positive : 1 ≤ limit) where
  whole_length : length (select (is_selected f) documents) ≡ length ordered
  whole_length = omega (
    arith,
    length-tally ordered,
    length-tally (select (is_selected f) documents),
    stable.whole (λ x. true),
  )

  pages_from :
      (fuel offset : ℕ)
      → length ordered < offset + fuel
      → all_pages order fuel f limit offset documents
        ≡ map document_status_payload (drop offset ordered)
  unfolding all_pages list_documents
  pages_from zero offset enough =
      let none_left = drop_all offset ordered (omega arith) in rw none_left refl
  pages_from (suc fuel) offset enough =
      let here = drop offset ordered in
      let size = length-drop offset ordered in
      elim (Bool-cases (ltb (offset + length (take limit here)) (length ordered))) [
        | inl more ↦
            let rest = pages_from fuel (offset + limit) (omega arith) in
            rw (scoped, stable.same offset, whole_length, more)
              (rw (rest, ← (drop_add offset limit ordered))
                (sym (map_append document_status_payload (take limit here) (drop limit here))
                  ∙ ap (map document_status_payload) (take-append-drop limit here)))
        | inr last ↦
            rw (scoped, stable.same offset, whole_length, last)
              (ap (map document_status_payload) (take_all limit here (ground (arith, size))))
      ]

-- For a list by session or by collection, and a limit from one on, and if each request sees the
-- documents that pass the filter in one order, each once: a client that asks for the next page as
-- long as there is more, with more requests allowed than there are documents, has them in that order.
pub list_documents_pages :
    (order : ℕ → Order) (f : Filter) (limit : ℕ) (documents ordered : List IndexedDocument)
    (fuel : ℕ)
    → IsStable order (select (is_selected f) documents) ordered
    → is_unscoped f.session_id f.collection_id ≡ false
    → 1 ≤ limit
    → length (select (is_selected f) documents) < fuel
    → all_pages order fuel f limit 0 documents ≡ map document_status_payload ordered
list_documents_pages order f limit documents ordered fuel stable scoped positive enough =
    let size = whole_length order f limit documents ordered stable scoped positive in
    pages_from order f limit documents ordered stable scoped positive fuel 0 (omega arith)
