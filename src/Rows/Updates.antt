-- ===== src/Rows/Updates.antt =====
-- Updates of the rows of a table, as seen by a query.
use omni_ai_v.Prelude.{
  ◌≡◌, refl, Bool, true, false, none, some, List, [], ◌∷◌, arith, if◌then◌else◌, any, select, All,
  Bool-cases, inl, inr,
}
use omni_ai_v.Rows.{find_first, update_where}

module _ {ℓ} {A : Type ℓ} where
  -- A view that the touched rows of a table do not enter is left alone.
  pub select-update_where-All {κ} :
      (P : A → Type κ) (q p : A → Bool) (f : A → A) (xs : List A)
      → ((x : A) → P x → p x ≡ true → (q x ≡ false) × (q (f x) ≡ false))
      → All P xs
      → select q (update_where p f xs) ≡ select q xs
  unfolding update_where
  select-update_where-All P q p f [] out h = refl
  select-update_where-All P q p f (x ∷ xs) out h = elim (Bool-cases (p x)) [
    | inl hit ↦
        let (before, after) = out x h.0 hit in
        rw (hit, before, after) (select-update_where-All P q p f xs out h.1)
    | inr miss ↦ rw (miss, select-update_where-All P q p f xs out h.1)
  ]

  -- A row that a test hits is hit after an update that keeps hits.
  pub any-update_where_imp :
      (q p : A → Bool) (f : A → A) (xs : List A)
      → ((x : A) → q x ≡ true → q (f x) ≡ true)
      → any q xs ≡ true
      → any q (update_where p f xs) ≡ true
  unfolding update_where
  any-update_where_imp q p f [] keeps h = cc
  any-update_where_imp q p f (x ∷ xs) keeps h = elim (Bool-cases (q x)) [
    | inl hit ↦
        let kept : q (if p x then f x else x) ≡ true = (elim (Bool-cases (p x)) [
          | inl changed ↦ rw changed (keeps x hit)
          | inr unchanged ↦ rw unchanged hit
        ]) in
        rw kept refl
    | inr miss ↦ let rest = any-update_where_imp q p f xs keeps (ground arith) in ground arith
  ]

  -- The updated form of a row that a query found is there.
  pub any-update_where_found :
      (q r p : A → Bool) (f : A → A) (xs : List A) {a : A}
      → find_first r xs ≡ some a
      → p a ≡ true
      → q (f a) ≡ true
      → any q (update_where p f xs) ≡ true
  unfolding update_where find_first
  any-update_where_found q r p f [] e hit new = cc
  any-update_where_found q r p f (x ∷ xs) {a} e hit new = elim (Bool-cases (r x)) [
    | inl first ↦ let same : x ≡ a = ground arith in rw (same, hit, new) refl
    | inr later ↦
        let rest = any-update_where_found q r p f xs {a = a} (ground arith) hit new in ground arith
  ]

  -- What a query finds after an update for which another query found it before.
  pub find_first-update_where_moved :
      (q r p : A → Bool) (f : A → A) (xs : List A) {a : A}
      → All (λ x. q (if p x then f x else x) ≡ r x) xs
      → find_first r xs ≡ some a
      → find_first q (update_where p f xs) ≡ some (if p a then f a else a)
  unfolding update_where find_first
  find_first-update_where_moved q r p f [] moved e = cc
  find_first-update_where_moved q r p f (x ∷ xs) {a} moved e = elim (Bool-cases (r x)) [
    | inl hit ↦ let same : x ≡ a = ground arith in rw (moved.0, hit) (rw same refl)
    | inr miss ↦
        rw (moved.0, miss) (find_first-update_where_moved q r p f xs moved.1 (ground arith))
  ]

  pub find_first-update_where-none :
      (q p : A → Bool) (f : A → A) (xs : List A)
      → All (λ x. q (if p x then f x else x) ≡ false) xs
      → find_first q (update_where p f xs) ≡ none
  unfolding update_where find_first
  find_first-update_where-none q p f [] out = refl
  find_first-update_where-none q p f (x ∷ xs) out =
      rw out.0 (find_first-update_where-none q p f xs out.1)
