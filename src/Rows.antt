-- ===== src/Rows.antt =====
-- Database tables as lists of rows, and the queries that the services send through SQLAlchemy:
-- `query.filter(p).first()`, `.update(...)`, `.delete()` and `.count()`. The test of a `filter` is
-- a Boolean function of a row.
pub mod Updates
use omni_ai_v.Prelude.{
  ◌≡◌, refl, Bool, true, false, not, Option, none, some, List, [], ◌∷◌, ◌++◌, arith, if◌then◌else◌,
  any, is_some, select, length, All, All-trivial, Bool-cases, inl, inr,
}

module _ {ℓ} {A : Type ℓ} where
  unfoldable pub find_first : (A → Bool) → List A → Option A
  find_first p [] = none
  find_first p (x ∷ xs) = let rest = find_first p xs in if p x then some x else rest

  unfoldable pub update_where : (A → Bool) → (A → A) → List A → List A
  update_where p f [] = []
  update_where p f (x ∷ xs) = (if p x then f x else x) ∷ update_where p f xs

  unfoldable pub delete_where : (A → Bool) → List A → List A
  delete_where p = select (λ x. not (p x))

module _ {ℓ} {A : Type ℓ} where
  -- What a query finds passes its test, and satisfies whatever all rows satisfy.
  pub find_first-All {κ} :
      (P : A → Type κ) (p : A → Bool) (xs : List A) {x : A}
      → find_first p xs ≡ some x
      → All P xs
      → (p x ≡ true) × P x
  unfolding find_first
  find_first-All P p [] e h = cc
  find_first-All P p (y ∷ xs) {x} e h = elim (Bool-cases (p y)) [
    | inl hit ↦ let same : y ≡ x = ground arith in rw (← same) (hit, h.0)
    | inr miss ↦ find_first-All P p xs (ground arith) h.1
  ]

  pub find_first_sound :
      (p : A → Bool) (xs : List A) {x : A} → find_first p xs ≡ some x → p x ≡ true
  find_first_sound p xs e = (find_first-All (λ x. Unit {0}) p xs e (All-trivial xs)).0

  pub any-All {κ} :
      (P : A → Type κ) (p : A → Bool) (xs : List A)
      → any p xs ≡ true
      → All P xs
      → (x : A) × (p x ≡ true) × P x
  any-All P p [] e h = cc
  any-All P p (y ∷ xs) e h = elim (Bool-cases (p y)) [
    | inl hit ↦ (y, hit, h.0)
    | inr miss ↦ any-All P p xs (ground arith) h.1
  ]

  -- A row that a query found is there for every test that it passes.
  pub any_of_found :
      (q p : A → Bool) (xs : List A) {x : A}
      → find_first p xs ≡ some x
      → q x ≡ true
      → any q xs ≡ true
  unfolding find_first
  any_of_found q p [] e hit = cc
  any_of_found q p (y ∷ xs) {x} e hit = elim (Bool-cases (p y)) [
    | inl first ↦ let same : y ≡ x = ground arith in rw (same, hit)
    | inr later ↦
        let ih = any_of_found q p xs {x = x} (ground arith) hit in
        elim (Bool-cases (q y)) [ inl now ↦ rw now | inr not_now ↦ rw not_now ih ]
  ]

  pub any-eq-is_some : (p : A → Bool) (xs : List A) → any p xs ≡ is_some (find_first p xs)
  unfolding find_first
  any-eq-is_some p [] = refl
  any-eq-is_some p (x ∷ xs) = ground (arith, any-eq-is_some p xs)

  -- A row that was appended is found where no earlier row passes the test.
  pub find_first_append :
      (p : A → Bool) (xs : List A) (y : A)
      → find_first p xs ≡ none
      → p y ≡ true
      → find_first p (xs ++ y ∷ []) ≡ some y
  unfolding find_first
  find_first_append p [] y absent hit = rw hit refl
  find_first_append p (x ∷ xs) y absent hit = elim (Bool-cases (p x)) [
    | inl e ↦ absurd (ground arith)
    | inr e ↦ rw e (find_first_append p xs y (ground arith) hit)
  ]

  pub find_first-none :
      (p : A → Bool) (xs : List A) → find_first p xs ≡ none → All (λ x. p x ≡ false) xs
  unfolding find_first
  find_first-none p [] e = tt
  find_first-none p (y ∷ xs) e = elim (Bool-cases (p y)) [
    | inl hit ↦ absurd (ground arith)
    | inr miss ↦ (miss, find_first-none p xs (ground arith))
  ]

module _ {ℓ} {A : Type ℓ} where
  -- From a property of the rows before to one of the rows after an update.
  pub update_where_imp {κ μ} :
      (P : A → Type κ) (Q : A → Type μ) (p : A → Bool) (f : A → A) (xs : List A)
      → ((x : A) → P x → p x ≡ true → Q (f x))
      → ((x : A) → P x → p x ≡ false → Q x)
      → All P xs
      → All Q (update_where p f xs)
  unfolding update_where
  update_where_imp P Q p f [] hits misses h = tt
  update_where_imp P Q p f (x ∷ xs) hits misses h = elim (Bool-cases (p x)) [
    | inl hit ↦ rw hit (hits x h.0 hit, update_where_imp P Q p f xs hits misses h.1)
    | inr miss ↦ rw miss (misses x h.0 miss, update_where_imp P Q p f xs hits misses h.1)
  ]

  pub All-update_where {κ} :
      (P : A → Type κ) (p : A → Bool) (f : A → A) (xs : List A)
      → ((x : A) → P x → p x ≡ true → P (f x))
      → All P xs
      → All P (update_where p f xs)
  All-update_where P p f xs keep h = update_where_imp P P p f xs keep (λ x q e. q) h

  pub All-delete_where {κ} :
      (P : A → Type κ) (p : A → Bool) (xs : List A) → All P xs → All P (delete_where p xs)
  unfolding delete_where
  All-delete_where P p [] h = tt
  All-delete_where P p (x ∷ xs) h = elim (Bool-cases (p x)) [
    | inl hit ↦ rw (hit, not) (All-delete_where P p xs h.1)
    | inr miss ↦ rw (miss, not) (h.0, All-delete_where P p xs h.1)
  ]

  -- After a delete no row passes the test.
  pub delete_where_gone : (p : A → Bool) (xs : List A) → All (λ x. p x ≡ false) (delete_where p xs)
  unfolding delete_where
  delete_where_gone p [] = tt
  delete_where_gone p (x ∷ xs) = elim (Bool-cases (p x)) [
    | inl hit ↦ rw (hit, not) (delete_where_gone p xs)
    | inr miss ↦ rw (miss, not) (miss, delete_where_gone p xs)
  ]

  -- A view that the touched rows do not enter is left alone.
  pub select-update_where :
      (q p : A → Bool) (f : A → A) (xs : List A)
      → ((x : A) → p x ≡ true → q x ≡ false)
      → ((x : A) → p x ≡ true → q (f x) ≡ false)
      → select q (update_where p f xs) ≡ select q xs
  unfolding update_where
  select-update_where q p f [] out out' = refl
  select-update_where q p f (x ∷ xs) out out' = elim (Bool-cases (p x)) [
    | inl hit ↦ rw (hit, out x hit, out' x hit) (select-update_where q p f xs out out')
    | inr miss ↦ rw (miss, select-update_where q p f xs out out')
  ]

  pub select-delete_where-All {κ} :
      (P : A → Type κ) (q p : A → Bool) (xs : List A)
      → ((x : A) → P x → p x ≡ true → q x ≡ false)
      → All P xs
      → select q (delete_where p xs) ≡ select q xs
  unfolding delete_where
  select-delete_where-All P q p [] out h = refl
  select-delete_where-All P q p (x ∷ xs) out h = elim (Bool-cases (p x)) [
    | inl hit ↦ rw (hit, not, out x h.0 hit) (select-delete_where-All P q p xs out h.1)
    | inr miss ↦ rw (miss, not, select-delete_where-All P q p xs out h.1)
  ]

  pub select-delete_where :
      (q p : A → Bool) (xs : List A)
      → ((x : A) → p x ≡ true → q x ≡ false)
      → select q (delete_where p xs) ≡ select q xs
  select-delete_where q p xs out =
      select-delete_where-All (λ x. Unit {0}) q p xs (λ x t e. out x e) (All-trivial xs)

  pub select-append_out :
      (q : A → Bool) (xs : List A) (y : A) → q y ≡ false → select q (xs ++ y ∷ []) ≡ select q xs
  select-append_out q [] y out = rw out
  select-append_out q (x ∷ xs) y out = rw (select-append_out q xs y out)

  pub any-append_left : (p : A → Bool) (xs ys : List A) → any p xs ≡ true → any p (xs ++ ys) ≡ true
  any-append_left p [] ys h = cc
  any-append_left p (x ∷ xs) ys h = elim (Bool-cases (p x)) [
    | inl hit ↦ rw hit refl
    | inr miss ↦ rw miss (any-append_left p xs ys (ground arith))
  ]

  pub any-imp :
      (p q : A → Bool) (xs : List A)
      → ((x : A) → p x ≡ true → q x ≡ true)
      → any p xs ≡ true
      → any q xs ≡ true
  any-imp p q [] f h = cc
  any-imp p q (x ∷ xs) f h = elim (Bool-cases (p x)) [
    | inl hit ↦ rw (f x hit)
    | inr miss ↦ let ih = any-imp p q xs f (ground arith) in ground arith
  ]

  pub any-append_right : (p : A → Bool) (xs ys : List A) → any p ys ≡ true → any p (xs ++ ys) ≡ true
  any-append_right p [] ys h = h
  any-append_right p (x ∷ xs) ys h = ground (arith, any-append_right p xs ys h)

  -- A row that one test hits and the test of a delete passes over is still there.
  pub any-delete_where-All {κ} :
      (P : A → Type κ) (q p : A → Bool) (xs : List A)
      → ((x : A) → P x → q x ≡ true → p x ≡ false)
      → All P xs
      → any q xs ≡ true
      → any q (delete_where p xs) ≡ true
  unfolding delete_where
  any-delete_where-All P q p [] apart h e = cc
  any-delete_where-All P q p (x ∷ xs) apart h e = elim (Bool-cases (q x)) [
    | inl hit ↦ rw (apart x h.0 hit, not) (rw hit refl)
    | inr miss ↦
        let ih = any-delete_where-All P q p xs apart h.1 (ground arith) in
        elim (Bool-cases (p x)) [
          | inl gone ↦ rw (gone, not) ih
          | inr kept ↦ rw (kept, not) (rw miss ih)
        ]
  ]

  pub any-delete_where :
      (q p : A → Bool) (xs : List A)
      → ((x : A) → q x ≡ true → p x ≡ false)
      → any q xs ≡ true
      → any q (delete_where p xs) ≡ true
  any-delete_where q p xs apart e =
      any-delete_where-All (λ x. Unit {0}) q p xs (λ x t. apart x) (All-trivial xs) e

  -- An update that keeps what a test looks at keeps its answer.
  pub any-update_where :
      (q p : A → Bool) (f : A → A) (xs : List A)
      → ((x : A) → q (f x) ≡ q x)
      → any q (update_where p f xs) ≡ any q xs
  unfolding update_where
  any-update_where q p f [] same = refl
  any-update_where q p f (x ∷ xs) same = elim (Bool-cases (p x)) [
    | inl hit ↦ rw (hit, same x, any-update_where q p f xs same)
    | inr miss ↦ rw (miss, any-update_where q p f xs same)
  ]

  -- A query whose test an update does not touch finds the image of what it found before.
  pub find_first-update_where :
      (p q : A → Bool) (f : A → A) (xs : List A) {x : A}
      → ((y : A) → p (f y) ≡ p y)
      → find_first p xs ≡ some x
      → find_first p (update_where q f xs) ≡ some (if q x then f x else x)
  unfolding find_first update_where
  find_first-update_where p q f [] same e = cc
  find_first-update_where p q f (y ∷ xs) {x} same e = elim (Bool-cases (p y)) [
    | inl hit ↦ let first : y ≡ x = ground arith in ground (arith, same y)
    | inr miss ↦
        let ih = find_first-update_where p q f xs {x = x} same (ground arith) in
        ground (arith, same y)
  ]

  pub length-update_where :
      (p : A → Bool) (f : A → A) (xs : List A) → length (update_where p f xs) ≡ length xs
  unfolding update_where
  length-update_where p f [] = refl
  length-update_where p f (x ∷ xs) = omega (arith, length-update_where p f xs)
