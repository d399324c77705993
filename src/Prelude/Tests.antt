-- ===== src/Prelude/Tests.antt =====
-- Boolean tests on the native numbers and on texts, and the conditional.
use Prim.Native.Nat.{ℕ, ◌≤◌, ◌<◌, compare, Ordering}
use Prim.Native.String.{String}
use mathlib.Core.Path.{◌≡◌, refl}
use mathlib.Core.Logic.{◌⊎◌, inl, inr}
use mathlib.Core.Bool.{Bool, true, false}
use mathlib.Core.Option.{Option, none, some}
use native.Mathlib.Omega.{arith}
use text.Mathlib.Text.{◌==◌ as text_beq}
use text.Mathlib.TextEquality.{eq_iff}

abbrev pub ltb : ℕ → ℕ → Bool
ltb a b = elim (compare a b) [ Ordering.lt ↦ true | _ ↦ false ]

abbrev pub leb : ℕ → ℕ → Bool
leb a b = elim (compare a b) [ Ordering.gt ↦ false | _ ↦ true ]

abbrev nat_beq : ℕ → ℕ → Bool
nat_beq a b = elim (compare a b) [ Ordering.eq ↦ true | _ ↦ false ]

infix 1 if◌then◌else◌
abbrev pub if◌then◌else◌ {ℓ} : {A : Type ℓ} → Bool → A → A → A
if true then x else y = x
if false then x else y = y

-- `__eq__` of the keys, names and tags that the program compares.
pub record Comparable {ℓ} (K : Type ℓ) : Type ℓ where
  pub same : K → K → Bool
  pub sound : (x y : K) → same x y ≡ true → x ≡ y
  pub complete : (x y : K) → x ≡ y → same x y ≡ true

pub nat_sound : (m n : ℕ) → nat_beq m n ≡ true → m ≡ n
nat_sound m n h = ground arith

pub nat_complete : (m n : ℕ) → m ≡ n → nat_beq m n ≡ true
nat_complete m n h = ground arith

instance abbrev pub nat_comparable : Comparable ℕ
nat_comparable = record { same = nat_beq; sound = nat_sound; complete = nat_complete }

pub text_sound : (s t : String) → text_beq s t ≡ true → s ≡ t
text_sound s t = (eq_iff s t).0

pub text_complete : (s t : String) → s ≡ t → text_beq s t ≡ true
text_complete s t = (eq_iff s t).1

instance abbrev pub text_comparable : Comparable String
text_comparable = record { same = text_beq; sound = text_sound; complete = text_complete }

module _ {ℓ} {K : Type ℓ} ⦃key : Comparable K⦄ where
  infix 50 ◌==◌
  abbrev pub ◌==◌ : K → K → Bool
  x == y = key.same x y

  pub eq_of_beq : (x y : K) → (x == y) ≡ true → x ≡ y
  eq_of_beq x y = key.sound x y

  pub beq_of_eq : (x y : K) → x ≡ y → (x == y) ≡ true
  beq_of_eq x y = key.complete x y

  pub beq_refl : (x : K) → (x == x) ≡ true
  beq_refl x = key.complete x x refl

-- To split on a computed value and keep the equation.
pub Bool-cases : (b : Bool) → (b ≡ true) ⊎ (b ≡ false)
Bool-cases true = inl refl
Bool-cases false = inr refl

pub Option-cases {ℓ} : {A : Type ℓ} (o : Option A) → (o ≡ none) ⊎ ((a : A) × (o ≡ some a))
Option-cases none = inl refl
Option-cases (some a) = inr (a, refl)

abbrev pub is_some {ℓ} : {A : Type ℓ} → Option A → Bool
is_some none = false
is_some (some a) = true

pub ltb→lt : (a b : ℕ) → ltb a b ≡ true → a < b
ltb→lt a b h = ground arith

pub lt→ltb : (a b : ℕ) → a < b → ltb a b ≡ true
lt→ltb a b h = ground arith

pub leb→le : (a b : ℕ) → leb a b ≡ true → a ≤ b
leb→le a b h = ground arith

pub le→leb : (a b : ℕ) → a ≤ b → leb a b ≡ true
le→leb a b h = ground arith

pub ltb-false→le : (a b : ℕ) → ltb a b ≡ false → b ≤ a
ltb-false→le a b h = ground arith

pub le→ltb-false : (a b : ℕ) → b ≤ a → ltb a b ≡ false
le→ltb-false a b h = ground arith
