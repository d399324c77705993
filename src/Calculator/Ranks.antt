-- ===== src/Calculator/Ranks.antt =====
-- Kinds of numbers, the types of expressions, and the values of a kind.
use omni_ai_v.Prelude.{ℕ, zero, suc, ◌≤◌, ◌≡◌, refl, max, Option, none, some, arith, ap}
use omni_ai_v.Calculator.{
  Value, int, float, complex, Operator, add, sub, mult, div, pow, floor_div, Sign, usub, uadd, Expr,
  constant, bin_op, unary_op, other_node, Outcome, returned, raised, unsupported,
}

-- Integers; integers and floats; and all numbers.
pub data Kind : Type 0 where
  whole real any_number : Kind

abbrev pub rank : Kind → ℕ
rank whole = 0
rank real = 1
rank any_number = 2

abbrev pub join : Kind → Kind → Kind
join whole b = b
join real whole = real
join real real = real
join real any_number = any_number
join any_number b = any_number

pub rank-join : (a b : Kind) → rank (join a b) ≡ max (rank a) (rank b)
rank-join whole b = omega arith
rank-join real whole = refl
rank-join real real = refl
rank-join real any_number = refl
rank-join any_number whole = refl
rank-join any_number real = refl
rank-join any_number any_number = refl

abbrev pub operator_kind : Operator → Kind → Kind → Option Kind
operator_kind add a b = some (join a b)
operator_kind sub a b = some (join a b)
operator_kind mult a b = some (join a b)
operator_kind div a b = some (join real (join a b))
operator_kind pow a b = some any_number
operator_kind floor_div a b = none

abbrev pub both : Operator → Option Kind → Option Kind → Option Kind
both op none b = none
both op (some a) none = none
both op (some a) (some b) = operator_kind op a b

abbrev pub sign_kind : Sign → Option Kind → Option Kind
sign_kind usub k = k
sign_kind uadd k = none

pub operator_kind-ge :
    (op : Operator) (a b k : Kind) → operator_kind op a b ≡ some k → max (rank a) (rank b) ≤ rank k
operator_kind-ge add a b k e =
    let same : join a b ≡ k = cc in omega (arith, rank-join a b, ap rank same)
operator_kind-ge sub a b k e =
    let same : join a b ≡ k = cc in omega (arith, rank-join a b, ap rank same)
operator_kind-ge mult a b k e =
    let same : join a b ≡ k = cc in omega (arith, rank-join a b, ap rank same)
operator_kind-ge div a b k e =
    let same : join real (join a b) ≡ k = cc in
    omega (arith, rank-join real (join a b), rank-join a b, ap rank same)
operator_kind-ge pow a b k e =
    let same : any_number ≡ k = cc in omega (arith, rank-le a, rank-le b, ap rank same)
  where
    rank-le : (a : Kind) → rank a ≤ 2
    rank-le whole = omega arith
    rank-le real = omega arith
    rank-le any_number = omega arith
operator_kind-ge floor_div a b k e = cc

module _ {ℓ} {F C : Type ℓ} where
  abbrev pub constant_kind : Value F C → Option Kind
  constant_kind (int a) = some whole
  constant_kind (float x) = some real
  constant_kind (complex z) = none

  -- The type of an expression, if it has one.
  abbrev pub kind_of : Expr F C → Option Kind
  kind_of (constant v) = constant_kind v
  kind_of (bin_op op left right) = both op (kind_of left) (kind_of right)
  kind_of (unary_op sign operand) = sign_kind sign (kind_of operand)
  kind_of other_node = none

  abbrev pub value_kind : Value F C → Kind
  value_kind (int a) = whole
  value_kind (float x) = real
  value_kind (complex z) = any_number

  pub join_mono :
      (a b k : Kind) (v w : Value F C)
      → rank (value_kind v) ≤ rank a
      → rank (value_kind w) ≤ rank b
      → join a b ≡ k
      → rank (join (value_kind v) (value_kind w)) ≤ rank k
  join_mono a b k v w ha hb e =
      omega (arith, rank-join (value_kind v) (value_kind w), rank-join a b, ap rank e)

  -- A value of the type or, unless it is that of integers, an exception of the arithmetic.
  abbrev pub Fits : Kind → Outcome F C → Type 0
  Fits k (returned v) = rank (value_kind v) ≤ rank k
  Fits k (raised e) = suc zero ≤ rank k
  Fits k unsupported = ⊥
