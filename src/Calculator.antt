-- ===== src/Calculator.antt =====
-- backend/app/tools/calculator.py: the tree that `ast.parse` makes of an arithmetic text, and its
-- value. The parser and the arithmetic of floats and complex numbers are parameters, as is a power
-- that is not of whole numbers with an exponent from zero on.
pub mod Ranks
pub mod Kinds
mod Tests
use Prim.Native.Char.{Char}
use Prim.Native.Nat.{ℕ}
use omni_ai_v.Prelude.{
  String, Bool, true, false, Option, none, some, if◌then◌else◌, ◌==◌, nat_comparable, is_empty,
  strip,
}
use omni_ai_v.Prelude.Int.{ℤ, pos, negsuc, ◌+ℤ◌, ◌-ℤ◌, ◌*ℤ◌, power_ℤ}
use Prim.Native.Char.{code}

-- What Python's arithmetic raises.
pub data ArithmeticError : Type 0 where
  zero_division overflow : ArithmeticError

pub data Checked {ℓ} (A : Type ℓ) : Type ℓ where
  fine : A → Checked A
  fails : ArithmeticError → Checked A

pub data Value {ℓ} (F C : Type ℓ) : Type ℓ where
  int : ℤ → Value F C
  float : F → Value F C
  complex : C → Value F C

-- Python's arithmetic where it is not that of integers.
pub record Arithmetic {ℓ} (F C : Type ℓ) : Type ℓ where
  pub to_float : ℤ → Checked F
  pub to_complex : F → C
  pub add_f : F → F → F
  pub sub_f : F → F → F
  pub mul_f : F → F → F
  pub div_f : F → F → Checked F
  pub neg_f : F → F
  pub add_c : C → C → C
  pub sub_c : C → C → C
  pub mul_c : C → C → C
  pub div_c : C → C → Checked C
  pub neg_c : C → C
  pub truediv : ℤ → ℤ → Checked F
  pub pow : Value F C → Value F C → Checked (Value F C)

-- The operators of the grammar with the characters that the tool keeps: `//` is none of the allowed
-- ones, nor is the sign `+`.
pub data Operator : Type 0 where
  add sub mult div pow floor_div : Operator

pub data Sign : Type 0 where
  usub uadd : Sign

-- `ast.Constant`, `ast.BinOp`, `ast.UnaryOp`, and any other node.
pub data Expr {ℓ} (F C : Type ℓ) : Type ℓ where
  constant : Value F C → Expr F C
  bin_op : Operator → Expr F C → Expr F C → Expr F C
  unary_op : Sign → Expr F C → Expr F C
  other_node : Expr F C

-- The value, an exception of the arithmetic, or the ValueError.
pub data Outcome {ℓ} (F C : Type ℓ) : Type ℓ where
  returned : Value F C → Outcome F C
  raised : ArithmeticError → Outcome F C
  unsupported : Outcome F C

module _ {ℓ} {F C : Type ℓ} (math : Arithmetic F C) where
  abbrev pub bind {κ} : {A : Type κ} → Checked A → (A → Outcome F C) → Outcome F C
  bind (fine x) k = k x
  bind (fails e) k = raised e

  abbrev float_of : ℤ → (F → Outcome F C) → Outcome F C
  float_of a k = bind (math.to_float a) k

  abbrev complex_of : ℤ → (C → Outcome F C) → Outcome F C
  complex_of a k = bind (math.to_float a) (λ x. k (math.to_complex x))

  -- An operation of two numbers, both brought to the wider of their types.
  abbrev pub widened :
      (ℤ → ℤ → Outcome F C)
      → (F → F → Outcome F C)
      → (C → C → Outcome F C)
      → Value F C
      → Value F C
      → Outcome F C
  widened i f c (int a) (int b) = i a b
  widened i f c (int a) (float y) = float_of a (λ x. f x y)
  widened i f c (int a) (complex z) = complex_of a (λ w. c w z)
  widened i f c (float x) (int b) = float_of b (λ y. f x y)
  widened i f c (float x) (float y) = f x y
  widened i f c (float x) (complex z) = c (math.to_complex x) z
  widened i f c (complex w) (int b) = complex_of b (λ z. c w z)
  widened i f c (complex w) (float y) = c w (math.to_complex y)
  widened i f c (complex w) (complex z) = c w z

  abbrev pub power_of : Value F C → Value F C → Outcome F C
  power_of (int a) (int (pos n)) = returned (int (power_ℤ a n))
  power_of v w = bind (math.pow v w) returned

  -- ALLOWED_OPERATORS[op](left, right)
  unfoldable pub apply_operator : Operator → Value F C → Value F C → Outcome F C
  unfolding ◌+ℤ◌ ◌-ℤ◌ ◌*ℤ◌ power_ℤ
  apply_operator add v w =
      widened (λ a b. returned (int (a +ℤ b))) (λ x y. returned (float (math.add_f x y)))
        (λ x y. returned (complex (math.add_c x y))) v w
  apply_operator sub v w =
      widened (λ a b. returned (int (a -ℤ b))) (λ x y. returned (float (math.sub_f x y)))
        (λ x y. returned (complex (math.sub_c x y))) v w
  apply_operator mult v w =
      widened (λ a b. returned (int (a *ℤ b))) (λ x y. returned (float (math.mul_f x y)))
        (λ x y. returned (complex (math.mul_c x y))) v w
  apply_operator div v w =
      widened (λ a b. bind (math.truediv a b) (λ x. returned (float x)))
        (λ x y. bind (math.div_f x y) (λ q. returned (float q)))
        (λ x y. bind (math.div_c x y) (λ q. returned (complex q))) v w
  apply_operator pow v w = power_of v w
  apply_operator floor_div v w = unsupported

  unfoldable pub apply_sign : Sign → Value F C → Outcome F C
  unfolding ◌-ℤ◌
  apply_sign usub (int a) = returned (int (pos 0 -ℤ a))
  apply_sign usub (float x) = returned (float (math.neg_f x))
  apply_sign usub (complex z) = returned (complex (math.neg_c z))
  apply_sign uadd v = unsupported

  abbrev pub is_allowed : Operator → Bool
  is_allowed floor_div = false
  is_allowed _ = true

  abbrev pub is_allowed_sign : Sign → Bool
  is_allowed_sign usub = true
  is_allowed_sign uadd = false

  abbrev pub after_right : Operator → Value F C → Outcome F C → Outcome F C
  after_right op v (returned w) = apply_operator op v w
  after_right op v (raised e) = raised e
  after_right op v unsupported = unsupported

  abbrev pub after_left : Operator → Outcome F C → Outcome F C → Outcome F C
  after_left op (returned v) right = after_right op v right
  after_left op (raised e) right = raised e
  after_left op unsupported right = unsupported

  abbrev pub signed : Sign → Outcome F C → Outcome F C
  signed sign (returned v) = apply_sign sign v
  signed sign (raised e) = raised e
  signed sign unsupported = unsupported

  abbrev pub constant_of : Value F C → Outcome F C
  constant_of (int a) = returned (int a)
  constant_of (float x) = returned (float x)
  constant_of (complex z) = unsupported

  unfoldable pub eval_node : Expr F C → Outcome F C
  unfolding apply_operator apply_sign
  eval_node (constant v) = constant_of v
  eval_node (bin_op op left right) =
      let value = after_left op (eval_node left) (eval_node right) in
      if is_allowed op then value else unsupported
  eval_node (unary_op sign operand) =
      let value = signed sign (eval_node operand) in
      if is_allowed_sign sign then value else unsupported
  eval_node other_node = unsupported

unfoldable pub keep_arithmetic : String → String
keep_arithmetic String.[] = ""
keep_arithmetic (String.◌∷◌ c s) =
    let rest = keep_arithmetic s in
    if is_kept c "0123456789+-*/(). " then String.◌∷◌ c rest else rest
  where
    is_kept : Char → String → Bool
    is_kept c String.[] = false
    is_kept c (String.◌∷◌ d s) = let rest = is_kept c s in if code c == code d then true else rest

-- The result of the tool: the expression with its value, or an error.
pub data ToolResult {ℓ} (F C : Type ℓ) : Type ℓ where
  calculated : String → Value F C → ToolResult F C
  no_expression syntax_error arithmetic_error unsupported_expression : ToolResult F C

module _ {ℓ} {F C : Type ℓ} (math : Arithmetic F C) where
  abbrev pub reported : String → Outcome F C → ToolResult F C
  reported expression (returned v) = calculated expression v
  reported expression (raised e) = arithmetic_error
  reported expression unsupported = unsupported_expression

  abbrev pub parsed : String → Option (Expr F C) → ToolResult F C
  parsed expression none = syntax_error
  parsed expression (some e) = reported expression (eval_node math e)

  -- `parse` is `ast.parse(expression, mode="eval").body`.
  unfoldable pub calculator_tool : (String → Option (Expr F C)) → String → ToolResult F C
  unfolding keep_arithmetic strip eval_node
  calculator_tool parse query =
      let expression = strip (keep_arithmetic query) in
      if is_empty expression then no_expression else parsed expression (parse expression)
