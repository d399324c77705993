-- ===== src/Calculator/Kinds.antt =====
-- Types of arithmetic expressions, and the values that the calculator gives them.
use omni_ai_v.Prelude.{
  zero, suc, ◌≤◌, ◌≡◌, refl, false, Option, none, some, arith, if◌then◌else◌, ap, Bool-cases, inl,
  inr,
}
use omni_ai_v.Prelude.Int.{ℤ, pos, negsuc, ◌+ℤ◌, ◌-ℤ◌, ◌*ℤ◌}
use omni_ai_v.Calculator.{
  Checked, fine, fails, Value, int, float, complex, Arithmetic, Operator, add, sub, mult, div, pow,
  floor_div, Sign, usub, uadd, Expr, constant, bin_op, unary_op, other_node, Outcome, returned,
  raised, unsupported, bind, widened, power_of, apply_operator, apply_sign, after_left, signed,
  is_allowed, is_allowed_sign, eval_node,
}
use omni_ai_v.Calculator.Ranks.{
  Kind, whole, real, any_number, rank, join, rank-join, operator_kind, both, sign_kind,
  operator_kind-ge, kind_of, value_kind, join_mono, Fits,
}

module _ {ℓ} {F C : Type ℓ} (math : Arithmetic F C) where
  Fits-mono : (a b : Kind) (o : Outcome F C) → rank a ≤ rank b → Fits a o → Fits b o
  Fits-mono a b (returned v) order h = omega arith
  Fits-mono a b (raised e) order h = omega arith
  Fits-mono a b unsupported order h = h

  bind-Fits {κ} :
      {A : Type κ} (k : Kind) (c : Checked A) (next : A → Outcome F C)
      → suc zero ≤ rank k
      → ((x : A) → Fits k (next x))
      → Fits k (bind math c next)
  bind-Fits k (fine x) next inexact h = h x
  bind-Fits k (fails e) next inexact h = inexact

  any-Fits : (v : Value F C) → Fits any_number (returned v)
  any-Fits (int a) = omega arith
  any-Fits (float x) = omega arith
  any-Fits (complex z) = omega arith

  -- An operation is of the kind of the wider operand if it is at each width.
  widened-Fits :
      (i : ℤ → ℤ → Outcome F C) (f : F → F → Outcome F C) (c : C → C → Outcome F C) (low : Kind)
      → ((a b : ℤ) → Fits low (i a b))
      → ((x y : F) → Fits real (f x y))
      → ((x y : C) → Fits any_number (c x y))
      → (v w : Value F C)
      → Fits (join low (join (value_kind v) (value_kind w))) (widened math i f c v w)
  widened-Fits i f c low hi hf hc (int a) (int b) =
      Fits-mono low (join low whole) (i a b) (omega (arith, rank-join low whole)) (hi a b)
  widened-Fits i f c low hi hf hc (int a) (float y) =
      Fits-mono real (join low real) _ (omega (arith, rank-join low real))
        (bind-Fits real (math.to_float a) (λ x. f x y) (omega arith) (λ x. hf x y))
  widened-Fits i f c low hi hf hc (int a) (complex z) =
      Fits-mono any_number (join low any_number) _ (omega (arith, rank-join low any_number)) (
        bind-Fits any_number (math.to_float a) (λ x. c (math.to_complex x) z) (omega arith)
          (λ x. hc (math.to_complex x) z))
  widened-Fits i f c low hi hf hc (float x) (int b) =
      Fits-mono real (join low real) _ (omega (arith, rank-join low real))
        (bind-Fits real (math.to_float b) (λ y. f x y) (omega arith) (λ y. hf x y))
  widened-Fits i f c low hi hf hc (float x) (float y) =
      Fits-mono real (join low real) (f x y) (omega (arith, rank-join low real)) (hf x y)
  widened-Fits i f c low hi hf hc (float x) (complex z) =
      Fits-mono any_number (join low any_number) (c (math.to_complex x) z)
        (omega (arith, rank-join low any_number)) (hc (math.to_complex x) z)
  widened-Fits i f c low hi hf hc (complex w) (int b) =
      Fits-mono any_number (join low any_number) _ (omega (arith, rank-join low any_number)) (
        bind-Fits any_number (math.to_float b) (λ y. c w (math.to_complex y)) (omega arith)
          (λ y. hc w (math.to_complex y)))
  widened-Fits i f c low hi hf hc (complex w) (float y) =
      Fits-mono any_number (join low any_number) (c w (math.to_complex y))
        (omega (arith, rank-join low any_number)) (hc w (math.to_complex y))
  widened-Fits i f c low hi hf hc (complex w) (complex z) =
      Fits-mono any_number (join low any_number) (c w z) (omega (arith, rank-join low any_number))
        (hc w z)

  -- The operations that stay within integers, floats and complex numbers.
  ring-Fits :
      (i : ℤ → ℤ → ℤ) (f : F → F → F) (c : C → C → C) (a b k : Kind) (v w : Value F C)
      → rank (value_kind v) ≤ rank a
      → rank (value_kind w) ≤ rank b
      → join a b ≡ k
      → Fits k (
          widened math
            (λ x y. returned (int (i x y)))
            (λ x y. returned (float (f x y)))
            (λ x y. returned (complex (c x y)))
            v
            w)
  ring-Fits i f c a b k v w ha hb e =
      Fits-mono (join (value_kind v) (value_kind w)) k _ (join_mono a b k v w ha hb e) (
        widened-Fits (λ x y. returned (int (i x y))) (λ x y. returned (float (f x y)))
          (λ x y. returned (complex (c x y))) whole (λ x y. omega arith) (λ x y. omega arith)
          (λ x y. omega arith) v w)

  power-Fits : (v w : Value F C) → Fits any_number (power_of math v w)
  power-Fits (int a) (int (pos n)) = omega arith
  power-Fits (int a) (int (negsuc n)) =
      bind-Fits any_number (math.pow (int a) (int (negsuc n))) returned (omega arith) any-Fits
  power-Fits (int a) (float y) =
      bind-Fits any_number (math.pow (int a) (float y)) returned (omega arith) any-Fits
  power-Fits (int a) (complex z) =
      bind-Fits any_number (math.pow (int a) (complex z)) returned (omega arith) any-Fits
  power-Fits (float x) w =
      bind-Fits any_number (math.pow (float x) w) returned (omega arith) any-Fits
  power-Fits (complex z) w =
      bind-Fits any_number (math.pow (complex z) w) returned (omega arith) any-Fits

  apply_operator-Fits :
      (op : Operator) (a b k : Kind) (v w : Value F C)
      → rank (value_kind v) ≤ rank a
      → rank (value_kind w) ≤ rank b
      → operator_kind op a b ≡ some k
      → Fits k (apply_operator math op v w)
  unfolding apply_operator
  apply_operator-Fits add a b k v w ha hb e =
      ring-Fits ◌+ℤ◌ math.add_f math.add_c a b k v w ha hb (cc)
  apply_operator-Fits sub a b k v w ha hb e =
      ring-Fits ◌-ℤ◌ math.sub_f math.sub_c a b k v w ha hb (cc)
  apply_operator-Fits mult a b k v w ha hb e =
      ring-Fits ◌*ℤ◌ math.mul_f math.mul_c a b k v w ha hb (cc)
  apply_operator-Fits div a b k v w ha hb e =
      let same : join real (join a b) ≡ k = cc in
      let order = join_mono a b (join a b) v w ha hb refl in
      let below : rank (join real (join (value_kind v) (value_kind w))) ≤ rank k = omega (
        arith,
        rank-join real (join (value_kind v) (value_kind w)),
        rank-join real (join a b),
        ap rank same,
        order,
      ) in
      Fits-mono (join real (join (value_kind v) (value_kind w))) k _ below (
        widened-Fits (λ x y. bind math (math.truediv x y) (λ q. returned (float q)))
          (λ x y. bind math (math.div_f x y) (λ q. returned (float q)))
          (λ x y. bind math (math.div_c x y) (λ q. returned (complex q))) real
          (λ x y.
            bind-Fits real (math.truediv x y) (λ q. returned (float q)) (omega arith)
              (λ q. omega arith))
          (λ x y.
            bind-Fits real (math.div_f x y) (λ q. returned (float q)) (omega arith)
              (λ q. omega arith))
          (λ x y.
            bind-Fits any_number (math.div_c x y) (λ q. returned (complex q)) (omega arith)
              (λ q. omega arith))
          v w)
  apply_operator-Fits pow a b k v w ha hb e =
      let same : any_number ≡ k = cc in rw (← same) (power-Fits v w)
  apply_operator-Fits floor_div a b k v w ha hb e = cc

  apply_sign-Fits :
      (sign : Sign) (a : Option Kind) (k : Kind) (v : Value F C)
      → sign_kind sign a ≡ some k
      → ((b : Kind) → a ≡ some b → rank (value_kind v) ≤ rank b)
      → Fits k (apply_sign math sign v)
  unfolding apply_sign
  apply_sign-Fits usub a k (int x) e h = h k e
  apply_sign-Fits usub a k (float x) e h = h k e
  apply_sign-Fits usub a k (complex z) e h = h k e
  apply_sign-Fits uadd a k v e h = cc

  -- Whatever the two operands give.
  after_left-Fits :
      (op : Operator) (a b k : Kind) (o p : Outcome F C)
      → Fits a o
      → Fits b p
      → operator_kind op a b ≡ some k
      → Fits k (after_left math op o p)
  after_left-Fits op a b k (returned v) (returned w) ha hb e =
      apply_operator-Fits op a b k v w ha hb e
  after_left-Fits op a b k (returned v) (raised m) ha hb e =
      omega (arith, operator_kind-ge op a b k e, hb)
  after_left-Fits op a b k (returned v) unsupported ha hb e = absurd hb
  after_left-Fits op a b k (raised m) p ha hb e = omega (arith, operator_kind-ge op a b k e, ha)
  after_left-Fits op a b k unsupported p ha hb e = absurd ha

  -- By the kinds of the two operands.
  both-Fits :
      (op : Operator) (a b : Option Kind) (k : Kind) (o p : Outcome F C)
      → ((x : Kind) → a ≡ some x → Fits x o)
      → ((x : Kind) → b ≡ some x → Fits x p)
      → both op a b ≡ some k
      → Fits k (if is_allowed math op then after_left math op o p else unsupported)
  both-Fits op none b k o p ha hb e = cc
  both-Fits op (some a) none k o p ha hb e = cc
  both-Fits op (some a) (some b) k o p ha hb e =
      let fits = after_left-Fits op a b k o p (ha a refl) (hb b refl) e in
      elim (Bool-cases (is_allowed math op)) [
        | inl allowed ↦ rw allowed fits
        | inr refused ↦ absurd (forbidden op a b k refused e)
      ]
    where
      forbidden :
          (op : Operator) (a b k : Kind)
          → is_allowed math op ≡ false
          → operator_kind op a b ≡ some k
          → ⊥
      forbidden add a b k h e = cc
      forbidden sub a b k h e = cc
      forbidden mult a b k h e = cc
      forbidden div a b k h e = cc
      forbidden pow a b k h e = cc
      forbidden floor_div a b k h e = cc

  signed-Fits :
      (sign : Sign) (a : Option Kind) (k : Kind) (o : Outcome F C)
      → ((x : Kind) → a ≡ some x → Fits x o)
      → sign_kind sign a ≡ some k
      → Fits k (if is_allowed_sign math sign then signed math sign o else unsupported)
  signed-Fits usub a k (returned v) ha e = apply_sign-Fits usub a k v e ha
  signed-Fits usub a k (raised m) ha e = ha k e
  signed-Fits usub a k unsupported ha e = ha k e
  signed-Fits uadd a k o ha e = cc

  -- An expression with a type is not refused: its value has the type, or the arithmetic raises an
  -- exception, which it does not for integers, their sums, differences, products and negatives.
  pub eval_node-Fits : (e : Expr F C) (k : Kind) → kind_of e ≡ some k → Fits k (eval_node math e)
  unfolding eval_node
  eval_node-Fits (constant (int a)) k h = let same : whole ≡ k = cc in rw (← same) (omega arith)
  eval_node-Fits (constant (float x)) k h = let same : real ≡ k = cc in rw (← same) (omega arith)
  eval_node-Fits (constant (complex z)) k h = cc
  eval_node-Fits (bin_op op left right) k h =
      both-Fits op (kind_of left) (kind_of right) k (eval_node math left) (eval_node math right)
        (eval_node-Fits left) (eval_node-Fits right) h
  eval_node-Fits (unary_op sign operand) k h =
      signed-Fits sign (kind_of operand) k (eval_node math operand) (eval_node-Fits operand) h
  eval_node-Fits other_node k h = cc
