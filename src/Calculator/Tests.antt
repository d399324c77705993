-- ===== src/Calculator/Tests.antt =====
-- The calculator with fractions for floats that are not exact: all of them are the one value.
use omni_ai_v.Prelude.{ℕ, ◌≡◌, refl, some, zero, suc}
use omni_ai_v.Prelude.Int.{ℤ, pos, negsuc}
use omni_ai_v.Calculator.{
  fine, fails, zero_division, int, float, Arithmetic, sub, mult, div, floor_div, Expr, constant,
  bin_op, raised, unsupported, eval_node, calculator_tool, calculated, Checked,
}
use omni_ai_v.Calculator.Kinds.{eval_node-Fits}
use omni_ai_v.Calculator.Ranks.{Fits, whole}

abbrev quotient : ℤ → ℤ → Checked (Unit {0})
quotient a (pos zero) = fails zero_division
quotient a (pos (suc n)) = fine tt
quotient a (negsuc n) = fine tt

abbrev math : Arithmetic (Unit {0}) (Unit {0})
math = record {
  to_float = λ a. fine tt;
  to_complex = λ x. tt;
  add_f = λ x y. tt;
  sub_f = λ x y. tt;
  mul_f = λ x y. tt;
  div_f = λ x y. fine tt;
  neg_f = λ x. tt;
  add_c = λ x y. tt;
  sub_c = λ x y. tt;
  mul_c = λ x y. tt;
  div_c = λ x y. fine tt;
  neg_c = λ x. tt;
  truediv = quotient;
  pow = λ v w. fine (float tt);
}

abbrev number : ℕ → Expr (Unit {0}) (Unit {0})
number n = constant (int (pos n))

-- 2 - 3 * 4
abbrev sample : Expr (Unit {0}) (Unit {0})
sample = bin_op sub (number 2) (bin_op mult (number 3) (number 4))

calculation :
    calculator_tool math (λ s. some sample) "what is 2 - 3*4?"
    ≡ calculated "2 - 3*4" (int (negsuc 9))
unfolding calculator_tool
calculation = refl

by_zero : eval_node math (bin_op div (number 1) (number 0)) ≡ raised zero_division
unfolding eval_node
by_zero = refl

floor : eval_node math (bin_op floor_div (number 7) (number 2)) ≡ unsupported
unfolding eval_node
floor = refl

eval_node-Fits_example : Fits whole (eval_node math sample)
eval_node-Fits_example = eval_node-Fits math sample whole refl
