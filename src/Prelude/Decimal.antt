-- ===== src/Prelude/Decimal.antt =====
-- `str` on the natural numbers, and on the text that `str.join` builds.
use Prim.Native.Char.{Char, code}
use Prim.Native.String.{String, ◌++◌}
use Prim.Native.Nat.{ℕ, zero, suc, ◌+◌, ◌-◌, ◌*◌, ◌/◌, ◌%◌, ◌≤◌, ◌<◌}
use mathlib.Core.Path.{◌≡◌, refl, ap, sym, ◌∙◌}
use mathlib.Core.Bool.{Bool, true, false, ◌&&◌, not}
use mathlib.Core.Logic.{inl, inr}
use mathlib.Core.List.{List, [], ◌∷◌}
use native.Mathlib.Omega.{arith}
use omni_ai_v.Prelude.Tests.{if◌then◌else◌, ltb, ◌==◌, nat_comparable, Bool-cases, beq_refl}
use text.Mathlib.TextLemmas.{nil-append, cons-append}
use omni_ai_v.Prelude.Text.{split, text_length}
use omni_ai_v.Prelude.Lists.{All}

abbrev char_at : ℕ → String → Char
char_at _ String.[] = "0"
char_at zero (String.◌∷◌ c s) = c
char_at (suc n) (String.◌∷◌ c s) = char_at n s

digit : ℕ → Char
digit d = char_at d "0123456789"

-- Puts the digits of `n` before the text. `fuel` is at least the number of digits but one.
digits : ℕ → ℕ → String → String
unfolding digit
digits zero n s = String.◌∷◌ (digit (n % 10)) s
digits (suc fuel) n s =
    let rest = digits fuel (n / 10) (String.◌∷◌ (digit (n % 10)) s) in
    if ltb n 10 then String.◌∷◌ (digit (n % 10)) s else rest

-- `str(n)`
unfoldable pub decimal : ℕ → String
unfolding digits
decimal n = digits n n ""

test : decimal 1205 ≡ "1205"
unfolding decimal digits
test = refl

-- `int(s)` on a text of digits, after the number `n`.
read : ℕ → String → ℕ
read n String.[] = n
read n (String.◌∷◌ c s) = read (n * 10 + (code c - 48)) s

ascends : ℕ → String → Bool
ascends k String.[] = true
ascends k (String.◌∷◌ c s) = code c == k && ascends (suc k) s

code-char_at :
    (k d : ℕ) (s : String) → d < text_length s → ascends k s ≡ true → code (char_at d s) ≡ d + k
unfolding ascends
code-char_at k d String.[] h up = absurd (omega arith)
code-char_at k zero (String.◌∷◌ c s) h up = ground arith
code-char_at k (suc d) (String.◌∷◌ c s) h up =
    omega (arith, code-char_at (suc k) d s (omega arith) (ground arith))

code-digit : (d : ℕ) → d < 10 → code (digit d) ≡ d + 48
unfolding digit ascends
code-digit d h = code-char_at 48 d "0123456789" h refl

read-digits : (fuel n : ℕ) (s : String) → n ≤ fuel → read 0 (digits fuel n s) ≡ read n s
unfolding digits read
read-digits zero n s h =
    let last : n % 10 ≡ 0 = omega arith in
    let here : 0 * 10 + (code (digit (n % 10)) - 48) ≡ n =
      omega (arith, code-digit (n % 10) (omega arith)) in
    ap (λ m. read m s) here
read-digits (suc fuel) n s h = elim (Bool-cases (ltb n 10)) [
  | inl small ↦
      let below : n < 10 = ground arith in
      let here : 0 * 10 + (code (digit (n % 10)) - 48) ≡ n =
        omega (arith, code-digit (n % 10) (omega arith)) in
      rw small (ap (λ m. read m s) here)
  | inr large ↦
      let here : n / 10 * 10 + (code (digit (n % 10)) - 48) ≡ n =
        omega (arith, code-digit (n % 10) (omega arith)) in
      rw large (
        read-digits fuel (n / 10) (String.◌∷◌ (digit (n % 10)) s) (omega arith)
        ∙ ap (λ m. read m s) here)
]

-- Reading the digits of a number gives the number, so two numbers with one text are the same.
pub decimal_inj : (m n : ℕ) → decimal m ≡ decimal n → m ≡ n
unfolding decimal read
decimal_inj m n h =
    sym (read-digits m m "" (omega arith)) ∙ ap (read 0) h ∙ read-digits n n "" (omega arith)

-- No character of the text has this code.
abbrev pub lacks : ℕ → String → Bool
lacks sep String.[] = true
lacks sep (String.◌∷◌ c s) = not (code c == sep) && lacks sep s

lacks-digits : (fuel n : ℕ) (s : String) → lacks b'|' s ≡ true → lacks b'|' (digits fuel n s) ≡ true
unfolding digits
lacks-digits zero n s h =
    let here : (code (digit (n % 10)) == b'|') ≡ false =
      ground (arith, code-digit (n % 10) (omega arith)) in
    rw (here, h) refl
lacks-digits (suc fuel) n s h =
    let here : (code (digit (n % 10)) == b'|') ≡ false =
      ground (arith, code-digit (n % 10) (omega arith)) in
    elim (Bool-cases (ltb n 10)) [
      | inl small ↦ rw (small, here, h) refl
      | inr large ↦
          rw large (lacks-digits fuel (n / 10) (String.◌∷◌ (digit (n % 10)) s) (rw (here, h) refl))
    ]

pub lacks-decimal : (n : ℕ) → lacks b'|' (decimal n) ≡ true
unfolding decimal
lacks-decimal n = lacks-digits n n "" refl

-- sep.join(parts), for a separator of one character
unfoldable pub join : Char → List String → String
join sep [] = ""
join sep (s ∷ []) = s
join sep (s ∷ t ∷ rest) = s ++ String.◌∷◌ sep (join sep (t ∷ rest))

split_lacks : (sep : ℕ) (s : String) → lacks sep s ≡ true → split sep s ≡ s ∷ []
unfolding split
split_lacks sep String.[] h = refl
split_lacks sep (String.◌∷◌ c s) h = elim (Bool-cases (code c == sep)) [
  | inl e ↦ absurd (cc (rw e at h))
  | inr e ↦ let tail : lacks sep s ≡ true = ground arith in rw e (rw (split_lacks sep s tail) refl)
]

split_append :
    (sep : Char) (s rest : String)
    → lacks (code sep) s ≡ true
    → split (code sep) (s ++ String.◌∷◌ sep rest) ≡ s ∷ split (code sep) rest
unfolding split
split_append sep String.[] rest h = rw nil-append (rw beq_refl refl)
split_append sep (String.◌∷◌ c s) rest h = rw cons-append (elim (Bool-cases (code c == code sep)) [
  | inl e ↦ absurd (cc (rw e at h))
  | inr e ↦
      let tail : lacks (code sep) s ≡ true = ground arith in
      rw e (rw (split_append sep s rest tail) refl)
])

-- Splitting a joined text gives the parts back, where no part has the separator.
pub split-join :
    (sep : Char) (s : String) (parts : List String)
    → All (λ p. lacks (code sep) p ≡ true) (s ∷ parts)
    → split (code sep) (join sep (s ∷ parts)) ≡ s ∷ parts
unfolding join
split-join sep s [] h = split_lacks (code sep) s h.0
split-join sep s (t ∷ rest) h =
    split_append sep s (join sep (t ∷ rest)) h.0 ∙ ap (λ r. s ∷ r) (split-join sep t rest h.1)
