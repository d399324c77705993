-- ===== src/Prelude/Text.antt =====
-- The `str` methods that the backend calls, over the native texts (sequences of code points).
-- `lower` maps the letters A-Z, as `bytes.lower` does; the program lowers header names, model
-- ids, MIME types and file extensions, which are compared with ASCII literals.
use Prim.Native.Char.{Char, code}
use Prim.Native.String.{String}
use mathlib.Core.Path.{◌≡◌, refl, ap}
use mathlib.Core.Bool.{Bool, true, false, ◌&&◌, ◌||◌}
use mathlib.Core.List.{List, [], ◌∷◌}
use native.Mathlib.Omega.{arith}
use Prim.Native.Nat.{ℕ, zero, suc, ◌+◌, ◌≤◌}
use omni_ai_v.Prelude.Tests.{if◌then◌else◌, leb, ◌==◌, nat_comparable}

-- `bool(s)`
abbrev pub is_empty : String → Bool
is_empty String.[] = true
is_empty (String.◌∷◌ c s) = false

-- The code points that `str.isspace` accepts.
unfoldable pub is_space : Char → Bool
is_space c =
    let n = code c in
    (leb 9 n && leb n 13)
    || (leb 28 n && leb n 32)
    || n == 0x85
    || n == 0xa0
    || n == 0x1680
    || (leb 0x2000 n && leb n 0x200a)
    || n == 0x2028
    || n == 0x2029
    || n == 0x202f
    || n == 0x205f
    || n == 0x3000

-- `lstrip` and `rstrip` with the characters to remove given as a test.
unfoldable pub lstrip : (Char → Bool) → String → String
lstrip p String.[] = String.[]
lstrip p (String.◌∷◌ c s) = let rest = lstrip p s in if p c then rest else String.◌∷◌ c s

unfoldable pub rstrip : (Char → Bool) → String → String
rstrip p String.[] = String.[]
rstrip p (String.◌∷◌ c s) =
    let rest = rstrip p s in if p c && is_empty rest then String.[] else String.◌∷◌ c rest

unfoldable pub strip : String → String
unfolding lstrip rstrip is_space
strip s = rstrip is_space (lstrip is_space s)

-- s[:n]
abbrev pub take_text : ℕ → String → String
take_text zero s = String.[]
take_text (suc n) String.[] = String.[]
take_text (suc n) (String.◌∷◌ c s) = String.◌∷◌ c (take_text n s)

-- s[n:]
abbrev pub drop_text : ℕ → String → String
drop_text zero s = s
drop_text (suc n) String.[] = String.[]
drop_text (suc n) (String.◌∷◌ c s) = drop_text n s

-- len(s)
abbrev pub text_length : String → ℕ
text_length String.[] = 0
text_length (String.◌∷◌ c s) = suc (text_length s)

-- s.count(c), for one character
unfoldable pub occurrences : ℕ → String → ℕ
occurrences sep String.[] = 0
occurrences sep (String.◌∷◌ c s) = (if code c == sep then 1 else 0) + occurrences sep s

-- s.split(sep)[0]
unfoldable pub before : ℕ → String → String
before sep String.[] = String.[]
before sep (String.◌∷◌ c s) =
    let rest = before sep s in if code c == sep then String.[] else String.◌∷◌ c rest

cons_head : Char → List String → List String
cons_head c [] = String.◌∷◌ c String.[] ∷ []
cons_head c (w ∷ ws) = String.◌∷◌ c w ∷ ws

-- s.split(sep)
unfoldable pub split : ℕ → String → List String
unfolding cons_head
split sep String.[] = String.[] ∷ []
split sep (String.◌∷◌ c s) =
    let rest = split sep s in if code c == sep then String.[] ∷ rest else cons_head c rest

-- s.translate(str.maketrans(from, to)), at one character
translate : String → String → Char → Char
translate (String.◌∷◌ a s) (String.◌∷◌ b t) c =
    let rest = translate s t c in if code c == code a then b else rest
translate _ _ c = c

unfoldable pub lower : String → String
unfolding translate
lower String.[] = String.[]
lower (String.◌∷◌ c s) =
    String.◌∷◌ (translate "ABCDEFGHIJKLMNOPQRSTUVWXYZ" "abcdefghijklmnopqrstuvwxyz" c) (lower s)

strip_test : strip "  a folder \t" ≡ "a folder"
unfolding strip
strip_test = refl

split_test : split 0x2c "a, b," ≡ "a" ∷ " b" ∷ "" ∷ []
unfolding split
split_test = refl

lower_test : lower "X-Forwarded-For" ≡ "x-forwarded-for"
unfolding lower
lower_test = refl

pub text_length-take_text : (n : ℕ) (s : String) → text_length (take_text n s) ≤ n
text_length-take_text zero s = omega arith
text_length-take_text (suc n) String.[] = omega arith
text_length-take_text (suc n) (String.◌∷◌ c s) = omega (arith, text_length-take_text n s)

pub empty_text : (s : String) → text_length s ≤ 0 → s ≡ ""
empty_text String.[] h = refl
empty_text (String.◌∷◌ c s) h = absurd (omega arith)

pub take_text_all : (n : ℕ) (s : String) → text_length s ≤ n → take_text n s ≡ s
take_text_all zero String.[] h = refl
take_text_all zero (String.◌∷◌ c s) h = absurd (omega arith)
take_text_all (suc n) String.[] h = refl
take_text_all (suc n) (String.◌∷◌ c s) h = ap (String.◌∷◌ c) (take_text_all n s (omega arith))

module _ (p : Char → Bool) where
  rstrip_idem : (s : String) → rstrip p (rstrip p s) ≡ rstrip p s
  unfolding rstrip
  rstrip_idem String.[] = refl
  rstrip_idem (String.◌∷◌ c s) = ground (arith, rstrip_idem s)

  lstrip_idem : (s : String) → lstrip p (lstrip p s) ≡ lstrip p s
  unfolding lstrip
  lstrip_idem String.[] = refl
  lstrip_idem (String.◌∷◌ c s) = ground (arith, lstrip_idem s)

  lstrip-rstrip : (s : String) → lstrip p (rstrip p s) ≡ rstrip p (lstrip p s)
  unfolding lstrip rstrip
  lstrip-rstrip String.[] = refl
  lstrip-rstrip (String.◌∷◌ c s) = ground (arith, lstrip-rstrip s)

-- A stripped text has nothing left to strip.
pub strip_idem : (s : String) → strip (strip s) ≡ strip s
strip_idem s =
    unfold strip in
    rw lstrip-rstrip (rw rstrip_idem (ap (rstrip is_space) (lstrip_idem is_space s)))
