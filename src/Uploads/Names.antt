-- ===== src/Uploads/Names.antt =====
-- sanitize_upload_filename of backend/app/core/upload_validation.py, and the parts of `os.path` and
-- `pathlib` that the upload code calls. The normal form NFKC is a parameter.
pub mod Safety
use Prim.Native.Char.{Char, code}
use Prim.Native.String.{◌++◌ as concat}
use text.Mathlib.TextLemmas.{nil-append, cons-append}
use omni_ai_v.Prelude.{
  ℕ, zero, suc, ◌+◌, ◌≡◌, refl, ap, ◌∙◌, String, Bool, true, false, ◌&&◌, ◌||◌, not, Option, none,
  some, List, arith, ltb, leb, if◌then◌else◌, ◌==◌, nat_comparable, text_comparable, is_empty,
  strip, lstrip, rstrip, is_space, take_text, Bool-cases, inl, inr, lacks, Option-cases, ◌⊎◌,
}

-- The base name of a path: what follows its last slash.
unfoldable pub basename : String → String
basename String.[] = ""
basename (String.◌∷◌ c s) =
    let rest = basename s in if lacks b'/' s && not (code c == b'/') then String.◌∷◌ c s else rest

abbrev pub cut_here : Char → String → Option (String × String) → Option (String × String)
cut_here c s (some (name, ext)) = some (String.◌∷◌ c name, ext)
cut_here c s none = if code c == b'.' then some ("", String.◌∷◌ c s) else none

-- A text cut before its last dot.
abbrev pub cut_dot : String → Option (String × String)
cut_dot String.[] = none
cut_dot (String.◌∷◌ c s) = cut_here c s (cut_dot s)

abbrev pub all_text : (Char → Bool) → String → Bool
all_text p String.[] = true
all_text p (String.◌∷◌ c s) = p c && all_text p s

-- The text begins with a character that fails the test.
abbrev pub starts : (Char → Bool) → String → Bool
starts p String.[] = false
starts p (String.◌∷◌ c s) = not (p c)

abbrev pub is_dot : Char → Bool
is_dot c = code c == b'.'

abbrev pub parts_of : String → Option (String × String) → String × String
parts_of s none = (s, "")
parts_of s (some (name, ext)) = if all_text is_dot name then (s, "") else (name, ext)

-- `os.path.splitext` on a name without separators.
unfoldable pub splitext : String → String × String
splitext s = parts_of s (cut_dot s)

abbrev suffix_of : Option (String × String) → String
suffix_of none = ""
suffix_of (some (name, ext)) = if is_empty name || ext == "." then "" else ext

-- `Path(filename).suffix` on a name without separators.
unfoldable pub suffix : String → String
suffix s = suffix_of (cut_dot s)

-- The characters A-Z, a-z, 0-9, dot, underscore, space and dash.
unfoldable pub is_safe : Char → Bool
is_safe c =
    let n = code c in
    (leb b'A' n && leb n b'Z')
    || (leb b'a' n && leb n b'z')
    || (leb b'0' n && leb n b'9')
    || n == b'.'
    || n == b'_'
    || n == b' '
    || n == b'-'

-- `SAFE_FILENAME_RE.sub("_", s)`: each longest run of other characters becomes one underscore;
-- `inside` tells whether the text before was such a run.
unfoldable pub replace_unsafe : Bool → String → String
unfolding is_safe
replace_unsafe inside String.[] = ""
replace_unsafe inside (String.◌∷◌ c s) =
    let kept = replace_unsafe false s in
    let dropped = replace_unsafe true s in
    if is_safe c then String.◌∷◌ c kept else if inside then dropped else String.◌∷◌ "_" dropped

-- len(s.encode("utf-8"))
unfoldable pub utf8_length : String → ℕ
utf8_length String.[] = 0
utf8_length (String.◌∷◌ c s) =
    (if ltb (code c) 0x80
      then 1
      else if ltb (code c) 0x800
      then 2
      else if ltb (code c) 0x10000
      then 3
      else 4)
    + utf8_length s

abbrev pub is_dot_or_space : Char → Bool
is_dot_or_space c = code c == b'.' || code c == b' '

abbrev pub shortened : String × String → String
shortened (name, ext) = concat (take_text 120 name) ext

module _ (nfkc : String → String) where
  unfoldable pub cleaned_name : String → String
  unfolding basename replace_unsafe strip lstrip rstrip
  cleaned_name filename =
      let base = strip (basename filename) in
      let bare = rstrip is_dot (lstrip is_dot base) in
      rstrip is_dot_or_space (lstrip is_dot_or_space (replace_unsafe false (nfkc bare)))

  -- `none` is the HTTPException with status 400 and the detail "Invalid filename."
  unfoldable pub sanitize_upload_filename : String → Option String
  unfolding cleaned_name splitext utf8_length
  sanitize_upload_filename filename =
      let cleaned = cleaned_name filename in
      if is_empty cleaned
      then none
      else if cleaned == "."
          || cleaned == ".."
          || not (lacks b'/' cleaned)
          || not (lacks b'\\' cleaned)
      then none
      else if ltb 180 (utf8_length cleaned)
      then some (shortened (splitext cleaned))
      else some cleaned
