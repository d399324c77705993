-- ===== src/GitHub/Paths.antt =====
-- The paths of the files in a repository's archive, and which of them are indexed.
use Prim.Native.Char.{Char, code}
use Prim.Native.String.{◌++◌}
use omni_ai_v.Prelude.{
  ℕ, String, Bool, true, false, ◌&&◌, Option, none, some, List, [], ◌∷◌, if◌then◌else◌, ◌==◌,
  nat_comparable, text_comparable, any, is_empty, split, before,
}
use omni_ai_v.Uploads.Names.{basename, splitext}

-- A member of the archive; its text is decoded, and a stream that is absent or cannot be read is
-- what `extractfile` and `read` answer.
pub data Content : Type 0 where
  text : String → Content
  no_stream : Content
  unreadable : String → Content

pub record Member : Type 0 where
  pub name : String
  pub is_file : Bool
  pub size : ℕ
  pub content : Content

unfoldable pub contains_slash : String → Bool
contains_slash String.[] = false
contains_slash (String.◌∷◌ c s) =
    let rest = contains_slash s in if code c == b'/' then true else rest

-- s.split("/", 1)[1]
unfoldable pub after_slash : String → String
after_slash String.[] = ""
after_slash (String.◌∷◌ c s) = let rest = after_slash s in if code c == b'/' then s else rest

-- s[len(prefix):] if s.startswith(prefix)
unfoldable pub remove_prefix : String → String → Option String
remove_prefix String.[] s = some s
remove_prefix (String.◌∷◌ p prefix) String.[] = none
remove_prefix (String.◌∷◌ p prefix) (String.◌∷◌ c s) =
    let rest = remove_prefix prefix s in if code p == code c then rest else none

unfoldable pub tarball_root_prefix : List Member → String
unfolding contains_slash before
tarball_root_prefix [] = ""
tarball_root_prefix (m ∷ members) =
    let rest = tarball_root_prefix members in
    if m.is_file && contains_slash m.name then before b'/' m.name ++ "/" else rest

abbrev pub relative_of : String → Option String → String
relative_of name (some rest) = rest
relative_of name none = if contains_slash name then after_slash name else name

unfoldable pub tarball_relative_path : String → String → String
unfolding contains_slash after_slash remove_prefix
tarball_relative_path name root_prefix =
    relative_of name (if is_empty root_prefix then none else remove_prefix root_prefix name)

abbrev pub skip_path_segments : List String
skip_path_segments =
    "node_modules" ∷ ".git" ∷ "dist" ∷ "build" ∷ ".next" ∷ "coverage" ∷ "vendor" ∷ "__pycache__"
    ∷ ".venv" ∷ "venv" ∷ "target" ∷ "bin" ∷ "obj" ∷ ".idea" ∷ ".vscode" ∷ ".cache" ∷ "chroma_db"
    ∷ ".turbo" ∷ ".pnpm-store" ∷ []

abbrev pub skip_filenames : List String
skip_filenames =
    "package-lock.json" ∷ "pnpm-lock.yaml" ∷ "yarn.lock" ∷ "poetry.lock" ∷ "cargo.lock"
    ∷ ".coverage" ∷ []

abbrev pub indexable_extensions : List String
indexable_extensions =
    ".md" ∷ ".markdown" ∷ ".txt" ∷ ".rst" ∷ ".py" ∷ ".js" ∷ ".jsx" ∷ ".mjs" ∷ ".cjs" ∷ ".ts"
    ∷ ".tsx" ∷ ".json" ∷ ".yaml" ∷ ".yml" ∷ ".toml" ∷ ".html" ∷ ".htm" ∷ ".css" ∷ ".scss" ∷ ".sass"
    ∷ ".less" ∷ ".vue" ∷ ".java" ∷ ".go" ∷ ".rs" ∷ ".rb" ∷ ".php" ∷ ".sql" ∷ ".sh" ∷ ".bash"
    ∷ ".xml" ∷ ".csv" ∷ ".ini" ∷ ".cfg" ∷ ".conf" ∷ ".env" ∷ ".dockerfile" ∷ []

abbrev pub member_of : List String → String → Bool
member_of names name = any (λ n. n == name) names

abbrev pub replace_char : ℕ → Char → String → String
replace_char from to String.[] = ""
replace_char from to (String.◌∷◌ c s) =
    String.◌∷◌ (if code c == from then to else c) (replace_char from to s)

unfoldable pub should_skip_repo_path : String → Bool
unfolding split
should_skip_repo_path path =
    any (member_of skip_path_segments) (split b'/' (replace_char 0x5c "/" path))

-- The extension that is looked up, for `str.lower`.
unfoldable pub indexed_extension : (String → String) → String → String
unfolding basename splitext
indexed_extension lower path =
    let ext = lower (splitext (basename path)).1 in
    if ext == "" && lower (basename path) == "dockerfile" then ".dockerfile" else ext

-- s.replace("/", "__")
unfoldable pub flattened : String → String
flattened String.[] = ""
flattened (String.◌∷◌ c s) =
    let rest = flattened s in if code c == b'/' then "__" ++ rest else String.◌∷◌ c rest
