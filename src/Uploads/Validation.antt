-- ===== src/Uploads/Validation.antt =====
-- validate_document_upload of backend/app/core/upload_validation.py over the lists of
-- backend/app/core/supported_uploads.py. Bytes are numbers.
use Prim.Native.String.{◌++◌ as concat}
use omni_ai_v.Prelude.{
  ℕ, ◌/◌, ◌*◌, String, Bool, true, false, ◌&&◌, ◌||◌, not, Option, none, some, List, [], ◌∷◌, ltb,
  leb, if◌then◌else◌, ◌==◌, nat_comparable, text_comparable, is_empty, lower, decimal, drop_text,
  length, take, any, all,
}
use omni_ai_v.Uploads.Names.{splitext, sanitize_upload_filename}

-- An `UploadFile`; `filename` and `content_type` are "" where they are missing.
pub record UploadFile : Type 0 where
  pub filename : String
  pub content_type : String
  pub body : List ℕ

-- A result, or an HTTPException with its status and detail.
pub data Result {ℓ} (A : Type ℓ) : Type ℓ where
  ok : A → Result A
  http_exception : ℕ → String → Result A

unfoldable pub allowed_extensions : List String
allowed_extensions = ".pdf" ∷ ".txt" ∷ ".md" ∷ ".markdown" ∷ ".docx" ∷ []

unfoldable pub blocked_extensions : List String
blocked_extensions =
    ".bat" ∷ ".cmd" ∷ ".com" ∷ ".dll" ∷ ".exe" ∷ ".js" ∷ ".php" ∷ ".ps1" ∷ ".sh" ∷ ".zip" ∷ []

abbrev pub member : String → List String → Bool
member s names = any (λ n. n == s) names

-- EXTENSION_CONTENT_TYPES.get(extension, set())
unfoldable pub extension_content_types : String → List String
extension_content_types extension =
    if extension == ".pdf"
    then "application/pdf" ∷ "application/octet-stream" ∷ []
    else if extension == ".txt"
    then "text/plain" ∷ "application/octet-stream" ∷ []
    else if extension == ".md" || extension == ".markdown"
    then "text/markdown" ∷ "text/plain" ∷ "application/octet-stream" ∷ []
    else if extension == ".docx"
    then "application/vnd.openxmlformats-officedocument.wordprocessingml.document"
      ∷ "application/octet-stream" ∷ []
    else []

-- data.startswith(magic)
abbrev pub starts_with : List ℕ → List ℕ → Bool
starts_with bytes [] = true
starts_with [] (b ∷ magic) = false
starts_with (a ∷ bytes) (b ∷ magic) = a == b && starts_with bytes magic

abbrev pub pdf_magic : List ℕ
pdf_magic = 0x25 ∷ 0x50 ∷ 0x44 ∷ 0x46 ∷ []

abbrev pub zip_magic : List ℕ
zip_magic = 0x50 ∷ 0x4b ∷ 0x03 ∷ 0x04 ∷ []

abbrev pub xls_magic : List ℕ
xls_magic = 0xd0 ∷ 0xcf ∷ 0x11 ∷ 0xe0 ∷ []

-- not body.strip()
abbrev pub is_blank : List ℕ → Bool
is_blank = all (λ b. b == 0x20 || (leb 0x09 b && leb b 0x0d))

module _ (nfkc upper : String → String) where
  -- The checks on the first eight bytes and on the whole body.
  unfoldable pub check_content : String → List ℕ → ℕ → Result ℕ
  check_content extension body max_bytes =
      let header = take 8 body in
      if extension == ".pdf" && not (starts_with header pdf_magic)
      then http_exception 400 "File content is not a valid PDF."
      else if (extension == ".docx" || extension == ".xlsx") && not (starts_with header zip_magic)
      then http_exception 400
          (concat "File content is not a valid " (concat (upper (drop_text 1 extension)) "."))
      else if extension == ".zip"
      then http_exception 400 "ZIP uploads are not supported."
      else if extension == ".xls" && not (starts_with header xls_magic)
      then http_exception 400 "File content is not a valid XLS workbook."
      else if ltb max_bytes (length body)
      then http_exception 413 (
          concat "File exceeds maximum size of "
            (concat (decimal (max_bytes / (1024 * 1024))) "MB"))
      else if is_blank body
      then http_exception 400 "Uploaded file is empty."
      else ok (length body)

  -- The checks on the extension and the declared type, then those on the content.
  unfoldable pub check_type : UploadFile → ℕ → Option String → Result ℕ
  unfolding splitext lower check_content
  check_type file max_bytes none = http_exception 400 "Invalid filename."
  check_type file max_bytes (some safe_name) =
      let extension = lower (splitext safe_name).1 in
      if member extension blocked_extensions
      then http_exception 400 "This file type is not allowed."
      else if not (member extension allowed_extensions)
      then http_exception 400 "Unsupported file type. Supported formats: PDF, DOCX, TXT, Markdown."
      else if not (is_empty file.content_type)
          && not (member file.content_type (extension_content_types extension))
      then http_exception 400 (concat "Invalid MIME type for " (concat extension " upload."))
      else check_content extension file.body max_bytes

  unfoldable pub validate_document_upload : UploadFile → ℕ → Result ℕ
  unfolding sanitize_upload_filename check_type
  validate_document_upload file max_bytes =
      if is_empty file.filename
      then http_exception 400 "No file provided"
      else check_type file max_bytes (sanitize_upload_filename nfkc file.filename)
