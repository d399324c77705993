-- ===== src/Uploads/Security.antt =====
-- backend/app/services/upload_security_service.py: the checks of a quarantined upload. What the
-- archive, the first bytes of the file and the scanner show are parameters.
use Prim.Native.String.{◌++◌ as concat}
use text.Mathlib.Text.{starts_with}
use omni_ai_v.Prelude.{
  ℕ, ◌+◌, ◌*◌, String, Bool, ◌&&◌, ◌||◌, not, Option, none, some, List, [], ◌∷◌, ltb, if◌then◌else◌,
  ◌==◌, nat_comparable, text_comparable, is_empty, lower, before, strip, take_text, length, any,
}
use omni_ai_v.Uploads.Names.{suffix}
use omni_ai_v.Uploads.Validation.{member}

abbrev pub allowed : List String
allowed =
    ".pdf" ∷ ".txt" ∷ ".md" ∷ ".markdown" ∷ ".docx" ∷ ".doc" ∷ ".xlsx" ∷ ".xls" ∷ ".csv" ∷ ".json"
    ∷ ".html" ∷ ".htm" ∷ []

abbrev pub blocked : List String
blocked =
    ".exe" ∷ ".dll" ∷ ".bat" ∷ ".cmd" ∷ ".com" ∷ ".sh" ∷ ".bash" ∷ ".ps1" ∷ ".js" ∷ ".mjs" ∷ ".cjs"
    ∷ ".vbs" ∷ ".jar" ∷ ".apk" ∷ ".msi" ∷ ".scr" ∷ ".php" ∷ ".py" ∷ ".rb" ∷ ".pl" ∷ []

abbrev blocked_mime_prefixes : List String
blocked_mime_prefixes =
    "application/x-msdownload" ∷ "application/x-dosexec" ∷ "application/x-sh"
    ∷ "application/javascript" ∷ "text/javascript" ∷ []

-- The message of an UploadSecurityError, or `none` where a check passes.
abbrev pub Verdict : Type 0
Verdict = Option String

unfoldable pub validate_extension : String → Verdict
unfolding suffix lower
validate_extension filename =
    let ext = lower (suffix filename) in
    if member ext blocked
    then some (concat "File type " (concat ext " is not allowed."))
    else if not (is_empty ext) && not (member ext allowed)
    then some (concat "File type " (concat ext " is not in the allowlist."))
    else none

unfoldable pub validate_mime : String → Verdict
unfolding lower before strip
validate_mime content_type =
    let lowered = strip (before b';' (lower content_type)) in
    if is_empty content_type
    then none
    else if any (λ prefix. starts_with lowered prefix) blocked_mime_prefixes
    then some (concat "MIME type " (concat lowered " is not allowed."))
    else none

-- An entry of an archive: its size and whether its name has ".." or begins with "/".
pub record Entry : Type 0 where
  pub file_size : ℕ
  pub is_unsafe : Bool

abbrev total_size : List Entry → ℕ
total_size [] = 0
total_size (e ∷ entries) = e.file_size + total_size entries

abbrev archive_verdict : Option (List Entry) → Verdict
archive_verdict none = some "Invalid ZIP archive."
archive_verdict (some entries) =
    if ltb 200 (length entries)
    then some "Archive contains too many entries."
    else if ltb (50 * 1024 * 1024) (total_size entries)
    then some "Archive uncompressed size exceeds limit."
    else if any (λ e. e.is_unsafe) entries
    then some "Archive contains unsafe paths."
    else none

-- The first 8192 bytes of a file: whether they have "/JavaScript" or "/JS", and how often " obj".
pub record Sample : Type 0 where
  pub has_javascript : Bool
  pub objects : ℕ

abbrev sample_verdict : Option Sample → Verdict
sample_verdict none = some "Unable to read PDF for security checks."
sample_verdict (some sample) =
    if sample.has_javascript
    then some "PDF contains embedded JavaScript."
    else if ltb 5000 sample.objects
    then some "PDF structure exceeds complexity limits."
    else none

-- What `clamdscan` answers.
pub data Scan : Type 0 where
  finished : ℕ → String → Scan
  not_installed : Scan
  timed_out : Scan

pub record ScanSettings : Type 0 where
  pub enabled : Bool
  pub required : Bool

-- What the parameters show of one quarantined file; `none` is a file that cannot be read.
pub record Probe : Type 0 where
  pub is_zip : Bool
  pub archive : Option (List Entry)
  pub is_pdf : Bool
  pub sample : Option Sample
  pub scan : Scan
  pub says_found : String → Bool

unfoldable pub check_zip_bomb : Probe → Verdict
check_zip_bomb p = if p.is_zip then archive_verdict p.archive else none

unfoldable pub check_pdf_sanity : Probe → Verdict
check_pdf_sanity p = if p.is_pdf then sample_verdict p.sample else none

unfoldable pub scan_verdict : ScanSettings → Probe → Scan → Verdict
unfolding strip
scan_verdict s p (finished returncode output) =
    if returncode == 1 || p.says_found output
    then some (concat "Malware detected: " (take_text 200 (strip output)))
    else none
scan_verdict s p not_installed =
    if s.required then some "ClamAV scanner is required but not installed." else none
scan_verdict s p timed_out = if s.required then some "ClamAV scan timed out." else none

unfoldable pub scan_with_clamav : ScanSettings → Probe → Verdict
unfolding scan_verdict
scan_with_clamav s p = if s.enabled then scan_verdict s p p.scan else none

-- The next check runs if this one passes.
abbrev pub and_then : Verdict → Verdict → Verdict
and_then (some error) next = some error
and_then none next = next

unfoldable pub process_upload_security : ScanSettings → Probe → String → String → Verdict
unfolding validate_extension validate_mime check_zip_bomb check_pdf_sanity scan_with_clamav
process_upload_security s p filename content_type = and_then (validate_extension filename) (
    and_then (validate_mime content_type)
      (and_then (check_zip_bomb p) (and_then (check_pdf_sanity p) (scan_with_clamav s p))))
