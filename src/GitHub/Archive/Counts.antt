-- ===== src/GitHub/Archive/Counts.antt =====
-- The figures of an archive's index.
use omni_ai_v.Prelude.{ℕ, ◌+◌, ◌≤◌, ◌≡◌, Bool, true, false, length}
use omni_ai_v.GitHub.Archive.{Stats, Work}

-- The candidates with a figure of their own; a blank file has none.
abbrev pub accounted : Stats → ℕ
accounted s =
    s.files_indexed + s.skipped_files + s.skipped_ignored_path + s.skipped_extension
    + s.skipped_too_large + s.truncated

-- The loop was left for the limit, or it was not.
abbrev pub IsCut : Bool → Stats → Type 0
IsCut true s = (s.truncated ≡ 1) × (s.files_indexed ≡ 500)
IsCut false s = s.truncated ≡ 0

-- `room` candidates are still without a figure, `n` have been seen.
abbrev IsTallied : Bool → ℕ → ℕ → Work → Type 0
IsTallied cut room n w =
    (accounted w.stats + room ≤ w.stats.candidates_seen)
    × (w.stats.candidates_seen ≤ n)
    × (w.stats.files_indexed ≤ 500)
    × (length w.pending ≡ w.stats.files_indexed)
    × IsCut cut w.stats
