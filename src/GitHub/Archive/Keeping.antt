-- ===== src/GitHub/Archive/Keeping.antt =====
-- What the index of one file keeps, the index of an archive keeps.
use omni_ai_v.Prelude.{
  ℕ, String, List, [], ◌∷◌, select, nat_comparable, text_comparable, leb, is_empty, strip,
  Bool-cases, inl, inr,
}
use omni_ai_v.GitHub.{Db}
use omni_ai_v.GitHub.Paths.{
  Content, text, no_stream, unreadable, Member, tarball_root_prefix, tarball_relative_path,
}
use omni_ai_v.GitHub.Archive.{
  Environment, Target, Work, Verdict, ignored_path, skipped_file, other_extension, too_large,
  eligible, judge, with_stats, indexed, index_github_file, extract, decided, seen, visit,
  index_members, new_stats, index_files, max_files_per_sync,
}

-- What the index of a file keeps, the index of an archive keeps.
module _ {ℓ} (P : List ℕ → Db → Type ℓ) (env : Environment) (t : Target)
    (keeps : (path content : String) (w : Work)
      → P w.pending w.db
      → P
          (indexed path w (index_github_file env t path content w.db)).pending
          (indexed path w (index_github_file env t path content w.db)).db) where
  abbrev Holds : Work → Type ℓ
  Holds w = P w.pending w.db

  extract-Keeps :
      (path : String) (content : Content) (w : Work)
      → Holds w
      → Holds (extract env t path content w)
  unfolding extract
  extract-Keeps path no_stream w h = h
  extract-Keeps path (unreadable e) w h = h
  extract-Keeps path (text content) w h = elim (Bool-cases (is_empty (strip content))) [
    | inl blank ↦ rw blank h
    | inr full ↦ rw full (keeps path content w h)
  ]

  decided-Keeps :
      (path : String) (content : Content) (w : Work) (v : Verdict)
      → Holds w
      → Holds (decided env t path content w v).1
  decided-Keeps path content w ignored_path h = h
  decided-Keeps path content w skipped_file h = h
  decided-Keeps path content w other_extension h = h
  decided-Keeps path content w too_large h = h
  decided-Keeps path content w eligible h =
      elim (Bool-cases (leb max_files_per_sync w.stats.files_indexed)) [
        | inl limit ↦ rw limit h
        | inr below ↦ rw below (extract-Keeps path content w h)
      ]

  visit-Keeps :
      (prefix : String) (m : Member) (w : Work) → Holds w → Holds (visit env t prefix m w).1
  unfolding visit
  visit-Keeps prefix m w h =
      let path = tarball_relative_path m.name prefix in
      elim (Bool-cases (is_empty path)) [
        | inl outside ↦ rw outside h
        | inr inside ↦
            rw inside
              (decided-Keeps path m.content (with_stats seen w) (judge env.lower path m.size) h)
      ]

  index_members-Keeps :
      (prefix : String) (members : List Member) (w : Work)
      → Holds w
      → Holds (index_members env t prefix members w)
  unfolding index_members
  index_members-Keeps prefix [] w h = h
  index_members-Keeps prefix (m ∷ members) w h =
      let step = visit-Keeps prefix m w h in
      elim (Bool-cases (visit env t prefix m w).0) [
        | inl stop ↦ rw stop step
        | inr on ↦ rw on (index_members-Keeps prefix members (visit env t prefix m w).1 step)
      ]

  pub index_files-Keeps :
      (members : List Member) (db : Db) → P [] db → Holds (index_files env t members db)
  unfolding index_files
  index_files-Keeps members db h =
      index_members-Keeps (tarball_root_prefix members) (select (λ m. m.is_file) members)
        (record { stats = new_stats members; pending = []; db = db }) h
