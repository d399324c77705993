-- ===== src/GitHub/Download.antt =====
-- _download_repo_tarball: the archive of a branch, with the token or, where GitHub refuses it, without.
-- What httpx and tarfile answer are parameters.
use Prim.Native.String.{◌++◌ as concat}
use omni_ai_v.Prelude.{
  ℕ, String, Bool, true, false, ◌&&◌, ◌||◌, not, Option, none, some, List, if◌then◌else◌, ◌==◌,
  nat_comparable, text_comparable, leb, ltb, is_empty,
}
use omni_ai_v.GitHub.Paths.{Member}

-- What `tarfile.open` and `getmembers` make of the bytes.
pub data Archive : Type 0 where
  opened : List Member → Archive
  corrupt : String → Archive

pub record Body : Type 0 where
  pub is_gzip : Bool
  pub size : ℕ
  pub preview : String
  pub archive : Archive

pub record Response : Type 0 where
  pub status_code : ℕ
  pub location : Option String
  pub body : Body

-- The answer of `httpx.get`: a response, or the text of an exception.
pub data Reply : Type 0 where
  response : Response → Reply
  unreached : String → Reply

-- A value, HTTPStatusError with its status, or the text of another exception.
pub data Answer {ℓ} (A : Type ℓ) : Type ℓ where
  answered : A → Answer A
  http_status : ℕ → Answer A
  raised : String → Answer A

-- GitHub: the default branch of the repository, the latest commit of a branch, and the two requests
-- of a download, the first with the token or without it.
pub record Remote : Type 0 where
  pub default_branch : Answer (Option String)
  pub commit_sha : String → Answer String
  pub tarball : String → Bool → Reply
  pub follow : String → Reply

abbrev is_redirect : ℕ → Bool
is_redirect n = n == 301 || n == 302 || n == 303 || n == 307 || n == 308

abbrev no_location : String
no_location = "GitHub tarball redirect did not include a download URL."

abbrev pub located : Remote → Option String → Reply
located remote none = unreached no_location
located remote (some url) = if is_empty url then unreached no_location else remote.follow url

abbrev pub redirected : Remote → Reply → Reply
redirected remote (unreached e) = unreached e
redirected remote (response r) =
    if is_redirect r.status_code then located remote r.location else response r

unfoldable pub fetch_archive : Remote → String → Bool → Reply
fetch_archive remote branch with_token = redirected remote (remote.tarball branch with_token)

abbrev is_success : ℕ → Bool
is_success n = leb 200 n && ltb n 300

abbrev of_archive : Archive → Answer (List Member)
of_archive (opened members) = answered members
of_archive (corrupt e) = raised e

abbrev pub opened_body : String → Body → Answer (List Member)
opened_body repo b =
    if not b.is_gzip
    then raised (
        concat "GitHub tarball download for "
          (concat repo (concat " did not return a gzip archive. Response preview: " b.preview)))
    else if ltb b.size 64
    then raised (
        concat "GitHub returned an empty archive for " (
          concat repo
            ". Revoke Omni-AI in GitHub settings, reconnect, and approve repository access."))
    else of_archive b.archive

abbrev pub checked : String → Reply → Answer (List Member)
checked repo (unreached e) = raised e
checked repo (response r) =
    if is_success r.status_code then opened_body repo r.body else http_status r.status_code

abbrev pub retried : Remote → String → Reply → Reply
retried remote branch (unreached e) = unreached e
retried remote branch (response r) =
    if r.status_code == 401 then redirected remote (remote.tarball branch false) else response r

-- The members of the archive; `tarfile.open` stands in the caller.
unfoldable pub download_repo_tarball : Remote → String → String → Answer (List Member)
unfolding fetch_archive
download_repo_tarball remote repo branch =
    checked repo (retried remote branch (fetch_archive remote branch true))
