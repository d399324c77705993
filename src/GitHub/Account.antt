-- ===== src/GitHub/Account.antt =====
-- The connection of a user to GitHub: its scopes, its status and the ways in which it is made. What
-- GitHub answers about a token is a parameter.
use Prim.Native.String.{◌++◌ as concat}
use omni_ai_v.Prelude.{
  ◌≡◌, refl, ℕ, String, Bool, true, false, ◌&&◌, not, Option, none, some, if◌then◌else◌, ◌==◌,
  nat_comparable, text_comparable, any, is_empty, strip, split, Bool-cases, Option-cases, inl, inr,
  beq_refl,
}
use omni_ai_v.Rows.{find_first, find_first_append, find_first-update_where, update_where}
use omni_ai_v.GitHub.{
  Db, GitHubConnection, Profile, Result, ok, error, belongs_to, with_profile, get_connection,
  save_connection, save_found,
}

-- Whether GitHub grants a token's scopes to the caller: the profile of `/user`, and the header with the
-- scopes, or the text of an exception.
pub record Provider : Type 0 where
  pub lower : String → String
  pub user : String → Result Profile
  pub token_scopes : String → Result String
  pub revoke_url : String

unfoldable pub github_token_has_repo_scope : (String → String) → String → Bool
unfolding strip split
github_token_has_repo_scope lower scopes =
    any (λ part. not (is_empty (strip part)) && lower (strip part) == "repo") (split b',' scopes)

abbrev or_empty : Option String → String
or_empty none = ""
or_empty (some scopes) = scopes

-- `(scopes or "").strip() or fetch_github_token_scopes(access_token)`
unfoldable pub resolved_scopes : Provider → String → Option String → Result String
unfolding strip
resolved_scopes p access_token scopes =
    if is_empty (strip (or_empty scopes))
    then p.token_scopes access_token
    else ok (strip (or_empty scopes))

abbrev pub saved_as : Db → ℕ → Profile → String → String → Result GitHubConnection × Db
saved_as db user_id profile access_token scopes =
    let (c, after) = save_connection db user_id profile access_token (some scopes) in (ok c, after)

abbrev pub linked : Db → ℕ → Profile → String → Result String → Result GitHubConnection × Db
linked db user_id profile access_token (error e) = (error e, db)
linked db user_id profile access_token (ok scopes) = saved_as db user_id profile access_token scopes

unfoldable pub link_github_account_from_login :
    Provider → Db → ℕ → String → Profile → Option String → Result GitHubConnection × Db
unfolding resolved_scopes save_connection
link_github_account_from_login p db user_id access_token profile scopes =
    linked db user_id profile access_token (resolved_scopes p access_token scopes)

abbrev pub with_repo_scope :
    Provider → Db → ℕ → Profile → String → Result String → Result GitHubConnection × Db
with_repo_scope p db user_id profile access_token (error e) = (error e, db)
with_repo_scope p db user_id profile access_token (ok scopes) =
    if not (github_token_has_repo_scope p.lower scopes)
    then (
      error (
          concat "GitHub did not grant repository access (repo scope). Revoke Omni-AI at "
            (concat p.revoke_url ", then connect again and approve repository access.")),
      db,
    )
    else saved_as db user_id profile access_token scopes

abbrev pub with_user :
    Provider → Db → ℕ → String → Option String → Result Profile → Result GitHubConnection × Db
with_user p db user_id access_token scopes (error e) = (error e, db)
with_user p db user_id access_token scopes (ok profile) =
    with_repo_scope p db user_id profile access_token (resolved_scopes p access_token scopes)

unfoldable pub connect_github_account_from_token :
    Provider → Db → ℕ → String → Option String → Result GitHubConnection × Db
unfolding resolved_scopes save_connection github_token_has_repo_scope
connect_github_account_from_token p db user_id access_token scopes =
    with_user p db user_id access_token scopes (p.user access_token)

-- The status of a connection, without the address that is the same for all.
pub record Status : Type 0 where
  pub connected : Bool
  pub github_login : Option String
  pub scopes : Option String
  pub has_repo_scope : Bool

abbrev pub status_for : Provider → GitHubConnection → String → Status
status_for p c scopes = record {
  connected = true;
  github_login = some c.github_login;
  scopes = if is_empty scopes then none else some scopes;
  has_repo_scope = github_token_has_repo_scope p.lower scopes;
}

abbrev pub refreshed : Provider → Db → GitHubConnection → Result String → Status × Db
refreshed p db c (error e) = (status_for p c (strip (or_empty c.scopes)), db)
refreshed p db c (ok scopes) = (
  status_for p c scopes,
  record db {
    connections =
        update_where (λ x. x.id == c.id) (λ x. record x { scopes = some scopes }) db.connections;
  },
)

abbrev pub status_found : Provider → Db → Option GitHubConnection → Status × Db
status_found p db none =
    (record { connected = false; github_login = none; scopes = none; has_repo_scope = false }, db)
status_found p db (some c) =
    let scopes = strip (or_empty c.scopes) in
    if not (is_empty scopes) && not (github_token_has_repo_scope p.lower scopes)
    then refreshed p db c (p.token_scopes c.access_token)
    else (status_for p c scopes, db)

unfoldable pub github_connection_status : Provider → Db → ℕ → Status × Db
unfolding get_connection update_where strip github_token_has_repo_scope
github_connection_status p db user_id = status_found p db (get_connection db user_id)

-- Of the row of a user: the token with a scope for repositories.
abbrev pub Grants : Provider → ℕ → String → Result GitHubConnection × Db → Db → Type 0
Grants p user_id access_token (error e, after) db = after ≡ db
Grants p user_id access_token (ok c, after) db =
    (get_connection after user_id ≡ some c)
    × (c.access_token ≡ access_token)
    × (scopes : String) × (c.scopes ≡ some scopes)
    × (github_token_has_repo_scope p.lower scopes ≡ true)

saved-found :
    (db : Db) (user_id : ℕ) (profile : Profile) (access_token : String) (scopes : Option String)
    → get_connection (save_connection db user_id profile access_token scopes).1 user_id
      ≡ some (save_connection db user_id profile access_token scopes).0
unfolding save_connection get_connection
saved-found db user_id profile access_token scopes =
    elim (Option-cases (find_first (belongs_to user_id) db.connections)) [
      | inl absent ↦ rw absent (
          find_first_append (belongs_to user_id) db.connections
            (save_found db user_id profile access_token scopes none).0 absent (beq_refl user_id))
      | inr (c, found) ↦
          let e =
            find_first-update_where (belongs_to user_id) (λ x. x.id == c.id)
              (with_profile profile access_token scopes) db.connections {x = c} (λ y. refl) found in
          rw found (rw (beq_refl c.id) at e)
    ]

saved-token :
    (db : Db) (user_id : ℕ) (profile : Profile) (access_token : String) (scopes : Option String)
    → ((save_connection db user_id profile access_token scopes).0.access_token ≡ access_token)
      × ((save_connection db user_id profile access_token scopes).0.scopes ≡ scopes)
unfolding save_connection
saved-token db user_id profile access_token scopes =
    elim (Option-cases (get_connection db user_id)) [
      | inl absent ↦ rw absent (refl, refl)
      | inr (c, found) ↦ rw found (refl, refl)
    ]

scoped-Grants :
    (p : Provider) (db : Db) (user_id : ℕ) (profile : Profile) (access_token : String)
    (scopes : Result String)
    → Grants p user_id access_token (with_repo_scope p db user_id profile access_token scopes) db
scoped-Grants p db user_id profile access_token (error e) = refl
scoped-Grants p db user_id profile access_token (ok scopes) =
    let (token, kept) = saved-token db user_id profile access_token (some scopes) in
    elim (Bool-cases (github_token_has_repo_scope p.lower scopes)) [
      | inl granted ↦
          rw granted (
            saved-found db user_id profile access_token (some scopes),
            token,
            scopes,
            kept,
            granted,
          )
      | inr denied ↦ rw denied refl
    ]

-- A connection from a token either is refused and changes nothing, or is the one that is found for the
-- user afterwards, with this token and scopes that hold `repo`, whether there was one before or not.
pub connect_github_account_from_token-Grants :
    (p : Provider) (db : Db) (user_id : ℕ) (access_token : String) (scopes : Option String)
    → Grants p user_id access_token
        (connect_github_account_from_token p db user_id access_token scopes)
        db
unfolding connect_github_account_from_token
connect_github_account_from_token-Grants p db user_id access_token scopes = go (p.user access_token)
  where
    go :
        (a : Result Profile)
        → Grants p user_id access_token (with_user p db user_id access_token scopes a) db
    go (error e) = refl
    go (ok profile) =
        scoped-Grants p db user_id profile access_token (resolved_scopes p access_token scopes)
