-- ===== src/Accounts/Refresh.antt =====
-- refresh_session and logout_session of backend/app/api/oauth_routes.py: the rotation of refresh tokens.
-- The hash of a token, the new tokens and the lifetime of a refresh token are parameters; the
-- token that is given is the one of the body or the cookie; the addresses of clients, the audit log
-- and the cookies of the answer are left out.
pub mod Rotation
use omni_ai_v.Prelude.{
  ℕ, ◌+◌, String, Bool, true, false, ◌&&◌, not, Option, none, some, if◌then◌else◌, ◌==◌,
  nat_comparable, text_comparable, is_empty, is_some, leb, take_text,
}
use omni_ai_v.Rows.{find_first, update_where}
use omni_ai_v.Accounts.{
  User, UserSessionRecord, Db, Env, Result, ok, http_exception, is_user, non_empty,
}
use omni_ai_v.Accounts.Login.{is_active, revoke}

-- `hash_refresh_token`, the id of the access token and the refresh token that are made, and
-- REFRESH_TOKEN_EXPIRE_DAYS in seconds.
pub record Tokens : Type 0 where
  pub hash : String → String
  pub next_jti : String
  pub next_refresh_token : String
  pub lifetime : ℕ

-- What the answer holds, with the claims of the access token for itself.
pub record Issued : Type 0 where
  pub sub : String
  pub jti : String
  pub refresh_token : String

abbrev pub has_hash : String → Option String → Bool
has_hash h none = false
has_hash h (some x) = x == h

abbrev pub holds : String → UserSessionRecord → Bool
holds h r = has_hash h r.refresh_token_hash

abbrev pub is_over : ℕ → Option ℕ → Bool
is_over now none = true
is_over now (some at) = leb at now

abbrev pub token_refused : Result Issued
token_refused = http_exception 401 "Refresh token is invalid or expired."

abbrev pub rotate : Env → Tokens → String → UserSessionRecord → UserSessionRecord
rotate env t user_agent r = record r {
  session_jti = t.next_jti;
  refresh_token_hash = some (t.hash t.next_refresh_token);
  refresh_expires_at = some (env.now + t.lifetime);
  last_active_at = env.now;
  user_agent = non_empty (take_text 500 user_agent);
}

-- The user of the record, without whom `record.user.username` raises.
abbrev pub rotated :
    Env → Tokens → String → Db → UserSessionRecord → Option User → Result Issued × Db
rotated env t user_agent db r none = (http_exception 500 "", db)
rotated env t user_agent db r (some user) = (
  ok (record { sub = user.username; jti = t.next_jti; refresh_token = t.next_refresh_token }),
  record db { sessions = update_where (λ x. x.id == r.id) (rotate env t user_agent) db.sessions },
)

abbrev pub with_record : Env → Tokens → String → Db → Option UserSessionRecord → Result Issued × Db
with_record env t user_agent db none = (token_refused, db)
with_record env t user_agent db (some r) =
    if is_over env.now r.refresh_expires_at
    then (token_refused, db)
    else rotated env t user_agent db r (find_first (is_user r.user_id) db.users)

unfoldable pub refresh_session : Env → Tokens → String → Option String → Db → Result Issued × Db
unfolding find_first update_where
refresh_session env t user_agent none db = (token_refused, db)
refresh_session env t user_agent (some token) db =
    if is_empty token
    then (token_refused, db)
    else with_record env t user_agent db
        (find_first (λ r. holds (t.hash token) r && is_active r) db.sessions)

abbrev pub logged_out : Env → Db → Option UserSessionRecord → Db
logged_out env db none = db
logged_out env db (some r) =
    if is_active r
    then record db { sessions = update_where (λ x. x.id == r.id) (revoke env.now) db.sessions }
    else db

unfoldable pub logout_session : Env → Tokens → Option String → Db → Db
unfolding find_first update_where
logout_session env t none db = db
logout_session env t (some token) db =
    if is_empty token then db else logged_out env db (find_first (holds (t.hash token)) db.sessions)
