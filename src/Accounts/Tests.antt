-- ===== src/Accounts/Tests.antt =====
-- Two users with one session each.
use omni_ai_v.Prelude.{
  ℕ, ◌≡◌, ◌≢◌, refl, String, Bool, true, false, Option, none, some, List, [], ◌∷◌, arith, ◌==◌,
  text_comparable, strip, lower,
}
use omni_ai_v.Prelude
use omni_ai_v.Rows
use omni_ai_v.Accounts.{Result, User, UserSessionRecord, Db, Env, ok, http_exception}
use omni_ai_v.Accounts.Login.{Claims, Profile, get_current_user, revoke_session}
use omni_ai_v.Accounts.Refresh.{Tokens, Issued, token_refused, refresh_session, logout_session}
use omni_ai_v.Accounts.Refresh.Rotation.{next_tokens, refresh_session_rotates}
use omni_ai_v.Accounts.Billing.{delete_account}
use omni_ai_v.Accounts
use omni_ai_v.Accounts.Billing
use omni_ai_v.Accounts.Requests
use omni_ai_v.Accounts.Login
use omni_ai_v.Accounts.Requests.{
  delete, Request, call, sign_in, refresh, log_out, plan, begin_2fa, revoke_others, serve_all,
}
use omni_ai_v.Accounts.Sessions.{IsNotFor, revoke_session_final}
use omni_ai_v.Accounts.Soundness.{serve_all-IsSound}
use omni_ai_v.Accounts.Soundness.Operations.{IsSound}

abbrev env : Env
env = record {
  hash_password = λ s. s;
  verify_password = λ s t. s == t;
  verify_code = λ secret code. secret == code;
  fresh_secret = "JBSWY3DP";
  fresh_key = "k3y";
  is_referenced = λ id. false;
  now = 100;
  has_word = λ word s. word == s;
  default_columns = λ name. "";
}

abbrev user : ℕ → String → User
user id name = record {
  id = id;
  username = name;
  email = name;
  password = "secret";
  has_password = some true;
  oauth_provider = "";
  first_name = none;
  last_name = none;
  bio = none;
  totp_enabled = false;
  totp_secret = none;
  password_changed_at = none;
}

abbrev session : ℕ → ℕ → String → UserSessionRecord
session id user_id jti = record {
  id = id;
  user_id = user_id;
  session_jti = jti;
  refresh_token_hash = none;
  refresh_expires_at = none;
  device_label = "Mac";
  user_agent = none;
  last_active_at = 90;
  revoked_at = none;
}

abbrev db : Db
db = record {
  users = user 1 "ann" ∷ user 2 "bob" ∷ [];
  next_user = 3;
  preferences = [];
  sessions = session 5 1 "j1" ∷ session 6 2 "j2" ∷ [];
  next_session = 7;
  api_keys = [];
  webhooks = [];
  subscriptions = [];
  invoices = [];
}

abbrev token : String → String → Option Claims
token name jti = some (record { sub = some name; jti = some jti })

admitted_run : (get_current_user env (token "ann" "j1") db).0 ≡ ok (user 1 "ann")
unfolding get_current_user Rows.find_first
admitted_run = refl

abbrev tokens : Tokens
tokens = record { hash = λ s. s; next_jti = "j9"; next_refresh_token = "r9"; lifetime = 50 }

abbrev ann : Profile
ann = record { email = "ann"; username = "ann"; first_name = none; last_name = none }

abbrev requests : List (Env × Request)
requests =
    (env, call (token "bob" "j2") (plan true))
    ∷ (env, sign_in ann "github" "j3" (some "r3") (some 500) "")
    ∷ (env, call (token "ann" "j3") begin_2fa)
    ∷ (env, refresh tokens "" (some "r3"))
    ∷ (env, call (token "ann" "j9") (revoke_others (some "j9")))
    ∷ (env, log_out tokens (some "r9"))
    ∷ []

revoke_session_final_example :
    IsNotFor 1
      (get_current_user env
        (token "ann" "j1")
        (serve_all requests (revoke_session env (user 1 "ann") 5 db).1)).0
unfolding Rows.find_first
revoke_session_final_example =
    revoke_session_final env env (user 1 "ann") (session 5 1 "j1") db "ann" requests refl refl
      (record { below = (refl, (refl, tt)); distinct = ((refl, tt), (tt, tt)) }, omega arith)
      (tt, (tt, (tt, (refl, (tt, (tt, tt))))))

abbrev key_of : Result User → ℕ
key_of (ok u) = u.id
key_of (http_exception status detail) = 0

-- The user revokes a session, deletes the account and signs in again: the new account is given to the
-- token that was revoked.
reborn_run :
    key_of
      (get_current_user env (token "ann" "j1") (
        serve_all
          ((env, call (token "ann" "j4") (delete "delete my account"))
            ∷ (env, sign_in ann "github" "j3" none none "")
            ∷ [])
          (revoke_session env
            (user 1 "ann")
            5
            (record db { sessions = session 5 1 "j1" ∷ session 8 1 "j4" ∷ [] })).1)).0
    ≡ 3
unfolding Rows.find_first Rows.update_where Rows.delete_where Requests.serve_all Requests.serve
    Requests.apply Billing.delete_account get_current_user revoke_session
    Login.get_or_create_oauth_user Login.touch_user_session Login.register_user_session
    Accounts.ensure_user_settings Accounts.device_label_from_user_agent strip lower Prelude.lstrip
    Prelude.rstrip Prelude.is_space
reborn_run = refl

serve_all-IsSound_example : IsSound (serve_all requests db)
serve_all-IsSound_example =
    serve_all-IsSound requests db
      (record { guarded = (refl, (refl, tt)); addressed = tt; priced = tt })

abbrev refreshable : Db
refreshable = record db {
  sessions =
      record (session 5 1 "j1") { refresh_token_hash = some "r1"; refresh_expires_at = some 120 }
      ∷ session 6 2 "j2"
      ∷ [];
}

abbrev later : Env
later = record env { now = 140 }

abbrev answer : Issued
answer = record { sub = "ann"; jti = "j9"; refresh_token = "r9" }

refresh_session_rotates_example :
    (refresh_session later
        (next_tokens tokens "j10" "r10")
        ""
        (some "r1")
        (refresh_session env tokens "" (some "r1") refreshable).1
      ≡ (token_refused, (refresh_session env tokens "" (some "r1") refreshable).1))
    × ((refresh_session later
          (next_tokens tokens "j10" "r10")
          ""
          (some "r9")
          (refresh_session env tokens "" (some "r1") refreshable).1).0
        ≡ ok (record { sub = "ann"; jti = "j10"; refresh_token = "r10" }))
unfolding refresh_session Rows.find_first
refresh_session_rotates_example =
    refresh_session_rotates env later tokens "" "r1" refreshable 5 answer "" "j10" "r10"
      (refl, (refl, tt)) (refl, (refl, tt)) refl refl

-- A session that was refreshed is revoked, and its first access token still passes.
abbrev revoked_after_refresh : Db
revoked_after_refresh =
    (revoke_session env (user 1 "ann") 5
      (refresh_session env tokens "" (some "r1") refreshable).1).1

first_token_run :
    (get_current_user env (token "ann" "j1") revoked_after_refresh).0 ≡ ok (user 1 "ann")
unfolding refresh_session revoke_session get_current_user Rows.find_first Rows.update_where
first_token_run = refl

next_token_run :
    (get_current_user env (token "ann" "j9") revoked_after_refresh).0
    ≡ http_exception 401 "Could not validate credentials"
unfolding refresh_session revoke_session get_current_user Rows.find_first Rows.update_where
next_token_run = refl

logout_run :
    (refresh_session env tokens ""
      (some "r1")
      (logout_session env tokens (some "r1") refreshable)).0
    ≡ token_refused
unfolding refresh_session logout_session Rows.find_first Rows.update_where
logout_run = refl
