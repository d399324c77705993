-- ===== src/Accounts/Credentials.antt =====
-- Passwords, two-factor authentication, API keys and webhooks of settings_service.py.
use Prim.Native.String.{◌++◌ as concat}
use omni_ai_v.Prelude.{
  String, Bool, true, false, ◌&&◌, ◌||◌, not, Option, none, some, List, [], ◌∷◌, ◌++◌,
  if◌then◌else◌, ◌==◌, nat_comparable, text_comparable, is_empty, strip, any, select,
}
use omni_ai_v.Rows.{update_where, delete_where}
use omni_ai_v.Accounts.{
  Db, Env, Result, User, UserWebhook, ensure_user_settings, http_exception, new_api_key, ok,
  save_user,
}

abbrev pub has_one : User → Bool
has_one user = truth user.has_password
  where
    truth : Option Bool → Bool
    truth none = false
    truth (some b) = b

unfoldable pub change_password : Env → User → String → String → Db → Result String × Db
unfolding update_where
change_password env user current_password new_password db =
    if has_one user
      && (is_empty current_password || not (env.verify_password current_password user.password))
    then (http_exception 400 "Current password is incorrect.", db)
    else (
      ok "Password updated successfully.",
      save_user
          (record user {
            password = env.hash_password new_password;
            has_password = some true;
            password_changed_at = some env.now;
          })
          db,
    )

-- The answer is the secret.
unfoldable pub begin_two_factor_setup : Env → User → Db → Result String × Db
unfolding update_where
begin_two_factor_setup env user db =
    if user.totp_enabled
    then (http_exception 400 "Two-factor authentication is already enabled.", db)
    else (ok env.fresh_secret, save_user (record user { totp_secret = some env.fresh_secret }) db)

-- `totp.verify(code.strip())` for the user's secret; `none` and "" are no secret.
abbrev pub verified : Env → Option String → String → Bool
verified env none code = false
verified env (some secret) code = env.verify_code secret (strip code)

abbrev pub has_secret : Option String → Bool
has_secret none = false
has_secret (some secret) = not (is_empty secret)

unfoldable pub enable_two_factor : Env → User → String → Db → Result String × Db
unfolding update_where strip
enable_two_factor env user code db =
    if not (has_secret user.totp_secret)
    then (http_exception 400 "Start 2FA setup before verifying a code.", db)
    else if not (verified env user.totp_secret code)
    then (http_exception 400 "Invalid authentication code.", db)
    else (
      ok "Two-factor authentication enabled.",
      save_user (record user { totp_enabled = true }) db,
    )

unfoldable pub disable_two_factor : Env → User → String → String → Db → Result String × Db
unfolding update_where strip
disable_two_factor env user code password db =
    if not user.totp_enabled || not (has_secret user.totp_secret)
    then (http_exception 400 "Two-factor authentication is not enabled.", db)
    else if has_one user && (is_empty password || not (env.verify_password password user.password))
    then (http_exception 400 "Password is required to disable 2FA.", db)
    else if not (verified env user.totp_secret code)
    then (http_exception 400 "Invalid authentication code.", db)
    else (
      ok "Two-factor authentication disabled.",
      save_user (record user { totp_enabled = false; totp_secret = none }) db,
    )

-- The answer is the raw key.
unfoldable pub regenerate_api_key : Env → User → Db → String × Db
unfolding ensure_user_settings delete_where
regenerate_api_key env user db =
    let ready = ensure_user_settings env user db in
    (
      concat "omni_" env.fresh_key,
      record ready {
        api_keys =
            delete_where (λ k. k.user_id == user.id) ready.api_keys ++ new_api_key env user ∷ [];
      },
    )

abbrev webhook_events : List String
webhook_events = "message.created" ∷ "chat.completed" ∷ "error.occurred" ∷ []

abbrev pub with_webhook : String → List String → Bool → UserWebhook → UserWebhook
with_webhook url events enabled w = record w {
  url = strip url;
  events = select (λ e. any (λ known. known == e) webhook_events) events;
  enabled = enabled && not (is_empty (strip url));
}

unfoldable pub update_webhook : Env → User → String → List String → Bool → Db → Db
unfolding ensure_user_settings update_where strip
update_webhook env user url events enabled db =
    let ready = ensure_user_settings env user db in
    record ready {
      webhooks =
          update_where (λ w. w.user_id == user.id) (with_webhook url events enabled) ready.webhooks;
    }
