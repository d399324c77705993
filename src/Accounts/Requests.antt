-- ===== src/Accounts/Requests.antt =====
-- Any requests to the operations of backend/app/services/settings_service.py, each behind
-- get_current_user of backend/app/core/security.py, and sign-ins, refreshes and logouts, which need
-- no access token.
use omni_ai_v.Accounts.Refresh.{Tokens, refresh_session, logout_session}
use omni_ai_v.Prelude.{ℕ, String, Bool, Option, List, [], ◌∷◌}
use omni_ai_v.Prelude.{text_comparable}
use omni_ai_v.Accounts.{User, Db, Env, Result, ok, http_exception, ensure_user_settings}
use omni_ai_v.Accounts.Login.{
  Claims, Profile, get_or_create_oauth_user, get_current_user, register_user_session,
  revoke_session, revoke_other_sessions,
}
use omni_ai_v.Accounts.Credentials.{
  change_password, begin_two_factor_setup, enable_two_factor, disable_two_factor,
  regenerate_api_key, update_webhook,
}
use omni_ai_v.Accounts.Billing.{
  change_billing_plan, cancel_subscription, delete_account, update_profile,
}

pub data Operation : Type 0 where
  read_settings : Operation
  profile : String → String → String → String → Operation
  password : String → String → Operation
  begin_2fa : Operation
  enable_2fa : String → Operation
  disable_2fa : String → String → Operation
  revoke_one : ℕ → Operation
  revoke_others : Option String → Operation
  new_key : Operation
  webhook : String → List String → Bool → Operation
  plan : Bool → Operation
  cancel : Operation
  delete : String → Operation

unfoldable pub apply : Env → User → Operation → Db → Db
unfolding ensure_user_settings revoke_session revoke_other_sessions change_password
    begin_two_factor_setup enable_two_factor disable_two_factor regenerate_api_key update_webhook
    change_billing_plan cancel_subscription delete_account update_profile
apply env u read_settings db = ensure_user_settings env u db
apply env u (profile first last email bio) db = (update_profile env u first last email bio db).1
apply env u (password current new) db = (change_password env u current new db).1
apply env u begin_2fa db = (begin_two_factor_setup env u db).1
apply env u (enable_2fa code) db = (enable_two_factor env u code db).1
apply env u (disable_2fa code current) db = (disable_two_factor env u code current db).1
apply env u (revoke_one id) db = (revoke_session env u id db).1
apply env u (revoke_others jti) db = (revoke_other_sessions env u jti db).1
apply env u new_key db = (regenerate_api_key env u db).1
apply env u (webhook url events enabled) db = update_webhook env u url events enabled db
apply env u (plan to_pro) db = change_billing_plan env u to_pro db
apply env u cancel db = (cancel_subscription env u db).1
apply env u (delete confirmation) db = (delete_account env u confirmation db).1

-- A request with its token, a sign-in with the profile of a provider, which starts a session with a
-- token id and the hash and the end of its refresh token, or a refresh or a logout with a refresh token.
pub data Request : Type 0 where
  call : Option Claims → Operation → Request
  sign_in : Profile → String → String → Option String → Option ℕ → String → Request
  refresh : Tokens → String → Option String → Request
  log_out : Tokens → Option String → Request

abbrev pub if_admitted : Env → Operation → Result User × Db → Db
if_admitted env op (http_exception status detail, db) = db
if_admitted env op (ok user, db) = apply env user op db

abbrev pub signed_in : Env → String → Option String → Option ℕ → String → User × Db → Db
signed_in env jti hash expires agent (user, db) =
    (register_user_session env user jti hash expires agent db).1

unfoldable pub serve : Env → Request → Db → Db
unfolding get_current_user apply register_user_session get_or_create_oauth_user refresh_session
    logout_session
serve env (call claims op) db = if_admitted env op (get_current_user env claims db)
serve env (sign_in person provider jti hash expires agent) db =
    signed_in env jti hash expires agent (get_or_create_oauth_user env person provider db)
serve env (refresh t agent token) db = (refresh_session env t agent token db).1
serve env (log_out t token) db = logout_session env t token db

-- The environment may differ from request to request.
unfoldable pub serve_all : List (Env × Request) → Db → Db
unfolding serve
serve_all [] db = db
serve_all ((env, r) ∷ rest) db = serve_all rest (serve env r db)
