-- ===== src/Accounts.antt =====
-- Accounts: backend/app/services/settings_service.py with get_current_user of
-- backend/app/core/security.py, over the tables of backend/app/models/user_settings.py. Password
-- hashing, one-time codes, random texts and the clock are parameters. The row of the user that an
-- operation is called with is the one that it writes.
pub mod Login
pub mod Refresh
pub mod Credentials
pub mod Billing
pub mod Requests
pub mod Revocation
pub mod Sessions
pub mod Soundness
pub mod Deletion
mod Tests
use Prim.Native.String.{◌++◌ as concat}
use omni_ai_v.Prelude.{
  ℕ, ◌+◌, ◌*◌, ◌-◌, String, Bool, true, false, ◌&&◌, ◌||◌, not, Option, none, some, List, [], ◌∷◌,
  ◌++◌, if◌then◌else◌, ◌==◌, nat_comparable, text_comparable, is_empty, is_some, strip, lower,
  take_text, any, select, tally,
}
use omni_ai_v.Rows.{find_first, update_where, delete_where}

pub record User : Type 0 where
  pub id : ℕ
  pub username : String
  pub email : String
  pub password : String
  pub has_password : Option Bool
  pub oauth_provider : String
  pub first_name : Option String
  pub last_name : Option String
  pub bio : Option String
  pub totp_enabled : Bool
  pub totp_secret : Option String
  pub password_changed_at : Option ℕ

-- The columns of the preferences under their names.
pub record UserPreference : Type 0 where
  pub user_id : ℕ
  pub columns : String → String

pub record UserSessionRecord : Type 0 where
  pub id : ℕ
  pub user_id : ℕ
  pub session_jti : String
  pub refresh_token_hash : Option String
  pub refresh_expires_at : Option ℕ
  pub device_label : String
  pub user_agent : Option String
  pub last_active_at : ℕ
  pub revoked_at : Option ℕ

pub record UserApiKey : Type 0 where
  pub user_id : ℕ
  pub key_prefix : String
  pub key_hash : String

pub record UserWebhook : Type 0 where
  pub user_id : ℕ
  pub url : String
  pub events : List String
  pub enabled : Bool

pub record BillingSubscription : Type 0 where
  pub user_id : ℕ
  pub plan : String
  pub status : String
  pub amount_cents : ℕ
  pub next_billing_date : Option ℕ
  pub payment_method_brand : Option String
  pub payment_method_last4 : Option String
  pub cancel_at_period_end : Bool

pub record BillingInvoice : Type 0 where
  pub user_id : ℕ
  pub amount_cents : ℕ
  pub status : String
  pub description : String
  pub invoice_date : ℕ

pub record Db : Type 0 where
  pub users : List User
  pub next_user : ℕ
  pub preferences : List UserPreference
  pub sessions : List UserSessionRecord
  pub next_session : ℕ
  pub api_keys : List UserApiKey
  pub webhooks : List UserWebhook
  pub subscriptions : List BillingSubscription
  pub invoices : List BillingInvoice

-- `is_referenced` says whether rows of other tables than those of `Db` refer to a user, so that the
-- database refuses to delete the user's row.
-- `hash_password`, `verify_password`, `TOTP(secret).verify(code, valid_window=1)`, the next random
-- secret and key, the clock in seconds, the test of the user agent, and the column defaults.
pub record Env : Type 0 where
  pub hash_password : String → String
  pub verify_password : String → String → Bool
  pub verify_code : String → String → Bool
  pub fresh_secret : String
  pub fresh_key : String
  pub is_referenced : ℕ → Bool
  pub now : ℕ
  pub has_word : String → String → Bool
  pub default_columns : String → String

-- A result, or an HTTPException with its status and detail.
pub data Result {ℓ} (A : Type ℓ) : Type ℓ where
  ok : A → Result A
  http_exception : ℕ → String → Result A

unfoldable pub device_label_from_user_agent : Env → String → String
unfolding lower
device_label_from_user_agent env user_agent =
    let ua = lower user_agent in
    if env.has_word "iphone" ua
    then "iPhone"
    else if env.has_word "ipad" ua
    then "iPad"
    else if env.has_word "android" ua
    then "Android"
    else if env.has_word "mac os" ua || env.has_word "macintosh" ua
    then "Mac"
    else if env.has_word "windows" ua
    then "Windows"
    else if env.has_word "linux" ua
    then "Linux"
    else "Web browser"

abbrev pub is_user : ℕ → User → Bool
is_user user_id u = u.id == user_id

-- The row that `_create_api_key_record` inserts.
abbrev pub new_api_key : Env → User → UserApiKey
new_api_key env user = record {
  user_id = user.id;
  key_prefix = concat (take_text 12 (concat "omni_" env.fresh_key)) "...";
  key_hash = env.hash_password (concat "omni_" env.fresh_key);
}

abbrev filled : String → Option Bool → Bool
filled oauth_provider none = is_empty oauth_provider
filled oauth_provider (some b) = b

-- `user` with `has_password` filled in.
abbrev pub completed : User → User
completed user = record user { has_password = some (filled user.oauth_provider user.has_password) }

abbrev pub save_user : User → Db → Db
save_user user db = record db { users = update_where (is_user user.id) (λ u. user) db.users }

abbrev pub free_subscription : ℕ → BillingSubscription
free_subscription user_id = record {
  user_id = user_id;
  plan = "free";
  status = "active";
  amount_cents = 0;
  next_billing_date = none;
  payment_method_brand = none;
  payment_method_last4 = none;
  cancel_at_period_end = false;
}

-- Inserts the row unless the user has one.
abbrev pub or_add {ℓ} : {A : Type ℓ} → (A → Bool) → A → List A → List A
or_add is_own row rows = if any is_own rows then rows else rows ++ row ∷ []

-- The tables after the call; the user object is then `completed user`.
unfoldable pub ensure_user_settings : Env → User → Db → Db
unfolding update_where
ensure_user_settings env user db = record (save_user (completed user) db) {
  preferences =
      or_add (λ p. p.user_id == user.id)
        (record { user_id = user.id; columns = env.default_columns }) db.preferences;
  subscriptions = or_add (λ b. b.user_id == user.id) (free_subscription user.id) db.subscriptions;
  webhooks =
      or_add (λ w. w.user_id == user.id)
        (record { user_id = user.id; url = ""; events = []; enabled = false }) db.webhooks;
  api_keys = or_add (λ k. k.user_id == user.id) (new_api_key env user) db.api_keys;
}

abbrev pub non_empty : String → Option String
non_empty s = if is_empty s then none else some s
