-- ===== src/Accounts/Billing.antt =====
-- Plans, invoices, profiles and the deletion of an account in settings_service.py.
use omni_ai_v.Prelude.{
  ℕ, ◌+◌, ◌*◌, ◌-◌, String, Bool, true, false, ◌&&◌, not, Option, none, some, List, [], ◌∷◌, ◌++◌,
  if◌then◌else◌, ◌==◌, nat_comparable, text_comparable, is_empty, strip, lower, any,
}
use omni_ai_v.Rows.{find_first, update_where, delete_where}
use omni_ai_v.Accounts.{
  BillingInvoice, BillingSubscription, Db, Env, Result, User, completed, ensure_user_settings,
  http_exception, is_user, non_empty, ok, save_user,
}

abbrev pro_invoice : Env → ℕ → ℕ → BillingInvoice
pro_invoice env user_id months_ago = record {
  user_id = user_id;
  amount_cents = 2000;
  status = "paid";
  description = "Pro Plan - Monthly";
  invoice_date = env.now - 30 * 86400 * months_ago;
}

abbrev pub seed_pro_invoices : Env → ℕ → List BillingInvoice → List BillingInvoice
seed_pro_invoices env user_id invoices =
    invoices
    ++ pro_invoice env user_id 0 ∷ pro_invoice env user_id 1 ∷ pro_invoice env user_id 2 ∷ []

abbrev or_text : Option String → String → Option String
or_text none s = some s
or_text (some t) s = if is_empty t then some s else some t

-- The subscription after `change_billing_plan`; the route admits the plans "free" and "pro".
abbrev pub with_plan : Env → Bool → BillingSubscription → BillingSubscription
with_plan env true b = record b {
  plan = "pro";
  amount_cents = 2000;
  status = "active";
  cancel_at_period_end = false;
  payment_method_brand = or_text b.payment_method_brand "Visa";
  payment_method_last4 = or_text b.payment_method_last4 "4242";
  next_billing_date = some (env.now + 30 * 86400);
}
with_plan env false b = record b {
  plan = "free";
  amount_cents = 0;
  status = "active";
  cancel_at_period_end = false;
  payment_method_brand = none;
  payment_method_last4 = none;
  next_billing_date = none;
}

unfoldable pub change_billing_plan : Env → User → Bool → Db → Db
unfolding ensure_user_settings update_where
change_billing_plan env user to_pro db =
    let ready = ensure_user_settings env user db in
    record ready {
      subscriptions =
          update_where (λ b. b.user_id == user.id) (with_plan env to_pro) ready.subscriptions;
      invoices = if to_pro then seed_pro_invoices env user.id ready.invoices else ready.invoices;
    }

abbrev pub canceled : BillingSubscription → BillingSubscription
canceled b = record b { cancel_at_period_end = true; status = "active" }

abbrev pub cancel_found : User → Db → Option BillingSubscription → Result String × Db
cancel_found user db none = (http_exception 500 "No row was found when one was required", db)
cancel_found user db (some b) =
    if b.plan == "free" then (http_exception 400 "You are already on the free plan.", db) else (
      ok "Subscription will cancel at the end of the billing period.",
      record db {
        subscriptions = update_where (λ x. x.user_id == user.id) canceled db.subscriptions;
      },
    )

unfoldable pub cancel_subscription : Env → User → Db → Result String × Db
unfolding ensure_user_settings update_where find_first
cancel_subscription env user db =
    let ready = ensure_user_settings env user db in
    cancel_found user ready (find_first (λ b. b.user_id == user.id) ready.subscriptions)

abbrev pub without : ℕ → Db → Db
without user_id db = record db {
  sessions = delete_where (λ r. r.user_id == user_id) db.sessions;
  api_keys = delete_where (λ k. k.user_id == user_id) db.api_keys;
  webhooks = delete_where (λ w. w.user_id == user_id) db.webhooks;
  preferences = delete_where (λ p. p.user_id == user_id) db.preferences;
  invoices = delete_where (λ i. i.user_id == user_id) db.invoices;
  subscriptions = delete_where (λ b. b.user_id == user_id) db.subscriptions;
  users = delete_where (is_user user_id) db.users;
}

-- After an IntegrityError the request ends with its transaction rolled back.
unfoldable pub delete_account : Env → User → String → Db → Result String × Db
unfolding delete_where strip lower
delete_account env user confirmation db =
    if lower (strip confirmation) == "delete my account"
    then if env.is_referenced user.id
      then (http_exception 500 "IntegrityError", db)
      else (ok "Account deleted.", without user.id db)
    else (http_exception 400 "Type 'delete my account' to confirm account deletion.", db)

-- The profile without its email check: the fields that the form sends.
unfoldable pub update_profile :
    Env → User → String → String → String → String → Db → Result User × Db
unfolding ensure_user_settings update_where strip lower
update_profile env user first_name last_name email bio db =
    let ready = ensure_user_settings env user db in
    let address = lower (strip email) in
    let changed : User = record (completed user) {
      first_name = non_empty (strip first_name);
      last_name = non_empty (strip last_name);
      email = address;
      bio = non_empty (strip bio);
    } in
    if not (address == user.email)
      && any (λ u. u.email == address && not (u.id == user.id)) ready.users
    then (http_exception 409 "Email is already in use.", ready)
    else (ok changed, save_user changed ready)
