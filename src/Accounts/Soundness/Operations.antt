-- ===== src/Accounts/Soundness/Operations.antt =====
-- What the operations of backend/app/services/settings_service.py keep true of the users, webhooks and subscriptions.
use omni_ai_v.Prelude.{
  ℕ, ◌≡◌, refl, String, Bool, true, false, ◌&&◌, ◌||◌, not, Option, none, some, List, [], ◌∷◌,
  arith, ◌==◌, nat_comparable, text_comparable, is_empty, All, All-append, Bool-cases, Option-cases,
  inl, inr, if◌then◌else◌, lower, strip, any,
}
use omni_ai_v.Rows.{find_first, All-update_where, All-delete_where}
use omni_ai_v.Accounts.{
  User, UserWebhook, BillingSubscription, Db, Env, is_user, completed, save_user, or_add,
  ensure_user_settings,
}
use omni_ai_v.Accounts.Login.{revoke_session, revoke_other_sessions}
use omni_ai_v.Accounts.Credentials.{
  change_password, begin_two_factor_setup, enable_two_factor, disable_two_factor,
  regenerate_api_key, update_webhook, with_webhook, has_secret, verified, has_one,
}
use omni_ai_v.Accounts.Billing.{
  change_billing_plan, with_plan, canceled, cancel_found, cancel_subscription, delete_account,
  update_profile,
}
use omni_ai_v.Accounts.Requests.{
  Operation, read_settings, profile, password, begin_2fa, enable_2fa, disable_2fa, revoke_one,
  revoke_others, new_key, webhook, plan, cancel, delete, apply,
}

-- Two-factor authentication is on only with a secret.
abbrev pub is_guarded : User → Bool
is_guarded u = not u.totp_enabled || has_secret u.totp_secret

-- A webhook is enabled only with an address.
abbrev pub is_addressed : UserWebhook → Bool
is_addressed w = not w.enabled || not (is_empty w.url)

-- PLAN_PRICES
abbrev pub is_priced : BillingSubscription → Bool
is_priced b =
    (b.plan == "free" && b.amount_cents == 0) || (b.plan == "pro" && b.amount_cents == 2000)

pub record IsSound (db : Db) : Type 0 where
  pub guarded : All (λ u. is_guarded u ≡ true) db.users
  pub addressed : All (λ w. is_addressed w ≡ true) db.webhooks
  pub priced : All (λ b. is_priced b ≡ true) db.subscriptions

or_add-All {ℓ κ} :
    {A : Type ℓ} (P : A → Type κ) (is_own : A → Bool) (row : A) (rows : List A)
    → P row
    → All P rows
    → All P (or_add is_own row rows)
or_add-All P is_own row rows p h = elim (Bool-cases (any is_own rows)) [
  | inl e ↦ rw e h
  | inr e ↦ rw e (All-append P rows (row ∷ []) h (p, tt))
]

unless-IsSound {ℓ} :
    {A : Type ℓ} (b : Bool) (x y : A × Db)
    → IsSound x.1
    → (b ≡ false → IsSound y.1)
    → IsSound (if b then x else y).1
unless-IsSound true x y h k = h
unless-IsSound false x y h k = k refl

module _ (env : Env) (u : User) (db : Db) (own : is_guarded u ≡ true) (h : IsSound db) where
  pub saved : (u' : User) → is_guarded u' ≡ true → IsSound (save_user u' db)
  saved u' own' = record {
    guarded =
        All-update_where (λ x. is_guarded x ≡ true) (is_user u'.id) (λ x. u') db.users
          (λ x p hit. own') h.guarded;
    addressed = h.addressed;
    priced = h.priced;
  }

  pub ensured : IsSound (ensure_user_settings env u db)
  unfolding ensure_user_settings
  ensured = record {
    guarded = (saved (completed u) own).guarded;
    addressed = or_add-All (λ w. is_addressed w ≡ true) _ _ db.webhooks refl h.addressed;
    priced = or_add-All (λ b. is_priced b ≡ true) _ _ db.subscriptions refl h.priced;
  }

  update_profile-IsSound :
      (first last email bio : String) → IsSound (update_profile env u first last email bio db).1
  unfolding update_profile
  update_profile-IsSound first last email bio =
      elim (Bool-cases (
        not (lower (strip email) == u.email)
        && any (λ x. x.email == lower (strip email) && not (x.id == u.id))
            (ensure_user_settings env u db).users)) [
              | inl e ↦ rw e ensured
              | inr e ↦ rw e (record {
                guarded =
                    All-update_where (λ x. is_guarded x ≡ true) (is_user u.id) _
                      (ensure_user_settings env u db).users (λ x p hit. own) ensured.guarded;
                addressed = ensured.addressed;
                priced = ensured.priced;
              })
            ]

  change_password-IsSound :
      (current new : String) → IsSound (change_password env u current new db).1
  unfolding change_password
  change_password-IsSound current new =
      elim (Bool-cases
        (has_one u && (is_empty current || not (env.verify_password current u.password)))) [
          | inl e ↦ rw e h
          | inr e ↦ rw e (saved _ own)
        ]

  begin_two_factor_setup-IsSound : IsSound (begin_two_factor_setup env u db).1
  unfolding begin_two_factor_setup
  begin_two_factor_setup-IsSound =
      unless-IsSound u.totp_enabled _ _ h (λ off. saved _ (rw off refl))

  enable_two_factor-IsSound : (code : String) → IsSound (enable_two_factor env u code db).1
  unfolding enable_two_factor
  enable_two_factor-IsSound code = elim (Bool-cases (has_secret u.totp_secret)) [
    | inr e ↦ rw e h
    | inl e ↦ rw e (elim (Bool-cases (verified env u.totp_secret code)) [
      | inr f ↦ rw f h
      | inl f ↦ rw f (saved (record u { totp_enabled = true }) e)
    ])
  ]

  disable_two_factor-IsSound :
      (code entered : String) → IsSound (disable_two_factor env u code entered db).1
  unfolding disable_two_factor
  disable_two_factor-IsSound code entered =
      let refused =
        has_one u && (is_empty entered || not (env.verify_password entered u.password)) in
      elim (Bool-cases (not u.totp_enabled || not (has_secret u.totp_secret))) [
        | inl e ↦ rw e h
        | inr e ↦ rw e (elim (Bool-cases refused) [
          | inl f ↦ rw f h
          | inr f ↦ rw f (elim (Bool-cases (verified env u.totp_secret code)) [
            | inr g ↦ rw g h
            | inl g ↦ rw g (saved (record u { totp_enabled = false; totp_secret = none }) refl)
          ])
        ])
      ]

  revoke_session-IsSound : (id : ℕ) → IsSound (revoke_session env u id db).1
  unfolding revoke_session
  revoke_session-IsSound id =
      elim (Option-cases (find_first (λ r. r.id == id && r.user_id == u.id) db.sessions)) [
        | inl absent ↦ rw absent h
        | inr (r, found) ↦
            rw found (record { guarded = h.guarded; addressed = h.addressed; priced = h.priced })
      ]

  update_webhook-IsSound :
      (url : String) (events : List String) (enabled : Bool)
      → IsSound (update_webhook env u url events enabled db)
  unfolding update_webhook
  update_webhook-IsSound url events enabled = record {
    guarded = ensured.guarded;
    addressed =
        All-update_where (λ w. is_addressed w ≡ true) _ (with_webhook url events enabled) _
          (λ w p hit. ground arith) ensured.addressed;
    priced = ensured.priced;
  }

  with_plan-priced :
      (to_pro : Bool) (b : BillingSubscription) → is_priced (with_plan env to_pro b) ≡ true
  with_plan-priced true b = refl
  with_plan-priced false b = refl

  change_billing_plan-IsSound : (to_pro : Bool) → IsSound (change_billing_plan env u to_pro db)
  unfolding change_billing_plan
  change_billing_plan-IsSound to_pro = record {
    guarded = ensured.guarded;
    addressed = ensured.addressed;
    priced =
        All-update_where (λ b. is_priced b ≡ true) _ (with_plan env to_pro) _
          (λ b p hit. with_plan-priced to_pro b) ensured.priced;
  }

  cancel_found-IsSound :
      (o : Option BillingSubscription)
      → IsSound (cancel_found u (ensure_user_settings env u db) o).1
  cancel_found-IsSound none = ensured
  cancel_found-IsSound (some b) = elim (Bool-cases (b.plan == "free")) [
    | inl e ↦ rw e ensured
    | inr e ↦ rw e (record {
      guarded = ensured.guarded;
      addressed = ensured.addressed;
      priced =
          All-update_where (λ b. is_priced b ≡ true) _ canceled _ (λ b p hit. p) ensured.priced;
    })
  ]

  delete_account-IsSound :
      (confirmation : String) → IsSound (delete_account env u confirmation db).1
  unfolding delete_account
  delete_account-IsSound confirmation =
      elim (Bool-cases (lower (strip confirmation) == "delete my account")) [
        | inr e ↦ rw e h
        | inl e ↦ rw e (elim (Bool-cases (env.is_referenced u.id)) [
          | inl f ↦ rw f h
          | inr f ↦ rw f (record {
            guarded = All-delete_where (λ x. is_guarded x ≡ true) _ db.users h.guarded;
            addressed = All-delete_where (λ w. is_addressed w ≡ true) _ db.webhooks h.addressed;
            priced = All-delete_where (λ b. is_priced b ≡ true) _ db.subscriptions h.priced;
          })
        ])
      ]

  pub apply-IsSound : (op : Operation) → IsSound (apply env u op db)
  unfolding apply regenerate_api_key revoke_other_sessions cancel_subscription
  apply-IsSound read_settings = ensured
  apply-IsSound (profile first last email bio) = update_profile-IsSound first last email bio
  apply-IsSound (password current new) = change_password-IsSound current new
  apply-IsSound begin_2fa = begin_two_factor_setup-IsSound
  apply-IsSound (enable_2fa code) = enable_two_factor-IsSound code
  apply-IsSound (disable_2fa code entered) = disable_two_factor-IsSound code entered
  apply-IsSound (revoke_one id) = revoke_session-IsSound id
  apply-IsSound (revoke_others j) = record {
    guarded = h.guarded;
    addressed = h.addressed;
    priced = h.priced;
  }
  apply-IsSound new_key = record {
    guarded = ensured.guarded;
    addressed = ensured.addressed;
    priced = ensured.priced;
  }
  apply-IsSound (webhook url events enabled) = update_webhook-IsSound url events enabled
  apply-IsSound (plan to_pro) = change_billing_plan-IsSound to_pro
  apply-IsSound cancel =
      cancel_found-IsSound
        (find_first (λ b. b.user_id == u.id) (ensure_user_settings env u db).subscriptions)
  apply-IsSound (delete confirmation) = delete_account-IsSound confirmation
