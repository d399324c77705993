-- ===== src/Accounts/Sessions/Operations.antt =====
-- A revoked session, under the operations of backend/app/services/settings_service.py.
use omni_ai_v.Prelude.{
  ℕ, ◌≡◌, String, true, false, ◌&&◌, ◌||◌, not, Option, none, some, ◌==◌, nat_comparable,
  text_comparable, is_empty, Bool-cases, Option-cases, inl, inr, lower, strip, any,
}
use omni_ai_v.Rows.{find_first, update_where}
use omni_ai_v.Accounts.{
  BillingSubscription, User, Db, Env, is_user, completed, save_user, ensure_user_settings,
}
use omni_ai_v.Accounts.Login.{revoke_session}
use omni_ai_v.Accounts.Credentials.{
  change_password, begin_two_factor_setup, enable_two_factor, disable_two_factor, has_secret,
  verified, has_one,
}
use omni_ai_v.Accounts.Billing.{cancel_found, delete_account, update_profile}
use omni_ai_v.Accounts.Sessions.Locks.{
  locked_user, Locked, Locked-Grows, Locked-save, revoke-Grows, Locked-without, either,
}

module _ (who : ℕ) (jti : String) where
  module _ (env : Env) (u : User) (db : Db) (own : locked_user who jti db.sessions u ≡ true)
      (h : Locked who jti db) where
    pub saved :
        (u' : User) → locked_user who jti db.sessions u' ≡ true → Locked who jti (save_user u' db)
    saved u' own' = Locked-save who jti db.sessions u' db.users u'.id own' h

    pub ensured : Locked who jti (ensure_user_settings env u db)
    unfolding ensure_user_settings
    ensured = Locked-save who jti db.sessions (completed u) db.users u.id own h

    pub update_profile-Locked :
        (first last email bio : String)
        → Locked who jti (update_profile env u first last email bio db).1
    unfolding update_profile ensure_user_settings
    update_profile-Locked first last email bio =
        elim (Bool-cases (
          not (lower (strip email) == u.email)
          && any (λ x. x.email == lower (strip email) && not (x.id == u.id))
              (update_where (is_user u.id) (λ x. completed u) db.users))) [
                | inl e ↦ rw e ensured
                | inr e ↦ rw e (
                    Locked-save who jti db.sessions _ _ u.id own
                      (Locked-save who jti db.sessions (completed u) db.users u.id own h))
              ]

    pub change_password-Locked :
        (current new : String) → Locked who jti (change_password env u current new db).1
    unfolding change_password
    change_password-Locked current new = either who jti _ _ _ h (saved _ own)

    pub begin_two_factor_setup-Locked : Locked who jti (begin_two_factor_setup env u db).1
    unfolding begin_two_factor_setup
    begin_two_factor_setup-Locked = either who jti _ _ _ h (saved _ own)

    pub enable_two_factor-Locked :
        (code : String) → Locked who jti (enable_two_factor env u code db).1
    unfolding enable_two_factor
    enable_two_factor-Locked code = elim (Bool-cases (has_secret u.totp_secret)) [
      | inr e ↦ rw e h
      | inl e ↦ rw e (elim (Bool-cases (verified env u.totp_secret code)) [
        | inr f ↦ rw f h
        | inl f ↦ rw f (saved (record u { totp_enabled = true }) own)
      ])
    ]

    pub disable_two_factor-Locked :
        (code entered : String) → Locked who jti (disable_two_factor env u code entered db).1
    unfolding disable_two_factor
    disable_two_factor-Locked code entered =
        let refused =
          has_one u && (is_empty entered || not (env.verify_password entered u.password)) in
        elim (Bool-cases (not u.totp_enabled || not (has_secret u.totp_secret))) [
          | inl e ↦ rw e h
          | inr e ↦ rw e (elim (Bool-cases refused) [
            | inl f ↦ rw f h
            | inr f ↦ rw f (elim (Bool-cases (verified env u.totp_secret code)) [
              | inr g ↦ rw g h
              | inl g ↦ rw g (saved (record u { totp_enabled = false; totp_secret = none }) own)
            ])
          ])
        ]

    pub revoke_session-Locked : (id : ℕ) → Locked who jti (revoke_session env u id db).1
    unfolding revoke_session
    revoke_session-Locked id =
        elim (Option-cases (find_first (λ r. r.id == id && r.user_id == u.id) db.sessions)) [
          | inl absent ↦ rw absent h
          | inr (r, found) ↦ rw found (
              Locked-Grows who jti db.sessions _ db.users
                (revoke-Grows who jti (λ x. x.id == r.id) env.now db.sessions) h)
        ]

    pub cancel_found-Locked :
        (o : Option BillingSubscription)
        → Locked who jti (cancel_found u (ensure_user_settings env u db) o).1
    unfolding ensure_user_settings
    cancel_found-Locked none = ensured
    cancel_found-Locked (some b) = elim (Bool-cases (b.plan == "free")) [
      | inl e ↦ rw e ensured
      | inr e ↦ rw e ensured
    ]

    pub delete_account-Locked :
        (confirmation : String) → Locked who jti (delete_account env u confirmation db).1
    unfolding delete_account
    delete_account-Locked confirmation =
        elim (Bool-cases (lower (strip confirmation) == "delete my account")) [
          | inr e ↦ rw e h
          | inl e ↦ rw e (elim (Bool-cases (env.is_referenced u.id)) [
            | inl f ↦ rw f h
            | inr f ↦ rw f (Locked-without who jti db.sessions u db.users h)
          ])
        ]
