-- ===== src/Accounts/Sessions/Numbering.antt =====
-- The keys of the sessions under the requests to backend/app/services/settings_service.py and
-- backend/app/api/oauth_routes.py.
use omni_ai_v.Prelude.{
  lower, strip, ℕ, ◌≤◌, ◌≡◌, refl, String, Bool, true, false, ◌&&◌, ◌||◌, not, Option, none, some,
  arith, ◌==◌, nat_comparable, text_comparable, is_empty, Bool-cases, Option-cases, inl, inr,
  if◌then◌else◌, ◌⊎◌,
}
use omni_ai_v.Rows.{find_first, find_first_sound, update_where}
use omni_ai_v.Accounts.{
  BillingSubscription, User, UserSessionRecord, Db, Env, is_user, ensure_user_settings,
}
use omni_ai_v.Accounts.Login.{
  Claims, Profile, is_of_profile, get_or_create_oauth_user, is_session, is_active, is_other, revoke,
  touch, register_user_session, touch_user_session, revoked, named, get_current_user,
  revoke_session, revoke_other_sessions,
}
use omni_ai_v.Accounts.Credentials.{
  change_password, begin_two_factor_setup, enable_two_factor, disable_two_factor,
  regenerate_api_key, update_webhook, has_secret, verified, has_one,
}
use omni_ai_v.Accounts.Billing.{
  change_billing_plan, cancel_found, cancel_subscription, delete_account, update_profile,
}
use omni_ai_v.Accounts.Refresh.{Tokens, holds, is_over, refresh_session, logout_session, rotate}
use omni_ai_v.Accounts.Requests.{
  Operation, read_settings, profile, password, begin_2fa, enable_2fa, disable_2fa, revoke_one,
  revoke_others, new_key, webhook, plan, cancel, delete, apply, Request, call, sign_in, refresh,
  log_out, if_admitted, serve,
}
use omni_ai_v.Accounts.Sessions.Keys.{IsKeyed, update-IsKeyed, delete-IsKeyed, append-IsKeyed}

-- What a refresh writes, if anything: the rotation of an active session.
abbrev IsRotation : Env → Tokens → String → Db → Db → Type 0
IsRotation env t agent db after =
    (r : UserSessionRecord) × (is_active r ≡ true)
    × (q : UserSessionRecord → Bool) × (find_first q db.sessions ≡ some r)
    × (after ≡ record db {
      sessions = update_where (λ x. x.id == r.id) (rotate env t agent) db.sessions;
    })

pub refresh_session-cases :
    (env : Env) (t : Tokens) (agent : String) (token : Option String) (db : Db)
    → ((refresh_session env t agent token db).1 ≡ db)
      ⊎ IsRotation env t agent db (refresh_session env t agent token db).1
unfolding refresh_session
refresh_session-cases env t agent none db = inl refl
refresh_session-cases env t agent (some token) db =
    let q = λ (r : UserSessionRecord). holds (t.hash token) r && is_active r in
    elim (Bool-cases (is_empty token)) [
      | inl e ↦ rw e (inl refl)
      | inr e ↦ rw e (elim (Option-cases (find_first q db.sessions)) [
        | inl absent ↦ rw absent (inl refl)
        | inr (r, found) ↦
            let active : is_active r ≡ true =
              (let usable = find_first_sound q db.sessions found in ground arith) in
            rw found (elim (Bool-cases (is_over env.now r.refresh_expires_at)) [
              | inl f ↦ rw f (inl refl)
              | inr f ↦ rw f (elim (Option-cases (find_first (is_user r.user_id) db.users)) [
                | inl g ↦ rw g (inl refl)
                | inr (u, g) ↦ rw g (inr (r, active, q, found, refl))
              ])
            ])
      ])
    ]

module _ (n : ℕ) where
  -- The keys of sessions are given in order, and those of users too, from `n` on.
  abbrev pub HasKeys : Db → Type 0
  HasKeys db = IsKeyed db.next_session db.sessions × (n ≤ db.next_user)

  logout_session-HasKeys :
      (env : Env) (t : Tokens) (token : Option String) (db : Db)
      → HasKeys db
      → HasKeys (logout_session env t token db)
  unfolding logout_session
  logout_session-HasKeys env t none db h = h
  logout_session-HasKeys env t (some token) db h = elim (Bool-cases (is_empty token)) [
    | inl e ↦ rw e h
    | inr e ↦ rw e (elim (Option-cases (find_first (holds (t.hash token)) db.sessions)) [
      | inl absent ↦ rw absent h
      | inr (r, found) ↦ rw found (elim (Bool-cases (is_active r)) [
        | inr f ↦ rw f h
        | inl f ↦ rw f (
            (
              update-IsKeyed (λ x. x.id == r.id) (revoke env.now) (λ x. refl) db.next_session
                  db.sessions h.0,
              h.1,
            ))
      ])
    ])
  ]

  either {ℓ} :
      {A : Type ℓ} (b : Bool) (x y : A × Db)
      → HasKeys x.1
      → HasKeys y.1
      → HasKeys (if b then x else y).1
  either true x y h k = h
  either false x y h k = k

  touch_user_session-HasKeys :
      (env : Env) (user_id : ℕ) (j : Option String) (db : Db)
      → HasKeys db
      → HasKeys (touch_user_session env user_id j db)
  unfolding touch_user_session
  touch_user_session-HasKeys env user_id none db h = h
  touch_user_session-HasKeys env user_id (some j) db h = elim (Bool-cases (is_empty j)) [
    | inl e ↦ rw e h
    | inr e ↦
        rw e
          (elim (Option-cases
            (find_first (λ r. is_session user_id j r && is_active r) db.sessions)) [
              | inl absent ↦ rw absent h
              | inr (r, found) ↦ rw found (
                  (
                    update-IsKeyed (λ x. x.id == r.id) (touch env.now) (λ x. refl) db.next_session
                        db.sessions h.0,
                    h.1,
                  ))
            ])
  ]

  module _ (env : Env) (u : User) (db : Db) (h : HasKeys db) where
    update_profile-HasKeys :
        (first last email bio : String) → HasKeys (update_profile env u first last email bio db).1
    unfolding update_profile ensure_user_settings
    update_profile-HasKeys first last email bio = either _ _ _ h h

    enable_two_factor-HasKeys : (code : String) → HasKeys (enable_two_factor env u code db).1
    unfolding enable_two_factor
    enable_two_factor-HasKeys code = elim (Bool-cases (has_secret u.totp_secret)) [
      | inr e ↦ rw e h
      | inl e ↦
          rw e (elim (Bool-cases (verified env u.totp_secret code)) [
            | inr f ↦ rw f h
            | inl f ↦ rw f h
          ])
    ]

    disable_two_factor-HasKeys :
        (code entered : String) → HasKeys (disable_two_factor env u code entered db).1
    unfolding disable_two_factor
    disable_two_factor-HasKeys code entered =
        let wrong =
          has_one u && (is_empty entered || not (env.verify_password entered u.password)) in
        elim (Bool-cases (not u.totp_enabled || not (has_secret u.totp_secret))) [
          | inl e ↦ rw e h
          | inr e ↦ rw e (elim (Bool-cases wrong) [
            | inl f ↦ rw f h
            | inr f ↦ rw f (elim (Bool-cases (verified env u.totp_secret code)) [
              | inr g ↦ rw g h
              | inl g ↦ rw g h
            ])
          ])
        ]

    pub revoke_session-HasKeys : (id : ℕ) → HasKeys (revoke_session env u id db).1
    unfolding revoke_session
    revoke_session-HasKeys id =
        elim (Option-cases (find_first (λ r. r.id == id && r.user_id == u.id) db.sessions)) [
          | inl absent ↦ rw absent h
          | inr (r, found) ↦ rw found (
              (
                update-IsKeyed (λ x. x.id == r.id) (revoke env.now) (λ x. refl) db.next_session
                    db.sessions h.0,
                h.1,
              ))
        ]

    cancel_found-HasKeys :
        (o : Option BillingSubscription)
        → HasKeys (cancel_found u (ensure_user_settings env u db) o).1
    unfolding ensure_user_settings
    cancel_found-HasKeys none = h
    cancel_found-HasKeys (some b) = either _ _ _ h h

    delete_account-HasKeys :
        (confirmation : String) → HasKeys (delete_account env u confirmation db).1
    unfolding delete_account
    delete_account-HasKeys confirmation =
        elim (Bool-cases (lower (strip confirmation) == "delete my account")) [
          | inr e ↦ rw e h
          | inl e ↦ rw e (elim (Bool-cases (env.is_referenced u.id)) [
            | inl f ↦ rw f h
            | inr f ↦
                rw f (delete-IsKeyed (λ r. r.user_id == u.id) db.next_session db.sessions h.0, h.1)
          ])
        ]

    apply-HasKeys : (op : Operation) → HasKeys (apply env u op db)
    unfolding apply ensure_user_settings change_password begin_two_factor_setup regenerate_api_key
        update_webhook change_billing_plan revoke_other_sessions cancel_subscription delete_account
    apply-HasKeys read_settings = h
    apply-HasKeys (profile first last email bio) = update_profile-HasKeys first last email bio
    apply-HasKeys (password current new) = either _ _ _ h h
    apply-HasKeys begin_2fa = either _ _ _ h h
    apply-HasKeys (enable_2fa code) = enable_two_factor-HasKeys code
    apply-HasKeys (disable_2fa code current) = disable_two_factor-HasKeys code current
    apply-HasKeys (revoke_one id) = revoke_session-HasKeys id
    apply-HasKeys (revoke_others j) = (
      update-IsKeyed (is_other u.id j) (revoke env.now) (λ x. refl) db.next_session db.sessions h.0,
      h.1,
    )
    apply-HasKeys new_key = h
    apply-HasKeys (webhook url events enabled) = h
    apply-HasKeys (plan to_pro) = h
    apply-HasKeys cancel =
        cancel_found-HasKeys
          (find_first (λ b. b.user_id == u.id) (ensure_user_settings env u db).subscriptions)
    apply-HasKeys (delete confirmation) = delete_account-HasKeys confirmation

  get_current_user-HasKeys :
      (env : Env) (claims : Option Claims) (op : Operation) (db : Db)
      → HasKeys db
      → HasKeys (if_admitted env op (get_current_user env claims db))
  unfolding get_current_user
  get_current_user-HasKeys env none op db h = h
  get_current_user-HasKeys env (some claims) op db h = by_name claims.sub
    where
      by_name : (sub : Option String) → HasKeys (if_admitted env op (named env claims db sub))
      by_name none = h
      by_name (some username) =
          elim (Option-cases (find_first (λ u. u.username == username) db.users)) [
            | inl absent ↦ rw absent h
            | inr (u, found) ↦ elim (Bool-cases (revoked u.id claims.jti db)) [
              | inl e ↦ rw (found, e) h
              | inr e ↦
                  rw (found, e)
                    (apply-HasKeys env u (touch_user_session env u.id claims.jti db)
                      (touch_user_session-HasKeys env u.id claims.jti db h) op)
            ]
          ]

  refresh_session-HasKeys :
      (env : Env) (t : Tokens) (agent : String) (token : Option String) (db : Db)
      → HasKeys db
      → HasKeys (refresh_session env t agent token db).1
  refresh_session-HasKeys env t agent token db h =
      elim (refresh_session-cases env t agent token db) [
        | inl e ↦ rw e h
        | inr (r, active, q, found, e) ↦ rw e (
            (
              update-IsKeyed (λ x. x.id == r.id) (rotate env t agent) (λ x. refl) db.next_session
                  db.sessions h.0,
              h.1,
            ))
      ]

  get_or_create_oauth_user-HasKeys :
      (env : Env) (person : Profile) (provider : String) (db : Db)
      → HasKeys db
      → HasKeys (get_or_create_oauth_user env person provider db).1
  unfolding get_or_create_oauth_user
  get_or_create_oauth_user-HasKeys env person provider db h =
      elim (Option-cases (find_first (is_of_profile person) db.users)) [
        | inl absent ↦ rw absent (h.0, omega (arith, h.1))
        | inr (u, found) ↦
            rw found
              (elim (Bool-cases (is_empty u.oauth_provider)) [ inl e ↦ rw e h | inr e ↦ rw e h ])
      ]

  pub serve-HasKeys : (env : Env) (r : Request) (db : Db) → HasKeys db → HasKeys (serve env r db)
  unfolding serve register_user_session ensure_user_settings
  serve-HasKeys env (call claims op) db h = get_current_user-HasKeys env claims op db h
  serve-HasKeys env (sign_in person provider j hash expires agent) db h =
      let ready = get_or_create_oauth_user env person provider db in
      let keys = get_or_create_oauth_user-HasKeys env person provider db h in
      (append-IsKeyed ready.1.sessions _ keys.0, keys.1)
  serve-HasKeys env (refresh t agent token) db h = refresh_session-HasKeys env t agent token db h
  serve-HasKeys env (log_out t token) db h = logout_session-HasKeys env t token db h
