-- ===== src/Accounts/Sessions.antt =====
-- Revoked sessions in backend/app/services/settings_service.py and get_current_user of
-- backend/app/core/security.py, over any requests.
pub mod Keys
pub mod Numbering
pub mod Locks
pub mod Operations
use omni_ai_v.Prelude.{
  suc, ◌≤◌, All-append, All-trivial, eq_of_beq, ℕ, ◌≡◌, refl, ap, String, Bool, true, false, ◌&&◌,
  ◌||◌, not, Option, none, some, List, [], ◌∷◌, arith, ◌==◌, nat_comparable, text_comparable,
  is_empty, is_some, All, All-imp, Bool-cases, Option-cases, inl, inr, if◌then◌else◌, beq_refl,
  lower, strip, any,
}
use omni_ai_v.Rows.{
  find_first, find_first-All, find_first_sound, any_of_found, any-eq-is_some, update_where,
  delete_where, All-update_where,
}
use omni_ai_v.Accounts.{
  BillingSubscription, User, UserSessionRecord, Db, Env, Result, ok, http_exception, is_user,
  completed, save_user, ensure_user_settings,
}
use omni_ai_v.Accounts.Login.{
  Profile, is_of_profile, get_or_create_oauth_user, Claims, is_session, is_active, is_other, revoke,
  touch, register_user_session, touch_user_session, revoked, named, get_current_user,
  revoke_session, revoke_other_sessions,
}
use omni_ai_v.Accounts.Credentials.{
  change_password, begin_two_factor_setup, enable_two_factor, disable_two_factor,
  regenerate_api_key, update_webhook, has_secret, verified, has_one,
}
use omni_ai_v.Accounts.Billing.{
  change_billing_plan, cancel_found, cancel_subscription, delete_account, update_profile,
}
use omni_ai_v.Accounts.Revocation.{
  Rows, first_revoked, revoked-append, revoked-update, revoked-delete, revoked-found,
}
use omni_ai_v.Accounts.Refresh.{Tokens, holds, refresh_session, logout_session}
use omni_ai_v.Accounts.Sessions.Keys.{found_only, rotate_revoked}
use omni_ai_v.Accounts.Sessions.Numbering.{
  HasKeys, refresh_session-cases, serve-HasKeys, revoke_session-HasKeys,
}
use omni_ai_v.Accounts.Requests.{
  Operation, read_settings, profile, password, begin_2fa, enable_2fa, disable_2fa, revoke_one,
  revoke_others, new_key, webhook, plan, cancel, delete, apply, Request, call, sign_in, refresh,
  log_out, if_admitted, signed_in, serve, serve_all,
}
use omni_ai_v.Accounts.Sessions.Locks.{
  locked_user, Locked, Grows, locked-Grows, Locked-Grows, Locked-save, revoke-Grows,
  touch_user_session-Grows, Locked-without, register_user_session-Grows, either,
}
use omni_ai_v.Accounts.Sessions.Operations.{
  saved, ensured, update_profile-Locked, change_password-Locked, begin_two_factor_setup-Locked,
  enable_two_factor-Locked, disable_two_factor-Locked, revoke_session-Locked, cancel_found-Locked,
  delete_account-Locked,
}

-- The token is refused, or accepted for a user with another key.
abbrev pub IsNotFor : ℕ → Result User → Type 0
IsNotFor who (http_exception status detail) = status ≡ 401
IsNotFor who (ok u) = (u.id == who) ≡ false

-- A refresh gives no token this id.
abbrev pub Avoids : String → Request → Type 0
Avoids jti (refresh t agent token) = (t.next_jti == jti) ≡ false
Avoids jti _ = Unit {0}

module _ (who : ℕ) (jti : String) where
  -- One operation of a user whose own row satisfies it.
  apply-Locked :
      (env : Env) (u : User) (op : Operation) (db : Db)
      → locked_user who jti db.sessions u ≡ true
      → Locked who jti db
      → Locked who jti (apply env u op db)
  unfolding apply ensure_user_settings regenerate_api_key update_webhook change_billing_plan
      revoke_other_sessions cancel_subscription
  apply-Locked env u read_settings db own h =
      Locked-save who jti db.sessions (completed u) db.users u.id own h
  apply-Locked env u (profile first last email bio) db own h =
      update_profile-Locked who jti env u db own h first last email bio
  apply-Locked env u (password current new) db own h =
      change_password-Locked who jti env u db own h current new
  apply-Locked env u begin_2fa db own h = begin_two_factor_setup-Locked who jti env u db own h
  apply-Locked env u (enable_2fa code) db own h =
      enable_two_factor-Locked who jti env u db own h code
  apply-Locked env u (disable_2fa code current) db own h =
      disable_two_factor-Locked who jti env u db own h code current
  apply-Locked env u (revoke_one id) db own h = revoke_session-Locked who jti env u db own h id
  apply-Locked env u (revoke_others j) db own h =
      Locked-Grows who jti db.sessions _ db.users
        (revoke-Grows who jti (is_other u.id j) env.now db.sessions) h
  apply-Locked env u new_key db own h =
      Locked-save who jti db.sessions (completed u) db.users u.id own h
  apply-Locked env u (webhook url events enabled) db own h =
      Locked-save who jti db.sessions (completed u) db.users u.id own h
  apply-Locked env u (plan to_pro) db own h =
      Locked-save who jti db.sessions (completed u) db.users u.id own h
  apply-Locked env u cancel db own h =
      cancel_found-Locked who jti env u db own h
        (find_first (λ b. b.user_id == u.id) (ensure_user_settings env u db).subscriptions)
  apply-Locked env u (delete confirmation) db own h =
      delete_account-Locked who jti env u db own h confirmation

  signed_in-Locked :
      (env : Env) (u : User) (j : String) (hash : Option String) (expires : Option ℕ)
      (agent : String) (db : Db)
      → locked_user who jti db.sessions u ≡ true
      → Locked who jti db
      → Locked who jti (signed_in env j hash expires agent (u, db))
  unfolding register_user_session ensure_user_settings
  signed_in-Locked env u j hash expires agent db own h =
      let grows = register_user_session-Grows who jti env u j hash expires agent db in
      Locked-Grows who jti db.sessions _ (ensure_user_settings env u db).users grows
        (Locked-save who jti db.sessions (completed u) db.users u.id own h)

  get_or_create_oauth_user-Locked :
      (env : Env) (person : Profile) (provider : String) (db : Db)
      → suc who ≤ db.next_user
      → Locked who jti db
      → (locked_user who jti
            (get_or_create_oauth_user env person provider db).1.sessions
            (get_or_create_oauth_user env person provider db).0
          ≡ true)
        × Locked who jti (get_or_create_oauth_user env person provider db).1
  unfolding get_or_create_oauth_user
  get_or_create_oauth_user-Locked env person provider db below h =
      elim (Option-cases (find_first (is_of_profile person) db.users)) [
        | inl absent ↦
            let other : (db.next_user == who) ≡ false = ground arith in
            rw absent (
              rw other refl,
              All-append (λ u. locked_user who jti db.sessions u ≡ true) db.users _ h
                  (rw other refl, tt),
            )
        | inr (u, found) ↦
            let (hit, own) =
              find_first-All (λ u. locked_user who jti db.sessions u ≡ true) (is_of_profile person)
                db.users found h in
            rw found (elim (Bool-cases (is_empty u.oauth_provider)) [
              | inr e ↦ rw e (own, h)
              | inl e ↦ rw e (own, Locked-save who jti db.sessions _ db.users u.id own h)
            ])
      ]

  get_current_user-Locked :
      (env : Env) (claims : Option Claims) (op : Operation) (db : Db)
      → Locked who jti db
      → Locked who jti (if_admitted env op (get_current_user env claims db))
  unfolding get_current_user
  get_current_user-Locked env none op db h = h
  get_current_user-Locked env (some claims) op db h = by_name claims.sub
    where
      by_name :
          (sub : Option String) → Locked who jti (if_admitted env op (named env claims db sub))
      by_name none = h
      by_name (some username) =
          elim (Option-cases (find_first (λ u. u.username == username) db.users)) [
            | inl absent ↦ rw absent h
            | inr (u, found) ↦
                let (own, locked) =
                  find_first-All (λ u. locked_user who jti db.sessions u ≡ true)
                    (λ u. u.username == username) db.users found h in
                let (grows, same) = touch_user_session-Grows who jti env u.id claims.jti db in
                let after = touch_user_session env u.id claims.jti db in
                elim (Bool-cases (revoked u.id claims.jti db)) [
                  | inl e ↦ rw (found, e) h
                  | inr e ↦
                      rw (found, e)
                        (apply-Locked env u op after
                          (locked-Grows who jti db.sessions after.sessions u grows locked)
                          (rw same
                            (Locked-Grows who jti db.sessions after.sessions db.users grows h)))
                ]
          ]

  refresh_session-Locked :
      (env : Env) (t : Tokens) (agent : String) (token : Option String) (db : Db)
      → (t.next_jti == jti) ≡ false
      → HasKeys (suc who) db
      → Locked who jti db
      → Locked who jti (refresh_session env t agent token db).1
  refresh_session-Locked env t agent token db other keys h =
      elim (refresh_session-cases env t agent token db) [
        | inl e ↦ rw e h
        | inr (r, active, q, found, e) ↦ rw e (
            Locked-Grows who jti db.sessions _ db.users
              (λ id.
                rotate_revoked env t agent id r.id jti db.sessions other
                  (found_only q db.sessions keys.0.distinct found active))
              h)
      ]

  logout_session-Locked :
      (env : Env) (t : Tokens) (token : Option String) (db : Db)
      → Locked who jti db
      → Locked who jti (logout_session env t token db)
  unfolding logout_session
  logout_session-Locked env t none db h = h
  logout_session-Locked env t (some token) db h = elim (Bool-cases (is_empty token)) [
    | inl e ↦ rw e h
    | inr e ↦ rw e (elim (Option-cases (find_first (holds (t.hash token)) db.sessions)) [
      | inl absent ↦ rw absent h
      | inr (r, found) ↦ rw found (elim (Bool-cases (is_active r)) [
        | inr f ↦ rw f h
        | inl f ↦ rw f (
            Locked-Grows who jti db.sessions _ db.users
              (revoke-Grows who jti (λ x. x.id == r.id) env.now db.sessions) h)
      ])
    ])
  ]

  serve-Locked :
      (env : Env) (r : Request) (db : Db)
      → Avoids jti r
      → HasKeys (suc who) db
      → Locked who jti db
      → Locked who jti (serve env r db)
  unfolding serve
  serve-Locked env (call claims op) db fresh keys h = get_current_user-Locked env claims op db h
  serve-Locked env (sign_in person provider j hash expires agent) db fresh keys h =
      let ready = get_or_create_oauth_user env person provider db in
      let (own, locked) = get_or_create_oauth_user-Locked env person provider db keys.1 h in
      signed_in-Locked env ready.0 j hash expires agent ready.1 own locked
  serve-Locked env (refresh t agent token) db fresh keys h =
      refresh_session-Locked env t agent token db fresh keys h
  serve-Locked env (log_out t token) db fresh keys h = logout_session-Locked env t token db h

  serve_all-Locked :
      (rs : List (Env × Request)) (db : Db)
      → All (λ x. Avoids jti x.1) rs
      → HasKeys (suc who) db
      → Locked who jti db
      → Locked who jti (serve_all rs db)
  unfolding serve_all
  serve_all-Locked [] db fresh keys h = h
  serve_all-Locked ((env, r) ∷ rest) db fresh keys h =
      serve_all-Locked rest _ fresh.1 (serve-HasKeys (suc who) env r db keys)
        (serve-Locked env r db fresh.0 keys h)

  Locked-refuses :
      (env : Env) (name : String) (db : Db)
      → is_empty jti ≡ false
      → Locked who jti db
      → IsNotFor who (get_current_user env (some (record { sub = some name; jti = some jti })) db).0
  unfolding get_current_user
  Locked-refuses env name db full h =
      elim (Option-cases (find_first (λ u. u.username == name) db.users)) [
        | inl absent ↦ rw absent refl
        | inr (u, found) ↦
            let (own, locked) =
              find_first-All (λ u. locked_user who jti db.sessions u ≡ true)
                (λ u. u.username == name) db.users found h in
            elim (Bool-cases (u.id == who)) [
              | inl same ↦
                  let gone : revoked u.id (some jti) db ≡ true = rw full (rw same at locked) in
                  rw (found, gone) refl
              | inr other ↦ elim (Bool-cases (revoked u.id (some jti) db)) [
                | inl gone ↦ rw (found, gone) refl
                | inr open_still ↦ rw (found, open_still) other
              ]
            ]
      ]

revoke_session-Locked_all :
    (env : Env) (user : User) (r : UserSessionRecord) (db : Db)
    → find_first (is_session user.id r.session_jti) db.sessions ≡ some r
    → Locked user.id r.session_jti (revoke_session env user r.id db).1
unfolding revoke_session
revoke_session-Locked_all env user r db found =
    let mine = find_first_sound (is_session user.id r.session_jti) db.sessions found in
    let its : (r.user_id == user.id) ≡ true = ground arith in
    let listed =
      any_of_found (λ x. x.id == r.id && x.user_id == user.id) (is_session user.id r.session_jti)
        db.sessions found (rw (beq_refl r.id, its) refl) in
    elim (Option-cases (find_first (λ x. x.id == r.id && x.user_id == user.id) db.sessions)) [
      | inl absent ↦
          let same = any-eq-is_some (λ x. x.id == r.id && x.user_id == user.id) db.sessions in
          absurd (cc (listed, same, ap is_some absent))
      | inr (t, hit) ↦
          let tid = find_first_sound (λ x. x.id == r.id && x.user_id == user.id) db.sessions hit in
          let same : t.id ≡ r.id = ground (arith, tid) in
          rw hit (
            All-imp db.users
              (λ u h. elim (Bool-cases (u.id == user.id)) [
                | inr e ↦ rw e refl
                | inl e ↦
                    let id : u.id ≡ user.id = eq_of_beq u.id user.id e in
                    rw (e, id)
                      (revoked-found (is_session user.id r.session_jti) (λ x. x.id == t.id) env.now
                        db.sessions (λ x. refl) found (rw same (beq_refl r.id)))
              ])
              (All-trivial db.users))
    ]

-- If the keys of sessions and users are given in order, and the session is its token id's, which no
-- refresh gives again: once a user has revoked it, the token, whatever the name in it, is not accepted
-- for that user after any requests of whomever, sign-ins, refreshes, logouts, further revocations and
-- deletions of accounts included. It is refused with 401, or accepted for a user with another key.
pub revoke_session_final :
    (env later : Env) (user : User) (r : UserSessionRecord) (db : Db) (name : String)
    (requests : List (Env × Request))
    → is_empty r.session_jti ≡ false
    → find_first (is_session user.id r.session_jti) db.sessions ≡ some r
    → HasKeys (suc user.id) db
    → All (λ x. Avoids r.session_jti x.1) requests
    → IsNotFor user.id
        (get_current_user later
          (some (record { sub = some name; jti = some r.session_jti }))
          (serve_all requests (revoke_session env user r.id db).1)).0
revoke_session_final env later user r db name requests full found keys fresh =
    let locked = revoke_session-Locked_all env user r db found in
    let after = serve_all requests (revoke_session env user r.id db).1 in
    let keyed = revoke_session-HasKeys (suc user.id) env user db keys r.id in
    Locked-refuses user.id r.session_jti later name after full
      (serve_all-Locked user.id r.session_jti requests _ fresh keyed locked)
