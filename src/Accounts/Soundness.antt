-- ===== src/Accounts/Soundness.antt =====
-- What backend/app/services/settings_service.py keeps true of the users, webhooks and subscriptions,
-- over any requests.
pub mod Operations
use omni_ai_v.Prelude.{
  ℕ, ◌≡◌, refl, String, Bool, true, false, ◌&&◌, ◌||◌, not, Option, none, some, List, [], ◌∷◌,
  arith, ◌==◌, nat_comparable, text_comparable, is_empty, All, All-append, Bool-cases, Option-cases,
  inl, inr, if◌then◌else◌, lower, strip, any,
}
use omni_ai_v.Rows.{find_first, find_first-All, All-update_where, All-delete_where}
use omni_ai_v.Accounts.{
  User, UserWebhook, BillingSubscription, Db, Env, is_user, completed, save_user, or_add,
  ensure_user_settings,
}
use omni_ai_v.Accounts.Login.{
  Profile, is_of_profile, get_or_create_oauth_user, Claims, register_user_session,
  touch_user_session, revoked, named, get_current_user, is_active, is_session, revoke_session,
  revoke_other_sessions,
}
use omni_ai_v.Accounts.Credentials.{
  change_password, begin_two_factor_setup, enable_two_factor, disable_two_factor,
  regenerate_api_key, update_webhook, with_webhook, has_secret, verified, has_one,
}
use omni_ai_v.Accounts.Billing.{
  change_billing_plan, with_plan, canceled, cancel_found, cancel_subscription, delete_account,
  update_profile,
}
use omni_ai_v.Accounts.Refresh.{Tokens, holds, refresh_session, logout_session}
use omni_ai_v.Accounts.Sessions.Numbering.{refresh_session-cases}
use omni_ai_v.Accounts.Requests.{
  Operation, read_settings, profile, password, begin_2fa, enable_2fa, disable_2fa, revoke_one,
  revoke_others, new_key, webhook, plan, cancel, delete, apply, Request, call, sign_in, refresh,
  log_out, if_admitted, serve, serve_all,
}
use omni_ai_v.Accounts.Soundness.Operations.{saved, is_guarded, IsSound, ensured, apply-IsSound}

touch_user_session-IsSound :
    (env : Env) (user_id : ℕ) (j : Option String) (db : Db)
    → IsSound db
    → IsSound (touch_user_session env user_id j db)
unfolding touch_user_session
touch_user_session-IsSound env user_id none db h = h
touch_user_session-IsSound env user_id (some j) db h = elim (Bool-cases (is_empty j)) [
  | inl e ↦ rw e h
  | inr e ↦
      rw e
        (elim (Option-cases (find_first (λ r. is_session user_id j r && is_active r) db.sessions)) [
          | inl absent ↦ rw absent h
          | inr (r, found) ↦
              rw found (record { guarded = h.guarded; addressed = h.addressed; priced = h.priced })
        ])
]

get_current_user-IsSound :
    (env : Env) (claims : Option Claims) (op : Operation) (db : Db)
    → IsSound db
    → IsSound (if_admitted env op (get_current_user env claims db))
unfolding get_current_user
get_current_user-IsSound env none op db h = h
get_current_user-IsSound env (some claims) op db h = by_name claims.sub
  where
    by_name : (sub : Option String) → IsSound (if_admitted env op (named env claims db sub))
    by_name none = h
    by_name (some username) =
        elim (Option-cases (find_first (λ u. u.username == username) db.users)) [
          | inl absent ↦ rw absent h
          | inr (u, found) ↦
              let own =
                find_first-All (λ u. is_guarded u ≡ true) (λ u. u.username == username) db.users
                  found h.guarded in
              elim (Bool-cases (revoked u.id claims.jti db)) [
                | inl e ↦ rw (found, e) h
                | inr e ↦
                    rw (found, e)
                      (apply-IsSound env u (touch_user_session env u.id claims.jti db) own.1
                        (touch_user_session-IsSound env u.id claims.jti db h) op)
              ]
        ]

refresh_session-IsSound :
    (env : Env) (t : Tokens) (agent : String) (token : Option String) (db : Db)
    → IsSound db
    → IsSound (refresh_session env t agent token db).1
refresh_session-IsSound env t agent token db h = elim (refresh_session-cases env t agent token db) [
  | inl e ↦ rw e h
  | inr (r, active, q, found, e) ↦
      rw e (record { guarded = h.guarded; addressed = h.addressed; priced = h.priced })
]

logout_session-IsSound :
    (env : Env) (t : Tokens) (token : Option String) (db : Db)
    → IsSound db
    → IsSound (logout_session env t token db)
unfolding logout_session
logout_session-IsSound env t none db h = h
logout_session-IsSound env t (some token) db h = elim (Bool-cases (is_empty token)) [
  | inl e ↦ rw e h
  | inr e ↦ rw e (elim (Option-cases (find_first (holds (t.hash token)) db.sessions)) [
    | inl absent ↦ rw absent h
    | inr (r, found) ↦ rw found (elim (Bool-cases (is_active r)) [
      | inr f ↦ rw f h
      | inl f ↦ rw f (record { guarded = h.guarded; addressed = h.addressed; priced = h.priced })
    ])
  ])
]

get_or_create_oauth_user-IsSound :
    (env : Env) (person : Profile) (provider : String) (db : Db)
    → IsSound db
    → (is_guarded (get_or_create_oauth_user env person provider db).0 ≡ true)
      × IsSound (get_or_create_oauth_user env person provider db).1
unfolding get_or_create_oauth_user
get_or_create_oauth_user-IsSound env person provider db h =
    elim (Option-cases (find_first (is_of_profile person) db.users)) [
      | inl absent ↦ rw absent (
        refl,
        record {
          guarded = All-append (λ u. is_guarded u ≡ true) db.users _ h.guarded (refl, tt);
          addressed = h.addressed;
          priced = h.priced;
        },
      )
      | inr (u, found) ↦
          let (hit, own) =
            find_first-All (λ u. is_guarded u ≡ true) (is_of_profile person) db.users found
              h.guarded in
          rw found (elim (Bool-cases (is_empty u.oauth_provider)) [
            | inr e ↦ rw e (own, h)
            | inl e ↦ rw e (own, saved env u db own h (record u { oauth_provider = provider }) own)
          ])
    ]

serve-IsSound : (env : Env) (r : Request) (db : Db) → IsSound db → IsSound (serve env r db)
unfolding serve register_user_session
serve-IsSound env (call claims op) db h = get_current_user-IsSound env claims op db h
serve-IsSound env (sign_in person provider j hash expires agent) db h =
    let (own, sound) = get_or_create_oauth_user-IsSound env person provider db h in
    let (user, known) = get_or_create_oauth_user env person provider db in
    let ready = ensured env user known own sound in
    record { guarded = ready.guarded; addressed = ready.addressed; priced = ready.priced }
serve-IsSound env (refresh t agent token) db h = refresh_session-IsSound env t agent token db h
serve-IsSound env (log_out t token) db h = logout_session-IsSound env t token db h

-- After any requests, if it held before: two-factor authentication is on only with a secret, a webhook
-- is enabled only with an address, and each subscription has the price of its plan.
pub serve_all-IsSound :
    (requests : List (Env × Request)) (db : Db) → IsSound db → IsSound (serve_all requests db)
unfolding serve_all
serve_all-IsSound [] db h = h
serve_all-IsSound ((env, r) ∷ rest) db h = serve_all-IsSound rest _ (serve-IsSound env r db h)
