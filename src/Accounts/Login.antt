-- ===== src/Accounts/Login.antt =====
-- The sessions of settings_service.py and get_current_user of backend/app/core/security.py.
use omni_ai_v.Prelude.{
  ℕ, ◌+◌, String, Bool, false, ◌&&◌, ◌||◌, not, Option, none, some, [], ◌∷◌, ◌++◌, if◌then◌else◌,
  ◌==◌, nat_comparable, text_comparable, is_empty, is_some, take_text, tally,
}
use omni_ai_v.Rows.{find_first, update_where}
use omni_ai_v.Accounts.{
  Db, Env, Result, User, UserSessionRecord, device_label_from_user_agent, ensure_user_settings,
  save_user, http_exception, non_empty, ok,
}

unfoldable pub register_user_session :
    Env → User → String → Option String → Option ℕ → String → Db → UserSessionRecord × Db
unfolding ensure_user_settings device_label_from_user_agent
register_user_session env user session_jti refresh_token_hash refresh_expires_at user_agent db =
    let ready = ensure_user_settings env user db in
    let row : UserSessionRecord = record {
      id = ready.next_session;
      user_id = user.id;
      session_jti = session_jti;
      refresh_token_hash = refresh_token_hash;
      refresh_expires_at = refresh_expires_at;
      device_label = device_label_from_user_agent env user_agent;
      user_agent = non_empty (take_text 500 user_agent);
      last_active_at = env.now;
      revoked_at = none;
    } in
    (
      row,
      record ready { sessions = ready.sessions ++ row ∷ []; next_session = ready.next_session + 1 },
    )

-- The profile of a provider, its name split at the first space.
pub record Profile : Type 0 where
  pub email : String
  pub username : String
  pub first_name : Option String
  pub last_name : Option String

abbrev pub is_of_profile : Profile → User → Bool
is_of_profile profile u = u.email == profile.email || u.username == profile.username

-- The row that is inserted, with the defaults of its columns.
abbrev pub new_user : Env → Profile → String → ℕ → User
new_user env profile provider id = record {
  id = id;
  username = profile.username;
  email = profile.email;
  password = env.hash_password env.fresh_secret;
  has_password = some false;
  oauth_provider = provider;
  first_name = profile.first_name;
  last_name = profile.last_name;
  bio = none;
  totp_enabled = false;
  totp_secret = none;
  password_changed_at = none;
}

abbrev pub found_or_new : Env → Profile → String → Db → Option User → User × Db
found_or_new env profile provider db (some u) =
    if is_empty u.oauth_provider
    then (
      record u { oauth_provider = provider },
      save_user (record u { oauth_provider = provider }) db,
    )
    else (u, db)
found_or_new env profile provider db none = (
  new_user env profile provider db.next_user,
  record db {
    users = db.users ++ new_user env profile provider db.next_user ∷ [];
    next_user = db.next_user + 1;
  },
)

-- `get_or_create_oauth_user` of backend/app/services/oauth_service.py.
unfoldable pub get_or_create_oauth_user : Env → Profile → String → Db → User × Db
unfolding find_first update_where
get_or_create_oauth_user env profile provider db =
    found_or_new env profile provider db (find_first (is_of_profile profile) db.users)

abbrev pub is_session : ℕ → String → UserSessionRecord → Bool
is_session user_id jti r = r.user_id == user_id && r.session_jti == jti

abbrev pub is_active : UserSessionRecord → Bool
is_active r = not (is_some r.revoked_at)

abbrev pub touch : ℕ → UserSessionRecord → UserSessionRecord
touch now r = record r { last_active_at = now }

abbrev pub touched : ℕ → Db → Option UserSessionRecord → Db
touched now db none = db
touched now db (some r) = record db {
  sessions = update_where (λ x. x.id == r.id) (touch now) db.sessions;
}

-- The query finds the first active record of the user and the token id.
unfoldable pub touch_user_session : Env → ℕ → Option String → Db → Db
unfolding find_first update_where
touch_user_session env user_id none db = db
touch_user_session env user_id (some jti) db =
    if is_empty jti
    then db
    else touched env.now db (find_first (λ r. is_session user_id jti r && is_active r) db.sessions)

-- The claims `sub` and `jti` of an access token that decodes.
pub record Claims : Type 0 where
  pub sub : Option String
  pub jti : Option String

abbrev unauthorized {ℓ} : {A : Type ℓ} → Result A
unauthorized = http_exception 401 "Could not validate credentials"

abbrev pub is_revoked : Option UserSessionRecord → Bool
is_revoked none = false
is_revoked (some r) = is_some r.revoked_at

-- Whether the token's session was revoked.
abbrev pub revoked : ℕ → Option String → Db → Bool
revoked user_id none db = false
revoked user_id (some jti) db =
    not (is_empty jti) && is_revoked (find_first (is_session user_id jti) db.sessions)

abbrev pub admitted : Env → Option String → Db → Option User → Result User × Db
admitted env jti db none = (unauthorized, db)
admitted env jti db (some user) =
    if revoked user.id jti db
    then (unauthorized, db)
    else (ok user, touch_user_session env user.id jti db)

abbrev pub named : Env → Claims → Db → Option String → Result User × Db
named env claims db none = (unauthorized, db)
named env claims db (some username) =
    admitted env claims.jti db (find_first (λ u. u.username == username) db.users)

-- The argument is what `decode_access_token` gives for the request's token, `none` for a JWTError or
-- a request without one.
unfoldable pub get_current_user : Env → Option Claims → Db → Result User × Db
unfolding touch_user_session find_first
get_current_user env none db = (unauthorized, db)
get_current_user env (some claims) db = named env claims db claims.sub

abbrev of_id : ℕ → ℕ → UserSessionRecord → Bool
of_id session_id user_id r = r.id == session_id && r.user_id == user_id

abbrev pub revoke : ℕ → UserSessionRecord → UserSessionRecord
revoke now r = record r { revoked_at = some now }

abbrev pub revoke_found : Env → Db → Option UserSessionRecord → Result String × Db
revoke_found env db none = (http_exception 404 "Session not found.", db)
revoke_found env db (some r) = (
  ok "Session revoked.",
  record db { sessions = update_where (λ x. x.id == r.id) (revoke env.now) db.sessions },
)

unfoldable pub revoke_session : Env → User → ℕ → Db → Result String × Db
unfolding find_first update_where
revoke_session env user session_id db =
    revoke_found env db (find_first (of_id session_id user.id) db.sessions)

-- The filter of the bulk update.
abbrev pub is_other : ℕ → Option String → UserSessionRecord → Bool
is_other user_id none r = r.user_id == user_id && is_active r
is_other user_id (some jti) r =
    r.user_id == user_id && is_active r && (is_empty jti || not (r.session_jti == jti))

-- How many sessions were revoked, and the tables.
unfoldable pub revoke_other_sessions : Env → User → Option String → Db → ℕ × Db
unfolding update_where
revoke_other_sessions env user current_session_jti db = (
  tally (is_other user.id current_session_jti) db.sessions,
  record db {
    sessions = update_where (is_other user.id current_session_jti) (revoke env.now) db.sessions;
  },
)
