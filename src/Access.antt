-- ===== src/Access.antt =====
-- Who may call what: backend/app/core/admin_access.py and backend/app/core/rbac.py, and in Csrf the
-- cookies and the CSRF middleware. `lower` is `str.lower`.
pub mod Csrf
pub mod Guards
mod Tests
use omni_ai_v.Prelude.{
  ℕ, suc, String, Bool, true, false, ◌&&◌, ◌||◌, not, Option, none, some, List, [], ◌∷◌, ◌++◌, map,
  if◌then◌else◌, ◌==◌, nat_comparable, text_comparable, leb, any, select, strip, split, is_empty,
}
use omni_ai_v.Rows.{find_first}

pub record AppSettings : Type 0 where
  pub environment : String
  pub enable_rbac : Bool
  pub analytics_admin_emails : String
  pub eval_admin_emails : String

pub record User : Type 0 where
  pub id : ℕ
  pub email : String

pub record UserRole : Type 0 where
  pub user_id : ℕ
  pub role : String

-- email.strip().lower() for email in raw.split(",") if email.strip()
unfoldable pub get_admin_emails : (String → String) → AppSettings → List String
unfolding strip split
get_admin_emails lower settings =
    let raw =
      if is_empty settings.analytics_admin_emails
      then settings.eval_admin_emails
      else settings.analytics_admin_emails in
    map (λ email. lower (strip email))
      (select (λ email. not (is_empty (strip email))) (split 0x2c raw))

abbrev pub is_admin_of : (String → String) → AppSettings → User → List String → Bool
is_admin_of lower settings user [] = not (settings.environment == "production")
is_admin_of lower settings user (e ∷ es) = any (λ x. x == lower (strip user.email)) (e ∷ es)

unfoldable pub user_has_admin_access : (String → String) → AppSettings → User → Bool
unfolding get_admin_emails strip
user_has_admin_access lower settings user =
    is_admin_of lower settings user (get_admin_emails lower settings)

-- ROLE_RANK.get(role, 0)
unfoldable pub role_rank : String → ℕ
role_rank role =
    if role == "viewer"
    then 1
    else if role == "editor"
    then 2
    else if role == "manager"
    then 3
    else if role == "admin"
    then 4
    else 0

abbrev pub role_or : Bool → Option UserRole → String
role_or is_admin (some record_) = record_.role
role_or is_admin none = if is_admin then "admin" else "viewer"

unfoldable pub get_user_role : (String → String) → AppSettings → List UserRole → User → String
unfolding find_first user_has_admin_access
get_user_role lower settings db user =
    role_or (user_has_admin_access lower settings user) (find_first (λ r. r.user_id == user.id) db)

abbrev pub ensured : List UserRole → User → String → Option UserRole → UserRole × List UserRole
ensured db user role (some record_) = (record_, db)
ensured db user role none =
    let new : UserRole = record { user_id = user.id; role = role } in (new, db ++ new ∷ [])

unfoldable pub ensure_user_role : List UserRole → User → String → UserRole × List UserRole
unfolding find_first
ensure_user_role db user role = ensured db user role (find_first (λ r. r.user_id == user.id) db)

unfoldable pub user_has_min_role :
    (String → String) → AppSettings → List UserRole → User → String → Bool
unfolding get_user_role role_rank
user_has_min_role lower settings db user minimum_role =
    if not settings.enable_rbac
    then true
    else if user_has_admin_access lower settings user
    then true
    else leb (role_rank minimum_role) (role_rank (get_user_role lower settings db user))

-- What a guarded route does: it goes on for the user, or answers 403 with the kind of refusal.
pub data Guard : Type 0 where
  allowed : User → Guard
  admin_required : Guard
  role_required : String → Guard

unfoldable pub require_min_role :
    (String → String) → AppSettings → List UserRole → User → String → Guard
unfolding user_has_min_role
require_min_role lower settings db user minimum_role =
    if not settings.enable_rbac
    then if user_has_admin_access lower settings user then allowed user else admin_required
    else if user_has_min_role lower settings db user minimum_role
    then allowed user
    else role_required minimum_role
