-- ===== src/Access/Tests.antt =====
-- The guards and the CSRF check on examples.
use omni_ai_v.Prelude.{
  ℕ, ◌≡◌, refl, String, Bool, true, false, Option, none, some, List, [], ◌∷◌, arith, strip, lower,
}
use omni_ai_v.Access.{
  AppSettings, User, UserRole, get_user_role, ensure_user_role, require_min_role, user_has_min_role,
  user_has_admin_access, role_rank,
}
use omni_ai_v.Access
use omni_ai_v.Prelude
use omni_ai_v.Access.Csrf.{Request, has_bearer, dispatch, validate_csrf}

abbrev settings : AppSettings
settings = record {
  environment = "production";
  enable_rbac = true;
  analytics_admin_emails = " Ann@omni.ai, ";
  eval_admin_emails = "";
}

abbrev bob : User
bob = record { id = 2; email = "bob@omni.ai" }

abbrev roles : List UserRole
roles = record { user_id = 2; role = "manager" } ∷ []

ann_run : user_has_admin_access lower settings (record { id = 1; email = "ann@omni.ai" }) ≡ true
unfolding user_has_admin_access Access.get_admin_emails strip lower Prelude.split
ann_run = refl

abbrev post : String → Request
post authorization = record {
  method = "POST";
  path = "/folders";
  authorization = authorization;
  access_cookie = some "token";
  csrf_cookie = some "a";
  csrf_header = some "b";
}

-- The tokens differ; they agree; they agree and are not ASCII, so that the comparison raises.
csrf_run :
    (dispatch (λ s. true) (post "") ≡ some false)
    × (dispatch (λ s. true) (record (post "") { csrf_header = some "a" }) ≡ some true)
    × (dispatch (λ s. false) (record (post "") { csrf_header = some "a" }) ≡ none)
unfolding dispatch validate_csrf has_bearer strip lower
csrf_run = (refl, refl, refl)
