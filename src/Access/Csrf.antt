-- ===== src/Access/Csrf.antt =====
-- backend/app/middleware/csrf.py with validate_csrf and get_access_token_from_request of
-- backend/app/core/cookie_auth.py. An empty cookie or header is the same as none where the source
-- tests it for truth.
use text.Mathlib.Text.{starts_with}
use omni_ai_v.Prelude.{
  String, Bool, true, false, ◌&&◌, ◌||◌, not, Option, none, some, List, [], ◌∷◌, if◌then◌else◌,
  ◌==◌, text_comparable, any, is_empty, strip, lower, drop_text, is_some,
}

-- What the middleware reads of a request; the authorization header is an ASCII text.
pub record Request : Type 0 where
  pub method : String
  pub path : String
  pub authorization : String
  pub access_cookie : Option String
  pub csrf_cookie : Option String
  pub csrf_header : Option String

abbrev safe_prefixes : List String
safe_prefixes =
    "/auth/github" ∷ "/auth/google" ∷ "/auth/refresh" ∷ "/auth/logout" ∷ "/health" ∷ "/docs"
    ∷ "/openapi.json" ∷ "/redoc" ∷ []

abbrev pub is_safe_method : String → Bool
is_safe_method method = any (λ m. m == method) ("GET" ∷ "HEAD" ∷ "OPTIONS" ∷ [])

abbrev pub is_safe_path : String → Bool
is_safe_path path = any (λ prefix. starts_with path prefix) safe_prefixes

unfoldable pub has_bearer : Request → Bool
unfolding strip lower
has_bearer request = starts_with (lower (strip request.authorization)) "bearer "

-- Whether the two tokens agree; `compare_digest` raises a TypeError for texts that are not ASCII.
abbrev pub same_token : (String → Bool) → Option String → Option String → Option Bool
same_token is_ascii none header = some false
same_token is_ascii (some cookie) none = some false
same_token is_ascii (some cookie) (some header) =
    if is_empty cookie || is_empty header
    then some false
    else if is_ascii cookie && is_ascii header
    then some (cookie == header)
    else none

-- `none` where it raises.
unfoldable pub validate_csrf : (String → Bool) → Request → Option Bool
validate_csrf is_ascii request =
    if is_safe_method request.method
    then some true
    else same_token is_ascii request.csrf_cookie request.csrf_header

-- Whether `dispatch` calls the next handler, answers 403, or raises. `is_ascii` is `str.isascii`.
unfoldable pub dispatch : (String → Bool) → Request → Option Bool
unfolding has_bearer validate_csrf
dispatch is_ascii request =
    if is_safe_method request.method
    then some true
    else if is_safe_path request.path
    then some true
    else if has_bearer request
    then some true
    else if not (is_some request.access_cookie)
    then some true
    else validate_csrf is_ascii request

abbrev pub or_none : String → Option String
or_none token = if is_empty token then none else some token

abbrev pub bearer_token : String → Option String
bearer_token authorization =
    if starts_with (lower authorization) "bearer "
    then or_none (strip (drop_text 7 authorization))
    else none

abbrev pub token_from : String → Option String → Option String
token_from authorization none = bearer_token authorization
token_from authorization (some cookie) =
    if not (is_empty cookie) then some cookie else bearer_token authorization

unfoldable pub get_access_token_from_request : Request → Option String
unfolding strip lower
get_access_token_from_request request = token_from request.authorization request.access_cookie
