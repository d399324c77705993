-- ===== src/RateLimit.antt =====
-- backend/app/services/rate_limit_service.py, and cors_headers_for_request of
-- backend/app/core/cors_utils.py: path rules, client identification and headers.
-- Clock readings are natural numbers of microseconds; `second` is one second.
pub mod Limiter
pub mod Redis
mod Buckets
mod Keys
pub mod Window
pub mod Replies
mod Tests
use Prim.Native.String.{◌++◌ as concat}
use text.Mathlib.Text.{starts_with, find?}
use omni_ai_v.Prelude.{
  ℕ, ◌+◌, ◌-◌, ◌*◌, ◌/◌, min, max, String, Bool, true, false, ◌||◌, Option, none, some, List, [],
  ◌∷◌, if◌then◌else◌, ◌==◌, text_comparable, any, is_empty, strip, lower, before,
}

abbrev pub second : ℕ
second = 1000000

-- The environment variable and the settings that the limiters read.
pub record Settings : Type 0 where
  pub test_mode_env : String
  pub cors_origin_list : List String

-- An ASGI scope: its type, path, raw headers (decoded as latin-1) and peer address, with what
-- `request.headers.get` answers for the three headers that the limiters look up.
pub record Request : Type 0 where
  pub kind : String
  pub path : String
  pub headers : List (String × String)
  pub client : Option String
  pub sec_fetch_mode : Option String
  pub accept : Option String
  pub origin : Option String

pub record RateLimitRule : Type 0 where
  pub limit : ℕ
  pub window_seconds : ℕ
  pub scope : String

abbrev exempt_paths : List String
exempt_paths =
    "/health" ∷ "/health/live" ∷ "/health/ready" ∷ "/health/migrations" ∷ "/" ∷ "/docs"
    ∷ "/openapi.json" ∷ []

abbrev oauth_flow_prefixes : List String
oauth_flow_prefixes = "/auth/github" ∷ "/auth/google" ∷ []

unfoldable pub is_test_mode_enabled : Settings → Bool
unfolding strip lower
is_test_mode_enabled env =
    let value = lower (strip env.test_mode_env) in any (λ t. value == t) ("1" ∷ "true" ∷ "yes" ∷ [])

unfoldable pub is_rate_limit_exempt_path : Settings → String → Bool
unfolding is_test_mode_enabled
is_rate_limit_exempt_path env path =
    if is_test_mode_enabled env
    then true
    else if any (λ p. path == p) exempt_paths
    then true
    else any (λ prefix. starts_with path prefix) oauth_flow_prefixes

abbrev or_empty : Option String → String
or_empty none = ""
or_empty (some s) = s

abbrev is_found : Option ℕ → Bool
is_found none = false
is_found (some i) = true

unfoldable pub is_browser_navigation : Request → Bool
unfolding lower
is_browser_navigation request =
    if or_empty request.sec_fetch_mode == "navigate"
    then true
    else is_found (find? (lower (or_empty request.accept)) "text/html")

unfoldable pub rule_for_path : String → ℕ → RateLimitRule
rule_for_path path default_limit =
    if starts_with path "/upload"
    then record { limit = 10; window_seconds = 3600; scope = "uploads" }
    else if starts_with path "/chat"
    then record { limit = 30; window_seconds = 60; scope = "chat" }
    else if starts_with path "/auth/"
    then record { limit = 30; window_seconds = 60; scope = "auth" }
    else record { limit = max (min default_limit 1000) 1; window_seconds = 60; scope = "api" }

-- The loop over the headers: the first one of that name, up to its first comma, stripped.
unfoldable pub forwarded_for : List (String × String) → Option String
unfolding lower before strip
forwarded_for [] = none
forwarded_for ((name, value) ∷ rest) =
    let later = forwarded_for rest in
    if lower name == "x-forwarded-for" then some (strip (before b',' value)) else later

abbrev client_host : Option String → String
client_host none = "unknown"
client_host (some host) = host

abbrev or_client : Option String → Option String → String
or_client none client = client_host client
or_client (some ip) client = if is_empty ip then client_host client else ip

unfoldable pub client_ip_from_scope : Request → String
unfolding forwarded_for
client_ip_from_scope request = or_client (forwarded_for request.headers) request.client

unfoldable pub bucket_key : String → String → String
bucket_key client_ip scope_name = concat client_ip (concat ":" scope_name)

-- The four headers; the program renders the numbers by `str`.
pub record RateLimitHeaders : Type 0 where
  pub retry_after : ℕ
  pub limit : ℕ
  pub remaining : ℕ
  pub reset : ℕ

unfoldable pub rate_limit_headers : ℕ → ℕ → ℕ → RateLimitHeaders
rate_limit_headers limit remaining reset_seconds = record {
  retry_after = reset_seconds;
  limit = limit;
  remaining = remaining;
  reset = reset_seconds;
}

-- `int(max(1, window_start + window_seconds - current))`, for readings in microseconds.
unfoldable pub reset_seconds_for_window : ℕ → ℕ → ℕ → ℕ
reset_seconds_for_window window_start window_seconds now =
    max second (window_start + window_seconds * second - now) / second

-- The origin that a response may be shared with, if any.
unfoldable pub cors_headers_for_request : Settings → Request → Option String
unfolding strip
cors_headers_for_request env request =
    let origin = strip (or_empty request.origin) in
    if is_empty origin
    then none
    else if any (λ allowed. allowed == origin) env.cors_origin_list
    then some origin
    else none

-- The parameters of the redirect, which the program appends to the front end's address.
pub record RedirectParams : Type 0 where
  pub retry_after : ℕ
  pub scope : String

unfoldable pub browser_rate_limit_redirect_url : ℕ → String → RedirectParams
browser_rate_limit_redirect_url retry_after scope = record {
  retry_after = max 1 retry_after;
  scope = scope;
}
