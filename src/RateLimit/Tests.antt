-- ===== src/RateLimit/Tests.antt =====
-- The rate limiters on concrete requests.
use omni_ai_v.Prelude.{◌*◌, ◌≤◌, String, ◌≡◌, refl, true, none, some, List, [], ◌∷◌, arith, tally}
use omni_ai_v.RateLimit.{
  second, Settings, Request, RateLimitRule, is_rate_limit_exempt_path, rule_for_path,
  client_ip_from_scope, bucket_key,
}
use omni_ai_v.RateLimit.Limiter
use omni_ai_v.RateLimit.Limiter.{
  Limiter, create, check, evict, forwarded, is_forwarded, rate_limit_response,
}
use omni_ai_v.RateLimit.Buckets.{in_window}
use omni_ai_v.RateLimit.Window.{Arrival, admitted, window_bound}

abbrev env : Settings
env = record { test_mode_env = ""; cors_origin_list = "https://omni.ai" ∷ [] }

abbrev request : String → Request
request path = record {
  kind = "http";
  path = path;
  headers = ("host", "omni.ai") ∷ ("X-Forwarded-For", " 10.0.0.7, 10.0.0.1") ∷ [];
  client = some "127.0.0.1";
  sec_fetch_mode = none;
  accept = none;
  origin = some "https://omni.ai";
}

abbrev arrivals : List Arrival
arrivals =
    record { time = 5 * second; request = request "/search" }
    ∷ record { time = 6 * second; request = request "/search" }
    ∷ record { time = 7 * second; request = request "/search" }
    ∷ record { time = 66 * second; request = request "/search" }
    ∷ []

client_ip : client_ip_from_scope (request "/chat") ≡ "10.0.0.7"
unfolding client_ip_from_scope
client_ip = refl

exempt : is_rate_limit_exempt_path env "/auth/google/callback" ≡ true
unfolding is_rate_limit_exempt_path
exempt = refl

-- Two a minute: the third is refused, and the one after a minute is let through.
two_a_minute :
    admitted env "10.0.0.7:api" (create 2) arrivals ≡ 5 * second ∷ 6 * second ∷ 66 * second ∷ []
unfolding admitted create Limiter.call check is_rate_limit_exempt_path rule_for_path
    client_ip_from_scope bucket_key rate_limit_response Limiter.record_rate_limit_event
two_a_minute = refl

window_bound_example :
    tally
      (in_window 5000000
        ((rule_for_path "/search" (create 2).default_limit).window_seconds * second))
      (admitted env
        (bucket_key "10.0.0.7" (rule_for_path "/search" (create 2).default_limit).scope)
        (create 2)
        arrivals)
    ≤ (rule_for_path "/search" (create 2).default_limit).limit
window_bound_example = window_bound env 2 "10.0.0.7" "/search" arrivals 5000000 (omega arith)

abbrev busy : Limiter
busy = record (create 2) { hits = λ key. 5000000 ∷ 6000000 ∷ [] }

abbrev search_rule : RateLimitRule
search_rule = record { limit = 2; window_seconds = 60; scope = "api" }

-- A minute later only the younger of the two requests counts.
younger_run :
    (check env busy 66000000 (request "/search") search_rule "k").0.hits "k"
    ≡ 6000000 ∷ 66000000 ∷ []
unfolding check Limiter.evict Limiter.put_bucket
younger_run = refl
