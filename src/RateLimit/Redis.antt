-- ===== src/RateLimit/Redis.antt =====
-- RedisRateLimitMiddleware and create_rate_limit_middleware of
-- backend/app/middleware/production.py. The pipeline's `zcard` answer is a parameter: `none` when
-- there is no connection or the pipeline raised.
use omni_ai_v.Prelude.{
  ℕ, ◌-◌, String, Bool, true, false, not, Option, none, some, if◌then◌else◌, leb, ◌==◌,
  text_comparable,
}
use omni_ai_v.RateLimit.{
  Settings, Request, RateLimitRule, is_rate_limit_exempt_path, rule_for_path, client_ip_from_scope,
  bucket_key, rate_limit_headers,
}
use omni_ai_v.RateLimit.Limiter
use omni_ai_v.RateLimit.Limiter.{
  Limiter, Reply, untouched, forwarded, record_rate_limit_event, rate_limit_response,
}

-- The answer of `_check_redis`: allowed, remaining, reset_seconds.
pub record Verdict : Type 0 where
  pub allowed : Bool
  pub remaining : ℕ
  pub reset_seconds : ℕ

unfoldable pub check_redis : Option ℕ → RateLimitRule → Option Verdict
check_redis none rule = none
check_redis (some count) rule = some (record {
  allowed = leb count rule.limit;
  remaining = rule.limit - count;
  reset_seconds = rule.window_seconds;
})

-- The part of `__call__` behind `_check_redis`.
unfoldable pub decide :
    Settings → Limiter → ℕ → Request → RateLimitRule → Option Verdict → Limiter × Reply
unfolding rate_limit_headers
decide env fallback now request rule none = Limiter.call env fallback now request
decide env fallback now request rule (some verdict) =
    if not verdict.allowed
    then (
      record_rate_limit_event fallback (client_ip_from_scope request) request.path rule,
      rate_limit_response env request rule verdict.reset_seconds,
    )
    else (
      fallback,
      forwarded (rate_limit_headers rule.limit verdict.remaining verdict.reset_seconds),
    )

-- RedisRateLimitMiddleware.__call__. `zcard` is what the pipeline answers for a bucket key.
unfoldable pub call : Settings → (String → Option ℕ) → Limiter → ℕ → Request → Limiter × Reply
unfolding check_redis decide
call env zcard fallback now request =
    if not (request.kind == "http")
    then (fallback, untouched)
    else if is_rate_limit_exempt_path env request.path
    then (fallback, untouched)
    else (let rule = rule_for_path request.path fallback.default_limit in
        let key = bucket_key (client_ip_from_scope request) rule.scope in
        decide env fallback now request rule (check_redis (zcard key) rule))

-- create_rate_limit_middleware: which limiter the application runs behind.
unfoldable pub serve :
    Bool → Settings → (String → Option ℕ) → Limiter → ℕ → Request → Limiter × Reply
unfolding call
serve true env zcard limiter now request = call env zcard limiter now request
serve false env zcard limiter now request = Limiter.call env limiter now request
