-- ===== src/RateLimit/Limiter.antt =====
-- InMemoryRateLimitMiddleware and _rate_limit_response of backend/app/middleware/production.py,
-- with record_rate_limit_event of backend/app/services/abuse_detection_service.py.
use text.Mathlib.Text.{starts_with}
use omni_ai_v.Prelude.{
  ℕ, ◌-◌, ◌*◌, min, max, String, Bool, true, false, ◌&&◌, not, Option, List, [], ◌∷◌, ◌++◌,
  if◌then◌else◌, leb, ltb, ◌==◌, text_comparable, length,
}
use omni_ai_v.RateLimit.{
  second, Settings, Request, RateLimitRule, RateLimitHeaders, RedirectParams,
  is_rate_limit_exempt_path, is_browser_navigation, rule_for_path, client_ip_from_scope, bucket_key,
  rate_limit_headers, reset_seconds_for_window, cors_headers_for_request,
  browser_rate_limit_redirect_url,
}

-- What the client gets: the application's answer as it is, the application's answer with the
-- rate-limit headers, or one of the two refusals.
pub data Reply : Type 0 where
  untouched : Reply
  forwarded : RateLimitHeaders → Reply
  redirected : RedirectParams → RateLimitHeaders → Option String → Reply
  refused : RateLimitHeaders → Option String → Reply

-- One `rate_limit.exceeded` row of the audit log.
pub record AuditEvent : Type 0 where
  pub client_ip : String
  pub path : String
  pub scope : String
  pub limit : ℕ

-- `_hits` is a defaultdict: a key that was never used has an empty bucket.
pub record Limiter : Type 0 where
  pub default_limit : ℕ
  pub hits : String → List ℕ
  pub audit : List AuditEvent

-- InMemoryRateLimitMiddleware.__init__
unfoldable pub create : ℕ → Limiter
create requests_per_minute = record {
  default_limit = max (min requests_per_minute 1000) 1;
  hits = λ key. [];
  audit = [];
}

-- while bucket and bucket[0] < window_start: bucket.popleft()
unfoldable pub evict : ℕ → List ℕ → List ℕ
evict window_start [] = []
evict window_start (t ∷ bucket) =
    let rest = evict window_start bucket in if ltb t window_start then rest else t ∷ bucket

abbrev pub oldest : List ℕ → ℕ → ℕ
oldest [] now = now
oldest (t ∷ bucket) now = t

unfoldable pub put_bucket : String → List ℕ → (String → List ℕ) → String → List ℕ
put_bucket key bucket hits k = if key == k then bucket else hits k

unfoldable pub rate_limit_response : Settings → Request → RateLimitRule → ℕ → Reply
unfolding rate_limit_headers cors_headers_for_request is_browser_navigation
    browser_rate_limit_redirect_url
rate_limit_response env request rule reset_seconds =
    let headers = rate_limit_headers rule.limit 0 reset_seconds in
    let cors = cors_headers_for_request env request in
    if starts_with request.path "/auth/" && is_browser_navigation request
    then redirected (browser_rate_limit_redirect_url reset_seconds rule.scope) headers cors
    else refused headers cors

unfoldable pub record_rate_limit_event : Limiter → String → String → RateLimitRule → Limiter
record_rate_limit_event limiter client_ip path rule = record limiter {
  audit =
      limiter.audit
      ++ record { client_ip = client_ip; path = path; scope = rule.scope; limit = rule.limit } ∷ [];
}

-- The part of `__call__` below the exemptions, for the rule and the bucket key of the request.
unfoldable pub check : Settings → Limiter → ℕ → Request → RateLimitRule → String → Limiter × Reply
unfolding evict put_bucket rate_limit_headers reset_seconds_for_window
check env limiter now request rule key =
    let bucket = evict (now - rule.window_seconds * second) (limiter.hits key) in
    let kept = record limiter { hits = put_bucket key bucket limiter.hits } in
    let reset_seconds = reset_seconds_for_window (oldest bucket now) rule.window_seconds now in
    if leb rule.limit (length bucket)
    then (
      record_rate_limit_event kept (client_ip_from_scope request) request.path rule,
      rate_limit_response env request rule reset_seconds,
    )
    else (let bucket' = bucket ++ now ∷ [] in
        (
          record kept { hits = put_bucket key bucket' kept.hits },
          forwarded (rate_limit_headers rule.limit (rule.limit - length bucket') reset_seconds),
        ))

-- InMemoryRateLimitMiddleware.__call__
unfoldable pub call : Settings → Limiter → ℕ → Request → Limiter × Reply
call env limiter now request =
    if not (request.kind == "http")
    then (limiter, untouched)
    else if is_rate_limit_exempt_path env request.path
    then (limiter, untouched)
    else (let rule = rule_for_path request.path limiter.default_limit in
        check env limiter now request rule (bucket_key (client_ip_from_scope request) rule.scope))

abbrev pub is_forwarded : Reply → Bool
is_forwarded (forwarded h) = true
is_forwarded _ = false
