-- ===== src/RateLimit/Replies.antt =====
-- The answers of the limiters of backend/app/middleware/production.py, and their buckets.
use omni_ai_v.Prelude.{
  ℕ, ◌+◌, ◌-◌, ◌*◌, ◌≤◌, String, ◌≡◌, ◌≢◌, ◌↔◌, true, false, not, Option, none, some, List, [], ◌∷◌,
  arith, leb, ltb, if◌then◌else◌, ◌==◌, text_comparable, length, length-append, Bool-cases, inl,
  inr, eq_of_beq, beq_refl,
}
use omni_ai_v.RateLimit.{
  second, Settings, Request, RateLimitRule, is_rate_limit_exempt_path, rule_for_path,
  client_ip_from_scope, bucket_key, reset_seconds_for_window,
}
use omni_ai_v.RateLimit.Limiter
use omni_ai_v.RateLimit.Limiter.{
  Limiter, Reply, untouched, forwarded, AuditEvent, evict, oldest, put_bucket, check, is_forwarded,
  rate_limit_response, record_rate_limit_event,
}
use omni_ai_v.RateLimit.Redis

-- The wait that is announced lies between one second and the window, if the window's first
-- request is not in the future.
pub reset_bounds :
    (start window now : ℕ)
    → start ≤ now
    → 1 ≤ window
    → (1 ≤ reset_seconds_for_window start window now)
      × (reset_seconds_for_window start window now ≤ window)
unfolding reset_seconds_for_window
reset_bounds start window now h k = (omega arith, omega arith)

response_refuses :
    (env : Settings) (request : Request) (rule : RateLimitRule) (reset : ℕ)
    → is_forwarded (rate_limit_response env request rule reset) ≡ false
unfolding rate_limit_response
response_refuses env request rule reset = ground arith

module _ (env : Settings) (l : Limiter) (now : ℕ) (request : Request) (rule : RateLimitRule)
    (key : String) where
  abbrev pub live : List ℕ
  live = evict (now - rule.window_seconds * second) (l.hits key)

  abbrev pub reset : ℕ
  reset = reset_seconds_for_window (oldest live now) rule.window_seconds now

  -- A request is let through exactly if its bucket has room. Then it is counted and not audited; else
  -- it is audited once and not counted.
  check_accounts :
      (is_forwarded (check env l now request rule key).1 ≡ ltb (length live) rule.limit)
      × (length ((check env l now request rule key).0.hits key)
          ≡ length live + (if is_forwarded (check env l now request rule key).1 then 1 else 0))
      × (length (check env l now request rule key).0.audit
          ≡ length l.audit + (if is_forwarded (check env l now request rule key).1 then 0 else 1))
  unfolding check record_rate_limit_event
  check_accounts = elim (Bool-cases (leb rule.limit (length live))) [
    | inl full ↦
        let refuses = response_refuses env request rule reset in
        rw full
          (rw (beq_refl key) (rw refuses (ground arith, omega arith, length-append l.audit _)))
    | inr room ↦
        rw room (rw (beq_refl key) (ground arith, length-append live (now ∷ []), omega arith))
  ]

-- A call changes no bucket but the one of the request's own key.
call_other :
    (env : Settings) (l : Limiter) (now : ℕ) (request : Request) (other : String)
    → bucket_key (client_ip_from_scope request) (rule_for_path request.path l.default_limit).scope
      ≢ other
    → (Limiter.call env l now request).0.hits other ≡ l.hits other
unfolding Limiter.call check record_rate_limit_event
call_other env l now request other differs =
    let key =
      bucket_key (client_ip_from_scope request)
        (rule_for_path request.path l.default_limit).scope in
    elim (Bool-cases (key == other)) [
      | inl e ↦ absurd (differs (eq_of_beq key other e))
      | inr e ↦ ground arith
    ]

-- Without an answer from Redis the distributed limiter is the in-memory one.
call_without_redis :
    (env : Settings) (zcard : String → Option ℕ) (l : Limiter) (now : ℕ) (request : Request)
    → zcard (
        bucket_key
          (client_ip_from_scope request)
          (rule_for_path request.path l.default_limit).scope)
      ≡ none
    → Redis.call env zcard l now request ≡ Limiter.call env l now request
unfolding Redis.call Limiter.call
call_without_redis env zcard l now request down = elim (Bool-cases (request.kind == "http")) [
  | inr other ↦ rw (other, not)
  | inl http ↦ elim (Bool-cases (is_rate_limit_exempt_path env request.path)) [
    | inl exempt ↦ rw (http, exempt)
    | inr counted ↦ rw (http, counted) (rw down (unfold Limiter.call in rw (http, counted)))
  ]
]

-- With a count from Redis, a counted request is let through exactly if the count, which holds
-- this request too, is within the rule's limit; the in-memory buckets stay as they are.
redis_count :
    (env : Settings) (zcard : String → Option ℕ) (l : Limiter) (now : ℕ) (request : Request)
    (count : ℕ)
    → (request.kind == "http") ≡ true
    → is_rate_limit_exempt_path env request.path ≡ false
    → zcard (
        bucket_key
          (client_ip_from_scope request)
          (rule_for_path request.path l.default_limit).scope)
      ≡ some count
    → ((is_forwarded (Redis.call env zcard l now request).1 ≡ true)
        ↔ (count ≤ (rule_for_path request.path l.default_limit).limit))
      × ((Redis.call env zcard l now request).0.hits ≡ l.hits)
unfolding Redis.call record_rate_limit_event rate_limit_response
redis_count env zcard l now request count http counted e = rw (http, counted, e, not) (ground arith)
