-- ===== src/RateLimit/Window.antt =====
-- The sliding window over whole traces of requests to the in-memory limiter.
use mathlib.Core.List.{append-nil, append_assoc}
use mathlib.Core.Bool.{and-true, and-false}
use omni_ai_v.Prelude.{
  ℕ, ◌-◌, ◌*◌, ◌≤◌, String, ◌≡◌, refl, ◌∙◌, not, Bool, false, ◌&&◌, List, [], ◌∷◌, ◌++◌, arith, leb,
  if◌then◌else◌, ◌==◌, text_comparable, length, tally, Bool-cases, inl, inr, eq_of_beq, beq_refl,
}
use omni_ai_v.RateLimit.{
  second, is_rate_limit_exempt_path, Settings, Request, RateLimitRule, rule_for_path,
  client_ip_from_scope, bucket_key,
}
use omni_ai_v.RateLimit.Limiter.{
  Limiter, Reply, create, evict, check, call, is_forwarded, rate_limit_response,
  record_rate_limit_event,
}
use omni_ai_v.RateLimit.Buckets.{in_window, Covers, Covers-later, Covers-evict, Covers-admit}
use omni_ai_v.RateLimit.Keys.{rule-eq_of_key}

pub record Arrival : Type 0 where
  pub time : ℕ
  pub request : Request

-- The times do not go back.
abbrev pub InOrder : ℕ → List Arrival → Type 0
InOrder now [] = Unit
InOrder now (x ∷ rest) = (now ≤ x.time) × InOrder x.time rest

abbrev pub key_of : ℕ → Request → String
key_of default_limit request =
    bucket_key (client_ip_from_scope request) (rule_for_path request.path default_limit).scope

-- The times at which requests of the bucket `key` were let through.
unfoldable pub admitted : Settings → String → Limiter → List Arrival → List ℕ
admitted env key limiter [] = []
admitted env key limiter (x ∷ rest) =
    let (after, reply) = call env limiter x.time x.request in
    let later = admitted env key after rest in
    if is_forwarded reply && key_of limiter.default_limit x.request == key
    then x.time ∷ later
    else later

module _ (env : Settings) (ip path : String) (limiter : Limiter) where
  abbrev rule : RateLimitRule
  rule = rule_for_path path limiter.default_limit

  abbrev key : String
  key = bucket_key ip rule.scope

  abbrev Kept : List ℕ → ℕ → Limiter → Type 0
  Kept history now l =
      (Covers (rule.window_seconds * second) rule.limit now history (l.hits key))
      × (l.default_limit ≡ limiter.default_limit)

response-not_forwarded :
    (env : Settings) (request : Request) (rule : RateLimitRule) (reset : ℕ)
    → is_forwarded (rate_limit_response env request rule reset) ≡ false
unfolding rate_limit_response
response-not_forwarded env request rule reset = ground arith

module _ (env : Settings) (l : Limiter) (now : ℕ) (request : Request) (rule : RateLimitRule)
    (key : String) where
  abbrev outcome : Limiter × Reply
  outcome = check env l now request rule key

  check-Covers :
      {history : List ℕ}
      → Covers (rule.window_seconds * second) rule.limit now history (l.hits key)
      → Covers
          (rule.window_seconds * second)
          rule.limit
          now
          (if is_forwarded outcome.1 then history ++ now ∷ [] else history)
          (outcome.0.hits key)
  unfolding check record_rate_limit_event
  check-Covers c =
      let bucket = evict (now - rule.window_seconds * second) (l.hits key) in
      elim (Bool-cases (leb rule.limit (length bucket))) [
        | inl full ↦ rw full (rw response-not_forwarded (rw beq_refl (Covers-evict c)))
        | inr room ↦ rw (room, beq_refl) (Covers-admit (Covers-evict c) (ground arith))
      ]

  check_other : (other : String) → (key == other) ≡ false → outcome.0.hits other ≡ l.hits other
  unfolding check record_rate_limit_event
  check_other other e = ground arith

  check-default_limit : outcome.0.default_limit ≡ l.default_limit
  unfolding check record_rate_limit_event
  check-default_limit = ground arith

-- A request that is counted under `key'`, seen from the bucket `key`.
counted-Covers :
    (env : Settings) (l : Limiter) (now : ℕ) (request : Request) (rule rule' : RateLimitRule)
    (key key' : String) (history : List ℕ)
    → (key' ≡ key → rule' ≡ rule)
    → Covers (rule.window_seconds * second) rule.limit now history (l.hits key)
    → Covers
        (rule.window_seconds * second)
        rule.limit
        now
        (if is_forwarded (check env l now request rule' key').1 && key' == key
          then history ++ now ∷ []
          else history)
        ((check env l now request rule' key').0.hits key)
counted-Covers env l now request rule rule' key key' history same c =
    elim (Bool-cases (key' == key)) [
      | inr other ↦ rw (other, and-false, check_other env l now request rule' key' key other) c
      | inl e ↦
          let p = eq_of_beq key' key e in
          let q = same p in
          rw (e, and-true) (rw (← p, ← q) (check-Covers env l now request rule' key' (rw (p, q) c)))
    ]

module _ (env : Settings) (ip path : String) (limiter : Limiter) where
  -- One call keeps the invariant of the bucket.
  call-Kept :
      (history : List ℕ) (before now : ℕ) (request : Request) (l : Limiter)
      → before ≤ now
      → Kept env ip path limiter history before l
      → Kept env ip path limiter
          (if is_forwarded (call env l now request).1
              && key_of l.default_limit request == key env ip path limiter
            then history ++ now ∷ []
            else history)
          now
          (call env l now request).0
  unfolding call
  call-Kept history before now request l later (c, same) =
      elim (Bool-cases (request.kind == "http")) [
        | inr other ↦ rw (other, not) (Covers-later c now later, same)
        | inl http ↦ elim (Bool-cases (is_rate_limit_exempt_path env request.path)) [
          | inl exempt ↦ rw (http, exempt) (Covers-later c now later, same)
          | inr counted ↦
              rw (http, counted)
                (
                  counted-Covers env l now request (rule env ip path limiter)
                      (rule_for_path request.path l.default_limit) (key env ip path limiter)
                      (key_of l.default_limit request) history
                      (rw same (
                        rule-eq_of_key (client_ip_from_scope request) request.path ip path
                          limiter.default_limit))
                      (Covers-later c now later),
                  check-default_limit env l now request (rule_for_path request.path l.default_limit)
                        (key_of l.default_limit request)
                      ∙ same,
                )
        ]
      ]

  abbrev let_through : Limiter → Arrival → Bool
  let_through l x =
      is_forwarded (call env l x.time x.request).1
      && key_of l.default_limit x.request == key env ip path limiter

  trace_bounded :
      (events : List Arrival) (now : ℕ) (history : List ℕ) (l : Limiter)
      → InOrder now events
      → Kept env ip path limiter history now l
      → (a : ℕ)
      → tally
          (in_window a ((rule env ip path limiter).window_seconds * second))
          (history ++ admitted env (key env ip path limiter) l events)
        ≤ (rule env ip path limiter).limit
  unfolding admitted
  trace_bounded [] now history l ordered kept a = rw append-nil (kept.0.bounded a)
  trace_bounded (x ∷ rest) now history l ordered kept a =
      let after = (call env l x.time x.request).0 in
      let kept' = call-Kept history now x.time x.request l ordered.0 kept in
      elim (Bool-cases (let_through l x)) [
        | inl passed ↦ rw passed (
            rw append_assoc at (
              trace_bounded rest x.time (history ++ x.time ∷ []) after ordered.1
                (rw passed at kept') a))
        | inr stopped ↦
            rw stopped (trace_bounded rest x.time history after ordered.1 (rw stopped at kept') a)
      ]

-- From a fresh limiter, for requests at times that do not go back: in every window of the rule's
-- length, the requests that share a bucket (the client address and the rule's scope) and that are
-- let through number at most the rule's limit.
pub window_bound :
    (env : Settings) (requests_per_minute : ℕ) (ip path : String) (events : List Arrival) (a : ℕ)
    → InOrder 0 events
    → tally
        (in_window a
          ((rule_for_path path (create requests_per_minute).default_limit).window_seconds * second))
        (admitted env
          (bucket_key ip (rule_for_path path (create requests_per_minute).default_limit).scope)
          (create requests_per_minute)
          events)
      ≤ (rule_for_path path (create requests_per_minute).default_limit).limit
window_bound env requests_per_minute ip path events a ordered =
    let fresh = create requests_per_minute in
    trace_bounded env ip path fresh events 0 [] fresh ordered
      (
        record {
          dropped = [];
          split = unfold create in refl;
          old = tt;
          bounded = λ b. omega arith;
        },
        refl,
      )
      a
