-- ===== src/Caching/Expiry.antt =====
-- get_cached after set_cached of backend/app/services/redis_cache_service.py.
use omni_ai_v.Prelude.{
  ℕ, ◌+◌, ◌*◌, ◌≤◌, ◌<◌, ◌≡◌, String, Bool, true, false, Option, none, some, text_comparable,
}
use omni_ai_v.RateLimit.{second}
use omni_ai_v.Caching.{Redis, Json, Answer, returned}

module _ {ℓ κ} {R : Type ℓ} {V : Type κ} (redis : Redis R) (json : Json V)
    (digest : String → String) where
  -- A server that takes `SETEX` answers the value until the time to live is over.
  abbrev pub Keeps : Type ℓ
  Keeps =
      (server after : R) (now later ttl_seconds : ℕ) (k payload : String)
      → redis.setex server now k ttl_seconds payload ≡ some after
      → now ≤ later
      → later < now + ttl_seconds * second
      → redis.get after later k ≡ some (some payload)

  -- The value, or what an older text stands for, if it can be read.
  abbrev pub expected : Option V → Option (Option (Option V)) → Answer V
  expected value (some (some older)) = returned older
  expected value _ = returned value

  abbrev has_older : Option (Option String) → Option (Option (Option V))
  has_older (some (some text)) = some (json.loads text)
  has_older _ = none

  abbrev kept_by : Option R → R → ℕ → String → Option (Option (Option V))
  kept_by (some after) server later k = none
  kept_by none server later k = has_older (redis.get server later k)

  -- What a Redis that refuses the write answers under the key, when it is asked later.
  abbrev pub left_over : Bool → ℕ → ℕ → String → String → ℕ → R → Option (Option (Option V))
  left_over false now later k payload ttl_seconds server = none
  left_over true now later k payload ttl_seconds server =
      kept_by (redis.setex server now k ttl_seconds payload) server later k
