-- ===== src/RateLimit/Keys.antt =====
-- Which rule a bucket key belongs to: the key's last character tells the scope.
use Prim.Native.Char.{code}
use Prim.Native.String.{◌++◌ as concat}
use text.Mathlib.Text.{starts_with}
use text.Mathlib.TextLemmas.{nil-append, cons-append}
use omni_ai_v.Prelude.{
  ℕ, String, ◌≡◌, refl, ap, Bool, true, false, if◌then◌else◌, ◌==◌, nat_comparable, is_empty, max,
  min,
}
use omni_ai_v.RateLimit.{RateLimitRule, rule_for_path, bucket_key}

last_code : String → ℕ
last_code String.[] = 0
last_code (String.◌∷◌ c s) = let rest = last_code s in if is_empty s then code c else rest

is_empty-concat : (s t : String) → is_empty t ≡ false → is_empty (concat s t) ≡ false
is_empty-concat String.[] t h = simp nil-append h
is_empty-concat (String.◌∷◌ c s) t h = simp cons-append

last_code-concat : (s t : String) → is_empty t ≡ false → last_code (concat s t) ≡ last_code t
unfolding last_code
last_code-concat String.[] t h = simp nil-append
last_code-concat (String.◌∷◌ c s) t h =
    simp (cons-append, is_empty-concat s t h) (last_code-concat s t h)

-- The rule whose scope ends in that character.
rule_of_key : String → ℕ → RateLimitRule
rule_of_key key default_limit =
    let c = last_code key in
    if c == b's'
    then record { limit = 10; window_seconds = 3600; scope = "uploads" }
    else if c == b't'
    then record { limit = 30; window_seconds = 60; scope = "chat" }
    else if c == b'h'
    then record { limit = 30; window_seconds = 60; scope = "auth" }
    else record { limit = max (min default_limit 1000) 1; window_seconds = 60; scope = "api" }

-- `rule_for_path` with its three tests given.
abbrev rule_if : Bool → Bool → Bool → ℕ → RateLimitRule
rule_if upload chat auth d =
    if upload
    then record { limit = 10; window_seconds = 3600; scope = "uploads" }
    else if chat
    then record { limit = 30; window_seconds = 60; scope = "chat" }
    else if auth
    then record { limit = 30; window_seconds = 60; scope = "auth" }
    else record { limit = max (min d 1000) 1; window_seconds = 60; scope = "api" }

rule_of_key-rule_if :
    (ip : String) (upload chat auth : Bool) (d : ℕ)
    → rule_of_key (bucket_key ip (rule_if upload chat auth d).scope) d ≡ rule_if upload chat auth d
unfolding rule_of_key bucket_key last_code
rule_of_key-rule_if ip true chat auth d = rw (last_code-concat ip ":uploads" refl, last_code)
rule_of_key-rule_if ip false true auth d = rw (last_code-concat ip ":chat" refl, last_code)
rule_of_key-rule_if ip false false true d = rw (last_code-concat ip ":auth" refl, last_code)
rule_of_key-rule_if ip false false false d = rw (last_code-concat ip ":api" refl, last_code)

rule_of_key-bucket_key :
    (ip path : String) (d : ℕ)
    → rule_of_key (bucket_key ip (rule_for_path path d).scope) d ≡ rule_for_path path d
unfolding rule_for_path
rule_of_key-bucket_key ip path d =
    rule_of_key-rule_if ip (starts_with path "/upload") (starts_with path "/chat")
      (starts_with path "/auth/") d

-- Requests that share a bucket have the same rule.
pub rule-eq_of_key :
    (ip path ip' path' : String) (d : ℕ)
    → bucket_key ip (rule_for_path path d).scope ≡ bucket_key ip' (rule_for_path path' d).scope
    → rule_for_path path d ≡ rule_for_path path' d
rule-eq_of_key ip path ip' path' d h = cc (
  ap (λ k. rule_of_key k d) h,
  rule_of_key-bucket_key ip path d,
  rule_of_key-bucket_key ip' path' d,
)
