-- ===== src/Caching.antt =====
-- backend/app/services/redis_cache_service.py: the cache over Redis with its fallback in memory.
-- Clock readings are natural numbers of microseconds. SHA-256, `json` and the Redis client are
-- parameters.
pub mod Keys
pub mod Expiry
pub mod Reference
mod Tests
use Prim.Native.String.{◌++◌ as concat}
use omni_ai_v.Prelude.{
  ℕ, ◌+◌, ◌*◌, String, Bool, not, ◌&&◌, Option, none, some, List, [], ◌∷◌, map, leb, if◌then◌else◌,
  ◌==◌, text_comparable, is_empty, decimal, join,
}
use omni_ai_v.RateLimit.{second}

-- The client of the `redis` package over a server's state `R`. `none` is a raised exception; a `get`
-- answers the value of the key, if it has one.
pub record Redis {ℓ} (R : Type ℓ) : Type ℓ where
  pub get : R → ℕ → String → Option (Option String)
  pub setex : R → ℕ → String → ℕ → String → Option R

-- `json.dumps(value, default=str)` and `json.loads`, whose exception is `none`. The value `none` is
-- Python's `None`.
pub record Json {ℓ} (V : Type ℓ) : Type ℓ where
  pub dumps : Option V → String
  pub loads : String → Option (Option V)

pub record Metrics : Type 0 where
  pub hits : ℕ
  pub misses : ℕ
  pub errors : ℕ

-- `_MEMORY`, `_METRICS` and the server.
pub record Cache {ℓ} (R : Type ℓ) : Type ℓ where
  pub memory : String → Option (ℕ × String)
  pub metrics : Metrics
  pub server : R

-- What `get_cached` does: it returns a value or None, or an exception of `json.loads` leaves it.
pub data Answer {ℓ} (V : Type ℓ) : Type ℓ where
  returned : Option V → Answer V
  raised : Answer V

-- The arguments `str | int | None` of `_key`.
pub data Part : Type 0 where
  phrase : String → Part
  number : ℕ → Part
  absent : Part

unfoldable pub str : Part → String
str (phrase s) = s
str (number n) = decimal n
str absent = "None"

abbrev pub optional : Option ℕ → Part
optional none = absent
optional (some n) = number n

unfoldable pub raw_key : String → List Part → String
raw_key namespace parts = join "|" (namespace ∷ map str parts)

module _ (digest : String → String) where
  unfoldable pub key : String → List Part → String
  key namespace parts = concat "omniai:cache:" (digest (raw_key namespace parts))

-- Whether there is a client: a URL is set and `redis.from_url` does not raise.
unfoldable pub redis_client : String → Bool → Bool
redis_client redis_url opens = not (is_empty redis_url) && opens

unfoldable pub hit : Metrics → Metrics
hit m = record m { hits = m.hits + 1 }

unfoldable pub miss : Metrics → Metrics
miss m = record m { misses = m.misses + 1 }

unfoldable pub error : Metrics → Metrics
error m = record m { errors = m.errors + 1 }

module _ {ℓ κ} {R : Type ℓ} {V : Type κ} (redis : Redis R) (json : Json V) where
  abbrev pub decoded : Option (Option V) → Answer V
  decoded none = raised
  decoded (some v) = returned v

  unfoldable pub from_memory : ℕ → Option (ℕ × String) → Cache R → Answer V × Cache R
  unfolding hit miss
  from_memory now none c = (returned none, record c { metrics = miss c.metrics })
  from_memory now (some (expires, payload)) c =
      if leb now expires
      then (decoded (json.loads payload), record c { metrics = hit c.metrics })
      else (returned none, record c { metrics = miss c.metrics })

  abbrev or_memory : ℕ → String → Option (Option V) → Cache R → Answer V × Cache R
  or_memory now cache_key none c =
      from_memory now (c.memory cache_key) (record c { metrics = error c.metrics })
  or_memory now cache_key (some v) c = (returned v, c)

  -- The `try` block on the answer of the server, with what follows it.
  unfoldable pub from_redis : ℕ → String → Option (Option String) → Cache R → Answer V × Cache R
  unfolding hit error
  from_redis now cache_key none c =
      from_memory now (c.memory cache_key) (record c { metrics = error c.metrics })
  from_redis now cache_key (some none) c = from_memory now (c.memory cache_key) c
  from_redis now cache_key (some (some payload)) c =
      or_memory now cache_key (json.loads payload) (record c { metrics = hit c.metrics })

  -- `client` tells whether there is a Redis client.
  unfoldable pub get_cached :
      (String → String) → Bool → ℕ → String → List Part → Cache R → Answer V × Cache R
  unfolding key
  get_cached digest client now namespace parts c =
      let cache_key = key digest namespace parts in
      if client
      then from_redis now cache_key (redis.get c.server now cache_key) c
      else from_memory now (c.memory cache_key) c

  unfoldable pub remember : ℕ → String → ℕ → String → Cache R → Cache R
  remember now cache_key ttl_seconds payload c = record c {
    memory = λ k. if k == cache_key then some (now + ttl_seconds * second, payload) else c.memory k;
  }

  unfoldable pub to_redis : ℕ → String → ℕ → String → Option R → Cache R → Cache R
  unfolding error remember
  to_redis now cache_key ttl_seconds payload none c =
      remember now cache_key ttl_seconds payload (record c { metrics = error c.metrics })
  to_redis now cache_key ttl_seconds payload (some server) c = record c { server = server }

  unfoldable pub set_cached :
      (String → String) → Bool → ℕ → String → List Part → Option V → ℕ → Cache R → Cache R
  unfolding key remember to_redis
  set_cached digest client now namespace parts value ttl_seconds c =
      let cache_key = key digest namespace parts in
      let payload = json.dumps value in
      if client
      then to_redis now cache_key ttl_seconds payload
          (redis.setex c.server now cache_key ttl_seconds payload) c
      else remember now cache_key ttl_seconds payload c

-- The fields of a retrieval in the order of the key.
pub record Retrieval : Type 0 where
  pub query : String
  pub user_id : Option ℕ
  pub workspace_id : String
  pub collection_id : Option ℕ
  pub session_id : Option ℕ

unfoldable pub retrieval_parts : Retrieval → List Part
retrieval_parts r =
    phrase r.query
    ∷ optional r.user_id
    ∷ phrase r.workspace_id
    ∷ optional r.collection_id
    ∷ optional r.session_id
    ∷ []

module _ {ℓ κ} {R : Type ℓ} {V : Type κ} (redis : Redis R) (json : Json V)
    (digest : String → String) (client : Bool) (now : ℕ) where
  unfoldable pub cache_retrieval_result : Retrieval → Option V → ℕ → Cache R → Cache R
  unfolding set_cached retrieval_parts
  cache_retrieval_result r value ttl_seconds =
      set_cached redis json digest client now "retrieval" (retrieval_parts r) value ttl_seconds

  unfoldable pub get_retrieval_cache : Retrieval → Cache R → Answer V × Cache R
  unfolding get_cached retrieval_parts
  get_retrieval_cache r = get_cached redis json digest client now "retrieval" (retrieval_parts r)

  unfoldable pub cache_embedding : String → Option V → ℕ → Cache R → Cache R
  unfolding set_cached
  cache_embedding s vector ttl_seconds =
      set_cached redis json digest client now "embedding" (phrase s ∷ []) vector ttl_seconds

  unfoldable pub get_embedding_cache : String → Cache R → Answer V × Cache R
  unfolding get_cached
  get_embedding_cache s = get_cached redis json digest client now "embedding" (phrase s ∷ [])

  unfoldable pub cache_query_result : String → String → Option ℕ → Option V → ℕ → Cache R → Cache R
  unfolding set_cached
  cache_query_result namespace query user_id value ttl_seconds =
      set_cached redis json digest client now namespace (phrase query ∷ optional user_id ∷ []) value
        ttl_seconds

  unfoldable pub get_query_cache : String → String → Option ℕ → Cache R → Answer V × Cache R
  unfolding get_cached
  get_query_cache namespace query user_id =
      get_cached redis json digest client now namespace (phrase query ∷ optional user_id ∷ [])
