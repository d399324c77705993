-- ===== src/Caching/Tests.antt =====
-- The cache on examples: a server that answers, `json` on texts, and a digest that is the text.
use omni_ai_v.Prelude.{
  ℕ, ◌+◌, ◌*◌, ◌≡◌, refl, String, true, Option, none, some, List, [], ◌∷◌, ltb, if◌then◌else◌, ◌==◌,
  text_comparable, join,
}
use omni_ai_v.RateLimit.{second}
use omni_ai_v.Caching
use omni_ai_v.Caching.{
  Redis, Json, Cache, Answer, returned, Part, phrase, key, get_cached, set_cached, Retrieval,
  retrieval_parts, str,
}
use omni_ai_v.Caching.Reference.{
  Op, store, find, run, replay, finds, lookups, empty, run-replay, recall,
}

abbrev Server : Type 0
Server = String → Option (ℕ × String)

abbrev alive : ℕ → Option (ℕ × String) → Option String
alive now none = none
alive now (some (expires, payload)) = if ltb now expires then some payload else none

abbrev redis : Redis Server
redis = record {
  get = λ server now k. some (alive now (server k));
  setex = λ server now k ttl_seconds payload.
      some (λ j. if j == k then some (now + ttl_seconds * second, payload) else server j);
}

abbrev dumps : Option String → String
dumps none = "null"
dumps (some s) = String.◌∷◌ "'" s

abbrev loads : String → Option (Option String)
loads String.[] = none
loads (String.◌∷◌ c s) =
    if String.◌∷◌ c "" == "'" then some (some s) else if s == "ull" then some none else none

abbrev json : Json String
json = record { dumps = dumps; loads = loads }

round : (v : Option String) → json.loads (json.dumps v) ≡ some v
round none = refl
round (some s) = refl

abbrev same_text : String → String
same_text s = s

abbrev accepted : Server → Option Server → Server
accepted server none = server
accepted server (some after) = after

-- A server that takes no write before the time 10.
abbrev restarting : Redis Server
restarting = record redis {
  setex = λ server now k ttl_seconds payload.
      if ltb now 10 then none else redis.setex server now k ttl_seconds payload;
}

-- The write is refused, and the older text is read.
older_run :
    (get_cached restarting json same_text true 4 "research" (phrase "antt" ∷ []) (
      set_cached restarting json same_text true 3 "research"
        (phrase "antt" ∷ [])
        (some "found")
        600
        (empty (λ k. some (600, json.dumps (some "old")))))).0
    ≡ returned (some "old")
unfolding get_cached set_cached Caching.from_redis Caching.to_redis Caching.hit Caching.remember
    Caching.error Caching.key Caching.raw_key
older_run = refl

abbrev calls : List (Op String)
calls =
    store 0 "research" (phrase "antt" ∷ []) (some "old") 10
    ∷ store 5 "research" (phrase "antt" ∷ []) (some "new") 1
    ∷ find 6 "research" (phrase "antt" ∷ [])
    ∷ find 2000000 "research" (phrase "antt" ∷ [])
    ∷ []

run-replay_example :
    ((run redis json same_text calls (empty (λ k. none))).0
      ≡ returned (some "new") ∷ returned none ∷ [])
    × (lookups (run redis json same_text calls (empty (λ k. none))).1.metrics ≡ 2)
unfolding replay recall finds join Caching.raw_key str
run-replay_example = run-replay redis json same_text calls (λ k. none) (λ a b same. same) round

abbrev retrieval : ℕ → Retrieval
retrieval u = record {
  query = "antt";
  user_id = some u;
  workspace_id = "default";
  collection_id = none;
  session_id = some 5;
}
