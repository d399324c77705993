-- ===== src/Caching/Reference.antt =====
-- The calls of backend/app/services/redis_cache_service.py without a Redis client, against a plain
-- log of what was stored.
use text.Mathlib.TextLemmas.{append_cancel_left}
use Prim.Native.String.{◌++◌ as concat}
use omni_ai_v.Prelude.{
  ℕ, ◌+◌, ◌*◌, ◌≡◌, refl, sym, ap, ◌∙◌, String, false, Option, none, some, List, [], ◌∷◌, arith,
  leb, if◌then◌else◌, Bool-cases, inl, inr, ◌==◌, text_comparable, eq_of_beq, beq_of_eq,
}
use omni_ai_v.RateLimit.{second}
use omni_ai_v.Caching.{
  Redis, Json, Metrics, Cache, Answer, returned, Part, raw_key, key, hit, miss, from_memory,
  remember, get_cached, set_cached,
}

pub data Op {ℓ} (V : Type ℓ) : Type ℓ where
  store : ℕ → String → List Part → Option V → ℕ → Op V
  find : ℕ → String → List Part → Op V

-- One call of `set_cached`.
pub record Entry {ℓ} (V : Type ℓ) : Type ℓ where
  pub name : String
  pub expires : ℕ
  pub value : Option V

module _ {ℓ} {V : Type ℓ} where
  -- The value that was stored last under the name, unless it has expired.
  unfoldable pub recall : ℕ → String → List (Entry V) → Option V
  recall now name [] = none
  recall now name (e ∷ log) =
      let earlier = recall now name log in
      if name == e.name then if leb now e.expires then e.value else none else earlier

  unfoldable pub replay : List (Op V) → List (Entry V) → List (Answer V)
  unfolding recall
  replay [] log = []
  replay (store now namespace parts value ttl_seconds ∷ ops) log = replay ops (
      record { name = raw_key namespace parts; expires = now + ttl_seconds * second; value = value }
      ∷ log)
  replay (find now namespace parts ∷ ops) log =
      returned (recall now (raw_key namespace parts) log) ∷ replay ops log

  unfoldable pub finds : List (Op V) → ℕ
  finds [] = 0
  finds (store now namespace parts value ttl_seconds ∷ ops) = finds ops
  finds (find now namespace parts ∷ ops) = finds ops + 1

abbrev pub empty {ℓ} : {R : Type ℓ} → R → Cache R
empty server = record {
  memory = λ k. none;
  metrics = record { hits = 0; misses = 0; errors = 0 };
  server = server;
}

abbrev pub lookups : Metrics → ℕ
lookups m = m.hits + m.misses

module _ {ℓ κ} {R : Type ℓ} {V : Type κ} (redis : Redis R) (json : Json V)
    (digest : String → String) where
  unfoldable pub run : List (Op V) → Cache R → List (Answer V) × Cache R
  run [] c = ([], c)
  run (store now namespace parts value ttl_seconds ∷ ops) c =
      run ops (set_cached redis json digest false now namespace parts value ttl_seconds c)
  run (find now namespace parts ∷ ops) c =
      let (answer, after) = get_cached redis json digest false now namespace parts c in
      let (answers, final) = run ops after in (answer ∷ answers, final)

  slot : String → String
  slot name = concat "omniai:cache:" (digest name)

  -- The memory that a log describes.
  abbrev memory_of : List (Entry V) → String → Option (ℕ × String)
  memory_of [] k = none
  memory_of (e ∷ log) k =
      if k == concat "omniai:cache:" (digest e.name)
      then some (e.expires, json.dumps e.value)
      else memory_of log k

  module _ (inj : (a b : String) → digest a ≡ digest b → a ≡ b)
      (round : (v : Option V) → json.loads (json.dumps v) ≡ some v) where
    same_slot : (a b : String) → (slot a == slot b) ≡ (a == b)
    unfolding slot
    same_slot a b = elim (Bool-cases (a == b)) [
      | inl e ↦ rw e (beq_of_eq _ _ (ap slot (eq_of_beq a b e)))
      | inr e ↦ elim (Bool-cases (slot a == slot b)) [
        | inr f ↦ f ∙ sym e
        | inl f ↦
            let same = inj a b (append_cancel_left "omniai:cache:" _ _ (eq_of_beq _ _ f)) in
            absurd (cc (e, beq_of_eq a b same))
      ]
    ]

    from_memory-recall :
        (now : ℕ) (name : String) (log : List (Entry V)) (c : Cache R)
        → ((from_memory redis json now (memory_of log (slot name)) c).0
            ≡ returned (recall now name log))
          × ((from_memory redis json now (memory_of log (slot name)) c).1.memory ≡ c.memory)
          × (lookups (from_memory redis json now (memory_of log (slot name)) c).1.metrics
              ≡ lookups c.metrics + 1)
    unfolding from_memory recall hit miss slot
    from_memory-recall now name [] c = (refl, refl, omega arith)
    from_memory-recall now name (e ∷ log) c = elim (Bool-cases (name == e.name)) [
      | inr other ↦ rw (same_slot name e.name, other) (from_memory-recall now name log c)
      | inl here ↦
          rw (same_slot name e.name, here)
            (elim (Bool-cases (leb now e.expires)) [
              | inl fresh ↦ rw (fresh, round e.value) (refl, refl, omega arith)
              | inr over ↦ rw over (refl, refl, omega arith)
            ])
    ]

    from_memory-log :
        (now : ℕ) (name : String) (log : List (Entry V)) (m : String → Option (ℕ × String))
        (c : Cache R)
        → m ≡ memory_of log
        → ((from_memory redis json now (m (slot name)) c).0 ≡ returned (recall now name log))
          × ((from_memory redis json now (m (slot name)) c).1.memory ≡ c.memory)
          × (lookups (from_memory redis json now (m (slot name)) c).1.metrics
              ≡ lookups c.metrics + 1)
    from_memory-log now name log m c h = rw h (from_memory-recall now name log c)

    run-replay_from :
        (ops : List (Op V)) (log : List (Entry V)) (c : Cache R)
        → c.memory ≡ memory_of log
        → ((run ops c).0 ≡ replay ops log)
          × (lookups (run ops c).1.metrics ≡ lookups c.metrics + finds ops)
    unfolding run replay finds set_cached get_cached remember key slot
    run-replay_from [] log c h = (refl, omega arith)
    run-replay_from (store now namespace parts value ttl_seconds ∷ ops) log c h =
        run-replay_from ops _ _ (
          ap
            (λ m. λ k.
              if k == key digest namespace parts
              then some (now + ttl_seconds * second, json.dumps value)
              else m k)
            h)
    run-replay_from (find now namespace parts ∷ ops) log c h =
        let step = from_memory-log now (raw_key namespace parts) log c.memory c h in
        let after = (from_memory redis json now (c.memory (slot (raw_key namespace parts))) c).1 in
        let ih = run-replay_from ops log after (step.1 ∙ h) in
        (cc (step.0, ih.0), omega (arith, step.2, ih.1))

module _ {ℓ κ} {R : Type ℓ} {V : Type κ} (redis : Redis R) (json : Json V)
    (digest : String → String) where
  -- Without a client, if SHA-256 does not collide and JSON keeps the values: over any sequence of calls
  -- on an empty cache the answers are those of a log of what was stored, in which the latest entry of a
  -- name counts and has no value once it has expired, and each lookup is counted once as a hit or a miss.
  pub run-replay :
      (ops : List (Op V)) (server : R)
      → ((a b : String) → digest a ≡ digest b → a ≡ b)
      → ((v : Option V) → json.loads (json.dumps v) ≡ some v)
      → ((run redis json digest ops (empty server)).0 ≡ replay ops [])
        × (lookups (run redis json digest ops (empty server)).1.metrics ≡ finds ops)
  run-replay ops server inj round =
      let all = run-replay_from redis json digest inj round ops [] (empty server) refl in
      (all.0, omega (arith, all.1))
