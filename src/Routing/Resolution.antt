-- ===== src/Routing/Resolution.antt =====
-- resolve of backend/app/services/model_router.py, composed with get_provider_for_route.
use omni_ai_v.Prelude.{
  ◌≡◌, refl, String, Bool, true, false, not, ◌&&◌, ◌||◌, none, some, arith, if◌then◌else◌, ◌==◌,
  text_comparable, is_empty, strip, lower, All, Bool-cases, Option-cases, inl, inr, eq_of_beq,
  is_some,
}
use omni_ai_v.Rows.{find_first, find_first-All}
use omni_ai_v.Routing.{
  AppSettings, ModelDefinition, ModelRoute, Result, ok, failed, is_available, build_model_catalog,
  route_to, route_if_available, or_else, fallback, user_selected, by_task, resolve, llama_70b,
}
use omni_ai_v.Routing.Providers.{
  groq_provider, deepseek_provider, create_llm_provider, get_provider_for_route, lacks_key,
}

-- The route's provider can be made and has a key.
unfoldable pub is_usable : AppSettings → ModelRoute → Bool
is_usable s route = elim (get_provider_for_route s route) [
  | ok p ↦ not (lacks_key p)
  | failed e ↦ false
]

-- The catalogue has an available model under this id.
unfoldable pub is_offered : AppSettings → String → Bool
is_offered s id = is_some (route_if_available s id "")

is_offered-none :
    (s : AppSettings) (id : String)
    → find_first (λ d. d.id == id) (build_model_catalog s) ≡ none
    → is_offered s id ≡ false
unfolding is_offered route_if_available
is_offered-none s id absent = rw absent refl

is_offered-some :
    (s : AppSettings) (id : String) (m : ModelDefinition)
    → find_first (λ d. d.id == id) (build_model_catalog s) ≡ some m
    → is_available s m ≡ false
    → is_offered s id ≡ false
unfolding is_offered route_if_available
is_offered-some s id m found e = rw (found, e) refl

abbrev Usable : AppSettings → ModelDefinition → Type 0
Usable s m =
    (m.id == "auto") ≡ false
    → is_available s m ≡ true
    → (reason : String) → is_usable s (route_to reason m) ≡ true

catalog-Usable : (s : AppSettings) → All (Usable s) (build_model_catalog s)
unfolding build_model_catalog is_available is_usable get_provider_for_route create_llm_provider
    groq_provider deepseek_provider lacks_key strip lower
catalog-Usable s = (
  λ a h reason. absurd (cc a),
  (λ a h reason. h, (λ a h reason. h, (λ a h reason. h, (λ a h reason. h, tt)))),
)

named-Usable :
    (s : AppSettings) (id : String) {m : ModelDefinition}
    → (id == "auto") ≡ false
    → find_first (λ d. d.id == id) (build_model_catalog s) ≡ some m
    → ((m.id == "auto") ≡ false) × Usable s m
named-Usable s id {m} named found =
    let (own, usable) =
      find_first-All (Usable s) (λ d. d.id == id) (build_model_catalog s) found
        (catalog-Usable s) in
    (rw (eq_of_beq m.id id own) named, usable)

or_else-usable :
    (s : AppSettings) (id reason : String) (r : ModelRoute)
    → (id == "auto") ≡ false
    → is_usable s r ≡ true
    → is_usable s (or_else (route_if_available s id reason) r) ≡ true
unfolding route_if_available
or_else-usable s id reason r named h =
    elim (Option-cases (find_first (λ d. d.id == id) (build_model_catalog s))) [
      | inl absent ↦ rw absent h
      | inr (m, found) ↦
          let (other, usable) = named-Usable s id named found in
          elim (Bool-cases (is_available s m)) [
            | inl e ↦ rw (found, e) (usable other e reason)
            | inr e ↦ rw (found, e) h
          ]
    ]

if-usable :
    (s : AppSettings) (b : Bool) (x y : ModelRoute)
    → is_usable s x ≡ true
    → is_usable s y ≡ true
    → is_usable s (if b then x else y) ≡ true
if-usable s true x y h k = h
if-usable s false x y h k = k

module _ (has_coding_hints has_reasoning_hints : String → Bool) where
  general-usable :
      (s : AppSettings)
      → is_available s (llama_70b s) ≡ true
      → is_usable s (
          or_else
            (route_if_available s "llama-70b" "general_chat")
            (fallback has_coding_hints has_reasoning_hints s))
        ≡ true
  unfolding route_if_available build_model_catalog find_first
  general-usable s h = rw h ((catalog-Usable s).1.0 refl h "general_chat")

  by_task-usable :
      (s : AppSettings) (mode query : String)
      → is_available s (llama_70b s) ≡ true
      → is_usable s (by_task has_coding_hints has_reasoning_hints s mode query) ≡ true
  unfolding by_task
  by_task-usable s mode query h =
      let general = general-usable s h in
      let fast =
        if-usable s _ _ _ (or_else-usable s "llama-fast" "fast_query" _ refl general) general in
      let reasoning = if-usable s _ _ _ (or_else-usable s "llama-70b" _ _ refl fast) fast in
      if-usable s _ _ _ (or_else-usable s "deepseek-chat" "coding_task" _ refl reasoning) reasoning

  -- The name that the user gives: stripped, in lower case, neither empty nor "auto".
  unfoldable pub is_named : String → Bool
  is_named id = not (is_empty id) && not (id == "auto" || id == "")

  unfoldable pub is_right : AppSettings → String → Result ModelRoute → Bool
  is_right s id (ok route) = is_usable s route
  is_right s id (failed e) = is_named id && not (is_offered s id)

  if-right :
      (s : AppSettings) (id : String) (b : Bool) (x y : Result ModelRoute)
      → is_right s id x ≡ true
      → is_right s id y ≡ true
      → is_right s id (if b then x else y) ≡ true
  if-right s id true x y h k = h
  if-right s id false x y h k = k

  -- If the default model is available: a request is refused only if it names a model that the
  -- catalogue lacks or that is not available, and else the provider of its route can be made and has
  -- its key.
  pub resolve_usable :
      (s : AppSettings) (mode query model_id : String)
      → is_available s (llama_70b s) ≡ true
      → is_right s
          (lower (strip model_id))
          (resolve has_coding_hints has_reasoning_hints s mode query model_id)
        ≡ true
  unfolding resolve is_right is_named user_selected
  resolve_usable s mode query model_id h =
      let id = lower (strip model_id) in
      elim (Bool-cases (is_named id)) [
        | inr e ↦ rw e (
            if-right s id (not s.model_routing_enabled) _ _
              ((catalog-Usable s).1.0 refl h "routing_disabled") (by_task-usable s mode query h))
        | inl e ↦
            let named : (id == "auto") ≡ false = ground arith in
            rw e (elim (Option-cases (find_first (λ d. d.id == id) (build_model_catalog s))) [
              | inl absent ↦ rw absent (rw (e, is_offered-none s id absent) refl)
              | inr (m, found) ↦
                  let (other, usable) = named-Usable s id named found in
                  elim (Bool-cases (is_available s m)) [
                    | inl k ↦ rw (found, other, k) (usable other k "user_selected")
                    | inr k ↦ rw (found, other, k) (rw (e, is_offered-some s id m found k) refl)
                  ]
            ])
      ]
