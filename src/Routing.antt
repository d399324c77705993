-- ===== src/Routing.antt =====
-- The choice of a language model: backend/app/core/model_catalog.py,
-- backend/app/services/model_router.py and the constructors of backend/app/core/llm.py. The regular
-- expressions for coding and for reasoning queries are parameters.
pub mod Providers
pub mod Resolution
mod Tests
use Prim.Native.String.{◌++◌ as concat}
use omni_ai_v.Prelude.{
  ℕ, String, Bool, true, false, not, ◌&&◌, ◌||◌, Option, none, some, List, [], ◌∷◌, ltb, leb,
  if◌then◌else◌, ◌==◌, text_comparable, is_empty, strip, lower, select, text_length, occurrences,
}
use omni_ai_v.Rows.{find_first}

pub record AppSettings : Type 0 where
  pub groq_api_key : String
  pub deepseek_api_key : String
  pub openai_api_key : String
  pub ollama_url : String
  pub groq_reasoning_model : String
  pub groq_fast_model : String
  pub groq_gemma_model : String
  pub groq_model : String
  pub deepseek_model : String
  pub openai_model : String
  pub default_model : String
  pub llm_provider : String
  pub model_routing_enabled : Bool

unfoldable pub llm_model_name : AppSettings → String
llm_model_name s =
    if s.llm_provider == "groq"
    then s.groq_model
    else if s.llm_provider == "openai"
    then s.openai_model
    else s.default_model

pub record ModelDefinition : Type 0 where
  pub id : String
  pub name : String
  pub provider : String
  pub model_name : String
  pub description : String
  pub roles : List String
  pub badge : Option String

unfoldable pub is_available : AppSettings → ModelDefinition → Bool
unfolding strip
is_available s m =
    if m.provider == "groq"
    then not (is_empty (strip s.groq_api_key))
    else if m.provider == "deepseek"
    then not (is_empty (strip s.deepseek_api_key))
    else if m.provider == "openai"
    then not (is_empty (strip s.openai_api_key))
    else if m.provider == "ollama"
    then not (is_empty (strip s.ollama_url))
    else false

abbrev pub auto_route : ModelDefinition
auto_route = record {
  id = "auto";
  name = "Auto Route";
  provider = "router";
  model_name = "auto";
  description = "Automatically pick the best model for your task.";
  roles = "auto" ∷ [];
  badge = some "Smart";
}

abbrev pub llama_70b : AppSettings → ModelDefinition
llama_70b s = record {
  id = "llama-70b";
  name = "Llama 3.3 70B";
  provider = "groq";
  model_name = s.groq_reasoning_model;
  description = "Best for reasoning, research, and general chat.";
  roles = "general" ∷ "reasoning" ∷ "research" ∷ [];
  badge = some "Default";
}

abbrev pub llama_fast : AppSettings → ModelDefinition
llama_fast s = record {
  id = "llama-fast";
  name = "Llama 3.1 8B";
  provider = "groq";
  model_name = s.groq_fast_model;
  description = "Low-latency responses for quick questions.";
  roles = "fast" ∷ "general" ∷ [];
  badge = none;
}

abbrev pub deepseek_chat : AppSettings → ModelDefinition
deepseek_chat s = record {
  id = "deepseek-chat";
  name = "DeepSeek Chat";
  provider = "deepseek";
  model_name = s.deepseek_model;
  description = "Optimized for coding, debugging, and technical tasks.";
  roles = "coding" ∷ [];
  badge = some "Code";
}

abbrev pub gemma_9b : AppSettings → ModelDefinition
gemma_9b s = record {
  id = "gemma-9b";
  name = "Gemma 2 9B";
  provider = "groq";
  model_name = s.groq_gemma_model;
  description = "Lightweight Google Gemma model via Groq.";
  roles = "fast" ∷ "general" ∷ [];
  badge = none;
}

-- The dictionary's values in their order; each is filed under its own id.
unfoldable pub build_model_catalog : AppSettings → List ModelDefinition
build_model_catalog s = auto_route ∷ llama_70b s ∷ llama_fast s ∷ deepseek_chat s ∷ gemma_9b s ∷ []

unfoldable pub list_model_definitions : AppSettings → Bool → List ModelDefinition
unfolding build_model_catalog is_available
list_model_definitions s available_only =
    if available_only
    then select (λ m. m.id == "auto" || is_available s m) (build_model_catalog s)
    else build_model_catalog s

pub record ModelRoute : Type 0 where
  pub model_id : String
  pub provider : String
  pub model_name : String
  pub display_name : String
  pub reason : String

-- A result, or an LLMProviderError with its message.
pub data Result {ℓ} (A : Type ℓ) : Type ℓ where
  ok : A → Result A
  failed : String → Result A

abbrev route_to : String → ModelDefinition → ModelRoute
route_to reason m = record {
  model_id = m.id;
  provider = m.provider;
  model_name = m.model_name;
  display_name = m.name;
  reason = reason;
}

abbrev if_available : AppSettings → String → Option ModelDefinition → Option ModelRoute
if_available s reason none = none
if_available s reason (some m) = if is_available s m then some (route_to reason m) else none

unfoldable pub route_if_available : AppSettings → String → String → Option ModelRoute
unfolding build_model_catalog find_first
route_if_available s model_id reason =
    if_available s reason (find_first (λ m. m.id == model_id) (build_model_catalog s))

unfoldable pub is_fast_query : String → Bool
unfolding strip
is_fast_query query =
    let t = strip query in
    ltb 0 (text_length t) && leb (text_length t) 80 && ltb (occurrences b' ' t) 12

abbrev or_else : Option ModelRoute → ModelRoute → ModelRoute
or_else none r = r
or_else (some route) r = route

module _ (has_coding_hints has_reasoning_hints : String → Bool) where
  unfoldable pub looks_like_coding_request : String → String → Bool
  looks_like_coding_request query mode = mode == "coding" || has_coding_hints query

  abbrev fallback : AppSettings → ModelRoute
  fallback s = record {
    model_id = "llama-70b";
    provider = s.llm_provider;
    model_name = llm_model_name s;
    display_name = "Llama 3.3 70B";
    reason = "fallback_default";
  }

  -- The model that the user names.
  unfoldable pub user_selected : AppSettings → String → Option ModelDefinition → Result ModelRoute
  user_selected s cleaned_id none = failed (concat "Unknown model id '" (concat cleaned_id "'."))
  user_selected s cleaned_id (some m) =
      if m.id == "auto"
      then failed (concat "Unknown model id '" (concat cleaned_id "'."))
      else if is_available s m
      then ok (route_to "user_selected" m)
      else failed (concat "Model '" (concat m.name "' is not configured on the server."))

  -- The choice by the mode and the query.
  unfoldable pub by_task : AppSettings → String → String → ModelRoute
  unfolding looks_like_coding_request is_fast_query
  by_task s mode query =
      let general = or_else (route_if_available s "llama-70b" "general_chat") (fallback s) in
      let fast =
        if is_fast_query query
        then or_else (route_if_available s "llama-fast" "fast_query") general
        else general in
      let reasoning =
        if mode == "research" || mode == "analyst" || has_reasoning_hints query
        then or_else (route_if_available s "llama-70b" (concat mode "_mode")) fast
        else fast in
      if mode == "coding" || looks_like_coding_request query mode
      then or_else (route_if_available s "deepseek-chat" "coding_task") reasoning
      else reasoning

  -- `model_id or ""` is the argument's text, with "" for None.
  unfoldable pub resolve : AppSettings → String → String → String → Result ModelRoute
  unfolding strip lower build_model_catalog find_first user_selected by_task
  resolve s mode query model_id =
      let cleaned_id = lower (strip model_id) in
      if not (is_empty cleaned_id) && not (cleaned_id == "auto" || cleaned_id == "")
      then user_selected s cleaned_id (find_first (λ m. m.id == cleaned_id) (build_model_catalog s))
      else if not s.model_routing_enabled
      then ok (route_to "routing_disabled" (llama_70b s))
      else ok (by_task s mode query)
