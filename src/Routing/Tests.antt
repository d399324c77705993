-- ===== src/Routing/Tests.antt =====
-- The model router on examples.
use omni_ai_v.Prelude.{
  ◌≡◌, refl, String, Bool, true, false, List, [], ◌∷◌, strip, lower, occurrences, if◌then◌else◌,
  ◌==◌, text_comparable,
}
use omni_ai_v.Prelude
use omni_ai_v.Rows
use omni_ai_v.Routing.{
  AppSettings, ModelRoute, Result, ok, failed, resolve, is_available, build_model_catalog, by_task,
  user_selected, route_if_available, looks_like_coding_request, is_fast_query,
}
use omni_ai_v.Routing.Resolution.{is_right, resolve_usable}

abbrev settings : AppSettings
settings = record {
  groq_api_key = "key";
  deepseek_api_key = " ";
  openai_api_key = "";
  ollama_url = "";
  groq_reasoning_model = "llama-3.3-70b-versatile";
  groq_fast_model = "llama-3.1-8b-instant";
  groq_gemma_model = "gemma2-9b-it";
  groq_model = "llama-3.3-70b-versatile";
  deepseek_model = "deepseek-chat";
  openai_model = "gpt-4o-mini";
  default_model = "llama3";
  llm_provider = "groq";
  model_routing_enabled = true;
}

abbrev has_code : String → Bool
has_code query = query == "fix my python"

abbrev has_reasoning : String → Bool
has_reasoning query = query == "compare them"

abbrev reason_of : Result ModelRoute → String
reason_of (ok route) = route.reason
reason_of (failed e) = e

fast_run :
    reason_of (resolve has_code has_reasoning settings "writing" "hello there" "Auto ")
    ≡ "fast_query"
unfolding resolve by_task looks_like_coding_request is_fast_query route_if_available
    build_model_catalog is_available strip lower occurrences Prelude.lstrip Prelude.rstrip
    Prelude.is_space Rows.find_first
fast_run = refl

unavailable_run :
    reason_of (resolve has_code has_reasoning settings "coding" "fix my python" "DeepSeek-Chat")
    ≡ "Model 'DeepSeek Chat' is not configured on the server."
unfolding resolve user_selected build_model_catalog is_available strip lower Rows.find_first
unavailable_run = refl

resolve_usable_example :
    is_right has_code has_reasoning settings
      (lower (strip ""))
      (resolve has_code has_reasoning settings "coding" "fix my python" "")
    ≡ true
unfolding is_available
resolve_usable_example =
    resolve_usable has_code has_reasoning settings "coding" "fix my python" "" refl
