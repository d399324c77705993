-- ===== src/Routing/Providers.antt =====
-- The constructors of backend/app/core/llm.py and get_provider_for_route of backend/app/services/model_router.py.
use Prim.Native.String.{◌++◌ as concat}
use omni_ai_v.Prelude.{
  String, Bool, false, Option, none, some, if◌then◌else◌, ◌==◌, text_comparable, is_empty, strip,
  lower,
}
use omni_ai_v.Routing.{AppSettings, ModelRoute, Result, failed, ok}

-- A provider after its `__init__`. The Ollama provider has no key.
pub record Provider : Type 0 where
  pub name : String
  pub api_key : Option String
  pub model : String

-- `(model or default).strip() or last`
abbrev chosen : String → String → String → String
chosen model default last =
    let m = strip (if is_empty model then default else model) in if is_empty m then last else m

-- GroqProvider, OpenAIProvider, DeepSeekProvider and OllamaProvider.
unfoldable pub groq_provider : AppSettings → String → Provider
unfolding strip
groq_provider s model = record {
  name = "groq";
  api_key = some (strip s.groq_api_key);
  model = chosen model s.groq_model "llama-3.3-70b-versatile";
}

unfoldable pub openai_provider : AppSettings → String → Provider
unfolding strip
openai_provider s model = record {
  name = "openai";
  api_key = some (strip s.openai_api_key);
  model = chosen model s.openai_model "gpt-4o-mini";
}

unfoldable pub deepseek_provider : AppSettings → String → Provider
unfolding strip
deepseek_provider s model = record {
  name = "deepseek";
  api_key = some (strip s.deepseek_api_key);
  model = chosen model s.deepseek_model "deepseek-chat";
}

unfoldable pub ollama_provider : AppSettings → Provider
ollama_provider s = record { name = "ollama"; api_key = none; model = s.default_model }

unfoldable pub create_llm_provider : AppSettings → String → String → Result Provider
unfolding strip lower groq_provider openai_provider deepseek_provider ollama_provider
create_llm_provider s provider model =
    let normalized = lower (strip provider) in
    if normalized == "groq"
    then ok (groq_provider s model)
    else if normalized == "openai"
    then ok (openai_provider s model)
    else if normalized == "deepseek"
    then ok (deepseek_provider s model)
    else if normalized == "ollama"
    then ok (ollama_provider s)
    else failed (
        concat "Unsupported LLM provider '"
          (concat provider "'. Use 'groq', 'openai', 'deepseek', or 'ollama'."))

unfoldable pub get_provider_for_route : AppSettings → ModelRoute → Result Provider
unfolding create_llm_provider
get_provider_for_route s route =
    if route.provider == "router"
    then failed "Cannot instantiate router pseudo-provider."
    else create_llm_provider s route.provider route.model_name

-- The first test of `_get_client`: whether it raises for want of a key.
unfoldable pub lacks_key : Provider → Bool
lacks_key p = missing p.api_key
  where
    missing : Option String → Bool
    missing none = false
    missing (some k) = is_empty k
