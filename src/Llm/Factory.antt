-- ===== src/Llm/Factory.antt =====
-- llm/factory.go: the configuration from the environment, and New.
pub mod Keys
mod Tests
use rag_ai_system.Prelude.{
  ℕ, inl, inr, Option, none, some, List, [], map, if◌then◌else◌, Option-cases, ℤ, pos, Result, ok,
  err,
}
use rag_ai_system.Text.{Text, codes, is_nil, text_eq}
use rag_ai_system.Config.{string_setting, parsed_setting}
use rag_ai_system.Backoff.{Err, plain, Policy, default_policy, World, retry}
use rag_ai_system.Backoff.GoogleHint.{Fields}
use rag_ai_system.Http.{Exchange, Post}
use rag_ai_system.Embed.Ollama.{ollama_name, default_ollama_url}
use rag_ai_system.Embed.Factory.{
  Rates, ConfigError, unknown_provider, openrouter_name, with_setting,
}
use rag_ai_system.Llm.{Generator, with_retry, with_rate_limit, new_stub}
use rag_ai_system.Llm.Contract.{Builds, decorated-Speaks, new_stub-Speaks}
use rag_ai_system.Llm.OpenAi.{
  ChatRequest, ChatAnswer, openai_name, new_chat, new_openrouter, new_chat-Builds,
  new_openrouter-Builds,
}
use rag_ai_system.Llm.Ollama.{new_local, new_local-Builds}
use rag_ai_system.Llm.Google.{google_name, GenerateContent, new_gemini, new_gemini-Builds}

pub record LlmConfig (R : Type 0) : Type 0 where
  pub provider : Text
  pub model : Text
  pub api_key : Text
  pub base_url : Text
  pub ollama_url : Text
  pub app_url : Text
  pub app_name : Text
  pub rps : R
  pub burst : ℤ
  pub retry : Policy

-- The vendors that the switch of New names.
pub data LlmVendor : Type 0 where
  google openai openrouter ollama stub : LlmVendor

abbrev pub stub_name : Text
stub_name = codes "stub"

unfoldable pub llm_vendor_of : Text → Option LlmVendor
unfolding text_eq
llm_vendor_of name =
    if text_eq name google_name
    then some google
    else if text_eq name openai_name
    then some openai
    else if text_eq name openrouter_name
    then some openrouter
    else if text_eq name ollama_name
    then some ollama
    else if text_eq name stub_name
    then some stub
    else none

-- providerDefaults
abbrev pub default_llm_model : LlmVendor → Text
default_llm_model google = codes "gemini-3.6-flash"
default_llm_model openai = []
default_llm_model openrouter = []
default_llm_model ollama = codes "llama3.2"
default_llm_model stub = codes "stub"

abbrev pub default_llm_rps : {R : Type 0} → Rates R → LlmVendor → R
default_llm_rps r google = r.one
default_llm_rps r openai = r.one
default_llm_rps r openrouter = r.one
default_llm_rps r ollama = r.zero_rate
default_llm_rps r stub = r.zero_rate

abbrev pub default_app_url : Text
default_app_url = codes "https://github.com/Zinoki12/rag-ai-system"

abbrev pub default_app_name : Text
default_app_name = codes "rag-ai-system"

unfoldable pub llm_api_key : (Text → Text) → Text → Text
unfolding text_eq
llm_api_key env provider =
    if text_eq provider openai_name
    then env (codes "LLM_API_KEY")
    else if text_eq provider openrouter_name
    then (if is_nil (env (codes "OPENROUTER_API_KEY"))
        then env (codes "LLM_API_KEY")
        else env (codes "OPENROUTER_API_KEY"))
    else env (codes "GOOGLE_API_KEY")

-- `env` is os.Getenv, `atoi` strconv.Atoi, and `to_lower` unicode.ToLower.
module _ {R : Type 0} (rates : Rates R) (to_lower : ℕ → ℕ) (atoi : Text → Option ℤ)
    (env : Text → Text) where
  abbrev pub llm_settings : Text → Text → LlmVendor → Result ConfigError (LlmConfig R)
  llm_settings api_key provider v =
      with_setting
        (parsed_setting env rates.parse_float (codes "LLM_RPS") (default_llm_rps rates v))
        (λ rps. with_setting (parsed_setting env atoi (codes "LLM_BURST") (pos 1)) (λ burst.
          ok (record {
            provider = provider;
            model = string_setting env (codes "LLM_MODEL") (default_llm_model v);
            api_key = api_key;
            base_url = env (codes "LLM_BASE_URL");
            ollama_url = string_setting env (codes "OLLAMA_URL") default_ollama_url;
            app_url = string_setting env (codes "OPENROUTER_REFERER") default_app_url;
            app_name = string_setting env (codes "OPENROUTER_TITLE") default_app_name;
            rps = rps;
            burst = burst;
            retry = default_policy;
          })))

  abbrev pub chosen_generator : Text
  chosen_generator = map to_lower (string_setting env (codes "LLM_PROVIDER") stub_name)

  -- ConfigFromEnv
  unfoldable pub llm_config : Result ConfigError (LlmConfig R)
  unfolding llm_vendor_of string_setting parsed_setting llm_api_key
  llm_config = elim (llm_vendor_of chosen_generator) [
    | none ↦ err (unknown_provider chosen_generator)
    | some v ↦ llm_settings (llm_api_key env chosen_generator) chosen_generator v
  ]

-- All that the clients meet outside.
pub record LlmOutside (S R : Type 0) : Type 0 where
  pub parse_time : Text → Option ℤ
  pub parse_duration : Text → Option ℤ
  pub post : Post ChatRequest → S → Exchange × S
  pub decode_chat : Text → Result Err ChatAnswer
  pub decode_message : Text → Result Err Text
  pub as_api : Err → Option (ℤ × List Fields)
  pub new_client : Option Err
  pub generate_content : GenerateContent → S → Result Err Text × S
  pub to_lower : ℕ → ℕ
  pub world : World S
  pub limiter : R → ℤ → S → Option Err × S

module _ {S R : Type 0} (rates : Rates R) (o : LlmOutside S R) where
  abbrev pub wrap_llm : LlmConfig R → Result Err (Generator S) → Result Err (Generator S)
  wrap_llm cfg (err e) = err e
  wrap_llm cfg (ok g) = ok (
      with_rate_limit (o.limiter cfg.rps) (rates.has_rate cfg.rps) cfg.burst
        (with_retry o.world cfg.retry g))

  abbrev pub build_llm : LlmConfig R → LlmVendor → Result Err (Generator S)
  build_llm cfg google =
      new_gemini o.parse_duration o.as_api o.new_client o.generate_content cfg.api_key cfg.model
  build_llm cfg openai =
      new_chat o.parse_time o.post o.decode_chat cfg.base_url cfg.api_key cfg.model []
  build_llm cfg openrouter =
      new_openrouter o.parse_time o.post o.decode_chat cfg.api_key cfg.model cfg.app_url
        cfg.app_name
  build_llm cfg ollama = new_local o.parse_time o.post o.decode_message cfg.ollama_url cfg.model
  build_llm cfg stub = ok (new_stub o.world.ctx_err)

  -- The default that New fills in.
  abbrev pub filled_llm : LlmConfig R → LlmVendor → LlmConfig R
  filled_llm cfg v = record cfg {
    model = (if is_nil cfg.model then default_llm_model v else cfg.model);
  }

  -- New
  unfoldable pub new_generator : LlmConfig R → Result Err (Generator S)
  unfolding llm_vendor_of new_gemini new_chat new_openrouter new_local new_stub
  new_generator cfg = elim (llm_vendor_of (map o.to_lower cfg.provider)) [
    | none ↦ err (plain (codes "unknown generation provider"))
    | some v ↦ wrap_llm cfg (build_llm (filled_llm cfg v) v)
  ]

  wrap_llm-Builds :
      (cfg : LlmConfig R) (r : Result Err (Generator S)) → Builds r → Builds (wrap_llm cfg r)
  wrap_llm-Builds cfg (err e) h = tt
  wrap_llm-Builds cfg (ok g) h =
      decorated-Speaks (o.limiter cfg.rps) (rates.has_rate cfg.rps) cfg.burst o.world cfg.retry g h

  build_llm-Builds : (cfg : LlmConfig R) (v : LlmVendor) → Builds (build_llm cfg v)
  build_llm-Builds cfg google =
      new_gemini-Builds o.parse_duration o.as_api o.new_client o.generate_content cfg.api_key
        cfg.model
  build_llm-Builds cfg openai =
      new_chat-Builds o.parse_time o.post o.decode_chat cfg.base_url cfg.api_key cfg.model []
  build_llm-Builds cfg openrouter =
      new_openrouter-Builds o.parse_time o.post o.decode_chat cfg.api_key cfg.model cfg.app_url
        cfg.app_name
  build_llm-Builds cfg ollama =
      new_local-Builds o.parse_time o.post o.decode_message cfg.ollama_url cfg.model
  build_llm-Builds cfg stub = new_stub-Speaks o.world.ctx_err

  -- Whatever the configuration and whatever the services answer, a generator that New builds answers
  -- with more than white space or with an error.
  pub new_generator-Builds : (cfg : LlmConfig R) → Builds (new_generator cfg)
  unfolding new_generator
  new_generator-Builds cfg = elim (Option-cases (llm_vendor_of (map o.to_lower cfg.provider))) [
    | inl e ↦ rw (e, Builds) tt
    | inr (v, e) ↦
        rw (e, Builds)
          (wrap_llm-Builds cfg (build_llm (filled_llm cfg v) v)
            (build_llm-Builds (filled_llm cfg v) v))
  ]
