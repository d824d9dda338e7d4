-- ===== src/Llm/Factory/Keys.antt =====
-- Which credentials reach which generation provider: llmAPIKey of llm/factory.go.
use rag_ai_system.Prelude.{
  ℕ, ◌≡◌, refl, sym, ap, ◌∙◌, Bool, true, false, Option, none, some, ℤ, Result, err,
}
use rag_ai_system.Text.{Text, codes, text_eq}
use rag_ai_system.Config.{string_setting, parsed_setting}
use rag_ai_system.Embed.OpenAi.{openai_name}
use rag_ai_system.Embed.Ollama.{ollama_name}
use rag_ai_system.Embed.Factory.{Rates, ConfigError, unknown_provider, openrouter_name}
use rag_ai_system.Embed.Factory.Keys.{with_variable}
use rag_ai_system.Llm.Google.{google_name}
use rag_ai_system.Llm.Factory.{
  LlmConfig, LlmVendor, google, openai, openrouter, ollama, stub, stub_name, llm_vendor_of,
  llm_api_key, llm_settings, chosen_generator, llm_config,
}

pub data Credential : Type 0 where
  google_key llm_key openrouter_key : Credential

abbrev pub variable : Credential → Text
variable google_key = codes "GOOGLE_API_KEY"
variable llm_key = codes "LLM_API_KEY"
variable openrouter_key = codes "OPENROUTER_API_KEY"

abbrev pub llm_vendor_name : LlmVendor → Text
llm_vendor_name google = google_name
llm_vendor_name openai = openai_name
llm_vendor_name openrouter = openrouter_name
llm_vendor_name ollama = ollama_name
llm_vendor_name stub = stub_name

-- The credentials of other hosts; OpenRouter falls back to LLM_API_KEY.
abbrev pub is_foreign : LlmVendor → Credential → Bool
is_foreign openai google_key = true
is_foreign openai llm_key = false
is_foreign openai openrouter_key = true
is_foreign openrouter google_key = true
is_foreign openrouter llm_key = false
is_foreign openrouter openrouter_key = false
is_foreign _ google_key = false
is_foreign _ llm_key = true
is_foreign _ openrouter_key = true

same_key :
    (env : Text → Text) (v : LlmVendor) (k : Credential) (secret : Text)
    → is_foreign v k ≡ true
    → llm_api_key (with_variable (variable k) secret env) (llm_vendor_name v)
      ≡ llm_api_key env (llm_vendor_name v)
unfolding llm_api_key text_eq
same_key env google llm_key secret h = refl
same_key env google openrouter_key secret h = refl
same_key env openai google_key secret h = refl
same_key env openai openrouter_key secret h = refl
same_key env openrouter google_key secret h = refl
same_key env ollama llm_key secret h = refl
same_key env ollama openrouter_key secret h = refl
same_key env stub llm_key secret h = refl
same_key env stub openrouter_key secret h = refl
same_key env google google_key secret h = cc
same_key env openai llm_key secret h = cc
same_key env openrouter llm_key secret h = cc
same_key env openrouter openrouter_key secret h = cc
same_key env ollama google_key secret h = cc
same_key env stub google_key secret h = cc

module _ {R : Type 0} (rates : Rates R) (to_lower : ℕ → ℕ) (atoi : Text → Option ℤ)
    (env : Text → Text) where
  -- ConfigFromEnv with the credential given.
  abbrev config_with : (Text → Text) → Text → Text → Result ConfigError (LlmConfig R)
  config_with env' provider api_key = elim (llm_vendor_of provider) [
    | none ↦ err (unknown_provider provider)
    | some v ↦ llm_settings rates to_lower atoi env' api_key provider v
  ]

  other_settings :
      (k : Credential) (secret provider api_key : Text)
      → config_with (with_variable (variable k) secret env) provider api_key
        ≡ config_with env provider api_key
  unfolding text_eq string_setting parsed_setting
  other_settings google_key secret provider api_key = refl
  other_settings llm_key secret provider api_key = refl
  other_settings openrouter_key secret provider api_key = refl

  same_choice :
      (k : Credential) (secret : Text)
      → chosen_generator rates to_lower atoi (with_variable (variable k) secret env)
        ≡ chosen_generator rates to_lower atoi env
  unfolding text_eq string_setting
  same_choice google_key secret = refl
  same_choice llm_key secret = refl
  same_choice openrouter_key secret = refl

  -- The configuration of a generation provider does not depend on a credential of another host: with
  -- any value of that variable it is the same.
  pub llm_config-is_foreign :
      (v : LlmVendor) (k : Credential) (secret : Text)
      → chosen_generator rates to_lower atoi env ≡ llm_vendor_name v
      → is_foreign v k ≡ true
      → llm_config rates to_lower atoi (with_variable (variable k) secret env)
        ≡ llm_config rates to_lower atoi env
  unfolding llm_config
  llm_config-is_foreign v k secret h foreign =
      let env' = with_variable (variable k) secret env in
      let named : chosen_generator rates to_lower atoi env' ≡ llm_vendor_name v =
        same_choice k secret ∙ h in
      ap (λ q. config_with env' q (llm_api_key env' q)) named
      ∙ ap (config_with env' (llm_vendor_name v)) (same_key env v k secret foreign)
      ∙ other_settings k secret (llm_vendor_name v) (llm_api_key env (llm_vendor_name v))
      ∙ ap (λ q. config_with env q (llm_api_key env q)) (sym h)
