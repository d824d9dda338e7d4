-- ===== src/Embed/Factory.antt =====
-- embed/factory.go: the configuration from the environment, and New.
pub mod Keys
pub mod Wrapping
mod Tests
use rag_ai_system.Prelude.{
  ℕ, inl, inr, Bool, false, Option, none, some, List, [], map, ◌==◌, if◌then◌else◌, Option-cases, ℤ,
  pos, negsuc, Result, ok, err,
}
use rag_ai_system.Text.{Text, codes, is_nil, text_eq}
use rag_ai_system.Config.{string_setting, parsed_setting}
use rag_ai_system.Backoff.{Err, plain, Policy, default_policy, World, retry}
use rag_ai_system.Backoff.GoogleHint.{Fields}
use rag_ai_system.Http.{Exchange, Post}
use rag_ai_system.Embed.{Provider, with_retry, with_rate_limit}
use rag_ai_system.Embed.Contract.{Builds}
use rag_ai_system.Embed.Decorated.{decorated-Meets}
use rag_ai_system.Embed.OpenAi.{openai_name, OpenAiAnswer, new_openai}
use rag_ai_system.Embed.OpenAi.Sound.{new_openai-Builds}
use rag_ai_system.Embed.Ollama.{ollama_name, default_ollama_url, new_ollama, new_ollama-Builds}
use rag_ai_system.Embed.Floats.{FloatOps}
use rag_ai_system.Embed.Google.{google_name, EmbedContent, new_google, new_google-Builds}
use rag_ai_system.Embed.Fake.{fake_name, new_fake, new_fake-Builds}

-- `R` is the type of rates, calls per second.
pub record Rates (R : Type 0) : Type 0 where
  pub one_and_half : R
  pub one : R
  pub zero_rate : R
  pub has_rate : R → Bool
  pub parse_float : Text → Option R

pub record EmbedConfig (R : Type 0) : Type 0 where
  pub provider : Text
  pub model : Text
  pub dim : ℤ
  pub api_key : Text
  pub base_url : Text
  pub ollama_url : Text
  pub rps : R
  pub burst : ℤ
  pub retry : Policy

-- The vendors that the switch of New names.
pub data Vendor : Type 0 where
  google openai ollama fake : Vendor

unfoldable pub vendor_of : Text → Option Vendor
unfolding text_eq
vendor_of name =
    if text_eq name google_name
    then some google
    else if text_eq name openai_name
    then some openai
    else if text_eq name ollama_name
    then some ollama
    else if text_eq name fake_name
    then some fake
    else none

-- providerDefaults
abbrev pub default_model : Vendor → Text
default_model google = codes "gemini-embedding-001"
default_model openai = []
default_model ollama = codes "nomic-embed-text"
default_model fake = codes "hashing-trick"

abbrev pub default_dim : Vendor → ℤ
default_dim openai = pos 0
default_dim _ = pos 768

abbrev pub default_rps : {R : Type 0} → Rates R → Vendor → R
default_rps r google = r.one_and_half
default_rps r openai = r.one
default_rps r ollama = r.zero_rate
default_rps r fake = r.zero_rate

pub data ConfigError : Type 0 where
  unknown_provider : Text → ConfigError
  chat_models_only : Text → ConfigError
  bad_setting : Text × Text → ConfigError

abbrev pub openrouter_name : Text
openrouter_name = codes "openrouter"

unfoldable pub embed_api_key : (Text → Text) → Text → Text
unfolding text_eq
embed_api_key env provider =
    if text_eq provider openai_name
    then env (codes "EMBED_API_KEY")
    else env (codes "GOOGLE_API_KEY")

-- The rest of a configuration after a setting, or the setting's error.
abbrev pub with_setting :
    {A B : Type 0} → Result (Text × Text) A → (A → Result ConfigError B) → Result ConfigError B
with_setting (err e) next = err (bad_setting e)
with_setting (ok a) next = next a

-- `env` is os.Getenv, `atoi` strconv.Atoi, and `to_lower` unicode.ToLower.
module _ {R : Type 0} (rates : Rates R) (to_lower : ℕ → ℕ) (atoi : Text → Option ℤ)
    (env : Text → Text) where
  abbrev pub embed_settings : Text → Text → Vendor → Result ConfigError (EmbedConfig R)
  embed_settings api_key provider v =
      with_setting (parsed_setting env atoi (codes "EMBED_DIM") (default_dim v)) (λ dim.
        with_setting
          (parsed_setting env rates.parse_float (codes "EMBED_RPS") (default_rps rates v))
          (λ rps. with_setting (parsed_setting env atoi (codes "EMBED_BURST") (pos 1)) (λ burst.
            ok (record {
              provider = provider;
              model = string_setting env (codes "EMBED_MODEL") (default_model v);
              dim = dim;
              api_key = api_key;
              base_url = env (codes "EMBED_BASE_URL");
              ollama_url = string_setting env (codes "OLLAMA_URL") default_ollama_url;
              rps = rps;
              burst = burst;
              retry = default_policy;
            }))))

  abbrev pub chosen_embedder : Text
  chosen_embedder = map to_lower (string_setting env (codes "EMBED_PROVIDER") ollama_name)

  -- ConfigFromEnv
  unfoldable pub embed_config : Result ConfigError (EmbedConfig R)
  unfolding vendor_of string_setting parsed_setting embed_api_key
  embed_config = elim (vendor_of chosen_embedder) [
    | none ↦ err (
        if text_eq chosen_embedder openrouter_name
        then chat_models_only chosen_embedder
        else unknown_provider chosen_embedder)
    | some v ↦ embed_settings (embed_api_key env chosen_embedder) chosen_embedder v
  ]

-- All that the clients meet outside.
pub record Outside (F D S R : Type 0) : Type 0 where
  pub ops : FloatOps F D
  pub parse_time : Text → Option ℤ
  pub parse_duration : Text → Option ℤ
  pub post : Post (Text × List Text) → S → Exchange × S
  pub decode_openai : Text → Result Err (OpenAiAnswer F)
  pub decode_ollama : Text → Result Err (List (List F))
  pub as_api : Err → Option (ℤ × List Fields)
  pub new_client : Option Err
  pub embed_content : EmbedContent → S → Result Err (List (List F)) × S
  pub to_lower : ℕ → ℕ
  pub is_word : ℕ → Bool
  pub world : World S
  pub limiter : R → ℤ → S → Option Err × S

module _ {F D S R : Type 0} (rates : Rates R) (o : Outside F D S R) where
  abbrev pub wrap : EmbedConfig R → Result Err (Provider F S) → Result Err (Provider F S)
  wrap cfg (err e) = err e
  wrap cfg (ok p) = ok (
      with_rate_limit (o.limiter cfg.rps) (rates.has_rate cfg.rps) cfg.burst
        (with_retry o.world cfg.retry p))

  abbrev pub build_vendor : EmbedConfig R → Vendor → Result Err (Provider F S)
  build_vendor cfg google =
      new_google o.ops o.parse_duration o.as_api o.new_client o.embed_content cfg.api_key cfg.model
        cfg.dim
  build_vendor cfg openai =
      new_openai o.parse_time o.post o.decode_openai cfg.base_url cfg.api_key cfg.model cfg.dim
  build_vendor cfg ollama =
      new_ollama o.parse_time o.post o.decode_ollama cfg.ollama_url cfg.model cfg.dim
  build_vendor cfg fake = new_fake o.ops o.to_lower o.is_word o.world.ctx_err cfg.dim

  abbrev is_zero_int : ℤ → Bool
  is_zero_int (pos n) = n == 0
  is_zero_int (negsuc n) = false

  -- The defaults that New fills in.
  abbrev pub filled : EmbedConfig R → Vendor → EmbedConfig R
  filled cfg v = record cfg {
    model = (if is_nil cfg.model then default_model v else cfg.model);
    dim = (if is_zero_int cfg.dim then default_dim v else cfg.dim);
  }

  -- New
  unfoldable pub new_embedder : EmbedConfig R → Result Err (Provider F S)
  unfolding vendor_of new_google new_openai new_ollama new_fake
  new_embedder cfg = elim (vendor_of (map o.to_lower cfg.provider)) [
    | none ↦ err (plain (codes "unknown embedding provider"))
    | some v ↦ wrap cfg (build_vendor (filled cfg v) v)
  ]

  wrap-Builds :
      (cfg : EmbedConfig R) (r : Result Err (Provider F S)) → Builds r → Builds (wrap cfg r)
  wrap-Builds cfg (err e) h = tt
  wrap-Builds cfg (ok p) h =
      decorated-Meets (o.limiter cfg.rps) (rates.has_rate cfg.rps) cfg.burst o.world cfg.retry p h

  build_vendor-Builds : (cfg : EmbedConfig R) (v : Vendor) → Builds (build_vendor cfg v)
  build_vendor-Builds cfg google =
      new_google-Builds o.ops o.parse_duration o.as_api o.new_client o.embed_content cfg.api_key
        cfg.model cfg.dim
  build_vendor-Builds cfg openai =
      new_openai-Builds o.parse_time o.post o.decode_openai cfg.base_url cfg.api_key cfg.model
        cfg.dim
  build_vendor-Builds cfg ollama =
      new_ollama-Builds o.parse_time o.post o.decode_ollama cfg.ollama_url cfg.model cfg.dim
  build_vendor-Builds cfg fake = new_fake-Builds o.ops o.to_lower o.is_word o.world.ctx_err cfg.dim

  -- Whatever the configuration and whatever the services answer, a provider that New builds keeps to
  -- the contract: a result has one vector for each text, each in the dimension of the provider's space.
  pub new_embedder-Builds : (cfg : EmbedConfig R) → Builds (new_embedder cfg)
  unfolding new_embedder
  new_embedder-Builds cfg = elim (Option-cases (vendor_of (map o.to_lower cfg.provider))) [
    | inl e ↦ rw (e, Builds) tt
    | inr (v, e) ↦
        rw (e, Builds)
          (wrap-Builds cfg (build_vendor (filled cfg v) v) (build_vendor-Builds (filled cfg v) v))
  ]
