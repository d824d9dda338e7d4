-- ===== src/Embed/Factory/Keys.antt =====
-- Which credentials reach which provider.
use rag_ai_system.Prelude.{
  ℕ, ◌≡◌, refl, sym, ap, ◌∙◌, ◌⊎◌, inl, inr, Bool, true, false, Option, none, some, map,
  if◌then◌else◌, ℤ, pos, Result, ok, err,
}
use rag_ai_system.Text.{Text, codes, text_eq}
use rag_ai_system.Config.{string_setting, parsed_setting}
use rag_ai_system.Embed.OpenAi.{openai_name}
use rag_ai_system.Embed.Ollama.{ollama_name, default_ollama_url}
use rag_ai_system.Embed.Google.{google_name}
use rag_ai_system.Embed.Fake.{fake_name}
use rag_ai_system.Backoff.{Err, default_policy}
use rag_ai_system.Embed.{Provider}
use rag_ai_system.Embed.Factory.{
  Rates, EmbedConfig, Vendor, google, openai, ollama, fake, vendor_of, default_model, default_dim,
  default_rps, ConfigError, unknown_provider, chat_models_only, openrouter_name, embed_api_key,
  with_setting, embed_settings, chosen_embedder, embed_config, Outside, new_embedder,
}

-- The environment with another value of one variable.
abbrev pub with_variable : Text → Text → (Text → Text) → Text → Text
with_variable key value env k = if text_eq k key then value else env k

abbrev pub vendor_name : Vendor → Text
vendor_name google = google_name
vendor_name openai = openai_name
vendor_name ollama = ollama_name
vendor_name fake = fake_name

-- The credentials that the environment can hold.
pub data Key : Type 0 where
  google_key embed_key : Key

abbrev pub variable_of : Key → Text
variable_of google_key = codes "GOOGLE_API_KEY"
variable_of embed_key = codes "EMBED_API_KEY"

-- Whether a credential is another host's: ollama and fake have none.
abbrev pub is_foreign : Vendor → Key → Bool
is_foreign google google_key = false
is_foreign openai embed_key = false
is_foreign _ _ = true

abbrev pub with_key : Key → Text → (Text → Text) → Text → Text
with_key k secret env = with_variable (variable_of k) secret env

module _ {R : Type 0} (rates : Rates R) (to_lower : ℕ → ℕ) (atoi : Text → Option ℤ)
    (env : Text → Text) where
  -- ConfigFromEnv with the credential given.
  abbrev config_with : (Text → Text) → Text → Text → Result ConfigError (EmbedConfig R)
  config_with env' provider api_key = elim (vendor_of provider) [
    | none ↦ err (
        if text_eq provider openrouter_name
        then chat_models_only provider
        else unknown_provider provider)
    | some v ↦ embed_settings rates to_lower atoi env' api_key provider v
  ]

  other_settings :
      (k : Key) (secret provider api_key : Text)
      → config_with (with_key k secret env) provider api_key ≡ config_with env provider api_key
  unfolding text_eq string_setting parsed_setting
  other_settings google_key secret provider api_key = refl
  other_settings embed_key secret provider api_key = refl

  same_choice :
      (k : Key) (secret : Text)
      → chosen_embedder rates to_lower atoi (with_key k secret env)
        ≡ chosen_embedder rates to_lower atoi env
  unfolding text_eq string_setting
  same_choice google_key secret = refl
  same_choice embed_key secret = refl

module _ {F D S R : Type 0} (rates : Rates R) (o : Outside F D S R) where
  -- New on what ConfigFromEnv gave.
  abbrev pub provider_of :
      Result ConfigError (EmbedConfig R) → Result ConfigError (Result Err (Provider F S))
  provider_of (err e) = err e
  provider_of (ok cfg) = ok (new_embedder rates o cfg)

module _ {F D S R : Type 0} (rates : Rates R) (o : Outside F D S R) (to_lower : ℕ → ℕ)
    (atoi : Text → Option ℤ) (env : Text → Text) where
  -- A configuration read from three settings, each of which may be malformed.
  abbrev read_three :
      Result (Text × Text) ℤ
      → Result (Text × Text) R
      → Result (Text × Text) ℤ
      → (ℤ → R → ℤ → EmbedConfig R)
      → Result ConfigError (EmbedConfig R)
  read_three dims rates_read bursts f =
      with_setting dims (λ dim.
        with_setting rates_read (λ rps. with_setting bursts (λ burst. ok (f dim rps burst))))

  read_three-same :
      (dims : Result (Text × Text) ℤ) (rates_read : Result (Text × Text) R)
      (bursts : Result (Text × Text) ℤ) (f g : ℤ → R → ℤ → EmbedConfig R)
      → ((dim : ℤ) (rps : R) (burst : ℤ)
          → new_embedder rates o (f dim rps burst) ≡ new_embedder rates o (g dim rps burst))
      → provider_of rates o (read_three dims rates_read bursts f)
        ≡ provider_of rates o (read_three dims rates_read bursts g)
  read_three-same (err e) r b f g h = refl
  read_three-same (ok dim) (err e) b f g h = refl
  read_three-same (ok dim) (ok rps) (err e) f g h = refl
  read_three-same (ok dim) (ok rps) (ok burst) f g h = ap ok (h dim rps burst)

  unsent_key :
      (v : Vendor) (cfg : EmbedConfig R) (one other : Text)
      → is_foreign v google_key ≡ true
      → is_foreign v embed_key ≡ true
      → vendor_of (map o.to_lower cfg.provider) ≡ some v
      → new_embedder rates o (record cfg { api_key = one })
        ≡ new_embedder rates o (record cfg { api_key = other })
  unfolding new_embedder
  unsent_key google cfg one other g e named = cc
  unsent_key openai cfg one other g e named = cc
  unsent_key ollama cfg one other g e named = rw (named, new_embedder) refl
  unsent_key fake cfg one other g e named = rw (named, new_embedder) refl

  named_by : (v : Vendor) → vendor_of (vendor_name v) ≡ some v
  unfolding vendor_of text_eq
  named_by google = refl
  named_by openai = refl
  named_by ollama = refl
  named_by fake = refl

  config_named :
      (v : Vendor) (key : Text)
      → config_with rates to_lower atoi env env (vendor_name v) key
        ≡ embed_settings rates to_lower atoi env key (vendor_name v) v
  unfolding vendor_of text_eq
  config_named google key = refl
  config_named openai key = refl
  config_named ollama key = refl
  config_named fake key = refl

  same_provider :
      (v : Vendor) (one other : Text)
      → is_foreign v google_key ≡ true
      → is_foreign v embed_key ≡ true
      → map o.to_lower (vendor_name v) ≡ vendor_name v
      → provider_of rates o (config_with rates to_lower atoi env env (vendor_name v) one)
        ≡ provider_of rates o (config_with rates to_lower atoi env env (vendor_name v) other)
  same_provider v one other g e low =
      let read : Text → ℤ → R → ℤ → EmbedConfig R = λ key dim rps burst. record {
        provider = vendor_name v;
        model = string_setting env (codes "EMBED_MODEL") (default_model v);
        dim = dim;
        api_key = key;
        base_url = env (codes "EMBED_BASE_URL");
        ollama_url = string_setting env (codes "OLLAMA_URL") default_ollama_url;
        rps = rps;
        burst = burst;
        retry = default_policy;
      } in
      ap (provider_of rates o) (config_named v one)
      ∙ read_three-same (parsed_setting env atoi (codes "EMBED_DIM") (default_dim v))
          (parsed_setting env rates.parse_float (codes "EMBED_RPS") (default_rps rates v))
          (parsed_setting env atoi (codes "EMBED_BURST") (pos 1)) (read one) (read other)
          (λ dim rps burst.
            unsent_key v (read one dim rps burst) one other g e (ap vendor_of low ∙ named_by v))
      ∙ ap (provider_of rates o) (sym (config_named v other))

  own_key :
      (v : Vendor) (k : Key) (secret : Text)
      → is_foreign v k ≡ true
      → (embed_api_key (with_key k secret env) (vendor_name v) ≡ embed_api_key env (vendor_name v))
        ⊎ (is_foreign v google_key ≡ true) × (is_foreign v embed_key ≡ true)
  unfolding embed_api_key text_eq
  own_key google google_key secret h = cc
  own_key google embed_key secret h = inl refl
  own_key openai google_key secret h = inl refl
  own_key openai embed_key secret h = cc
  own_key ollama k secret h = inr (refl, refl)
  own_key fake k secret h = inr (refl, refl)

  -- The provider that New builds from the environment does not depend on the credential of another
  -- host: with any value of that variable it is the same, in each call. Google has its own key and the
  -- OpenAI client has its own; no key is that of ollama or fake. The name of a provider is a text that
  -- strings.ToLower leaves as it is.
  pub embed_config-foreign_key :
      (v : Vendor) (k : Key) (secret : Text)
      → is_foreign v k ≡ true
      → chosen_embedder rates to_lower atoi env ≡ vendor_name v
      → map o.to_lower (vendor_name v) ≡ vendor_name v
      → provider_of rates o (embed_config rates to_lower atoi (with_key k secret env))
        ≡ provider_of rates o (embed_config rates to_lower atoi env)
  unfolding embed_config
  embed_config-foreign_key v k secret foreign h low =
      let env' = with_key k secret env in
      let named : chosen_embedder rates to_lower atoi env' ≡ vendor_name v =
        same_choice rates to_lower atoi env k secret ∙ h in
      let there : Text → Result ConfigError (Result Err (Provider F S)) =
        λ key. provider_of rates o (config_with rates to_lower atoi env env (vendor_name v) key) in
      ap
        (λ q.
          provider_of rates o (config_with rates to_lower atoi env env' q (embed_api_key env' q)))
        named
      ∙ ap (provider_of rates o) (
          other_settings rates to_lower atoi env k secret (vendor_name v)
            (embed_api_key env' (vendor_name v)))
      ∙ elim (own_key v k secret foreign) [
        | inl e ↦ ap there e
        | inr (g, e) ↦ same_provider v _ _ g e low
      ]
      ∙ ap
          (λ q.
            provider_of rates o (config_with rates to_lower atoi env env q (embed_api_key env q)))
          (sym h)
