-- ===== src/Llm/Factory/Tests.antt =====
-- The offline generator built from a configuration, with stand-ins for what it meets outside.
use rag_ai_system.Prelude.{
  ℕ, ◌+◌, ◌≡◌, refl, ◌&&◌, Option, none, some, [], leb, if◌then◌else◌, pos, ok, err,
}
use rag_ai_system.Text.{Text, codes, is_space, trim_left, trim_right, trim_space, text_eq}
use rag_ai_system.Config.{string_setting}
use rag_ai_system.Backoff.{plain, default_policy}
use rag_ai_system.Http.{unsent}
use rag_ai_system.Embed.Factory.{Rates}
use rag_ai_system.Llm.{with_retry, with_rate_limit, new_stub}
use rag_ai_system.Llm.Contract.{Builds}
use rag_ai_system.Llm.Factory.{
  LlmConfig, openrouter, llm_vendor_of, chosen_generator, LlmOutside, new_generator,
  new_generator-Builds,
}
use rag_ai_system.Llm.Factory.Keys.{llm_vendor_name}

abbrev rates : Rates ℕ
rates = record {
  one_and_half = 3;
  one = 2;
  zero_rate = 0;
  has_rate = λ r. leb 1 r;
  parse_float = λ s. none;
}

abbrev lower : ℕ → ℕ
lower c = if leb b'A' c && leb c b'Z' then c + 32 else c

-- The state counts the waits for the limiter.
abbrev outside : LlmOutside ℕ ℕ
outside = record {
  parse_time = λ s. none;
  parse_duration = λ s. none;
  post = λ req s. (unsent (plain (codes "no network")), s);
  decode_chat = λ raw. ok (record { choices = []; error = none });
  decode_message = λ raw. ok [];
  as_api = λ e. none;
  new_client = none;
  generate_content = λ req s. (ok [], s);
  to_lower = lower;
  world = record { ctx_err = λ s. none; draw = λ s n. 0; wait = λ s d. (none, s) };
  limiter = λ rps burst s. (none, s + 1);
}

abbrev config : LlmConfig ℕ
config = record {
  provider = codes "Stub";
  model = [];
  api_key = [];
  base_url = [];
  ollama_url = [];
  app_url = [];
  app_name = [];
  rps = 2;
  burst = pos 1;
  retry = default_policy;
}

-- New lowers the name and builds the offline generator.
built : Option Text
built = elim (new_generator rates outside config) [ ok g ↦ some g.model | err e ↦ none ]

built_model : built ≡ some (codes "stub")
unfolding built new_generator new_stub llm_vendor_of text_eq rag_ai_system.Llm.with_rate_limit
    rag_ai_system.Llm.with_retry
built_model = refl

new_generator-Builds_example : Builds (new_generator rates outside config)
new_generator-Builds_example = new_generator-Builds rates outside config

abbrev env : Text → Text
env k =
    if text_eq k (codes "LLM_PROVIDER")
    then codes "openrouter"
    else if text_eq k (codes "LLM_API_KEY")
    then codes "k"
    else []

chosen : chosen_generator rates lower (λ s. none) env ≡ llm_vendor_name openrouter
unfolding text_eq string_setting trim_space trim_left trim_right is_space
chosen = refl
