-- ===== src/Embed/Factory/Tests.antt =====
-- The offline provider built from a configuration, with stand-ins for what it meets outside.
use rag_ai_system.Prelude.{
  ℕ, ◌+◌, ◌-◌, ◌*◌, ◌≡◌, refl, true, ◌&&◌, Option, none, some, [], ◌∷◌, map, leb, ◌==◌,
  if◌then◌else◌, ℤ, pos, to_nat, ok, err,
}
use rag_ai_system.Config.{string_setting}
use rag_ai_system.Text.{Text, codes, is_space, trim_left, trim_right, trim_space, text_eq}
use rag_ai_system.Backoff.{Err, plain, retryable, as_retryable, default_policy, normalized, World}
use rag_ai_system.Embed.Limits.{Storm}
use rag_ai_system.Embed.Factory.Wrapping.{retries_bypass_limiter}
use rag_ai_system.Http.{unsent}
use rag_ai_system.Embed.{document, Provider, with_retry, with_rate_limit}
use rag_ai_system.Embed.Contract.{Builds}
use rag_ai_system.Embed.Floats.{FloatOps}
use rag_ai_system.Embed.Fake.{new_fake}
use rag_ai_system.Embed.Factory.{
  Rates, EmbedConfig, ollama, vendor_of, chosen_embedder, embed_config, Outside, new_embedder,
  new_embedder-Builds,
}
use rag_ai_system.Embed.Factory.Keys.{
  vendor_name, google_key, with_key, provider_of, embed_config-foreign_key,
}

abbrev rates : Rates ℕ
rates = record {
  one_and_half = 3;
  one = 2;
  zero_rate = 0;
  has_rate = λ r. leb 1 r;
  parse_float = λ s. none;
}

abbrev ops : FloatOps ℕ ℕ
ops = record {
  zero32 = 0;
  incr = λ x. x + 1;
  decr = λ x. x - 1;
  widen = λ x. x;
  narrow = λ x. x;
  zero64 = 0;
  add = λ x y. x + y;
  mul = λ x y. x * y;
  div = λ x y. x;
  sqrt = λ x. x;
  is_zero = λ x. x == 0;
}

abbrev lower : ℕ → ℕ
lower c = if leb b'A' c && leb c b'Z' then c + 32 else c

abbrev outside_with : {S : Type 0} → World S → (ℕ → ℤ → S → Option Err × S) → Outside ℕ ℕ S ℕ
outside_with w limiter = record {
  ops = ops;
  parse_time = λ s. none;
  parse_duration = λ s. none;
  post = λ req s. (unsent (plain (codes "no network")), s);
  decode_openai = λ raw. ok (record { items = []; error = none });
  decode_ollama = λ raw. ok [];
  as_api = λ e. none;
  new_client = none;
  embed_content = λ req s. (ok [], s);
  to_lower = lower;
  is_word = λ c. leb b'a' c && leb c b'z';
  world = w;
  limiter = limiter;
}

-- The state counts the waits for the limiter.
abbrev outside : Outside ℕ ℕ ℕ ℕ
outside =
    outside_with (record { ctx_err = λ s. none; draw = λ s n. 0; wait = λ s d. (none, s) })
      (λ rps burst s. (none, s + 1))

abbrev config : EmbedConfig ℕ
config = record {
  provider = codes "Fake";
  model = [];
  dim = pos 2;
  api_key = [];
  base_url = [];
  ollama_url = [];
  rps = 2;
  burst = pos 1;
  retry = default_policy;
}

-- New lowers the name and builds the offline provider, in the dimension asked for.
built : Option ℤ
built = elim (new_embedder rates outside config) [ ok p ↦ some p.space.dim | err e ↦ none ]

built_dim : built ≡ some (pos 2)
unfolding built new_embedder new_fake vendor_of text_eq trim_left trim_right is_space
    rag_ai_system.Embed.with_rate_limit rag_ai_system.Embed.with_retry
built_dim = refl

new_embedder-Builds_example : Builds (new_embedder rates outside config)
new_embedder-Builds_example = new_embedder-Builds rates outside config

lowered : map lower (vendor_name ollama) ≡ vendor_name ollama
lowered = refl

-- Nothing is set: ollama, and a key of Google that no client sends.
abbrev no_env : Text → Text
no_env k = []

by_default : chosen_embedder rates lower (λ s. none) no_env ≡ vendor_name ollama
unfolding string_setting trim_space trim_left trim_right
by_default = refl

embed_config-foreign_key_example :
    provider_of rates outside
      (embed_config rates lower (λ s. none) (with_key google_key (codes "secret") no_env))
    ≡ provider_of rates outside (embed_config rates lower (λ s. none) no_env)
embed_config-foreign_key_example =
    embed_config-foreign_key rates outside lower (λ s. none) no_env ollama google_key
      (codes "secret") refl by_default lowered

-- The state counts the calls of the provider and the waits for the limiter.
abbrev world : World (ℕ × ℕ)
world = record { ctx_err = λ s. none; draw = λ s n. 0; wait = λ s d. (none, s) }

abbrev overloaded : Err
overloaded = retryable (plain (codes "503")) (pos 0)

abbrev failing : Provider ℕ (ℕ × ℕ)
failing = record {
  embed = λ texts kind s. (err overloaded, (s.0 + 1, s.1));
  space = record { provider = codes "fake"; model = codes "m"; dim = pos 1 };
  max_batch = pos 100;
}

abbrev limiter : ℕ → ℤ → ℕ × ℕ → Option Err × (ℕ × ℕ)
limiter rps burst s = (none, (s.0, s.1 + 1))

abbrev calls : ℕ × ℕ → ℕ
calls s = s.0

abbrev waits : ℕ × ℕ → ℕ
waits s = s.1

overloaded_marked : as_retryable overloaded ≡ some (pos 0)
unfolding as_retryable
overloaded_marked = refl

storm : Storm world failing (limiter 2 (pos 1)) calls waits
storm = record {
  open_ctx = λ s. refl;
  sleeps = λ s d. refl;
  wait_calls = λ s d. refl;
  wait_waits = λ s d. refl;
  fails = λ texts kind s. (overloaded, pos 0, refl, overloaded_marked);
  next_calls = λ texts kind s. refl;
  next_waits = λ texts kind s. refl;
  passes = λ s. refl;
  limiter_waits = λ s. refl;
  limiter_calls = λ s. refl;
}

-- The provider as New wraps it.
abbrev wrapped_one : Provider ℕ (ℕ × ℕ)
wrapped_one = with_rate_limit (limiter 2) true (pos 1) (with_retry world default_policy failing)

retries_bypass_limiter_example :
    let s' = (wrapped_one.embed (codes "a" ∷ []) document (0, 0)).1 in
    (calls s' ≡ 0 + to_nat (normalized default_policy).max_attempts) × (waits s' ≡ 0 + 1)
retries_bypass_limiter_example =
    retries_bypass_limiter rates (outside_with world limiter) config failing wrapped_one calls waits
      refl refl storm (codes "a") [] document (0, 0)
