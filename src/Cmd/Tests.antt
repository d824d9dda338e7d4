-- ===== src/Cmd/Tests.antt =====
-- The commands with a database that does not answer, and with an unknown generation provider.
use rag_ai_system.Prelude.{
  ℕ, ◌≡◌, refl, true, false, none, some, [], leb, if◌then◌else◌, take, pos, Result, ok, err,
}
use rag_ai_system.Text.{Text, codes, is_space, is_nil, trim_left, trim_right, trim_space, text_eq}
use rag_ai_system.Config.{string_setting, parsed_setting}
use rag_ai_system.Backoff.{Err, plain, default_policy}
use rag_ai_system.Embed.Factory.{Rates, vendor_of, unknown_provider, embed_api_key, embed_config}
use rag_ai_system.Llm.Factory.{llm_vendor_of, llm_api_key, chosen_generator, llm_config}
use rag_ai_system.Storage.Dsn.{missing_names, getenv_all, read_db_env, build_dsn, dsn_from_env}
use rag_ai_system.Knowledge.Index.{nothing_yet}
use rag_ai_system.Knowledge.Ask.{failed}
use rag_ai_system.Knowledge.Open.{
  OpenConfig, Site, Calls, SettingsError, generator_setting, knowledge_config,
}
use rag_ai_system.Cmd.{Methods, bad_settings, gave_up}
use rag_ai_system.Cmd.Ingest.{run_ingest}
use rag_ai_system.Cmd.Ask.{run_ask}
use rag_ai_system.Cmd.Server.{run_server}
use rag_ai_system.Cmd.Close.{commands_close}
use rag_ai_system.Cmd.Generator.{renamed, bad_generator_stops}

abbrev refused_conn : Err
refused_conn = plain (codes "connection refused")

abbrev calls : Calls ℕ ℕ ℕ
calls = record {
  dial = λ dsn. none;
  ping = some refused_conn;
  migrate_up = λ c. (none, c);
  new_embedder = λ cfg. err refused_conn;
  new_generator = λ cfg. err refused_conn;
  slug = λ s. s.provider;
  fault = λ st. none;
}

abbrev methods : Methods ℕ ℕ
methods = record {
  stats = λ s. (err refused_conn, s);
  index = λ s. ((nothing_yet, none), s);
  search = λ q k s. (ok [], s);
  ask = λ q k s. (err (failed refused_conn), s);
}

abbrev site : Site
site = record { pools = 2; catalog = record { rows = []; tables = []; indexes = []; next_id = 1 } }

abbrev rates : Rates ℕ
rates = record {
  one_and_half = 3;
  one = 2;
  zero_rate = 0;
  has_rate = λ r. leb 1 r;
  parse_float = λ s. none;
}

-- The database is set, and the generation provider is misspelt.
abbrev env : Text → Text
env k =
    if text_eq k (codes "LLM_PROVIDER")
    then codes "gogle"
    else if text_eq k (codes "EMBED_PROVIDER")
    then codes "fake"
    else if text_eq (take 9 k) (codes "POSTGRES_")
    then codes "x"
    else []

abbrev settings : Result SettingsError (OpenConfig ℕ)
settings = knowledge_config rates (λ c. c) (λ s. none) env

commands_close_example :
    ((run_ingest calls methods settings site 0).site.pools ≡ 2)
    × ((run_ask calls methods true (codes "q") (pos 5) settings site 0).site.pools ≡ 2)
    × ((run_server {Score = ℕ} {S = ℕ} calls
          (λ cfg s. (none, s))
          settings
          (err (codes "k", codes "v"))
          site
          0).site.pools
        ≡ 2)
commands_close_example =
    commands_close calls methods (λ cfg s. (none, s)) settings (err (codes "k", codes "v")) true
      (codes "q") (pos 5) site 0

-- The database is set, and no generation provider is named.
abbrev good_env : Text → Text
good_env k =
    if text_eq k (codes "EMBED_PROVIDER")
    then codes "fake"
    else if text_eq (take 9 k) (codes "POSTGRES_")
    then codes "x"
    else []

abbrev good_config : OpenConfig ℕ
good_config = record {
  dsn = build_dsn (getenv_all good_env);
  postgres = record {
    host = [];
    port = [];
    user = [];
    password = [];
    database = [];
    ssl_mode = [];
  };
  vault_path = [];
  chunk_size = pos 800;
  embedder = record {
    provider = codes "fake";
    model = codes "hashing-trick";
    dim = pos 768;
    api_key = [];
    base_url = [];
    ollama_url = codes "http://127.0.0.1:11434";
    rps = 0;
    burst = pos 1;
    retry = default_policy;
  };
  generator = some (record {
    provider = codes "stub";
    model = codes "stub";
    api_key = [];
    base_url = [];
    ollama_url = codes "http://127.0.0.1:11434";
    app_url = codes "https://github.com/Zinoki12/rag-ai-system";
    app_name = codes "rag-ai-system";
    rps = 0;
    burst = pos 1;
    retry = default_policy;
  });
  skip_migrate = false;
}

good_settings : knowledge_config rates (λ c. c) (λ s. none) good_env ≡ ok good_config
unfolding knowledge_config dsn_from_env read_db_env missing_names embed_config vendor_of
    embed_api_key llm_config llm_vendor_of llm_api_key string_setting parsed_setting text_eq
    trim_space trim_left trim_right is_space
good_settings = refl

misspelt :
    llm_vendor_of (
      chosen_generator rates
        (λ c. c)
        (λ s. none)
        (renamed rates (λ c. c) (λ s. none) good_env (codes "gogle")))
    ≡ none
unfolding llm_vendor_of string_setting text_eq trim_space trim_left trim_right is_space
misspelt = refl

question_set : is_nil (trim_space (codes "q")) ≡ false
unfolding trim_space trim_left trim_right is_space
question_set = refl

abbrev bad_env_settings : Result SettingsError (OpenConfig ℕ)
bad_env_settings =
    knowledge_config rates (λ c. c) (λ s. none)
      (renamed rates (λ c. c) (λ s. none) good_env (codes "gogle"))

bad_generator_stops_example :
    let unknown = bad_settings (
      generator_setting (
        unknown_provider (
          chosen_generator rates
            (λ c. c)
            (λ s. none)
            (renamed rates (λ c. c) (λ s. none) good_env (codes "gogle"))))) in
    (run_ingest calls methods (ok good_config) site 0
      ≡ run_ingest calls methods (ok (record good_config { generator = none })) site 0)
    × (run_ask calls methods true (codes "q") (pos 5) (ok good_config) site 0
        ≡ run_ask calls methods true
            (codes "q")
            (pos 5)
            (ok (record good_config { generator = none }))
            site
            0)
    × (run_ingest calls methods bad_env_settings site 0 ≡ gave_up unknown site 0)
    × (run_ask calls methods true (codes "q") (pos 5) bad_env_settings site 0
        ≡ gave_up unknown site 0)
bad_generator_stops_example =
    bad_generator_stops calls methods rates (λ c. c) (λ s. none) good_env good_config
      (codes "gogle") (codes "q") none (pos 5) site 0 good_settings misspelt question_set
