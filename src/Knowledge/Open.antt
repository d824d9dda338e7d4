-- ===== src/Knowledge/Open.antt =====
-- Open and Close of knowledge/knowledge.go, and knowledge/config.go.
pub mod Pools
mod Tests
use rag_ai_system.Prelude.{
  ℕ, ◌+◌, ◌-◌, Bool, false, Option, none, some, List, [], if◌then◌else◌, ℤ, pos, is_positive,
  Result, ok, err,
}
use rag_ai_system.Text.{Text, codes, is_nil}
use rag_ai_system.Text.Utf8.{bytes}
use rag_ai_system.Config.{parsed_setting}
use rag_ai_system.Backoff.{Err, wrapped}
use rag_ai_system.Embed.{Space, slug, Provider}
use rag_ai_system.Embed.Factory.{Rates, EmbedConfig, ConfigError, embed_config, new_embedder}
use rag_ai_system.Llm.{Generator}
use rag_ai_system.Llm.Factory.{LlmConfig, llm_config, new_generator}
use rag_ai_system.Storage.{Db, EmbeddingStats, database, stats}
use rag_ai_system.Storage.Spaces.{SpaceRef, Catalog, Statement, ensure_space}
use rag_ai_system.Storage.Dsn.{dsn_from_env, new_pool}
use rag_ai_system.Knowledge.Postgres.{Postgres, postgres_dsn, validate_postgres}

abbrev pub default_chunk_size : ℕ
default_chunk_size = 800

-- Config; `R` is the type of rates.
pub record OpenConfig (R : Type 0) : Type 0 where
  pub dsn : Text
  pub postgres : Postgres
  pub vault_path : Text
  pub chunk_size : ℤ
  pub embedder : EmbedConfig R
  pub generator : Option (LlmConfig R)
  pub skip_migrate : Bool

-- Knowledge, over the state `S` of its providers.
pub record Knowledge (F S R : Type 0) : Type 0 where
  pub cfg : OpenConfig R
  pub embed : Provider F S
  pub llm : Option (Generator S)
  pub space : SpaceRef
  pub chunk_n : ℤ

-- What Open changes: how many pools the process holds open, and the database's catalog.
pub record Site : Type 0 where
  pub pools : ℕ
  pub catalog : Catalog

-- The calls of Open: pgxpool.New and Ping, migrate.Up, the constructors of the providers, and what
-- EnsureSpace meets.
pub record Calls (F S R : Type 0) : Type 0 where
  pub dial : List ℕ → Option Err
  pub ping : Option Err
  pub migrate_up : Catalog → Option Err × Catalog
  pub new_embedder : EmbedConfig R → Result Err (Provider F S)
  pub new_generator : LlmConfig R → Result Err (Generator S)
  pub slug : Space → Text
  pub fault : Statement → Option Err

abbrev pub chunk_size_of : ℤ → ℤ
chunk_size_of n = if is_positive n then n else pos default_chunk_size

-- The configuration with its chunk size filled in.
abbrev pub sized : {R : Type 0} → OpenConfig R → OpenConfig R
sized cfg = record cfg { chunk_size = chunk_size_of cfg.chunk_size }

-- NewPool on a site: one pool more, if there is no error.
abbrev pub opened : Site → Site
opened s = record s { pools = s.pools + 1 }

abbrev pub closed : Site → Site
closed s = record s { pools = s.pools - 1 }

abbrev pub with_catalog : Site → Catalog → Site
with_catalog s c = record s { catalog = c }

-- The connection string: that of the configuration, or that of its parts.
unfoldable pub dsn_of : {R : Type 0} → OpenConfig R → Result Err (List ℕ)
unfolding validate_postgres postgres_dsn bytes
dsn_of cfg =
    if is_nil cfg.dsn
    then elim (validate_postgres cfg.postgres) [
      | some e ↦ err e
      | none ↦ ok (postgres_dsn cfg.postgres)
    ]
    else ok (bytes cfg.dsn)

module _ {F S R : Type 0} (o : Calls F S R) where
  -- The generator, where one is configured.
  abbrev pub generator_of : Option (LlmConfig R) → Result Err (Option (Generator S))
  generator_of none = ok none
  generator_of (some cfg) = elim (o.new_generator cfg) [ err e ↦ err e | ok g ↦ ok (some g) ]

  abbrev pub with_generator :
      OpenConfig R
      → Provider F S
      → SpaceRef
      → Result Err (Option (Generator S))
      → Result Err (Knowledge F S R)
  with_generator cfg p ref (err e) = err e
  with_generator cfg p ref (ok g) =
      ok (record { cfg = cfg; embed = p; llm = g; space = ref; chunk_n = cfg.chunk_size })

  abbrev pub with_space :
      OpenConfig R
      → Provider F S
      → Result Err SpaceRef × Catalog
      → Result Err (Knowledge F S R) × Catalog
  with_space cfg p (err e, c) = (err e, c)
  with_space cfg p (ok ref, c) = (with_generator cfg p ref (generator_of cfg.generator), c)

  abbrev pub with_embedder :
      OpenConfig R → Result Err (Provider F S) → Catalog → Result Err (Knowledge F S R) × Catalog
  with_embedder cfg (err e) c = (err e, c)
  with_embedder cfg (ok p) c = with_space cfg p (ensure_space o.slug o.fault p.space c)

  abbrev pub after_migrate :
      OpenConfig R → Option Err × Catalog → Result Err (Knowledge F S R) × Catalog
  after_migrate cfg (some e, c) = (err e, c)
  after_migrate cfg (none, c) = with_embedder cfg (o.new_embedder cfg.embedder) c

  -- What Open does while it holds the pool.
  abbrev pub connected : OpenConfig R → Catalog → Result Err (Knowledge F S R) × Catalog
  connected cfg c = elim o.ping [
    | some e ↦ (err (wrapped (codes "ping database") e), c)
    | none ↦ after_migrate cfg (if cfg.skip_migrate then (none, c) else o.migrate_up c)
  ]

  -- The deferred call closes the pool unless all went well.
  abbrev pub deferred :
      Site → Result Err (Knowledge F S R) × Catalog → Result Err (Knowledge F S R) × Site
  deferred s (err e, c) = (err e, closed (with_catalog s c))
  deferred s (ok k, c) = (ok k, with_catalog s c)

  abbrev pub with_pool :
      OpenConfig R → Site → Result {0, 0} Err Unit → Result Err (Knowledge F S R) × Site
  with_pool cfg s (err e) = (err e, s)
  with_pool cfg s (ok u) = deferred (opened s) (connected cfg s.catalog)

  abbrev pub dial_pool : List ℕ → Result {0, 0} Err Unit
  dial_pool dsn = elim (o.dial dsn) [ some e ↦ err e | none ↦ ok tt ]

  abbrev pub with_dsn :
      OpenConfig R → Site → Result Err (List ℕ) → Result Err (Knowledge F S R) × Site
  with_dsn cfg s (err e) = (err e, s)
  with_dsn cfg s (ok dsn) = with_pool cfg s (new_pool dial_pool dsn)

  -- Open
  unfoldable pub open_knowledge : OpenConfig R → Site → Result Err (Knowledge F S R) × Site
  unfolding dsn_of new_pool ensure_space
  open_knowledge cfg s = with_dsn (sized cfg) s (dsn_of cfg)

-- Close
abbrev pub close : {F S R : Type 0} → Knowledge F S R → Site → Site
close k s = closed s

pub record Stats : Type 0 where
  pub notes : ℕ
  pub chunks : ℕ
  pub embedded : ℕ
  pub space : Space

abbrev pub counted : Space → EmbeddingStats → Stats
counted space st = record {
  notes = st.notes;
  chunks = st.chunks;
  embedded = st.embedded;
  space = space;
}

-- Knowledge.Stats
unfoldable pub knowledge_stats :
    {F S R : Type 0} → Option Err → Knowledge F S R → Db F → Result Err Stats
unfolding stats
knowledge_stats fault k db = elim (stats fault db) [
  | err e ↦ err e
  | ok st ↦ ok (counted k.space.space st)
]

pub data SettingsError : Type 0 where
  unset_variables : List Text → SettingsError
  embedder_setting : ConfigError → SettingsError
  generator_setting : ConfigError → SettingsError
  chunk_size_setting : Text × Text → SettingsError

module _ {R : Type 0} (rates : Rates R) (to_lower : ℕ → ℕ) (atoi : Text → Option ℤ)
    (env : Text → Text) where
  abbrev no_parts : Postgres
  no_parts = record { host = []; port = []; user = []; password = []; database = []; ssl_mode = [] }

  abbrev pub settings_with :
      List ℕ
      → EmbedConfig R
      → LlmConfig R
      → Result (Text × Text) ℤ
      → Result SettingsError (OpenConfig R)
  settings_with dsn e g (err x) = err (chunk_size_setting x)
  settings_with dsn e g (ok n) = ok (record {
    dsn = dsn;
    postgres = no_parts;
    vault_path = env (codes "VAULT_PATH");
    chunk_size = n;
    embedder = e;
    generator = some g;
    skip_migrate = false;
  })

  -- ConfigFromEnv; the connection string is plain ASCII, so that its bytes are its text.
  unfoldable pub knowledge_config : Result SettingsError (OpenConfig R)
  unfolding dsn_from_env embed_config llm_config parsed_setting
  knowledge_config = elim (dsn_from_env env) [
    | err names ↦ err (unset_variables names)
    | ok dsn ↦ elim (embed_config rates to_lower atoi env) [
      | err e ↦ err (embedder_setting e)
      | ok embedder ↦ elim (llm_config rates to_lower atoi env) [
        | err e ↦ err (generator_setting e)
        | ok generator ↦
            settings_with dsn embedder generator
              (parsed_setting env atoi (codes "CHUNK_SIZE") (pos default_chunk_size))
      ]
    ]
  ]
