-- ===== src/Storage/Dsn.antt =====
-- internal/storage/postgres.go: the connection string from the environment.
use rag_ai_system.Prelude.{ℕ, Bool, List, [], ◌∷◌, ◌++◌, if◌then◌else◌, Result, ok, err}
use rag_ai_system.Text.{Text, codes, is_nil, trim_space}
use rag_ai_system.Text.Utf8.{bytes, is_blank_bytes}
use rag_ai_system.Text.Url.{Url, show_url}
use rag_ai_system.Backoff.{Err, plain, wrapped}

-- envInfo
pub record DbEnv : Type 0 where
  pub password : Text
  pub user : Text
  pub name : Text
  pub host : Text
  pub port : Text

abbrev pub unset : Text × Text → Bool
unset (key, value) = is_nil (trim_space value)

-- The names whose value is blank; the code sorts them, and here they stand in their order.
unfoldable pub missing_names : List (Text × Text) → List Text
unfolding trim_space
missing_names [] = []
missing_names (v ∷ vs) = let rest = missing_names vs in if unset v then v.0 ∷ rest else rest

abbrev pub variables : DbEnv → List (Text × Text)
variables e =
    (codes "POSTGRES_DB", e.name)
    ∷ (codes "POSTGRES_HOST", e.host)
    ∷ (codes "POSTGRES_PASSWORD", e.password)
    ∷ (codes "POSTGRES_PORT", e.port)
    ∷ (codes "POSTGRES_USER", e.user)
    ∷ []

abbrev pub getenv_all : (Text → Text) → DbEnv
getenv_all env = record {
  password = env (codes "POSTGRES_PASSWORD");
  user = env (codes "POSTGRES_USER");
  name = env (codes "POSTGRES_DB");
  host = env (codes "POSTGRES_HOST");
  port = env (codes "POSTGRES_PORT");
}

abbrev pub if_none_missing : DbEnv → List Text → Result (List Text) DbEnv
if_none_missing e [] = ok e
if_none_missing e (n ∷ names) = err (n ∷ names)

-- readDBEnv; the error is the names that are not set.
unfoldable pub read_db_env : (Text → Text) → Result (List Text) DbEnv
unfolding missing_names
read_db_env env = if_none_missing (getenv_all env) (missing_names (variables (getenv_all env)))

abbrev pub env_url : DbEnv → Url
env_url e = record {
  user = bytes e.user;
  password = bytes e.password;
  host = bytes (e.host ++ (b':' ∷ e.port));
  path = bytes e.name;
  raw_query = codes "sslmode=disable";
}

-- buildDSN
unfoldable pub build_dsn : DbEnv → List ℕ
unfolding show_url bytes
build_dsn e = show_url (env_url e)

-- DSNFromEnv
unfoldable pub dsn_from_env : (Text → Text) → Result (List Text) (List ℕ)
unfolding read_db_env build_dsn
dsn_from_env env = elim (read_db_env env) [ err names ↦ err names | ok e ↦ ok (build_dsn e) ]

-- NewPool; `dial` is pgxpool.New.
unfoldable pub new_pool : {P : Type 0} → (List ℕ → Result Err P) → List ℕ → Result Err P
new_pool dial dsn =
    if is_blank_bytes dsn
    then err (plain (codes "database DSN is empty"))
    else elim (dial dsn) [ err e ↦ err (wrapped (codes "connect to database") e) | ok p ↦ ok p ]
