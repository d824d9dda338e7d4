-- ===== src/Knowledge/Postgres.antt =====
-- knowledge/postgres.go: a connection in parts, and its string.
mod Tests
use rag_ai_system.Prelude.{
  ℕ, ◌≡◌, Option, none, some, List, [], ◌∷◌, ◌++◌, arith, if◌then◌else◌, All, All-append,
}
use rag_ai_system.Text.{Text, codes, is_nil, trim_space}
use rag_ai_system.Text.Utf8.{bytes, IsRune, bytes-IsByte}
use rag_ai_system.Text.Url.{query_escape, Url, show_url, read_credentials}
use rag_ai_system.Text.Url.Credentials.{read_credentials-show_url}
use rag_ai_system.Backoff.{Err, plain}

pub record Postgres : Type 0 where
  pub host : Text
  pub port : Text
  pub user : Text
  pub password : Text
  pub database : Text
  pub ssl_mode : Text

abbrev pub text_or : Text → Text → Text
text_or s def = if is_nil s then def else s

abbrev pub host_port : Postgres → Text
host_port p = text_or p.host (codes "127.0.0.1") ++ (b':' ∷ text_or p.port (codes "5432"))

abbrev pub postgres_url : Postgres → Url
postgres_url p = record {
  user = bytes p.user;
  password = bytes p.password;
  host = bytes (host_port p);
  path = bytes p.database;
  raw_query = codes "sslmode=" ++ query_escape (bytes (text_or p.ssl_mode (codes "disable")));
}

-- Postgres.DSN
unfoldable pub postgres_dsn : Postgres → List ℕ
unfolding show_url bytes query_escape
postgres_dsn p = show_url (postgres_url p)

-- The fields that validate reports.
unfoldable pub missing_fields : Postgres → List Text
unfolding trim_space
missing_fields p =
    (if is_nil (trim_space p.user) then codes "User" ∷ [] else [])
    ++ (if is_nil (trim_space p.database) then codes "Database" ∷ [] else [])

-- Postgres.validate
unfoldable pub validate_postgres : Postgres → Option Err
unfolding missing_fields
validate_postgres p =
    if is_nil (missing_fields p)
    then none
    else some (plain (codes "knowledge: Config.Postgres is missing a field"))

-- The texts that make up the authority are ones of Unicode.
pub record AreTexts (p : Postgres) : Type 0 where
  pub user : All IsRune p.user
  pub password : All IsRune p.password
  pub host : All IsRune p.host
  pub port : All IsRune p.port

or-IsRune : (s def : Text) → All IsRune s → All IsRune def → All IsRune (text_or s def)
or-IsRune [] def h d = d
or-IsRune (c ∷ s) def h d = h

host_port-IsRune : (p : Postgres) → AreTexts p → All IsRune (host_port p)
host_port-IsRune p h =
    All-append IsRune (text_or p.host (codes "127.0.0.1")) (b':' ∷ text_or p.port (codes "5432"))
      (or-IsRune p.host (codes "127.0.0.1") h.host (ground arith))
      (omega arith, or-IsRune p.port (codes "5432") h.port (ground arith))

-- The connection string of Postgres says the user and the password as they are: whatever texts they
-- are, reading the user info of the string as url.Parse does finds their bytes again.
pub read_credentials-postgres_dsn :
    (p : Postgres)
    → AreTexts p
    → read_credentials (postgres_dsn p) ≡ some (bytes p.user, bytes p.password)
unfolding postgres_dsn
read_credentials-postgres_dsn p h =
    read_credentials-show_url (postgres_url p) (bytes-IsByte p.user h.user)
      (bytes-IsByte p.password h.password) (bytes-IsByte (host_port p) (host_port-IsRune p h))
