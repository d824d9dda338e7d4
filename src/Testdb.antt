-- ===== src/Testdb.antt =====
-- internal/testdb/testdb.go: the databases that integration tests are given. The calls of pgx, of
-- crypto/rand and of url.Parse are parameters, with the errors that they can give.
pub mod Cleanup
mod Tests
use rag_ai_system.Prelude.{
  ℕ, ◌+◌, ◌-◌, Option, none, some, List, [], ◌∷◌, ◌++◌, if◌then◌else◌, drop, Result, ok, err,
}
use rag_ai_system.Text.{Text, codes, is_nil, text_eq}
use rag_ai_system.Text.Url.{Url, show_url}
use rag_ai_system.Backoff.{Err, plain, wrapped}
use rag_ai_system.Embed.{hex}
use rag_ai_system.Storage.{in_list}
use rag_ai_system.Storage.Migrate.{Held, MigrateCalls, up}

-- The databases of the server, the connections of the test, and the databases that a function given to
-- t.Cleanup will drop, the last one first.
pub record TestState : Type 0 where
  pub databases : List Text
  pub sessions : ℕ
  pub pools : ℕ
  pub cleanups : List Text

-- How NewRaw and New leave the test: skipped, failed by Fatalf, or going on with a pool on a database.
pub data Setup : Type 0 where
  skipped : Setup
  fatal : Err → Setup
  ready : Text → Setup

-- `parse` is url.Parse on the connection strings that Url can hold.
pub record DbCalls : Type 0 where
  pub connect : Text → Option Err
  pub random : Result Err (List ℕ)
  pub create : Text → Option Err
  pub parse : Text → Result Err Url
  pub new_pool : Text → Option Err
  pub reconnect : Option Err
  pub drop : Text → Option Err

abbrev pub name_prefix : Text
name_prefix = codes "ragtest_"

abbrev pub already_there : Err
already_there = plain (codes "database already exists")

-- replaceDatabase
unfoldable pub replace_database : (Text → Result Err Url) → Text → Text → Result Err Text
unfolding show_url
replace_database parse dsn db_name = elim (parse dsn) [
  | err e ↦ err (wrapped (codes "parse dsn") e)
  | ok u ↦ ok (show_url (record u { path = b'/' ∷ db_name }))
]

abbrev pub removed : Text → List Text → List Text
removed name [] = []
removed name (d ∷ ds) = let rest = removed name ds in if text_eq name d then rest else d ∷ rest

module _ (c : DbCalls) where
  -- CREATE DATABASE, which refuses a name that is taken.
  unfoldable pub create_database : Text → List Text → Result Err (List Text)
  unfolding text_eq
  create_database name databases =
      if in_list name databases
      then err already_there
      else elim (c.create name) [ some e ↦ err e | none ↦ ok (name ∷ databases) ]

  abbrev pub with_pool : Text → Text → TestState → Option Err → Setup × TestState
  with_pool name dsn w (some e) = (fatal (wrapped (codes "connect to") e), w)
  with_pool name dsn w none =
      (ready dsn, record w { pools = w.pools + 1; cleanups = name ∷ w.cleanups })

  unfoldable pub with_database : Text → Text → TestState → Setup × TestState
  unfolding replace_database
  with_database admin_dsn name w = elim (replace_database c.parse admin_dsn name) [
    | err e ↦ (fatal (wrapped (codes "build dsn") e), w)
    | ok dsn ↦ with_pool name dsn w (c.new_pool dsn)
  ]

  unfoldable pub with_name : Text → Text → TestState → Setup × TestState
  unfolding create_database with_database
  with_name admin_dsn name w = elim (create_database name w.databases) [
    | err e ↦ (fatal (wrapped (codes "create database") e), w)
    | ok databases ↦ with_database admin_dsn name (record w { databases = databases })
  ]

  abbrev pub with_suffix : Text → TestState → Result Err (List ℕ) → Setup × TestState
  with_suffix admin_dsn w (err e) = (fatal (wrapped (codes "random name") e), w)
  with_suffix admin_dsn w (ok suffix) = with_name admin_dsn (name_prefix ++ hex suffix) w

  -- The deferred Close of the first connection, which Fatalf runs too.
  abbrev pub close_admin : Setup × TestState → Setup × TestState
  close_admin (s, w) = (s, record w { sessions = w.sessions - 1 })

  abbrev pub with_admin : Text → TestState → Option Err → Setup × TestState
  with_admin admin_dsn w (some e) = (fatal (wrapped (codes "connect with") e), w)
  with_admin admin_dsn w none =
      close_admin (with_suffix admin_dsn (record w { sessions = w.sessions + 1 }) c.random)

  -- NewRaw, on what RAG_TEST_DSN holds.
  unfoldable pub new_raw : Text → TestState → Setup × TestState
  unfolding with_name hex
  new_raw admin_dsn w =
      if is_nil admin_dsn then (skipped, w) else with_admin admin_dsn w (c.connect admin_dsn)

  abbrev pub after_up : Text → TestState → Option Err → Setup × TestState
  after_up dsn w (some e) = (fatal (wrapped (codes "migrate") e), w)
  after_up dsn w none = (ready dsn, w)

  abbrev pub migrated : Option Err → Setup × TestState → Setup × TestState
  migrated failed (skipped, w) = (skipped, w)
  migrated failed (fatal e, w) = (fatal e, w)
  migrated failed (ready dsn, w) = after_up dsn w failed

  -- New
  unfoldable pub new_db :
      {C : Type 0} → MigrateCalls C → Held C → Text → TestState → Setup × TestState
  unfolding new_raw up
  new_db m h admin_dsn w = migrated (up m h).0 (new_raw admin_dsn w)

  abbrev pub dropped : Text → TestState → Option Err → TestState
  dropped name w (some e) = w
  dropped name w none = record w { databases = removed name w.databases }

  abbrev pub drop_with : Text → TestState → Option Err → TestState
  drop_with name w (some e) = w
  drop_with name w none = dropped name w (c.drop name)

  -- The function given to t.Cleanup, whose failures are only logged.
  unfoldable pub clean_up : Text → TestState → TestState
  unfolding text_eq
  clean_up name w = drop_with name (record w { pools = w.pools - 1 }) c.reconnect

  abbrev pub clean_all : List Text → TestState → TestState
  clean_all [] w = w
  clean_all (name ∷ names) w = clean_all names (clean_up name w)

  -- What package testing does when a test has ended, however it has.
  unfoldable pub end_test : TestState → TestState
  unfolding clean_up
  end_test w = clean_all w.cleanups (record w { cleanups = [] })
