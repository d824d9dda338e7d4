-- ===== src/Cmd/Server.antt =====
-- cmd/server/main.go: run.
use rag_ai_system.Prelude.{Bool, false, Option, none, some, [], Result, ok, err}
use rag_ai_system.Text.{Text, codes}
use rag_ai_system.Config.{string_setting, parsed_setting}
use rag_ai_system.Backoff.{Err}
use rag_ai_system.Httpapi.Server.Listen.{ServerConfig, default_config}
use rag_ai_system.Knowledge.Open.{OpenConfig, Knowledge, Site, Calls, open_knowledge, SettingsError}
use rag_ai_system.Cmd.{bad_settings, bad_setting, not_opened, stopped, Ended, gave_up, and_close}

-- `env` is os.Getenv, and `parse_bool` strconv.ParseBool.
module _ (env : Text → Text) (parse_bool : Text → Option Bool) where
  unfoldable pub server_config : Result (Text × Text) ServerConfig
  unfolding string_setting parsed_setting
  server_config = elim (parsed_setting env parse_bool (codes "RAG_ALLOW_UNAUTHENTICATED") false) [
    | err e ↦ err e
    | ok allow ↦ ok (record default_config {
      addr = string_setting env (codes "HTTP_ADDR") default_config.addr;
      auth_token = string_setting env (codes "RAG_API_TOKEN") [];
      allow_unauthenticated = allow;
    })
  ]

-- `run` is httpapi.Run.
module _ {F P R Score S : Type 0} (o : Calls F P R) (run : ServerConfig → S → Option Err × S) where
  abbrev pub ran : Site → Option Err × S → Ended Score S
  ran site (none, s) = record { error = none; printed = []; site = site; state = s }
  ran site (some e, s) = gave_up (stopped e) site s

  abbrev pub configured : Site → S → Result (Text × Text) ServerConfig → Ended Score S
  configured site s (err e) = gave_up (bad_setting e) site s
  configured site s (ok cfg) = ran site (run cfg s)

  abbrev pub server_opened :
      Result (Text × Text) ServerConfig → S → Result Err (Knowledge F P R) × Site → Ended Score S
  server_opened http s (err e, site) = gave_up (not_opened e) site s
  server_opened http s (ok k, site) = and_close k (configured site s http)

  -- run, on what ConfigFromEnv gave and on the settings of the server.
  unfoldable pub run_server :
      Result SettingsError (OpenConfig R)
      → Result (Text × Text) ServerConfig
      → Site
      → S
      → Ended Score S
  unfolding open_knowledge
  run_server (err e) http site s = gave_up (bad_settings e) site s
  run_server (ok cfg) http site s = server_opened http s (open_knowledge o cfg site)
