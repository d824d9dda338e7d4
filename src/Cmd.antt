-- ===== src/Cmd.antt =====
-- cmd: the three commands, which read the configuration, open a knowledge base and close it again.
pub mod Ingest
pub mod Ask
pub mod Server
pub mod Close
pub mod Generator
mod Tests
use rag_ai_system.Prelude.{ℕ, Option, some, List, [], ℤ, Result}
use rag_ai_system.Text.{Text}
use rag_ai_system.Backoff.{Err}
use rag_ai_system.Knowledge.Index.{IndexResult}
use rag_ai_system.Knowledge.Ask.{Hit, Answer, AskError, search}
use rag_ai_system.Knowledge.Open.{Knowledge, Site, close, Stats, SettingsError}

-- The methods of Knowledge that the commands call, over a state.
pub record Methods (Score S : Type 0) : Type 0 where
  pub stats : S → Result Err Stats × S
  pub index : S → (IndexResult × Option Err) × S
  pub search : Text → ℤ → S → Result Err (List (Hit Score)) × S
  pub ask : Text → ℤ → S → Result AskError (Answer Score) × S

-- What main ends with.
pub data CommandError : Type 0 where
  no_question : CommandError
  bad_settings : SettingsError → CommandError
  bad_setting : Text × Text → CommandError
  vault_path_unset : CommandError
  not_opened : Err → CommandError
  stopped : Err → CommandError
  unanswered : AskError → CommandError

-- What a command prints.
pub data Line (Score : Type 0) : Type 0 where
  counts : Stats → Line Score
  pass : IndexResult → Line Score
  nothing_found : Line Score
  shown_hit : ℕ → Hit Score → Text → Line Score
  shown_answer : Answer Score → Line Score

-- The end of a command: its error, its output, and what it leaves.
pub record Ended (Score S : Type 0) : Type 0 where
  pub error : Option CommandError
  pub printed : List (Line Score)
  pub site : Site
  pub state : S

module _ {Score S : Type 0} where
  abbrev pub gave_up : CommandError → Site → S → Ended Score S
  gave_up e site s = record { error = some e; printed = []; site = site; state = s }

  -- The deferred Close of the knowledge base.
  abbrev pub and_close : {F P R : Type 0} → Knowledge F P R → Ended Score S → Ended Score S
  and_close k out = record out { site = close k out.site }
