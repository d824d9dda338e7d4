-- ===== src/Cmd/Ingest.antt =====
-- cmd/ingest/main.go: run.
use rag_ai_system.Prelude.{Option, none, some, [], ◌∷◌, if◌then◌else◌, Result, ok, err}
use rag_ai_system.Text.{is_nil}
use rag_ai_system.Backoff.{Err}
use rag_ai_system.Knowledge.Index.{IndexResult}
use rag_ai_system.Knowledge.Open.{
  OpenConfig, Knowledge, Site, Calls, open_knowledge, Stats, SettingsError,
}
use rag_ai_system.Cmd.{
  Methods, bad_settings, vault_path_unset, not_opened, stopped, counts, pass, Ended, gave_up,
  and_close,
}

module _ {F P R Score S : Type 0} (o : Calls F P R) (kb : Methods Score S) where
  -- The counts after the pass; its error comes last.
  abbrev pub after_pass :
      Site → Stats → (IndexResult × Option Err) → Result Err Stats × S → Ended Score S
  after_pass site first (res, index_err) (err e, s) = record {
    error = some (stopped e);
    printed = counts first ∷ pass res ∷ [];
    site = site;
    state = s;
  }
  after_pass site first (res, none) (ok last, s) = record {
    error = none;
    printed = counts first ∷ pass res ∷ counts last ∷ [];
    site = site;
    state = s;
  }
  after_pass site first (res, some e) (ok last, s) = record {
    error = some (stopped e);
    printed = counts first ∷ pass res ∷ counts last ∷ [];
    site = site;
    state = s;
  }

  abbrev pub passed : Site → Stats → (IndexResult × Option Err) × S → Ended Score S
  passed site first (done, s) = after_pass site first done (kb.stats s)

  abbrev pub counted_first : Site → Result Err Stats × S → Ended Score S
  counted_first site (err e, s) = gave_up (stopped e) site s
  counted_first site (ok first, s) = passed site first (kb.index s)

  abbrev pub ingest_opened : S → Result Err (Knowledge F P R) × Site → Ended Score S
  ingest_opened s (err e, site) = gave_up (not_opened e) site s
  ingest_opened s (ok k, site) = and_close k (counted_first site (kb.stats s))

  -- run, on what ConfigFromEnv gave.
  unfoldable pub run_ingest : Result SettingsError (OpenConfig R) → Site → S → Ended Score S
  unfolding open_knowledge
  run_ingest (err e) site s = gave_up (bad_settings e) site s
  run_ingest (ok cfg) site s =
      if is_nil cfg.vault_path
      then gave_up vault_path_unset site s
      else ingest_opened s (open_knowledge o (record cfg { generator = none }) site)
