-- ===== src/Cmd/Close.antt =====
-- What the commands leave of the pools.
use rag_ai_system.Prelude.{
  ℕ, ◌≡◌, refl, ap, ◌∙◌, inl, inr, Bool, true, false, Option, none, some, List, [], ◌∷◌, Bool-cases,
  ℤ, Result, ok, err,
}
use rag_ai_system.Text.{Text, is_nil, trim_space}
use rag_ai_system.Backoff.{Err}
use rag_ai_system.Knowledge.Index.{IndexResult}
use rag_ai_system.Knowledge.Ask.{Hit, Answer, AskError}
use rag_ai_system.Knowledge.Open.{
  OpenConfig, Knowledge, Site, Calls, open_knowledge, close, Stats, SettingsError,
}
use rag_ai_system.Knowledge.Open.Pools.{Opens, open_knowledge-Opens}
use rag_ai_system.Cmd.{Methods, Ended, and_close}
use rag_ai_system.Cmd.Ingest.{after_pass, counted_first, ingest_opened, run_ingest}
use rag_ai_system.Cmd.Ask.{
  print_search, print_answer, ask_opened, without_generator, asked, run_ask,
}
use rag_ai_system.Httpapi.Server.Listen.{ServerConfig}
use rag_ai_system.Cmd.Server.{ran, configured, server_opened, run_server}

module _ {F P R Score S : Type 0} (o : Calls F P R) (kb : Methods Score S) where
  after_pass-site :
      (site : Site) (first : Stats) (done : IndexResult × Option Err) (r : Result Err Stats × S)
      → (after_pass o kb site first done r).site ≡ site
  after_pass-site site first (res, index_err) (err e, s) = refl
  after_pass-site site first (res, none) (ok last, s) = refl
  after_pass-site site first (res, some e) (ok last, s) = refl

  counted_first-site :
      (site : Site) (r : Result Err Stats × S) → (counted_first o kb site r).site ≡ site
  counted_first-site site (err e, s) = refl
  counted_first-site site (ok first, s) =
      let (done, s') = kb.index s in after_pass-site site first done (kb.stats s')

  print_search-site :
      (site : Site) (r : Result Err (List (Hit Score)) × S) → (print_search o kb site r).site ≡ site
  print_search-site site (err e, s) = refl
  print_search-site site (ok [], s) = refl
  print_search-site site (ok (h ∷ hs), s) = refl

  print_answer-site :
      (site : Site) (r : Result AskError (Answer Score) × S)
      → (print_answer o kb site r).site ≡ site
  print_answer-site site (err e, s) = refl
  print_answer-site site (ok a, s) = refl

  -- Close after a part that leaves the site alone.
  and_close-pools :
      (k : Knowledge F P R) (out : Ended Score S) (site : Site) (n : ℕ)
      → out.site ≡ site
      → (close k site).pools ≡ n
      → (and_close k out).site.pools ≡ n
  and_close-pools k out site n same h = ap (λ x. (close k x).pools) same ∙ h

  ingest_opened-pools :
      (cfg : OpenConfig R) (site : Site) (s : S) (r : Result Err (Knowledge F P R) × Site)
      → Opens cfg site r
      → (ingest_opened o kb s r).site.pools ≡ site.pools
  ingest_opened-pools cfg site s (err e, site') h = h
  ingest_opened-pools cfg site s (ok k, site') h =
      and_close-pools k (counted_first o kb site' (kb.stats s)) site' site.pools
        (counted_first-site site' (kb.stats s)) h.1

  ask_opened-pools :
      (search_only : Bool) (question : Text) (top_k : ℤ) (cfg : OpenConfig R) (site : Site) (s : S)
      (r : Result Err (Knowledge F P R) × Site)
      → Opens cfg site r
      → (ask_opened o kb search_only question top_k s r).site.pools ≡ site.pools
  ask_opened-pools search_only question top_k cfg site s (err e, site') h = h
  ask_opened-pools true question top_k cfg site s (ok k, site') h =
      let found = kb.search question top_k s in
      and_close-pools k (print_search o kb site' found) site' site.pools
        (print_search-site site' found) h.1
  ask_opened-pools false question top_k cfg site s (ok k, site') h =
      let found = kb.ask question top_k s in
      and_close-pools k (print_answer o kb site' found) site' site.pools
        (print_answer-site site' found) h.1

  run_ingest-pools :
      (settings : Result SettingsError (OpenConfig R)) (site : Site) (s : S)
      → (run_ingest o kb settings site s).site.pools ≡ site.pools
  unfolding run_ingest
  run_ingest-pools (err e) site s = refl
  run_ingest-pools (ok cfg) site s = elim (Bool-cases (is_nil cfg.vault_path)) [
    | inl e ↦ rw e refl
    | inr e ↦
        let bare = record cfg { generator = none } in
        rw e (
          ingest_opened-pools bare site s (open_knowledge o bare site)
            (open_knowledge-Opens o bare site))
  ]

  asked-pools :
      (search_only : Bool) (question : Text) (top_k : ℤ)
      (settings : Result SettingsError (OpenConfig R)) (site : Site) (s : S)
      → (asked o kb search_only question top_k settings site s).site.pools ≡ site.pools
  asked-pools search_only question top_k (err e) site s = refl
  asked-pools search_only question top_k (ok cfg) site s =
      let used = without_generator o kb search_only cfg in
      ask_opened-pools search_only question top_k used site s (open_knowledge o used site)
        (open_knowledge-Opens o used site)

  run_ask-pools :
      (search_only : Bool) (args : Text) (top_k : ℤ)
      (settings : Result SettingsError (OpenConfig R)) (site : Site) (s : S)
      → (run_ask o kb search_only args top_k settings site s).site.pools ≡ site.pools
  unfolding run_ask
  run_ask-pools search_only args top_k settings site s =
      elim (Bool-cases (is_nil (trim_space args))) [
        | inl e ↦ rw e refl
        | inr e ↦ rw e (asked-pools search_only (trim_space args) top_k settings site s)
      ]

module _ {F P R Score S : Type 0} (o : Calls F P R) (kb : Methods Score S)
    (run : ServerConfig → S → Option Err × S) where
  ran-site : (site : Site) (r : Option Err × S) → (ran {Score = Score} o run site r).site ≡ site
  ran-site site (none, s) = refl
  ran-site site (some e, s) = refl

  configured-site :
      (site : Site) (s : S) (http : Result (Text × Text) ServerConfig)
      → (configured {Score = Score} o run site s http).site ≡ site
  configured-site site s (err e) = refl
  configured-site site s (ok cfg) = ran-site site (run cfg s)

  server_opened-pools :
      (cfg : OpenConfig R) (http : Result (Text × Text) ServerConfig) (site : Site) (s : S)
      (r : Result Err (Knowledge F P R) × Site)
      → Opens cfg site r
      → (server_opened {Score = Score} o run http s r).site.pools ≡ site.pools
  server_opened-pools cfg http site s (err e, site') h = h
  server_opened-pools cfg http site s (ok k, site') h =
      and_close-pools o kb k (configured o run site' s http) site' site.pools
        (configured-site site' s http) h.1

  run_server-pools :
      (settings : Result SettingsError (OpenConfig R)) (http : Result (Text × Text) ServerConfig)
      (site : Site) (s : S)
      → (run_server {Score = Score} o run settings http site s).site.pools ≡ site.pools
  unfolding run_server
  run_server-pools (err e) http site s = refl
  run_server-pools (ok cfg) http site s =
      server_opened-pools cfg http site s (open_knowledge o cfg site)
        (open_knowledge-Opens o cfg site)

  -- No command keeps a pool: whatever is configured and whatever fails, ingest, ask and server end with
  -- as many pools open as they found.
  pub commands_close :
      (settings : Result SettingsError (OpenConfig R)) (http : Result (Text × Text) ServerConfig)
      (search_only : Bool) (args : Text) (top_k : ℤ) (site : Site) (s : S)
      → ((run_ingest o kb settings site s).site.pools ≡ site.pools)
        × ((run_ask o kb search_only args top_k settings site s).site.pools ≡ site.pools)
        × ((run_server {Score = Score} o run settings http site s).site.pools ≡ site.pools)
  commands_close settings http search_only args top_k site s = (
    run_ingest-pools o kb settings site s,
    run_ask-pools o kb search_only args top_k settings site s,
    run_server-pools settings http site s,
  )
