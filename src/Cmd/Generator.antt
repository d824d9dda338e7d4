-- ===== src/Cmd/Generator.antt =====
-- What a setting of the generator does to the commands that do not generate.
use rag_ai_system.Prelude.{
  ℕ, ◌≡◌, refl, inl, inr, true, false, Option, none, ℤ, ok, err, Result-cases,
}
use rag_ai_system.Text.{Text, codes, is_nil, trim_space, text_eq}
use rag_ai_system.Config.{string_setting, parsed_setting}
use rag_ai_system.Embed.Factory.Keys.{with_variable}
use rag_ai_system.Embed.Factory.{Rates, unknown_provider, embed_api_key, embed_config}
use rag_ai_system.Llm.Factory.{LlmConfig, llm_vendor_of, chosen_generator, llm_config}
use rag_ai_system.Storage.Dsn.{missing_names, read_db_env, dsn_from_env}
use rag_ai_system.Knowledge.Open.{OpenConfig, Site, Calls, generator_setting, knowledge_config}
use rag_ai_system.Cmd.{Methods, bad_settings, gave_up}
use rag_ai_system.Cmd.Ingest.{run_ingest}
use rag_ai_system.Cmd.Ask.{run_ask}

module _ {R : Type 0} (rates : Rates R) (to_lower : ℕ → ℕ) (atoi : Text → Option ℤ)
    (env : Text → Text) (name : Text) where
  -- The environment with this LLM_PROVIDER.
  abbrev pub renamed : Text → Text
  renamed = with_variable (codes "LLM_PROVIDER") name env

  same_dsn : dsn_from_env renamed ≡ dsn_from_env env
  unfolding dsn_from_env read_db_env missing_names text_eq
  same_dsn = refl

  same_embedder : embed_config rates to_lower atoi renamed ≡ embed_config rates to_lower atoi env
  unfolding embed_config text_eq string_setting parsed_setting embed_api_key
  same_embedder = refl

  renamed_err :
      (cfg : OpenConfig R)
      → knowledge_config rates to_lower atoi env ≡ ok cfg
      → llm_vendor_of (chosen_generator rates to_lower atoi renamed) ≡ none
      → knowledge_config rates to_lower atoi renamed
        ≡ err (generator_setting (unknown_provider (chosen_generator rates to_lower atoi renamed)))
  unfolding knowledge_config llm_config
  renamed_err cfg good none_such = elim (Result-cases (dsn_from_env env)) [
    | inl (names, d) ↦ cc (rw (d, knowledge_config) at good)
    | inr (dsn, d) ↦ elim (Result-cases (embed_config rates to_lower atoi env)) [
      | inl (e, m) ↦ cc (rw (d, m, knowledge_config) at good)
      | inr (embedder, m) ↦
          rw (same_dsn, d, knowledge_config)
            (rw (same_embedder, m) (rw (none_such, llm_config) refl))
    ]
  ]

module _ {F P R Score S : Type 0} (o : Calls F P R) (kb : Methods Score S) (rates : Rates R)
    (to_lower : ℕ → ℕ) (atoi : Text → Option ℤ) (env : Text → Text) where
  -- ingest and ask -search, with a question that is not blank, look at no setting of the generator:
  -- with any other they do the same. Yet in an environment that is good for them, to name a provider
  -- in LLM_PROVIDER that there is not ends both with the error of ConfigFromEnv: they open no
  -- knowledge base and print nothing.
  pub bad_generator_stops :
      (cfg : OpenConfig R) (name args : Text) (generator : Option (LlmConfig R)) (top_k : ℤ)
      (site : Site) (s : S)
      → knowledge_config rates to_lower atoi env ≡ ok cfg
      → llm_vendor_of (chosen_generator rates to_lower atoi (renamed rates to_lower atoi env name))
        ≡ none
      → is_nil (trim_space args) ≡ false
      → let other = record cfg { generator = generator } in
        let env' = renamed rates to_lower atoi env name in
        let settings = knowledge_config rates to_lower atoi env' in
        let unknown =
          bad_settings
            (generator_setting (unknown_provider (chosen_generator rates to_lower atoi env'))) in
        (run_ingest o kb (ok cfg) site s ≡ run_ingest o kb (ok other) site s)
        × (run_ask o kb true args top_k (ok cfg) site s
            ≡ run_ask o kb true args top_k (ok other) site s)
        × (run_ingest o kb settings site s ≡ gave_up unknown site s)
        × (run_ask o kb true args top_k settings site s ≡ gave_up unknown site s)
  unfolding run_ingest run_ask
  bad_generator_stops cfg name args generator top_k site s good none_such asks =
      let e = renamed_err rates to_lower atoi env name cfg good none_such in
      (refl, rw asks refl, rw e refl, rw (e, asks) refl)
