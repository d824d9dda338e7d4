-- ===== src/Knowledge/Open/Pools.antt =====
-- What Open leaves of the pool, and what it hands out.
use rag_ai_system.Prelude.{
  ℕ, ◌+◌, ◌≡◌, refl, sym, ap, ◌∙◌, inl, inr, Bool, true, false, Option, none, some, List, arith,
  if◌then◌else◌, Option-cases, Result, ok, err, ok-injective, Result-cases,
}
use rag_ai_system.Backoff.{Err}
use rag_ai_system.Embed.{Provider}
use rag_ai_system.Llm.{Generator}
use rag_ai_system.Llm.Factory.{LlmConfig}
use rag_ai_system.Storage.Spaces.{SpaceRef, Catalog, ensure_space}
use rag_ai_system.Storage.Spaces.Again.{ensure_space-Ensured}
use rag_ai_system.Storage.Dsn.{new_pool}
use rag_ai_system.Knowledge.Open.{
  OpenConfig, Knowledge, Site, Calls, chunk_size_of, sized, opened, dsn_of, generator_of,
  with_space, after_migrate, connected, deferred, with_pool, dial_pool, with_dsn, open_knowledge,
  close,
}

abbrev pub is_some {ℓ} : {A : Type ℓ} → Option A → Bool
is_some none = false
is_some (some a) = true

module _ {F S R : Type 0} where
  -- The space is that of the provider, and a generator is there if one is configured.
  abbrev pub Fitting : OpenConfig R → Knowledge F S R → Type 0
  Fitting cfg k =
      (k.space.space ≡ k.embed.space)
      × (is_some k.llm ≡ is_some cfg.generator)
      × (k.chunk_n ≡ chunk_size_of cfg.chunk_size)

  -- An error leaves as many pools as there were; a knowledge base holds one, which Close gives back.
  abbrev pub Opens : OpenConfig R → Site → Result Err (Knowledge F S R) × Site → Type 0
  Opens cfg s (err e, s') = s'.pools ≡ s.pools
  Opens cfg s (ok k, s') = (s'.pools ≡ s.pools + 1) × ((close k s').pools ≡ s.pools) × Fitting cfg k

  abbrev Connects : OpenConfig R → Result Err (Knowledge F S R) × Catalog → Type 0
  Connects cfg (err e, c) = Unit
  Connects cfg (ok k, c) = Fitting cfg k

module _ {F S R : Type 0} (o : Calls F S R) where
  generator_of_ok :
      (cfg : Option (LlmConfig R)) (g : Option (Generator S))
      → generator_of o cfg ≡ ok g
      → is_some g ≡ is_some cfg
  generator_of_ok none g h = let same : none ≡ g = ok-injective h in sym (ap is_some same)
  generator_of_ok (some cfg) g h = elim (Result-cases (o.new_generator cfg)) [
    | inl (x, k) ↦ let bad : generator_of o (some cfg) ≡ err x = rw (k, generator_of) refl in cc
    | inr (made, k) ↦
        let here : generator_of o (some cfg) ≡ ok (some made) = rw (k, generator_of) refl in
        let same : some made ≡ g = ok-injective (sym here ∙ h) in sym (ap is_some same)
  ]

  with_space-Connects :
      (cfg : OpenConfig R) (p : Provider F S) (r : Result Err SpaceRef × Catalog) (c : Catalog)
      → ensure_space o.slug o.fault p.space c ≡ r
      → Connects cfg (with_space o (sized cfg) p r)
  with_space-Connects cfg p (err e, c') c h = tt
  with_space-Connects cfg p (ok ref, c') c h =
      let same : ref.space ≡ p.space =
        ap (λ x. x.space) (ensure_space-Ensured o.slug o.fault p.space c ref c' h).returned in
      elim (Result-cases (generator_of o cfg.generator)) [
        | inl (x, k) ↦ rw k tt
        | inr (g, k) ↦ rw k (same, generator_of_ok cfg.generator g k, refl)
      ]

  after_migrate-Connects :
      (cfg : OpenConfig R) (m : Option Err × Catalog) → Connects cfg (after_migrate o (sized cfg) m)
  after_migrate-Connects cfg (some e, c) = tt
  after_migrate-Connects cfg (none, c) = elim (Result-cases (o.new_embedder cfg.embedder)) [
    | inl (x, k) ↦ rw k tt
    | inr (p, k) ↦ rw k (with_space-Connects cfg p (ensure_space o.slug o.fault p.space c) c refl)
  ]

  connected-Connects : (cfg : OpenConfig R) (c : Catalog) → Connects cfg (connected o (sized cfg) c)
  connected-Connects cfg c = elim (Option-cases o.ping) [
    | inr (x, e) ↦ rw e tt
    | inl e ↦
        rw e (after_migrate-Connects cfg (if cfg.skip_migrate then (none, c) else o.migrate_up c))
  ]

  deferred-Opens :
      (cfg : OpenConfig R) (s : Site) (r : Result Err (Knowledge F S R) × Catalog)
      → Connects cfg r
      → Opens cfg s (deferred o (opened s) r)
  deferred-Opens cfg s (err e, c) h = omega arith
  deferred-Opens cfg s (ok k, c) h = (refl, omega arith, h)

  with_pool-Opens :
      (cfg : OpenConfig R) (s : Site) (r : Result {0, 0} Err Unit)
      → Opens cfg s (with_pool o (sized cfg) s r)
  with_pool-Opens cfg s (err e) = refl
  with_pool-Opens cfg s (ok u) =
      deferred-Opens cfg s (connected o (sized cfg) s.catalog) (connected-Connects cfg s.catalog)

  with_dsn-Opens :
      (cfg : OpenConfig R) (s : Site) (r : Result Err (List ℕ))
      → Opens cfg s (with_dsn o (sized cfg) s r)
  with_dsn-Opens cfg s (err e) = refl
  with_dsn-Opens cfg s (ok dsn) = with_pool-Opens cfg s (new_pool (dial_pool o) dsn)

  -- Open never loses a pool: wherever it fails, as many pools are open after it as before; if it
  -- succeeds, one more is, which Close gives back, and the knowledge base writes to the space of its
  -- provider, has a generator exactly if one is configured, and cuts notes by the chunk size or the
  -- default one.
  pub open_knowledge-Opens : (cfg : OpenConfig R) (s : Site) → Opens cfg s (open_knowledge o cfg s)
  unfolding open_knowledge
  open_knowledge-Opens cfg s = with_dsn-Opens cfg s (dsn_of cfg)
