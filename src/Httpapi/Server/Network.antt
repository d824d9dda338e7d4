-- ===== src/Httpapi/Server/Network.antt =====
-- A server of internal/httpapi/server.go that the network reaches, and a request without its token.
mod Tests
use rag_ai_system.Prelude.{ℕ, ◌≡◌, ◌≢◌, ◌⊎◌, inl, inr, true, false, Option, List, Result, ok}
use rag_ai_system.Text.{Text, text_eq}
use rag_ai_system.Backoff.{Err}
use rag_ai_system.Httpapi.Auth.{bearer, public_path}
use rag_ai_system.Httpapi.Stack.{Incoming, Decoders, request_id_of, turned_away, handler}
use rag_ai_system.Httpapi.Stack.Guard.{OnlyHealth, handler_guarded}
use rag_ai_system.Httpapi.Handlers.{Service}
use rag_ai_system.Httpapi.Reindex.{Indexer}
use rag_ai_system.Httpapi.Server.Listen.{
  ServerConfig, Addr, reachable_from_network, run_listens, run_listens_cases,
}

module _ {Score S R E : Type 0} (svc : Service Score S) (dec : Decoders) (space : Text)
    (ctx_err : S → Option Err) (now : ℕ) where
  -- What a request without the credential leads to: no pass, and 401 or the answer of /health.
  abbrev pub TurnsAway : (Text → Text) → Text → List ℕ → Incoming → Indexer R E → S → Type 0
  TurnsAway sha256 token random req ix s =
      let out = handler svc dec space ctx_err now sha256 token random req (ix, s) in
      (out.1.0 ≡ ix)
      × ((out.0 ≡ turned_away svc dec space ctx_err now (request_id_of req.request_id random))
            × (out.1.1 ≡ s)
          ⊎ (text_eq req.path public_path ≡ true)
            × OnlyHealth svc dec space ctx_err now (request_id_of req.request_id random) s
                (out.0.answer, out.1.1))

  -- A server that Run lets serve on an address that the network reaches, without having been declared
  -- open, starts no pass for a request whose credential has another digest than the token's, and either
  -- turns it away with 401 before the service is asked for anything, or it is one for /health and gets
  -- the counts or 405.
  pub run_guarded :
      (listening : Text → Result Err Addr) (cfg : ServerConfig) (at : Addr)
      → run_listens listening cfg ≡ ok at
      → reachable_from_network at ≡ true
      → cfg.allow_unauthenticated ≡ false
      → (sha256 : Text → Text) (random : List ℕ) (req : Incoming) (ix : Indexer R E) (s : S)
      → sha256 (bearer req.authorization) ≢ sha256 cfg.auth_token
      → TurnsAway sha256 cfg.auth_token random req ix s
  run_guarded listening cfg at h reached closed sha256 random req ix s wrong =
      elim (run_listens_cases listening cfg at h) [
        | inl e ↦ absurd cc
        | inr (inl e) ↦ absurd cc
        | inr (inr some_token) ↦
            handler_guarded svc dec space ctx_err now sha256 cfg.auth_token random req ix s
              some_token wrong
      ]
