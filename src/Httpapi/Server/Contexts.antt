-- ===== src/Httpapi/Server/Contexts.antt =====
-- The contexts of internal/httpapi/server.go and withTimeout of middleware.go: what ends the context
-- of a request, and that of the shutdown. Times are nanoseconds.
use rag_ai_system.Prelude.{
  ℕ, ◌+◌, ◌≡◌, refl, Bool, false, ◌||◌, Option, none, some, leb, if◌then◌else◌,
}
use rag_ai_system.Httpapi.Server.Listen.{ServerConfig}

-- A context of package context: whether it is cancelled, and its deadline.
pub record Context : Type 0 where
  pub canceled : Bool
  pub deadline : Option ℕ

-- context.WithoutCancel: neither the cancellation nor the deadline of its parent.
abbrev pub without_cancel : Context → Context
without_cancel c = record { canceled = false; deadline = none }

abbrev pub earlier : Option ℕ → ℕ → ℕ
earlier none t = t
earlier (some d) t = if leb d t then d else t

-- context.WithTimeout, before its cancel is called.
abbrev pub with_timeout : ℕ → ℕ → Context → Context
with_timeout now d c = record c { deadline = some (earlier c.deadline (now + d)) }

abbrev past : Option ℕ → ℕ → Bool
past none t = false
past (some d) t = leb d t

-- Whether Done is closed at a time.
unfoldable pub done : Context → ℕ → Bool
done c t = c.canceled || past c.deadline t

-- http.Server derives the context of a request from BaseContext, and cancels it when the client goes.
abbrev pub base_context : Context → Context
base_context ctx = without_cancel ctx

abbrev pub of_request : Bool → Context → Context
of_request client_gone c = record c { canceled = c.canceled || client_gone }

-- The context that a handler runs in, behind withTimeout.
unfoldable pub request_context : ServerConfig → ℕ → Bool → Context → Context
request_context cfg now client_gone ctx =
    with_timeout now cfg.request_timeout (of_request client_gone (base_context ctx))

-- The context of Shutdown.
unfoldable pub shutdown_context : ServerConfig → ℕ → Context → Context
shutdown_context cfg now ctx = with_timeout now cfg.shutdown_grace (without_cancel ctx)

-- Whatever has become of the context of Serve, a request is given up when its client goes or its own
-- timeout is over and at no other time, and the shutdown has its whole grace period.
pub contexts_end :
    (cfg : ServerConfig) (now t : ℕ) (client_gone : Bool) (ctx : Context)
    → (done (request_context cfg now client_gone ctx) t
        ≡ (client_gone || leb (now + cfg.request_timeout) t))
      × (done (shutdown_context cfg now ctx) t ≡ leb (now + cfg.shutdown_grace) t)
unfolding done request_context shutdown_context
contexts_end cfg now t client_gone ctx = (refl, refl)
