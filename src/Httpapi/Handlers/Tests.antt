-- ===== src/Httpapi/Handlers/Tests.antt =====
-- A request for more passages than are given.
use rag_ai_system.Prelude.{◌≡◌, refl, pos}
use rag_ai_system.Httpapi.Handlers.{clamp_k}

more_than_given : clamp_k (pos 40) ≡ 25
unfolding clamp_k
more_than_given = refl
