-- ===== src/Httpapi/Reindex/Tests.antt =====
-- One pass, and a request that it turns away.
use rag_ai_system.Prelude.{ℕ, ◌≡◌}
use rag_ai_system.Httpapi.Reindex.{
  expected, Indexer, new_indexer, start, request, Reach, init, next, Reach-workers,
}

abbrev started : Indexer ℕ ℕ
started = (start 5 new_indexer).0

started-Reach : Reach started
started-Reach = next init (request 5 new_indexer)

Reach-workers_example : started.workers ≡ expected started.status.state
Reach-workers_example = Reach-workers started-Reach
