-- ===== src/Knowledge/Pending/Finish/Tests.antt =====
-- Two chunks, and a provider that takes one text at a time.
use rag_ai_system.Prelude.{ℕ, ◌+◌, ◌≡◌, refl, Option, none, some, [], ◌∷◌, map, length, pos, ok}
use rag_ai_system.Text.{codes}
use rag_ai_system.Backoff.{Err}
use rag_ai_system.Embed.{Provider, batched}
use rag_ai_system.Storage.{Db, save_embeddings}
use rag_ai_system.Knowledge.Pending.{Embedding, embed_pending}

abbrev by_one : Provider ℕ ℕ
by_one = record {
  embed = λ texts kind s. (ok (map (λ t. length t ∷ []) texts), s + 1);
  space = record { provider = codes "fake"; model = codes "m"; dim = pos 1 };
  max_batch = pos 1;
}

abbrev no_fault : Db ℕ → Option Err
no_fault db = none

abbrev two_chunks : Embedding ℕ ℕ
two_chunks = record {
  done = 0;
  db = record {
    notes =
        record { id = 1; path = codes "a.md"; name = []; text = codes "x"; hash = codes "h" } ∷ [];
    chunks =
        record { id = 1; note_id = 1; index = 0; text = codes "x" }
        ∷ record { id = 2; note_id = 1; index = 1; text = codes "yz" }
        ∷ [];
    vectors = [];
    next_note = 2;
    next_chunk = 3;
  };
  provider = 0;
}

both_embedded :
    embed_pending by_one (pos 1) no_fault no_fault two_chunks
    ≡ some (
      none,
      record {
        done = 2;
        db = record two_chunks.db { vectors = (1, 1 ∷ []) ∷ (2, 2 ∷ []) ∷ [] };
        provider = 2;
      },
    )
unfolding embed_pending save_embeddings batched
both_embedded = refl
