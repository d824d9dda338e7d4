-- ===== src/Knowledge/Pending/Tests.antt =====
-- Three chunks of which one has a vector, and a database that fails when it has taken a second one.
use rag_ai_system.Prelude.{
  ℕ, ◌+◌, ◌≡◌, refl, Option, none, some, List, [], ◌∷◌, map, ◌==◌, if◌then◌else◌, length, All, pos,
  ok,
}
use rag_ai_system.Text.{codes}
use rag_ai_system.Backoff.{Err, plain, wrapped}
use rag_ai_system.Embed.{Provider, batched}
use rag_ai_system.Storage.{ChunkRow, Db, missing, save_embeddings}
use rag_ai_system.Knowledge.Pending.{Embedding, embed_pending}
use rag_ai_system.Storage.Tables.{Apart}
use rag_ai_system.Knowledge.Pending.Stays.{vector_of, embed_pending_stays}
use rag_ai_system.Knowledge.Pending.Counts.{OtherId, embed_pending_counts}

abbrev by_one : Provider ℕ ℕ
by_one = record {
  embed = λ texts kind s. (ok (map (λ t. length t ∷ []) texts), s + 1);
  space = record { provider = codes "fake"; model = codes "m"; dim = pos 1 };
  max_batch = pos 1;
}

abbrev chunk : ℕ → ChunkRow
chunk i = record { id = i; note_id = 1; index = i; text = codes "x" }

abbrev over : List (ℕ × List ℕ) → Db ℕ
over vectors = record {
  notes =
      record { id = 1; path = codes "a.md"; name = []; text = codes "x"; hash = codes "h" } ∷ [];
  chunks = chunk 1 ∷ chunk 2 ∷ chunk 3 ∷ [];
  vectors = vectors;
  next_note = 2;
  next_chunk = 4;
}

abbrev no_fault : Db ℕ → Option Err
no_fault db = none

abbrev full : Db ℕ → Option Err
full db = if length db.vectors == 2 then some (plain (codes "disk full")) else none

abbrev start : Embedding ℕ ℕ
start = record { done = 0; db = over ((1, 7 ∷ []) ∷ []); provider = 0 }

abbrev stopped : Option Err × Embedding ℕ ℕ
stopped = (
  some (wrapped (codes "save embeddings") (plain (codes "disk full"))),
  record { done = 1; db = over ((1, 7 ∷ []) ∷ (2, 1 ∷ []) ∷ []); provider = 2 },
)

runs : embed_pending by_one (pos 1) no_fault full start ≡ some stopped
unfolding embed_pending save_embeddings batched
runs = refl

embed_pending_stays_example :
    (out : Option Err × Embedding ℕ ℕ) × (embed_pending by_one (pos 1) no_fault full start
      ≡ some out)
    × All
        (λ (w : ℕ × List ℕ). vector_of w.0 out.1.db.vectors ≡ vector_of w.0 start.db.vectors)
        start.db.vectors
    × (out.1.db.chunks ≡ start.db.chunks)
    × (out.1.db.notes ≡ start.db.notes)
embed_pending_stays_example = embed_pending_stays by_one (pos 1) no_fault full start

-- The failed pass reports one chunk, and one of two still waits.
one_waits : (stopped.1.done ≡ 1) × (missing stopped.1.db ≡ chunk 3 ∷ [])
unfolding missing
one_waits = (refl, refl)

different : Apart OtherId start.db.chunks
different = ((refl, (refl, tt)), ((refl, tt), (tt, tt)))

embed_pending_counts_example :
    (out : Option Err × Embedding ℕ ℕ) × (embed_pending by_one (pos 1) no_fault full start
      ≡ some out)
    × (out.1.done + length (missing out.1.db) ≡ start.done + length (missing start.db))
    × (out.0 ≡ none → missing out.1.db ≡ [])
embed_pending_counts_example = embed_pending_counts by_one (pos 1) no_fault full start different
