-- ===== src/Knowledge/Pending.antt =====
-- embedPending of knowledge/knowledge.go: the loop that gives vectors to the chunks without one.
pub mod Finish
pub mod Counts
pub mod Keeps
pub mod Refs
pub mod Stays
mod Tests
use rag_ai_system.Prelude.{
  ℕ, zero, suc, ◌+◌, Option, none, some, List, [], ◌∷◌, map, length, take, drop, ℤ, pos, Result, ok,
  err,
}
use rag_ai_system.Text.{codes}
use rag_ai_system.Backoff.{Err, wrapped}
use rag_ai_system.Embed.{document, Provider, batch_size, batched}
use rag_ai_system.Storage.{ChunkRow, Db, missing, pending_chunks, save_embeddings}

abbrev pub pending_batch : ℕ
pending_batch = 128

-- What the loop carries: the counter, the tables, and the provider's state.
module _ (F S : Type 0) where
  pub record Embedding : Type 0 where
    pub done : ℕ
    pub db : Db F
    pub provider : S

-- `read_fault` and `save_fault` are the database's errors, by the tables as they are then.
module _ {F S : Type 0} (p : Provider F S) (dim : ℤ)
    (read_fault save_fault : Db F → Option Err) where
  abbrev pub pair_up : List ChunkRow → List (List F) → List (ℕ × List F)
  pair_up [] vs = []
  pair_up (c ∷ cs) [] = []
  pair_up (c ∷ cs) (v ∷ vs) = (c.id, v) ∷ pair_up cs vs

  abbrev pub saved : ℕ → Embedding F S → S → Option Err × Db F → Option Err × Embedding F S
  saved n st s (none, db) = (none, record { done = st.done + n; db = db; provider = s })
  saved n st s (some e, db) = (some e, record { done = st.done; db = db; provider = s })

  abbrev pub save_part :
      List ChunkRow
      → Embedding F S
      → Option (Result Err (List (List F)) × S)
      → Option (Option Err × Embedding F S)
  save_part part st none = none
  save_part part st (some (err e, s)) =
      some (some (wrapped (codes "embed chunks") e), record st { provider = s })
  save_part part st (some (ok vectors, s)) = some (
      saved (length part) st s
        (save_embeddings (save_fault st.db) dim (pair_up part vectors) st.db))

  unfoldable pub embed_part : List ChunkRow → Embedding F S → Option (Option Err × Embedding F S)
  embed_part part st = save_part part st (batched p (map (λ c. c.text) part) document st.provider)

  abbrev pub then_go :
      (Embedding F S → Option (Option Err × Embedding F S))
      → Option (Option Err × Embedding F S)
      → Option (Option Err × Embedding F S)
  then_go go none = none
  then_go go (some (some e, st)) = some (some e, st)
  then_go go (some (none, st)) = go st

  -- The inner loop, over the pending chunks from `start` on; `none` means that the fuel ran out.
  unfoldable pub parts : ℕ → List ChunkRow → Embedding F S → Option (Option Err × Embedding F S)
  unfolding embed_part
  parts fuel [] st = some (none, st)
  parts zero (c ∷ cs) st = none
  parts (suc fuel) (c ∷ cs) st =
      then_go (λ st'. parts fuel (drop (batch_size p) (c ∷ cs)) st')
        (embed_part (take (batch_size p) (c ∷ cs)) st)

  abbrev pub round :
      (Embedding F S → Option (Option Err × Embedding F S))
      → Embedding F S
      → Result Err (List ChunkRow)
      → Option (Option Err × Embedding F S)
  round again st (err e) = some (some e, st)
  round again st (ok []) = some (none, st)
  round again st (ok (c ∷ cs)) = then_go again (parts (length (c ∷ cs)) (c ∷ cs) st)

  unfoldable pub rounds : ℕ → Embedding F S → Option (Option Err × Embedding F S)
  unfolding pending_chunks parts
  rounds zero st = none
  rounds (suc fuel) st =
      round (λ st'. rounds fuel st') st
        (pending_chunks (read_fault st.db) (pos pending_batch) st.db)

  -- Every round that goes on takes a chunk from those that wait.
  unfoldable pub embed_pending : Embedding F S → Option (Option Err × Embedding F S)
  unfolding rounds missing
  embed_pending st = rounds (length (missing st.db) + 1) st
