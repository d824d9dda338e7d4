-- ===== src/Knowledge/Pending/Refs.antt =====
-- What embedPending leaves alone: the notes and the chunks, and that each vector has its chunk.
use rag_ai_system.Prelude.{
  ℕ, ◌≡◌, refl, subst, inl, inr, true, not, Option, some, List, [], ◌∷◌, arith, ◌==◌, Bool-cases,
  Option-cases, All, ℤ,
}
use rag_ai_system.Backoff.{Err}
use rag_ai_system.Embed.{Provider}
use rag_ai_system.Storage.{
  NoteRow, ChunkRow, Db, has_chunk, has_vector, missing, all_fit, save_embeddings,
}
use rag_ai_system.Knowledge.Pending.{Embedding, embed_pending}
use rag_ai_system.Storage.Tables.{All-implies, All-keep_where, All-put_vectors}
use rag_ai_system.Knowledge.Pending.Keeps.{embed_pending-Keeps}

same_id : (i : ℕ) → (i == i) ≡ true
same_id i = ground arith

has_chunk_self : (cs : List ChunkRow) → All (λ c. has_chunk c.id cs ≡ true) cs
has_chunk_self [] = tt
has_chunk_self (c ∷ cs) =
    (rw (same_id c.id) refl, All-implies _ _ cs (λ d h. ground (arith, h)) (has_chunk_self cs))

-- The notes and the chunks are these, and each vector belongs to one of the chunks.
pub record Refers {F : Type 0} (notes : List NoteRow) (chunks : List ChunkRow) (db : Db F)
    : Type 0 where
  pub same_notes : db.notes ≡ notes
  pub same_chunks : db.chunks ≡ chunks
  pub held : All (λ (v : ℕ × List F). has_chunk v.0 chunks ≡ true) db.vectors

pub missing-Known :
    {F : Type 0} (chunks : List ChunkRow) (db : Db F)
    → db.chunks ≡ chunks
    → All (λ c. has_chunk c.id chunks ≡ true) (missing db)
unfolding missing
missing-Known chunks db same =
    All-keep_where _ (λ c. not (has_vector c.id db.vectors)) db.chunks
      (subst (λ xs. All (λ (c : ChunkRow). has_chunk c.id xs ≡ true) db.chunks) same
        (has_chunk_self db.chunks))

module _ {F S : Type 0} (p : Provider F S) (dim : ℤ) (read_fault save_fault : Db F → Option Err)
    (notes : List NoteRow) (chunks : List ChunkRow) where
  save_embeddings-Refers :
      (fault : Option Err) (batch : List (ℕ × List F)) (db : Db F)
      → All (λ (v : ℕ × List F). has_chunk v.0 chunks ≡ true) batch
      → Refers notes chunks db
      → Refers notes chunks (save_embeddings fault dim batch db).1
  unfolding save_embeddings
  save_embeddings-Refers fault [] db k h = h
  save_embeddings-Refers fault (cv ∷ batch) db k h = elim (Bool-cases (all_fit dim (cv ∷ batch))) [
    | inr e ↦ rw (e, save_embeddings) h
    | inl e ↦ elim (Option-cases fault) [
      | inr (x, f) ↦ rw (e, f, save_embeddings) h
      | inl f ↦
          rw (e, f, save_embeddings)
            (record {
              same_notes = h.same_notes;
              same_chunks = h.same_chunks;
              held =
                  All-put_vectors (λ i. has_chunk i chunks ≡ true) (cv ∷ batch) db.vectors k h.held;
            })
    ]
  ]

  -- Whatever is refused, embedPending leaves the notes and the chunks as they are, and adds vectors
  -- only to chunks that are there.
  pub embed_pending-Refers :
      (st : Embedding F S) (out : Option Err × Embedding F S)
      → Refers notes chunks st.db
      → embed_pending p dim read_fault save_fault st ≡ some out
      → Refers notes chunks out.1.db
  embed_pending-Refers =
      embed_pending-Keeps p dim read_fault save_fault (Refers notes chunks)
        (λ i. has_chunk i chunks ≡ true) (λ db h. missing-Known chunks db h.same_chunks)
        save_embeddings-Refers
