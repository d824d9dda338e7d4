-- ===== src/Storage/Keys.antt =====
-- The keys and references of the tables, as the migrations declare them, and the statements of
-- internal/storage that keep them.
pub mod Notes
pub mod Chunks
use rag_ai_system.Prelude.{
  ℕ, ◌<◌, ◌≡◌, subst, inl, inr, true, false, ◌&&◌, Option, none, some, List, [], ◌∷◌, ◌==◌, ==_iff,
  Bool-cases, Option-cases, All, ℤ,
}
use rag_ai_system.Text.{Text, text_eq}
use rag_ai_system.Backoff.{Err}
use rag_ai_system.Storage.{
  NoteRow, ChunkRow, Db, has_chunk, has_note, delete_missing, put_vector, put_vectors, all_fit,
  save_embeddings,
}
use rag_ai_system.Storage.Tables.{
  All-keep_where, keep_where-All, Apart, Apart-keep_where, All-put_vector, All-put_vectors,
}

-- Two notes share neither their id nor their path.
abbrev pub OtherNote : NoteRow → NoteRow → Type 0
OtherNote r q = ((r.id == q.id) ≡ false) × (text_eq r.path q.path ≡ false)

-- Two chunks share neither their id nor their place in a note.
abbrev pub OtherChunk : ChunkRow → ChunkRow → Type 0
OtherChunk c d = ((c.id == d.id) ≡ false) × ((c.note_id == d.note_id && c.index == d.index) ≡ false)

abbrev pub OtherVector : {F : Type 0} → ℕ × List F → ℕ × List F → Type 0
OtherVector v w = (v.0 == w.0) ≡ false

-- What the constraints of the schema and the identities of the ids promise.
pub record IsDb {F : Type 0} (db : Db F) : Type 0 where
  pub note_ids : All (λ (r : NoteRow). r.id < db.next_note) db.notes
  pub notes_apart : Apart OtherNote db.notes
  pub chunk_ids : All (λ (c : ChunkRow). c.id < db.next_chunk) db.chunks
  pub chunks_apart : Apart OtherChunk db.chunks
  pub vectors_apart : Apart (OtherVector {F = F}) db.vectors
  pub owned : All (λ (c : ChunkRow). has_note c.note_id db.notes ≡ true) db.chunks
  pub held : All (λ (v : ℕ × List F). has_chunk v.0 db.chunks ≡ true) db.vectors

module _ {F : Type 0} where
  pub delete_missing-IsDb :
      (fault : Option Err) (paths : List Text) (db : Db F)
      → IsDb db
      → IsDb (delete_missing fault paths db).1
  unfolding delete_missing
  delete_missing-IsDb fault [] db h = h
  delete_missing-IsDb (some e) (p ∷ ps) db h = h
  delete_missing-IsDb none (p ∷ ps) db h = record {
    note_ids = All-keep_where _ _ db.notes h.note_ids;
    notes_apart = Apart-keep_where OtherNote _ db.notes h.notes_apart;
    chunk_ids = All-keep_where _ _ db.chunks h.chunk_ids;
    chunks_apart = Apart-keep_where OtherChunk _ db.chunks h.chunks_apart;
    vectors_apart = Apart-keep_where OtherVector _ db.vectors h.vectors_apart;
    owned = keep_where-All _ db.chunks;
    held = keep_where-All _ db.vectors;
  }

  Apart-put_vector :
      (id : ℕ) (v : List F) (vs : List (ℕ × List F))
      → Apart OtherVector vs
      → Apart OtherVector (put_vector id v vs)
  Apart-put_vector id v [] h = (tt, tt)
  Apart-put_vector id v ((j, w) ∷ vs) (h, hs) = elim (Bool-cases (j == id)) [
    | inl e ↦
        rw e
          (subst (λ i. All (λ (x : ℕ × List F). (i == x.0) ≡ false) vs) ((==_iff j id).0 e) h, hs)
    | inr e ↦ rw e (All-put_vector (λ i. (j == i) ≡ false) id v vs e h, Apart-put_vector id v vs hs)
  ]

  Apart-put_vectors :
      (batch vs : List (ℕ × List F))
      → Apart OtherVector vs
      → Apart OtherVector (put_vectors batch vs)
  Apart-put_vectors [] vs h = h
  Apart-put_vectors ((id, v) ∷ batch) vs h =
      Apart-put_vectors batch (put_vector id v vs) (Apart-put_vector id v vs h)

  -- For a batch of chunks that are there, which is what embedPending saves.
  pub save_embeddings-IsDb :
      (fault : Option Err) (dim : ℤ) (batch : List (ℕ × List F)) (db : Db F)
      → All (λ (v : ℕ × List F). has_chunk v.0 db.chunks ≡ true) batch
      → IsDb db
      → IsDb (save_embeddings fault dim batch db).1
  unfolding save_embeddings
  save_embeddings-IsDb fault dim [] db k h = h
  save_embeddings-IsDb fault dim (cv ∷ batch) db k h =
      elim (Bool-cases (all_fit dim (cv ∷ batch))) [
        | inr e ↦ rw (e, save_embeddings) h
        | inl e ↦ elim (Option-cases fault) [
          | inr (x, f) ↦ rw (e, f, save_embeddings) h
          | inl f ↦
              rw (e, f, save_embeddings)
                (record {
                  note_ids = h.note_ids;
                  notes_apart = h.notes_apart;
                  chunk_ids = h.chunk_ids;
                  chunks_apart = h.chunks_apart;
                  vectors_apart = Apart-put_vectors (cv ∷ batch) db.vectors h.vectors_apart;
                  owned = h.owned;
                  held =
                      All-put_vectors (λ i. has_chunk i db.chunks ≡ true) (cv ∷ batch) db.vectors k
                        h.held;
                })
        ]
      ]
