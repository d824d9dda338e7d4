-- ===== src/Storage/Keys/Chunks.antt =====
-- SaveNoteWithChunks keeps the keys and references of the tables: the chunks that it replaces.
use rag_ai_system.Prelude.{
  ℕ, ◌+◌, ◌≤◌, ◌<◌, ◌≡◌, refl, ◌∙◌, Bool, true, false, not, ◌||◌, Option, none, some, List, [], ◌∷◌,
  ◌++◌, arith, ◌==◌, length, All, All-append, Result, ok, err,
}
use rag_ai_system.Text.{Text}
use rag_ai_system.Backoff.{Err}
use rag_ai_system.Chunk.{CutError}
use rag_ai_system.Vault.Scan.{Note}
use rag_ai_system.Storage.{
  ChunkRow, Db, keep_where, has_chunk, has_note, chunk_rows, upsert_note, replace_chunks,
  write_chunks, save_note,
}
use rag_ai_system.Storage.Tables.{
  All-implies, All-both, All-keep_where, keep_where-All, Apart, Apart-keep_where, Apart-append,
}
use rag_ai_system.Storage.Keys.{OtherChunk, IsDb}
use rag_ai_system.Storage.Keys.Notes.{upsert_note-IsDb, has_note-upsert}

has_chunk-append :
    (id : ℕ) (xs ys : List ChunkRow)
    → has_chunk id (xs ++ ys) ≡ (has_chunk id xs || has_chunk id ys)
has_chunk-append id [] ys = refl
has_chunk-append id (x ∷ xs) ys = ground (arith, has_chunk-append id xs ys)

-- A row of the note, whose id and place are at least these.
abbrev From : ℕ → ℕ → ℕ → ChunkRow → Type 0
From next note i c = (next ≤ c.id) × (c.note_id ≡ note) × (i ≤ c.index)

rows-From : (next note i : ℕ) (ts : List Text) → All (From next note i) (chunk_rows next note i ts)
rows-From next note i [] = tt
rows-From next note i (t ∷ ts) = (
  (omega arith, refl, omega arith),
  All-implies (From (next + 1) note (i + 1)) (From next note i)
      (chunk_rows (next + 1) note (i + 1) ts)
      (λ c (a, b, d). (omega (arith, a), b, omega (arith, d)))
      (rows-From (next + 1) note (i + 1) ts),
)

rows_below :
    (next note i : ℕ) (ts : List Text)
    → All (λ (c : ChunkRow). c.id < next + length ts) (chunk_rows next note i ts)
rows_below next note i [] = tt
rows_below next note i (t ∷ ts) = (
  omega arith,
  All-implies _ _ (chunk_rows (next + 1) note (i + 1) ts) (λ c k. omega (arith, k))
      (rows_below (next + 1) note (i + 1) ts),
)

rows-Apart : (next note i : ℕ) (ts : List Text) → Apart OtherChunk (chunk_rows next note i ts)
rows-Apart next note i [] = tt
rows-Apart next note i (t ∷ ts) = (
  All-implies (From (next + 1) note (i + 1)) _ (chunk_rows (next + 1) note (i + 1) ts)
      (λ c (a, b, d). (ground (arith, a), ground (arith, b, d)))
      (rows-From (next + 1) note (i + 1) ts),
  rows-Apart (next + 1) note (i + 1) ts,
)

module _ {F : Type 0} where
  replace_chunks-IsDb :
      (id : ℕ) (texts : List Text) (db : Db F)
      → has_note id db.notes ≡ true
      → IsDb db
      → IsDb (replace_chunks id texts db)
  unfolding replace_chunks
  replace_chunks-IsDb id texts db there h =
      let kept = keep_where (λ (c : ChunkRow). not (c.note_id == id)) db.chunks in
      let rows = chunk_rows db.next_chunk id 0 texts in
      let below : All (λ (c : ChunkRow). c.id < db.next_chunk) kept =
        All-keep_where _ _ db.chunks h.chunk_ids in
      record {
        note_ids = h.note_ids;
        notes_apart = h.notes_apart;
        chunk_ids =
            All-append _ kept rows (All-implies _ _ kept (λ c k. omega (arith, k)) below)
              (rows_below db.next_chunk id 0 texts);
        chunks_apart =
            Apart-append OtherChunk kept rows
              (Apart-keep_where OtherChunk _ db.chunks h.chunks_apart)
              (rows-Apart db.next_chunk id 0 texts)
              (All-both _ _ _ kept
                (λ c k other.
                  All-implies (From db.next_chunk id 0) (OtherChunk c) rows
                    (λ d (a, b, _). (ground (arith, k, a), ground (arith, other, b)))
                    (rows-From db.next_chunk id 0 texts))
                below (keep_where-All (λ (c : ChunkRow). not (c.note_id == id)) db.chunks));
        vectors_apart = Apart-keep_where _ _ db.vectors h.vectors_apart;
        owned = All-append _ kept rows (All-keep_where _ _ db.chunks h.owned) (
            All-implies (From db.next_chunk id 0) _ rows (λ c (_, b, _). rw b there)
              (rows-From db.next_chunk id 0 texts));
        held =
            All-implies _ _ (keep_where (λ (v : ℕ × List F). has_chunk v.0 kept) db.vectors)
              (λ v k. has_chunk-append v.0 kept rows ∙ rw k refl)
              (keep_where-All (λ (v : ℕ × List F). has_chunk v.0 kept) db.vectors);
      }

  write_chunks-IsDb :
      (chunks : Result CutError (List Text)) (before : Db F) (u : Db F × (ℕ × Bool))
      → IsDb before
      → IsDb u.0
      → has_note u.1.0 u.0.notes ≡ true
      → IsDb (write_chunks chunks before u).1
  write_chunks-IsDb chunks before (db, (id, false)) hb h there = h
  write_chunks-IsDb (err e) before (db, (id, true)) hb h there = hb
  write_chunks-IsDb (ok texts) before (db, (id, true)) hb h there =
      replace_chunks-IsDb id texts db there h

  pub save_note-IsDb :
      (fault : Option Err) (n : Note) (chunks : Result CutError (List Text)) (db : Db F)
      → IsDb db
      → IsDb (save_note fault n chunks db).1
  unfolding save_note
  save_note-IsDb (some e) n chunks db h = h
  save_note-IsDb none n chunks db h =
      write_chunks-IsDb chunks db (upsert_note n db) h (upsert_note-IsDb n db h)
        (has_note-upsert n db)
