-- ===== src/Storage/Search.antt =====
-- internal/storage/search.go: the statement of Search over the tables, as SQL reads it. The hnsw index
-- answers it approximately, and may leave out rows that the statement asks for.
mod Tests
pub mod Order
pub mod Nearest
use rag_ai_system.Prelude.{
  ℕ, Bool, true, false, Option, none, some, List, [], ◌∷◌, ◌++◌, leb, ◌==◌, if◌then◌else◌, take,
}
use rag_ai_system.Text.{Text}
use rag_ai_system.Storage.{NoteRow, ChunkRow, Db}

-- A Hit of package storage.
pub record StoredHit (Score : Type 0) : Type 0 where
  pub chunk_id : ℕ
  pub chunk_index : ℕ
  pub text : Text
  pub note_path : Text
  pub note_name : Text
  pub score : Score

abbrev pub chunk_of : ℕ → List ChunkRow → Option ChunkRow
chunk_of id [] = none
chunk_of id (c ∷ cs) = if c.id == id then some c else chunk_of id cs

abbrev pub note_of : ℕ → List NoteRow → Option NoteRow
note_of id [] = none
note_of id (r ∷ rs) = if r.id == id then some r else note_of id rs

-- A row of the join, with its distance from the query.
module _ (D : Type 0) where
  pub record Row : Type 0 where
    pub distance : D
    pub chunk : ChunkRow
    pub note : NoteRow

-- `distance` is the operator <=> of pgvector, and `le` the order of its results.
module _ {F D : Type 0} (distance : List F → List F → D) (le : D → D → Bool) where
  abbrev pub with_note : D → ChunkRow → Option NoteRow → List (Row D)
  with_note d c none = []
  with_note d c (some r) = record { distance = d; chunk = c; note = r } ∷ []

  abbrev pub with_chunk : List NoteRow → D → Option ChunkRow → List (Row D)
  with_chunk notes d none = []
  with_chunk notes d (some c) = with_note d c (note_of c.note_id notes)

  -- The two joins.
  unfoldable pub joined : List F → List NoteRow → List ChunkRow → List (ℕ × List F) → List (Row D)
  joined q notes chunks [] = []
  joined q notes chunks ((id, v) ∷ vs) =
      with_chunk notes (distance v q) (chunk_of id chunks) ++ joined q notes chunks vs

  -- ORDER BY e.embedding <=> $1, c.id
  abbrev pub before : Row D → Row D → Bool
  before a b =
      if le a.distance b.distance
      then (if le b.distance a.distance then leb a.chunk.id b.chunk.id else true)
      else false

  abbrev pub put_row : Row D → List (Row D) → List (Row D)
  put_row x [] = x ∷ []
  put_row x (y ∷ ys) = let rest = put_row x ys in if before x y then x ∷ y ∷ ys else y ∷ rest

  unfoldable pub sort_rows : List (Row D) → List (Row D)
  sort_rows [] = []
  sort_rows (x ∷ xs) = put_row x (sort_rows xs)

  -- The rows of the statement, before their columns are selected.
  unfoldable pub nearest_rows : List F → ℕ → Db F → List (Row D)
  unfolding joined sort_rows
  nearest_rows q k db = take k (sort_rows (joined q db.notes db.chunks db.vectors))

-- The columns of a row; `score` is 1 less the distance.
abbrev pub to_stored : {D Score : Type 0} → (D → Score) → Row D → StoredHit Score
to_stored score r = record {
  chunk_id = r.chunk.id;
  chunk_index = r.chunk.index;
  text = r.chunk.text;
  note_path = r.note.path;
  note_name = r.note.name;
  score = score r.distance;
}
