-- ===== src/Storage.antt =====
-- internal/storage: the tables and the statements that the Store runs on them, for one embedding
-- space. A statement runs as a whole or not at all; `fault` is the database's error, if it has one.
pub mod Dsn
pub mod Save
pub mod Tables
pub mod Search
pub mod Keys
pub mod Spaces
pub mod Migrate
pub mod Pending
use rag_ai_system.Prelude.{
  ℕ, ◌+◌, ◌-◌, Bool, true, false, not, ◌&&◌, ◌||◌, Option, none, some, List, [], ◌∷◌, ◌++◌, ◌==◌,
  if◌then◌else◌, length, take, ℤ, pos, to_nat, is_positive, Result, ok, err,
}
use rag_ai_system.Text.{Text, codes, text_eq}
use rag_ai_system.Backoff.{Err, plain, wrapped, positive_or}
use rag_ai_system.Chunk.{CutError}
use rag_ai_system.Vault.Scan.{Note}

pub record NoteRow : Type 0 where
  pub id : ℕ
  pub path : Text
  pub name : Text
  pub text : Text
  pub hash : Text

pub record ChunkRow : Type 0 where
  pub id : ℕ
  pub note_id : ℕ
  pub index : ℕ
  pub text : Text

-- `F` is the type of floats. Rows stand in the order of their ids, which the sequences give out.
module _ (F : Type 0) where
  pub record Db : Type 0 where
    pub notes : List NoteRow
    pub chunks : List ChunkRow
    pub vectors : List (ℕ × List F)
    pub next_note : ℕ
    pub next_chunk : ℕ

pub record EmbeddingStats : Type 0 where
  pub notes : ℕ
  pub chunks : ℕ
  pub embedded : ℕ

pub data SaveError : Type 0 where
  database : Err → SaveError
  chunking : CutError → SaveError

abbrev pub find_note : Text → List NoteRow → Option NoteRow
find_note path [] = none
find_note path (r ∷ rs) = if text_eq r.path path then some r else find_note path rs

-- DO UPDATE SET on the row of that path.
abbrev pub update_note : Note → List NoteRow → List NoteRow
update_note n [] = []
update_note n (r ∷ rs) =
    (if text_eq r.path n.path then record r { name = n.name; text = n.text; hash = n.hash } else r)
    ∷ update_note n rs

-- The rows that a WHERE leaves.
abbrev pub keep_where {ℓ} : {A : Type ℓ} → (A → Bool) → List A → List A
keep_where p [] = []
keep_where p (x ∷ xs) = let rest = keep_where p xs in if p x then x ∷ rest else rest

abbrev pub has_chunk : ℕ → List ChunkRow → Bool
has_chunk id [] = false
has_chunk id (c ∷ cs) = c.id == id || has_chunk id cs

abbrev pub has_note : ℕ → List NoteRow → Bool
has_note id [] = false
has_note id (r ∷ rs) = r.id == id || has_note id rs

abbrev pub in_list : Text → List Text → Bool
in_list s [] = false
in_list s (t ∷ ts) = text_eq s t || in_list s ts

abbrev pub chunk_rows : ℕ → ℕ → ℕ → List Text → List ChunkRow
chunk_rows next note i [] = []
chunk_rows next note i (t ∷ ts) =
    record { id = next; note_id = note; index = i; text = t }
    ∷ chunk_rows (next + 1) note (i + 1) ts

module _ {F : Type 0} where
  -- ON DELETE CASCADE takes the vectors of the chunks that are gone.
  abbrev pub with_chunks : Db F → List ChunkRow → Db F
  with_chunks db kept = record db {
    chunks = kept;
    vectors = keep_where (λ v. has_chunk v.0 kept) db.vectors;
  }

  -- The upsert of SaveNoteWithChunks: the row's id, and whether it was written.
  unfoldable pub upsert_note : Note → Db F → Db F × (ℕ × Bool)
  upsert_note n db = elim (find_note n.path db.notes) [
    | none ↦ (
      record db {
        notes =
            db.notes
            ++ record {
              id = db.next_note;
              path = n.path;
              name = n.name;
              text = n.text;
              hash = n.hash;
            }
              ∷ [];
        next_note = db.next_note + 1;
      },
      (db.next_note, true),
    )
    | some r ↦
        if text_eq r.hash n.hash
        then (db, (r.id, false))
        else (record db { notes = update_note n db.notes }, (r.id, true))
  ]

  unfoldable pub replace_chunks : ℕ → List Text → Db F → Db F
  replace_chunks id texts db =
      let cleared = with_chunks db (keep_where (λ c. not (c.note_id == id)) db.chunks) in
      record cleared {
        chunks = cleared.chunks ++ chunk_rows db.next_chunk id 0 texts;
        next_chunk = db.next_chunk + length texts;
      }

  abbrev pub write_chunks :
      Result CutError (List Text) → Db F → Db F × (ℕ × Bool) → Result SaveError (ℕ × Bool) × Db F
  write_chunks chunks before (db, (id, false)) = (ok (id, false), db)
  write_chunks (err e) before (db, (id, true)) = (err (chunking e), before)
  write_chunks (ok texts) before (db, (id, true)) = (ok (id, true), replace_chunks id texts db)

  -- SaveNoteWithChunks: a failed transaction is rolled back.
  unfoldable pub save_note :
      Option Err → Note → Result CutError (List Text) → Db F → Result SaveError (ℕ × Bool) × Db F
  unfolding upsert_note replace_chunks
  save_note fault n chunks db = elim fault [
    | some e ↦ (err (database e), db)
    | none ↦ write_chunks chunks db (upsert_note n db)
  ]

  -- DeleteMissingNotes: how many rows went.
  unfoldable pub delete_missing : Option Err → List Text → Db F → Result Err ℕ × Db F
  delete_missing fault [] db = (ok 0, db)
  delete_missing (some e) (p ∷ ps) db =
      (err (wrapped (codes "delete notes missing from the vault") e), db)
  delete_missing none (p ∷ ps) db =
      let kept = keep_where (λ r. in_list r.path (p ∷ ps)) db.notes in
      (
        ok (length db.notes - length kept),
        with_chunks (record db { notes = kept })
            (keep_where (λ c. has_note c.note_id kept) db.chunks),
      )

  abbrev pub has_vector : ℕ → List (ℕ × List F) → Bool
  has_vector id [] = false
  has_vector id ((j, v) ∷ vs) = j == id || has_vector id vs

  unfoldable pub missing : Db F → List ChunkRow
  missing db = keep_where (λ c. not (has_vector c.id db.vectors)) db.chunks

  -- PendingChunks
  unfoldable pub pending_chunks : Option Err → ℤ → Db F → Result Err (List ChunkRow)
  unfolding missing
  pending_chunks fault limit db = elim fault [
    | some e ↦ err (wrapped (codes "pending chunks") e)
    | none ↦ ok (take (to_nat (positive_or limit (pos 1))) (missing db))
  ]

  -- ON CONFLICT (chunk_id) DO UPDATE
  abbrev pub put_vector : ℕ → List F → List (ℕ × List F) → List (ℕ × List F)
  put_vector id v [] = (id, v) ∷ []
  put_vector id v ((j, w) ∷ vs) = if j == id then (id, v) ∷ vs else (j, w) ∷ put_vector id v vs

  abbrev pub put_vectors : List (ℕ × List F) → List (ℕ × List F) → List (ℕ × List F)
  put_vectors [] vs = vs
  put_vectors ((id, v) ∷ batch) vs = put_vectors batch (put_vector id v vs)

  -- The dimension test of buildEmbeddingInsert.
  abbrev pub all_fit : ℤ → List (ℕ × List F) → Bool
  all_fit dim [] = true
  all_fit dim ((id, v) ∷ batch) = (is_positive dim && length v == to_nat dim) && all_fit dim batch

  -- SaveEmbeddings
  unfoldable pub save_embeddings : Option Err → ℤ → List (ℕ × List F) → Db F → Option Err × Db F
  save_embeddings fault dim [] db = (none, db)
  save_embeddings fault dim (cv ∷ batch) db =
      if all_fit dim (cv ∷ batch)
      then elim fault [
        | some e ↦ (some (wrapped (codes "save embeddings") e), db)
        | none ↦ (none, record db { vectors = put_vectors (cv ∷ batch) db.vectors })
      ]
      else (some (plain (codes "wrong dimension")), db)

  -- Stats
  unfoldable pub stats : Option Err → Db F → Result Err EmbeddingStats
  stats (some e) db = err (wrapped (codes "stats") e)
  stats none db =
      ok (record {
        notes = length db.notes;
        chunks = length db.chunks;
        embedded = length db.vectors;
      })
