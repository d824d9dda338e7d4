-- ===== src/Storage/Spaces.antt =====
-- internal/storage/spaces.go: the rows of embedding_spaces, the vector tables and their indexes.
pub mod Rows
pub mod Again
pub mod Exhausted
mod Tests
use rag_ai_system.Prelude.{
  ℕ, ◌+◌, Bool, false, ◌&&◌, ◌||◌, Option, none, some, List, [], ◌∷◌, ◌++◌, leb, ◌==◌,
  if◌then◌else◌, ℤ, pos, negsuc, Result, ok, err,
}
use rag_ai_system.Text.{Text, codes, text_eq}
use rag_ai_system.Backoff.{Err, plain, wrapped}
use rag_ai_system.Embed.{Space, validate, slug}
use rag_ai_system.Embed.Contract.{space_error}

-- A row of embedding_spaces; this is also what EnsureSpace returns.
pub record SpaceRef : Type 0 where
  pub id : ℕ
  pub space : Space
  pub table : Text

-- The rows stand oldest first. `next_id` is what the identity of the SMALLINT column gives next; a
-- sequence is not rolled back.
pub record Catalog : Type 0 where
  pub rows : List SpaceRef
  pub tables : List (Text × ℤ)
  pub indexes : List Text
  pub next_id : ℕ

-- The statements of EnsureSpace, in order.
pub data Statement : Type 0 where
  begin lock register create_table create_index commit : Statement

abbrev pub eq_int : ℤ → ℤ → Bool
eq_int (pos a) (pos b) = a == b
eq_int (pos a) (negsuc b) = false
eq_int (negsuc a) (pos b) = false
eq_int (negsuc a) (negsuc b) = a == b

-- UNIQUE (provider, model, dim)
unfoldable pub same_space : Space → Space → Bool
unfolding text_eq
same_space s t = (text_eq s.provider t.provider && text_eq s.model t.model) && eq_int s.dim t.dim

unfoldable pub find_space : Space → List SpaceRef → Option SpaceRef
unfolding same_space
find_space space [] = none
find_space space (r ∷ rs) = if same_space r.space space then some r else find_space space rs

-- UNIQUE on table_name
abbrev pub has_table : Text → List SpaceRef → Bool
has_table table [] = false
has_table table (r ∷ rs) = text_eq r.table table || has_table table rs

abbrev pub has_name : Text → List (Text × ℤ) → Bool
has_name name [] = false
has_name name ((n, d) ∷ ts) = text_eq n name || has_name name ts

-- CREATE TABLE IF NOT EXISTS
abbrev pub add_table : Text → ℤ → List (Text × ℤ) → List (Text × ℤ)
add_table name dim tables = if has_name name tables then tables else tables ++ (name, dim) ∷ []

-- CREATE INDEX IF NOT EXISTS; an index is named after its table.
abbrev pub add_index : Text → List Text → List Text
add_index table [] = table ∷ []
add_index table (t ∷ ts) = if text_eq t table then t ∷ ts else t ∷ add_index table ts

abbrev pub last_id : ℕ
last_id = 32767

abbrev pub ensure_failed : Err → Err
ensure_failed e = wrapped (codes "ensure space") e

-- `slug` is Space.Slug. The row that the INSERT returns, with the rows as they are then.
unfoldable pub register_row :
    (Space → Text) → Space → Catalog → Result Err (SpaceRef × List SpaceRef)
unfolding find_space text_eq
register_row slug space c = elim (find_space space c.rows) [
  | some r ↦ ok (r, c.rows)
  | none ↦
      if has_table (slug space) c.rows
      then err (plain (codes "duplicate key value of table_name"))
      else let new : SpaceRef = record { id = c.next_id; space = space; table = slug space } in
        ok (new, c.rows ++ new ∷ [])
]

-- `fault` is the database's error on a statement, if it has one. A failed transaction is rolled back.
module _ (fault : Statement → Option Err) where
  abbrev pub statement :
      Statement → Catalog → Result Err SpaceRef × Catalog → Result Err SpaceRef × Catalog
  statement st before after = elim (fault st) [
    | some e ↦ (err (ensure_failed e), before)
    | none ↦ after
  ]

  abbrev pub create_storage :
      Space → Catalog → Result Err (SpaceRef × List SpaceRef) → Result Err SpaceRef × Catalog
  create_storage space c (err e) = (err (ensure_failed e), c)
  create_storage space c (ok (r, rows)) = statement create_table c (
      statement create_index c (
        statement commit c (
          ok (record { id = r.id; space = space; table = r.table }),
          record {
            rows = rows;
            tables = add_table r.table space.dim c.tables;
            indexes = add_index r.table c.indexes;
            next_id = c.next_id;
          },
        )))

module _ (slug : Space → Text) (fault : Statement → Option Err) where
  -- The INSERT draws an id before it looks for a conflict.
  unfoldable pub insert_space : Space → Catalog → Result Err SpaceRef × Catalog
  unfolding register_row text_eq
  insert_space space c =
      if leb c.next_id last_id
      then create_storage fault space (record c { next_id = c.next_id + 1 })
          (register_row slug space c)
      else (err (ensure_failed (plain (codes "nextval: reached maximum value of sequence"))), c)

  -- EnsureSpace
  unfoldable pub ensure_space : Space → Catalog → Result Err SpaceRef × Catalog
  unfolding validate insert_space
  ensure_space space c = elim (validate space) [
    | some e ↦ (err (space_error e), c)
    | none ↦
        statement fault begin c
          (statement fault lock c (statement fault register c (insert_space space c)))
  ]

-- Spaces, newest first.
abbrev pub newest_first : List SpaceRef → List SpaceRef → List SpaceRef
newest_first [] acc = acc
newest_first (r ∷ rs) acc = newest_first rs (r ∷ acc)

unfoldable pub spaces : Option Err → Catalog → Result Err (List SpaceRef)
spaces (some e) c = err (wrapped (codes "list embedding spaces") e)
spaces none c = ok (newest_first c.rows [])
