-- ===== src/Storage/Search/Tests.antt =====
-- A search over three chunks, of which two are equally near.
use rag_ai_system.Prelude.{ℕ, ◌+◌, ◌-◌, ◌≡◌, refl, List, [], ◌∷◌, map, arith, leb, length, All}
use rag_ai_system.Text.{codes}
use rag_ai_system.Storage.{Db}
use rag_ai_system.Storage.Tables.{Apart}
use rag_ai_system.Storage.Keys.{IsDb}
use rag_ai_system.Storage.Search.{joined, nearest_rows}
use rag_ai_system.Storage.Search.Order.{swap, IsOrder, nearest_rows-Reordered}
use rag_ai_system.Storage.Search.Nearest.{Before, GivenOrAfter, nearest_rows_lem}

abbrev first_of : List ℕ → ℕ
first_of [] = 0
first_of (x ∷ xs) = x

abbrev apart_by : List ℕ → List ℕ → ℕ
apart_by v w = (first_of v - first_of w) + (first_of w - first_of v)

leb-IsOrder : IsOrder leb
leb-IsOrder = record {
  total = λ a b h. ground (arith, h);
  trans = λ a b c h k. ground (arith, h, k);
}

abbrev over : List (ℕ × List ℕ) → Db ℕ
over vectors = record {
  notes =
      record { id = 1; path = codes "a.md"; name = []; text = codes "x"; hash = codes "h" } ∷ [];
  chunks =
      record { id = 1; note_id = 1; index = 0; text = codes "x" }
      ∷ record { id = 2; note_id = 1; index = 1; text = codes "y" }
      ∷ record { id = 3; note_id = 1; index = 2; text = codes "z" }
      ∷ [];
  vectors = vectors;
  next_note = 2;
  next_chunk = 4;
}

abbrev db : Db ℕ
db = over ((3, 6 ∷ []) ∷ (2, 4 ∷ []) ∷ (1, 9 ∷ []) ∷ [])

db-IsDb : IsDb db
db-IsDb = record {
  note_ids = omega arith;
  notes_apart = (tt, tt);
  chunk_ids = omega arith;
  chunks_apart = (((refl, refl), ((refl, refl), tt)), (((refl, refl), tt), (tt, tt)));
  vectors_apart = ((refl, (refl, tt)), ((refl, tt), (tt, tt)));
  owned = (refl, (refl, (refl, tt)));
  held = (refl, (refl, (refl, tt)));
}

two_found : map (λ r. r.chunk.id) (nearest_rows apart_by leb (5 ∷ []) 2 db) ≡ 2 ∷ 3 ∷ []
unfolding nearest_rows
two_found = refl

nearest_rows_lem_example :
    let given = nearest_rows apart_by leb (5 ∷ []) 2 db in
    let all = joined apart_by leb (5 ∷ []) db.notes db.chunks db.vectors in
    (length given ≡ 2)
    × Apart (Before apart_by leb) given
    × (length all ≡ 3)
    × All (GivenOrAfter apart_by leb given) all
nearest_rows_lem_example = nearest_rows_lem apart_by leb leb-IsOrder (5 ∷ []) 2 db db-IsDb

nearest_rows-Reordered_example :
    nearest_rows apart_by leb (5 ∷ []) 2 db
    ≡ nearest_rows apart_by leb (5 ∷ []) 2 (over ((2, 4 ∷ []) ∷ (3, 6 ∷ []) ∷ (1, 9 ∷ []) ∷ []))
nearest_rows-Reordered_example =
    nearest_rows-Reordered apart_by leb leb-IsOrder (5 ∷ []) 2 db
      ((2, 4 ∷ []) ∷ (3, 6 ∷ []) ∷ (1, 9 ∷ []) ∷ [])
      (swap (3, 6 ∷ []) (2, 4 ∷ []) ((1, 9 ∷ []) ∷ []) refl)
