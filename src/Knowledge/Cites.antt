-- ===== src/Knowledge/Cites.antt =====
-- Search and Ask of knowledge/knowledge.go over the tables: what an answer shows and cites is there.
mod Tests
use rag_ai_system.Prelude.{
  ℕ, ◌≡◌, refl, sym, ap, ◌∙◌, subst, inl, inr, Bool, true, ◌&&◌, ◌==◌, Option, none, some, List, [],
  ◌∷◌, map, Bool-cases, Option-cases, All, All-append, length, ℤ, pos, to_nat, is_positive, Result,
  ok, err, ok-injective,
}
use rag_ai_system.Text.{Text, codes, text_eq}
use rag_ai_system.Backoff.{Err, wrapped}
use rag_ai_system.Embed.{query, Provider}
use rag_ai_system.Llm.{Generator}
use rag_ai_system.Rag.{seen_in}
use rag_ai_system.Rag.Unique.{any_source, sources_lem, text_eq→eq}
use rag_ai_system.Storage.{NoteRow, ChunkRow, Db}
use rag_ai_system.Storage.Tables.{All-take}
use rag_ai_system.Storage.Search.{
  StoredHit, to_stored, chunk_of, note_of, Row, with_note, with_chunk, joined, sort_rows,
  nearest_rows,
}
use rag_ai_system.Storage.Search.Order.{chunk_of-id}
use rag_ai_system.Storage.Search.Nearest.{All-put_row}
use rag_ai_system.Knowledge.Ask.{
  Hit, Answer, store_search, search_vectors, search, passage, ask, ask_answers,
}

-- The loop of Knowledge.Search over the hits of the store.
abbrev pub as_hit : {Score : Type 0} → StoredHit Score → Hit Score
as_hit h = record {
  source = h.note_path;
  title = h.note_name;
  index = pos h.chunk_index;
  text = h.text;
  score = h.score;
}

-- A row of the join is made of a chunk and of its note.
abbrev Joins : {F D : Type 0} → Db F → Row D → Type 0
Joins db r =
    (chunk_of r.chunk.id db.chunks ≡ some r.chunk)
    × (note_of r.chunk.note_id db.notes ≡ some r.note)

-- A hit shows the text of a chunk, at its place in a note, and has that note's path and name.
abbrev pub Shows : {F Score : Type 0} → Db F → Hit Score → Type 0
Shows db h =
    (c : ChunkRow) × (r : NoteRow) × (chunk_of c.id db.chunks ≡ some c)
    × (note_of c.note_id db.notes ≡ some r)
    × (h.text ≡ c.text)
    × (h.index ≡ pos c.index)
    × (h.source ≡ r.path)
    × (h.title ≡ r.name)

module _ {F D : Type 0} (distance : List F → List F → D) (le : D → D → Bool) where
  with_note-Joins :
      (db : Db F) (d : D) (c : ChunkRow) (r : Option NoteRow)
      → chunk_of c.id db.chunks ≡ some c
      → note_of c.note_id db.notes ≡ r
      → All (Joins db) (with_note distance le d c r)
  with_note-Joins db d c none h k = tt
  with_note-Joins db d c (some r) h k = ((h, k), tt)

  with_chunk-Joins :
      (db : Db F) (d : D) (id : ℕ) (c : Option ChunkRow)
      → chunk_of id db.chunks ≡ c
      → All (Joins db) (with_chunk distance le db.notes d c)
  with_chunk-Joins db d id none h = tt
  with_chunk-Joins db d id (some c) h =
      with_note-Joins db d c (note_of c.note_id db.notes)
        (subst (λ i. chunk_of i db.chunks ≡ some c) (sym (chunk_of-id id db.chunks c h)) h) refl

  joined-Joins :
      (q : List F) (db : Db F) (vs : List (ℕ × List F))
      → All (Joins db) (joined distance le q db.notes db.chunks vs)
  unfolding joined
  joined-Joins q db [] = tt
  joined-Joins q db ((id, v) ∷ vs) =
      All-append _ (with_chunk distance le db.notes (distance v q) (chunk_of id db.chunks)) _
        (with_chunk-Joins db (distance v q) id (chunk_of id db.chunks) refl) (joined-Joins q db vs)

  All-sort_rows :
      (P : Row D → Type 0) (xs : List (Row D)) → All P xs → All P (sort_rows distance le xs)
  unfolding sort_rows
  All-sort_rows P [] h = tt
  All-sort_rows P (x ∷ xs) (h, hs) =
      All-put_row distance le P x (sort_rows distance le xs) h (All-sort_rows P xs hs)

  nearest_rows-Joins :
      (q : List F) (k : ℕ) (db : Db F) → All (Joins db) (nearest_rows distance le q k db)
  unfolding nearest_rows
  nearest_rows-Joins q k db =
      All-take (Joins db) k _ (All-sort_rows (Joins db) _ (joined-Joins q db db.vectors))

-- `tables` is what the database holds in a state, and `fault` the error of its query.
module _ {F D Score S : Type 0} (distance : List F → List F → D) (le : D → D → Bool)
    (score : D → Score) (tables : S → Db F) (fault : S → Option Err) where
  -- The statement of Store.Search, as Knowledge.Search hands its rows on.
  unfoldable pub nearest : List F → ℕ → S → Result Err (List (Hit Score)) × S
  unfolding nearest_rows
  nearest q k s = (
    elim (fault s) [
      | some e ↦ err (wrapped (codes "search") e)
      | none ↦ ok (map (λ r. as_hit (to_stored score r)) (nearest_rows distance le q k (tables s)))
    ],
    s,
  )

  map-Shows :
      (db : Db F) (rows : List (Row D))
      → All (Joins db) rows
      → All (Shows {Score = Score} db) (map (λ r. as_hit (to_stored score r)) rows)
  map-Shows db [] h = tt
  map-Shows db (r ∷ rows) ((c, n), hs) =
      ((r.chunk, r.note, c, n, refl, refl, refl, refl), map-Shows db rows hs)

  nearest-Shows :
      (q : List F) (k : ℕ) (s : S) (hits : List (Hit Score))
      → (nearest q k s).0 ≡ ok hits
      → All (Shows (tables s)) hits
  unfolding nearest
  nearest-Shows q k s hits h = elim (Option-cases (fault s)) [
    | inr (e, f) ↦ cc (rw f at h)
    | inl f ↦ subst (All (Shows (tables s))) (ok-injective (rw f at h)) (
        map-Shows (tables s) (nearest_rows distance le q k (tables s))
          (nearest_rows-Joins distance le q k (tables s)))
  ]

  search_vectors-Shows :
      (dim : ℤ) (p : Provider F S) (top_k : ℤ) (r : Result Err (List (List F)) × S)
      (hits : List (Hit Score))
      → (search_vectors nearest dim p top_k r).0 ≡ ok hits
      → All (Shows (tables r.1)) hits
  unfolding store_search
  search_vectors-Shows dim p top_k (err e, s) hits h = cc
  search_vectors-Shows dim p top_k (ok [], s) hits h = cc
  search_vectors-Shows dim p top_k (ok (v ∷ w ∷ vs), s) hits h = cc
  search_vectors-Shows dim p top_k (ok (v ∷ []), s) hits h =
      elim (Bool-cases (is_positive dim && length v == to_nat dim)) [
        | inr e ↦ cc (rw e at h)
        | inl e ↦ nearest-Shows v _ s hits (rw e at h)
      ]

  -- A source of the passages is the path of a note in the tables.
  abbrev pub Cited : Db F → Text → Type 0
  Cited db source =
      (c : ChunkRow) × (r : NoteRow) × (chunk_of c.id db.chunks ≡ some c)
      × (note_of c.note_id db.notes ≡ some r)
      × (r.path ≡ source)

  source-Cited :
      (dim : ℤ) (p : Provider F S) (db : Db F) (source : Text) (hits : List (Hit Score))
      → All (Shows db) hits
      → any_source source (map (passage nearest dim p) hits) ≡ true
      → Cited db source
  source-Cited dim p db source [] h k = cc
  source-Cited dim p db source (hit ∷ hits) ((c, r, in_c, in_r, _, _, from, _), hs) k =
      elim (Bool-cases (text_eq source hit.source)) [
        | inl e ↦ (c, r, in_c, in_r, sym from ∙ sym (text_eq→eq source hit.source e))
        | inr e ↦ source-Cited dim p db source hits hs (rw e at k)
      ]

  -- What an answer shows and cites is in the tables: each of its hits has the text and the place of a
  -- chunk with the path and the name of that chunk's note, and each of its sources is the path of such a
  -- note. The tables are those in the state that embedding the question leaves.
  pub ask_cites :
      (dim : ℤ) (p : Provider F S) (system_prompt : Text) (zero_score : Score) (g : Generator S)
      (question : Text) (top_k : ℤ) (s s' : S) (a : Answer Score)
      → ask nearest dim p system_prompt zero_score (some g) question top_k s ≡ (ok a, s')
      → let db = tables (p.embed (question ∷ []) query s).1 in
        All (Shows db) a.hits
        × ((source : Text) → seen_in source a.sources ≡ true → Cited db source)
  ask_cites dim p system_prompt zero_score g question top_k s s' a ran =
      let (found, _, cites, _) =
        ask_answers nearest dim p system_prompt zero_score g question top_k s s' a ran in
      let shown =
        search_vectors-Shows dim p top_k (p.embed (question ∷ []) query s) a.hits
          (unfold search in found) in
      (
        shown,
        λ source k.
            source-Cited dim p (tables (p.embed (question ∷ []) query s).1) source a.hits shown (
              sym ((sources_lem (map (passage nearest dim p) a.hits)).1 source)
              ∙ ap (seen_in source) (sym cites)
              ∙ k),
      )
