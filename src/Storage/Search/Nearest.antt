-- ===== src/Storage/Search/Nearest.antt =====
-- Search gives the nearest rows: on tables that keep their keys and references no vector is dropped by
-- the joins, and none that is left out is nearer than one that is given.
use rag_ai_system.Prelude.{
  ℕ, zero, suc, min, ◌≡◌, refl, ap, ◌∙◌, ◌⊎◌, inl, inr, Bool, true, false, ◌||◌, some, List, [],
  ◌∷◌, arith, ◌==◌, Bool-cases, length, take, length-take, All,
}
use rag_ai_system.Storage.{NoteRow, ChunkRow, Db, has_chunk, has_note}
use rag_ai_system.Storage.Tables.{All-implies, All-both, All-take, Apart}
use rag_ai_system.Storage.Keys.{IsDb}
use rag_ai_system.Storage.Search.{
  chunk_of, note_of, Row, with_note, with_chunk, joined, before, put_row, sort_rows, nearest_rows,
}
use rag_ai_system.Storage.Search.Order.{IsOrder, before_total, before_trans}

chunk_of_held :
    (P : ChunkRow → Type 0) (id : ℕ) (chunks : List ChunkRow)
    → All P chunks
    → has_chunk id chunks ≡ true
    → (c : ChunkRow) × (chunk_of id chunks ≡ some c) × P c
chunk_of_held P id [] h k = cc
chunk_of_held P id (d ∷ chunks) (h, hs) k = elim (Bool-cases (d.id == id)) [
  | inl e ↦ (d, rw e refl, h)
  | inr e ↦
      let (c, found, holds) = chunk_of_held P id chunks hs (rw e at k) in (c, rw e found, holds)
]

note_of_held :
    (id : ℕ) (notes : List NoteRow)
    → has_note id notes ≡ true
    → (r : NoteRow) × (note_of id notes ≡ some r)
note_of_held id [] k = cc
note_of_held id (d ∷ notes) k = elim (Bool-cases (d.id == id)) [
  | inl e ↦ (d, rw e refl)
  | inr e ↦ let (r, found) = note_of_held id notes (rw e at k) in (r, rw e found)
]

module _ {F D : Type 0} (distance : List F → List F → D) (le : D → D → Bool) where
  length-joined :
      (q : List F) (notes : List NoteRow) (chunks : List ChunkRow) (vs : List (ℕ × List F))
      → All (λ (c : ChunkRow). has_note c.note_id notes ≡ true) chunks
      → All (λ (v : ℕ × List F). has_chunk v.0 chunks ≡ true) vs
      → length (joined distance le q notes chunks vs) ≡ length vs
  unfolding joined
  length-joined q notes chunks [] owned held = refl
  length-joined q notes chunks ((id, v) ∷ vs) owned (h, held) =
      let (c, is_chunk, has) = chunk_of_held _ id chunks owned h in
      let (r, is_note) = note_of_held c.note_id notes has in
      rw (is_chunk, with_chunk)
        (rw (is_note, with_note) (ap (λ n. suc n) (length-joined q notes chunks vs owned held)))

  length-put_row :
      (x : Row D) (ys : List (Row D)) → length (put_row distance le x ys) ≡ suc (length ys)
  length-put_row x [] = refl
  length-put_row x (y ∷ ys) = ground (arith, length-put_row x ys)

  length-sort_rows : (xs : List (Row D)) → length (sort_rows distance le xs) ≡ length xs
  unfolding sort_rows
  length-sort_rows [] = refl
  length-sort_rows (x ∷ xs) =
      length-put_row x (sort_rows distance le xs) ∙ ap (λ n. suc n) (length-sort_rows xs)

  pub All-put_row :
      (P : Row D → Type 0) (x : Row D) (ys : List (Row D))
      → P x
      → All P ys
      → All P (put_row distance le x ys)
  All-put_row P x [] h hs = (h, tt)
  All-put_row P x (y ∷ ys) h (k, hs) = elim (Bool-cases (before distance le x y)) [
    | inl e ↦ rw e (h, (k, hs))
    | inr e ↦ rw e (k, All-put_row P x ys h hs)
  ]

  put_row-All :
      (P : Row D → Type 0) (x : Row D) (ys : List (Row D))
      → All P (put_row distance le x ys)
      → P x × All P ys
  put_row-All P x [] h = h
  put_row-All P x (y ∷ ys) h = elim (Bool-cases (before distance le x y)) [
    | inl e ↦ let split : P x × All P (y ∷ ys) = rw e at h in split
    | inr e ↦
        let split : P y × All P (put_row distance le x ys) = rw e at h in
        let (a, b) = put_row-All P x ys split.1 in (a, (split.0, b))
  ]

  sort_rows-All :
      (P : Row D → Type 0) (xs : List (Row D)) → All P (sort_rows distance le xs) → All P xs
  unfolding sort_rows
  sort_rows-All P [] h = tt
  sort_rows-All P (x ∷ xs) h =
      let (a, b) = put_row-All P x (sort_rows distance le xs) h in (a, sort_rows-All P xs b)

  -- `a` comes before `b`.
  abbrev pub Before : Row D → Row D → Type 0
  Before a b = before distance le a b ≡ true

  abbrev pub has_row : ℕ → List (Row D) → Bool
  has_row id [] = false
  has_row id (r ∷ rs) = r.chunk.id == id || has_row id rs

  same_id : (i : ℕ) → (i == i) ≡ true
  same_id i = ground arith

  -- A row is given, or every row that is given comes before it.
  abbrev pub GivenOrAfter : List (Row D) → Row D → Type 0
  GivenOrAfter given r = (has_row r.chunk.id given ≡ true) ⊎ All (λ a. Before a r) given

  take-GivenOrAfter :
      (k : ℕ) (xs : List (Row D)) → Apart Before xs → All (GivenOrAfter (take k xs)) xs
  take-GivenOrAfter k [] h = tt
  take-GivenOrAfter zero (x ∷ xs) h = (inr tt, All-implies _ _ xs (λ r t. inr tt) h.0)
  take-GivenOrAfter (suc k) (x ∷ xs) (h, hs) = (
    inl (rw (same_id x.chunk.id) refl),
    All-both _ _ _ xs
        (λ r first rest. elim rest [
          | inl g ↦ inl (ground (arith, g))
          | inr after ↦ inr (first, after)
        ])
        h (take-GivenOrAfter k xs hs),
  )

  Apart-take : (k : ℕ) (xs : List (Row D)) → Apart Before xs → Apart Before (take k xs)
  Apart-take zero xs h = tt
  Apart-take (suc k) [] h = tt
  Apart-take (suc k) (x ∷ xs) (h, hs) = (All-take (Before x) k xs h, Apart-take k xs hs)

module _ {F D : Type 0} (distance : List F → List F → D) (le : D → D → Bool) (o : IsOrder le) where
  Apart-put_row :
      (x : Row D) (ys : List (Row D))
      → Apart (Before distance le) ys
      → Apart (Before distance le) (put_row distance le x ys)
  Apart-put_row x [] h = (tt, tt)
  Apart-put_row x (y ∷ ys) (h, hs) = elim (Bool-cases (before distance le x y)) [
    | inl e ↦
        rw e ((e, All-implies _ _ ys (λ r k. before_trans distance le o x y r e k) h), (h, hs))
    | inr e ↦ rw e (
      All-put_row distance le (Before distance le y) x ys (before_total distance le o x y e) h,
      Apart-put_row x ys hs,
    )
  ]

  sort_rows-Apart : (xs : List (Row D)) → Apart (Before distance le) (sort_rows distance le xs)
  unfolding sort_rows
  sort_rows-Apart [] = tt
  sort_rows-Apart (x ∷ xs) = Apart-put_row x (sort_rows distance le xs) (sort_rows-Apart xs)

  -- Over tables that keep their keys and references, Search gives as many rows as are asked for if
  -- there are so many vectors, and else all of them, the nearest first; and the row of every vector is
  -- given or comes after all that are. The order of distances is total.
  pub nearest_rows_lem :
      (q : List F) (k : ℕ) (db : Db F)
      → IsDb db
      → let given = nearest_rows distance le q k db in
        let all = joined distance le q db.notes db.chunks db.vectors in
        (length given ≡ min k (length db.vectors))
        × Apart (Before distance le) given
        × (length all ≡ length db.vectors)
        × All (GivenOrAfter distance le given) all
  unfolding nearest_rows
  nearest_rows_lem q k db h =
      let all = joined distance le q db.notes db.chunks db.vectors in
      let sorted = sort_rows distance le all in
      let every = length-joined distance le q db.notes db.chunks db.vectors h.owned h.held in
      (
        length-take k sorted ∙ ap (min k) (length-sort_rows distance le all ∙ every),
        Apart-take distance le k sorted (sort_rows-Apart all),
        every,
        sort_rows-All distance le (GivenOrAfter distance le (take k sorted)) all
            (take-GivenOrAfter distance le k sorted (sort_rows-Apart all)),
      )
