-- ===== src/Storage/Search/Order.antt =====
-- The order of the rows in their tables is no matter to Search.
use rag_ai_system.Prelude.{
  ℕ, ◌≡◌, refl, sym, ap, ◌∙◌, subst, inl, inr, Bool, true, false, Option, none, some, List, [], ◌∷◌,
  ◌++◌, arith, ◌==◌, ==_iff, Bool-cases, Option-cases, take,
}
use rag_ai_system.Storage.{NoteRow, ChunkRow, Db}
use rag_ai_system.Storage.Search.{
  chunk_of, note_of, Row, with_note, with_chunk, joined, before, put_row, sort_rows, nearest_rows,
}

-- The rows of a table with its primary key, in another order.
pub data Reordered {F : Type 0} : List (ℕ × List F) → List (ℕ × List F) → Type 0 where
  none_left : Reordered [] []
  keep :
      (x : ℕ × List F) {xs ys : List (ℕ × List F)} → Reordered xs ys → Reordered (x ∷ xs) (x ∷ ys)
  swap :
      (x y : ℕ × List F) (xs : List (ℕ × List F))
      → (x.0 == y.0) ≡ false
      → Reordered (x ∷ y ∷ xs) (y ∷ x ∷ xs)
  both : {xs ys zs : List (ℕ × List F)} → Reordered xs ys → Reordered ys zs → Reordered xs zs

pub chunk_of-id :
    (id : ℕ) (chunks : List ChunkRow) (c : ChunkRow) → chunk_of id chunks ≡ some c → c.id ≡ id
chunk_of-id id [] c h = cc
chunk_of-id id (d ∷ chunks) c h = elim (Bool-cases (d.id == id)) [
  | inl e ↦
      let same : d ≡ c = cc (rw e at h) in
      sym (ap (λ (x : ChunkRow). x.id) same) ∙ (==_iff d.id id).0 e
  | inr e ↦ chunk_of-id id chunks c (rw e at h)
]

-- The order that ORDER BY goes by is a total one.
pub record IsOrder {D : Type 0} (le : D → D → Bool) : Type 0 where
  pub total : (a b : D) → le a b ≡ false → le b a ≡ true
  pub trans : (a b c : D) → le a b ≡ true → le b c ≡ true → le a c ≡ true

module _ {F D : Type 0} (distance : List F → List F → D) (le : D → D → Bool) (o : IsOrder le) where
  pub before_total : (a b : Row D) → before distance le a b ≡ false → before distance le b a ≡ true
  before_total a b h = ground (arith, o.total a.distance b.distance)

  pub before_trans :
      (a b c : Row D)
      → before distance le a b ≡ true
      → before distance le b c ≡ true
      → before distance le a c ≡ true
  before_trans a b c h k = ground (
    arith,
    o.trans a.distance b.distance c.distance,
    o.trans c.distance a.distance b.distance,
    o.trans b.distance c.distance a.distance,
  )

  before_antisym :
      (a b : Row D)
      → (a.chunk.id == b.chunk.id) ≡ false
      → before distance le a b ≡ true
      → before distance le b a ≡ false
  before_antisym a b other h = ground arith

  put_put_before :
      (x y : Row D) (zs : List (Row D))
      → before distance le x y ≡ true
      → before distance le y x ≡ false
      → put_row distance le x (put_row distance le y zs)
        ≡ put_row distance le y (put_row distance le x zs)
  put_put_before x y [] h k = rw (h, k) refl
  put_put_before x y (z ∷ zs) h k = elim (Bool-cases (before distance le y z)) [
    | inl e ↦ rw (e, h, before_trans x y z h e, k, e) refl
    | inr e ↦ elim (Bool-cases (before distance le x z)) [
      | inl f ↦ rw (e, f, k, e) refl
      | inr f ↦ rw (e, f, e) (ap (λ rest. z ∷ rest) (put_put_before x y zs h k))
    ]
  ]

  put_put :
      (x y : Row D) (zs : List (Row D))
      → (x.chunk.id == y.chunk.id) ≡ false
      → put_row distance le x (put_row distance le y zs)
        ≡ put_row distance le y (put_row distance le x zs)
  put_put x y zs other = elim (Bool-cases (before distance le x y)) [
    | inl h ↦ put_put_before x y zs h (before_antisym x y other h)
    | inr h ↦ sym (put_put_before y x zs (before_total x y h) h)
  ]

  -- The rows that one vector gives.
  abbrev rows_of : List F → List NoteRow → List ChunkRow → ℕ × List F → List (Row D)
  rows_of q notes chunks x = with_chunk distance le notes (distance x.1 q) (chunk_of x.0 chunks)

  -- At most one, which has its id.
  data OfId (id : ℕ) : List (Row D) → Type 0 where
    no_row : OfId id []
    one_row : (r : Row D) → r.chunk.id ≡ id → OfId id (r ∷ [])

  with_note-OfId :
      (id : ℕ) (d : D) (c : ChunkRow) (r : Option NoteRow)
      → c.id ≡ id
      → OfId id (with_note distance le d c r)
  with_note-OfId id d c none h = no_row
  with_note-OfId id d c (some r) h = one_row _ h

  rows_of-OfId :
      (q : List F) (notes : List NoteRow) (chunks : List ChunkRow) (x : ℕ × List F)
      → OfId x.0 (rows_of q notes chunks x)
  rows_of-OfId q notes chunks x = elim (Option-cases (chunk_of x.0 chunks)) [
    | inl e ↦ rw (e, with_chunk) no_row
    | inr (c, e) ↦
        rw (e, with_chunk)
          (with_note-OfId x.0 (distance x.1 q) c (note_of c.note_id notes)
            (chunk_of-id x.0 chunks c e))
  ]

  sort_two :
      (i j : ℕ) (us ws rest : List (Row D))
      → (i == j) ≡ false
      → OfId i us
      → OfId j ws
      → sort_rows distance le (us ++ (ws ++ rest)) ≡ sort_rows distance le (ws ++ (us ++ rest))
  unfolding sort_rows
  sort_two i j us ws rest other no_row b = refl
  sort_two i j us ws rest other (one_row r e) no_row = refl
  sort_two i j us ws rest other (one_row r e) (one_row r' e') =
      put_put r r' (sort_rows distance le rest) (
        subst (λ n. (n == r'.chunk.id) ≡ false) (sym e)
          (subst (λ n. (i == n) ≡ false) (sym e') other))

  sort_keep :
      (i : ℕ) (us xs ys : List (Row D))
      → OfId i us
      → sort_rows distance le xs ≡ sort_rows distance le ys
      → sort_rows distance le (us ++ xs) ≡ sort_rows distance le (us ++ ys)
  unfolding sort_rows
  sort_keep i us xs ys no_row h = h
  sort_keep i us xs ys (one_row r e) h = ap (put_row distance le r) h

  sort-joined :
      (q : List F) (notes : List NoteRow) (chunks : List ChunkRow) {vs ws : List (ℕ × List F)}
      → Reordered vs ws
      → sort_rows distance le (joined distance le q notes chunks vs)
        ≡ sort_rows distance le (joined distance le q notes chunks ws)
  unfolding joined
  sort-joined q notes chunks none_left = refl
  sort-joined q notes chunks (keep x r) =
      sort_keep x.0 (rows_of q notes chunks x) _ _ (rows_of-OfId q notes chunks x)
        (sort-joined q notes chunks r)
  sort-joined q notes chunks (swap x y xs other) =
      sort_two x.0 y.0 (rows_of q notes chunks x) (rows_of q notes chunks y)
        (joined distance le q notes chunks xs) other (rows_of-OfId q notes chunks x)
        (rows_of-OfId q notes chunks y)
  sort-joined q notes chunks (both r t) =
      sort-joined q notes chunks r ∙ sort-joined q notes chunks t

  -- The order in which the vectors stand in their table does not show in a search: the same query gets
  -- the same rows in the same order, also where distances are equal. The order of distances is total.
  pub nearest_rows-Reordered :
      (q : List F) (k : ℕ) (db : Db F) (vs : List (ℕ × List F))
      → Reordered db.vectors vs
      → nearest_rows distance le q k db ≡ nearest_rows distance le q k (record db { vectors = vs })
  unfolding nearest_rows
  nearest_rows-Reordered q k db vs r = ap (take k) (sort-joined q db.notes db.chunks r)
