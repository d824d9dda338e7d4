-- ===== src/Storage/Spaces/Again.antt =====
-- EnsureSpace for a space that is registered.
use rag_ai_system.Prelude.{
  ◌+◌, ◌≡◌, refl, sym, ap, ap₂, ◌∙◌, subst, inl, inr, true, Option, none, some, List, [], ◌∷◌, ◌++◌,
  arith, leb, Bool-cases, Option-cases, ℤ, pos, negsuc, Result, ok, err, ok-injective,
}
use rag_ai_system.Text.{Text, codes, text_eq}
use rag_ai_system.Backoff.{Err, plain}
use rag_ai_system.Rag.Unique.{text_eq_refl}
use rag_ai_system.Embed.{Space, validate, slug}
use rag_ai_system.Embed.Contract.{space_error}
use rag_ai_system.Storage.Spaces.Rows.{or_true}
use rag_ai_system.Storage.Spaces.{
  SpaceRef, Catalog, Statement, begin, lock, register, create_table, create_index, commit, eq_int,
  same_space, find_space, has_table, has_name, add_table, add_index, last_id, ensure_failed,
  register_row, statement, create_storage, insert_space, ensure_space,
}

abbrev pub quiet : Statement → Option Err
quiet st = none

same_int : (i : ℤ) → eq_int i i ≡ true
same_int (pos n) = ground arith
same_int (negsuc n) = ground arith

pub same_space_refl : (s : Space) → same_space s s ≡ true
unfolding same_space
same_space_refl s = rw (text_eq_refl s.provider, text_eq_refl s.model) (same_int s.dim)

find_space-snoc :
    (space : Space) (rows : List SpaceRef) (r : SpaceRef)
    → find_space space rows ≡ none
    → same_space r.space space ≡ true
    → find_space space (rows ++ r ∷ []) ≡ some r
unfolding find_space
find_space-snoc space [] r h e = rw e refl
find_space-snoc space (q ∷ rows) r h e = elim (Bool-cases (same_space q.space space)) [
  | inl k ↦ let bad : find_space space (q ∷ rows) ≡ some q = rw (k, find_space) refl in cc
  | inr k ↦ rw (k, find_space) (find_space-snoc space rows r (sym (rw (k, find_space) refl) ∙ h) e)
]

has_name-snoc :
    (name : Text) (dim : ℤ) (tables : List (Text × ℤ))
    → has_name name (tables ++ (name, dim) ∷ []) ≡ true
has_name-snoc name dim [] = rw (text_eq_refl name) refl
has_name-snoc name dim ((n, d) ∷ tables) =
    rw (has_name-snoc name dim tables) (or_true (text_eq n name))

add_table_twice :
    (name : Text) (dim : ℤ) (tables : List (Text × ℤ))
    → add_table name dim (add_table name dim tables) ≡ add_table name dim tables
add_table_twice name dim tables = elim (Bool-cases (has_name name tables)) [
  | inl e ↦ rw (e, e) refl
  | inr e ↦ rw (e, has_name-snoc name dim tables) refl
]

add_index_twice :
    (table : Text) (names : List Text)
    → add_index table (add_index table names) ≡ add_index table names
add_index_twice table [] = rw (text_eq_refl table) refl
add_index_twice table (n ∷ names) = elim (Bool-cases (text_eq n table)) [
  | inl e ↦ rw (e, e) refl
  | inr e ↦ rw (e, e) (ap (λ ns. n ∷ ns) (add_index_twice table names))
]

-- What a call that returned `ref` did: the row is there, with its table and its index.
pub record Ensured (slug : Space → Text) (space : Space) (c : Catalog) (ref : SpaceRef)
    (c' : Catalog) : Type 0 where
  pub row : SpaceRef
  pub rows : List SpaceRef
  pub valid : validate space ≡ none
  pub registered : register_row slug space c ≡ ok (row, rows)
  pub returned : ref ≡ record { id = row.id; space = space; table = row.table }
  pub left : c' ≡ record {
    rows = rows;
    tables = add_table row.table space.dim c.tables;
    indexes = add_index row.table c.indexes;
    next_id = c.next_id + 1;
  }

module _ (slug : Space → Text) (fault : Statement → Option Err) where
  statement_ok :
      (st : Statement) (before : Catalog) (after : Result Err SpaceRef × Catalog) (ref : SpaceRef)
      (c' : Catalog)
      → statement fault st before after ≡ (ok ref, c')
      → after ≡ (ok ref, c')
  statement_ok st before after ref c' h = elim (Option-cases (fault st)) [
    | inl e ↦
        let same : statement fault st before after ≡ after = rw (e, statement) refl in sym same ∙ h
    | inr (x, e) ↦
        let bad : statement fault st before after ≡ (err (ensure_failed x), before) =
          rw (e, statement) refl in
        cc
  ]

  create_storage_ok :
      (space : Space) (c : Catalog) (ref : SpaceRef) (c' : Catalog)
      (made : Result Err (SpaceRef × List SpaceRef))
      → register_row slug space c ≡ made
      → validate space ≡ none
      → create_storage fault space (record c { next_id = c.next_id + 1 }) made ≡ (ok ref, c')
      → Ensured slug space c ref c'
  create_storage_ok space c ref c' (err e) m v h = cc
  create_storage_ok space c ref c' (ok (r, rows)) m v h =
      let done =
        statement_ok commit _ _ ref c'
          (statement_ok create_index _ _ ref c' (statement_ok create_table _ _ ref c' h)) in
      record { row = r; rows = rows; valid = v; registered = m; returned = cc; left = cc }

  inserted :
      (space : Space) (c : Catalog) (ref : SpaceRef) (c' : Catalog)
      → validate space ≡ none
      → insert_space slug fault space c ≡ (ok ref, c')
      → Ensured slug space c ref c'
  unfolding insert_space
  inserted space c ref c' v h = elim (Bool-cases (leb c.next_id last_id)) [
    | inl k ↦
        let ran : insert_space slug fault space c
            ≡ create_storage fault space (record c { next_id = c.next_id + 1 })
                (register_row slug space c) =
          rw (k, insert_space) refl in
        create_storage_ok space c ref c' (register_row slug space c) refl v (sym ran ∙ h)
    | inr k ↦
        let bad : (insert_space slug fault space c).0
            ≡ err (ensure_failed (plain (codes "nextval: reached maximum value of sequence"))) =
          rw (k, insert_space) refl in
        cc
  ]

  pub ensure_space-Ensured :
      (space : Space) (c : Catalog) (ref : SpaceRef) (c' : Catalog)
      → ensure_space slug fault space c ≡ (ok ref, c')
      → Ensured slug space c ref c'
  unfolding ensure_space
  ensure_space-Ensured space c ref c' h = elim (Option-cases (validate space)) [
    | inr (x, e) ↦
        let bad : ensure_space slug fault space c ≡ (err (space_error x), c) =
          rw (e, ensure_space) refl in
        cc
    | inl e ↦
        let ran : ensure_space slug fault space c
            ≡ statement fault begin c (
                statement fault lock c
                  (statement fault register c (insert_space slug fault space c))) =
          rw (e, ensure_space) refl in
        let put =
          statement_ok register _ _ ref c'
            (statement_ok lock _ _ ref c' (statement_ok begin _ _ ref c' (sym ran ∙ h))) in
        inserted space c ref c' e put
  ]

register_row-find_space :
    (slug : Space → Text) (space : Space) (c : Catalog) (r : SpaceRef) (rows : List SpaceRef)
    → register_row slug space c ≡ ok (r, rows)
    → find_space space rows ≡ some r
unfolding register_row
register_row-find_space slug space c r rows h = elim (Option-cases (find_space space c.rows)) [
  | inr (q, e) ↦
      let here : register_row slug space c ≡ ok (q, c.rows) = rw (e, register_row) refl in
      let same : (q, c.rows) ≡ (r, rows) = ok-injective (sym here ∙ h) in
      subst (λ p. find_space space p.1 ≡ some p.0) same e
  | inl e ↦ elim (Bool-cases (has_table (slug space) c.rows)) [
    | inl k ↦
        let bad : register_row slug space c
            ≡ err (plain (codes "duplicate key value of table_name")) =
          rw (e, k, register_row) refl in
        cc
    | inr k ↦
        let new : SpaceRef = record { id = c.next_id; space = space; table = slug space } in
        let here : register_row slug space c ≡ ok (new, c.rows ++ new ∷ []) =
          rw (e, k, register_row) refl in
        let same : (new, c.rows ++ new ∷ []) ≡ (r, rows) = ok-injective (sym here ∙ h) in
        subst (λ p. find_space space p.1 ≡ some p.0) same
          (find_space-snoc space c.rows new e (same_space_refl space))
  ]
]

-- The second call on what the first left.
again :
    (slug : Space → Text) (space : Space) (r : SpaceRef) (c' : Catalog)
    → validate space ≡ none
    → find_space space c'.rows ≡ some r
    → c'.tables ≡ add_table r.table space.dim c'.tables
    → c'.indexes ≡ add_index r.table c'.indexes
    → leb c'.next_id last_id ≡ true
    → ensure_space slug quiet space c' ≡ (
      ok (record { id = r.id; space = space; table = r.table }),
      record c' { next_id = c'.next_id + 1 },
    )
unfolding ensure_space insert_space register_row
again slug space r c' v f t i k =
    rw (v, k, f, ensure_space, insert_space, register_row)
      (ap₂
        (λ ts ns. (
          ok (record { id = r.id; space = space; table = r.table }),
          record { rows = c'.rows; tables = ts; indexes = ns; next_id = c'.next_id + 1 },
        ))
        (sym t) (sym i))

-- A space that EnsureSpace has registered stays as it is: while the identity has an id left, a further
-- call without a failing statement returns the same reference and leaves the rows, the tables and the
-- indexes alone, and still draws an id.
pub ensure_space_again :
    (slug : Space → Text) (fault : Statement → Option Err) (space : Space) (c : Catalog)
    (ref : SpaceRef) (c' : Catalog)
    → ensure_space slug fault space c ≡ (ok ref, c')
    → leb c'.next_id last_id ≡ true
    → ensure_space slug quiet space c' ≡ (ok ref, record c' { next_id = c'.next_id + 1 })
ensure_space_again slug fault space c ref c' h k =
    let e = ensure_space-Ensured slug fault space c ref c' h in
    let next =
      again slug space e.row c' e.valid
        (subst (λ x. find_space space x.rows ≡ some e.row) (sym e.left)
          (register_row-find_space slug space c e.row e.rows e.registered))
        (subst (λ x. x.tables ≡ add_table e.row.table space.dim x.tables) (sym e.left)
          (sym (add_table_twice e.row.table space.dim c.tables)))
        (subst (λ x. x.indexes ≡ add_index e.row.table x.indexes) (sym e.left)
          (sym (add_index_twice e.row.table c.indexes)))
        k in
    next ∙ ap (λ x. (ok x, record c' { next_id = c'.next_id + 1 })) (sym e.returned)
