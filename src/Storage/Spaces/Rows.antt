-- ===== src/Storage/Spaces/Rows.antt =====
-- What EnsureSpace keeps: each registered space has one table of its dimension, with its index.
use rag_ai_system.Prelude.{
  ℕ, ◌+◌, ◌<◌, ◌≡◌, refl, sym, ap, ◌∙◌, subst, inl, inr, Bool, true, false, ◌||◌, Option, some,
  List, [], ◌∷◌, ◌++◌, map, arith, leb, Bool-cases, Option-cases, All, All-append, ℤ, Result,
}
use rag_ai_system.Text.{Text, text_eq}
use rag_ai_system.Backoff.{Err}
use rag_ai_system.Rag.Unique.{text_eq_refl}
use rag_ai_system.Embed.{Space, validate, slug}
use rag_ai_system.Storage.Spaces.{
  SpaceRef, Catalog, Statement, begin, lock, register, create_table, create_index, commit,
  same_space, find_space, has_table, has_name, add_table, add_index, last_id, register_row,
  statement, create_storage, insert_space, ensure_space,
}

abbrev pub table_of : SpaceRef → Text × ℤ
table_of r = (r.table, r.space.dim)

abbrev pub index_of : SpaceRef → Text
index_of r = r.table

-- Later rows have other tables and greater ids.
abbrev pub Apart : List SpaceRef → Type 0
Apart [] = Unit
Apart (r ∷ rs) = All (λ q. (text_eq r.table q.table ≡ false) × (r.id < q.id)) rs × Apart rs

pub record IsCatalog (slug : Space → Text) (c : Catalog) : Type 0 where
  pub created : c.tables ≡ map table_of c.rows
  pub indexed : c.indexes ≡ map index_of c.rows
  pub named : All (λ r. r.table ≡ slug r.space) c.rows
  pub drawn : All (λ r. r.id < c.next_id) c.rows
  pub apart : Apart c.rows

has_name-map :
    (name : Text) (rows : List SpaceRef) → has_name name (map table_of rows) ≡ has_table name rows
has_name-map name [] = refl
has_name-map name (r ∷ rows) = rw (has_name-map name rows)

pub add_table-present :
    (name : Text) (dim : ℤ) (rows : List SpaceRef)
    → has_table name rows ≡ true
    → add_table name dim (map table_of rows) ≡ map table_of rows
add_table-present name dim rows h = rw (has_name-map name rows ∙ h) refl

pub add_table-absent :
    (name : Text) (dim : ℤ) (rows : List SpaceRef)
    → has_table name rows ≡ false
    → add_table name dim (map table_of rows) ≡ map table_of rows ++ (name, dim) ∷ []
add_table-absent name dim rows h = rw (has_name-map name rows ∙ h) refl

pub add_index-present :
    (name : Text) (rows : List SpaceRef)
    → has_table name rows ≡ true
    → add_index name (map index_of rows) ≡ map index_of rows
add_index-present name [] h = cc
add_index-present name (r ∷ rows) h = elim (Bool-cases (text_eq r.table name)) [
  | inl e ↦ rw e refl
  | inr e ↦ rw e (ap (λ ns. r.table ∷ ns) (add_index-present name rows (sym (rw e refl) ∙ h)))
]

pub add_index-absent :
    (name : Text) (rows : List SpaceRef)
    → has_table name rows ≡ false
    → add_index name (map index_of rows) ≡ map index_of rows ++ name ∷ []
add_index-absent name [] h = refl
add_index-absent name (r ∷ rows) h = elim (Bool-cases (text_eq r.table name)) [
  | inl e ↦ let bad : has_table name (r ∷ rows) ≡ true = rw e refl in cc
  | inr e ↦ rw e (ap (λ ns. r.table ∷ ns) (add_index-absent name rows (sym (rw e refl) ∙ h)))
]

pub or_true : (a : Bool) → (a || true) ≡ true
or_true true = refl
or_true false = refl

pub find_space-has_table :
    (space : Space) (rows : List SpaceRef) (r : SpaceRef)
    → find_space space rows ≡ some r
    → has_table r.table rows ≡ true
unfolding find_space
find_space-has_table space [] r h = cc
find_space-has_table space (q ∷ rows) r h = elim (Bool-cases (same_space q.space space)) [
  | inl e ↦
      let here : find_space space (q ∷ rows) ≡ some q = rw (e, find_space) refl in
      let found : q ≡ r = cc in
      subst (λ x. has_table x.table (q ∷ rows) ≡ true) found (rw (text_eq_refl q.table) refl)
  | inr e ↦
      let past : find_space space (q ∷ rows) ≡ find_space space rows = rw (e, find_space) refl in
      rw (find_space-has_table space rows r (sym past ∙ h)) (or_true (text_eq q.table r.table))
]

All-snoc {ℓ} :
    {A : Type ℓ} (P : A → Type 0) (xs : List A) (x : A) → All P xs → P x → All P (xs ++ x ∷ [])
All-snoc P xs x h p = All-append P xs (x ∷ []) h (p, tt)

map-snoc {ℓ} :
    {A B : Type ℓ} (f : A → B) (xs : List A) (x : A) → map f (xs ++ x ∷ []) ≡ map f xs ++ f x ∷ []
map-snoc f [] x = refl
map-snoc f (y ∷ xs) x = ap (λ l. f y ∷ l) (map-snoc f xs x)

Apart-snoc :
    (rows : List SpaceRef) (new : SpaceRef)
    → Apart rows
    → has_table new.table rows ≡ false
    → All (λ r. r.id < new.id) rows
    → Apart (rows ++ new ∷ [])
Apart-snoc [] new a h d = (tt, tt)
Apart-snoc (r ∷ rows) new (later, a) h (d, ds) = elim (Bool-cases (text_eq r.table new.table)) [
  | inl e ↦ let bad : has_table new.table (r ∷ rows) ≡ true = rw e refl in cc
  | inr e ↦ (
    All-snoc (λ q. (text_eq r.table q.table ≡ false) × (r.id < q.id)) rows new later (e, d),
    Apart-snoc rows new a (sym (rw e refl) ∙ h) ds,
  )
]

drawn-later :
    (rows : List SpaceRef) (n : ℕ) → All (λ r. r.id < n) rows → All (λ r. r.id < n + 1) rows
drawn-later [] n h = tt
drawn-later (r ∷ rows) n (d, ds) = (omega (arith, d), drawn-later rows n ds)

-- The sequence gives an id and nothing comes of it.
burned-IsCatalog :
    (slug : Space → Text) (c : Catalog)
    → IsCatalog slug c
    → IsCatalog slug (record c { next_id = c.next_id + 1 })
burned-IsCatalog slug c h = record {
  created = h.created;
  indexed = h.indexed;
  named = h.named;
  drawn = drawn-later c.rows c.next_id h.drawn;
  apart = h.apart;
}

-- A row is registered and stored.
appended-IsCatalog :
    (slug : Space → Text) (c : Catalog) (space : Space)
    → IsCatalog slug c
    → has_table (slug space) c.rows ≡ false
    → IsCatalog slug (record {
      rows = c.rows ++ record { id = c.next_id; space = space; table = slug space } ∷ [];
      tables = add_table (slug space) space.dim c.tables;
      indexes = add_index (slug space) c.indexes;
      next_id = c.next_id + 1;
    })
appended-IsCatalog slug c space h absent =
    let new : SpaceRef = record { id = c.next_id; space = space; table = slug space } in
    record {
      created =
          ap (add_table (slug space) space.dim) h.created
          ∙ add_table-absent (slug space) space.dim c.rows absent
          ∙ sym (map-snoc table_of c.rows new);
      indexed =
          ap (add_index (slug space)) h.indexed
          ∙ add_index-absent (slug space) c.rows absent
          ∙ sym (map-snoc index_of c.rows new);
      named = All-snoc (λ r. r.table ≡ slug r.space) c.rows new h.named refl;
      drawn =
          All-snoc (λ r. r.id < c.next_id + 1) c.rows new (drawn-later c.rows c.next_id h.drawn)
            (omega arith);
      apart = Apart-snoc c.rows new h.apart absent h.drawn;
    }

-- The row was there, and so are its table and its index.
found-IsCatalog :
    (slug : Space → Text) (c : Catalog) (r : SpaceRef) (dim : ℤ)
    → IsCatalog slug c
    → has_table r.table c.rows ≡ true
    → IsCatalog slug (record {
      rows = c.rows;
      tables = add_table r.table dim c.tables;
      indexes = add_index r.table c.indexes;
      next_id = c.next_id + 1;
    })
found-IsCatalog slug c r dim h there = record {
  created = ap (add_table r.table dim) h.created ∙ add_table-present r.table dim c.rows there;
  indexed = ap (add_index r.table) h.indexed ∙ add_index-present r.table c.rows there;
  named = h.named;
  drawn = drawn-later c.rows c.next_id h.drawn;
  apart = h.apart;
}

module _ (slug : Space → Text) (fault : Statement → Option Err) where
  statement-IsCatalog :
      (st : Statement) (before : Catalog) (after : Result Err SpaceRef × Catalog)
      → IsCatalog slug before
      → IsCatalog slug after.1
      → IsCatalog slug (statement fault st before after).1
  statement-IsCatalog st before after b a = elim (Option-cases (fault st)) [
    | inl e ↦ rw (e, statement) a
    | inr (x, e) ↦ rw (e, statement) b
  ]

  create_storage-IsCatalog :
      (space : Space) (c : Catalog)
      → IsCatalog slug c
      → IsCatalog slug
          (create_storage fault space
            (record c { next_id = c.next_id + 1 })
            (register_row slug space c)).1
  unfolding register_row
  create_storage-IsCatalog space c h =
      let b = burned-IsCatalog slug c h in
      elim (Option-cases (find_space space c.rows)) [
        | inr (r, e) ↦
            rw (e, register_row)
              (statement-IsCatalog create_table _ _ b (
                statement-IsCatalog create_index _ _ b (
                  statement-IsCatalog commit _ _ b (
                    found-IsCatalog slug c r space.dim h (find_space-has_table space c.rows r e)))))
        | inl e ↦ elim (Bool-cases (has_table (slug space) c.rows)) [
          | inl k ↦ rw (e, k, register_row) b
          | inr k ↦
              rw (e, k, register_row)
                (statement-IsCatalog create_table _ _ b (
                  statement-IsCatalog create_index _ _ b
                    (statement-IsCatalog commit _ _ b (appended-IsCatalog slug c space h k))))
        ]
      ]

  -- From a catalog in which each registered space has one table of its dimension with an index, named
  -- by its slug and apart from the others in its id, EnsureSpace leaves such a catalog, whichever
  -- statement fails.
  pub ensure_space-IsCatalog :
      (space : Space) (c : Catalog)
      → IsCatalog slug c
      → IsCatalog slug (ensure_space slug fault space c).1
  unfolding ensure_space insert_space
  ensure_space-IsCatalog space c h = elim (Option-cases (validate space)) [
    | inr (x, e) ↦ rw (e, ensure_space) h
    | inl e ↦
        rw (e, ensure_space)
          (statement-IsCatalog begin _ _ h (
            statement-IsCatalog lock _ _ h (
              statement-IsCatalog register _ _ h (elim (Bool-cases (leb c.next_id last_id)) [
                | inr k ↦ rw (k, insert_space) h
                | inl k ↦ rw (k, insert_space) (create_storage-IsCatalog space c h)
              ]))))
  ]
