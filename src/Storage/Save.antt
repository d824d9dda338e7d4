-- ===== src/Storage/Save.antt =====
-- What SaveNoteWithChunks leaves in the tables.
pub mod Keeps
mod Tests
use rag_ai_system.Prelude.{
  ℕ, zero, suc, ◌+◌, ◌≡◌, refl, sym, ap, ◌∙◌, ◌≢◌, inl, inr, Bool, true, false, not, none, some,
  List, [], ◌∷◌, ◌++◌, append-nil, arith, ◌==◌, ==_iff, Bool-cases, Option-cases, get_elem?, Result,
  ok,
}
use rag_ai_system.Text.{Text, text_eq}
use rag_ai_system.Chunk.{CutError}
use rag_ai_system.Rag.Unique.{text_eq_refl}
use rag_ai_system.Vault.Scan.{Note}
use rag_ai_system.Storage.{
  NoteRow, ChunkRow, Db, find_note, update_note, keep_where, chunk_rows, upsert_note,
  replace_chunks, write_chunks, save_note,
}

abbrev pub of_note : ℕ → List ChunkRow → List ChunkRow
of_note id = keep_where (λ c. c.note_id == id)

of_note-append :
    (id : ℕ) (xs ys : List ChunkRow) → of_note id (xs ++ ys) ≡ of_note id xs ++ of_note id ys
of_note-append id [] ys = refl
of_note-append id (c ∷ xs) ys = elim (Bool-cases (c.note_id == id)) [
  | inl e ↦ rw e (rw (of_note-append id xs ys))
  | inr e ↦ rw e (of_note-append id xs ys)
]

of_note_cleared :
    (id : ℕ) (xs : List ChunkRow) → of_note id (keep_where (λ c. not (c.note_id == id)) xs) ≡ []
of_note_cleared id [] = refl
of_note_cleared id (c ∷ xs) = elim (Bool-cases (c.note_id == id)) [
  | inl e ↦ rw e (of_note_cleared id xs)
  | inr e ↦ rw (e, e) (of_note_cleared id xs)
]

same_id : (id : ℕ) → (id == id) ≡ true
same_id id = ground arith

other_id : (i j : ℕ) → i ≢ j → (i == j) ≡ false
other_id i j h = ground arith

of_note_rows :
    (next id i : ℕ) (ts : List Text)
    → of_note id (chunk_rows next id i ts) ≡ chunk_rows next id i ts
of_note_rows next id i [] = refl
of_note_rows next id i (t ∷ ts) = rw (same_id id) (rw (of_note_rows (next + 1) id (i + 1) ts))

of_note_other_rows :
    (next id j i : ℕ) (ts : List Text) → id ≢ j → of_note j (chunk_rows next id i ts) ≡ []
of_note_other_rows next id j i [] h = refl
of_note_other_rows next id j i (t ∷ ts) h =
    rw (other_id id j h) (of_note_other_rows (next + 1) id j (i + 1) ts h)

of_note_other :
    (id j : ℕ) (xs : List ChunkRow)
    → id ≢ j
    → of_note j (keep_where (λ c. not (c.note_id == id)) xs) ≡ of_note j xs
of_note_other id j [] h = refl
of_note_other id j (c ∷ xs) h = elim (Bool-cases (c.note_id == id)) [
  | inl e ↦
      rw (e, other_id c.note_id j (λ k. h (sym ((==_iff c.note_id id).0 e) ∙ k)))
        (of_note_other id j xs h)
  | inr e ↦ rw e (elim (Bool-cases (c.note_id == j)) [
    | inl k ↦ rw k (rw (of_note_other id j xs h))
    | inr k ↦ rw k (of_note_other id j xs h)
  ])
]

-- The row of the chunk `t` at the place `i` of a note.
abbrev pub row_at : ℕ → ℕ → ℕ → Text → ChunkRow
row_at id note i t = record { id = id; note_id = note; index = i; text = t }

-- The rows are found one by one, at the places that the texts have.
get_elem?-chunk_rows :
    (next id k a b i : ℕ) (ts : List Text)
    → a ≡ next + i
    → b ≡ k + i
    → get_elem? (chunk_rows next id k ts) i
      ≡ elim (get_elem? ts i) [ none ↦ none | some t ↦ some (row_at a id b t) ]
get_elem?-chunk_rows next id k a b i [] p q = refl
get_elem?-chunk_rows next id k a b zero (t ∷ ts) p q =
    let first : a ≡ next = omega (arith, p) in
    let place : b ≡ k = omega (arith, q) in rw (first, place) refl
get_elem?-chunk_rows next id k a b (suc i) (t ∷ ts) p q =
    get_elem?-chunk_rows (next + 1) id (k + 1) a b i ts (omega (arith, p)) (omega (arith, q))

module _ {F : Type 0} where
  chunks-upsert : (n : Note) (db : Db F) → (upsert_note n db).0.chunks ≡ db.chunks
  unfolding upsert_note
  chunks-upsert n db = ground arith

  next_chunk-upsert : (n : Note) (db : Db F) → (upsert_note n db).0.next_chunk ≡ db.next_chunk
  unfolding upsert_note
  next_chunk-upsert n db = ground arith

  rows_written :
      (n : Note) (texts : List Text) (db : Db F) (j : ℕ)
      → (upsert_note n db).1.1 ≡ true
      → (upsert_note n db).1.0 ≢ j
      → let id = (upsert_note n db).1.0 in
        let (result, db') = save_note none n (ok texts) db in
        (result ≡ ok (id, true))
        × (of_note id db'.chunks ≡ chunk_rows db.next_chunk id 0 texts)
        × (of_note j db'.chunks ≡ of_note j db.chunks)
  unfolding save_note replace_chunks
  rows_written n texts db j up h =
      let id = (upsert_note n db).1.0 in
      let mid = (upsert_note n db).0 in
      let rows = chunk_rows mid.next_chunk id 0 texts in
      let cleared = keep_where (λ c. not (c.note_id == id)) mid.chunks in
      rw (up, write_chunks)
        (
          refl,
          of_note-append id cleared rows
              ∙ rw (of_note_cleared id mid.chunks, of_note_rows mid.next_chunk id 0 texts)
                  (ap (λ k. chunk_rows k id 0 texts) (next_chunk-upsert n db)),
          of_note-append j cleared rows
              ∙ rw
                  (
                    of_note_other id j mid.chunks h,
                    of_note_other_rows mid.next_chunk id j 0 texts h,
                  )
                  (append-nil (of_note j mid.chunks) ∙ ap (of_note j) (chunks-upsert n db)),
        )

  -- A save that writes leaves exactly the chunker's chunks under the note, in order: at every place `i`
  -- the note has the chunk with the index `i`, the `i`-th of the new ids and the `i`-th text, or none
  -- where the texts have ended. The chunks of every other note are as they were.
  pub save_note_written :
      (n : Note) (texts : List Text) (db : Db F) (i j : ℕ)
      → (upsert_note n db).1.1 ≡ true
      → (upsert_note n db).1.0 ≢ j
      → let id = (upsert_note n db).1.0 in
        let (result, db') = save_note none n (ok texts) db in
        (result ≡ ok (id, true))
        × (get_elem? (of_note id db'.chunks) i ≡ elim (get_elem? texts i) [
          | none ↦ none
          | some t ↦ some (record { id = db.next_chunk + i; note_id = id; index = i; text = t })
        ])
        × (of_note j db'.chunks ≡ of_note j db.chunks)
  save_note_written n texts db i j up h =
      let id = (upsert_note n db).1.0 in
      let (saved, rows, others) = rows_written n texts db j up h in
      (
        saved,
        ap (λ cs. get_elem? cs i) rows
            ∙ get_elem?-chunk_rows db.next_chunk id 0 (db.next_chunk + i) i i texts refl
                (omega arith),
        others,
      )

find-update :
    (n : Note) (rows : List NoteRow) (r : NoteRow)
    → find_note n.path rows ≡ some r
    → find_note n.path (update_note n rows)
      ≡ some (record r { name = n.name; text = n.text; hash = n.hash })
find-update n [] r h = cc
find-update n (x ∷ rows) r h = elim (Bool-cases (text_eq x.path n.path)) [
  | inl e ↦
      (let same : x ≡ r = cc (rw e at h) in
        rw (e, e)
          (ap (λ (y : NoteRow). some (record y { name = n.name; text = n.text; hash = n.hash }))
            same))
  | inr e ↦ rw (e, e) (find-update n rows r (rw e at h))
]

find-append :
    (n : Note) (rows : List NoteRow) (r : NoteRow)
    → find_note n.path rows ≡ none
    → text_eq r.path n.path ≡ true
    → find_note n.path (rows ++ r ∷ []) ≡ some r
find-append n [] r h e = rw e
find-append n (x ∷ rows) r h e = elim (Bool-cases (text_eq x.path n.path)) [
  | inl k ↦ cc (rw k at h)
  | inr k ↦ rw k (find-append n rows r (rw k at h) e)
]

module _ {F : Type 0} where
  -- After a save the note's row has its hash.
  pub found_after :
      (n : Note) (db : Db F)
      → (r : NoteRow) × (find_note n.path (upsert_note n db).0.notes ≡ some r)
        × (text_eq r.hash n.hash ≡ true)
        × (r.id ≡ (upsert_note n db).1.0)
  unfolding upsert_note
  found_after n db = elim (Option-cases (find_note n.path db.notes)) [
    | inl e ↦
        rw (e, upsert_note)
          (let r : NoteRow = record {
            id = db.next_note;
            path = n.path;
            name = n.name;
            text = n.text;
            hash = n.hash;
          } in
            (r, find-append n db.notes r e (text_eq_refl n.path), text_eq_refl n.hash, refl))
    | inr (r, e) ↦ elim (Bool-cases (text_eq r.hash n.hash)) [
      | inl same ↦ rw (e, upsert_note) (rw (same, upsert_note) (r, e, same, refl))
      | inr changed ↦
          rw (e, upsert_note)
            (rw (changed, upsert_note)
              (
                record r { name = n.name; text = n.text; hash = n.hash },
                find-update n db.notes r e,
                text_eq_refl n.hash,
                refl,
              ))
    ]
  ]

  upsert_unchanged :
      (n : Note) (db : Db F) (r : NoteRow)
      → find_note n.path db.notes ≡ some r
      → text_eq r.hash n.hash ≡ true
      → upsert_note n db ≡ (db, (r.id, false))
  unfolding upsert_note
  upsert_unchanged n db r e same = rw (e, upsert_note) (rw (same, upsert_note) refl)

  saved_notes :
      (n : Note) (texts : List Text) (before : Db F) (u : Db F × (ℕ × Bool))
      → ((write_chunks (ok texts) before u).1.notes ≡ u.0.notes)
  unfolding replace_chunks
  saved_notes n texts before (db, (id, false)) = refl
  saved_notes n texts before (db, (id, true)) = refl

  -- Saving a note again without a change in its file writes nothing, whatever the chunker would say:
  -- the second call returns the same row and leaves the tables as they are.
  pub save_note_again :
      (n : Note) (texts : List Text) (chunks : Result CutError (List Text)) (db : Db F)
      → let db' = (save_note none n (ok texts) db).1 in
        save_note none n chunks db' ≡ (ok ((upsert_note n db).1.0, false), db')
  unfolding save_note
  save_note_again n texts chunks db =
      let db' = (write_chunks (ok texts) db (upsert_note n db)).1 in
      let (r, found, same, row) = found_after n db in
      let again =
        upsert_unchanged n db' r (rw (saved_notes n texts db (upsert_note n db)) found) same in
      ap (write_chunks chunks db') again ∙ ap (λ (i : ℕ). (ok (i, false), db')) row
