-- ===== src/Storage/Save/Keeps.antt =====
-- What SaveNoteWithChunks does to the rows of the notes, on every outcome.
use rag_ai_system.Prelude.{
  ℕ, ◌≡◌, refl, sym, ap, ◌∙◌, subst, inl, inr, Bool, true, false, Option, none, some, List, [], ◌∷◌,
  ◌++◌, Bool-cases, Option-cases, Result, ok, err,
}
use rag_ai_system.Text.{Text, text_eq}
use rag_ai_system.Backoff.{Err}
use rag_ai_system.Chunk.{CutError}
use rag_ai_system.Rag.Unique.{text_eq→eq}
use rag_ai_system.Vault.Scan.{Note}
use rag_ai_system.Storage.{
  NoteRow, Db, find_note, update_note, upsert_note, replace_chunks, write_chunks, save_note,
}
use rag_ai_system.Storage.Save.{found_after}

-- The row of a note is there, with the hash of its file.
abbrev pub Stored : List NoteRow → Note → Type 0
Stored rows n = (r : NoteRow) × (find_note n.path rows ≡ some r) × (text_eq r.hash n.hash ≡ true)

find-append_other :
    (path : Text) (rows : List NoteRow) (r : NoteRow)
    → text_eq r.path path ≡ false
    → find_note path (rows ++ r ∷ []) ≡ find_note path rows
find-append_other path [] r h = rw h refl
find-append_other path (x ∷ rows) r h = elim (Bool-cases (text_eq x.path path)) [
  | inl e ↦ rw e refl
  | inr e ↦ rw e (find-append_other path rows r h)
]

find-update_other :
    (n : Note) (path : Text) (rows : List NoteRow)
    → text_eq n.path path ≡ false
    → find_note path (update_note n rows) ≡ find_note path rows
find-update_other n path [] h = refl
find-update_other n path (x ∷ rows) h = elim (Bool-cases (text_eq x.path n.path)) [
  | inl e ↦
      let other : text_eq x.path path ≡ false =
        subst (λ q. text_eq q path ≡ false) (sym (text_eq→eq x.path n.path e)) h in
      rw (e, other) (find-update_other n path rows h)
  | inr e ↦ rw e (elim (Bool-cases (text_eq x.path path)) [
    | inl k ↦ rw k refl
    | inr k ↦ rw k (find-update_other n path rows h)
  ])
]

module _ {F : Type 0} where
  find-upsert_other :
      (n : Note) (path : Text) (db : Db F)
      → text_eq n.path path ≡ false
      → find_note path (upsert_note n db).0.notes ≡ find_note path db.notes
  unfolding upsert_note
  find-upsert_other n path db h = elim (Option-cases (find_note n.path db.notes)) [
    | inl e ↦ rw (e, upsert_note) (find-append_other path db.notes _ h)
    | inr (r, e) ↦ elim (Bool-cases (text_eq r.hash n.hash)) [
      | inl same ↦ rw (e, upsert_note) (rw (same, upsert_note) refl)
      | inr changed ↦
          rw (e, upsert_note) (rw (changed, upsert_note) (find-update_other n path db.notes h))
    ]
  ]

  write_chunks-notes :
      (chunks : Result CutError (List Text)) (before : Db F) (u : Db F × (ℕ × Bool)) (r : ℕ × Bool)
      → (write_chunks chunks before u).0 ≡ ok r
      → (write_chunks chunks before u).1.notes ≡ u.0.notes
  unfolding replace_chunks
  write_chunks-notes chunks before (db, (id, false)) r h = refl
  write_chunks-notes (err e) before (db, (id, true)) r h = cc
  write_chunks-notes (ok texts) before (db, (id, true)) r h = refl

  write_chunks-find :
      (path : Text) (chunks : Result CutError (List Text)) (before : Db F) (u : Db F × (ℕ × Bool))
      → find_note path u.0.notes ≡ find_note path before.notes
      → find_note path (write_chunks chunks before u).1.notes ≡ find_note path before.notes
  unfolding replace_chunks
  write_chunks-find path chunks before (db, (id, false)) h = h
  write_chunks-find path (err e) before (db, (id, true)) h = refl
  write_chunks-find path (ok texts) before (db, (id, true)) h = h

  -- A save without an error leaves the note's row with the hash of its file.
  pub save_note-Stored :
      (fault : Option Err) (n : Note) (chunks : Result CutError (List Text)) (db : Db F)
      (r : ℕ × Bool)
      → (save_note fault n chunks db).0 ≡ ok r
      → Stored (save_note fault n chunks db).1.notes n
  unfolding save_note
  save_note-Stored (some e) n chunks db r h = cc
  save_note-Stored none n chunks db r h =
      let (row, found, same, _) = found_after n db in
      (
        row,
        ap (find_note n.path) (write_chunks-notes chunks db (upsert_note n db) r h) ∙ found,
        same,
      )

  -- A save leaves the row of every other path as it was, on every outcome.
  pub save_note_other :
      (fault : Option Err) (n : Note) (chunks : Result CutError (List Text)) (path : Text)
      (db : Db F)
      → text_eq n.path path ≡ false
      → find_note path (save_note fault n chunks db).1.notes ≡ find_note path db.notes
  unfolding save_note
  save_note_other (some e) n chunks path db h = refl
  save_note_other none n chunks path db h =
      write_chunks-find path chunks db (upsert_note n db) (find-upsert_other n path db h)
