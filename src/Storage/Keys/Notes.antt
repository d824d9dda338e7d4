-- ===== src/Storage/Keys/Notes.antt =====
-- The upsert of SaveNoteWithChunks keeps the keys and references of the tables.
use rag_ai_system.Prelude.{
  ℕ, ◌<◌, ◌≡◌, refl, ◌∙◌, subst, inl, inr, Bool, true, false, ◌||◌, none, some, List, [], ◌∷◌, ◌++◌,
  arith, ◌==◌, Bool-cases, Option-cases, All, All-append,
}
use rag_ai_system.Text.{Text, text_eq}
use rag_ai_system.Vault.Scan.{Note}
use rag_ai_system.Storage.{NoteRow, Db, find_note, update_note, has_note, upsert_note}
use rag_ai_system.Storage.Tables.{All-implies, All-both, Apart, Apart-append}
use rag_ai_system.Storage.Keys.{OtherNote, IsDb}

has_note-append :
    (id : ℕ) (xs ys : List NoteRow) → has_note id (xs ++ ys) ≡ (has_note id xs || has_note id ys)
has_note-append id [] ys = refl
has_note-append id (x ∷ xs) ys = ground (arith, has_note-append id xs ys)

has_note-update_note :
    (n : Note) (rows : List NoteRow) (id : ℕ) → has_note id (update_note n rows) ≡ has_note id rows
has_note-update_note n [] id = refl
has_note-update_note n (r ∷ rows) id = elim (Bool-cases (text_eq r.path n.path)) [
  | inl e ↦ rw (e, has_note-update_note n rows id) refl
  | inr e ↦ rw (e, has_note-update_note n rows id) refl
]

pub same_id : (i : ℕ) → (i == i) ≡ true
same_id i = ground arith

pub or_true : (a : Bool) → (a || true) ≡ true
or_true true = refl
or_true false = refl

find_note-has_note :
    (path : Text) (rows : List NoteRow) (r : NoteRow)
    → find_note path rows ≡ some r
    → has_note r.id rows ≡ true
find_note-has_note path [] r h = cc
find_note-has_note path (q ∷ rows) r h = elim (Bool-cases (text_eq q.path path)) [
  | inl e ↦
      let found : q ≡ r = cc (rw e at h) in
      subst (λ x. has_note x.id (q ∷ rows) ≡ true) found (rw (same_id q.id) refl)
  | inr e ↦ rw (find_note-has_note path rows r (rw e at h)) (or_true (q.id == r.id))
]

unfound :
    (path : Text) (rows : List NoteRow)
    → find_note path rows ≡ none
    → All (λ (r : NoteRow). text_eq r.path path ≡ false) rows
unfound path [] h = tt
unfound path (r ∷ rows) h = elim (Bool-cases (text_eq r.path path)) [
  | inl e ↦ cc (rw e at h)
  | inr e ↦ (e, unfound path rows (rw e at h))
]

All-update_note :
    (P : ℕ → Text → Type 0) (n : Note) (rows : List NoteRow)
    → All (λ (r : NoteRow). P r.id r.path) rows
    → All (λ (r : NoteRow). P r.id r.path) (update_note n rows)
All-update_note P n [] h = tt
All-update_note P n (r ∷ rows) (h, hs) = elim (Bool-cases (text_eq r.path n.path)) [
  | inl e ↦ rw e (h, All-update_note P n rows hs)
  | inr e ↦ rw e (h, All-update_note P n rows hs)
]

Apart-update_note :
    (n : Note) (rows : List NoteRow) → Apart OtherNote rows → Apart OtherNote (update_note n rows)
Apart-update_note n [] h = tt
Apart-update_note n (r ∷ rows) (h, hs) =
    let others =
      All-update_note (λ i path. ((r.id == i) ≡ false) × (text_eq r.path path ≡ false)) n rows h in
    elim (Bool-cases (text_eq r.path n.path)) [
      | inl e ↦ rw e (others, Apart-update_note n rows hs)
      | inr e ↦ rw e (others, Apart-update_note n rows hs)
    ]

module _ {F : Type 0} where
  pub upsert_note-IsDb : (n : Note) (db : Db F) → IsDb db → IsDb (upsert_note n db).0
  unfolding upsert_note
  upsert_note-IsDb n db h = elim (Option-cases (find_note n.path db.notes)) [
    | inl e ↦
        rw (e, upsert_note)
          (record {
            note_ids =
                All-append _ db.notes _
                  (All-implies _ _ db.notes (λ r k. omega (arith, k)) h.note_ids) (omega arith, tt);
            notes_apart =
                Apart-append OtherNote db.notes _ h.notes_apart (tt, tt)
                  (All-both _ _ _ db.notes (λ r k other. ((ground (arith, k), other), tt))
                    h.note_ids (unfound n.path db.notes e));
            chunk_ids = h.chunk_ids;
            chunks_apart = h.chunks_apart;
            vectors_apart = h.vectors_apart;
            owned =
                All-implies _ _ db.chunks (λ c k. has_note-append c.note_id db.notes _ ∙ rw k refl)
                  h.owned;
            held = h.held;
          })
    | inr (r, e) ↦ elim (Bool-cases (text_eq r.hash n.hash)) [
      | inl same ↦ rw (e, upsert_note) (rw (same, upsert_note) h)
      | inr changed ↦
          rw (e, upsert_note)
            (rw (changed, upsert_note)
              (record {
                note_ids = All-update_note (λ i path. i < db.next_note) n db.notes h.note_ids;
                notes_apart = Apart-update_note n db.notes h.notes_apart;
                chunk_ids = h.chunk_ids;
                chunks_apart = h.chunks_apart;
                vectors_apart = h.vectors_apart;
                owned =
                    All-implies _ _ db.chunks (λ c k. has_note-update_note n db.notes c.note_id ∙ k)
                      h.owned;
                held = h.held;
              }))
    ]
  ]

  pub has_note-upsert :
      (n : Note) (db : Db F) → has_note (upsert_note n db).1.0 (upsert_note n db).0.notes ≡ true
  unfolding upsert_note
  has_note-upsert n db = elim (Option-cases (find_note n.path db.notes)) [
    | inl e ↦
        rw (e, upsert_note)
          (has_note-append db.next_note db.notes _ ∙ rw (same_id db.next_note) (or_true _))
    | inr (r, e) ↦ elim (Bool-cases (text_eq r.hash n.hash)) [
      | inl same ↦
          rw (e, upsert_note) (rw (same, upsert_note) (find_note-has_note n.path db.notes r e))
      | inr changed ↦
          rw (e, upsert_note)
            (rw (changed, upsert_note)
              (has_note-update_note n db.notes r.id ∙ find_note-has_note n.path db.notes r e))
    ]
  ]
