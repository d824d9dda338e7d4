-- ===== src/Knowledge/Index.antt =====
-- Index of knowledge/knowledge.go: its loop over the notes and its prune.
pub mod Counts
mod Tests
use rag_ai_system.Prelude.{
  ℕ, ◌+◌, ◌≡◌, refl, sym, subst, inl, inr, Bool, true, false, ◌||◌, Option, none, some, List, [],
  ◌∷◌, ◌++◌, map, arith, if◌then◌else◌, Bool-cases, Result, ok, err, ok-injective, Result-cases,
}
use rag_ai_system.Text.{Text, is_nil, text_eq}
use rag_ai_system.Backoff.{Err}
use rag_ai_system.Chunk.{CutError}
use rag_ai_system.Vault.{VaultError}
use rag_ai_system.Vault.Scan.{Note, ScanResult}
use rag_ai_system.Rag.Unique.{text_eq→eq}
use rag_ai_system.Storage.{
  NoteRow, Db, SaveError, find_note, keep_where, in_list, save_note, delete_missing,
}

pub record IndexResult : Type 0 where
  pub notes_written : ℕ
  pub notes_unchanged : ℕ
  pub notes_deleted : ℕ
  pub notes_skipped : ℕ
  pub notes_failed : ℕ
  pub chunks_embedded : ℕ

abbrev pub nothing_yet : IndexResult
nothing_yet = record {
  notes_written = 0;
  notes_unchanged = 0;
  notes_deleted = 0;
  notes_skipped = 0;
  notes_failed = 0;
  chunks_embedded = 0;
}

pub data IndexError : Type 0 where
  no_vault_path : IndexError
  scan_failed : VaultError → IndexError
  context_ended : Err → IndexError
  prune_failed : Err → IndexError
  embedding_failed : Err → IndexError
  note_failed : SaveError → IndexError

-- What the loop over the notes carries.
module _ (F : Type 0) where
  pub record Pass : Type 0 where
    pub db : Db F
    pub res : IndexResult
    pub note_errs : List SaveError

-- The outside of a pass: the context before each note and the database's faults, by the note's
-- place; `chunker` is chunk.Cut at the configured size.
module _ {F : Type 0} (ctx_err : ℕ → Option Err) (fault : ℕ → Option Err)
    (chunker : Text → Result CutError (List Text)) where
  abbrev pub count_saved : Pass F → Result SaveError (ℕ × Bool) × Db F → Pass F
  count_saved st (err e, db) = record {
    db = db;
    res = record st.res { notes_failed = st.res.notes_failed + 1 };
    note_errs = st.note_errs ++ e ∷ [];
  }
  count_saved st (ok (id, true), db) = record st {
    db = db;
    res = record st.res { notes_written = st.res.notes_written + 1 };
  }
  count_saved st (ok (id, false), db) = record st {
    db = db;
    res = record st.res { notes_unchanged = st.res.notes_unchanged + 1 };
  }

  unfoldable pub save_one : ℕ → Note → Pass F → Pass F
  save_one i n st = count_saved st (save_note (fault i) n (chunker n.text) st.db)

  -- The loop over the notes; an error is the context's, with what has been done by then.
  unfoldable pub save_all : ℕ → List Note → Pass F → Result (Err × Pass F) (Pass F)
  save_all i [] st = ok st
  save_all i (n ∷ ns) st = elim (ctx_err i) [
    | some e ↦ err (e, st)
    | none ↦ save_all (i + 1) ns (save_one i n st)
  ]

  -- The prune, which runs only when every note was stored. Files that were skipped count as present.
  unfoldable pub prune : Option Err → ScanResult → Pass F → Result Err (Pass F)
  prune prune_fault found st =
      if is_nil st.note_errs
      then (let (r, db) =
            delete_missing prune_fault (found.skipped ++ map (λ n. n.path) found.notes) st.db in
          elim r [
            | err e ↦ err e
            | ok deleted ↦
                ok (record st { db = db; res = record st.res { notes_deleted = deleted } })
          ])
      else ok st

pub in_list-append :
    (s : Text) (xs ys : List Text) → in_list s (xs ++ ys) ≡ (in_list s xs || in_list s ys)
in_list-append s [] ys = refl
in_list-append s (x ∷ xs) ys = ground (arith, in_list-append s xs ys)

kept_row :
    (p : NoteRow → Bool) (path : Text) (rows : List NoteRow)
    → ((r : NoteRow) → text_eq r.path path ≡ true → p r ≡ true)
    → find_note path (keep_where p rows) ≡ find_note path rows
kept_row p path [] h = refl
kept_row p path (r ∷ rows) h = elim (Bool-cases (text_eq r.path path)) [
  | inl e ↦ rw (e, h r e, e)
  | inr e ↦ elim (Bool-cases (p r)) [
    | inl k ↦ rw (e, k, e) (kept_row p path rows h)
    | inr k ↦ rw (e, k) (kept_row p path rows h)
  ]
]

module _ {F : Type 0} where
  pub delete_keeps :
      (paths : List Text) (db : Db F) (path : Text)
      → in_list path paths ≡ true
      → find_note path (delete_missing none paths db).1.notes ≡ find_note path db.notes
  unfolding delete_missing
  delete_keeps [] db path h = refl
  delete_keeps (p ∷ ps) db path h =
      kept_row (λ r. in_list r.path (p ∷ ps)) path db.notes
        (λ r same. subst (λ q. in_list q (p ∷ ps) ≡ true) (sym (text_eq→eq r.path path same)) h)

module _ {F : Type 0} (ctx_err : ℕ → Option Err) (fault : ℕ → Option Err)
    (chunker : Text → Result CutError (List Text)) where
  -- The prune takes no row of a file that the scan found, be it parsed or skipped, whatever the
  -- failures before it.
  pub prune_keeps :
      (found : ScanResult) (st out : Pass F) (path : Text)
      → prune ctx_err fault chunker none found st ≡ ok out
      → in_list path (found.skipped ++ map (λ n. n.path) found.notes) ≡ true
      → find_note path out.db.notes ≡ find_note path st.db.notes
  unfolding prune
  prune_keeps found st out path h present =
      let paths = found.skipped ++ map (λ n. n.path) found.notes in
      elim (Bool-cases (is_nil st.note_errs)) [
        | inr e ↦ rw (← ok-injective (rw (e, prune) at h)) refl
        | inl e ↦ elim (Result-cases (delete_missing none paths st.db).0) [
          | inl (x, k) ↦ cc (rw (k, prune) at (rw (e, prune) at h))
          | inr (d, k) ↦
              rw (← ok-injective (rw (k, prune) at (rw (e, prune) at h)))
                (delete_keeps paths st.db path present)
        ]
      ]
