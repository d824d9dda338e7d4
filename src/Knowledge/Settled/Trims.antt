-- ===== src/Knowledge/Settled/Trims.antt =====
-- The prune of Index of knowledge/knowledge.go: what DeleteMissingNotes leaves.
use rag_ai_system.Prelude.{
  ℕ, ◌≡◌, ap, ◌∙◌, subst, inl, inr, true, false, Option, none, some, List, [], ◌∷◌, Bool-cases, All,
  Result, ok, ok-injective, Result-cases,
}
use rag_ai_system.Text.{Text, is_nil}
use rag_ai_system.Backoff.{Err}
use rag_ai_system.Chunk.{CutError}
use rag_ai_system.Vault.Scan.{ScanResult}
use rag_ai_system.Storage.{
  NoteRow, ChunkRow, Db, find_note, has_chunk, has_note, in_list, delete_missing,
}
use rag_ai_system.Knowledge.Index.{Pass, prune, delete_keeps}
use rag_ai_system.Storage.Tables.{keep_where-All}
use rag_ai_system.Knowledge.Settled.{found_paths}

-- What deleting the missing notes leaves.
pub record Trimmed {F : Type 0} (paths : List Text) (db db' : Db F) : Type 0 where
  pub kept :
      (path : Text) → in_list path paths ≡ true → find_note path db'.notes ≡ find_note path db.notes
  pub present : All (λ (r : NoteRow). in_list r.path paths ≡ true) db'.notes
  pub owned : All (λ (c : ChunkRow). has_note c.note_id db'.notes ≡ true) db'.chunks
  pub held : All (λ (v : ℕ × List F). has_chunk v.0 db'.chunks ≡ true) db'.vectors

module _ {F : Type 0} where
  delete_missing-Trimmed :
      (fault : Option Err) (paths : List Text) (db : Db F) (d : ℕ)
      → is_nil paths ≡ false
      → (delete_missing fault paths db).0 ≡ ok d
      → Trimmed paths db (delete_missing fault paths db).1
  unfolding delete_missing
  delete_missing-Trimmed fault [] db d some_path h = cc
  delete_missing-Trimmed (some e) (p ∷ ps) db d some_path h = cc
  delete_missing-Trimmed none (p ∷ ps) db d some_path h = record {
    kept = delete_keeps (p ∷ ps) db;
    present = keep_where-All (λ r. in_list r.path (p ∷ ps)) db.notes;
    owned = keep_where-All _ db.chunks;
    held = keep_where-All _ db.vectors;
  }

module _ {F : Type 0} (ctx_err : ℕ → Option Err) (fault : ℕ → Option Err)
    (chunker : Text → Result CutError (List Text)) (prune_fault : Option Err)
    (found : ScanResult) where
  pub prune-Trimmed :
      (st out : Pass F)
      → is_nil (found_paths found) ≡ false
      → prune ctx_err fault chunker prune_fault found st ≡ ok out
      → out.note_errs ≡ []
      → (st.note_errs ≡ []) × Trimmed (found_paths found) st.db out.db
  unfolding prune
  prune-Trimmed st out some_path ran h =
      let paths = found_paths found in
      elim (Bool-cases (is_nil st.note_errs)) [
        | inr failed ↦
            let same : ok st ≡ ok out = rw (failed, prune) at ran in
            let clean : st.note_errs ≡ [] =
              ap (λ (q : Pass F). q.note_errs) (ok-injective same) ∙ h in
            cc (ap is_nil clean)
        | inl clean ↦ elim (Result-cases (delete_missing prune_fault paths st.db).0) [
          | inl (x, k) ↦ cc (rw (k, prune) at (rw (clean, prune) at ran))
          | inr (d, k) ↦
              let same = ok-injective (rw (k, prune) at (rw (clean, prune) at ran)) in
              (
                ap (λ (q : Pass F). q.note_errs) same ∙ h,
                subst (λ (q : Pass F). Trimmed paths st.db q.db) same
                    (delete_missing-Trimmed prune_fault paths st.db d some_path k),
              )
        ]
      ]
