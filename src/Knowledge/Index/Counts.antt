-- ===== src/Knowledge/Index/Counts.antt =====
-- The counters of Index of knowledge/knowledge.go, up to its prune.
use rag_ai_system.Prelude.{
  ℕ, ◌+◌, ◌≡◌, inl, inr, Bool, true, false, Option, List, [], ◌∷◌, ◌++◌, map, arith, Bool-cases,
  Option-cases, length, length-append, Result, ok, err, ok-injective, Result-cases,
}
use rag_ai_system.Text.{Text, is_nil}
use rag_ai_system.Backoff.{Err}
use rag_ai_system.Chunk.{CutError}
use rag_ai_system.Vault.Scan.{Note, ScanResult}
use rag_ai_system.Storage.{Db, SaveError, save_note, delete_missing}
use rag_ai_system.Knowledge.Index.{Pass, count_saved, save_one, save_all, prune}

module _ {F : Type 0} (ctx_err : ℕ → Option Err) (fault : ℕ → Option Err)
    (chunker : Text → Result CutError (List Text)) where
  -- After `m` notes and `k` skipped files every note is in one counter, and each failure has its error.
  abbrev pub Adds : ℕ → ℕ → Pass F → Type 0
  Adds k m st =
      (st.res.notes_written + st.res.notes_unchanged + st.res.notes_failed ≡ m)
      × (st.res.notes_failed ≡ length st.note_errs)
      × (st.res.notes_skipped ≡ k)

  count_saved-Adds :
      (k m : ℕ) (st : Pass F) (r : Result SaveError (ℕ × Bool) × Db F)
      → Adds k m st
      → Adds k (m + 1) (count_saved ctx_err fault chunker st r)
  count_saved-Adds k m st (err e, db) (all, failed, skipped) =
      (omega (arith, all), omega (arith, failed, length-append st.note_errs (e ∷ [])), skipped)
  count_saved-Adds k m st (ok (id, true), db) (all, failed, skipped) =
      (omega (arith, all), failed, skipped)
  count_saved-Adds k m st (ok (id, false), db) (all, failed, skipped) =
      (omega (arith, all), failed, skipped)

  pub save_all-Adds :
      (k m i t : ℕ) (ns : List Note) (st : Pass F)
      → m + length ns ≡ t
      → Adds k m st
      → (out : Pass F) → save_all ctx_err fault chunker i ns st ≡ ok out
      → Adds k t out
  unfolding save_all save_one
  save_all-Adds k m i t [] st total (all, failed, skipped) out e =
      rw (← ok-injective e) (omega (arith, all, total), failed, skipped)
  save_all-Adds k m i t (n ∷ ns) st total h out e = elim (Option-cases (ctx_err i)) [
    | inr (x, c) ↦ cc
    | inl c ↦
        save_all-Adds k (m + 1) (i + 1) t ns (save_one ctx_err fault chunker i n st)
          (omega (arith, total))
          (count_saved-Adds k m st (save_note (fault i) n (chunker n.text) st.db) h) out
          (rw (c, save_all) at e)
  ]

  pub prune-Adds :
      (k m : ℕ) (prune_fault : Option Err) (found : ScanResult) (st : Pass F)
      → Adds k m st
      → (out : Pass F) → prune ctx_err fault chunker prune_fault found st ≡ ok out
      → Adds k m out
  unfolding prune
  prune-Adds k m prune_fault found st h out e =
      let paths = found.skipped ++ map (λ n. n.path) found.notes in
      elim (Bool-cases (is_nil st.note_errs)) [
        | inr some_failed ↦ rw (← ok-injective (rw (some_failed, prune) at e)) h
        | inl none_failed ↦ elim (Result-cases (delete_missing prune_fault paths st.db).0) [
          | inl (x, c) ↦ cc (rw (c, prune) at (rw (none_failed, prune) at e))
          | inr (d, c) ↦ rw (← ok-injective (rw (c, prune) at (rw (none_failed, prune) at e))) h
        ]
      ]
