-- ===== src/Knowledge/Whole.antt =====
-- Index of knowledge/knowledge.go as a whole: the scan's answer, the saves, the prune, the vectors.
mod Tests
use rag_ai_system.Prelude.{
  ℕ, ◌+◌, ◌≡◌, refl, ◌⊎◌, inl, inr, Option, none, some, List, [], ◌∷◌, map, arith, length, ℤ,
  Result, ok, err,
}
use rag_ai_system.Text.{Text}
use rag_ai_system.Backoff.{Err}
use rag_ai_system.Chunk.{CutError}
use rag_ai_system.Vault.{VaultError}
use rag_ai_system.Vault.Scan.{ScanResult}
use rag_ai_system.Embed.{Provider}
use rag_ai_system.Storage.{Db, SaveError, missing}
use rag_ai_system.Knowledge.Index.{
  IndexResult, nothing_yet, IndexError, no_vault_path, scan_failed, context_ended, prune_failed,
  embedding_failed, note_failed, Pass, save_all, prune,
}
use rag_ai_system.Knowledge.Index.Counts.{Adds, save_all-Adds, prune-Adds}
use rag_ai_system.Knowledge.Pending.{Embedding, embed_pending}
use rag_ai_system.Knowledge.Pending.Finish.{Leaves, embed_pending-Leaves}

-- What Index returns, its joined errors as a list, and what it leaves.
module _ (F S : Type 0) where
  pub record Indexed : Type 0 where
    pub res : IndexResult
    pub errs : List IndexError
    pub db : Db F
    pub provider : S

module _ {F S : Type 0} (ctx_err : ℕ → Option Err) (fault : ℕ → Option Err)
    (chunker : Text → Result CutError (List Text)) (prune_fault : Option Err) (p : Provider F S)
    (dim : ℤ) (read_fault save_fault : Db F → Option Err) where
  abbrev pub report : Pass F → Option Err × Embedding F S → Indexed F S
  report st (e, em) = record {
    res = record st.res { chunks_embedded = em.done };
    errs = elim e [
      | none ↦ map (λ x. note_failed x) st.note_errs
      | some x ↦ embedding_failed x ∷ []
    ];
    db = em.db;
    provider = em.provider;
  }

  abbrev pub reported : Pass F → Option (Option Err × Embedding F S) → Option (Indexed F S)
  reported st none = none
  reported st (some r) = some (report st r)

  abbrev pub after_prune : Pass F → S → Result Err (Pass F) → Option (Indexed F S)
  after_prune st s (err e) =
      some (record { res = st.res; errs = prune_failed e ∷ []; db = st.db; provider = s })
  after_prune st s (ok next) =
      reported next (
        embed_pending p dim read_fault save_fault (record { done = 0; db = next.db; provider = s }))

  abbrev pub after_saves : ScanResult → S → Result (Err × Pass F) (Pass F) → Option (Indexed F S)
  after_saves found s (err (e, st)) =
      some (record { res = st.res; errs = context_ended e ∷ []; db = st.db; provider = s })
  after_saves found s (ok st) = after_prune st s (prune ctx_err fault chunker prune_fault found st)

  abbrev pub first_pass : ScanResult → Db F → Pass F
  first_pass found db = record {
    db = db;
    res = record nothing_yet { notes_skipped = length found.skipped };
    note_errs = [];
  }

  -- Knowledge.Index; `scanned` is the answer of Scan, whose skipped files are no error here.
  unfoldable pub index : Text → Result VaultError ScanResult → Db F → S → Option (Indexed F S)
  unfolding save_all prune embed_pending
  index [] scanned db s =
      some (record { res = nothing_yet; errs = no_vault_path ∷ []; db = db; provider = s })
  index (c ∷ path) (err e) db s =
      some (record { res = nothing_yet; errs = scan_failed e ∷ []; db = db; provider = s })
  index (c ∷ path) (ok found) db s =
      after_saves found s (save_all ctx_err fault chunker 0 found.notes (first_pass found db))

  abbrev pub files : Result VaultError ScanResult → ℕ × ℕ
  files (err e) = (0, 0)
  files (ok found) = (length found.notes, length found.skipped)

  -- How a pass ends: with an error, or with every chunk embedded and every file counted.
  abbrev pub Complete : ℕ × ℕ → Indexed F S → Type 0
  Complete (notes, skipped) out =
      ((e : IndexError) × (es : List IndexError) × (out.errs ≡ e ∷ es))
      ⊎ (missing out.db ≡ [])
        × (out.res.notes_written + out.res.notes_unchanged ≡ notes)
        × (out.res.notes_failed ≡ 0)
        × (out.res.notes_skipped ≡ skipped)

  ended-Complete :
      (notes skipped : ℕ) (st : Pass F) (em : Embedding F S) (xs : List SaveError)
      → st.note_errs ≡ xs
      → Adds ctx_err fault chunker skipped notes st
      → missing em.db ≡ []
      → Complete (notes, skipped) (report st (none, em))
  ended-Complete notes skipped st em [] none_failed (all, failed, skips) ends =
      let no_failure = rw none_failed at failed in
      inr (ends, omega (arith, all, no_failure), no_failure, skips)
  ended-Complete notes skipped st em (x ∷ xs) some_failed adds ends =
      inl (note_failed x, map (λ y. note_failed y) xs, rw some_failed refl)

  report-Complete :
      (notes skipped : ℕ) (st : Pass F) (o : Option (Option Err × Embedding F S))
      → Adds ctx_err fault chunker skipped notes st
      → Leaves p dim read_fault save_fault (λ em. missing em.db ≡ []) o
      → (out : Indexed F S) × (reported st o ≡ some out) × Complete (notes, skipped) out
  report-Complete notes skipped st o adds ((none, em), e, ends) =
      rw e (_, refl, ended-Complete notes skipped st em st.note_errs refl adds ends)
  report-Complete notes skipped st o adds ((some x, em), e, ends) = rw e (_, refl, inl (_, _, refl))

  after_prune-Complete :
      (notes skipped : ℕ) (st : Pass F) (s : S) (r : Result Err (Pass F))
      → ((next : Pass F) → r ≡ ok next → Adds ctx_err fault chunker skipped notes next)
      → (out : Indexed F S) × (after_prune st s r ≡ some out) × Complete (notes, skipped) out
  after_prune-Complete notes skipped st s (err e) adds = (_, refl, inl (_, _, refl))
  after_prune-Complete notes skipped st s (ok next) adds =
      report-Complete notes skipped next _ (adds next refl) (
        embed_pending-Leaves p dim read_fault save_fault
          (record { done = 0; db = next.db; provider = s }))

  after_saves-Complete :
      (found : ScanResult) (s : S) (r : Result (Err × Pass F) (Pass F))
      → ((st : Pass F)
          → r ≡ ok st
          → Adds ctx_err fault chunker (length found.skipped) (length found.notes) st)
      → (out : Indexed F S) × (after_saves found s r ≡ some out) × Complete (files (ok found)) out
  after_saves-Complete found s (err (e, st)) adds = (_, refl, inl (_, _, refl))
  after_saves-Complete found s (ok st) adds =
      after_prune-Complete (length found.notes) (length found.skipped) st s _ (
        prune-Adds ctx_err fault chunker (length found.skipped) (length found.notes) prune_fault
          found st (adds st refl))

  -- Index returns, whatever fails. It reports an error, or every chunk has a vector and the counts add
  -- up: each note that the scan found was written or unchanged, none failed, and the skipped files are
  -- those of the scan.
  pub index-Complete :
      (path : Text) (scanned : Result VaultError ScanResult) (db : Db F) (s : S)
      → (out : Indexed F S) × (index path scanned db s ≡ some out) × Complete (files scanned) out
  unfolding index
  index-Complete [] scanned db s = (_, refl, inl (_, _, refl))
  index-Complete (c ∷ path) (err e) db s = (_, refl, inl (_, _, refl))
  index-Complete (c ∷ path) (ok found) db s = after_saves-Complete found s _ (
      save_all-Adds ctx_err fault chunker (length found.skipped) 0 0 (length found.notes)
        found.notes (first_pass found db) (omega arith) (refl, refl, refl))
