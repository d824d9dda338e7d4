-- ===== src/Knowledge/Settled/Again.antt =====
-- Index of knowledge/knowledge.go run again: what a pass without an error leaves, and a second pass.
mod Tests
use mathlib.Core.Option.{some-injective}
use rag_ai_system.Prelude.{
  ℕ, ◌≤◌, ◌≡◌, refl, sym, ap, ◌∙◌, subst, true, false, Option, none, some, List, [], ◌∷◌, map, All,
  ℤ, Result, ok, err,
}
use rag_ai_system.Text.{Text, is_nil}
use rag_ai_system.Backoff.{Err}
use rag_ai_system.Chunk.{CutError}
use rag_ai_system.Vault.Scan.{Visit, ScanResult, scan, count, markdown_paths}
use rag_ai_system.Embed.{Provider}
use rag_ai_system.Storage.{NoteRow, Db, in_list, missing}
use rag_ai_system.Storage.Tables.{All-both}
use rag_ai_system.Storage.Save.Keeps.{Stored}
use rag_ai_system.Knowledge.Index.{note_failed, Pass, prune}
use rag_ai_system.Knowledge.Pending.{Embedding, saved, embed_pending}
use rag_ai_system.Knowledge.Pending.Finish.{Ends, embed_pending-Leaves}
use rag_ai_system.Knowledge.Pending.Refs.{Refers, embed_pending-Refers}
use rag_ai_system.Knowledge.Whole.{Indexed, reported, after_prune, after_saves, first_pass, index}
use rag_ai_system.Knowledge.Settled.{found_paths, Settled, nothing_new, index-Settled}
use rag_ai_system.Knowledge.Settled.Settles.{save_all-Stored}
use rag_ai_system.Knowledge.Settled.Files.{Distinct, scan-Distinct, notes_listed}
use rag_ai_system.Knowledge.Settled.Trims.{Trimmed, prune-Trimmed}

map-nil {ℓ κ} : {A : Type ℓ} {B : Type κ} (f : A → B) (xs : List A) → map f xs ≡ [] → xs ≡ []
map-nil f [] h = refl
map-nil f (x ∷ xs) h = cc

module _ {F S : Type 0} (ctx_err : ℕ → Option Err) (fault : ℕ → Option Err)
    (chunker : Text → Result CutError (List Text)) (prune_fault : Option Err) (p : Provider F S)
    (dim : ℤ) (read_fault save_fault : Db F → Option Err) (found : ScanResult) where
  reported_lem :
      (next : Pass F) (o : Option (Option Err × Embedding F S)) (out : Indexed F S)
      → reported ctx_err fault chunker prune_fault p dim read_fault save_fault next o ≡ some out
      → out.errs ≡ []
      → (em : Embedding F S) × (o ≡ some (none, em)) × (next.note_errs ≡ []) × (out.db ≡ em.db)
  reported_lem next none out ran h = cc
  reported_lem next (some (some x, em)) out ran h =
      cc (ap (λ (q : Indexed F S). q.errs) (some-injective _ _ ran))
  reported_lem next (some (none, em)) out ran h =
      let same = some-injective _ _ ran in
      (
        em,
        refl,
        map-nil note_failed next.note_errs (ap (λ (q : Indexed F S). q.errs) same ∙ h),
        sym (ap (λ (q : Indexed F S). q.db) same),
      )

  embedded_complete :
      (st em : Embedding F S)
      → embed_pending p dim read_fault save_fault st ≡ some (none, em)
      → missing em.db ≡ []
  embedded_complete st em ran =
      let (out, e, ends) = embed_pending-Leaves p dim read_fault save_fault st in
      subst (Ends p dim read_fault save_fault (λ x. missing x.db ≡ []))
        (some-injective _ _ (sym e ∙ ran)) ends

  Settled-embedded :
      (st next : Pass F) (s : S) (em : Embedding F S)
      → All (Stored st.db.notes) found.notes
      → Trimmed (found_paths found) st.db next.db
      → embed_pending p dim read_fault save_fault (record { done = 0; db = next.db; provider = s })
        ≡ some (none, em)
      → Settled found em.db
  Settled-embedded st next s em stored t ran =
      let same : Refers next.db.notes next.db.chunks em.db =
        embed_pending-Refers p dim read_fault save_fault next.db.notes next.db.chunks _ _
          (record { same_notes = refl; same_chunks = refl; held = t.held }) ran in
      record {
        stored =
            subst (λ rows. All (Stored rows) found.notes) (sym same.same_notes)
              (All-both _ _ _ found.notes (λ n (r, f, h) listed. (r, t.kept n.path listed ∙ f, h))
                stored (notes_listed found));
        present =
            subst (All (λ (r : NoteRow). in_list r.path (found_paths found) ≡ true))
              (sym same.same_notes) t.present;
        owned = rw (same.same_notes, same.same_chunks) t.owned;
        held = rw (same.same_chunks) same.held;
        complete = embedded_complete _ em ran;
      }

  after_prune-Settled :
      (st : Pass F) (s : S) (r : Result Err (Pass F)) (out : Indexed F S)
      → is_nil (found_paths found) ≡ false
      → r ≡ prune ctx_err fault chunker prune_fault found st
      → (st.note_errs ≡ [] → All (Stored st.db.notes) found.notes)
      → after_prune ctx_err fault chunker prune_fault p dim read_fault save_fault st s r ≡ some out
      → out.errs ≡ []
      → Settled found out.db
  after_prune-Settled st s (err e) out some_path pruned stored ran h =
      cc (ap (λ (q : Indexed F S). q.errs) (some-injective _ _ ran))
  after_prune-Settled st s (ok next) out some_path pruned stored ran h =
      let (em, embedded, clean, same) = reported_lem next _ out ran h in
      let (before, t) =
        prune-Trimmed ctx_err fault chunker prune_fault found st next some_path (sym pruned)
          clean in
      subst (Settled found) (sym same) (Settled-embedded st next s em (stored before) t embedded)

  after_saves-Settled :
      (s : S) (r : Result (Err × Pass F) (Pass F)) (out : Indexed F S)
      → is_nil (found_paths found) ≡ false
      → ((st : Pass F) → r ≡ ok st → st.note_errs ≡ [] → All (Stored st.db.notes) found.notes)
      → after_saves ctx_err fault chunker prune_fault p dim read_fault save_fault found s r
        ≡ some out
      → out.errs ≡ []
      → Settled found out.db
  after_saves-Settled s (err (e, st)) out some_path stored ran h =
      cc (ap (λ (q : Indexed F S). q.errs) (some-injective _ _ ran))
  after_saves-Settled s (ok st) out some_path stored ran h =
      after_prune-Settled st s _ out some_path refl (stored st refl) ran h

  index_named :
      (path : Text) (db : Db F) (s : S) (out : Indexed F S)
      → index ctx_err fault chunker prune_fault p dim read_fault save_fault path (ok found) db s
        ≡ some out
      → out.errs ≡ []
      → is_nil path ≡ false
  unfolding index
  index_named [] db s out ran h = cc (ap (λ (q : Indexed F S). q.errs) (some-injective _ _ ran))
  index_named (c ∷ path) db s out ran h = refl

  index_settles :
      (path : Text) (db : Db F) (s : S) (out : Indexed F S)
      → is_nil (found_paths found) ≡ false
      → Distinct found.notes
      → index ctx_err fault chunker prune_fault p dim read_fault save_fault path (ok found) db s
        ≡ some out
      → out.errs ≡ []
      → Settled found out.db
  unfolding index
  index_settles [] db s out some_path apart ran h =
      cc (ap (λ (q : Indexed F S). q.errs) (some-injective _ _ ran))
  index_settles (c ∷ path) db s out some_path apart ran h =
      after_saves-Settled s _ out some_path
        (λ st saved clean.
          save_all-Stored ctx_err fault chunker 0 found.notes
            (first_pass ctx_err fault chunker prune_fault p dim read_fault save_fault found db) st
            saved clean apart)
        ran h

  -- A pass without an error brings the tables in line with the vault, whatever they held before: each
  -- note has a row with the hash of its file, no row is of a file that the scan did not meet, no chunk
  -- is without its note and no vector without its chunk, and every chunk has a vector. So a second pass
  -- over the same files, in which neither the database nor the context fails, counts each note as
  -- unchanged, changes no table and asks the provider for nothing. The conditions are that the scan has
  -- met a markdown file, and none twice.
  pub index_again :
      (to_lower : ℕ → ℕ) (sha256 : Text → Text) (visits : List Visit) (path : Text) (db : Db F)
      (s : S) (out : Indexed F S)
      → ((t : Text) → count to_lower sha256 t (markdown_paths to_lower sha256 visits) ≤ 1)
      → scan to_lower sha256 visits ≡ ok found
      → is_nil (found_paths found) ≡ false
      → index ctx_err fault chunker prune_fault p dim read_fault save_fault path (ok found) db s
        ≡ some out
      → out.errs ≡ []
      → Settled found out.db
        × (index
              (λ k. none)
              (λ k. none)
              chunker
              none
              p
              dim
              (λ d. none)
              save_fault
              path
              (ok found)
              out.db
              out.provider
            ≡ some (record {
              res = nothing_new chunker p dim save_fault found;
              errs = [];
              db = out.db;
              provider = out.provider;
            }))
  index_again to_lower sha256 visits path db s out once scanned some_path ran h =
      let apart = scan-Distinct to_lower sha256 visits found once scanned in
      let settled = index_settles path db s out some_path apart ran h in
      (
        settled,
        index-Settled chunker p dim save_fault path found out.db out.provider
            (index_named path db s out ran h) settled,
      )
