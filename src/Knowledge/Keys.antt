-- ===== src/Knowledge/Keys.antt =====
-- Index of knowledge/knowledge.go keeps the keys and references of the tables.

use mathlib.Core.Option.{some-injective}
use rag_ai_system.Prelude.{
  ℕ, ◌+◌, ◌≡◌, refl, sym, ◌∙◌, subst, inl, inr, Bool, true, false, Option, none, some, List, [],
  ◌∷◌, ◌++◌, map, arith, Bool-cases, Option-cases, All, ℤ, Result, ok, err, ok-injective,
  Result-cases,
}
use rag_ai_system.Text.{Text, is_nil}
use rag_ai_system.Backoff.{Err}
use rag_ai_system.Chunk.{CutError}
use rag_ai_system.Vault.{VaultError}
use rag_ai_system.Vault.Scan.{Note, ScanResult}
use rag_ai_system.Embed.{Provider}
use rag_ai_system.Storage.{
  ChunkRow, Db, SaveError, has_chunk, save_note, delete_missing, save_embeddings,
}
use rag_ai_system.Storage.Keys.{IsDb, delete_missing-IsDb, save_embeddings-IsDb}
use rag_ai_system.Storage.Keys.Chunks.{save_note-IsDb}
use rag_ai_system.Knowledge.Index.{Pass, count_saved, save_one, save_all, prune}
use rag_ai_system.Knowledge.Pending.{Embedding, embed_pending}
use rag_ai_system.Knowledge.Pending.Keeps.{embed_pending-Keeps}
use rag_ai_system.Knowledge.Pending.Refs.{missing-Known}
use rag_ai_system.Knowledge.Whole.{Indexed, reported, after_prune, after_saves, first_pass, index}

module _ {F : Type 0} (ctx_err : ℕ → Option Err) (fault : ℕ → Option Err)
    (chunker : Text → Result CutError (List Text)) where
  count_saved-IsDb :
      (st : Pass F) (r : Result SaveError (ℕ × Bool) × Db F)
      → IsDb r.1
      → IsDb (count_saved ctx_err fault chunker st r).db
  count_saved-IsDb st (err e, db) h = h
  count_saved-IsDb st (ok (id, true), db) h = h
  count_saved-IsDb st (ok (id, false), db) h = h

  save_one-IsDb :
      (i : ℕ) (n : Note) (st : Pass F)
      → IsDb st.db
      → IsDb (save_one ctx_err fault chunker i n st).db
  unfolding save_one
  save_one-IsDb i n st h =
      count_saved-IsDb st (save_note (fault i) n (chunker n.text) st.db)
        (save_note-IsDb (fault i) n (chunker n.text) st.db h)

  -- The tables that the loop leaves, be it stopped or not.
  abbrev Left : Result (Err × Pass F) (Pass F) → Type 0
  Left (ok st) = IsDb st.db
  Left (err (e, st)) = IsDb st.db

  save_all-Left :
      (i : ℕ) (ns : List Note) (st : Pass F)
      → IsDb st.db
      → Left (save_all ctx_err fault chunker i ns st)
  unfolding save_all
  save_all-Left i [] st h = h
  save_all-Left i (n ∷ ns) st h = elim (Option-cases (ctx_err i)) [
    | inr (e, ended) ↦ rw (ended, save_all) h
    | inl open_ctx ↦
        rw (open_ctx, save_all)
          (save_all-Left (i + 1) ns (save_one ctx_err fault chunker i n st)
            (save_one-IsDb i n st h))
  ]

  prune-IsDb :
      (prune_fault : Option Err) (found : ScanResult) (st out : Pass F)
      → IsDb st.db
      → prune ctx_err fault chunker prune_fault found st ≡ ok out
      → IsDb out.db
  unfolding prune
  prune-IsDb prune_fault found st out h ran =
      let paths = found.skipped ++ map (λ n. n.path) found.notes in
      elim (Bool-cases (is_nil st.note_errs)) [
        | inr failed ↦
            subst (λ (q : Pass F). IsDb q.db) (ok-injective (rw (failed, prune) at ran)) h
        | inl clean ↦ elim (Result-cases (delete_missing prune_fault paths st.db).0) [
          | inl (x, k) ↦ cc (rw (k, prune) at (rw (clean, prune) at ran))
          | inr (d, k) ↦
              subst (λ (q : Pass F). IsDb q.db)
                (ok-injective (rw (k, prune) at (rw (clean, prune) at ran)))
                (delete_missing-IsDb prune_fault paths st.db h)
        ]
      ]

-- Well-formed tables with these chunks.
record OverChunks {F : Type 0} (chunks : List ChunkRow) (db : Db F) : Type 0 where
  well_formed : IsDb db
  same : db.chunks ≡ chunks

module _ {F : Type 0} where
  chunks-save_embeddings :
      (fault : Option Err) (dim : ℤ) (batch : List (ℕ × List F)) (db : Db F)
      → (save_embeddings fault dim batch db).1.chunks ≡ db.chunks
  unfolding save_embeddings
  chunks-save_embeddings fault dim [] db = refl
  chunks-save_embeddings fault dim (cv ∷ batch) db = ground arith

module _ {F S : Type 0} (ctx_err : ℕ → Option Err) (fault : ℕ → Option Err)
    (chunker : Text → Result CutError (List Text)) (prune_fault : Option Err) (p : Provider F S)
    (dim : ℤ) (read_fault save_fault : Db F → Option Err) where
  embed_pending-IsDb :
      (st : Embedding F S) (out : Option Err × Embedding F S)
      → IsDb st.db
      → embed_pending p dim read_fault save_fault st ≡ some out
      → IsDb out.1.db
  embed_pending-IsDb st out h ran =
      (embed_pending-Keeps p dim read_fault save_fault (OverChunks st.db.chunks)
        (λ i. has_chunk i st.db.chunks ≡ true) (λ db o. missing-Known st.db.chunks db o.same)
        (λ f batch db known o. record {
          well_formed =
              save_embeddings-IsDb f dim batch db
                (subst (λ cs. All (λ (v : ℕ × List F). has_chunk v.0 cs ≡ true) batch) (sym o.same)
                  known)
                o.well_formed;
          same = chunks-save_embeddings f dim batch db ∙ o.same;
        })
        st out (record { well_formed = h; same = refl }) ran).well_formed

  reported-IsDb :
      (next : Pass F) (o : Option (Option Err × Embedding F S)) (out : Indexed F S)
      → ((e : Option Err × Embedding F S) → o ≡ some e → IsDb e.1.db)
      → reported ctx_err fault chunker prune_fault p dim read_fault save_fault next o ≡ some out
      → IsDb out.db
  reported-IsDb next none out h ran = cc
  reported-IsDb next (some (e, em)) out h ran =
      subst (λ (q : Indexed F S). IsDb q.db) (some-injective _ _ ran) (h (e, em) refl)

  after_prune-IsDb :
      (st : Pass F) (s : S) (r : Result Err (Pass F)) (out : Indexed F S)
      → IsDb st.db
      → ((next : Pass F) → r ≡ ok next → IsDb next.db)
      → after_prune ctx_err fault chunker prune_fault p dim read_fault save_fault st s r ≡ some out
      → IsDb out.db
  after_prune-IsDb st s (err e) out h keeps ran =
      subst (λ (q : Indexed F S). IsDb q.db) (some-injective _ _ ran) h
  after_prune-IsDb st s (ok next) out h keeps ran =
      reported-IsDb next _ out
        (λ e.
          embed_pending-IsDb (record { done = 0; db = next.db; provider = s }) e (keeps next refl))
        ran

  after_saves-IsDb :
      (found : ScanResult) (s : S) (r : Result (Err × Pass F) (Pass F)) (out : Indexed F S)
      → Left ctx_err fault chunker r
      → after_saves ctx_err fault chunker prune_fault p dim read_fault save_fault found s r
        ≡ some out
      → IsDb out.db
  after_saves-IsDb found s (err (e, st)) out h ran =
      subst (λ (q : Indexed F S). IsDb q.db) (some-injective _ _ ran) h
  after_saves-IsDb found s (ok st) out h ran =
      after_prune-IsDb st s _ out h
        (λ next. prune-IsDb ctx_err fault chunker prune_fault found st next h) ran

  -- Index keeps the tables well-formed, whatever fails: no two notes have one id or one path, no two
  -- chunks one id or one place in a note, no chunk two vectors, the ids to come are unused, each chunk
  -- has its note and each vector its chunk.
  pub index-IsDb :
      (path : Text) (scanned : Result VaultError ScanResult) (db : Db F) (s : S) (out : Indexed F S)
      → IsDb db
      → index ctx_err fault chunker prune_fault p dim read_fault save_fault path scanned db s
        ≡ some out
      → IsDb out.db
  unfolding index
  index-IsDb [] scanned db s out h ran =
      subst (λ (q : Indexed F S). IsDb q.db) (some-injective _ _ ran) h
  index-IsDb (c ∷ path) (err e) db s out h ran =
      subst (λ (q : Indexed F S). IsDb q.db) (some-injective _ _ ran) h
  index-IsDb (c ∷ path) (ok found) db s out h ran =
      after_saves-IsDb found s _ out
        (save_all-Left ctx_err fault chunker 0 found.notes
          (first_pass ctx_err fault chunker prune_fault p dim read_fault save_fault found db) h)
        ran
