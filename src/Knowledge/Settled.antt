-- ===== src/Knowledge/Settled.antt =====
-- Index of knowledge/knowledge.go over a vault that has not changed.
pub mod Files
pub mod Trims
pub mod Settles
pub mod Again
use rag_ai_system.Prelude.{
  ℕ, ◌+◌, ◌≡◌, refl, ap, ◌∙◌, Bool, true, false, Option, none, some, List, [], ◌∷◌, ◌++◌, map,
  arith, length, take, All, ℤ, pos, Result, ok,
}
use rag_ai_system.Text.{Text, is_nil, text_eq}
use rag_ai_system.Backoff.{Err}
use rag_ai_system.Chunk.{CutError}
use rag_ai_system.Vault.Scan.{Note, ScanResult}
use rag_ai_system.Embed.{Provider}
use rag_ai_system.Storage.{
  NoteRow, ChunkRow, Db, find_note, keep_where, has_chunk, has_note, in_list, upsert_note,
  save_note, delete_missing, missing, pending_chunks,
}
use rag_ai_system.Storage.Save.Keeps.{Stored}
use rag_ai_system.Knowledge.Index.{IndexResult, Pass, count_saved, save_one, save_all, prune}
use rag_ai_system.Knowledge.Pending.{pending_batch, Embedding, rounds, embed_pending}
use rag_ai_system.Knowledge.Whole.{reported, after_prune, after_saves, first_pass, index}

abbrev pub found_paths : ScanResult → List Text
found_paths found = found.skipped ++ map (λ n. n.path) found.notes

-- The tables say what the scan found, no row is without its owner, and every chunk has a vector.
pub record Settled {F : Type 0} (found : ScanResult) (db : Db F) : Type 0 where
  pub stored : All (Stored db.notes) found.notes
  pub present : All (λ (r : NoteRow). in_list r.path (found_paths found) ≡ true) db.notes
  pub owned : All (λ (c : ChunkRow). has_note c.note_id db.notes ≡ true) db.chunks
  pub held : All (λ (v : ℕ × List F). has_chunk v.0 db.chunks ≡ true) db.vectors
  pub complete : missing db ≡ []

keep_where_all {ℓ} :
    {A : Type ℓ} (p : A → Bool) (xs : List A) → All (λ x. p x ≡ true) xs → keep_where p xs ≡ xs
keep_where_all p [] h = refl
keep_where_all p (x ∷ xs) (h, hs) = rw h (ap (λ ys. x ∷ ys) (keep_where_all p xs hs))

module _ {F : Type 0} where
  save_note-stored :
      (n : Note) (chunks : Result CutError (List Text)) (db : Db F) (r : NoteRow)
      → find_note n.path db.notes ≡ some r
      → text_eq r.hash n.hash ≡ true
      → save_note none n chunks db ≡ (ok (r.id, false), db)
  unfolding save_note upsert_note
  save_note-stored n chunks db r f h = rw (f, h, save_note, upsert_note) refl

  delete_missing-present :
      (paths : List Text) (db : Db F)
      → All (λ (r : NoteRow). in_list r.path paths ≡ true) db.notes
      → All (λ (c : ChunkRow). has_note c.note_id db.notes ≡ true) db.chunks
      → All (λ (v : ℕ × List F). has_chunk v.0 db.chunks ≡ true) db.vectors
      → delete_missing none paths db ≡ (ok 0, db)
  unfolding delete_missing
  delete_missing-present [] db n c v = refl
  delete_missing-present (p ∷ ps) db n c v =
      rw
        (
          keep_where_all (λ r. in_list r.path (p ∷ ps)) db.notes n,
          keep_where_all (λ x. has_note x.note_id db.notes) db.chunks c,
          keep_where_all (λ x. has_chunk x.0 db.chunks) db.vectors v,
        )
        (ap (λ k. (ok k, db)) (omega arith))

  -- Every note of the rest is counted as unchanged.
  save_all-stored :
      (chunker : Text → Result CutError (List Text)) (i : ℕ) (ns : List Note) (st : Pass F)
      → All (Stored st.db.notes) ns
      → save_all (λ k. none) (λ k. none) chunker i ns st
        ≡ ok (record st {
          res = record st.res { notes_unchanged = st.res.notes_unchanged + length ns };
        })
  unfolding save_all save_one
  save_all-stored chunker i [] st h =
      ap (λ k. ok (record st { res = record st.res { notes_unchanged = k } })) (omega arith)
  save_all-stored chunker i (n ∷ ns) st ((r, f, same), hs) =
      let one : save_one (λ k. none) (λ k. none) chunker i n st
          ≡ record st { res = record st.res { notes_unchanged = st.res.notes_unchanged + 1 } } =
        ap (count_saved (λ k. none) (λ k. none) chunker st)
          (save_note-stored n (chunker n.text) st.db r f same) in
      rw one (
        save_all-stored chunker (i + 1) ns
          (record st { res = record st.res { notes_unchanged = st.res.notes_unchanged + 1 } }) hs
        ∙ ap (λ k. ok (record st { res = record st.res { notes_unchanged = k } })) (omega arith))

module _ {F S : Type 0} (chunker : Text → Result CutError (List Text)) (p : Provider F S) (dim : ℤ)
    (save_fault : Db F → Option Err) where
  pending_complete :
      (db : Db F) → missing db ≡ [] → pending_chunks none (pos pending_batch) db ≡ ok []
  unfolding pending_chunks
  pending_complete db h = ap (λ cs. ok (take 128 cs)) h

  embed_pending_complete :
      (st : Embedding F S)
      → missing st.db ≡ []
      → embed_pending p dim (λ db. none) save_fault st ≡ some (none, st)
  unfolding embed_pending rounds
  embed_pending_complete st h = rw (h, pending_complete st.db h) refl

  prune-Settled :
      (found : ScanResult) (db : Db F) (res : IndexResult)
      → Settled found db
      → prune
          (λ k. none)
          (λ k. none)
          chunker
          none
          found
          (record { db = db; res = res; note_errs = [] })
        ≡ ok (record { db = db; res = record res { notes_deleted = 0 }; note_errs = [] })
  unfolding prune
  prune-Settled found db res h =
      let same = delete_missing-present (found_paths found) db h.present h.owned h.held in
      rw (ap (λ q. q.0) same, ap (λ q. q.1) same) refl

  -- What a pass over a vault without a change returns.
  abbrev pub nothing_new : ScanResult → IndexResult
  nothing_new found = record {
    notes_written = 0;
    notes_unchanged = length found.notes;
    notes_deleted = 0;
    notes_skipped = length found.skipped;
    notes_failed = 0;
    chunks_embedded = 0;
  }

  -- A pass over a vault that the tables agree with changes nothing: without a failure of the database
  -- or of the context it counts each note as unchanged, returns no error, leaves the tables as they are
  -- and does not call the provider.
  pub index-Settled :
      (path : Text) (found : ScanResult) (db : Db F) (s : S)
      → is_nil path ≡ false
      → Settled found db
      → index (λ k. none) (λ k. none) chunker none p dim (λ d. none) save_fault path (ok found) db s
        ≡ some (record { res = nothing_new found; errs = []; db = db; provider = s })
  unfolding index
  index-Settled [] found db s named h = cc
  index-Settled (c ∷ path) found db s named h =
      let start : Pass F =
        first_pass (λ k. none) (λ k. none) chunker none p dim (λ d. none) save_fault found db in
      let seen : Pass F = record start {
        res = record start.res { notes_unchanged = 0 + length found.notes };
      } in
      ap (after_saves (λ k. none) (λ k. none) chunker none p dim (λ d. none) save_fault found s)
        (save_all-stored chunker 0 found.notes start h.stored)
      ∙ ap (after_prune (λ k. none) (λ k. none) chunker none p dim (λ d. none) save_fault seen s)
          (prune-Settled found db seen.res h)
      ∙ ap (reported (λ k. none) (λ k. none) chunker none p dim (λ d. none) save_fault seen)
          (embed_pending_complete (record { done = 0; db = db; provider = s }) h.complete)
      ∙ ap
          (λ n. some (record {
            res = record (nothing_new found) { notes_unchanged = n };
            errs = [];
            db = db;
            provider = s;
          }))
          (omega arith)
