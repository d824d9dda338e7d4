-- ===== src/Knowledge/Pending/Stays.antt =====
-- embedPending of knowledge/knowledge.go resumes where it stopped: what is there stays.
use rag_ai_system.Prelude.{
  ℕ, ◌≡◌, refl, sym, ◌∙◌, subst, inl, inr, true, false, not, Option, none, some, List, [], ◌∷◌,
  arith, ◌==◌, if◌then◌else◌, ==_iff, Bool-cases, Option-cases, All, ℤ,
}
use rag_ai_system.Backoff.{Err}
use rag_ai_system.Embed.{Provider}
use rag_ai_system.Storage.{
  NoteRow, ChunkRow, Db, has_vector, missing, put_vector, put_vectors, all_fit, save_embeddings,
}
use rag_ai_system.Storage.Tables.{All-implies, keep_where-All}
use rag_ai_system.Knowledge.Pending.Finish.{embed_pending-Leaves}
use rag_ai_system.Knowledge.Pending.{Embedding, embed_pending}
use rag_ai_system.Knowledge.Pending.Keeps.{embed_pending-Keeps}

module _ {F : Type 0} where
  abbrev pub vector_of : ℕ → List (ℕ × List F) → Option (List F)
  vector_of id [] = none
  vector_of id ((j, v) ∷ vs) = if j == id then some v else vector_of id vs

  has_vector-vector_of :
      (id : ℕ) (v : List F) (vs : List (ℕ × List F))
      → vector_of id vs ≡ some v
      → has_vector id vs ≡ true
  has_vector-vector_of id v [] h = cc
  has_vector-vector_of id v ((j, w) ∷ vs) h = elim (Bool-cases (j == id)) [
    | inl e ↦ rw e refl
    | inr e ↦ rw e (has_vector-vector_of id v vs (rw e at h))
  ]

  vector_of-put_vector :
      (id j : ℕ) (w : List F) (vs : List (ℕ × List F))
      → (j == id) ≡ false
      → vector_of id (put_vector j w vs) ≡ vector_of id vs
  vector_of-put_vector id j w [] h = rw h refl
  vector_of-put_vector id j w ((k, u) ∷ vs) h = elim (Bool-cases (k == j)) [
    | inl e ↦ rw (e, h, subst (λ i. (i == id) ≡ false) (sym ((==_iff k j).0 e)) h) refl
    | inr e ↦ rw e (elim (Bool-cases (k == id)) [
      | inl f ↦ rw f refl
      | inr f ↦ rw f (vector_of-put_vector id j w vs h)
    ])
  ]

  vector_of-put_vectors :
      (id : ℕ) (batch vs : List (ℕ × List F))
      → All (λ (v : ℕ × List F). (v.0 == id) ≡ false) batch
      → vector_of id (put_vectors batch vs) ≡ vector_of id vs
  vector_of-put_vectors id [] vs h = refl
  vector_of-put_vectors id ((j, w) ∷ batch) vs (h, hs) =
      vector_of-put_vectors id batch (put_vector j w vs) hs ∙ vector_of-put_vector id j w vs h

All-any {ℓ} : {A : Type ℓ} (xs : List A) → All (λ (x : A). Unit {0}) xs
All-any [] = tt
All-any (x ∷ xs) = (tt, All-any xs)

module _ {F : Type 0} where
  -- Each row has its id in the table, if not its vector as the first one.
  rows_found :
      (vs : List (ℕ × List F))
      → All (λ (w : ℕ × List F). (v : List F) × (vector_of w.0 vs ≡ some v)) vs
  rows_found [] = tt
  rows_found ((j, u) ∷ vs) = (
    (u, rw ((==_iff j j).1 refl) refl),
    All-implies _ _ vs
        (λ w h. elim (Bool-cases (j == w.0)) [ inl e ↦ (u, rw e refl) | inr e ↦ (h.0, rw e h.1) ])
        (rows_found vs),
  )

-- The notes and the chunks are these, and the chunk `id` has this vector.
record Holds {F : Type 0} (notes : List NoteRow) (chunks : List ChunkRow) (id : ℕ) (v : List F)
    (db : Db F) : Type 0 where
  same_notes : db.notes ≡ notes
  same_chunks : db.chunks ≡ chunks
  vector : vector_of id db.vectors ≡ some v

module _ {F S : Type 0} (p : Provider F S) (dim : ℤ)
    (read_fault save_fault : Db F → Option Err) where
  missing_others :
      (id : ℕ) (v : List F) (db : Db F)
      → vector_of id db.vectors ≡ some v
      → All (λ c. (c.id == id) ≡ false) (missing db)
  unfolding missing
  missing_others id v db h =
      All-implies _ _ (missing db)
        (λ c k. elim (Bool-cases (c.id == id)) [
          | inr e ↦ e
          | inl e ↦
              let has : has_vector c.id db.vectors ≡ true =
                subst (λ i. has_vector i db.vectors ≡ true) (sym ((==_iff c.id id).0 e))
                  (has_vector-vector_of id v db.vectors h) in
              cc (rw has at k)
        ])
        (keep_where-All (λ (c : ChunkRow). not (has_vector c.id db.vectors)) db.chunks)

  save_embeddings-Holds :
      (notes : List NoteRow) (chunks : List ChunkRow) (id : ℕ) (v : List F) (fault : Option Err)
      (batch : List (ℕ × List F)) (db : Db F)
      → All (λ (w : ℕ × List F). (w.0 == id) ≡ false) batch
      → Holds notes chunks id v db
      → Holds notes chunks id v (save_embeddings fault dim batch db).1
  unfolding save_embeddings
  save_embeddings-Holds notes chunks id v fault [] db k h = h
  save_embeddings-Holds notes chunks id v fault (cv ∷ batch) db k h =
      elim (Bool-cases (all_fit dim (cv ∷ batch))) [
        | inr e ↦ rw (e, save_embeddings) h
        | inl e ↦ elim (Option-cases fault) [
          | inr (x, f) ↦ rw (e, f, save_embeddings) h
          | inl f ↦
              rw (e, f, save_embeddings)
                (record {
                  same_notes = h.same_notes;
                  same_chunks = h.same_chunks;
                  vector = vector_of-put_vectors id (cv ∷ batch) db.vectors k ∙ h.vector;
                })
        ]
      ]

  vector_stays :
      (st : Embedding F S) (out : Option Err × Embedding F S) (id : ℕ) (v : List F)
      → embed_pending p dim read_fault save_fault st ≡ some out
      → vector_of id st.db.vectors ≡ some v
      → vector_of id out.1.db.vectors ≡ vector_of id st.db.vectors
  vector_stays st out id v ran h =
      let held =
        embed_pending-Keeps p dim read_fault save_fault (Holds st.db.notes st.db.chunks id v)
          (λ i. (i == id) ≡ false) (λ db o. missing_others id v db o.vector)
          (save_embeddings-Holds st.db.notes st.db.chunks id v) st out
          (record { same_notes = refl; same_chunks = refl; vector = h }) ran in
      held.vector ∙ sym h

  rows-save_embeddings :
      (fault : Option Err) (batch : List (ℕ × List F)) (db : Db F)
      → ((save_embeddings fault dim batch db).1.notes ≡ db.notes)
        × ((save_embeddings fault dim batch db).1.chunks ≡ db.chunks)
  unfolding save_embeddings
  rows-save_embeddings fault [] db = (refl, refl)
  rows-save_embeddings fault (cv ∷ batch) db = ground arith

  rows_stay :
      (st : Embedding F S) (out : Option Err × Embedding F S)
      → embed_pending p dim read_fault save_fault st ≡ some out
      → All
          (λ (w : ℕ × List F). vector_of w.0 out.1.db.vectors ≡ vector_of w.0 st.db.vectors)
          st.db.vectors
        × (out.1.db.chunks ≡ st.db.chunks)
        × (out.1.db.notes ≡ st.db.notes)
  rows_stay st out ran =
      let (notes, chunks) =
        embed_pending-Keeps p dim read_fault save_fault
          (λ db. (db.notes ≡ st.db.notes) × (db.chunks ≡ st.db.chunks)) (λ i. Unit {0})
          (λ db o. All-any (missing db))
          (λ fault batch db known o.
            let (n, c) = rows-save_embeddings fault batch db in (n ∙ o.0, c ∙ o.1))
          st out (refl, refl) ran in
      (
        All-implies _ _ st.db.vectors (λ w h. vector_stays st out w.0 h.0 ran h.1)
            (rows_found st.db.vectors),
        chunks,
        notes,
      )

  -- Whatever fails, embedPending returns and keeps what is there: every chunk that has a vector has
  -- the same one afterwards, and the notes and the chunks are as they were.
  pub embed_pending_stays :
      (st : Embedding F S)
      → (out : Option Err × Embedding F S) × (embed_pending p dim read_fault save_fault st
          ≡ some out)
        × All
            (λ (w : ℕ × List F). vector_of w.0 out.1.db.vectors ≡ vector_of w.0 st.db.vectors)
            st.db.vectors
        × (out.1.db.chunks ≡ st.db.chunks)
        × (out.1.db.notes ≡ st.db.notes)
  embed_pending_stays st =
      let (out, ran, _) = embed_pending-Leaves p dim read_fault save_fault st in
      let (vectors, chunks, notes) = rows_stay st out ran in (out, ran, vectors, chunks, notes)
