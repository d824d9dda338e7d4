-- ===== src/Knowledge/Pending/Counts.antt =====
-- The counter of embedPending of knowledge/knowledge.go.
use rag_ai_system.Prelude.{
  ℕ, zero, suc, ◌+◌, ◌≡◌, refl, sym, ap, ◌∙◌, subst, inl, inr, false, not, Option, none, some, List,
  [], ◌∷◌, ◌++◌, map, append_assoc, arith, ◌==◌, ==_iff, Bool-cases, Option-cases, length, take,
  drop, length-append, append-take-drop, length-map, ℤ, Result, ok, err,
}
use rag_ai_system.Backoff.{Err}
use rag_ai_system.Embed.{document, Provider, batch_size}
use rag_ai_system.Embed.Batches.{Answers, batched-Returns}
use rag_ai_system.Storage.{
  ChunkRow, Db, keep_where, has_vector, missing, pending_chunks, all_fit, save_embeddings,
}
use rag_ai_system.Storage.Tables.{
  All-implies, Apart, Apart-keep_where, keep_where_same, Apart-suffix,
}
use rag_ai_system.Knowledge.Pending.{
  pending_batch, Embedding, pair_up, saved, save_part, embed_part, then_go, parts, round, rounds,
  embed_pending,
}
use rag_ai_system.Storage.Pending.{keep_where_all}
use rag_ai_system.Knowledge.Pending.Finish.{Ends, missing-save_embeddings, embed_pending-Leaves}

-- Two chunks with different ids.
abbrev pub OtherId : ChunkRow → ChunkRow → Type 0
OtherId c d = (c.id == d.id) ≡ false

module _ {F S : Type 0} (p : Provider F S) (dim : ℤ)
    (read_fault save_fault : Db F → Option Err) where
  -- The pairs of a part take its chunks from the list, and no others.
  keep_where-pair_up :
      (part rest : List ChunkRow) (vs : List (List F))
      → length vs ≡ length part
      → Apart OtherId (part ++ rest)
      → keep_where
          (λ c. not (has_vector c.id (pair_up p dim read_fault save_fault part vs)))
          (part ++ rest)
        ≡ rest
  keep_where-pair_up [] rest vs same apart = keep_where_all rest
  keep_where-pair_up (c ∷ part) rest [] same apart = absurd (omega (arith, same))
  keep_where-pair_up (c ∷ part) rest (v ∷ vs) same (other, apart) =
      let batch = pair_up p dim read_fault save_fault part vs in
      rw ((==_iff c.id c.id).1 refl) (
        keep_where_same _ (λ d. not (has_vector d.id batch)) (part ++ rest)
          (All-implies (OtherId c) _ (part ++ rest) (λ d h. rw h refl) other)
        ∙ keep_where-pair_up part rest vs (omega (arith, same)) apart)

  -- After a part: without an error just `rest` waits, and with one the counter still adds up.
  abbrev After : List ChunkRow → ℕ → Option (Option Err × Embedding F S) → Type 0
  After rest total none = Unit
  After rest total (some (some e, st)) = st.done + length (missing st.db) ≡ total
  After rest total (some (none, st)) = (missing st.db ≡ rest) × (st.done + length rest ≡ total)

  refused_save :
      (fault : Option Err) (batch : List (ℕ × List F)) (db : Db F) (e : Err)
      → (save_embeddings fault dim batch db).0 ≡ some e
      → (save_embeddings fault dim batch db).1 ≡ db
  unfolding save_embeddings
  refused_save fault [] db e h = refl
  refused_save none (cv ∷ batch) db e h = elim (Bool-cases (all_fit dim (cv ∷ batch))) [
    | inl f ↦ cc (rw f at h)
    | inr f ↦ rw f refl
  ]
  refused_save (some x) (cv ∷ batch) db e h = elim (Bool-cases (all_fit dim (cv ∷ batch))) [
    | inl f ↦ rw f refl
    | inr f ↦ rw f refl
  ]

  saved-After :
      (part rest : List ChunkRow) (total : ℕ) (st : Embedding F S) (s : S) (r : Option Err × Db F)
      → st.done + length (part ++ rest) ≡ total
      → missing st.db ≡ part ++ rest
      → (r.0 ≡ none → missing r.1 ≡ rest)
      → ((e : Err) → r.0 ≡ some e → r.1 ≡ st.db)
      → After rest total (some (saved p dim read_fault save_fault (length part) st s r))
  saved-After part rest total st s (none, db) sum found done same =
      (done refl, omega (arith, sum, length-append part rest))
  saved-After part rest total st s (some e, db) sum found done same = rw (same e refl, found) sum

  save_part-After :
      (part rest : List ChunkRow) (total : ℕ) (st : Embedding F S)
      (answer : Result Err (List (List F)) × S)
      → st.done + length (part ++ rest) ≡ total
      → missing st.db ≡ part ++ rest
      → Apart OtherId (part ++ rest)
      → Answers p document (length part) answer.0
      → After rest total (save_part p dim read_fault save_fault part st (some answer))
  save_part-After part rest total st (err e, s) sum found apart same = rw found sum
  save_part-After part rest total st (ok vs, s) sum found apart same =
      let batch = pair_up p dim read_fault save_fault part vs in
      saved-After part rest total st s _ sum found
        (λ k.
          missing-save_embeddings p dim read_fault save_fault (save_fault st.db) batch st.db k
          ∙ ap (keep_where (λ c. not (has_vector c.id batch))) found
          ∙ keep_where-pair_up part rest vs same apart)
        (refused_save (save_fault st.db) batch st.db)

  embed_part-After :
      (part rest : List ChunkRow) (total : ℕ) (st : Embedding F S)
      → st.done + length (part ++ rest) ≡ total
      → missing st.db ≡ part ++ rest
      → Apart OtherId (part ++ rest)
      → After rest total (embed_part p dim read_fault save_fault part st)
  unfolding embed_part
  embed_part-After part rest total st sum found apart =
      let (answer, e, same) = batched-Returns p document (map (λ c. c.text) part) st.provider in
      rw e (
        save_part-After part rest total st answer sum found apart
          (subst (λ n. Answers p document n answer.0) (length-map (λ c. c.text) part) same))

  -- What an outcome says of the counter and of the chunks that wait.
  abbrev Adds : ℕ → Option (Option Err × Embedding F S) → Type 0
  Adds total none = Unit
  Adds total (some (e, st)) = st.done + length (missing st.db) ≡ total

  then_go-After :
      (go : Embedding F S → Option (Option Err × Embedding F S)) (rest later : List ChunkRow)
      (total : ℕ) (first : Option (Option Err × Embedding F S))
      → After rest total first
      → ((st : Embedding F S)
          → missing st.db ≡ rest
          → st.done + length rest ≡ total
          → After later total (go st))
      → After later total (then_go p dim read_fault save_fault go first)
  then_go-After go rest later total none h next = tt
  then_go-After go rest later total (some (some e, st)) h next = h
  then_go-After go rest later total (some (none, st)) (found, sum) next = next st found sum

  parts-After :
      (fuel : ℕ) (cs rest : List ChunkRow) (total : ℕ) (st : Embedding F S)
      → st.done + length (cs ++ rest) ≡ total
      → missing st.db ≡ cs ++ rest
      → Apart OtherId (cs ++ rest)
      → After rest total (parts p dim read_fault save_fault fuel cs st)
  unfolding parts
  parts-After fuel [] rest total st sum found apart = (found, sum)
  parts-After zero (c ∷ cs) rest total st sum found apart = tt
  parts-After (suc fuel) (c ∷ cs) rest total st sum found apart =
      let k = batch_size p in
      let split : take k (c ∷ cs) ++ (drop k (c ∷ cs) ++ rest) ≡ (c ∷ cs) ++ rest =
        sym (append_assoc (take k (c ∷ cs)) (drop k (c ∷ cs)) rest)
        ∙ ap (λ xs. xs ++ rest) (append-take-drop k (c ∷ cs)) in
      then_go-After (λ st'. parts p dim read_fault save_fault fuel (drop k (c ∷ cs)) st')
        (drop k (c ∷ cs) ++ rest) rest total
        (embed_part p dim read_fault save_fault (take k (c ∷ cs)) st)
        (embed_part-After (take k (c ∷ cs)) (drop k (c ∷ cs) ++ rest) total st
          (ap (λ xs. st.done + length xs) split ∙ sum) (found ∙ sym split)
          (subst (Apart OtherId) (sym split) apart))
        (λ st' found' sum'. parts-After fuel (drop k (c ∷ cs)) rest total st' sum' found' (
          Apart-suffix OtherId (take k (c ∷ cs)) (drop k (c ∷ cs) ++ rest)
            (subst (Apart OtherId) (sym split) apart)))

  then_go-Adds :
      (go : Embedding F S → Option (Option Err × Embedding F S)) (rest : List ChunkRow) (total : ℕ)
      (first : Option (Option Err × Embedding F S))
      → After rest total first
      → ((st : Embedding F S)
          → missing st.db ≡ rest
          → st.done + length (missing st.db) ≡ total
          → Adds total (go st))
      → Adds total (then_go p dim read_fault save_fault go first)
  then_go-Adds go rest total none h next = tt
  then_go-Adds go rest total (some (some e, st)) h next = h
  then_go-Adds go rest total (some (none, st)) (found, sum) next = next st found (rw found sum)

  round-Adds :
      (again : Embedding F S → Option (Option Err × Embedding F S)) (cs rest : List ChunkRow)
      (total : ℕ) (st : Embedding F S)
      → st.done + length (missing st.db) ≡ total
      → missing st.db ≡ cs ++ rest
      → Apart OtherId (cs ++ rest)
      → ((st' : Embedding F S)
          → missing st'.db ≡ rest
          → st'.done + length (missing st'.db) ≡ total
          → Adds total (again st'))
      → Adds total (round p dim read_fault save_fault again st (ok cs))
  round-Adds again [] rest total st sum found apart next = sum
  round-Adds again (c ∷ cs) rest total st sum found apart next =
      then_go-Adds again rest total _
        (parts-After (length (c ∷ cs)) (c ∷ cs) rest total st
          (subst (λ xs. st.done + length xs ≡ total) found sum) found apart)
        next

  rounds-Adds :
      (fuel total : ℕ) (st : Embedding F S)
      → st.done + length (missing st.db) ≡ total
      → Apart OtherId (missing st.db)
      → Adds total (rounds p dim read_fault save_fault fuel st)
  unfolding rounds pending_chunks
  rounds-Adds zero total st sum apart = tt
  rounds-Adds (suc fuel) total st sum apart = elim (Option-cases (read_fault st.db)) [
    | inr (e, k) ↦ rw (k, round) sum
    | inl k ↦
        let cs = take pending_batch (missing st.db) in
        let rest = drop pending_batch (missing st.db) in
        let split = append-take-drop pending_batch (missing st.db) in
        let apart' = subst (Apart OtherId) (sym split) apart in
        rw (k, round)
          (round-Adds (λ st'. rounds p dim read_fault save_fault fuel st') cs rest total st sum
            (sym split) apart'
            (λ st' found sum'.
              rounds-Adds fuel total st' sum'
                (subst (Apart OtherId) (sym found) (Apart-suffix OtherId cs rest apart'))))
  ]

  ends_complete :
      (out : Option Err × Embedding F S)
      → Ends p dim read_fault save_fault (λ st. missing st.db ≡ []) out
      → out.0 ≡ none
      → missing out.1.db ≡ []
  ends_complete (none, st) h e = h
  ends_complete (some x, st) h e = cc

  -- If no two chunks have one id, embedPending returns, whatever the provider answers and the database
  -- refuses. Its counter has then grown by just the number of chunks that got a vector, also when it
  -- fails, and when it reports no error every chunk has one.
  pub embed_pending_counts :
      (st : Embedding F S)
      → Apart OtherId st.db.chunks
      → (out : Option Err × Embedding F S) × (embed_pending p dim read_fault save_fault st
          ≡ some out)
        × (out.1.done + length (missing out.1.db) ≡ st.done + length (missing st.db))
        × (out.0 ≡ none → missing out.1.db ≡ [])
  unfolding embed_pending missing
  embed_pending_counts st apart =
      let (out, ran, ends) = embed_pending-Leaves p dim read_fault save_fault st in
      let total = st.done + length (missing st.db) in
      let adds =
        rounds-Adds (length (missing st.db) + 1) total st refl
          (Apart-keep_where OtherId _ st.db.chunks apart) in
      (out, ran, subst (Adds total) ran adds, ends_complete out ends)
