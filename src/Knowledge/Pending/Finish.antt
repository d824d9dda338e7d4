-- ===== src/Knowledge/Pending/Finish.antt =====
-- embedPending returns, and without an error it leaves no chunk without a vector.
mod Tests
use mathlib.Core.Option.{some-injective}
use rag_ai_system.Prelude.{
  ℕ, zero, suc, ◌+◌, ◌-◌, ◌≤◌, ◌<◌, ◌≡◌, refl, sym, ap, ◌∙◌, subst, inl, inr, Bool, true, not,
  Option, none, some, List, [], ◌∷◌, map, arith, ==_iff, Bool-cases, Option-cases, length, take,
  drop, length-drop, length-map, ℤ, Result, ok, err,
}
use rag_ai_system.Backoff.{Err}
use rag_ai_system.Embed.{document, Provider, batch_size}
use rag_ai_system.Embed.Batches.{size_pos, Answers, batched-Returns}
use rag_ai_system.Storage.{
  ChunkRow, Db, keep_where, has_vector, missing, pending_chunks, all_fit, save_embeddings,
}
use rag_ai_system.Storage.Pending.{save_embeddings-missing}
use rag_ai_system.Knowledge.Pending.{
  pending_batch, Embedding, pair_up, saved, save_part, embed_part, then_go, parts, round, rounds,
  embed_pending,
}

module _ {F S : Type 0} (p : Provider F S) (dim : ℤ)
    (read_fault save_fault : Db F → Option Err) where
  -- What holds of the state that is left, unless there is an error.
  abbrev pub Ends : (Embedding F S → Type 0) → Option Err × Embedding F S → Type 0
  Ends P (some e, st) = Unit
  Ends P (none, st) = P st

  abbrev pub Leaves : (Embedding F S → Type 0) → Option (Option Err × Embedding F S) → Type 0
  Leaves P o = (out : Option Err × Embedding F S) × (o ≡ some out) × Ends P out

  abbrev waiting : Embedding F S → ℕ
  waiting st = length (missing st.db)

  then_go-Leaves :
      (go : Embedding F S → Option (Option Err × Embedding F S)) (P Q : Embedding F S → Type 0)
      (first : Option (Option Err × Embedding F S))
      → Leaves P first
      → ((st : Embedding F S) → P st → Leaves Q (go st))
      → Leaves Q (then_go p dim read_fault save_fault go first)
  then_go-Leaves go P Q none (out, e, h) next = cc
  then_go-Leaves go P Q (some (some x, st)) h next = ((some x, st), refl, tt)
  then_go-Leaves go P Q (some (none, st)) (out, e, h) next =
      next st (subst (Ends P) (sym (some-injective _ _ e)) h)

  saved-Leaves :
      (P : Db F → Type 0) (n : ℕ) (st : Embedding F S) (s : S) (r : Option Err × Db F)
      → (r.0 ≡ none → P r.1)
      → Leaves (λ st'. P st'.db) (some (saved p dim read_fault save_fault n st s r))
  saved-Leaves P n st s (none, db) h = (_, refl, h refl)
  saved-Leaves P n st s (some e, db) h = (_, refl, tt)

  pub missing-save_embeddings :
      (fault : Option Err) (batch : List (ℕ × List F)) (db : Db F)
      → (save_embeddings fault dim batch db).0 ≡ none
      → missing (save_embeddings fault dim batch db).1
        ≡ keep_where (λ c. not (has_vector c.id batch)) (missing db)
  unfolding save_embeddings
  missing-save_embeddings fault [] db h = (save_embeddings-missing dim [] db refl).1
  missing-save_embeddings none (cv ∷ batch) db h = elim (Bool-cases (all_fit dim (cv ∷ batch))) [
    | inl e ↦ (save_embeddings-missing dim (cv ∷ batch) db e).1
    | inr e ↦ cc (rw e at h)
  ]
  missing-save_embeddings (some x) (cv ∷ batch) db h =
      elim (Bool-cases (all_fit dim (cv ∷ batch))) [
        | inl e ↦ cc (rw e at h)
        | inr e ↦ cc (rw e at h)
      ]

  length-keep_where :
      (q : ChunkRow → Bool) (cs : List ChunkRow) → length (keep_where q cs) ≤ length cs
  length-keep_where q [] = omega arith
  length-keep_where q (c ∷ cs) = ground (arith, length-keep_where q cs)

  save_part-Leaves :
      (part : List ChunkRow) (st : Embedding F S) (answer : Result Err (List (List F)) × S)
      → Leaves
          (λ st'. waiting st' ≤ waiting st)
          (save_part p dim read_fault save_fault part st (some answer))
  save_part-Leaves part st (err e, s) = (_, refl, tt)
  save_part-Leaves part st (ok vectors, s) =
      saved-Leaves (λ db. length (missing db) ≤ waiting st) (length part) st s _
        (λ h. omega (
          arith,
          ap length (
              missing-save_embeddings (save_fault st.db)
                (pair_up p dim read_fault save_fault part vectors) st.db h),
          length-keep_where
              (λ c. not (has_vector c.id (pair_up p dim read_fault save_fault part vectors)))
              (missing st.db),
        ))

  embed_part-Leaves :
      (part : List ChunkRow) (st : Embedding F S)
      → Leaves (λ st'. waiting st' ≤ waiting st) (embed_part p dim read_fault save_fault part st)
  unfolding embed_part
  embed_part-Leaves part st =
      let (answer, e, _) = batched-Returns p document (map (λ c. c.text) part) st.provider in
      rw e (save_part-Leaves part st answer)

  without_first :
      (c : ChunkRow) (rest : List ChunkRow) (batch : List (ℕ × List F))
      → has_vector c.id batch ≡ true
      → length (keep_where (λ d. not (has_vector d.id batch)) (c ∷ rest)) < length (c ∷ rest)
  without_first c rest batch h =
      rw h (omega (arith, length-keep_where (λ d. not (has_vector d.id batch)) rest))

  save_first-Leaves :
      (c : ChunkRow) (part rest : List ChunkRow) (st : Embedding F S)
      (answer : Result Err (List (List F)) × S)
      → missing st.db ≡ c ∷ rest
      → Answers p document (length (c ∷ part)) answer.0
      → Leaves
          (λ st'. waiting st' < waiting st)
          (save_part p dim read_fault save_fault (c ∷ part) st (some answer))
  save_first-Leaves c part rest st (err e, s) found same = (_, refl, tt)
  save_first-Leaves c part rest st (ok [], s) found same = absurd (omega (arith, same))
  save_first-Leaves c part rest st (ok (v ∷ vs), s) found same =
      let batch = pair_up p dim read_fault save_fault (c ∷ part) (v ∷ vs) in
      saved-Leaves (λ db. length (missing db) < waiting st) (length (c ∷ part)) st s _
        (λ h.
          let left = missing-save_embeddings (save_fault st.db) batch st.db h in
          let has : has_vector c.id batch ≡ true = rw ((==_iff c.id c.id).1 refl) refl in
          omega (
            arith,
            ap length (left ∙ ap (keep_where (λ d. not (has_vector d.id batch))) found),
            ap length found,
            without_first c rest batch has,
          ))

  embed_first-Leaves :
      (c : ChunkRow) (part rest : List ChunkRow) (st : Embedding F S)
      → missing st.db ≡ c ∷ rest
      → Leaves
          (λ st'. waiting st' < waiting st)
          (embed_part p dim read_fault save_fault (c ∷ part) st)
  unfolding embed_part
  embed_first-Leaves c part rest st found =
      let texts = map (λ (d : ChunkRow). d.text) (c ∷ part) in
      let (answer, e, same) = batched-Returns p document texts st.provider in
      rw e (
        save_first-Leaves c part rest st answer found
          (subst (λ n. Answers p document n answer.0) (length-map (λ d. d.text) (c ∷ part)) same))

  take_first :
      (k : ℕ) (c : ChunkRow) (cs : List ChunkRow) → 0 < k → take k (c ∷ cs) ≡ c ∷ take (k - 1) cs
  take_first zero c cs h = absurd (omega arith)
  take_first (suc k) c cs h = ap (λ n. c ∷ take n cs) (omega arith)

  parts-Leaves :
      (fuel n : ℕ) (cs : List ChunkRow) (st : Embedding F S)
      → length cs ≤ fuel
      → waiting st ≤ n
      → Leaves (λ st'. waiting st' ≤ n) (parts p dim read_fault save_fault fuel cs st)
  unfolding parts
  parts-Leaves fuel n [] st enough h = (_, refl, h)
  parts-Leaves zero n (c ∷ cs) st enough h = absurd (omega arith)
  parts-Leaves (suc fuel) n (c ∷ cs) st enough h =
      then_go-Leaves
        (λ st'. parts p dim read_fault save_fault fuel (drop (batch_size p) (c ∷ cs)) st')
        (λ st'. waiting st' ≤ waiting st) (λ st'. waiting st' ≤ n)
        (embed_part p dim read_fault save_fault (take (batch_size p) (c ∷ cs)) st)
        (embed_part-Leaves (take (batch_size p) (c ∷ cs)) st)
        (λ st' less.
          parts-Leaves fuel n (drop (batch_size p) (c ∷ cs)) st'
            (omega (arith, size_pos p document, length-drop (batch_size p) (c ∷ cs)))
            (omega (arith, less)))

  below_suc :
      (n m : ℕ) (o : Option (Option Err × Embedding F S))
      → n + 1 ≤ m
      → Leaves (λ out. waiting out ≤ n) o
      → Leaves (λ out. waiting out < m) o
  below_suc n m o h ((some e, st), ran, ends) = ((some e, st), ran, tt)
  below_suc n m o h ((none, st), ran, ends) = ((none, st), ran, omega arith)

  parts-Leaves-lt :
      (fuel : ℕ) (cs : List ChunkRow) (st st' : Embedding F S)
      → length cs ≤ fuel
      → waiting st' < waiting st
      → Leaves (λ out. waiting out < waiting st) (parts p dim read_fault save_fault fuel cs st')
  parts-Leaves-lt fuel cs st st' enough less =
      below_suc (waiting st - 1) (waiting st) (parts p dim read_fault save_fault fuel cs st')
        (omega arith) (parts-Leaves fuel (waiting st - 1) cs st' enough (omega arith))

  parts_first :
      (c : ChunkRow) (cs rest : List ChunkRow) (st : Embedding F S)
      → missing st.db ≡ c ∷ rest
      → Leaves
          (λ st'. waiting st' < waiting st)
          (parts p dim read_fault save_fault (length (c ∷ cs)) (c ∷ cs) st)
  unfolding parts
  parts_first c cs rest st found =
      let k = batch_size p in
      then_go-Leaves (λ st'. parts p dim read_fault save_fault (length cs) (drop k (c ∷ cs)) st')
        (λ st'. waiting st' < waiting st) (λ st'. waiting st' < waiting st)
        (embed_part p dim read_fault save_fault (take k (c ∷ cs)) st)
        (rw (take_first k c cs (size_pos p document))
          (embed_first-Leaves c (take (k - 1) cs) rest st found))
        (λ st' less.
          parts-Leaves-lt (length cs) (drop k (c ∷ cs)) st st'
            (omega (arith, size_pos p document, length-drop k (c ∷ cs))) less)

  round-Leaves :
      (again : Embedding F S → Option (Option Err × Embedding F S)) (st : Embedding F S)
      (ms : List ChunkRow)
      → missing st.db ≡ ms
      → ((st' : Embedding F S)
          → waiting st' < waiting st
          → Leaves (λ out. missing out.db ≡ []) (again st'))
      → Leaves
          (λ out. missing out.db ≡ [])
          (round p dim read_fault save_fault again st (ok (take pending_batch ms)))
  round-Leaves again st [] found next = (_, refl, found)
  round-Leaves again st (c ∷ ms) found next =
      then_go-Leaves again (λ st'. waiting st' < waiting st) (λ out. missing out.db ≡ [])
        (parts p dim read_fault save_fault (length (c ∷ take 127 ms)) (c ∷ take 127 ms) st)
        (parts_first c (take 127 ms) ms st found) next

  rounds-Leaves :
      (fuel : ℕ) (st : Embedding F S)
      → waiting st < fuel
      → Leaves (λ out. missing out.db ≡ []) (rounds p dim read_fault save_fault fuel st)
  unfolding rounds pending_chunks
  rounds-Leaves zero st h = absurd (omega arith)
  rounds-Leaves (suc fuel) st h = elim (Option-cases (read_fault st.db)) [
    | inr (e, k) ↦ rw (k, round) ((some _, st), refl, tt)
    | inl k ↦
        rw (k, round)
          (round-Leaves (λ st'. rounds p dim read_fault save_fault fuel st') st (missing st.db) refl
            (λ st' less. rounds-Leaves fuel st' (omega (arith, less))))
  ]

  -- Whatever the provider answers and the database refuses, embedPending returns, and when it reports
  -- no error every chunk has a vector.
  pub embed_pending-Leaves :
      (st : Embedding F S)
      → Leaves (λ out. missing out.db ≡ []) (embed_pending p dim read_fault save_fault st)
  unfolding embed_pending
  embed_pending-Leaves st = rounds-Leaves (length (missing st.db) + 1) st (omega arith)
