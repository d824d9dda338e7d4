-- ===== src/Knowledge/Pending/Keeps.antt =====
-- embedPending of knowledge/knowledge.go keeps what each of its saves keeps.
use rag_ai_system.Prelude.{
  ℕ, zero, suc, ◌+◌, ◌≡◌, refl, subst, Option, none, some, List, [], ◌∷◌, length, take, drop, All,
  ℤ, pos, Result, ok, err, ok-injective,
}
use rag_ai_system.Backoff.{Err}
use rag_ai_system.Embed.{Provider, batch_size}
use rag_ai_system.Storage.{ChunkRow, Db, missing, pending_chunks, save_embeddings}
use rag_ai_system.Knowledge.Pending.{
  pending_batch, Embedding, pair_up, saved, save_part, embed_part, then_go, parts, round, rounds,
  embed_pending,
}
use rag_ai_system.Storage.Tables.{All-take, All-drop}

module _ {F S : Type 0} (p : Provider F S) (dim : ℤ) (read_fault save_fault : Db F → Option Err)
    (P : Db F → Type 0) (K : ℕ → Type 0)
    (waits : (db : Db F) → P db → All (λ c. K c.id) (missing db))
    (keeps : (fault : Option Err) (batch : List (ℕ × List F)) (db : Db F)
      → All (λ (v : ℕ × List F). K v.0) batch
      → P db
      → P (save_embeddings fault dim batch db).1) where
  abbrev Known : List ChunkRow → Type 0
  Known = All (λ c. K c.id)

  abbrev Always : Option (Option Err × Embedding F S) → Type 0
  Always none = Unit
  Always (some (e, st)) = P st.db

  pair_up-Known :
      (part : List ChunkRow) (vs : List (List F))
      → Known part
      → All (λ (v : ℕ × List F). K v.0) (pair_up p dim read_fault save_fault part vs)
  pair_up-Known [] vs h = tt
  pair_up-Known (c ∷ cs) [] h = tt
  pair_up-Known (c ∷ cs) (v ∷ vs) (h, hs) = (h, pair_up-Known cs vs hs)

  saved-Always :
      (n : ℕ) (st : Embedding F S) (s : S) (r : Option Err × Db F)
      → P r.1
      → Always (some (saved p dim read_fault save_fault n st s r))
  saved-Always n st s (none, db) h = h
  saved-Always n st s (some e, db) h = h

  save_part-Always :
      (part : List ChunkRow) (st : Embedding F S) (answer : Option (Result Err (List (List F)) × S))
      → Known part
      → P st.db
      → Always (save_part p dim read_fault save_fault part st answer)
  save_part-Always part st none k h = tt
  save_part-Always part st (some (err e, s)) k h = h
  save_part-Always part st (some (ok vectors, s)) k h = saved-Always (length part) st s _ (
      keeps (save_fault st.db) (pair_up p dim read_fault save_fault part vectors) st.db
        (pair_up-Known part vectors k) h)

  then_go-Always :
      (go : Embedding F S → Option (Option Err × Embedding F S))
      (first : Option (Option Err × Embedding F S))
      → Always first
      → ((st : Embedding F S) → P st.db → Always (go st))
      → Always (then_go p dim read_fault save_fault go first)
  then_go-Always go none h next = tt
  then_go-Always go (some (some e, st)) h next = h
  then_go-Always go (some (none, st)) h next = next st h

  parts-Always :
      (fuel : ℕ) (cs : List ChunkRow) (st : Embedding F S)
      → Known cs
      → P st.db
      → Always (parts p dim read_fault save_fault fuel cs st)
  unfolding parts embed_part
  parts-Always fuel [] st k h = h
  parts-Always zero (c ∷ cs) st k h = tt
  parts-Always (suc fuel) (c ∷ cs) st k h =
      then_go-Always
        (λ st'. parts p dim read_fault save_fault fuel (drop (batch_size p) (c ∷ cs)) st')
        (embed_part p dim read_fault save_fault (take (batch_size p) (c ∷ cs)) st)
        (save_part-Always (take (batch_size p) (c ∷ cs)) st _ (All-take _ (batch_size p) (c ∷ cs) k)
          h)
        (λ st' h'.
          parts-Always fuel (drop (batch_size p) (c ∷ cs)) st'
            (All-drop _ (batch_size p) (c ∷ cs) k) h')

  round-Always :
      (again : Embedding F S → Option (Option Err × Embedding F S)) (st : Embedding F S)
      (pending : Result Err (List ChunkRow))
      → ((cs : List ChunkRow) → pending ≡ ok cs → Known cs)
      → P st.db
      → ((st' : Embedding F S) → P st'.db → Always (again st'))
      → Always (round p dim read_fault save_fault again st pending)
  round-Always again st (err e) k h next = h
  round-Always again st (ok []) k h next = h
  round-Always again st (ok (c ∷ cs)) k h next =
      then_go-Always again _ (parts-Always (length (c ∷ cs)) (c ∷ cs) st (k (c ∷ cs) refl) h) next

  pending_chunks-Known :
      (fault : Option Err) (limit : ℤ) (db : Db F) (cs : List ChunkRow)
      → P db
      → pending_chunks fault limit db ≡ ok cs
      → Known cs
  unfolding pending_chunks
  pending_chunks-Known (some e) limit db cs h got = cc
  pending_chunks-Known none limit db cs h got =
      subst Known (ok-injective got) (All-take _ _ (missing db) (waits db h))

  rounds-Always :
      (fuel : ℕ) (st : Embedding F S)
      → P st.db
      → Always (rounds p dim read_fault save_fault fuel st)
  unfolding rounds
  rounds-Always zero st h = tt
  rounds-Always (suc fuel) st h =
      round-Always (λ st'. rounds p dim read_fault save_fault fuel st') st _
        (λ cs. pending_chunks-Known (read_fault st.db) (pos pending_batch) st.db cs h) h
        (rounds-Always fuel)

  -- What a save of pending chunks keeps, embedPending keeps, whatever is refused.
  pub embed_pending-Keeps :
      (st : Embedding F S) (out : Option Err × Embedding F S)
      → P st.db
      → embed_pending p dim read_fault save_fault st ≡ some out
      → P out.1.db
  unfolding embed_pending
  embed_pending-Keeps st out h ran =
      subst Always ran (rounds-Always (length (missing st.db) + 1) st h)
