-- ===== src/Storage/Spaces/Exhausted.antt =====
-- What each call of EnsureSpace takes from the identity of embedding_spaces.
use rag_ai_system.Prelude.{
  ℕ, zero, suc, ◌+◌, ◌<◌, ◌≡◌, refl, inl, inr, none, List, arith, leb, leb→gt, not_leb, Bool-cases,
  Result, ok, err,
}
use rag_ai_system.Text.{Text, codes}
use rag_ai_system.Backoff.{Err, plain}
use rag_ai_system.Embed.{Space, validate, slug}
use rag_ai_system.Storage.Spaces.{
  SpaceRef, Catalog, last_id, ensure_failed, register_row, create_storage, insert_space,
  ensure_space,
}
use rag_ai_system.Storage.Spaces.Again.{quiet}

-- So many starts, each of which calls EnsureSpace without a failing statement.
unfoldable pub starts : (Space → Text) → Space → ℕ → Catalog → Catalog
unfolding ensure_space
starts slug space zero c = c
starts slug space (suc n) c = starts slug space n (ensure_space slug quiet space c).1

create_storage-next_id :
    (space : Space) (c : Catalog) (made : Result Err (SpaceRef × List SpaceRef))
    → (create_storage quiet space c made).1.next_id ≡ c.next_id
create_storage-next_id space c (err e) = refl
create_storage-next_id space c (ok (r, rows)) = refl

ensure_space-next_id :
    (slug : Space → Text) (space : Space) (c : Catalog) (n : ℕ)
    → validate space ≡ none
    → last_id < c.next_id + suc n
    → last_id < (ensure_space slug quiet space c).1.next_id + n
unfolding ensure_space insert_space
ensure_space-next_id slug space c n v h = elim (Bool-cases (leb c.next_id last_id)) [
  | inl k ↦
      let drawn : (ensure_space slug quiet space c).1.next_id ≡ c.next_id + 1 =
        rw (v, k, ensure_space, insert_space)
          (create_storage-next_id space (record c { next_id = c.next_id + 1 })
            (register_row slug space c)) in
      rw drawn (omega (arith, h))
  | inr k ↦
      let kept : (ensure_space slug quiet space c).1.next_id ≡ c.next_id =
        rw (v, k, ensure_space, insert_space) refl in
      rw kept (omega (arith, leb→gt c.next_id last_id k))
]

starts-next_id :
    (slug : Space → Text) (space : Space) (n : ℕ) (c : Catalog)
    → validate space ≡ none
    → last_id < c.next_id + n
    → last_id < (starts slug space n c).next_id
unfolding starts
starts-next_id slug space zero c v h = omega (arith, h)
starts-next_id slug space (suc n) c v h =
    starts-next_id slug space n (ensure_space slug quiet space c).1 v
      (ensure_space-next_id slug space c n v h)

-- The ids run out: each start draws one, also for a space that is registered, and after so many starts
-- that the SMALLINT identity has none left EnsureSpace fails, though no statement is at fault.
pub starts_exhaust_ids :
    (slug : Space → Text) (space : Space) (n : ℕ) (c : Catalog)
    → validate space ≡ none
    → last_id < c.next_id + n
    → ensure_space slug quiet space (starts slug space n c) ≡ (
      err (ensure_failed (plain (codes "nextval: reached maximum value of sequence"))),
      starts slug space n c,
    )
unfolding ensure_space insert_space
starts_exhaust_ids slug space n c v h =
    rw (v, not_leb _ _ (starts-next_id slug space n c v h), ensure_space, insert_space) refl
