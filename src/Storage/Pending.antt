-- ===== src/Storage/Pending.antt =====
-- What saving vectors does to the chunks that wait for one.
use rag_ai_system.Prelude.{
  ℕ, ◌≡◌, refl, sym, ap, ◌∙◌, inl, inr, Bool, true, not, ◌||◌, none, List, [], ◌∷◌, arith, ◌==◌,
  ==_iff, Bool-cases, ℤ,
}
use rag_ai_system.Storage.{
  Db, keep_where, has_vector, missing, put_vector, put_vectors, all_fit, save_embeddings,
}

keep_where_cong {ℓ} :
    {A : Type ℓ} (p q : A → Bool)
    → ((x : A) → p x ≡ q x)
    → (xs : List A) → keep_where p xs ≡ keep_where q xs
keep_where_cong p q h [] = refl
keep_where_cong p q h (x ∷ xs) = rw (h x, keep_where_cong p q h xs)

pub keep_where_all {ℓ} : {A : Type ℓ} (xs : List A) → keep_where (λ (x : A). true) xs ≡ xs
keep_where_all [] = refl
keep_where_all (x ∷ xs) = rw (keep_where_all xs)

keep_where_twice {ℓ} :
    {A : Type ℓ} (p q : A → Bool) (xs : List A)
    → keep_where (λ x. not (p x || q x)) xs
      ≡ keep_where (λ x. not (p x)) (keep_where (λ x. not (q x)) xs)
keep_where_twice p q [] = refl
keep_where_twice p q (x ∷ xs) = elim (Bool-cases (q x)) [
  | inl e ↦ elim (Bool-cases (p x)) [
    | inl k ↦ rw (e, k) (keep_where_twice p q xs)
    | inr k ↦ rw (e, k) (keep_where_twice p q xs)
  ]
  | inr e ↦ elim (Bool-cases (p x)) [
    | inl k ↦ rw (e, k) (keep_where_twice p q xs)
    | inr k ↦ rw (e, k) (ap (λ ys. x ∷ ys) (keep_where_twice p q xs))
  ]
]

module _ {F : Type 0} where
  has_vector-put_vector :
      (i id : ℕ) (v : List F) (vs : List (ℕ × List F))
      → has_vector i (put_vector id v vs) ≡ (id == i || has_vector i vs)
  has_vector-put_vector i id v [] = refl
  has_vector-put_vector i id v ((j, w) ∷ vs) = elim (Bool-cases (j == id)) [
    | inl e ↦ rw e (ground (arith, (==_iff j id).0 e))
    | inr e ↦ rw e (ground (arith, has_vector-put_vector i id v vs))
  ]

  has_vector-put_vectors :
      (i : ℕ) (batch vs : List (ℕ × List F))
      → has_vector i (put_vectors batch vs) ≡ (has_vector i batch || has_vector i vs)
  has_vector-put_vectors i [] vs = refl
  has_vector-put_vectors i ((id, v) ∷ batch) vs =
      ground (
        arith,
        has_vector-put_vectors i batch (put_vector id v vs),
        has_vector-put_vector i id v vs,
      )

  -- Saving a batch whose vectors have the space's dimension succeeds, and takes exactly the chunks of
  -- the batch from those that wait: what was saved is never asked for again, and nothing else is lost.
  pub save_embeddings-missing :
      (dim : ℤ) (batch : List (ℕ × List F)) (db : Db F)
      → all_fit dim batch ≡ true
      → let (e, db') = save_embeddings none dim batch db in
        (e ≡ none) × (missing db' ≡ keep_where (λ c. not (has_vector c.id batch)) (missing db))
  unfolding save_embeddings missing
  save_embeddings-missing dim [] db h = (refl, sym (keep_where_all (missing db)))
  save_embeddings-missing dim (cv ∷ batch) db h = rw h (
    refl,
    keep_where_cong _ _ (λ c. ap not (has_vector-put_vectors c.id (cv ∷ batch) db.vectors))
          db.chunks
        ∙ keep_where_twice (λ c. has_vector c.id (cv ∷ batch)) (λ c. has_vector c.id db.vectors)
            db.chunks,
  )
