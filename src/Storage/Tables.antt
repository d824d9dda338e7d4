-- ===== src/Storage/Tables.antt =====
-- Predicates on the rows of a table, and what a WHERE leaves of them.
use rag_ai_system.Prelude.{
  ℕ, zero, suc, ◌≡◌, refl, inl, inr, Bool, true, List, [], ◌∷◌, ◌++◌, ◌==◌, Bool-cases, take, drop,
  All, All-append,
}
use rag_ai_system.Storage.{keep_where, put_vector, put_vectors}

module _ {ℓ} {A : Type ℓ} where
  pub All-implies : (P Q : A → Type 0) (xs : List A) → ((x : A) → P x → Q x) → All P xs → All Q xs
  All-implies P Q [] f h = tt
  All-implies P Q (x ∷ xs) f (h, hs) = (f x h, All-implies P Q xs f hs)

  pub All-both :
      (P Q R : A → Type 0) (xs : List A)
      → ((x : A) → P x → Q x → R x)
      → All P xs
      → All Q xs
      → All R xs
  All-both P Q R [] f hp hq = tt
  All-both P Q R (x ∷ xs) f (p, hp) (q, hq) = (f x p q, All-both P Q R xs f hp hq)

  pub All-keep_where :
      (P : A → Type 0) (q : A → Bool) (xs : List A) → All P xs → All P (keep_where q xs)
  All-keep_where P q [] h = tt
  All-keep_where P q (x ∷ xs) (h, hs) = elim (Bool-cases (q x)) [
    | inl e ↦ rw e (h, All-keep_where P q xs hs)
    | inr e ↦ rw e (All-keep_where P q xs hs)
  ]

  pub keep_where-All : (q : A → Bool) (xs : List A) → All (λ x. q x ≡ true) (keep_where q xs)
  keep_where-All q [] = tt
  keep_where-All q (x ∷ xs) = elim (Bool-cases (q x)) [
    | inl e ↦ rw e (e, keep_where-All q xs)
    | inr e ↦ rw e (keep_where-All q xs)
  ]

  pub All-take : (P : A → Type 0) (n : ℕ) (xs : List A) → All P xs → All P (take n xs)
  All-take P zero xs h = tt
  All-take P (suc n) [] h = tt
  All-take P (suc n) (x ∷ xs) (h, hs) = (h, All-take P n xs hs)

  pub All-drop : (P : A → Type 0) (n : ℕ) (xs : List A) → All P xs → All P (drop n xs)
  All-drop P zero xs h = h
  All-drop P (suc n) [] h = tt
  All-drop P (suc n) (x ∷ xs) (h, hs) = All-drop P n xs hs

  -- Any two rows, the earlier one first, are so related.
  abbrev pub Apart : (A → A → Type 0) → List A → Type 0
  Apart R [] = Unit
  Apart R (x ∷ xs) = All (R x) xs × Apart R xs

  pub Apart-keep_where :
      (R : A → A → Type 0) (q : A → Bool) (xs : List A) → Apart R xs → Apart R (keep_where q xs)
  Apart-keep_where R q [] h = tt
  Apart-keep_where R q (x ∷ xs) (h, hs) = elim (Bool-cases (q x)) [
    | inl e ↦ rw e (All-keep_where (R x) q xs h, Apart-keep_where R q xs hs)
    | inr e ↦ rw e (Apart-keep_where R q xs hs)
  ]

  pub Apart-append :
      (R : A → A → Type 0) (xs ys : List A)
      → Apart R xs
      → Apart R ys
      → All (λ x. All (R x) ys) xs
      → Apart R (xs ++ ys)
  Apart-append R [] ys hx hy between = hy
  Apart-append R (x ∷ xs) ys (h, hx) hy (b, between) =
      (All-append (R x) xs ys h b, Apart-append R xs ys hx hy between)

  pub keep_where_same :
      (q r : A → Bool) (xs : List A) → All (λ x. q x ≡ r x) xs → keep_where q xs ≡ keep_where r xs
  keep_where_same q r [] h = refl
  keep_where_same q r (x ∷ xs) (h, hs) = rw (h, keep_where_same q r xs hs)

  pub Apart-suffix : (R : A → A → Type 0) (xs ys : List A) → Apart R (xs ++ ys) → Apart R ys
  Apart-suffix R [] ys h = h
  Apart-suffix R (x ∷ xs) ys (h, hs) = Apart-suffix R xs ys hs

module _ {F : Type 0} where
  pub All-put_vector :
      (P : ℕ → Type 0) (id : ℕ) (v : List F) (vs : List (ℕ × List F))
      → P id
      → All (λ w. P w.0) vs
      → All (λ w. P w.0) (put_vector id v vs)
  All-put_vector P id v [] h hs = (h, tt)
  All-put_vector P id v ((j, w) ∷ vs) h (k, hs) = elim (Bool-cases (j == id)) [
    | inl e ↦ rw e (h, hs)
    | inr e ↦ rw e (k, All-put_vector P id v vs h hs)
  ]

  pub All-put_vectors :
      (P : ℕ → Type 0) (batch vs : List (ℕ × List F))
      → All (λ w. P w.0) batch
      → All (λ w. P w.0) vs
      → All (λ w. P w.0) (put_vectors batch vs)
  All-put_vectors P [] vs h hs = hs
  All-put_vectors P ((id, v) ∷ batch) vs (h, hb) hs =
      All-put_vectors P batch (put_vector id v vs) hb (All-put_vector P id v vs h hs)
