-- ===== src/Embed/Batches.antt =====
-- Batched returns, keeps to the provider's limit, and gives one vector for each text, in order.
use rag_ai_system.Prelude.{
  ℕ, zero, suc, ◌+◌, ◌≤◌, ◌<◌, ◌≡◌, refl, ap, ◌∙◌, subst, inl, inr, Option, some, List, [], ◌∷◌,
  ◌++◌, map, append-nil, append_assoc, arith, ◌==◌, ==_iff, Bool-cases, length, take, drop,
  length-append, length-take, length-drop, length-map, pos, negsuc, to_nat, Result, ok, err,
}
use rag_ai_system.Text.{Text}
use rag_ai_system.Backoff.{Err, positive_or}
use rag_ai_system.Embed.{Kind, Provider, batch_size, take_part, batches, batched}

module _ {F S : Type 0} (p : Provider F S) (kind : Kind) where
  pub size_pos : 0 < batch_size p
  size_pos = elim p.max_batch as (λ n. 0 < to_nat (positive_or n (pos 1))) [
    | pos zero ↦ omega arith
    | pos (suc n) ↦ omega arith
    | negsuc n ↦ omega arith
  ]

  -- The result, if it is one, has as many vectors as asked for.
  abbrev pub Answers : ℕ → Result Err (List (List F)) → Type 0
  Answers n (ok vectors) = length vectors ≡ n
  Answers n (err e) = Unit

  abbrev pub Returns : ℕ → Option (Result Err (List (List F)) × S) → Type 0
  Returns n o = (out : Result Err (List (List F)) × S) × (o ≡ some out) × Answers n out.0

  take_part-Returns :
      (batch : List Text) (out : List (List F))
      (again : List (List F) → S → Option (Result Err (List (List F)) × S))
      (answer : Result Err (List (List F)) × S) (n : ℕ)
      → ((part : List (List F)) (s : S)
          → length part ≡ length batch
          → Returns n (again (out ++ part) s))
      → Returns n (take_part batch out again answer)
  take_part-Returns batch out again (err e, s) n next = ((err _, s), refl, tt)
  take_part-Returns batch out again (ok part, s) n next =
      elim (Bool-cases (length part == length batch)) [
        | inl same ↦ rw (same, take_part) (next part s ((==_iff _ _).0 same))
        | inr other ↦ rw (other, take_part) ((err _, s), refl, tt)
      ]

  batches-Returns :
      (fuel : ℕ) (texts : List Text) (out : List (List F)) (s : S)
      → length texts ≤ fuel
      → Returns (length out + length texts) (batches fuel p texts kind out s)
  unfolding batches
  batches-Returns fuel [] out s h = ((ok out, s), refl, omega arith)
  batches-Returns zero (t ∷ ts) out s h = absurd (omega arith)
  batches-Returns (suc fuel) (t ∷ ts) out s h =
      let k = batch_size p in
      take_part-Returns (take k (t ∷ ts)) out
        (λ out' s'. batches fuel p (drop k (t ∷ ts)) kind out' s')
        (p.embed (take k (t ∷ ts)) kind s) (length out + length (t ∷ ts))
        (λ part s' same.
          subst (λ n. Returns n (batches fuel p (drop k (t ∷ ts)) kind (out ++ part) s'))
            (omega
              (arith, same, length-append out part, length-take k (t ∷ ts), length-drop k (t ∷ ts)))
            (batches-Returns fuel (drop k (t ∷ ts)) (out ++ part) s'
              (omega (arith, size_pos, length-drop k (t ∷ ts)))))

  -- For every provider Batched returns, and a successful result has one vector for each text.
  pub batched-Returns :
      (texts : List Text) (s : S) → Returns (length texts) (batched p texts kind s)
  unfolding batched
  batched-Returns texts s =
      subst (λ n. Returns n (batches (length texts) p texts kind [] s)) (omega arith)
        (batches-Returns (length texts) texts [] s (omega arith))

  -- Within its limit the provider answers every text by itself.
  abbrev pub Pointwise : (Text → List F) → Type 0
  Pointwise f =
      (batch : List Text) (s : S)
      → length batch ≤ batch_size p
      → (p.embed batch kind s).0 ≡ ok (map f batch)

  map-take-drop :
      (f : Text → List F) (k : ℕ) (ts : List Text)
      → map f (take k ts) ++ map f (drop k ts) ≡ map f ts
  map-take-drop f zero ts = refl
  map-take-drop f (suc k) [] = refl
  map-take-drop f (suc k) (t ∷ ts) = rw (map-take-drop f k ts)

  abbrev pub Gives : List (List F) → Option (Result Err (List (List F)) × S) → Type 0
  Gives vectors o = (s' : S) × (o ≡ some (ok vectors, s'))

  batches-Pointwise :
      (f : Text → List F)
      → Pointwise f
      → (fuel : ℕ) (texts : List Text) (out : List (List F)) (s : S) → length texts ≤ fuel
      → Gives (out ++ map f texts) (batches fuel p texts kind out s)
  unfolding batches
  batches-Pointwise f h fuel [] out s l = (s, rw (append-nil out))
  batches-Pointwise f h zero (t ∷ ts) out s l = absurd (omega arith)
  batches-Pointwise f h (suc fuel) (t ∷ ts) out s l =
      let k = batch_size p in
      let batch = take k (t ∷ ts) in
      let s1 = (p.embed batch kind s).1 in
      let (s', gives) =
        batches-Pointwise f h fuel (drop k (t ∷ ts)) (out ++ map f batch) s1
          (omega (arith, size_pos, length-drop k (t ∷ ts))) in
      (
        s',
        rw (h batch s (omega (arith, length-take k (t ∷ ts))), take_part)
            (rw ((==_iff _ _).1 (length-map f batch), take_part)
              (gives
                ∙ ap (λ vs. some (ok vs, s'))
                    (append_assoc out (map f batch) (map f (drop k (t ∷ ts)))
                      ∙ ap (λ vs. out ++ vs) (map-take-drop f k (t ∷ ts))))),
      )

  -- Where the provider answers each text by itself up to its batch limit, Batched gives what one call
  -- without a limit would give, in input order: no call passes the limit.
  pub batched-Pointwise :
      (f : Text → List F)
      → Pointwise f
      → (texts : List Text) (s : S) → Gives (map f texts) (batched p texts kind s)
  unfolding batched
  batched-Pointwise f h texts s = batches-Pointwise f h (length texts) texts [] s (omega arith)
