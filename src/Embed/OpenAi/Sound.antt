-- ===== src/Embed/OpenAi/Sound.antt =====
-- The client keeps to the contract of Provider.
use rag_ai_system.Prelude.{
  ℕ, suc, ◌≡◌, refl, ap, ◌∙◌, subst, inl, inr, ◌&&◌, Option, List, [], ◌∷◌, arith, ltb, ◌==◌,
  ==_iff, Bool-cases, Option-cases, length, ℤ, to_nat, is_positive, Result, ok, err, Result-cases,
}
use rag_ai_system.Text.{Text, is_nil, trim_space}
use rag_ai_system.Backoff.{Err}
use rag_ai_system.Http.{Response, Exchange, unbuilt, unsent, answered, Post, is_ok, trim_slashes}
use rag_ai_system.Embed.{Kind}
use rag_ai_system.Embed.Contract.{HasDim, Fits, Builds}
use rag_ai_system.Embed.OpenAi.{
  openai_max_batch, Item, OpenAiAnswer, put_item, sort_items, with_vector, take_vectors, read_items,
  read_openai_body, read_openai, openai_request, openai_embed, new_openai,
}

module _ {F : Type 0} where
  length-put_item : (x : Item F) (xs : List (Item F)) → length (put_item x xs) ≡ suc (length xs)
  length-put_item x [] = refl
  length-put_item x (y ∷ ys) = ground (arith, length-put_item x ys)

  pub length-sort_items : (xs : List (Item F)) → length (sort_items xs) ≡ length xs
  unfolding sort_items
  length-sort_items [] = refl
  length-sort_items (x ∷ xs) = length-put_item x (sort_items xs) ∙ ap suc (length-sort_items xs)

  with_vector-Fits :
      (dim : ℤ) (n : ℕ) (v : List F) (r : Result Err (List (List F)))
      → HasDim dim v
      → Fits dim n r
      → Fits dim (suc n) (with_vector v r)
  with_vector-Fits dim n v (ok vs) this (same, rest) = (ap suc same, (this, rest))
  with_vector-Fits dim n v (err e) this rest = tt

  take_vectors-Fits : (dim : ℤ) (xs : List (Item F)) → Fits dim (length xs) (take_vectors dim xs)
  unfolding take_vectors
  take_vectors-Fits dim [] = (refl, tt)
  take_vectors-Fits dim (x ∷ xs) =
      elim (Bool-cases (is_positive dim && length x.embedding == to_nat dim)) [
        | inl e ↦ rw e (
            with_vector-Fits dim (length xs) x.embedding (take_vectors dim xs) e
              (take_vectors-Fits dim xs))
        | inr e ↦ rw e tt
      ]

module _ {F S : Type 0} (parse_time : Text → Option ℤ)
    (post : Post (Text × List Text) → S → Exchange × S)
    (decode : Text → Result Err (OpenAiAnswer F)) where
  read_items-Fits :
      (dim : ℤ) (n : ℕ) (a : OpenAiAnswer F)
      → Fits dim n (read_items parse_time post decode dim n a)
  read_items-Fits dim n a = elim (Option-cases a.error) [
    | inr (m, e) ↦ rw e tt
    | inl e ↦ elim (Bool-cases (length a.items == n)) [
      | inr k ↦ rw (e, k) tt
      | inl k ↦
          rw (e, k)
            (subst (λ m. Fits dim m (take_vectors dim (sort_items a.items)))
              (length-sort_items a.items ∙ (==_iff _ _).0 k)
              (take_vectors-Fits dim (sort_items a.items)))
    ]
  ]

  read_openai_body-Fits :
      (dim : ℤ) (n : ℕ) (r : Response) (raw : Text)
      → Fits dim n (read_openai_body parse_time post decode dim n r raw)
  read_openai_body-Fits dim n r raw = elim (Bool-cases (is_ok r.status)) [
    | inr e ↦ rw e tt
    | inl e ↦ elim (Result-cases (decode raw)) [
      | inl (x, k) ↦ rw (e, k) tt
      | inr (a, k) ↦ rw (e, k) (read_items-Fits dim n a)
    ]
  ]

  read_openai-Fits :
      (dim : ℤ) (n : ℕ) (got : Exchange) → Fits dim n (read_openai parse_time post decode dim n got)
  read_openai-Fits dim n (unbuilt e) = tt
  read_openai-Fits dim n (unsent e) = tt
  read_openai-Fits dim n (answered r) = elim (Result-cases r.body) [
    | inl (x, k) ↦ rw k tt
    | inr (raw, k) ↦ rw k (read_openai_body-Fits dim n r raw)
  ]

  openai_embed-Fits :
      (base_url api_key model : Text) (dim : ℤ) (texts : List Text) (kind : Kind) (s : S)
      → Fits dim
          (length texts)
          (openai_embed parse_time post decode base_url api_key model dim texts kind s).0
  unfolding openai_embed
  openai_embed-Fits base_url api_key model dim [] kind s = (refl, tt)
  openai_embed-Fits base_url api_key model dim (t ∷ ts) kind s =
      elim (Bool-cases (ltb openai_max_batch (length (t ∷ ts)))) [
        | inl e ↦ rw e tt
        | inr e ↦ rw e (
            read_openai-Fits dim (length (t ∷ ts))
              (post (openai_request parse_time post decode base_url api_key model kind (t ∷ ts))
                s).0)
      ]

  pub new_openai-Builds :
      (base_url api_key model : Text) (dim : ℤ)
      → Builds (new_openai parse_time post decode base_url api_key model dim)
  unfolding new_openai
  new_openai-Builds base_url api_key model dim = elim (Bool-cases (is_nil (trim_space base_url))) [
    | inl e ↦ rw e tt
    | inr e ↦ elim (Bool-cases (is_nil (trim_space model))) [
      | inl k ↦ rw (e, k) tt
      | inr k ↦ elim (Bool-cases (is_positive dim)) [
        | inl d ↦ rw (e, k, d) (openai_embed-Fits (trim_slashes base_url) api_key model dim)
        | inr d ↦ rw (e, k, d) tt
      ]
    ]
  ]
