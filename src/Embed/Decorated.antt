-- ===== src/Embed/Decorated.antt =====
-- The decorators keep to the contract of the provider that they wrap.
use rag_ai_system.Prelude.{
  ℕ, refl, Bool, true, false, Option, none, some, List, [], ◌∷◌, length, ℤ, pos, Result, ok, err,
}
use rag_ai_system.Text.{Text}
use rag_ai_system.Backoff.{Err, Policy, positive_or, World, retry}
use rag_ai_system.Backoff.Success.{Ensures, Succeeds, retry-Ensures}
use rag_ai_system.Embed.{
  Kind, Provider, keep, deliver, beside, with_retry, after_wait, limited, with_rate_limit,
}
use rag_ai_system.Embed.Contract.{Fits, Meets}

module _ {F S : Type 0} where
  abbrev Kept : ℤ → ℕ → S × List (List F) → Type 0
  Kept dim n t = Fits dim n (ok t.1)

  keep-Succeeds :
      (w : World (S × List (List F))) (dim : ℤ) (n : ℕ)
      (op : S × List (List F) → Option Err × (S × List (List F)))
      (r : Result Err (List (List F)) × S)
      → Fits dim n r.0
      → Succeeds w (Kept dim n) op (keep r)
  keep-Succeeds w dim n op (ok vectors, s) h = h
  keep-Succeeds w dim n op (err e, s) h = tt

  deliver-Fits :
      (w : World (S × List (List F))) (dim : ℤ) (n : ℕ)
      (op : S × List (List F) → Option Err × (S × List (List F)))
      (o : Option (Option Err × (S × List (List F)))) (s : S)
      → Ensures w (Kept dim n) op o
      → Fits dim n (deliver o s).0
  deliver-Fits w dim n op none s h = tt
  deliver-Fits w dim n op (some (none, (s', out))) s h = h
  deliver-Fits w dim n op (some (some e, (s', out))) s h = tt

  with_retry-Meets :
      (w : World S) (policy : Policy) (p : Provider F S) → Meets p → Meets (with_retry w policy p)
  unfolding with_retry
  with_retry-Meets w policy p meets texts kind s =
      let op : S × List (List F) → Option Err × (S × List (List F)) =
        λ t. keep (p.embed texts kind t.0) in
      deliver-Fits (beside w) p.space.dim (length texts) op (retry (beside w) policy op (s, [])) s (
        retry-Ensures (beside w) (Kept p.space.dim (length texts)) op
          (λ t.
            keep-Succeeds (beside w) p.space.dim (length texts) op (p.embed texts kind t.0)
              (meets texts kind t.0))
          policy (s, []))

  limited-Fits :
      (wait : S → Option Err × S) (p : Provider F S)
      → Meets p
      → (texts : List Text) (kind : Kind) (s : S)
      → Fits p.space.dim (length texts) (limited wait p texts kind s).0
  limited-Fits wait p meets [] kind s = (refl, tt)
  limited-Fits wait p meets (t ∷ ts) kind s = go (wait s)
    where
      go :
          (r : Option Err × S)
          → Fits p.space.dim (length (t ∷ ts)) (after_wait (p.embed (t ∷ ts) kind) r).0
      go (none, s') = meets (t ∷ ts) kind s'
      go (some e, s') = tt

  with_rate_limit-Meets :
      (limiter : ℤ → S → Option Err × S) (has_rate : Bool) (burst : ℤ) (p : Provider F S)
      → Meets p
      → Meets (with_rate_limit limiter has_rate burst p)
  unfolding with_rate_limit
  with_rate_limit-Meets limiter true burst p meets =
      limited-Fits (limiter (positive_or burst (pos 1))) p meets
  with_rate_limit-Meets limiter false burst p meets = meets

  -- A provider in the order of wrappers of New.
  pub decorated-Meets :
      (limiter : ℤ → S → Option Err × S) (has_rate : Bool) (burst : ℤ) (w : World S)
      (policy : Policy) (p : Provider F S)
      → Meets p
      → Meets (with_rate_limit limiter has_rate burst (with_retry w policy p))
  decorated-Meets limiter has_rate burst w policy p meets =
      with_rate_limit-Meets limiter has_rate burst (with_retry w policy p)
        (with_retry-Meets w policy p meets)
