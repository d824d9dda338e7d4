-- ===== src/Embed/Factory/Wrapping.antt =====
-- The order in which New of embed/factory.go wraps a provider.
use rag_ai_system.Prelude.{
  ℕ, ◌+◌, ◌≡◌, sym, ap, ◌∙◌, subst, Bool, true, List, ◌∷◌, pos, to_nat, ok, ok-injective,
}
use rag_ai_system.Text.{Text}
use rag_ai_system.Backoff.{positive_or, normalized}
use rag_ai_system.Embed.{Kind, Provider, with_retry, with_rate_limit}
use rag_ai_system.Embed.Limits.{Storm, Storm-counts}
use rag_ai_system.Embed.Factory.{Rates, EmbedConfig, Outside, wrap}

-- As New wraps a provider with a rate above 0, one call of Embed whose provider keeps failing with
-- marked errors calls the provider `MaxAttempts` times and waits for the limiter once: the retries do
-- not wait for it.
pub retries_bypass_limiter :
    {F D S R : Type 0} (rates : Rates R) (o : Outside F D S R) (cfg : EmbedConfig R)
    (next p : Provider F S) (calls waits : S → ℕ)
    → wrap rates o cfg (ok next) ≡ ok p
    → rates.has_rate cfg.rps ≡ true
    → Storm o.world next (o.limiter cfg.rps (positive_or cfg.burst (pos 1))) calls waits
    → (t : Text) (ts : List Text) (kind : Kind) (s : S)
    → let s' = (p.embed (t ∷ ts) kind s).1 in
      (calls s' ≡ calls s + to_nat (normalized cfg.retry).max_attempts) × (waits s' ≡ waits s + 1)
retries_bypass_limiter {F} {D} {S} {R} rates o cfg next p calls waits wrapping limits storm t ts
      kind s =
    let limited_at : Bool → Provider F S =
      λ b. with_rate_limit (o.limiter cfg.rps) b cfg.burst (with_retry o.world cfg.retry next) in
    let same : limited_at true ≡ p = ap limited_at (sym limits) ∙ ok-injective wrapping in
    subst
      (λ (q : Provider F S).
        (calls (q.embed (t ∷ ts) kind s).1 ≡ calls s + to_nat (normalized cfg.retry).max_attempts)
        × (waits (q.embed (t ∷ ts) kind s).1 ≡ waits s + 1))
      same
      (Storm-counts o.world cfg.retry next (o.limiter cfg.rps) cfg.burst calls waits storm t ts kind
        s)
