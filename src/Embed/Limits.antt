-- ===== src/Embed/Limits.antt =====
-- What the rate limiter of embed.New counts, which wraps the retries.
use rag_ai_system.Prelude.{
  ℕ, ◌+◌, ◌≡◌, refl, ap, ◌∙◌, true, Option, none, some, List, [], ◌∷◌, arith, ℤ, pos, to_nat,
  Result, ok, err,
}
use rag_ai_system.Text.{Text}
use rag_ai_system.Backoff.{Err, as_retryable, Policy, positive_or, normalized, World}
use rag_ai_system.Backoff.Attempts.{Counts, KeepsFailing, retry_calls}
use rag_ai_system.Embed.{
  Kind, Provider, keep, deliver, beside, with_retry, after_wait, with_rate_limit,
}

module _ {F S : Type 0} where
  keep_state : (r : Result Err (List (List F)) × S) → (keep r).1.0 ≡ r.1
  keep_state (ok vectors, s) = refl
  keep_state (err e, s) = refl

  keep_err : (r : Result Err (List (List F)) × S) (e : Err) → r.0 ≡ err e → (keep r).0 ≡ some e
  keep_err (ok vectors, s) e h = cc
  keep_err (err x, s) e h = cc

-- A provider whose calls all fail with a marked error, in a context that stays open, and a limiter
-- that lets every caller through. `calls` counts the provider's calls, `waits` the limiter's.
pub record Storm {F S : Type 0} (w : World S) (next : Provider F S) (limiter : S → Option Err × S)
    (calls waits : S → ℕ) : Type 0 where
  pub open_ctx : (s : S) → w.ctx_err s ≡ none
  pub sleeps : (s : S) (d : ℕ) → (w.wait s d).0 ≡ none
  pub wait_calls : (s : S) (d : ℕ) → calls (w.wait s d).1 ≡ calls s
  pub wait_waits : (s : S) (d : ℕ) → waits (w.wait s d).1 ≡ waits s
  pub fails :
      (texts : List Text) (kind : Kind) (s : S)
      → (e : Err) × (after : ℤ) × ((next.embed texts kind s).0 ≡ err e)
        × (as_retryable e ≡ some after)
  pub next_calls :
      (texts : List Text) (kind : Kind) (s : S) → calls (next.embed texts kind s).1 ≡ calls s + 1
  pub next_waits :
      (texts : List Text) (kind : Kind) (s : S) → waits (next.embed texts kind s).1 ≡ waits s
  pub passes : (s : S) → (limiter s).0 ≡ none
  pub limiter_waits : (s : S) → waits (limiter s).1 ≡ waits s + 1
  pub limiter_calls : (s : S) → calls (limiter s).1 ≡ calls s

module _ {F S : Type 0} (w : World S) (policy : Policy) (next : Provider F S)
    (limiter : S → Option Err × S) (calls waits : S → ℕ) (storm : Storm w next limiter calls waits)
    (texts : List Text) (kind : Kind) where
  abbrev op : S × List (List F) → Option Err × (S × List (List F))
  op t = keep (next.embed texts kind t.0)

  op_fails : KeepsFailing (beside w) op
  op_fails = record {
    open_ctx = λ t. storm.open_ctx t.0;
    fails = λ t.
        let (e, after, failed, marked) = storm.fails texts kind t.0 in
        (e, after, keep_err (next.embed texts kind t.0) e failed, marked);
    sleeps = λ t d. storm.sleeps t.0 d;
  }

  Counts-calls : Counts (beside w) op (λ t. calls t.0)
  Counts-calls = record {
    called =
        λ t. ap calls (keep_state (next.embed texts kind t.0)) ∙ storm.next_calls texts kind t.0;
    waited = λ t d. storm.wait_calls t.0 d;
  }

  Counts-both : Counts (beside w) op (λ t. calls t.0 + waits t.0)
  Counts-both = record {
    called = λ t.
        ap (λ s. calls s + waits s) (keep_state (next.embed texts kind t.0))
        ∙ omega (arith, storm.next_calls texts kind t.0, storm.next_waits texts kind t.0);
    waited = λ t d. omega (arith, storm.wait_calls t.0 d, storm.wait_waits t.0 d);
  }

  retry_storm :
      (s : S)
      → let s' = ((with_retry w policy next).embed texts kind s).1 in
        (calls s' ≡ calls s + to_nat (normalized policy).max_attempts) × (waits s' ≡ waits s)
  unfolding with_retry
  retry_storm s =
      let (e1, t1, ran1, n1) =
        retry_calls (beside w) op (λ t. calls t.0) Counts-calls op_fails policy (s, []) in
      let (e2, t2, ran2, n2) =
        retry_calls (beside w) op (λ t. calls t.0 + waits t.0) Counts-both op_fails policy
          (s, []) in
      let same : t1 ≡ t2 = cc (ran1, ran2) in
      rw (ran1, deliver) (n1, omega (arith, n1, n2, ap (λ t. calls t.0 + waits t.0) same))

-- A limiter around the retries is waited for once.
pub Storm-counts :
    {F S : Type 0} (w : World S) (policy : Policy) (next : Provider F S)
    (limiter : ℤ → S → Option Err × S) (burst : ℤ) (calls waits : S → ℕ)
    → Storm w next (limiter (positive_or burst (pos 1))) calls waits
    → (t : Text) (ts : List Text) (kind : Kind) (s : S)
    → let s' =
        ((with_rate_limit limiter true burst (with_retry w policy next)).embed (t ∷ ts) kind s).1 in
      (calls s' ≡ calls s + to_nat (normalized policy).max_attempts) × (waits s' ≡ waits s + 1)
unfolding with_rate_limit
Storm-counts w policy next limiter burst calls waits storm t ts kind s =
    let lim = limiter (positive_or burst (pos 1)) in
    let (n, m) = retry_storm w policy next lim calls waits storm (t ∷ ts) kind (lim s).1 in
    rw (storm.passes s, after_wait)
      (omega (arith, n, storm.limiter_calls s), omega (arith, m, storm.limiter_waits s))
