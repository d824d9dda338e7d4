-- ===== src/Llm.antt =====
-- llm/llm.go, llm/middleware.go and llm/stub.go: the Provider interface of generation, its decorators
-- and the offline provider.
pub mod Contract
pub mod OpenAi
pub mod Ollama
pub mod Google
pub mod Factory
use rag_ai_system.Prelude.{
  Bool, Option, none, some, [], ◌++◌, if◌then◌else◌, ℤ, pos, Result, ok, err,
}
use rag_ai_system.Text.{Text, codes}
use rag_ai_system.Backoff.{Err, plain, wrapped, Policy, positive_or, World, retry}

-- A generation provider over a state: the system prompt and the user's, and the text or an error.
pub record Generator (S : Type 0) : Type 0 where
  pub generate : Text → Text → S → Result Err Text × S
  pub model : Text

abbrev pub stub_head : Text
stub_head =
    codes
      "[генератор не подключён: LLM_PROVIDER=stub]\n\nНиже — найденный контекст без пересказа моделью.\n\n"

module _ {S : Type 0} where
  -- What the closure of WithRetry hands to Do: the call's error, with the text kept in `out`.
  abbrev pub keep : Result Err Text × S → Option Err × (S × Text)
  keep (ok text, s) = (none, (s, text))
  keep (err e, s) = (some e, (s, []))

  abbrev pub deliver : Option (Option Err × (S × Text)) → S → Result Err Text × S
  deliver none s = (err (plain (codes "Do did not return")), s)
  deliver (some (none, (s', out))) s = (ok out, s')
  deliver (some (some e, (s', out))) s = (err e, s')

  -- The world of a call, while `out` is kept beside it.
  abbrev pub beside : World S → World (S × Text)
  beside w = record {
    ctx_err = λ t. w.ctx_err t.0;
    draw = λ t n. w.draw t.0 n;
    wait = λ t d. ((w.wait t.0 d).0, ((w.wait t.0 d).1, t.1));
  }

  -- By `retry_total` the first case of `deliver` does not arise.
  unfoldable pub with_retry : World S → Policy → Generator S → Generator S
  with_retry w policy next = record {
    generate = λ system user s.
        deliver (retry (beside w) policy (λ t. keep (next.generate system user t.0)) (s, [])) s;
    model = next.model;
  }

  abbrev pub after_wait : (S → Result Err Text × S) → Option Err × S → Result Err Text × S
  after_wait call (none, s) = call s
  after_wait call (some e, s) = (err (wrapped (codes "rate limit wait") e), s)

  -- `limiter burst` is the Wait of a new rate.Limiter; `has_rate` says that `rps > 0`.
  unfoldable pub with_rate_limit : (ℤ → S → Option Err × S) → Bool → ℤ → Generator S → Generator S
  with_rate_limit limiter has_rate burst g =
      if has_rate
      then record {
        generate = λ system user s.
            after_wait (g.generate system user) (limiter (positive_or burst (pos 1)) s);
        model = g.model;
      }
      else g

  abbrev pub stub_generate : (S → Option Err) → Text → Text → S → Result Err Text × S
  stub_generate ctx_err system user s = elim (ctx_err s) [
    | none ↦ (ok (stub_head ++ user), s)
    | some e ↦ (err e, s)
  ]

  -- NewStub
  unfoldable pub new_stub : (S → Option Err) → Generator S
  new_stub ctx_err = record { generate = stub_generate ctx_err; model = codes "stub" }
