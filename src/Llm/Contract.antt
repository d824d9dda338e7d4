-- ===== src/Llm/Contract.antt =====
-- What callers rely on in every generation provider: an answer is never blank. The decorators keep it.
use rag_ai_system.Prelude.{
  ◌≡◌, refl, sym, ap, ◌∙◌, inl, inr, Bool, true, false, Option, none, some, [], if◌then◌else◌,
  Bool-cases, Option-cases, ℤ, pos, Result, ok, err,
}
use rag_ai_system.Text.{Text, is_space, is_nil, trim_space, visible}
use rag_ai_system.Text.Trim.{is_nil→eq_nil, visible-trim_space, visible-eq-nil-trim_space}
use rag_ai_system.Backoff.{Err, Policy, positive_or, World, retry}
use rag_ai_system.Backoff.Success.{Ensures, Succeeds, retry-Ensures}
use rag_ai_system.Llm.{
  Generator, keep, deliver, beside, with_retry, after_wait, with_rate_limit, stub_generate,
  new_stub,
}

-- A text with more than white space, if there is no error.
abbrev pub Says : Result Err Text → Type 0
Says (ok text) = is_nil (visible text) ≡ false
Says (err e) = Unit

module _ {S : Type 0} where
  abbrev pub Speaks : Generator S → Type 0
  Speaks g = (system user : Text) (s : S) → Says (g.generate system user s).0

  -- What a constructor gives, if it does not refuse, never answers with a blank.
  abbrev pub Builds : Result Err (Generator S) → Type 0
  Builds (ok g) = Speaks g
  Builds (err e) = Unit

  abbrev Kept : S × Text → Type 0
  Kept t = Says (ok t.1)

  keep-Succeeds :
      (w : World (S × Text)) (op : S × Text → Option Err × (S × Text)) (r : Result Err Text × S)
      → Says r.0
      → Succeeds w Kept op (keep r)
  keep-Succeeds w op (ok text, s) h = h
  keep-Succeeds w op (err e, s) h = tt

  deliver-Says :
      (w : World (S × Text)) (op : S × Text → Option Err × (S × Text))
      (o : Option (Option Err × (S × Text))) (s : S)
      → Ensures w Kept op o
      → Says (deliver o s).0
  deliver-Says w op none s h = tt
  deliver-Says w op (some (none, (s', out))) s h = h
  deliver-Says w op (some (some e, (s', out))) s h = tt

  with_retry-Speaks :
      (w : World S) (policy : Policy) (g : Generator S) → Speaks g → Speaks (with_retry w policy g)
  unfolding with_retry
  with_retry-Speaks w policy g speaks system user s =
      let op : S × Text → Option Err × (S × Text) = λ t. keep (g.generate system user t.0) in
      deliver-Says (beside w) op (retry (beside w) policy op (s, [])) s (
        retry-Ensures (beside w) Kept op
          (λ t. keep-Succeeds (beside w) op (g.generate system user t.0) (speaks system user t.0))
          policy (s, []))

  after_wait-Says :
      (call : S → Result Err Text × S) (r : Option Err × S)
      → ((s : S) → Says (call s).0)
      → Says (after_wait call r).0
  after_wait-Says call (none, s) h = h s
  after_wait-Says call (some e, s) h = tt

  -- A generator in the order of wrappers of New.
  pub decorated-Speaks :
      (limiter : ℤ → S → Option Err × S) (has_rate : Bool) (burst : ℤ) (w : World S)
      (policy : Policy) (g : Generator S)
      → Speaks g
      → Speaks (with_rate_limit limiter has_rate burst (with_retry w policy g))
  unfolding with_rate_limit
  decorated-Speaks limiter true burst w policy g speaks system user s =
      after_wait-Says ((with_retry w policy g).generate system user)
        (limiter (positive_or burst (pos 1)) s) (with_retry-Speaks w policy g speaks system user)
  decorated-Speaks limiter false burst w policy g speaks system user s =
      with_retry-Speaks w policy g speaks system user s

  pub new_stub-Speaks : (ctx_err : S → Option Err) → Speaks (new_stub ctx_err)
  unfolding new_stub visible is_space
  new_stub-Speaks ctx_err system user s = elim (Option-cases (ctx_err s)) [
    | inl e ↦ rw (e, stub_generate) refl
    | inr (x, e) ↦ rw (e, stub_generate) tt
  ]

-- How the clients end: the trimmed answer, or an error where nothing is left of it.
abbrev pub spoken : Err → Text → Result Err Text
spoken blank text = if is_nil (trim_space text) then err blank else ok (trim_space text)

pub spoken-Says : (blank : Err) (text : Text) → Says (spoken blank text)
spoken-Says blank text = elim (Bool-cases (is_nil (trim_space text))) [
  | inl e ↦ rw (e, spoken) tt
  | inr e ↦ elim (Bool-cases (is_nil (visible (trim_space text)))) [
    | inr k ↦ rw (e, spoken) k
    | inl k ↦
        let none_left =
          visible-eq-nil-trim_space text
            (sym (visible-trim_space text) ∙ is_nil→eq_nil (visible (trim_space text)) k) in
        cc (ap is_nil none_left)
  ]
]
