-- ===== src/Backoff/Success.antt =====
-- What a successful Do tells of the state: its last call of the operation succeeded.
use rag_ai_system.Prelude.{
  ℕ, zero, suc, ◌+◌, inl, inr, Option, none, some, leb, Bool-cases, Option-cases, to_nat,
}
use rag_ai_system.Backoff.{
  Err, as_retryable, Policy, normalized, World, delay, sleep, resume, judge, attempts, retry,
}

module _ {S : Type 0} (w : World S) (P : S → Type 0) (op : S → Option Err × S) where
  abbrev pub Ensures : Option (Option Err × S) → Type 0
  Ensures none = Unit
  Ensures (some (some e, s)) = Unit
  Ensures (some (none, s)) = P s

  abbrev pub Succeeds : Option Err × S → Type 0
  Succeeds (none, s) = P s
  Succeeds (some e, s) = Unit

  resume-Ensures :
      (again : S → Option (Option Err × S)) (cause : Err) (r : Option Err × S)
      → ((s : S) → Ensures (again s))
      → Ensures (resume w again cause r)
  resume-Ensures again cause (none, s) h = h s
  resume-Ensures again cause (some e, s) h = tt

  judge-Ensures :
      (p : Policy) (attempt : ℕ) (again : Err → S → Option (Option Err × S)) (r : Option Err × S)
      → Succeeds r
      → ((e : Err) (s : S) → Ensures (again e s))
      → Ensures (judge w p attempt again r)
  judge-Ensures p attempt again (none, s) ends h = ends
  judge-Ensures p attempt again (some cause, s) ends h = elim (Option-cases (as_retryable cause)) [
    | inl e ↦ rw (e, judge) tt
    | inr (after, e) ↦ elim (Bool-cases (leb (to_nat p.max_attempts) attempt)) [
      | inl k ↦ rw (e, judge) (rw (k, judge) tt)
      | inr k ↦
          rw (e, judge)
            (rw (k, judge)
              (resume-Ensures (again cause) cause (sleep w (delay p attempt after (w.draw s)) s)
                (h cause)))
    ]
  ]

  attempts-Ensures :
      ((s : S) → Succeeds (op s))
      → (p : Policy) (fuel attempt : ℕ) (last : Option Err) (s : S)
      → Ensures (attempts w p op fuel attempt last s)
  unfolding attempts
  attempts-Ensures h p zero attempt last s = tt
  attempts-Ensures h p (suc fuel) attempt last s = elim (Option-cases (w.ctx_err s)) [
    | inr (e, k) ↦ rw (k, attempts) tt
    | inl k ↦
        rw (k, attempts)
          (judge-Ensures p attempt (λ cause s'. attempts w p op fuel (attempt + 1) (some cause) s')
            (op s) (h s) (λ cause s'. attempts-Ensures h p fuel (attempt + 1) (some cause) s'))
  ]

  pub retry-Ensures : ((s : S) → Succeeds (op s)) → (p : Policy) (s : S) → Ensures (retry w p op s)
  unfolding retry
  retry-Ensures h p s =
      attempts-Ensures h (normalized p) (to_nat (normalized p).max_attempts) 1 none s
