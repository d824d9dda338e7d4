-- ===== src/Backoff/Attempts.antt =====
-- The loop of Do returns, and how often it calls the operation.
use rag_ai_system.Prelude.{
  ℕ, zero, suc, ◌+◌, ◌≤◌, ◌≡◌, refl, inl, inr, true, false, Option, none, some, arith, leb, ◌==◌,
  leb→le, leb→gt, Bool-cases, Option-cases, ℤ, pos, negsuc, to_nat,
}
use rag_ai_system.Text.{codes}
use rag_ai_system.Backoff.{
  Err, wrapped, as_retryable, Policy, positive_or, normalized, World, delay, sleep, resume, judge,
  attempts, retry,
}

-- A call adds at most one to the count, and waiting adds nothing.
pub record CountsAtMost {S : Type 0} (w : World S) (op : S → Option Err × S) (calls : S → ℕ)
    : Type 0 where
  pub called : (s : S) → calls (op s).1 ≤ calls s + 1
  pub waited : (s : S) (d : ℕ) → calls (w.wait s d).1 ≤ calls s

-- The operation counts its calls in the state, and waiting does not change the count.
pub record Counts {S : Type 0} (w : World S) (op : S → Option Err × S) (calls : S → ℕ)
    : Type 0 where
  pub called : (s : S) → calls (op s).1 ≡ calls s + 1
  pub waited : (s : S) (d : ℕ) → calls (w.wait s d).1 ≡ calls s

module _ {S : Type 0} (w : World S) (op : S → Option Err × S) (calls : S → ℕ) where
  -- A run that returns after at most `k` more calls.
  abbrev Ends : ℕ → S → Option (Option Err × S) → Type 0
  Ends k s o = (out : Option Err × S) × (o ≡ some out) × (calls out.1 ≤ calls s + k)

  calls-sleep : CountsAtMost w op calls → (d : ℕ) (s : S) → calls (sleep w d s).1 ≤ calls s
  unfolding sleep
  calls-sleep h d s = elim (Bool-cases (d == 0)) [
    | inl e ↦ rw e (omega arith)
    | inr e ↦ rw e (h.waited s d)
  ]

  resume-Ends :
      (again : S → Option (Option Err × S)) (cause : Err) (out : Option Err × S) (k : ℕ)
      → ((s : S) → Ends k s (again s))
      → Ends k out.1 (resume w again cause out)
  resume-Ends again cause (none, s) k next = next s
  resume-Ends again cause (some e, s) k next = ((some _, s), refl, omega arith)

  judge-Ends :
      CountsAtMost w op calls
      → (p : Policy) (attempt k : ℕ) (again : Err → S → Option (Option Err × S))
        (out : Option Err × S)
      → (leb (to_nat p.max_attempts) attempt ≡ false → (e : Err) (s : S) → Ends k s (again e s))
      → Ends k out.1 (judge w p attempt again out)
  judge-Ends h p attempt k again (none, s) next = ((none, s), refl, omega arith)
  judge-Ends h p attempt k again (some cause, s) next = elim (Option-cases (as_retryable cause)) [
    | inl e ↦ rw (e, judge) ((some cause, s), refl, omega arith)
    | inr (after, e) ↦
        rw (e, judge)
          (elim (Bool-cases (leb (to_nat p.max_attempts) attempt)) [
            | inl last ↦ rw last ((some _, s), refl, omega arith)
            | inr more ↦ rw more (
                let d = delay p attempt after (w.draw s) in
                let (out, ran, few) =
                  resume-Ends (again cause) cause (sleep w d s) k (next more cause) in
                (out, ran, omega (arith, few, calls-sleep h d s)))
          ])
  ]

  round-Ends :
      CountsAtMost w op calls
      → (p : Policy) (fuel attempt : ℕ) (last : Option Err) (s : S)
      → (leb (to_nat p.max_attempts) attempt ≡ false
          → (e : Err) (s' : S) → Ends fuel s' (attempts w p op fuel (attempt + 1) (some e) s'))
      → Ends (suc fuel) s (attempts w p op (suc fuel) attempt last s)
  unfolding attempts
  round-Ends h p fuel attempt last s next = elim (Option-cases (w.ctx_err s)) [
    | inr (e, stop) ↦ rw (stop, attempts) ((some _, s), refl, omega arith)
    | inl go ↦
        rw (go, attempts)
          (let (out, ran, few) =
              judge-Ends h p attempt fuel (λ e s'. attempts w p op fuel (attempt + 1) (some e) s')
                (op s) next in
            (out, ran, omega (arith, few, h.called s)))
  ]

  attempts-Ends :
      CountsAtMost w op calls
      → (p : Policy) (fuel attempt : ℕ) (last : Option Err) (s : S)
      → fuel + attempt ≡ to_nat p.max_attempts
      → Ends (suc fuel) s (attempts w p op (suc fuel) attempt last s)
  attempts-Ends h p zero attempt last s left =
      round-Ends h p zero attempt last s
        (λ more. absurd (omega (arith, leb→gt (to_nat p.max_attempts) attempt more)))
  attempts-Ends h p (suc fuel) attempt last s left =
      round-Ends h p (suc fuel) attempt last s
        (λ more e s'. attempts-Ends h p fuel (attempt + 1) (some e) s' (omega arith))

  fuel_enough : (p : Policy) → (n : ℕ) × (to_nat (normalized p).max_attempts ≡ suc n)
  unfolding normalized
  fuel_enough p = elim p.max_attempts as (λ n. (k : ℕ) × (to_nat (positive_or n (pos 1)) ≡ suc k)) [
    | pos zero ↦ (0, refl)
    | pos (suc n) ↦ (n, refl)
    | negsuc n ↦ (0, refl)
  ]

  -- Whatever the policy, the context and the operation, Do returns, and it has called the operation
  -- at most `MaxAttempts` times, or once if `MaxAttempts` is below 1.
  pub retry_ends :
      CountsAtMost w op calls
      → (p : Policy) (s : S)
      → (out : Option Err × S) × (retry w p op s ≡ some out)
        × (calls out.1 ≤ calls s + to_nat (normalized p).max_attempts)
  unfolding retry
  retry_ends h p s =
      let (n, e) = fuel_enough p in
      rw e (attempts-Ends h (normalized p) n 1 none s (omega (arith, e)))

-- An operation that goes on failing with marked errors, while the context stays open.
pub record KeepsFailing {S : Type 0} (w : World S) (op : S → Option Err × S) : Type 0 where
  pub open_ctx : (s : S) → w.ctx_err s ≡ none
  pub fails :
      (s : S) → (e : Err) × (after : ℤ) × ((op s).0 ≡ some e) × (as_retryable e ≡ some after)
  pub sleeps : (s : S) (d : ℕ) → (w.wait s d).0 ≡ none

module _ {S : Type 0} (w : World S) (op : S → Option Err × S) (calls : S → ℕ) where
  sleep_ok : KeepsFailing w op → (d : ℕ) (s : S) → (sleep w d s).0 ≡ none
  unfolding sleep
  sleep_ok f d s = elim (Bool-cases (d == 0)) [ inl e ↦ rw e | inr e ↦ rw e (f.sleeps s d) ]

  calls-sleep_eq : Counts w op calls → (d : ℕ) (s : S) → calls (sleep w d s).1 ≡ calls s
  unfolding sleep
  calls-sleep_eq h d s = elim (Bool-cases (d == 0)) [ inl e ↦ rw e | inr e ↦ rw e (h.waited s d) ]

  -- The run used up all attempts: it ended with a call in some state `t`, whose error it returned.
  abbrev pub Exhausts : ℕ → S → Option (Option Err × S) → Type 0
  Exhausts k s o =
      (t : S) × (e : Err) × ((op t).0 ≡ some e)
      × (o ≡ some (some (wrapped (codes "giving up") e), (op t).1))
      × (calls t + 1 ≡ calls s + k)

  failing_round :
      Counts w op calls
      → KeepsFailing w op
      → (p : Policy) (fuel attempt : ℕ) (last : Option Err) (s : S)
      → (leb (to_nat p.max_attempts) attempt ≡ true → fuel ≡ 0)
      → (leb (to_nat p.max_attempts) attempt ≡ false
          → (e : Err) (s' : S) → Exhausts fuel s' (attempts w p op fuel (attempt + 1) (some e) s'))
      → Exhausts (suc fuel) s (attempts w p op (suc fuel) attempt last s)
  unfolding attempts
  failing_round h f p fuel attempt last s stop next =
      let (e, after, failed, marked) = f.fails s in
      let d = delay p attempt after (w.draw (op s).1) in
      rw (f.open_ctx s, attempts)
        (rw (failed, judge)
          (rw (marked, judge)
            (elim (Bool-cases (leb (to_nat p.max_attempts) attempt)) [
              | inl end ↦ rw (end, judge) (s, e, failed, refl, omega (arith, stop end))
              | inr more ↦
                  rw (more, judge)
                    (rw (sleep_ok f d (op s).1, resume)
                      (let (t, e', last_failed, ran, all) = next more e (sleep w d (op s).1).1 in
                        (
                          t,
                          e',
                          last_failed,
                          ran,
                          omega (arith, all, h.called s, calls-sleep_eq h d (op s).1),
                        )))
            ])))

  attempts_exhaust :
      Counts w op calls
      → KeepsFailing w op
      → (p : Policy) (fuel attempt : ℕ) (last : Option Err) (s : S)
      → fuel + attempt ≡ to_nat p.max_attempts
      → Exhausts (suc fuel) s (attempts w p op (suc fuel) attempt last s)
  attempts_exhaust h f p zero attempt last s left =
      failing_round h f p zero attempt last s (λ _. refl)
        (λ more. absurd (omega (arith, leb→gt (to_nat p.max_attempts) attempt more)))
  attempts_exhaust h f p (suc fuel) attempt last s left =
      failing_round h f p (suc fuel) attempt last s
        (λ end. absurd (omega (arith, leb→le (to_nat p.max_attempts) attempt end)))
        (λ more e s'. attempts_exhaust h f p fuel (attempt + 1) (some e) s' (omega arith))

  -- An operation that keeps failing with marked errors, in a context that stays open, is called
  -- exactly `MaxAttempts` times: the run ends with the call that comes after `MaxAttempts` less one
  -- others, and the error of that call comes back wrapped.
  pub retry_exhausts :
      Counts w op calls
      → KeepsFailing w op
      → (p : Policy) (s : S)
      → (t : S) × (e : Err) × ((op t).0 ≡ some e)
        × (retry w p op s ≡ some (some (wrapped (codes "giving up") e), (op t).1))
        × (calls t + 1 ≡ calls s + to_nat (normalized p).max_attempts)
  unfolding retry
  retry_exhausts h f p s =
      let (n, e) = fuel_enough w op calls p in
      rw e (attempts_exhaust h f (normalized p) n 1 none s (omega (arith, e)))

  -- The count when such a run has ended.
  pub retry_calls :
      Counts w op calls
      → KeepsFailing w op
      → (p : Policy) (s : S)
      → (e : Err) × (s' : S) × (retry w p op s ≡ some (some (wrapped (codes "giving up") e), s'))
        × (calls s' ≡ calls s + to_nat (normalized p).max_attempts)
  retry_calls h f p s =
      let (t, e, failed, ran, all) = retry_exhausts h f p s in
      (e, (op t).1, ran, omega (arith, all, h.called t))

-- Do returns for every operation.
pub retry_total :
    {S : Type 0} (w : World S) (p : Policy) (op : S → Option Err × S) (s : S)
    → (out : Option Err × S) × (retry w p op s ≡ some out)
retry_total w p op s =
    let (out, ran, _) =
      retry_ends w op (λ _. 0) (record { called = λ s. omega arith; waited = λ s d. omega arith }) p
        s in
    (out, ran)
