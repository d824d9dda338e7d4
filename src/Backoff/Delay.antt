-- ===== src/Backoff/Delay.antt =====
-- How long the loop of Do waits.
use rag_ai_system.Prelude.{
  ℕ, ◌-◌, ◌*◌, ◌^◌, ◌≤◌, min, ◌≡◌, refl, ◌⊎◌, inl, inr, true, false, arith, Bool-cases, ℤ, to_nat,
  is_positive,
}
use rag_ai_system.Backoff.{Policy, normalized, window, delay}

-- `rand.Float64() * window` lies in the window, rounding included.
abbrev pub DrawsWithin : (ℕ → ℕ) → Type 0
DrawsWithin draw = (n : ℕ) → draw n ≤ n

-- Whatever the policy, no delay of the normalized policy passes its ceiling; a positive server hint
-- is honoured exactly up to the ceiling, and otherwise the delay is at most `Base · 2^(attempt - 1)`.
pub delay_bounds :
    (p : Policy) (attempt : ℕ) (hint : ℤ) (draw : ℕ → ℕ)
    → DrawsWithin draw
    → let q = normalized p in
      (delay q attempt hint draw ≤ to_nat q.max_delay)
      × ((is_positive hint ≡ true)
            × (delay q attempt hint draw ≡ min (to_nat hint) (to_nat q.max_delay))
          ⊎ (is_positive hint ≡ false)
            × (delay q attempt hint draw ≤ to_nat q.base * 2 ^ (attempt - 1)))
unfolding delay window
delay_bounds p attempt hint draw within =
    let q = normalized p in
    let cap = to_nat q.max_delay in
    let drawn = within (min (to_nat q.base * 2 ^ (attempt - 1)) cap) in
    elim (Bool-cases (is_positive hint)) [
      | inl e ↦ rw e (omega arith, inl (refl, refl))
      | inr e ↦ rw e (omega (arith, drawn), inr (refl, omega (arith, drawn)))
    ]
