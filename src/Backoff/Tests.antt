-- ===== src/Backoff/Tests.antt =====
-- The retry policy at concrete operations: the state counts the calls.
use rag_ai_system.Prelude.{ℕ, ◌+◌, ◌≤◌, ◌≡◌, refl, Option, none, some, arith, pos, to_nat}
use rag_ai_system.Text.{codes}
use rag_ai_system.Backoff.{
  Err, plain, retryable, wrapped, as_retryable, default_policy, normalized, World, retry,
}
use rag_ai_system.Backoff.Attempts.{Counts, retry_ends, KeepsFailing, retry_exhausts}

abbrev calm : World ℕ
calm = record { ctx_err = λ s. none; draw = λ s n. 0; wait = λ s d. (none, s) }

abbrev busy_server : ℕ → Option Err × ℕ
busy_server s = (some (retryable (plain (codes "429")) (pos 7)), s + 1)

abbrev bad_key : ℕ → Option Err × ℕ
bad_key s = (some (plain (codes "401")), s + 1)

busy-Counts : Counts calm busy_server (λ s. s)
busy-Counts = record { called = λ s. refl; waited = λ s d. refl }

busy_fails : KeepsFailing calm busy_server
unfolding as_retryable
busy_fails = record {
  open_ctx = λ s. refl;
  fails = λ s. (retryable (plain (codes "429")) (pos 7), pos 7, refl, refl);
  sleeps = λ s d. refl;
}

retry_ends_example :
    (out : Option Err × ℕ) × (retry calm default_policy busy_server 0 ≡ some out)
    × (out.1 ≤ 0 + to_nat (normalized default_policy).max_attempts)
retry_ends_example =
    retry_ends calm busy_server (λ s. s)
      (record { called = λ s. omega arith; waited = λ s d. omega arith }) default_policy 0

retry_exhausts_example :
    (t : ℕ) × (e : Err) × ((busy_server t).0 ≡ some e)
    × (retry calm default_policy busy_server 0 ≡ some (some (wrapped (codes "giving up") e), t + 1))
    × (t + 1 ≡ 0 + to_nat (normalized default_policy).max_attempts)
retry_exhausts_example =
    retry_exhausts calm busy_server (λ s. s) busy-Counts busy_fails default_policy 0
