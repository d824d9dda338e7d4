-- ===== src/Backoff/RetryAfter/Tests.antt =====
-- Two minutes, and a delay past the range of time.Duration.
use rag_ai_system.Prelude.{◌*◌, ◌≤◌, ◌<◌, ◌≡◌, refl, ◌≢◌, ◌⊎◌, Option, none, arith, ℤ, pos}
use rag_ai_system.Text.{Text}
use rag_ai_system.Text.Decimal.{digits, decimal}
use rag_ai_system.Backoff.RetryAfter.{
  read_digits, read_magnitude, second, parse_retry_after, longest, parse_retry_after_lem,
}

abbrev no_date : Text → Option ℤ
no_date h = none

parse_retry_after_lem_example :
    (120 ≤ longest) × (parse_retry_after no_date (decimal 120) ≡ pos (120 * second))
    ⊎ (longest < 120) × (parse_retry_after no_date (decimal 120) ≢ pos (120 * second))
parse_retry_after_lem_example = parse_retry_after_lem no_date 120 (omega arith)

-- 18446744074 seconds are read as 290 milliseconds.
wrapped_delay : parse_retry_after no_date (decimal 18_446_744_074) ≡ pos 290_448_384
unfolding parse_retry_after read_magnitude read_digits decimal digits
wrapped_delay = refl
