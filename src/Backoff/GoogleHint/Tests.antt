-- ===== src/Backoff/GoogleHint/Tests.antt =====
-- A 429 of the Gemini API that asks for a delay of 36 seconds.
use rag_ai_system.Prelude.{
  ◌≡◌, refl, true, false, not, ◌&&◌, Option, none, some, List, [], ◌∷◌, if◌then◌else◌, ℤ, pos,
}
use rag_ai_system.Text.{Text, codes, text_eq, contains}
use rag_ai_system.Backoff.{Err, plain, as_retryable, is_transient_status}
use rag_ai_system.Backoff.GoogleHint.{
  string, array, object, nil, cons, Fields, end, field, or_keep, google_hint, classify_google_err,
  any_daily, last_delay, classify_google_err_lem,
}

abbrev seconds : Text → Option ℤ
seconds s = if text_eq s (codes "36s") then some (pos 36_000_000_000) else none

abbrev info : Fields
info =
    field (codes "@type") (string (codes "type.googleapis.com/google.rpc.RetryInfo"))
      (field (codes "retryDelay") (string (codes "36s")) end)

abbrev quota : Fields
quota = field (codes "@type") (string (codes "type.googleapis.com/google.rpc.QuotaFailure")) (
    field (codes "violations")
      (array (cons (object (field (codes "quotaId") (string (codes "RequestsPerDay")) end)) nil))
      end)

minute_hint : google_hint seconds (info ∷ []) ≡ (pos 36_000_000_000, false)
unfolding google_hint text_eq
minute_hint = refl

daily_hint : google_hint seconds (info ∷ quota ∷ []) ≡ (pos 36_000_000_000, true)
unfolding google_hint text_eq contains
daily_hint = refl

abbrev limited : Err → Option (ℤ × List Fields)
limited e = some (pos 429, info ∷ [])

unmarked : as_retryable (plain (codes "quota")) ≡ none
unfolding as_retryable
unmarked = refl

classify_google_err_lem_example :
    (out : Err) × (classify_google_err seconds (codes "google") limited (plain (codes "quota"))
      ≡ some out)
    × (as_retryable out ≡ (
        if is_transient_status (pos 429) && not (any_daily (info ∷ []))
        then some (or_keep seconds (pos 0) (last_delay seconds (info ∷ [])))
        else none))
classify_google_err_lem_example =
    classify_google_err_lem seconds (codes "google") limited (plain (codes "quota")) (pos 429)
      (info ∷ []) refl unmarked
