-- ===== src/Backoff/GoogleHint.antt =====
-- backoff/google.go and classifyGoogleErr of embed/google.go and llm/google.go.
mod Tests
use rag_ai_system.Prelude.{
  ◌≡◌, refl, ap, ap₂, ◌∙◌, inl, inr, Bool, true, false, not, ◌&&◌, ◌||◌, Option, none, some, List,
  [], ◌∷◌, arith, if◌then◌else◌, Bool-cases, ℤ, pos, is_positive,
}
use rag_ai_system.Text.{Text, codes, text_eq, contains, has_suffix}
use rag_ai_system.Backoff.{
  Err, retryable, wrapped, as_retryable, mark, mark_transport, is_transient_status,
}

-- A decoded JSON value; `fields` is a map[string]any.
mutual
  pub data Json : Type 0 where
    null : Json
    flag : Bool → Json
    number : Text → Json
    string : Text → Json
    array : Items → Json
    object : Fields → Json

  pub data Items : Type 0 where
    nil : Items
    cons : Json → Items → Items

  pub data Fields : Type 0 where
    end : Fields
    field : Text → Json → Fields → Fields

-- m[key]; a missing key gives nil.
unfoldable pub get : Text → Fields → Json
unfolding text_eq
get key end = null
get key (field k v m) = if text_eq k key then v else get key m

-- v.(string), v.([]any) and v.(map[string]any), with the zero value where v is another type.
abbrev pub as_string : Json → Option Text
as_string (string s) = some s
as_string _ = none

abbrev pub text_of : Json → Text
text_of v = elim (as_string v) [ none ↦ [] | some s ↦ s ]

abbrev pub items_of : Json → Items
items_of (array xs) = xs
items_of _ = nil

abbrev pub fields_of : Json → Fields
fields_of (object m) = m
fields_of _ = end

abbrev pub retry_info : Text
retry_info = codes "google.rpc.RetryInfo"

abbrev pub quota_failure : Text
quota_failure = codes "google.rpc.QuotaFailure"

abbrev pub per_day : Json → Bool
per_day v = contains (text_of (get (codes "quotaId") (fields_of v))) (codes "PerDay")

-- The loop over the violations.
unfoldable pub add_violations : Items → Bool → Bool
unfolding get contains
add_violations nil daily = daily
add_violations (cons v vs) daily = add_violations vs (if per_day v then true else daily)

-- `parse_duration` is time.ParseDuration, in nanoseconds.
module _ (parse_duration : Text → Option ℤ) where
  abbrev pub usable : Option Text → Option ℤ
  usable none = none
  usable (some s) = elim (parse_duration s) [
    | none ↦ none
    | some v ↦ if is_positive v then some v else none
  ]

  abbrev pub delay_of : Fields → Option ℤ
  delay_of d = usable (as_string (get (codes "retryDelay") d))

  abbrev pub or_keep : ℤ → Option ℤ → ℤ
  or_keep after none = after
  or_keep after (some v) = v

  -- One round of the loop over the details.
  unfoldable pub read_detail : Fields → ℤ × Bool → ℤ × Bool
  unfolding get add_violations has_suffix
  read_detail d (after, daily) =
      let typ = text_of (get (codes "@type") d) in
      if has_suffix typ retry_info
      then (or_keep after (delay_of d), daily)
      else if has_suffix typ quota_failure
      then (after, add_violations (items_of (get (codes "violations") d)) daily)
      else (after, daily)

  unfoldable pub read_details : List Fields → ℤ × Bool → ℤ × Bool
  unfolding read_detail
  read_details [] hint = hint
  read_details (d ∷ ds) hint = read_details ds (read_detail d hint)

  unfoldable pub google_hint : List Fields → ℤ × Bool
  unfolding read_details
  google_hint details = read_details details (pos 0, false)

  -- `as_api` is errors.As for a genai.APIError, its code and its details; `provider` opens the text.
  unfoldable pub classify_google_err : Text → (Err → Option (ℤ × List Fields)) → Err → Option Err
  unfolding google_hint mark mark_transport is_transient_status
  classify_google_err provider as_api e = elim (as_api e) [
    | none ↦ mark_transport (some (wrapped provider e))
    | some (code, details) ↦
        let (after, daily) = google_hint details in
        if is_transient_status code && not daily
        then mark (some (wrapped provider e)) after
        else some (wrapped provider e)
  ]

-- What the details say, by themselves: whether one of them names a quota of a day, and the last
-- usable delay among them.
abbrev pub any_violation : Items → Bool
any_violation nil = false
any_violation (cons v vs) = per_day v || any_violation vs

abbrev pub type_of : Fields → Text
type_of d = text_of (get (codes "@type") d)

abbrev pub is_retry_info : Fields → Bool
is_retry_info d = has_suffix (type_of d) retry_info

abbrev pub is_daily : Fields → Bool
is_daily d =
    not (is_retry_info d)
    && has_suffix (type_of d) quota_failure
    && any_violation (items_of (get (codes "violations") d))

abbrev pub any_daily : List Fields → Bool
any_daily [] = false
any_daily (d ∷ ds) = is_daily d || any_daily ds

abbrev pub latter : Option ℤ → Option ℤ → Option ℤ
latter o none = o
latter o (some v) = some v

add_violations_lem :
    (vs : Items) (daily : Bool) → add_violations vs daily ≡ (daily || any_violation vs)
unfolding add_violations
add_violations_lem nil daily = ground arith
add_violations_lem (cons v vs) daily =
    ground (arith, add_violations_lem vs true, add_violations_lem vs daily)

module _ (parse_duration : Text → Option ℤ) where
  abbrev pub own_delay : Fields → Option ℤ
  own_delay d = if is_retry_info d then delay_of parse_duration d else none

  abbrev pub last_delay : List Fields → Option ℤ
  last_delay [] = none
  last_delay (d ∷ ds) = latter (own_delay d) (last_delay ds)

  or_keep-latter :
      (after : ℤ) (o p : Option ℤ)
      → or_keep parse_duration (or_keep parse_duration after o) p
        ≡ or_keep parse_duration after (latter o p)
  or_keep-latter after o none = refl
  or_keep-latter after o (some v) = refl

  read_detail_lem :
      (d : Fields) (after : ℤ) (daily : Bool)
      → read_detail parse_duration d (after, daily)
        ≡ (or_keep parse_duration after (own_delay d), daily || is_daily d)
  unfolding read_detail
  read_detail_lem d after daily = elim (Bool-cases (is_retry_info d)) [
    | inl e ↦ rw e (ground arith)
    | inr e ↦ elim (Bool-cases (has_suffix (type_of d) quota_failure)) [
      | inl k ↦
          rw (e, k)
            (ap (λ b. (after, b))
              (add_violations_lem (items_of (get (codes "violations") d)) daily))
      | inr k ↦ rw (e, k) (ground arith)
    ]
  ]

  read_details_lem :
      (ds : List Fields) (after : ℤ) (daily : Bool)
      → read_details parse_duration ds (after, daily)
        ≡ (or_keep parse_duration after (last_delay ds), daily || any_daily ds)
  unfolding read_details
  read_details_lem [] after daily = ground arith
  read_details_lem (d ∷ ds) after daily = rw (read_detail_lem d after daily) (
      read_details_lem ds (or_keep parse_duration after (own_delay d)) (daily || is_daily d)
      ∙ ap₂ (λ v b. (v, b)) (or_keep-latter after (own_delay d) (last_delay ds)) (ground arith))

  -- A Google API error whose cause is not marked is retried exactly where its status is transient and
  -- no detail of it names a quota of a day, with the last usable delay of its details or none.
  pub classify_google_err_lem :
      (provider : Text) (as_api : Err → Option (ℤ × List Fields)) (e : Err) (code : ℤ)
      (details : List Fields)
      → as_api e ≡ some (code, details)
      → as_retryable e ≡ none
      → (out : Err) × (classify_google_err parse_duration provider as_api e ≡ some out)
        × (as_retryable out ≡ (
            if is_transient_status code && not (any_daily details)
            then some (or_keep parse_duration (pos 0) (last_delay details))
            else none))
  unfolding classify_google_err google_hint as_retryable
  classify_google_err_lem provider as_api e code details found unmarked =
      elim (Bool-cases (is_transient_status code && not (any_daily details))) [
        | inl k ↦ (
          retryable (wrapped provider e) (or_keep parse_duration (pos 0) (last_delay details)),
          rw (found, classify_google_err)
              (rw (read_details_lem details (pos 0) false, classify_google_err) (rw k refl)),
          rw k refl,
        )
        | inr k ↦ (
          wrapped provider e,
          rw (found, classify_google_err)
              (rw (read_details_lem details (pos 0) false, classify_google_err) (rw k refl)),
          rw k unmarked,
        )
      ]
