-- ===== src/Backoff.antt =====
-- backoff/backoff.go and backoff/http.go: the retry policy of every call to a provider.
pub mod Delay
pub mod Attempts
pub mod Marks
pub mod RetryAfter
pub mod GoogleHint
pub mod Success
mod Tests
use rag_ai_system.Prelude.{
  ℕ, zero, suc, ◌+◌, ◌-◌, ◌*◌, ◌^◌, min, Bool, true, false, ◌||◌, Option, none, some, leb, ◌==◌,
  if◌then◌else◌, ℤ, pos, negsuc, to_nat, is_positive,
}
use rag_ai_system.Text.{Text, codes}

-- A Go error as the tree that errors.Is and errors.As walk: `wrapped` is fmt.Errorf with %w,
-- `joined` is errors.Join, and `net_error` stands for the types that implement net.Error.
pub data Err : Type 0 where
  canceled : Err
  deadline_exceeded : Err
  net_error : Text → Err
  plain : Text → Err
  retryable : Err → ℤ → Err
  wrapped : Text → Err → Err
  joined : Err → Err → Err

abbrev or_else {ℓ} : {A : Type ℓ} → Option A → Option A → Option A
or_else (some a) o = some a
or_else none o = o

-- errors.As(err, &r) for a *Retryable: the `After` of the first one.
unfoldable pub as_retryable : Err → Option ℤ
as_retryable canceled = none
as_retryable deadline_exceeded = none
as_retryable (net_error m) = none
as_retryable (plain m) = none
as_retryable (retryable e after) = some after
as_retryable (wrapped m e) = as_retryable e
as_retryable (joined a b) = or_else (as_retryable a) (as_retryable b)

-- errors.Is(err, context.Canceled) || errors.Is(err, context.DeadlineExceeded)
unfoldable pub is_context_end : Err → Bool
is_context_end canceled = true
is_context_end deadline_exceeded = true
is_context_end (net_error m) = false
is_context_end (plain m) = false
is_context_end (retryable e after) = is_context_end e
is_context_end (wrapped m e) = is_context_end e
is_context_end (joined a b) = is_context_end a || is_context_end b

-- errors.As(err, &netErr); context.DeadlineExceeded implements net.Error too.
unfoldable pub as_net_error : Err → Bool
as_net_error canceled = false
as_net_error deadline_exceeded = true
as_net_error (net_error m) = true
as_net_error (plain m) = false
as_net_error (retryable e after) = as_net_error e
as_net_error (wrapped m e) = as_net_error e
as_net_error (joined a b) = as_net_error a || as_net_error b

unfoldable pub mark : Option Err → ℤ → Option Err
mark none after = none
mark (some cause) after = some (retryable cause after)

unfoldable pub mark_transport : Option Err → Option Err
unfolding mark is_context_end as_net_error
mark_transport none = none
mark_transport (some cause) =
    if is_context_end cause
    then some cause
    else if as_net_error cause
    then mark (some cause) (pos 0)
    else some cause

unfoldable pub is_transient_status : ℤ → Bool
is_transient_status (pos code) = code == 429 || code == 408 || leb 500 code
is_transient_status (negsuc n) = false

-- Durations are in nanoseconds.
pub record Policy : Type 0 where
  pub max_attempts : ℤ
  pub base : ℤ
  pub max_delay : ℤ

abbrev pub default_policy : Policy
default_policy = record {
  max_attempts = pos 4;
  base = pos 500_000_000;
  max_delay = pos 60_000_000_000;
}

abbrev pub positive_or : ℤ → ℤ → ℤ
positive_or n d = if is_positive n then n else d

unfoldable pub normalized : Policy → Policy
normalized p = record {
  max_attempts = positive_or p.max_attempts (pos 1);
  base = positive_or p.base default_policy.base;
  max_delay = positive_or p.max_delay default_policy.max_delay;
}

-- What the loop meets outside: the context, the random source and the timer of `sleep`, over a state
-- that the operation shares. `draw s window` is the number drawn in state `s`.
pub record World (S : Type 0) : Type 0 where
  pub ctx_err : S → Option Err
  pub draw : S → ℕ → ℕ
  pub wait : S → ℕ → Option Err × S

-- `delay` on a normalized policy, whose fields are positive.
unfoldable pub window : Policy → ℕ → ℕ
window p attempt = min (to_nat p.base * 2 ^ (attempt - 1)) (to_nat p.max_delay)

unfoldable pub delay : Policy → ℕ → ℤ → (ℕ → ℕ) → ℕ
unfolding window
delay p attempt hint draw =
    if is_positive hint then min (to_nat hint) (to_nat p.max_delay) else draw (window p attempt)

module _ {S : Type 0} (w : World S) where
  unfoldable pub sleep : ℕ → S → Option Err × S
  sleep d s = if d == 0 then (none, s) else w.wait s d

  -- The first return of the loop's body.
  abbrev pub interrupted : ℕ → Option Err → Err → Err
  interrupted attempt none e = e
  interrupted attempt (some last) e = wrapped (codes "after attempt(s)") (joined last e)

  -- The last statement of the loop's body; `again` is its next round.
  abbrev pub resume : (S → Option (Option Err × S)) → Err → Option Err × S → Option (Option Err × S)
  resume again cause (none, s) = again s
  resume again cause (some e, s) =
      some (some (wrapped (codes "while backing off") (joined cause e)), s)

  abbrev pub judge :
      Policy → ℕ → (Err → S → Option (Option Err × S)) → Option Err × S → Option (Option Err × S)
  judge p attempt again (none, s) = some (none, s)
  judge p attempt again (some cause, s) = elim (as_retryable cause) [
    | none ↦ some (some cause, s)
    | some after ↦
        if leb (to_nat p.max_attempts) attempt
        then some (some (wrapped (codes "giving up") cause), s)
        else resume (again cause) cause (sleep (delay p attempt after (w.draw s)) s)
  ]

  -- The loop of Do; `none` means that the fuel ran out.
  unfoldable pub attempts :
      Policy → (S → Option Err × S) → ℕ → ℕ → Option Err → S → Option (Option Err × S)
  unfolding as_retryable delay sleep
  attempts p op zero attempt last s = none
  attempts p op (suc fuel) attempt last s = elim (w.ctx_err s) [
    | some e ↦ some (some (interrupted attempt last e), s)
    | none ↦ judge p attempt (λ cause s'. attempts p op fuel (attempt + 1) (some cause) s') (op s)
  ]

  unfoldable pub retry : Policy → (S → Option Err × S) → S → Option (Option Err × S)
  unfolding attempts normalized
  retry p op s = attempts (normalized p) op (to_nat (normalized p).max_attempts) 1 none s
