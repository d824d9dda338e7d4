-- ===== src/Backoff/RetryAfter.antt =====
-- ParseRetryAfter of backoff/http.go, with strconv.Atoi and the multiplication of int64.
mod Tests
use rag_ai_system.Prelude.{
  ℕ, zero, suc, ◌+◌, ◌-◌, ◌*◌, ◌/◌, ◌%◌, ◌^◌, ◌≤◌, ◌<◌, ◌≡◌, sym, ap, ◌∙◌, ◌≢◌, ◌⊎◌, inl, inr, Bool,
  true, false, ◌&&◌, Option, none, some, some-injective, [], ◌∷◌, ◌++◌, arith, ltb, leb, ◌==◌,
  if◌then◌else◌, ltb→lt, ltb→ge, lt→ltb, leb→le, leb→gt, Bool-cases, ℤ, pos, negsuc, is_positive,
}
use rag_ai_system.Text.{Text}
use rag_ai_system.Text.Decimal.{digits, decimal}

-- The digits of a number in base 10, on top of what stands before them.
unfoldable pub read_digits : ℕ → Text → Option ℕ
read_digits acc [] = some acc
read_digits acc (c ∷ s) =
    let rest = read_digits (acc * 10 + (c - 48)) s in
    if leb b'0' c && leb c b'9' then rest else none

abbrev max_int : ℕ
max_int = 2 ^ 63

-- The magnitude of an int; one digit at least.
unfoldable pub read_magnitude : Text → Option ℕ
unfolding read_digits
read_magnitude [] = none
read_magnitude (c ∷ s) = read_digits 0 (c ∷ s)

abbrev negate : ℕ → ℤ
negate zero = pos 0
negate (suc k) = negsuc k

abbrev in_range : Bool → ℕ → Option ℤ
in_range false n = if ltb n max_int then some (pos n) else none
in_range true n = if leb n max_int then some (negate n) else none

abbrev signed : Bool → Option ℕ → Option ℤ
signed negative none = none
signed negative (some n) = in_range negative n

-- strconv.Atoi
unfoldable pub atoi : Text → Option ℤ
unfolding read_magnitude
atoi [] = none
atoi (c ∷ s) =
    if c == b'-'
    then signed true (read_magnitude s)
    else if c == b'+'
    then signed false (read_magnitude s)
    else signed false (read_magnitude (c ∷ s))

-- The int64 that a bit pattern stands for.
abbrev pub signed64 : ℕ → ℤ
signed64 w = if ltb w (2 ^ 63) then pos w else negsuc (2 ^ 64 - w - 1)

abbrev pub second : ℕ
second = 1_000_000_000

-- `parse_time` is http.ParseTime with the time that is left until then.
module _ (parse_time : Text → Option ℤ) where
  abbrev by_date : Text → ℤ
  by_date h = elim (parse_time h) [ none ↦ pos 0 | some d ↦ if is_positive d then d else pos 0 ]

  abbrev by_seconds : Text → Option ℤ → ℤ
  by_seconds h (some (pos secs)) = signed64 ((secs * second) % 2 ^ 64)
  by_seconds h (some (negsuc n)) = by_date h
  by_seconds h none = by_date h

  unfoldable pub parse_retry_after : Text → ℤ
  unfolding atoi
  parse_retry_after [] = pos 0
  parse_retry_after (c ∷ h) = by_seconds (c ∷ h) (atoi (c ∷ h))

read_digits-append :
    (acc : ℕ) (xs : Text) (v c : ℕ)
    → read_digits acc xs ≡ some v
    → c < 10
    → read_digits acc (xs ++ (48 + c) ∷ []) ≡ some (v * 10 + c)
unfolding read_digits
read_digits-append acc [] v c h lt = ground (arith, some-injective acc v h)
read_digits-append acc (x ∷ xs) v c h lt = elim (Bool-cases (leb b'0' x && leb x b'9')) [
  | inl e ↦ rw e (read_digits-append (acc * 10 + (x - 48)) xs v c (rw e at h) lt)
  | inr e ↦ cc (rw e at h)
]

read_digits-digits : (fuel n : ℕ) → n < fuel → read_digits 0 (digits fuel n) ≡ some n
unfolding digits read_digits
read_digits-digits zero n h = absurd (omega arith)
read_digits-digits (suc fuel) n h = elim (Bool-cases (ltb n 10)) [
  | inl e ↦ rw e (ground (arith, ltb→lt n 10 e))
  | inr e ↦ rw e (
      read_digits-append 0 (digits fuel (n / 10)) (n / 10) (n % 10)
        (read_digits-digits fuel (n / 10) (omega (arith, ltb→ge n 10 e))) (omega arith)
      ∙ ap (λ (k : ℕ). some k) (omega arith))
]

digits_first : (fuel n : ℕ) → n < fuel → (c : ℕ) × (s : Text) × (digits fuel n ≡ c ∷ s) × (48 ≤ c)
unfolding digits
digits_first zero n h = absurd (omega arith)
digits_first (suc fuel) n h = elim (Bool-cases (ltb n 10)) [
  | inl e ↦ (48 + n, [], rw e, omega arith)
  | inr e ↦
      let (c, s, first, high) = digits_first fuel (n / 10) (omega (arith, ltb→ge n 10 e)) in
      (c, s ++ (48 + n % 10) ∷ [], rw (e, first), high)
]

-- strconv.Atoi reads back every int that fmt prints.
atoi-decimal : (n : ℕ) → n < max_int → atoi (decimal n) ≡ some (pos n)
unfolding atoi decimal
atoi-decimal n h =
    let (c, s, first, high) = digits_first (suc n) n (omega arith) in
    let value = rw first at (read_digits-digits (suc n) n (omega arith)) in
    rw (first, atoi) (ground (arith, value, lt→ltb n max_int h))

abbrev pub longest : ℕ
longest = 9_223_372_036

decimal_first : (n : ℕ) → (c : ℕ) × (s : Text) × (decimal n ≡ c ∷ s)
unfolding decimal
decimal_first n = let (c, s, first, high) = digits_first (suc n) n (omega arith) in (c, s, first)

parse_retry_after-decimal :
    (parse_time : Text → Option ℤ) (n : ℕ)
    → n < max_int
    → parse_retry_after parse_time (decimal n) ≡ signed64 ((n * second) % 2 ^ 64)
unfolding parse_retry_after
parse_retry_after-decimal parse_time n h =
    let (c, s, first) = decimal_first n in
    let value = sym (ap atoi first) ∙ atoi-decimal n h in
    rw (first, parse_retry_after) (ap (by_seconds parse_time (c ∷ s)) value)

signed64_wrapped :
    (n : ℕ)
    → (n ≤ longest) × (signed64 ((n * second) % 2 ^ 64) ≡ pos (n * second))
      ⊎ (longest < n) × (signed64 ((n * second) % 2 ^ 64) ≢ pos (n * second))
signed64_wrapped n = elim (Bool-cases (leb n longest)) [
  | inl e ↦ inl (leb→le n longest e, ground (arith, leb→le n longest e))
  | inr e ↦ inr (leb→gt n longest e, λ k. ground (arith, leb→gt n longest e, k))
]

-- A Retry-After of whole seconds is read as that delay up to 292 years; beyond, where the product of
-- the int64 wraps round, what is read is never the delay that the server asked for.
pub parse_retry_after_lem :
    (parse_time : Text → Option ℤ) (n : ℕ)
    → n < 2 ^ 63
    → (n ≤ longest) × (parse_retry_after parse_time (decimal n) ≡ pos (n * second))
      ⊎ (longest < n) × (parse_retry_after parse_time (decimal n) ≢ pos (n * second))
parse_retry_after_lem parse_time n h =
    rw (parse_retry_after-decimal parse_time n h) (signed64_wrapped n)
