-- ===== src/Embed.antt =====
-- embed/embed.go and embed/middleware.go: spaces and their table names, the Provider interface, its
-- decorators, and batching. A vector is a list of floats, whose type is a parameter.
pub mod Slug
pub mod Contract
pub mod OpenAi
pub mod Ollama
pub mod Floats
pub mod Google
pub mod Fake
pub mod Decorated
pub mod Factory
pub mod Batches
pub mod Limits
mod Tests
use rag_ai_system.Prelude.{
  ℕ, zero, suc, ◌+◌, ◌-◌, ◌/◌, ◌%◌, Bool, true, false, ◌&&◌, ◌||◌, Option, none, some, List, [],
  ◌∷◌, ◌++◌, map, ltb, leb, ◌==◌, if◌then◌else◌, length, take, drop, ℤ, pos, to_nat, is_positive,
  Result, ok, err,
}
use rag_ai_system.Text.{Text, codes, is_nil, trim_space}
use rag_ai_system.Text.Decimal.{decimal_int}
use rag_ai_system.Backoff.{Err, plain, wrapped, Policy, positive_or, World, retry}

pub data Kind : Type 0 where
  document : Kind
  query : Kind

pub record Space : Type 0 where
  pub provider : Text
  pub model : Text
  pub dim : ℤ

-- Space.String
unfoldable pub show_space : Space → Text
show_space s = s.provider ++ codes "/" ++ s.model ++ codes "@" ++ decimal_int s.dim

pub data SpaceError : Type 0 where
  no_provider : SpaceError
  no_model : SpaceError
  dim_out_of_range : SpaceError

abbrev dim_in_range : ℤ → Bool
dim_in_range d = is_positive d && leb (to_nat d) 16000

unfoldable pub validate : Space → Option SpaceError
validate s =
    if is_nil (trim_space s.provider)
    then some no_provider
    else if is_nil (trim_space s.model)
    then some no_model
    else if dim_in_range s.dim
    then none
    else some dim_out_of_range

abbrev pub max_slug_len : ℕ
max_slug_len = 54

abbrev pub digest_len : ℕ
digest_len = 8

unfoldable pub is_slug_char : ℕ → Bool
is_slug_char r = (leb b'a' r && leb r b'z') || (leb b'0' r && leb r b'9')

abbrev pub underscore : ℕ
underscore = b'_'

-- The loop of sanitize over the lowered runes, with `lastUnderscore`.
unfoldable pub fold_runes : Bool → Text → Text
unfolding is_slug_char
fold_runes last_underscore [] = []
fold_runes last_underscore (r ∷ s) =
    let plain_rest = fold_runes false s in
    let folded_rest = fold_runes true s in
    if is_slug_char r
    then r ∷ plain_rest
    else if last_underscore
    then folded_rest
    else underscore ∷ folded_rest

pub trim_underscores_left : Text → Text
trim_underscores_left [] = []
trim_underscores_left (c ∷ s) =
    let rest = trim_underscores_left s in if c == underscore then rest else c ∷ s

pub trim_underscores_right : Text → Text
trim_underscores_right [] = []
trim_underscores_right (c ∷ s) =
    let rest = trim_underscores_right s in if c == underscore && is_nil rest then [] else c ∷ rest

-- hex.EncodeToString
unfoldable pub hex_digit : ℕ → ℕ
hex_digit n = if ltb n 10 then 48 + n else 87 + n

unfoldable pub hex : List ℕ → Text
unfolding hex_digit
hex [] = []
hex (b ∷ bs) = hex_digit (b / 16) ∷ hex_digit (b % 16) ∷ hex bs

-- `to_lower` is unicode.ToLower on a rune, and `sha256` the digest of a text as a list of bytes.
module _ (to_lower : ℕ → ℕ) (sha256 : Text → List ℕ) where
  unfoldable pub sanitize : Text → Text
  unfolding fold_runes trim_underscores_left trim_underscores_right
  sanitize s = trim_underscores_left (trim_underscores_right (fold_runes false (map to_lower s)))

  unfoldable pub slug_suffix : Space → Text
  unfolding hex show_space
  slug_suffix s = underscore ∷ take digest_len (hex (sha256 (show_space s)))

  unfoldable pub slug_prefix : Space → Text
  unfolding sanitize
  slug_prefix s =
      codes "emb_"
      ++ sanitize s.provider
      ++ codes "__"
      ++ sanitize s.model
      ++ codes "__"
      ++ decimal_int s.dim

  unfoldable pub slug : Space → Text
  unfolding slug_prefix slug_suffix
  slug s =
      let suffix = slug_suffix s in
      let full = slug_prefix s in
      (if ltb max_slug_len (length full + length suffix)
        then take (max_slug_len - length suffix) full
        else full)
      ++ suffix

-- A provider over a state that its calls may change.
module _ (F : Type 0) where
  abbrev pub Vector : Type 0
  Vector = List F

  pub record Provider (S : Type 0) : Type 0 where
    pub embed : List Text → Kind → S → Result Err (List Vector) × S
    pub space : Space
    pub max_batch : ℤ

module _ {F : Type 0} where
  -- checkResult: one vector for each text, each of the space's dimension.
  unfoldable pub all_dims : ℤ → List (List F) → Bool
  all_dims dim [] = true
  all_dims dim (v ∷ vs) = (is_positive dim && length v == to_nat dim) && all_dims dim vs

  unfoldable pub check_result : Space → List Text → List (List F) → Option Err
  unfolding all_dims
  check_result space texts got =
      if length got == length texts
      then (if all_dims space.dim got then none else some (plain (codes "wrong dimension")))
      else some (plain (codes "wrong number of vectors"))

module _ {F S : Type 0} where
  -- What the closure of WithRetry hands to Do: the call's error, with the vectors kept in `out`.
  abbrev pub keep : Result Err (List (List F)) × S → Option Err × (S × List (List F))
  keep (ok vectors, s) = (none, (s, vectors))
  keep (err e, s) = (some e, (s, []))

  abbrev pub deliver :
      Option (Option Err × (S × List (List F))) → S → Result Err (List (List F)) × S
  deliver none s = (err (plain (codes "Do did not return")), s)
  deliver (some (none, (s', out))) s = (ok out, s')
  deliver (some (some e, (s', out))) s = (err e, s')

  -- The world of a call, while `out` is kept beside it.
  abbrev pub beside : World S → World (S × List (List F))
  beside w = record {
    ctx_err = λ t. w.ctx_err t.0;
    draw = λ t n. w.draw t.0 n;
    wait = λ t d. ((w.wait t.0 d).0, ((w.wait t.0 d).1, t.1));
  }

  -- By `retry_total` the first case of `deliver` does not arise.
  unfoldable pub with_retry : World S → Policy → Provider F S → Provider F S
  with_retry w policy next = record {
    embed = λ texts kind s.
        deliver (retry (beside w) policy (λ t. keep (next.embed texts kind t.0)) (s, [])) s;
    space = next.space;
    max_batch = next.max_batch;
  }

  abbrev pub after_wait :
      (S → Result Err (List (List F)) × S) → Option Err × S → Result Err (List (List F)) × S
  after_wait call (none, s) = call s
  after_wait call (some e, s) = (err (wrapped (codes "rate limit wait") e), s)

  abbrev pub limited :
      (S → Option Err × S) → Provider F S → List Text → Kind → S → Result Err (List (List F)) × S
  limited wait next [] kind s = (ok [], s)
  limited wait next (t ∷ ts) kind s = after_wait (next.embed (t ∷ ts) kind) (wait s)

  -- `limiter burst` is the Wait of a new rate.Limiter; `has_rate` says that `rps > 0`.
  unfoldable pub with_rate_limit : (ℤ → S → Option Err × S) → Bool → ℤ → Provider F S → Provider F S
  with_rate_limit limiter has_rate burst p =
      if has_rate
      then record {
        embed = limited (limiter (positive_or burst (pos 1))) p;
        space = p.space;
        max_batch = p.max_batch;
      }
      else p

  abbrev pub batch_size : Provider F S → ℕ
  batch_size p = to_nat (positive_or p.max_batch (pos 1))

  -- What one round of Batched makes of the provider's answer; `again` is its next round.
  abbrev pub take_part :
      List Text
      → List (List F)
      → (List (List F) → S → Option (Result Err (List (List F)) × S))
      → Result Err (List (List F)) × S
      → Option (Result Err (List (List F)) × S)
  take_part batch out again (err e, s) = some (err (wrapped (codes "embed batch") e), s)
  take_part batch out again (ok part, s) =
      if length part == length batch
      then again (out ++ part) s
      else some (err (plain (codes "got another number of vectors")), s)

  -- The loop of Batched, over the texts from `start` on; `none` means that the fuel ran out.
  unfoldable pub batches :
      ℕ
      → Provider F S
      → List Text
      → Kind
      → List (List F)
      → S
      → Option (Result Err (List (List F)) × S)
  batches fuel p [] kind out s = some (ok out, s)
  batches zero p (t ∷ ts) kind out s = none
  batches (suc fuel) p (t ∷ ts) kind out s =
      let batch = take (batch_size p) (t ∷ ts) in
      take_part batch out (λ out' s'. batches fuel p (drop (batch_size p) (t ∷ ts)) kind out' s')
        (p.embed batch kind s)

  unfoldable pub batched :
      Provider F S → List Text → Kind → S → Option (Result Err (List (List F)) × S)
  unfolding batches
  batched p texts kind s = batches (length texts) p texts kind [] s
