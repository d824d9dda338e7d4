-- ===== src/Http.antt =====
-- What the clients of embed and llm use of net/http: one POST of a JSON body over a state, which
-- holds the other side. The texts of errors keep their fixed parts.
use rag_ai_system.Prelude.{
  Bool, false, ◌&&◌, Option, none, some, List, [], ◌∷◌, ◌==◌, if◌then◌else◌, ℤ, pos, negsuc, Result,
}
use rag_ai_system.Text.{Text, codes, is_nil}
use rag_ai_system.Backoff.{Err, retryable, mark_transport, is_transient_status}
use rag_ai_system.Backoff.RetryAfter.{parse_retry_after}

pub record Response : Type 0 where
  pub status : ℤ
  pub retry_after : Text
  pub body : Result Err Text

-- NewRequest may refuse the address and Do may fail; reading the body of a response may fail too.
pub data Exchange : Type 0 where
  unbuilt : Err → Exchange
  unsent : Err → Exchange
  answered : Response → Exchange

-- A request: the address, the headers as the code sets them, and the body before its encoding.
pub record Post (B : Type 0) : Type 0 where
  pub url : Text
  pub headers : List (Text × Text)
  pub body : B

abbrev pub content_type : Text × Text
content_type = (codes "Content-Type", codes "application/json")

-- backoff.MarkTransport of an error that is there.
unfoldable pub transport : Err → Err
unfolding mark_transport
transport e = elim (mark_transport (some e)) [ none ↦ e | some x ↦ x ]

-- What each client makes of a status that is not 200.
unfoldable pub rejection : (Text → Option ℤ) → Err → Response → Err
unfolding is_transient_status parse_retry_after
rejection parse_time e r =
    if is_transient_status r.status
    then retryable e (parse_retry_after parse_time r.retry_after)
    else e

abbrev pub is_ok : ℤ → Bool
is_ok (pos code) = code == 200
is_ok (negsuc n) = false

-- strings.TrimRight(s, "/")
unfoldable pub trim_slashes : Text → Text
trim_slashes [] = []
trim_slashes (c ∷ s) =
    let rest = trim_slashes s in if c == b'/' && is_nil rest then [] else c ∷ rest
