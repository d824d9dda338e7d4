-- ===== src/Httpapi/Handlers.antt =====
-- internal/httpapi/handlers.go: the handlers over a service, which is a parameter.
mod Tests
use rag_ai_system.Prelude.{
  ℕ, zero, suc, ◌≤◌, ◌<◌, ◌≡◌, refl, ◌⊎◌, inl, inr, Bool, true, false, ◌||◌, Option, none, some,
  List, [], ◌∷◌, ◌++◌, map, arith, ltb, if◌then◌else◌, length, take, ℤ, pos, negsuc, to_nat,
  is_positive, Result, ok, err,
}
use rag_ai_system.Text.{Text, codes, is_nil, trim_space}
use rag_ai_system.Knowledge.Ask.{Hit, Answer, search}
use rag_ai_system.Backoff.{
  Err, canceled, deadline_exceeded, net_error, plain, retryable, wrapped, joined,
}

abbrev pub default_k : ℕ
default_k = 5

abbrev pub max_k : ℕ
max_k = 25

unfoldable pub clamp_k : ℤ → ℕ
clamp_k k = if is_positive k then (if ltb max_k (to_nat k) then max_k else to_nat k) else default_k

-- `Score` is the type of floats.
pub record HitResponse (Score : Type 0) : Type 0 where
  pub score : Score
  pub note_path : Text
  pub note_name : Text
  pub chunk_index : ℤ
  pub text : Text

pub record Stats : Type 0 where
  pub notes : ℕ
  pub chunks : ℕ
  pub embedded : ℕ
  pub space : Text

-- The Service interface over the application's state.
pub record Service (Score S : Type 0) : Type 0 where
  pub stats : S → Result Err Stats × S
  pub search : Text → ℕ → S → Result Err (List (Hit Score)) × S
  pub ask : Text → ℕ → S → Result Err (Answer Score) × S

-- The bodies that the handlers send; a failure has its message and the id of the request.
pub data Body (Score : Type 0) : Type 0 where
  failure : Text → Text → Body Score
  health : Stats → Body Score
  found : Text → List (HitResponse Score) → Body Score
  answered : Text → Text → Text → List Text → Score → Body Score

-- The line of respondUpstreamError in the log.
pub record Logged : Type 0 where
  pub message : Text
  pub request_id : Text
  pub cause : Err

-- What a handler sends, and what it logs.
pub record Reply (Score : Type 0) : Type 0 where
  pub status : ℕ
  pub body : Body Score
  pub logged : List Logged

pub record Request : Type 0 where
  pub question : Text
  pub k : ℤ

-- 64 << 10
abbrev pub max_request_body : ℕ
max_request_body = 65536

-- json.Decoder.Decode on a request: on the bytes that it can read, and on what reading past them says,
-- which is the end of the body if it is no error.
abbrev pub Decode : Type 0
Decode = List ℕ → Option Text → Result Text Request

-- decodeBody, behind http.MaxBytesReader.
unfoldable pub decode_body : Decode → List ℕ → Result Text Request
decode_body decode body = decode (take max_request_body body) (
    if ltb max_request_body (length body)
    then some (codes "http: request body too large")
    else none)

-- errors.Is(err, target) for an end of the context.
abbrev pub same_end : Err → Err → Bool
same_end canceled canceled = true
same_end deadline_exceeded deadline_exceeded = true
same_end e target = false

unfoldable pub is_err : Err → Err → Bool
is_err canceled target = same_end canceled target
is_err deadline_exceeded target = same_end deadline_exceeded target
is_err (net_error m) target = false
is_err (plain m) target = false
is_err (retryable e after) target = is_err e target
is_err (wrapped m e) target = is_err e target
is_err (joined a b) target = is_err a target || is_err b target

abbrev pub timed_out : Option Err → Err → Bool
timed_out none e = false
timed_out (some ended) e = is_err e ended

module _ {Score : Type 0} where
  unfoldable pub to_hit : Hit Score → HitResponse Score
  to_hit h = record {
    score = h.score;
    note_path = h.source;
    note_name = h.title;
    chunk_index = h.index;
    text = h.text;
  }

  abbrev pub sends : Body Score → Reply Score
  sends body = record { status = 200; body = body; logged = [] }

  -- writeError; `id` is the request's.
  abbrev pub fails : Text → ℕ → Text → Reply Score
  fails id status msg = record { status = status; body = failure msg id; logged = [] }

  -- `ctx_err` is the request's context after the call.
  unfoldable pub respond_upstream_error : Text → Option Err → Text → Err → Reply Score
  respond_upstream_error id ctx_err msg e =
      if timed_out ctx_err e
      then fails id 504 (codes "request timed out")
      else record (fails id 502 msg) {
        logged = record { message = msg; request_id = id; cause = e } ∷ [];
      }

module _ {Score S : Type 0} where
  abbrev pub health_reply : Text → Result Err Stats × S → Reply Score × S
  health_reply id (ok st, s) = (sends (health st), s)
  health_reply id (err e, s) = (fails id 503 (codes "database unavailable"), s)

  unfoldable pub handle_health : Text → Service Score S → S → Reply Score × S
  handle_health id a s = health_reply id (a.stats s)

  abbrev pub search_reply :
      Text → (S → Option Err) → Text → Result Err (List (Hit Score)) × S → Reply Score × S
  search_reply id ctx_err space (ok hits, s) = (sends (found space (map to_hit hits)), s)
  search_reply id ctx_err space (err e, s) =
      (respond_upstream_error id (ctx_err s) (codes "search failed") e, s)

  abbrev pub ask_reply :
      Text → (S → Option Err) → Text → Result Err (Answer Score) × S → Reply Score × S
  ask_reply id ctx_err space (ok a, s) =
      (sends (answered a.text a.model space a.sources a.top_score), s)
  ask_reply id ctx_err space (err e, s) =
      (respond_upstream_error id (ctx_err s) (codes "ask failed") e, s)

  -- `body` is what decodeBody made of the request, or the text of its error.
  unfoldable pub handle_search :
      Text → Service Score S → Text → (S → Option Err) → Result Text Request → S → Reply Score × S
  unfolding trim_space clamp_k respond_upstream_error to_hit
  handle_search id a space ctx_err (err msg) s =
      (fails id 400 (codes "invalid request body: " ++ msg), s)
  handle_search id a space ctx_err (ok req) s =
      let query = trim_space req.question in
      if is_nil query
      then (fails id 400 (codes "query is required"), s)
      else search_reply id ctx_err space (a.search query (clamp_k req.k) s)

  unfoldable pub handle_ask :
      Text → Service Score S → Text → (S → Option Err) → Result Text Request → S → Reply Score × S
  unfolding trim_space clamp_k respond_upstream_error
  handle_ask id a space ctx_err (err msg) s =
      (fails id 400 (codes "invalid request body: " ++ msg), s)
  handle_ask id a space ctx_err (ok req) s =
      let question = trim_space req.question in
      if is_nil question
      then (fails id 400 (codes "question is required"), s)
      else ask_reply id ctx_err space (a.ask question (clamp_k req.k) s)

-- The number of passages that a request asks for lies in 1..25, and is the request's own where that
-- does.
pub clamp_k_bounds :
    (k : ℤ)
    → (0 < clamp_k k)
      × (clamp_k k ≤ max_k)
      × ((clamp_k k ≡ to_nat k) ⊎ (is_positive k ≡ false) ⊎ (max_k < to_nat k))
unfolding clamp_k
clamp_k_bounds (pos zero) = (omega arith, omega arith, inr (inl refl))
clamp_k_bounds (pos (suc n)) = ground arith
clamp_k_bounds (negsuc n) = (omega arith, omega arith, inr (inl refl))
