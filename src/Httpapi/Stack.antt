-- ===== src/Httpapi/Stack.antt =====
-- Handler of internal/httpapi/server.go: the routes behind withAuth and withRequestID, and the
-- handlers of reindex.go and handlers.go that they reach. Paths are clean ones, which the mux does not
-- redirect; withLogging, withRecover and withTimeout change no state.
pub mod Guard
pub mod Hides
mod Tests
use rag_ai_system.Prelude.{ℕ, ◌||◌, Option, none, some, List, if◌then◌else◌}
use rag_ai_system.Text.{Text, codes, is_nil, text_eq}
use rag_ai_system.Embed.{hex}
use rag_ai_system.Backoff.{Err}
use rag_ai_system.Httpapi.Auth.{public_path, authorized}
use rag_ai_system.Httpapi.Reindex.{Status, Indexer, start}
use rag_ai_system.Httpapi.Handlers.{
  Service, Reply, Decode, decode_body, fails, handle_health, handle_search, handle_ask,
}

pub record Incoming : Type 0 where
  pub method : Text
  pub path : Text
  pub authorization : Text
  pub request_id : Text
  pub body : List ℕ

-- What encoding/json makes of the bodies of POST /search and POST /ask.
pub record Decoders : Type 0 where
  pub search_request : Decode
  pub ask_request : Decode

-- What a handler answers: a reply of handlers.go, a snapshot of the indexer, or what the mux itself
-- sends.
pub data Answered (Score R E : Type 0) : Type 0 where
  replied : Reply Score → Answered Score R E
  indexing : ℕ → Status R E → Answered Score R E
  no_route : ℕ → Answered Score R E

pub record Outgoing (Score R E : Type 0) : Type 0 where
  pub request_id : Text
  pub challenge : Option Text
  pub answer : Answered Score R E

pub data Route : Type 0 where
  health_route search_route ask_route reindex_route status_route not_found not_allowed : Route

abbrev get_method : Text
get_method = codes "GET"

-- A pattern for GET takes HEAD too.
abbrev pub on_get : Text → Route → Route
on_get method r =
    if text_eq method get_method || text_eq method (codes "HEAD") then r else not_allowed

abbrev pub on_post : Text → Route → Route
on_post method r = if text_eq method (codes "POST") then r else not_allowed

-- The patterns of the mux.
unfoldable pub route_of : Text → Text → Route
unfolding text_eq
route_of method path =
    if text_eq path public_path
    then on_get method health_route
    else if text_eq path (codes "/search")
    then on_post method search_route
    else if text_eq path (codes "/ask")
    then on_post method ask_route
    else if text_eq path (codes "/reindex")
    then on_post method reindex_route
    else if text_eq path (codes "/reindex/status")
    then on_get method status_route
    else not_found

-- The id of a request: its own, or that of eight random bytes.
unfoldable pub request_id_of : Text → List ℕ → Text
unfolding hex
request_id_of given random = if is_nil given then hex random else given

module _ {Score R E : Type 0} where
  -- handleReindex; no pass ends between the start and the snapshot.
  unfoldable pub handle_reindex : ℕ → Indexer R E → Answered Score R E × Indexer R E
  unfolding start
  handle_reindex now ix =
      let (next_ix, accepted) = start now ix in
      (indexing (if accepted then 202 else 409) next_ix.status, next_ix)

  -- handleReindexStatus
  abbrev pub handle_reindex_status : Indexer R E → Answered Score R E
  handle_reindex_status ix = indexing 200 ix.status

module _ {Score S R E : Type 0} where
  abbrev pub over_service : Indexer R E → Reply Score × S → Answered Score R E × (Indexer R E × S)
  over_service ix (reply, s) = (replied reply, (ix, s))

  abbrev pub over_indexer :
      S → Answered Score R E × Indexer R E → Answered Score R E × (Indexer R E × S)
  over_indexer s (a, ix) = (a, (ix, s))

module _ {Score S R E : Type 0} (svc : Service Score S) (dec : Decoders) (space : Text)
    (ctx_err : S → Option Err) (now : ℕ) where
  unfoldable pub dispatch :
      Text → Route → Incoming → Indexer R E × S → Answered Score R E × (Indexer R E × S)
  unfolding decode_body handle_health handle_search handle_ask handle_reindex
  dispatch id health_route req (ix, s) = over_service ix (handle_health id svc s)
  dispatch id search_route req (ix, s) =
      over_service ix
        (handle_search id svc space ctx_err (decode_body dec.search_request req.body) s)
  dispatch id ask_route req (ix, s) =
      over_service ix (handle_ask id svc space ctx_err (decode_body dec.ask_request req.body) s)
  dispatch id reindex_route req (ix, s) = over_indexer s (handle_reindex now ix)
  dispatch id status_route req (ix, s) = (handle_reindex_status ix, (ix, s))
  dispatch id not_found req (ix, s) = (no_route 404, (ix, s))
  dispatch id not_allowed req (ix, s) = (no_route 405, (ix, s))

  abbrev pub tagged :
      Text → Answered Score R E × (Indexer R E × S) → Outgoing Score R E × (Indexer R E × S)
  tagged id (a, st) = (record { request_id = id; challenge = none; answer = a }, st)

  abbrev pub turned_away : Text → Outgoing Score R E
  turned_away id = record {
    request_id = id;
    challenge = some (codes "Bearer realm=\"rag\"");
    answer = replied (fails id 401 (codes "missing or invalid token"));
  }

  -- `sha256` is the digest, `token` the configured one, and `random` what rand.Read gives.
  unfoldable pub handler :
      (Text → Text)
      → Text
      → List ℕ
      → Incoming
      → Indexer R E × S
      → Outgoing Score R E × (Indexer R E × S)
  unfolding authorized route_of dispatch request_id_of
  handler sha256 token random req st =
      let id = request_id_of req.request_id random in
      if authorized sha256 token req.path req.authorization
      then tagged id (dispatch id (route_of req.method req.path) req st)
      else (turned_away id, st)
