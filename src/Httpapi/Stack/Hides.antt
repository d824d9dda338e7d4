-- ===== src/Httpapi/Stack/Hides.antt =====
-- What a client learns of an error of the application: respondUpstreamError of
-- internal/httpapi/handlers.go, through Handler of server.go.
use rag_ai_system.Prelude.{
  ℕ, ◌≡◌, refl, ap, inl, inr, Option, none, List, [], Bool-cases, Result, ok, err,
}
use rag_ai_system.Text.{Text, codes, is_nil, trim_space}
use rag_ai_system.Backoff.{Err}
use rag_ai_system.Knowledge.Ask.{Hit, Answer}
use rag_ai_system.Httpapi.Auth.{authorized}
use rag_ai_system.Httpapi.Reindex.{Indexer}
use rag_ai_system.Httpapi.Handlers.{
  Stats, Service, Reply, Request, decode_body, timed_out, respond_upstream_error, health_reply,
  handle_health, search_reply, ask_reply, handle_search, handle_ask,
}
use rag_ai_system.Httpapi.Stack.{
  Incoming, Decoders, Answered, replied, indexing, no_route, Outgoing, Route, health_route,
  search_route, ask_route, reindex_route, status_route, not_found, not_allowed, route_of,
  request_id_of, over_service, dispatch, handler,
}

-- The errors of a service as others.
abbrev pub as_other : {A S : Type 0} → (Err → Err) → Result Err A × S → Result Err A × S
as_other f (ok a, s) = (ok a, s)
as_other f (err e, s) = (err (f e), s)

abbrev pub with_errors : {Score S : Type 0} → (Err → Err) → Service Score S → Service Score S
with_errors f svc = record {
  stats = λ s. as_other f (svc.stats s);
  search = λ q k s. as_other f (svc.search q k s);
  ask = λ q k s. as_other f (svc.ask q k s);
}

module _ {Score R E : Type 0} where
  -- What the client gets of an answer: all but the line in the log.
  abbrev pub shown : Answered Score R E → Answered Score R E
  shown (replied r) = replied (record r { logged = [] })
  shown (indexing status st) = indexing status st
  shown (no_route status) = no_route status

  abbrev pub received : Outgoing Score R E → Outgoing Score R E
  received out = record out { answer = shown out.answer }

abbrev Same : {Score S : Type 0} → Reply Score × S → Reply Score × S → Type 0
Same (r, s) (r', s') = (r.status ≡ r'.status) × (r.body ≡ r'.body) × (s ≡ s')

module _ {Score S : Type 0} (svc : Service Score S) (space : Text) (ctx_err : S → Option Err)
    (f : Err → Err)
    (same_end : (s : S) (e : Err) → timed_out (ctx_err s) (f e) ≡ timed_out (ctx_err s) e) where
  upstream-Same :
      (id msg : Text) (e : Err) (s : S)
      → Same
          (respond_upstream_error {Score = Score} id (ctx_err s) msg (f e), s)
          (respond_upstream_error id (ctx_err s) msg e, s)
  unfolding respond_upstream_error
  upstream-Same id msg e s = elim (Bool-cases (timed_out (ctx_err s) e)) [
    | inl k ↦ rw (same_end s e, k) (refl, refl, refl)
    | inr k ↦ rw (same_end s e, k) (refl, refl, refl)
  ]

  health-Same :
      (id : Text) (r : Result Err Stats × S)
      → Same {Score = Score} (health_reply id (as_other f r)) (health_reply id r)
  health-Same id (ok st, s) = (refl, refl, refl)
  health-Same id (err e, s) = (refl, refl, refl)

  search-Same :
      (id : Text) (r : Result Err (List (Hit Score)) × S)
      → Same (search_reply id ctx_err space (as_other f r)) (search_reply id ctx_err space r)
  search-Same id (ok hits, s) = (refl, refl, refl)
  search-Same id (err e, s) = upstream-Same id (codes "search failed") e s

  ask-Same :
      (id : Text) (r : Result Err (Answer Score) × S)
      → Same (ask_reply id ctx_err space (as_other f r)) (ask_reply id ctx_err space r)
  ask-Same id (ok a, s) = (refl, refl, refl)
  ask-Same id (err e, s) = upstream-Same id (codes "ask failed") e s

  handle_search-Same :
      (id : Text) (body : Result Text Request) (s : S)
      → Same
          (handle_search id (with_errors f svc) space ctx_err body s)
          (handle_search id svc space ctx_err body s)
  unfolding handle_search
  handle_search-Same id (err msg) s = (refl, refl, refl)
  handle_search-Same id (ok req) s = elim (Bool-cases (is_nil (trim_space req.question))) [
    | inl k ↦ rw k (refl, refl, refl)
    | inr k ↦ rw k (search-Same id (svc.search (trim_space req.question) _ s))
  ]

  handle_ask-Same :
      (id : Text) (body : Result Text Request) (s : S)
      → Same
          (handle_ask id (with_errors f svc) space ctx_err body s)
          (handle_ask id svc space ctx_err body s)
  unfolding handle_ask
  handle_ask-Same id (err msg) s = (refl, refl, refl)
  handle_ask-Same id (ok req) s = elim (Bool-cases (is_nil (trim_space req.question))) [
    | inl k ↦ rw k (refl, refl, refl)
    | inr k ↦ rw k (ask-Same id (svc.ask (trim_space req.question) _ s))
  ]

module _ {Score S R E : Type 0} where
  over-Same :
      (ix : Indexer R E) (a b : Reply Score × S)
      → Same a b
      → (shown {R = R} {E = E} (replied a.0) ≡ shown (replied b.0))
        × ((over_service {R = R} {E = E} ix a).1 ≡ (over_service ix b).1)
  over-Same ix (r, s) (r', s') (status, body, state) = (cc (status, body), ap (λ x. (ix, x)) state)

module _ {Score S R E : Type 0} (svc : Service Score S) (dec : Decoders) (space : Text)
    (ctx_err : S → Option Err) (now : ℕ) (f : Err → Err)
    (same_end : (s : S) (e : Err) → timed_out (ctx_err s) (f e) ≡ timed_out (ctx_err s) e) where
  dispatch-shown :
      (id : Text) (r : Route) (req : Incoming) (ix : Indexer R E) (s : S)
      → let (a, st) = dispatch (with_errors f svc) dec space ctx_err now id r req (ix, s) in
        let (b, st') = dispatch svc dec space ctx_err now id r req (ix, s) in
        (shown a ≡ shown b) × (st ≡ st')
  unfolding dispatch handle_health
  dispatch-shown id health_route req ix s =
      over-Same ix (handle_health id (with_errors f svc) s) (handle_health id svc s)
        (health-Same svc space ctx_err f same_end id (svc.stats s))
  dispatch-shown id search_route req ix s =
      let body = decode_body dec.search_request req.body in
      over-Same ix (handle_search id (with_errors f svc) space ctx_err body s)
        (handle_search id svc space ctx_err body s)
        (handle_search-Same svc space ctx_err f same_end id body s)
  dispatch-shown id ask_route req ix s =
      let body = decode_body dec.ask_request req.body in
      over-Same ix (handle_ask id (with_errors f svc) space ctx_err body s)
        (handle_ask id svc space ctx_err body s)
        (handle_ask-Same svc space ctx_err f same_end id body s)
  dispatch-shown id reindex_route req ix s = (refl, refl)
  dispatch-shown id status_route req ix s = (refl, refl)
  dispatch-shown id not_found req ix s = (refl, refl)
  dispatch-shown id not_allowed req ix s = (refl, refl)

  -- What a client gets does not depend on what an error of the application says. If each error is
  -- replaced by one that is the end of the request's context exactly where the first is, the same
  -- request gets the same status, headers and body and leaves the same state; the log alone may differ.
  pub handler_hides :
      (sha256 : Text → Text) (token : Text) (random : List ℕ) (req : Incoming) (ix : Indexer R E)
      (s : S)
      → let (a, st) =
          handler (with_errors f svc) dec space ctx_err now sha256 token random req (ix, s) in
        let (b, st') = handler svc dec space ctx_err now sha256 token random req (ix, s) in
        (received a ≡ received b) × (st ≡ st')
  unfolding handler
  handler_hides sha256 token random req ix s =
      let id = request_id_of req.request_id random in
      elim (Bool-cases (authorized sha256 token req.path req.authorization)) [
        | inr k ↦ rw k (refl, refl)
        | inl k ↦
            let (answer, state) = dispatch-shown id (route_of req.method req.path) req ix s in
            rw k (ap (λ a. record { request_id = id; challenge = none; answer = a }) answer, state)
      ]
