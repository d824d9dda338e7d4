-- ===== src/Httpapi/Stack/Guard.antt =====
-- What a request can do without the token, and what requests do to the indexer.
use rag_ai_system.Prelude.{
  ℕ, ◌<◌, ◌≡◌, refl, ◌≢◌, ◌⊎◌, inl, inr, true, false, ◌||◌, Option, List, [], ◌∷◌, arith,
  Bool-cases, length,
}
use rag_ai_system.Text.{Text, codes, text_eq}
use rag_ai_system.Rag.Unique.{text_eq→eq}
use rag_ai_system.Backoff.{Err}
use rag_ai_system.Httpapi.Auth.{bearer, public_path, authorized}
use rag_ai_system.Httpapi.Reindex.{expected, Indexer, request, Reach, next, Reach-workers}
use rag_ai_system.Httpapi.Handlers.{Service, handle_health}
use rag_ai_system.Httpapi.Stack.{
  Incoming, Decoders, Answered, replied, no_route, Route, health_route, search_route, ask_route,
  reindex_route, status_route, not_found, not_allowed, route_of, request_id_of, handle_reindex,
  dispatch, turned_away, handler,
}

text_eq-false : (s t : Text) → s ≢ t → text_eq s t ≡ false
text_eq-false s t h = elim (Bool-cases (text_eq s t)) [
  | inl e ↦ absurd (h (text_eq→eq s t e))
  | inr e ↦ e
]

public_authorized :
    (sha256 : Text → Text) (token path header : Text)
    → 0 < length token
    → text_eq path public_path ≡ true
    → authorized sha256 token path header ≡ true
unfolding authorized
public_authorized sha256 [] path header some_token e = refl
public_authorized sha256 (c ∷ token) path header some_token e = rw e refl

wrong_authorized :
    (sha256 : Text → Text) (token path header : Text)
    → 0 < length token
    → text_eq path public_path ≡ false
    → sha256 (bearer header) ≢ sha256 token
    → authorized sha256 token path header ≡ false
unfolding authorized
wrong_authorized sha256 [] path header some_token e wrong = absurd (omega arith)
wrong_authorized sha256 (c ∷ token) path header some_token e wrong =
    rw e (text_eq-false (sha256 (bearer header)) (sha256 (c ∷ token)) wrong)

module _ {Score S R E : Type 0} (svc : Service Score S) (dec : Decoders) (space : Text)
    (ctx_err : S → Option Err) (now : ℕ) where
  -- The counts of /health, or the mux's refusal of another method.
  abbrev pub OnlyHealth : Text → S → Answered Score R E × S → Type 0
  OnlyHealth id s (answer, s') =
      (answer ≡ replied (handle_health id svc s).0) × (s' ≡ (handle_health id svc s).1)
      ⊎ (answer ≡ no_route 405) × (s' ≡ s)

  public_dispatch :
      (id : Text) (req : Incoming) (ix : Indexer R E) (s : S)
      → text_eq req.path public_path ≡ true
      → let out =
          dispatch svc dec space ctx_err now id (route_of req.method req.path) req (ix, s) in
        (out.1.0 ≡ ix) × OnlyHealth id s (out.0, out.1.1)
  unfolding dispatch route_of
  public_dispatch id req ix s e =
      elim (Bool-cases (text_eq req.method (codes "GET") || text_eq req.method (codes "HEAD"))) [
        | inl k ↦ rw (e, k) (refl, inl (refl, refl))
        | inr k ↦ rw (e, k) (refl, inr (refl, refl))
      ]

  -- On a server with a token, a request whose credential has another digest starts no pass, and it is
  -- either turned away with 401 before the service is asked for anything, or it is one for /health and
  -- gets the counts or 405.
  pub handler_guarded :
      (sha256 : Text → Text) (token : Text) (random : List ℕ) (req : Incoming) (ix : Indexer R E)
      (s : S)
      → 0 < length token
      → sha256 (bearer req.authorization) ≢ sha256 token
      → let out = handler svc dec space ctx_err now sha256 token random req (ix, s) in
        (out.1.0 ≡ ix)
        × ((out.0 ≡ turned_away svc dec space ctx_err now (request_id_of req.request_id random))
              × (out.1.1 ≡ s)
            ⊎ (text_eq req.path public_path ≡ true)
              × OnlyHealth (request_id_of req.request_id random) s (out.0.answer, out.1.1))
  unfolding handler
  handler_guarded sha256 token random req ix s some_token wrong =
      elim (Bool-cases (text_eq req.path public_path)) [
        | inr e ↦
            rw (wrong_authorized sha256 token req.path req.authorization some_token e wrong)
              (refl, inl (refl, refl))
        | inl e ↦
            let (same, only) = public_dispatch (request_id_of req.request_id random) req ix s e in
            rw (public_authorized sha256 token req.path req.authorization some_token e)
              (same, inr (e, only))
      ]

  dispatch-Reach :
      (id : Text) (r : Route) (req : Incoming) (ix : Indexer R E) (s : S)
      → Reach ix
      → Reach (dispatch svc dec space ctx_err now id r req (ix, s)).1.0
  unfolding dispatch handle_reindex
  dispatch-Reach id health_route req ix s h = h
  dispatch-Reach id search_route req ix s h = h
  dispatch-Reach id ask_route req ix s h = h
  dispatch-Reach id reindex_route req ix s h = next h (request now ix)
  dispatch-Reach id status_route req ix s h = h
  dispatch-Reach id not_found req ix s h = h
  dispatch-Reach id not_allowed req ix s h = h

  -- Whatever is requested, the indexer stays one that starts and ends of passes lead to, so that one
  -- pass at most is under way, and exactly while the status says that it is running.
  pub handler-Reach :
      (sha256 : Text → Text) (token : Text) (random : List ℕ) (req : Incoming) (ix : Indexer R E)
      (s : S)
      → Reach ix
      → let ix' = (handler svc dec space ctx_err now sha256 token random req (ix, s)).1.0 in
        Reach ix' × (ix'.workers ≡ expected ix'.status.state)
  unfolding handler
  handler-Reach sha256 token random req ix s h =
      elim (Bool-cases (authorized sha256 token req.path req.authorization)) [
        | inr e ↦ rw e (h, Reach-workers h)
        | inl e ↦
            let there =
              dispatch-Reach (request_id_of req.request_id random) (route_of req.method req.path)
                req ix s h in
            rw e (there, Reach-workers there)
      ]
