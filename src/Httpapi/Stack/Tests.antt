-- ===== src/Httpapi/Stack/Tests.antt =====
-- A request to start a pass, without the token and with it.
use rag_ai_system.Prelude.{ℕ, ◌+◌, ◌≡◌, refl, none, [], ◌∷◌, pos, ok, err}
use rag_ai_system.Text.{Text, codes, is_space, trim_left, trim_right, trim_space, text_eq}
use rag_ai_system.Backoff.{Err, plain}
use rag_ai_system.Httpapi.Auth.{equal_fold, bearer, authorized}
use rag_ai_system.Httpapi.Reindex.{Indexer, new_indexer, start}
use rag_ai_system.Httpapi.Handlers.{Service, failure, respond_upstream_error, handle_ask}
use rag_ai_system.Httpapi.Stack.{
  Incoming, Decoders, replied, indexing, no_route, Outgoing, route_of, handle_reindex, dispatch,
  handler,
}
use rag_ai_system.Httpapi.Stack.Hides.{with_errors, received, handler_hides}

abbrev service : Service ℕ ℕ
service = record {
  stats = λ s. (ok (record { notes = s; chunks = 0; embedded = 0; space = codes "fake" }), s);
  search = λ q k s. (ok [], s + 1);
  ask = λ q k s. (err (plain (codes "no generator")), s + 1);
}

abbrev reindex : Text → Incoming
reindex header = record {
  method = codes "POST";
  path = codes "/reindex";
  authorization = header;
  request_id = codes "r1";
  body = [];
}

abbrev refused : Decoders
refused = record {
  search_request = λ bytes ended. err (codes "EOF");
  ask_request = λ bytes ended. err (codes "EOF");
}

abbrev same_text : Text → Text
same_text t = t

abbrev sent : Text → Outgoing ℕ ℕ ℕ × (Indexer ℕ ℕ × ℕ)
sent header =
    handler service refused (codes "fake") (λ s. none) 9 same_text (codes "key") [] (reindex header)
      (new_indexer, 3)

abbrev answered_status : Outgoing ℕ ℕ ℕ → ℕ
answered_status out = elim out.answer [
  | replied r ↦ r.status
  | indexing code st ↦ code
  | no_route code ↦ code
]

accepted :
    (answered_status (sent (codes "Bearer key")).0 ≡ 202)
    × ((sent (codes "Bearer key")).1.0.workers ≡ 1)
unfolding handler authorized bearer equal_fold text_eq route_of dispatch handle_reindex start
    new_indexer
accepted = (refl, refl)

abbrev asks : Decoders
asks = record {
  search_request = λ bytes ended. err (codes "EOF");
  ask_request = λ bytes ended. ok (record { question = codes "q"; k = pos 3 });
}

abbrev ask : Incoming
ask = record {
  method = codes "POST";
  path = codes "/ask";
  authorization = [];
  request_id = codes "r2";
  body = codes "{}";
}

abbrev other_error : Err → Err
other_error e = plain (codes "key sk-1 refused")

abbrev asked : Service ℕ ℕ → Outgoing ℕ ℕ ℕ × (Indexer ℕ ℕ × ℕ)
asked svc = handler svc asks (codes "fake") (λ s. none) 9 same_text [] [] ask (new_indexer, 3)

handler_hides_example :
    (received (asked (with_errors other_error service)).0 ≡ received (asked service).0)
    × ((asked (with_errors other_error service)).1 ≡ (asked service).1)
handler_hides_example =
    handler_hides service asks (codes "fake") (λ s. none) 9 other_error (λ s e. refl) same_text []
      [] ask new_indexer 3

-- The client gets 502 and the general message, and the log the cause.
refused_upstream :
    (asked service).0.answer
    ≡ replied (record {
      status = 502;
      body = failure (codes "ask failed") (codes "r2");
      logged =
          record {
            message = codes "ask failed";
            request_id = codes "r2";
            cause = plain (codes "no generator");
          }
          ∷ [];
    })
unfolding handler authorized text_eq route_of dispatch handle_ask trim_space trim_left trim_right
    is_space respond_upstream_error
refused_upstream = refl
