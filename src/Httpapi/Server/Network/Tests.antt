-- ===== src/Httpapi/Server/Network/Tests.antt =====
-- A server on all addresses with a token, and a request to start a pass that comes without it.
use rag_ai_system.Prelude.{
  ℕ, ◌+◌, ◌≡◌, refl, ◌≢◌, true, false, none, [], ◌∷◌, ◌++◌, Result, ok, err,
}
use rag_ai_system.Text.{Text, codes, text_eq}
use rag_ai_system.Backoff.{Err, plain}
use rag_ai_system.Httpapi.Handlers.{Service}
use rag_ai_system.Httpapi.Auth.{equal_fold, bearer, refuses}
use rag_ai_system.Httpapi.Stack.{Incoming, Decoders}
use rag_ai_system.Httpapi.Reindex.{new_indexer}
use rag_ai_system.Httpapi.Server.Listen.{
  ServerConfig, default_config, Addr, tcp_addr, v4_in_v6, v6_loopback, to4, is_loopback,
  reachable_from_network, refusal, guarded, run_listens,
}
use rag_ai_system.Httpapi.Server.Network.{TurnsAway, run_guarded}

addresses :
    (reachable_from_network (tcp_addr (127 ∷ 0 ∷ 0 ∷ 1 ∷ [])) ≡ false)
    × (reachable_from_network (tcp_addr (v4_in_v6 ++ 127 ∷ 1 ∷ 2 ∷ 3 ∷ [])) ≡ false)
    × (reachable_from_network (tcp_addr v6_loopback) ≡ false)
    × (reachable_from_network (tcp_addr []) ≡ true)
unfolding reachable_from_network is_loopback to4 text_eq
addresses = (refl, refl, refl, refl)

abbrev anywhere : Addr
anywhere = tcp_addr (0 ∷ 0 ∷ 0 ∷ 0 ∷ [])

abbrev listening : Text → Result Err Addr
listening at = ok anywhere

abbrev with_token : ServerConfig
with_token = record default_config { auth_token = codes "key" }

refused_by_default : run_listens listening default_config ≡ err refusal
unfolding run_listens guarded refuses reachable_from_network is_loopback to4 text_eq
refused_by_default = refl

let_through : run_listens listening with_token ≡ ok anywhere
unfolding run_listens guarded refuses reachable_from_network is_loopback to4 text_eq
let_through = refl

reached : reachable_from_network anywhere ≡ true
unfolding reachable_from_network is_loopback to4 text_eq
reached = refl

abbrev counts : Service ℕ ℕ
counts = record {
  stats = λ s. (ok (record { notes = s; chunks = 0; embedded = 0; space = codes "fake" }), s);
  search = λ q k s. (ok [], s + 1);
  ask = λ q k s. (err (plain (codes "no generator")), s + 1);
}

abbrev no_bodies : Decoders
no_bodies = record {
  search_request = λ bytes ended. err (codes "EOF");
  ask_request = λ bytes ended. err (codes "EOF");
}

abbrev reindexing : Incoming
reindexing = record {
  method = codes "POST";
  path = codes "/reindex";
  authorization = codes "Bearer guess";
  request_id = codes "r1";
  body = [];
}

guess : bearer (codes "Bearer guess") ≢ codes "key"
unfolding bearer equal_fold
guess h = cc

run_guarded_example :
    TurnsAway {R = ℕ} {E = ℕ} counts no_bodies
      (codes "fake")
      (λ s. none)
      9
      (λ t. t)
      (codes "key")
      []
      reindexing
      new_indexer
      3
run_guarded_example =
    run_guarded counts no_bodies (codes "fake") (λ s. none) 9 listening with_token anywhere
      let_through reached refl (λ t. t) [] reindexing new_indexer 3 guess
