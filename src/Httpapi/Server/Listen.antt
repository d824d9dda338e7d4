-- ===== src/Httpapi/Server/Listen.antt =====
-- Run of internal/httpapi/server.go with the guard of Serve and reachableFromNetwork of auth.go: what
-- comes to serve, and what Run returns. What net.Listen gives is an argument.
use rag_ai_system.Prelude.{
  ℕ, ◌*◌, ◌<◌, ◌≡◌, refl, subst, ◌⊎◌, inl, inr, Bool, true, false, not, ◌&&◌, Option, none, some,
  List, [], ◌∷◌, arith, ◌==◌, if◌then◌else◌, Bool-cases, length, take, drop, Result, ok, err,
  Result-cases,
}
use rag_ai_system.Text.{Text, codes, text_eq}
use rag_ai_system.Backoff.{Err, plain, wrapped}
use rag_ai_system.Httpapi.Auth.{refuses}
use rag_ai_system.Httpapi.Server.{returned, Server, Reach, Reach-in_flight}

-- Config; durations are nanoseconds.
pub record ServerConfig : Type 0 where
  pub addr : Text
  pub request_timeout : ℕ
  pub shutdown_grace : ℕ
  pub auth_token : Text
  pub allow_unauthenticated : Bool

abbrev pub default_config : ServerConfig
default_config = record {
  addr = codes ":8081";
  request_timeout = 120 * 1000000000;
  shutdown_grace = 20 * 1000000000;
  auth_token = [];
  allow_unauthenticated = false;
}

-- net.Addr: the bytes of the IP of a *net.TCPAddr, 4 or 16 of them or none, or another address.
pub data Addr : Type 0 where
  tcp_addr : List ℕ → Addr
  other_addr : Addr

abbrev pub v4_in_v6 : List ℕ
v4_in_v6 = 0 ∷ 0 ∷ 0 ∷ 0 ∷ 0 ∷ 0 ∷ 0 ∷ 0 ∷ 0 ∷ 0 ∷ 255 ∷ 255 ∷ []

abbrev pub v6_loopback : List ℕ
v6_loopback = 0 ∷ 0 ∷ 0 ∷ 0 ∷ 0 ∷ 0 ∷ 0 ∷ 0 ∷ 0 ∷ 0 ∷ 0 ∷ 0 ∷ 0 ∷ 0 ∷ 0 ∷ 1 ∷ []

-- To4 of net.IP; none is nil.
unfoldable pub to4 : List ℕ → Option (List ℕ)
unfolding text_eq
to4 ip =
    if length ip == 4
    then some ip
    else if length ip == 16 && text_eq (take 12 ip) v4_in_v6
    then some (drop 12 ip)
    else none

abbrev pub first_is : ℕ → List ℕ → Bool
first_is b [] = false
first_is b (c ∷ ip) = c == b

-- IsLoopback of net.IP.
unfoldable pub is_loopback : List ℕ → Bool
unfolding to4 text_eq
is_loopback ip = elim (to4 ip) [ some v4 ↦ first_is 127 v4 | none ↦ text_eq ip v6_loopback ]

unfoldable pub reachable_from_network : Addr → Bool
unfolding is_loopback
reachable_from_network (tcp_addr ip) = not (is_loopback ip)
reachable_from_network other_addr = true

abbrev pub refusal : Err
refusal = plain (codes "refusing to serve without authentication")

-- The guard of Serve: the listener that is served, or the error.
unfoldable pub guarded : ServerConfig → Addr → Result Err Addr
unfolding refuses reachable_from_network
guarded cfg at =
    if refuses cfg.auth_token cfg.allow_unauthenticated (reachable_from_network at)
    then err refusal
    else ok at

-- Run up to the server's start; `listening` is net.Listen.
unfoldable pub run_listens : (Text → Result Err Addr) → ServerConfig → Result Err Addr
unfolding guarded
run_listens listening cfg = elim (listening cfg.addr) [
  | err e ↦ err (wrapped (codes "listen") e)
  | ok at ↦ guarded cfg at
]

-- What Run can return.
pub data Returns (listening : Text → Result Err Addr) (cfg : ServerConfig)
    : Option Err → Type 0 where
  too_early : (e : Err) → run_listens listening cfg ≡ err e → Returns listening cfg (some e)
  at_last :
      (at : Addr) (s : Server) (r : Option Err)
      → run_listens listening cfg ≡ ok at
      → Reach s
      → s.phase ≡ returned r
      → Returns listening cfg r

-- The last server of a run that returns without an error.
abbrev pub Finished : (Text → Result Err Addr) → ServerConfig → Type 0
Finished listening cfg =
    (at : Addr) × (s : Server) × (run_listens listening cfg ≡ ok at) × Reach s × (s.in_flight ≡ 0)

finished :
    {listening : Text → Result Err Addr} {cfg : ServerConfig} {r : Option Err}
    → Returns listening cfg r
    → r ≡ none
    → Finished listening cfg
finished (too_early e h) k = cc
finished (at_last at s r h reached p) k = (at, s, h, reached, Reach-in_flight reached cc)

-- Run returns without an error only when it had its listener, the guard let it serve, and no request
-- is left in flight.
pub drained_run :
    {listening : Text → Result Err Addr} {cfg : ServerConfig}
    → Returns listening cfg none
    → Finished listening cfg
drained_run h = finished h refl

guarded-Listens :
    (cfg : ServerConfig) (at at' : Addr)
    → guarded cfg at ≡ ok at'
    → (at ≡ at')
      × (refuses cfg.auth_token cfg.allow_unauthenticated (reachable_from_network at) ≡ false)
unfolding guarded
guarded-Listens cfg at at' h =
    elim (Bool-cases
      (refuses cfg.auth_token cfg.allow_unauthenticated (reachable_from_network at))) [
        | inl e ↦ (cc, cc)
        | inr e ↦ (cc, e)
      ]

refuses_cases :
    (token : Text) (allow reachable : Bool)
    → refuses token allow reachable ≡ false
    → (reachable ≡ false) ⊎ (allow ≡ true) ⊎ 0 < length token
unfolding refuses
refuses_cases [] false false h = inl refl
refuses_cases [] true reachable h = inr (inl refl)
refuses_cases [] false true h = cc
refuses_cases (c ∷ token) allow reachable h = inr (inr (omega arith))

-- What the guard has made sure of.
pub run_listens_cases :
    (listening : Text → Result Err Addr) (cfg : ServerConfig) (at : Addr)
    → run_listens listening cfg ≡ ok at
    → (reachable_from_network at ≡ false)
      ⊎ (cfg.allow_unauthenticated ≡ true)
      ⊎ 0 < length cfg.auth_token
unfolding run_listens
run_listens_cases listening cfg at h = elim (Result-cases (listening cfg.addr)) [
  | inl (e, k) ↦ cc
  | inr (at', k) ↦
      let (same, passed) = guarded-Listens cfg at' at (
        subst
          (λ x. elim x [ err e ↦ err (wrapped (codes "listen") e) | ok a ↦ guarded cfg a ] ≡ ok at)
          k h) in
      refuses_cases cfg.auth_token cfg.allow_unauthenticated (reachable_from_network at)
        (rw (← same) passed)
]
