-- ===== src/Httpapi/Middleware.antt =====
-- internal/httpapi/middleware.go: the status that the request log reports, and what a panic leaves.
mod Tests
use rag_ai_system.Prelude.{
  ℕ, ◌+◌, ◌<◌, ◌≡◌, refl, ◌⊎◌, inl, Bool, false, Option, none, some, List, [], ◌∷◌, ◌++◌, arith,
  ◌==◌, if◌then◌else◌, All,
}

-- What a handler does to its ResponseWriter: a status, or a body of so many bytes.
pub data Call : Type 0 where
  write_header : ℕ → Call
  write : ℕ → Call

-- A handler's run: its calls, and whether it panicked after them.
pub record Run : Type 0 where
  pub calls : List Call
  pub panicked : Bool

-- net/http's writer: the first status counts (no handler sends a 1xx one), and a body alone sends 200.
pub record Response : Type 0 where
  pub sent : Option ℕ
  pub body : ℕ

-- statusRecorder over it; 0 is no status yet.
pub record Recorder : Type 0 where
  pub status : ℕ
  pub bytes : ℕ

abbrev pub or_sent : Option ℕ → ℕ → Option ℕ
or_sent (some code) new = some code
or_sent none new = some new

unfoldable pub call_writer : Call → Response → Response
call_writer (write_header code) r = record r { sent = or_sent r.sent code }
call_writer (write n) r = record { sent = or_sent r.sent 200; body = r.body + n }

unfoldable pub call_recorder : Call → Recorder → Recorder
call_recorder (write_header code) r = record r { status = if r.status == 0 then code else r.status }
call_recorder (write n) r = record {
  status = (if r.status == 0 then 200 else r.status);
  bytes = r.bytes + n;
}

unfoldable pub call_all : List Call → Response → Response
unfolding call_writer
call_all [] r = r
call_all (c ∷ cs) r = call_all cs (call_writer c r)

unfoldable pub record_all : List Call → Recorder → Recorder
unfolding call_recorder
record_all [] r = r
record_all (c ∷ cs) r = record_all cs (call_recorder c r)

pub data LogLine : Type 0 where
  request : ℕ → ℕ → LogLine  -- status and bytes
  panic_in_handler : LogLine

pub record Outcome : Type 0 where
  pub response : Response
  pub logged : List LogLine
  pub panics : Bool

abbrev fresh : Recorder
fresh = record { status = 0; bytes = 0 }

-- withLogging: its line comes after the handler's return, and not from a deferred call.
unfoldable pub with_logging : Run → Outcome
unfolding call_all record_all
with_logging run =
    let rec = record_all run.calls fresh in
    record {
      response = call_all run.calls (record { sent = none; body = 0 });
      logged =
          if run.panicked
          then []
          else request (if rec.status == 0 then 200 else rec.status) rec.bytes ∷ [];
      panics = run.panicked;
    }

-- withRecover: `size` is the length of the error body that writeError sends.
unfoldable pub with_recover : ℕ → Outcome → Outcome
unfolding call_writer
with_recover size o =
    if o.panics
    then record {
      response = call_writer (write size) (call_writer (write_header 500) o.response);
      logged = o.logged ++ panic_in_handler ∷ [];
      panics = false;
    }
    else o

-- The order of the wrappers in Handler.
unfoldable pub serve : ℕ → Run → Outcome
unfolding with_logging with_recover
serve size run = with_recover size (with_logging run)

-- What net/http sends when the handler has returned.
abbrev pub final_status : Response → ℕ
final_status r = elim r.sent [ none ↦ 200 | some code ↦ code ]

abbrev Agree : Recorder → Response → Type 0
Agree rec r =
    ((rec.status ≡ 0) × (r.sent ≡ none) ⊎ (0 < rec.status) × (r.sent ≡ some rec.status))
    × (rec.bytes ≡ r.body)

-- A status that a handler writes is not 0.
abbrev pub Positive : Call → Type 0
Positive (write_header code) = 0 < code
Positive (write n) = Unit

call-Agree :
    (c : Call) (rec : Recorder) (r : Response)
    → Positive c
    → Agree rec r
    → Agree (call_recorder c rec) (call_writer c r)
unfolding call_recorder call_writer
call-Agree (write_header code) rec r p h = ground arith
call-Agree (write n) rec r p h = ground arith

All-Agree :
    (cs : List Call) (rec : Recorder) (r : Response)
    → All Positive cs
    → Agree rec r
    → Agree (record_all cs rec) (call_all cs r)
unfolding record_all call_all
All-Agree [] rec r p h = h
All-Agree (c ∷ cs) rec r p h =
    All-Agree cs (call_recorder c rec) (call_writer c r) p.1 (call-Agree c rec r p.0 h)

logged_agrees :
    (rec : Recorder) (r : Response)
    → Agree rec r
    → ((if rec.status == 0 then 200 else rec.status) ≡ final_status r) × (rec.bytes ≡ r.body)
logged_agrees rec r h = ground arith

-- A request whose handler returns is logged once, with the status and the bytes that the client gets.
pub serve_returns :
    (size : ℕ) (calls : List Call)
    → All Positive calls
    → let o = serve size (record { calls = calls; panicked = false }) in
      (o.logged ≡ request (final_status o.response) o.response.body ∷ []) × (o.panics ≡ false)
unfolding serve
serve_returns size calls p =
    let (status, bytes) =
      logged_agrees (record_all calls fresh) (call_all calls (record { sent = none; body = 0 }))
        (All-Agree calls fresh (record { sent = none; body = 0 }) p (inl (refl, refl), refl)) in
    (rw (status, bytes), refl)
