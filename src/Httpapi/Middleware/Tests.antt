-- ===== src/Httpapi/Middleware/Tests.antt =====
-- A handler that writes a status and a body, and one that panics.
use rag_ai_system.Prelude.{◌≡◌, refl, true, false, some, List, [], ◌∷◌, arith}
use rag_ai_system.Httpapi.Middleware.{
  Call, write_header, write, call_writer, call_recorder, call_all, record_all, request,
  panic_in_handler, with_logging, with_recover, serve, final_status, serve_returns,
}

abbrev created : List Call
created = write_header 202 ∷ write 9 ∷ []

serve_returns_example :
    let o = serve 30 (record { calls = created; panicked = false }) in
    (o.logged ≡ request (final_status o.response) o.response.body ∷ []) × (o.panics ≡ false)
serve_returns_example = serve_returns 30 created (omega arith)

-- A panic leaves no line with the status of its request.
panic_logged :
    let o = serve 30 (record { calls = created; panicked = true }) in
    (o.logged ≡ panic_in_handler ∷ []) × (o.response.sent ≡ some 202)
unfolding serve with_logging with_recover record_all call_all call_recorder call_writer
panic_logged = (refl, refl)
