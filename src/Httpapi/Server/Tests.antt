-- ===== src/Httpapi/Server/Tests.antt =====
-- A request that is answered while the server drains.
use rag_ai_system.Prelude.{refl, none, some, arith}
use rag_ai_system.Httpapi.Server.{
  serving, draining, returned, Server, started, accept, finish, cancel, drained, Reach, init, next,
}
use rag_ai_system.Httpapi.Server.Shutdown.{Ends, draining-Ends}

abbrev with_request : Server
with_request = record { phase = draining; channel = some none; in_flight = 1 }

with_request-Reach : Reach with_request
with_request-Reach =
    next (next init (accept started refl refl))
      (cancel (record { phase = serving; channel = none; in_flight = 1 }) refl)

draining-Ends_example : Ends with_request
draining-Ends_example = draining-Ends with_request-Reach refl

abbrev at_end : Server
at_end = record { phase = returned none; channel = some none; in_flight = 0 }

at_end-Reach : Reach at_end
at_end-Reach =
    next (next with_request-Reach (finish with_request (omega arith)))
      (drained (record { phase = draining; channel = some none; in_flight = 0 }) refl refl)
