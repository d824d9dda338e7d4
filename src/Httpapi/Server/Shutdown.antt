-- ===== src/Httpapi/Server/Shutdown.antt =====
-- The end of Serve of internal/httpapi/server.go, from the cancellation on.
use rag_ai_system.Prelude.{ℕ, zero, suc, ◌-◌, ◌≡◌, refl, subst, Option, none, some, arith}
use rag_ai_system.Backoff.{Err}
use rag_ai_system.Httpapi.Server.{
  draining, returned, Server, grace_over, received, Step, accept, finish, fail, receive, cancel,
  drained, time_out, Reach, Sound, Sound-finish, Reach-Sound,
}

-- A run that, however it goes on, comes to the return of Serve.
pub data Ends : Server → Type 0 where
  over : (s : Server) (r : Option Err) → s.phase ≡ returned r → Ends s
  later : (s t : Server) → Step s t → ((u : Server) → Step s u → Ends u) → Ends s

received_some :
    (c : Option (Option Err)) (n : ℕ)
    → Sound draining c n
    → (r : Option Err) × (received c draining ≡ returned r)
received_some none n h = absurd h
received_some (some r) n h = (r, refl)

draining-Sound :
    (s : Server)
    → s.phase ≡ draining
    → Sound s.phase s.channel s.in_flight
    → Sound draining s.channel s.in_flight
draining-Sound s d h = subst (λ x. Sound x s.channel s.in_flight) d h

-- Each step of a server that drains ends it, or leaves one request less in flight.
successor :
    {s u : Server}
    → Step s u
    → s.phase ≡ draining
    → Sound s.phase s.channel s.in_flight
    → ((t : Server)
        → t.phase ≡ draining
        → Sound t.phase t.channel t.in_flight
        → suc t.in_flight ≡ s.in_flight
        → Ends t)
    → Ends u
successor (accept s p c) d h less = cc
successor (finish s busy) d h less =
    less (record s { in_flight = s.in_flight - 1 }) d (Sound-finish s.phase s.channel s.in_flight h)
      (omega (arith, busy))
successor (fail s e p c) d h less = cc
successor (receive s r p c) d h less = cc
successor (cancel s p) d h less = cc
successor (drained s p idle) d h less =
    let (r, e) = received_some s.channel s.in_flight (draining-Sound s d h) in
    over (record s { phase = received s.channel draining }) r e
successor (time_out s p) d h less =
    over (record s { phase = returned (some grace_over) }) (some grace_over) refl

in_flight-Ends :
    (n : ℕ) (s : Server)
    → s.in_flight ≡ n
    → s.phase ≡ draining
    → Sound s.phase s.channel s.in_flight
    → Ends s
in_flight-Ends zero s e d h =
    later s _ (drained s d e)
      (λ u st. successor st d h (λ t d' h' less. absurd (omega (arith, e, less))))
in_flight-Ends (suc n) s e d h =
    later s _ (finish s (omega (arith, e)))
      (λ u st. successor st d h (λ t d' h' less. in_flight-Ends n t (omega (arith, e, less)) d' h'))

-- A shutdown ends: a server whose context is cancelled can always take a further step, and whichever
-- of its steps are taken, it comes to the return of Serve.
pub draining-Ends : {s : Server} → Reach s → s.phase ≡ draining → Ends s
draining-Ends {s} r d = in_flight-Ends s.in_flight s refl d (Reach-Sound r)
