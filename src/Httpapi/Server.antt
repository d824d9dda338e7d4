-- ===== src/Httpapi/Server.antt =====
-- Serve of internal/httpapi/server.go, once it has not refused: the requests in flight, the channel
-- of the goroutine, and the shutdown. The steps of a run are those of the goroutines, in any order.
pub mod Contexts
pub mod Listen
pub mod Network
pub mod Shutdown
mod Tests
use rag_ai_system.Prelude.{ℕ, ◌+◌, ◌-◌, ◌<◌, ◌≡◌, refl, subst, Option, none, some, arith}
use rag_ai_system.Text.{codes}
use rag_ai_system.Backoff.{Err, deadline_exceeded, wrapped}

pub data Phase : Type 0 where
  serving : Phase
  draining : Phase
  returned : Option Err → Phase

-- `channel` is what errCh holds.
pub record Server : Type 0 where
  pub phase : Phase
  pub channel : Option (Option Err)
  pub in_flight : ℕ

abbrev pub started : Server
started = record { phase = serving; channel = none; in_flight = 0 }

abbrev pub serve_failed : Err → Err
serve_failed e = wrapped (codes "serve") e

abbrev pub grace_over : Err
grace_over = wrapped (codes "graceful shutdown") deadline_exceeded

-- What errCh holds when Shutdown has closed the listener: srv.Serve returns ErrServerClosed, unless it
-- has failed before.
abbrev pub after_close : Option (Option Err) → Option (Option Err)
after_close none = some none
after_close (some r) = some r

-- The receive of errCh, which waits for a value.
abbrev pub received : Option (Option Err) → Phase → Phase
received none waiting = waiting
received (some r) waiting = returned r

pub data Step : Server → Server → Type 0 where
  accept :
      (s : Server)
      → s.phase ≡ serving
      → s.channel ≡ none
      → Step s (record s { in_flight = s.in_flight + 1 })
  finish : (s : Server) → 0 < s.in_flight → Step s (record s { in_flight = s.in_flight - 1 })
  fail :
      (s : Server) (e : Err)
      → s.phase ≡ serving
      → s.channel ≡ none
      → Step s (record s { channel = some (some (serve_failed e)) })
  receive :
      (s : Server) (r : Option Err)
      → s.phase ≡ serving
      → s.channel ≡ some r
      → Step s (record s { phase = returned r })
  cancel :
      (s : Server)
      → s.phase ≡ serving
      → Step s (record s { phase = draining; channel = after_close s.channel })
  drained :
      (s : Server)
      → s.phase ≡ draining
      → s.in_flight ≡ 0
      → Step s (record s { phase = received s.channel draining })
  time_out :
      (s : Server) → s.phase ≡ draining → Step s (record s { phase = returned (some grace_over) })

pub data Reach : Server → Type 0 where
  init : Reach started
  next : {a b : Server} → Reach a → Step a b → Reach b

-- What holds of every server: while it drains the channel has a value, and only a drained one returns
-- without an error.
abbrev pub Sound : Phase → Option (Option Err) → ℕ → Type 0
Sound serving none n = Unit
Sound serving (some none) n = ⊥
Sound serving (some (some e)) n = Unit
Sound draining none n = ⊥
Sound draining (some r) n = Unit
Sound (returned none) c n = n ≡ 0
Sound (returned (some e)) c n = Unit

pub Sound-finish : (p : Phase) (c : Option (Option Err)) (n : ℕ) → Sound p c n → Sound p c (n - 1)
Sound-finish serving none n h = tt
Sound-finish serving (some none) n h = h
Sound-finish serving (some (some e)) n h = tt
Sound-finish draining none n h = h
Sound-finish draining (some r) n h = tt
Sound-finish (returned none) c n h = omega (arith, h)
Sound-finish (returned (some e)) c n h = tt

Sound-receive : (r : Option Err) (n : ℕ) → Sound serving (some r) n → Sound (returned r) (some r) n
Sound-receive none n h = absurd h
Sound-receive (some e) n h = tt

Sound-close : (c : Option (Option Err)) (n : ℕ) → Sound draining (after_close c) n
Sound-close none n = tt
Sound-close (some r) n = tt

Sound-drained : (c : Option (Option Err)) → Sound draining c 0 → Sound (received c draining) c 0
Sound-drained none h = h
Sound-drained (some none) h = refl
Sound-drained (some (some e)) h = tt

Step-Sound :
    {a b : Server}
    → Step a b
    → Sound a.phase a.channel a.in_flight
    → Sound b.phase b.channel b.in_flight
Step-Sound (accept s p c) h = rw (p, c) tt
Step-Sound (finish s busy) h = Sound-finish s.phase s.channel s.in_flight h
Step-Sound (fail s e p c) h = rw p tt
Step-Sound (receive s r p c) h = rw c (
    Sound-receive r s.in_flight
      (subst (λ x. Sound serving x s.in_flight) c (subst (λ x. Sound x s.channel s.in_flight) p h)))
Step-Sound (cancel s p) h = Sound-close s.channel s.in_flight
Step-Sound (drained s p idle) h = rw idle (
    Sound-drained s.channel (
      subst (λ n. Sound draining s.channel n) idle
        (subst (λ x. Sound x s.channel s.in_flight) p h)))
Step-Sound (time_out s p) h = tt

pub Reach-Sound : {s : Server} → Reach s → Sound s.phase s.channel s.in_flight
Reach-Sound init = tt
Reach-Sound (next r st) = Step-Sound st (Reach-Sound r)

-- Serve returns without an error only when no request is left in flight.
pub Reach-in_flight : {s : Server} → Reach s → s.phase ≡ returned none → s.in_flight ≡ 0
Reach-in_flight {s} r p = subst (λ x. Sound x s.channel s.in_flight) p (Reach-Sound r)
