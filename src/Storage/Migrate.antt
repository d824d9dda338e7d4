-- ===== src/Storage/Migrate.antt =====
-- Up of internal/migrate/migrate.go: the connection and the advisory lock that it holds while goose
-- applies the migrations, which are a parameter.
mod Tests
use rag_ai_system.Prelude.{
  ℕ, ◌+◌, ◌-◌, ◌≡◌, refl, ◌⊎◌, inl, inr, Bool, true, false, Option, none, some, arith, Option-cases,
}
use rag_ai_system.Text.{codes}
use rag_ai_system.Backoff.{Err, wrapped}

-- What Up takes and gives back: connections of the pool, adapters for database/sql, and whether its
-- session holds the advisory lock. `C` is the schema with what it holds.
module _ (C : Type 0) where
  pub record Held : Type 0 where
    pub conns : ℕ
    pub adapters : ℕ
    pub locked : Bool
    pub schema : C

-- The errors of the calls, where they fail; `apply` is Up of goose's provider.
pub record MigrateCalls (C : Type 0) : Type 0 where
  pub acquire : Option Err
  pub lock : Option Err
  pub unlock : Option Err
  pub sub_fs : Option Err
  pub new_provider : Option Err
  pub apply : C → Option Err × C

module _ {C : Type 0} (m : MigrateCalls C) where
  abbrev pub acquired : Held C → Held C
  acquired h = record h { conns = h.conns + 1 }

  -- The deferred Release, the deferred unlock, whose error is dropped, and the deferred Close.
  abbrev pub release : Option Err × Held C → Option Err × Held C
  release (e, h) = (e, record h { conns = h.conns - 1 })

  abbrev pub unlocked : Option Err × Held C → Option Err × Held C
  unlocked (e, h) = elim m.unlock [ some x ↦ (e, h) | none ↦ (e, record h { locked = false }) ]

  abbrev pub close_adapter : Option Err × Held C → Option Err × Held C
  close_adapter (e, h) = (e, record h { adapters = h.adapters - 1 })

  abbrev pub applied : Held C → Option Err × C → Option Err × Held C
  applied h (none, c) = (none, record h { schema = c })
  applied h (some e, c) = (some (wrapped (codes "apply migrations") e), record h { schema = c })

  abbrev pub run_provider : Held C → Option Err × Held C
  run_provider h = elim m.sub_fs [
    | some e ↦ (some (wrapped (codes "open embedded migrations") e), h)
    | none ↦ elim m.new_provider [
      | some e ↦ (some (wrapped (codes "configure migrations") e), h)
      | none ↦ applied h (m.apply h.schema)
    ]
  ]

  abbrev pub under_lock : Held C → Option Err × Held C
  under_lock h =
      unlocked
        (close_adapter (run_provider (record h { locked = true; adapters = h.adapters + 1 })))

  abbrev pub with_conn : Held C → Option Err × Held C
  with_conn h = elim m.lock [
    | some e ↦ (some (wrapped (codes "take migration lock") e), h)
    | none ↦ under_lock h
  ]

  -- Up
  unfoldable pub up : Held C → Option Err × Held C
  up h = elim m.acquire [
    | some e ↦ (some (wrapped (codes "acquire connection for migration lock") e), h)
    | none ↦ release (with_conn (acquired h))
  ]

  -- What a part of Up leaves of the resources: the lock is given up, or it is as it was, or the
  -- statement that unlocks has failed.
  abbrev pub SameHeld : Held C → Held C → Type 0
  SameHeld h h' =
      (h'.conns ≡ h.conns)
      × (h'.adapters ≡ h.adapters)
      × ((h'.locked ≡ false) ⊎ (h'.locked ≡ h.locked) ⊎ ((x : Err) × (m.unlock ≡ some x)))

  applied-SameHeld : (h : Held C) (r : Option Err × C) → SameHeld h (applied h r).1
  applied-SameHeld h (none, c) = (refl, refl, inr (inl refl))
  applied-SameHeld h (some e, c) = (refl, refl, inr (inl refl))

  run_provider-SameHeld : (h : Held C) → SameHeld h (run_provider h).1
  run_provider-SameHeld h = elim (Option-cases m.sub_fs) [
    | inr (x, e) ↦ rw e (refl, refl, inr (inl refl))
    | inl e ↦ elim (Option-cases m.new_provider) [
      | inr (x, k) ↦ rw (e, k) (refl, refl, inr (inl refl))
      | inl k ↦ rw (e, k) (applied-SameHeld h (m.apply h.schema))
    ]
  ]

  -- Whether the unlocking fails or not, the rest is given back before it.
  unlocked-SameHeld :
      (h : Held C) (out : Option Err × Held C)
      → out.1.conns ≡ h.conns
      → out.1.adapters ≡ h.adapters
      → SameHeld h (unlocked out).1
  unlocked-SameHeld h (e, h') c a = elim (Option-cases m.unlock) [
    | inr (x, u) ↦ rw u (c, a, inr (inr (x, refl)))
    | inl u ↦ rw u (c, a, inl refl)
  ]

  under_lock-SameHeld : (h : Held C) → SameHeld h (under_lock h).1
  under_lock-SameHeld h =
      let locked_one = record h { locked = true; adapters = h.adapters + 1 } in
      let (c, a, k) = run_provider-SameHeld locked_one in
      unlocked-SameHeld h (close_adapter (run_provider locked_one)) c (omega (arith, a))

  with_conn-SameHeld : (h : Held C) → SameHeld h (with_conn h).1
  with_conn-SameHeld h = elim (Option-cases m.lock) [
    | inr (x, e) ↦ rw e (refl, refl, inr (inl refl))
    | inl e ↦ rw e (under_lock-SameHeld h)
  ]

  -- Whether Up fails or not, it gives its connection and its adapter back. The lock is given up or as it was,
  -- unless the statement that unlocks fails.
  pub up-SameHeld : (h : Held C) → SameHeld h (up h).1
  unfolding up
  up-SameHeld h = elim (Option-cases m.acquire) [
    | inr (x, e) ↦ rw e (refl, refl, inr (inl refl))
    | inl e ↦ let (c, a, k) = with_conn-SameHeld (acquired h) in rw e (omega (arith, c), a, k)
  ]
