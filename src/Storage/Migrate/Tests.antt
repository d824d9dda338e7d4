-- ===== src/Storage/Migrate/Tests.antt =====
-- A migration that fails.
use rag_ai_system.Prelude.{ℕ, ◌+◌, ◌≡◌, refl, false, none, some}
use rag_ai_system.Text.{codes}
use rag_ai_system.Backoff.{plain, wrapped}
use rag_ai_system.Storage.Migrate.{Held, MigrateCalls, up, SameHeld, up-SameHeld}

abbrev calls : MigrateCalls ℕ
calls = record {
  acquire = none;
  lock = none;
  unlock = none;
  sub_fs = none;
  new_provider = none;
  apply = λ n. (some (plain (codes "duplicate object")), n + 1);
}

abbrev before : Held ℕ
before = record { conns = 1; adapters = 0; locked = false; schema = 2 }

migration_error : up calls before ≡ (
  some (wrapped (codes "apply migrations") (plain (codes "duplicate object"))),
  record { conns = 1; adapters = 0; locked = false; schema = 3 },
)
unfolding up
migration_error = refl

up-SameHeld_example : SameHeld calls before (up calls before).1
up-SameHeld_example = up-SameHeld calls before
