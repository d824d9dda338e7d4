-- ===== src/Httpapi/Reindex.antt =====
-- internal/httpapi/reindex.go: background indexing, one pass at a time. The mutex makes each part
-- below one step, and the goroutines that `start` spawns are counted, so that their interleavings
-- with requests are lists of steps.
mod Tests
use rag_ai_system.Prelude.{
  ℕ, ◌+◌, ◌-◌, ◌<◌, ◌≡◌, refl, ◌⊎◌, Bool, true, false, Option, none, some, arith, if◌then◌else◌,
}

pub data State : Type 0 where
  idle running done failed : State

abbrev pub is_running : State → Bool
is_running running = true
is_running _ = false

-- The number of workers that the state admits.
abbrev pub expected : State → ℕ
expected running = 1
expected _ = 0

-- `R` is knowledge.IndexResult, and `E` the text of its error; times are numbers.
module _ (R E : Type 0) where
  pub record Status : Type 0 where
    pub state : State
    pub started_at : Option ℕ
    pub finished_at : Option ℕ
    pub result : Option R
    pub error : Option E

  pub record Indexer : Type 0 where
    pub status : Status
    pub workers : ℕ

module _ {R E : Type 0} where
  unfoldable pub new_indexer : Indexer R E
  new_indexer = record {
    status = record {
      state = idle;
      started_at = none;
      finished_at = none;
      result = none;
      error = none;
    };
    workers = 0;
  }

  unfoldable pub start : ℕ → Indexer R E → Indexer R E × Bool
  start now ix = if is_running ix.status.state then (ix, false) else (
    record {
      status = record {
        state = running;
        started_at = some now;
        finished_at = none;
        result = none;
        error = none;
      };
      workers = ix.workers + 1;
    },
    true,
  )

  -- The end of `run`, once Index has returned.
  unfoldable pub finish : ℕ → R → Option E → Indexer R E → Indexer R E
  finish now res failure ix = record {
    status = record ix.status {
      state = elim failure [ none ↦ done | some e ↦ failed ];
      finished_at = some now;
      result = some res;
      error = failure;
    };
    workers = ix.workers - 1;
  }

  -- A request to start, or the end of a worker that is there.
  pub data Step : Indexer R E → Indexer R E → Type 0 where
    request : (now : ℕ) (ix : Indexer R E) → Step ix (start now ix).0
    finished :
        (now : ℕ) (res : R) (failure : Option E) (ix : Indexer R E)
        → 0 < ix.workers
        → Step ix (finish now res failure ix)

  pub data Reach : Indexer R E → Type 0 where
    init : Reach new_indexer
    next : {a b : Indexer R E} → Reach a → Step a b → Reach b

  Step-workers :
      {a b : Indexer R E}
      → Step a b
      → a.workers ≡ expected a.status.state
      → b.workers ≡ expected b.status.state
  unfolding start finish
  Step-workers (request now ix) h = ground (arith, h)
  Step-workers (finished now res none ix busy) h = ground (arith, h)
  Step-workers (finished now res (some e) ix busy) h = ground (arith, h)

  -- Whatever the order of requests and ends of passes, one pass at most is under way, and exactly
  -- while the status says that it is running.
  pub Reach-workers : {ix : Indexer R E} → Reach ix → ix.workers ≡ expected ix.status.state
  unfolding new_indexer
  Reach-workers init = refl
  Reach-workers (next r st) = Step-workers st (Reach-workers r)

  -- A request is turned away exactly while a pass is under way, and then changes nothing.
  pub start-Reach :
      {ix : Indexer R E}
      → Reach ix
      → (now : ℕ)
      → ((start now ix).1 ≡ false) × (ix.workers ≡ 1) × ((start now ix).0 ≡ ix)
        ⊎ ((start now ix).1 ≡ true) × (ix.workers ≡ 0) × ((start now ix).0.workers ≡ 1)
  unfolding start
  start-Reach {ix} r now = ground (arith, Reach-workers r)
