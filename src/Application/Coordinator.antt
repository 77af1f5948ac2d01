-- ===== src/Application/Coordinator.antt =====
-- core/internal/application/coordinator.go: the loop-owned state and what the loop is given.
use smart_srun.Prelude.{ℕ, Bool, List, Option, Bytes}
use smart_srun.Domain.Errors.{Failure}
use smart_srun.Observe.View.{Observation}
use smart_srun.Application.Action.{State, Action, Request, Outcome, Phase, PhaseTiming}

-- `run`: `stopping` tells that its context was cancelled.
pub record Run : Type 0 where
  pub line : Bytes
  pub overdue : Bool
  pub stopping : Bool

-- `completion`.
pub record Completion : Type 0 where
  pub id : ℕ
  pub outcome : Outcome
  pub timings : List PhaseTiming
  pub worker_milliseconds : ℕ

pub record PhaseReport : Type 0 where
  pub id : ℕ
  pub phase : Phase

-- `Options`, the limits: all are positive, as `orDefault` makes them.
pub record Limits : Type 0 where
  pub parallel : ℕ
  pub queue_limit : ℕ
  pub history : ℕ
  pub queue_wait : ℕ
  pub action_budget : ℕ

-- What one turn of the loop reads from outside: the clock, once for the turn, the callbacks of
-- `Options` and SHA-256. A callback that is nil is one that never refuses.
pub record Env : Type 0 where
  pub now : ℕ
  pub lines : Request → Bytes
  pub check : Request → Option Failure
  pub admit : Request → Option Failure
  pub finalize : Action → Outcome → Outcome
  pub sha256 : Bytes → Bytes

-- Actions are shared by pointer between the index and the queue: `heap` holds the object at each
-- address, and an action's address is its ordinal, which is its ID too. `index` holds the keys of
-- the map of that name. `published` and `recorded` are the calls of the observer and of the
-- observation store, the latest first.
pub record Coordinator : Type 0 where
  pub limits : Limits
  pub open limits use *
  pub heap : ℕ → Action
  pub index : List ℕ
  pub by_key : List (Bytes × ℕ)
  pub queue : List ℕ
  pub running : List (ℕ × Run)
  pub busy_lines : List (Bytes × ℕ)
  pub terminals : List ℕ
  pub next_id : ℕ
  pub next_seq : ℕ
  pub published : List Action
  pub recorded : List Observation

pub record Receipt : Type 0 where
  pub action_id : ℕ
  pub state : State
  pub duplicate : Bool
