-- ===== src/Application/Loop.antt =====
-- core/internal/application/coordinator.go: `New`, the branches of `Run`, `ChangeConfiguration` and
-- `shutdown`. The loop is a step relation: between two steps it waits in its `select`.
pub mod Bounds
pub mod Choice
pub mod Deadlines
pub mod Exclusive
pub mod Receipts
pub mod Shutdown
pub mod Sizes
pub mod Terminal
use smart_srun.Prelude.{
  ℕ, zero, suc, ◌+◌, ◌*◌, ◌^◌, ◌<◌, ◌≡◌, Bool, true, false, ◌&&◌, List, [], ◌∷◌, Option, none, some,
  is_empty, elem, if◌then◌else◌,
}
use smart_srun.Application.Action.{State, Phase, Message, Action, Request, is_terminal, transition}
use smart_srun.Application.Coordinator.{Coordinator, Limits, Run, Env, Completion, PhaseReport}
use smart_srun.Application.Invariant.Finish.{FinalizesVerdict}
use smart_srun.Application.Schedule.Dispatch.{dispatch}
use smart_srun.Application.Schedule.Expire.{expire}
use smart_srun.Application.Schedule.Finish.{on_finish}
use smart_srun.Application.Schedule.Retire.{put, publish, retire, stop_run, on_cancel, on_phase}
use smart_srun.Application.Schedule.Submit.{on_submit}

-- `orDefaultInt` and `orDefault`.
or_default : ℕ → ℕ → ℕ
or_default zero fallback = fallback
or_default (suc n) fallback = suc n

abbrev second : ℕ
second = 1_000_000_000

-- The limits of `New`, from those of its options; `policy.MaxConcurrentLines` is 4.
default_limits : Limits → Limits
unfolding or_default
default_limits o = record {
  parallel = or_default o.parallel 4;
  queue_limit = or_default o.queue_limit 32;
  history = or_default o.history 64;
  queue_wait = or_default o.queue_wait (30 * second);
  action_budget = or_default o.action_budget (600 * second);
}

-- `New`. The heap is the zero `Action` everywhere.
unfoldable pub new : (ℕ → Action) → Limits → Coordinator
unfolding default_limits
new heap options = record {
  limits = default_limits options;
  heap = heap;
  index = [];
  by_key = [];
  queue = [];
  running = [];
  busy_lines = [];
  terminals = [];
  next_id = 0;
  next_seq = 0;
  published = [];
  recorded = [];
}

-- `ChangeConfiguration` lets the change run.
may_change_configuration : Coordinator → Bool
may_change_configuration c = is_empty c.queue && is_empty c.running

-- One step of `Run`. The clock of each step is its own.
pub data Step : Coordinator → Coordinator → Type 0 where
  -- the top of the loop
  scheduled : (env : Env) (c : Coordinator) → Step c (dispatch env (expire env c))
  -- the closure of `Submit`; fewer than 2 ^ 64 requests were taken so far
  submitted :
      (env : Env) (c : Coordinator) (r : Request)
      → c.next_id + 1 < 2 ^ 64
      → Step c (on_submit env c r).0
  -- the closure of `Cancel`
  cancelled : (env : Env) (c : Coordinator) (n : ℕ) → Step c (on_cancel env c n).0
  finished :
      (env : Env) (c : Coordinator) (done : Completion)
      → FinalizesVerdict env
      → Step c (on_finish env c done)
  progressed : (c : Coordinator) (report : PhaseReport) → Step c (on_phase c report)

pub data Reach (s : Coordinator) : Coordinator → Type 0 where
  here : Reach s s
  next : {t u : Coordinator} → Reach s t → Step t u → Reach s u

-- `shutdown` before it waits: first the queue,
pub interrupt_queue : Env → Coordinator → List ℕ → Coordinator
unfolding transition retire
interrupt_queue env c [] = record c { queue = [] }
interrupt_queue env c (n ∷ ns) =
    let moved = (transition (c.heap n) State.interrupted env.now).0 in
    let a = record moved { message = Message.stopped_before_start } in
    interrupt_queue env (publish (retire (put c n a) n) n) ns

-- one running action,
pub interrupt_run : Env → Coordinator → ℕ → Coordinator
unfolding transition
interrupt_run env c n =
    let moved = (transition (c.heap n) State.interrupted env.now).0 in
    let a = record moved { message = Message.stopped_while_running } in
    if elem n c.index then if is_terminal (c.heap n).state then c else publish (put c n a) n else c

-- then the running set, every context of which is cancelled,
pub interrupt_runs : Env → Coordinator → List (ℕ × Run) → Coordinator
unfolding interrupt_run
interrupt_runs env c [] = c
interrupt_runs env c ((n, r) ∷ rs) = interrupt_runs env (interrupt_run env c n) rs

pub stop_runs : List (ℕ × Run) → List (ℕ × Run)
stop_runs [] = []
stop_runs ((n, r) ∷ rs) = (n, stop_run r) ∷ stop_runs rs

-- and then a completion that came with the stop.
abbrev apply_pending : Env → Coordinator → Option Completion → Coordinator
apply_pending env c none = c
apply_pending env c (some done) = on_finish env c done

pub shutdown : Env → Coordinator → Option Completion → Coordinator
unfolding interrupt_queue interrupt_runs stop_runs on_finish
shutdown env c pending =
    let drained = interrupt_queue env c c.queue in
    let marked = interrupt_runs env drained drained.running in
    apply_pending env (record marked { running = stop_runs marked.running }) pending
