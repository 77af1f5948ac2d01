-- ===== src/Application/Schedule/Expire.antt =====
-- schedule.go: `expire` and `nextDeadline`. `now.Sub(t) < d` is `now < t + d`.
use smart_srun.Prelude.{
  ℕ, ◌+◌, Bool, true, not, ◌&&◌, Option, none, some, List, [], ◌∷◌, ◌++◌, ltb, if◌then◌else◌, elem,
}
use smart_srun.Domain.Errors.{ErrorCode}
use smart_srun.Application.Action.{State, Message, Action, transition}
use smart_srun.Application.Coordinator.{Coordinator, Run, Env}
use smart_srun.Application.Schedule.Retire.{put, publish, retire}

abbrev pub failed_action : Env → Action → Action
failed_action env a =
    let moved = (transition a State.failed env.now).0 in
    record moved { message = Message.queue_timeout; code = some ErrorCode.deadline_exceeded }

unfoldable pub fail_waiting : Env → Coordinator → ℕ → Coordinator
unfolding transition retire
fail_waiting env c n = publish (retire (put c n (failed_action env (c.heap n))) n) n

abbrev pub may_wait : Env → Coordinator → ℕ → Bool
may_wait env c n = ltb env.now ((c.heap n).queued_at + c.queue_wait)

-- The first loop, over the rest of the queue, with the actions that stay so far.
unfoldable pub expire_queue : Env → Coordinator → List ℕ → List ℕ → Coordinator
unfolding fail_waiting
expire_queue env c [] kept = record c { queue = kept }
expire_queue env c (n ∷ ns) kept =
    expire_queue env (if may_wait env c n then c else fail_waiting env c n) ns
      (if may_wait env c n then kept ++ (n ∷ []) else kept)

abbrev pub is_over_budget : Env → Coordinator → ℕ → Run → Bool
is_over_budget env c n r =
    not r.overdue && elem n c.index && not (ltb env.now ((c.heap n).started_at + c.action_budget))

abbrev pub expire_run : Env → Coordinator → ℕ → Run → Run
expire_run env c n r =
    if is_over_budget env c n r then record r { overdue = true; stopping = true } else r

unfoldable pub expire_runs : Env → Coordinator → List (ℕ × Run) → List (ℕ × Run)
expire_runs env c [] = []
expire_runs env c ((n, r) ∷ rs) = (n, expire_run env c n r) ∷ expire_runs env c rs

unfoldable pub expire : Env → Coordinator → Coordinator
unfolding expire_queue expire_runs
expire env c =
    let waited = expire_queue env c c.queue [] in
    record waited { running = expire_runs env waited waited.running }

-- `consider`.
abbrev pub consider : Option ℕ → ℕ → Option ℕ
consider none at = some at
consider (some soonest) at = if ltb at soonest then some at else some soonest

unfoldable pub queue_deadline : Coordinator → List ℕ → Option ℕ → Option ℕ
queue_deadline c [] soonest = soonest
queue_deadline c (n ∷ ns) soonest =
    queue_deadline c ns (consider soonest ((c.heap n).queued_at + c.queue_wait))

unfoldable pub run_deadline : Coordinator → List (ℕ × Run) → Option ℕ → Option ℕ
run_deadline c [] soonest = soonest
run_deadline c ((n, r) ∷ rs) soonest = run_deadline c rs (
    if not r.overdue && elem n c.index
    then consider soonest ((c.heap n).started_at + c.action_budget)
    else soonest)

unfoldable pub next_deadline : Coordinator → Option ℕ
unfolding queue_deadline run_deadline
next_deadline c = run_deadline c c.running (queue_deadline c c.queue none)
