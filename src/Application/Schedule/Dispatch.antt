-- ===== src/Application/Schedule/Dispatch.antt =====
-- schedule.go: `dispatch`, `takeRunnable`, `runsFirst`, `refreshRunning` and `startAction`.
use smart_srun.Prelude.{
  ℕ, zero, suc, Bool, true, false, not, ◌&&◌, ◌||◌, Option, none, some, List, [], ◌∷◌, ltb, ◌==◌,
  if◌then◌else◌, length, is_some, is_empty,
}
use smart_srun.Prelude.Maps.{lookup, insert, remove}
use smart_srun.Domain.Errors.{Failure}
use smart_srun.Policy.Priority.{rank}
use smart_srun.Application.Action.{
  State, Phase, Message, Action, is_presets_refresh, switches, priority, transition,
}
use smart_srun.Application.Coordinator.{Coordinator, Run, Env}
use smart_srun.Application.Schedule.Retire.{put, publish, retire, remove_first}
use smart_srun.Application.Schedule.Submit.{next_u64}

-- The queue order: priority, then arrival, then submission.
unfoldable pub runs_first : Action → Action → Bool
runs_first a b =
    let pa = rank (priority a.request.kind) in
    let pb = rank (priority b.request.kind) in
    if not (pa == pb)
    then ltb pb pa
    else if not (a.queued_at == b.queued_at)
    then ltb a.queued_at b.queued_at
    else ltb a.ordinal b.ordinal

pub any_running : (Action → Bool) → (ℕ → Action) → List (ℕ × Run) → Bool
any_running p heap [] = false
any_running p heap ((n, r) ∷ rs) = p (heap n) || any_running p heap rs

abbrev pub does_switch : Action → Bool
does_switch a = switches a.request.kind

abbrev pub does_refresh : Action → Bool
does_refresh a = is_presets_refresh a.request.kind

-- The two `continue`s: a second refresh, and a line that is taken.
unfoldable pub must_wait : Coordinator → Action → Bool
unfolding any_running
must_wait c a =
    does_refresh a && any_running does_refresh c.heap c.running
    || (not (is_empty a.line) && not (does_switch a) && is_some (lookup a.line c.busy_lines))

-- `chosen < 0 || runsFirst(action, c.queue[chosen])`.
abbrev pub better : (ℕ → Action) → ℕ → Option ℕ → Option ℕ
better heap n none = some n
better heap n (some m) = if runs_first (heap n) (heap m) then some n else some m

unfoldable pub choose : Coordinator → List ℕ → Option ℕ → Option ℕ
choose c [] chosen = chosen
choose c (n ∷ ns) chosen =
    choose c ns (if must_wait c (c.heap n) then chosen else better c.heap n chosen)

-- The action that should run next, or none; the queue loses it.
unfoldable pub take_runnable : Coordinator → Option ℕ
unfolding choose must_wait runs_first any_running
take_runnable c =
    if any_running does_switch c.heap c.running then none else elim (choose c c.queue none) [
      | none ↦ none
      | some n ↦ if does_switch (c.heap n) && not (is_empty c.running) then none else some n
    ]

unfoldable pub start_action : Env → Coordinator → ℕ → Coordinator
unfolding transition
start_action env c n =
    let sequence = next_u64 c.next_seq in
    let moved = (transition (c.heap n) State.running env.now).0 in
    let a = record moved { sequence = sequence; phase = some Phase.waiting_link } in
    let line = (c.heap n).line in
    let started = record c {
      next_seq = sequence;
      running = (n, record { line = line; overdue = false; stopping = false }) ∷ remove n c.running;
      busy_lines = if is_empty line then c.busy_lines else insert line n c.busy_lines;
    } in
    publish (put started n a) n

abbrev pub refused_action : Env → Action → Failure → Action
refused_action env a failure =
    let moved = (transition a State.failed env.now).0 in
    record moved { code = failure.code; message = Message.refusal failure.message }

-- A request that no longer passes `Check`.
unfoldable pub refuse_start : Env → Coordinator → ℕ → Failure → Coordinator
unfolding transition retire
refuse_start env c n failure =
    publish (retire (put c n (refused_action env (c.heap n) failure)) n) n

-- The body of the loop in `dispatch`, for the action that was taken.
unfoldable pub launch : Env → Coordinator → ℕ → Coordinator
unfolding start_action refuse_start remove_first
launch env c n =
    let taken = record c { queue = remove_first n c.queue } in
    elim (env.check (c.heap n).request) [
      | some failure ↦ refuse_start env taken n failure
      | none ↦ start_action env taken n
    ]

-- The loop takes an action from the queue in each round.
unfoldable pub dispatch_rounds : ℕ → Env → Coordinator → Coordinator
dispatch_rounds zero env c = c
dispatch_rounds (suc fuel) env c = elim (ltb (length c.running) c.parallel) [
  | false ↦ c
  | true ↦ elim (take_runnable c) [ none ↦ c | some n ↦ dispatch_rounds fuel env (launch env c n) ]
]

unfoldable pub dispatch : Env → Coordinator → Coordinator
unfolding dispatch_rounds take_runnable launch
dispatch env c = dispatch_rounds (suc (length c.queue)) env c
