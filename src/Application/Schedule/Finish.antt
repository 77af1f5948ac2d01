-- ===== src/Application/Schedule/Finish.antt =====
-- schedule.go: `onFinish`.
use smart_srun.Prelude.{
  ℕ, ◌*◌, Bool, true, false, not, ◌&&◌, Option, none, some, [], ◌∷◌, ltb, ◌==◌, if◌then◌else◌,
  length, elem, is_empty,
}
use smart_srun.Prelude.Maps.{lookup, erase, find, remove}
use smart_srun.Domain.Errors.{ErrorCode}
use smart_srun.Observe.View.{Observation}
use smart_srun.Application.Action.{State, Message, Action, Outcome, is_terminal, transition}
use smart_srun.Application.Coordinator.{Coordinator, Run, Env, Completion}
use smart_srun.Application.Schedule.Retire.{put, publish, retire}

abbrev pub is_verdict : State → Bool
is_verdict State.succeeded = true
is_verdict State.failed = true
is_verdict _ = false

abbrev is_success : State → Bool
is_success State.succeeded = true
is_success _ = false

abbrev rejected_outcome : Message → Outcome
rejected_outcome m = record {
  state = State.failed;
  message = m;
  code = some ErrorCode.internal;
  maintenance_deferred = false;
  observation = none;
  result_json = [];
  connectivity = none;
}

-- What is kept of a worker's outcome: a state that is no verdict, and a result over 32 KiB, are
-- internal errors; a success goes through `Finalize`.
unfoldable pub settle : Env → Action → Outcome → Outcome
settle env a o =
    let explained = if is_verdict o.state then o else rejected_outcome Message.unexplained_result in
    let final = if is_success explained.state then env.finalize a explained else explained in
    if ltb (32 * 1024) (length final.result_json)
    then rejected_outcome Message.result_too_large
    else final

-- The action and the outcome after the `switch`.
unfoldable pub apply_outcome : Env → Bool → Action → Outcome → Action × Outcome
unfolding transition
apply_outcome env overdue a o =
    let final = settle env a o in
    let failed = (transition a State.failed env.now).0 in
    let moved = (transition a final.state env.now).0 in
    if overdue && not (is_terminal a.state)
    then (
      record failed { message = Message.over_budget; code = some ErrorCode.deadline_exceeded },
      o,
    )
    else if is_terminal a.state
    then (a, o)
    else (
      record moved {
        message = final.message;
        code = final.code;
        result_json = if is_success final.state then final.result_json else moved.result_json;
        maintenance_deferred = final.maintenance_deferred;
        connectivity = final.connectivity;
      },
      final,
    )

abbrev is_holder : ℕ → Option ℕ → Bool
is_holder n none = false
is_holder n (some m) = m == n

-- The run is over: it leaves the running set and gives its line back.
unfoldable pub release : Coordinator → ℕ → Run → Coordinator
release c n r = record c {
  running = remove n c.running;
  busy_lines =
      if not (is_empty r.line) && is_holder n (lookup r.line c.busy_lines)
      then erase r.line c.busy_lines
      else c.busy_lines;
}

abbrev pub observe : Coordinator → Option Observation → Coordinator
observe c none = c
observe c (some o) = record c { recorded = o ∷ c.recorded }

unfoldable pub finish_run : Env → Coordinator → Completion → Run → Coordinator
finish_run env c done r =
    let n = done.id in
    let timed = record (c.heap n) {
      timings = done.timings;
      worker_milliseconds = done.worker_milliseconds;
    } in
    let result = apply_outcome env r.overdue timed done.outcome in
    publish (retire (observe (put (release c n r) n result.0) result.1.observation) n) n

unfoldable pub on_finish : Env → Coordinator → Completion → Coordinator
unfolding finish_run release apply_outcome settle retire
on_finish env c done =
    if not (elem done.id c.index)
    then c
    else elim (find done.id c.running) [ none ↦ c | some r ↦ finish_run env c done r ]
