-- ===== src/Examples/Loops.antt =====
-- The coordinator's laws at the states of one life.
use smart_srun.Prelude.{
  ℕ, ◌<◌, ◌+◌, ◌≡◌, ◌⊎◌, refl, ltb, true, false, none, some, [], arith, bytes_eq, length,
}
use smart_srun.Prelude.Maps.{find, lookup, insert, erase, remove}
use smart_srun.Application.Action.{State, is_terminal}
use smart_srun.Application.Coordinator.{Coordinator}
use smart_srun.Application.Invariant.{Inv}
use smart_srun.Application.Schedule.Dispatch.{take_runnable, runs_first, must_wait, dispatch}
use smart_srun.Application.Schedule.Expire.{expire, next_deadline}
use smart_srun.Application.Schedule.Finish.{on_finish}
use smart_srun.Application.Schedule.Retire.{on_cancel, stop_run}
use smart_srun.Application.Schedule.Submit.{on_submit, accepted}
use smart_srun.Application.Loop.{new, shutdown, Reach, Step}
use smart_srun.Application.Loop.Bounds.{Reach-IsBounded}
use smart_srun.Application.Loop.Sizes.{IsBounded}
use smart_srun.Application.Loop.Choice.{take_runnable_best, IsHeld, dispatch_complete}
use smart_srun.Application.Loop.Deadlines.{
  expire_waiting, expire_running, expire_stops, next_deadline_later,
}
use smart_srun.Application.Loop.Exclusive.{Reach-Inv, Reach-exclusive}
use smart_srun.Application.Loop.Receipts.{
  duplicate_receipt, on_submit_again, on_finish_lem, on_finish-on_cancel,
}
use smart_srun.Application.Loop.Shutdown.{shutdown_waiting, shutdown_running}
use smart_srun.Application.Loop.Terminal.{Reach-terminal}
use smart_srun.Examples.Lives.{
  env_at, limits, heap, login, waiting_one, waiting, working, report, done, worker, Reach-working,
  Reach-done, first_works,
}

abbrev first : ℕ
first = 1

Reach-exclusive_example : first ≡ first
Reach-exclusive_example =
    Reach-exclusive heap limits first first worker worker Reach-working first_works first_works refl
      refl

Reach-Inv_example : Inv working.queue none working
Reach-Inv_example = Reach-Inv heap limits Reach-working

Reach-IsBounded_example : IsBounded done
Reach-IsBounded_example = Reach-IsBounded heap limits Reach-done

abbrev settled : Coordinator
settled = dispatch (env_at 21) (expire (env_at 21) done)

later-Reach : Reach done settled
later-Reach = Reach.next Reach.here (Step.scheduled (env_at 21) done)

Reach-terminal_example : (settled.heap 1).state ≡ (done.heap 1).state
unfolding find new on_submit expire dispatch lookup insert bytes_eq erase remove on_finish
Reach-terminal_example = Reach-terminal 1 later-Reach (omega arith) refl

take_runnable_best_example : runs_first (waiting.heap 2) (waiting.heap 1) ≡ false
unfolding new on_submit lookup insert bytes_eq erase take_runnable must_wait
take_runnable_best_example = take_runnable_best waiting 1 2 refl refl refl

dispatch_complete_example :
    (ltb (length (dispatch (env_at 7) waiting).running) (dispatch (env_at 7) waiting).parallel
      ≡ false)
    ⊎ IsHeld (dispatch (env_at 7) waiting) 2
unfolding find new on_submit expire dispatch lookup insert bytes_eq erase remove
dispatch_complete_example = dispatch_complete (env_at 7) waiting 2 refl

on_submit_again_example :
    on_submit (env_at 9) waiting_one login ≡ (waiting_one, accepted (duplicate_receipt 1))
unfolding new on_submit lookup insert bytes_eq erase
on_submit_again_example =
    on_submit_again (env_at 5) (env_at 9) (new heap limits) waiting_one login 1 refl refl

on_finish_lem_example :
    let d = on_finish (env_at 20) working report in
    (is_terminal (d.heap 1).state ≡ true)
    × (find 1 d.running ≡ none)
    × (lookup worker.line d.busy_lines ≡ none)
on_finish_lem_example =
    on_finish_lem (env_at 20) working report worker (Reach-Inv heap limits Reach-working)
      (λ a o. refl) first_works refl

working_live : is_terminal (working.heap 1).state ≡ false
unfolding find new on_submit expire dispatch lookup insert bytes_eq erase remove
working_live = refl

on_finish-on_cancel_example :
    let d = (on_cancel (env_at 9) working 1).0 in
    let e = on_finish (env_at 20) d report in
    (lookup worker.line d.busy_lines ≡ some 1)
    × ((e.heap 1).state ≡ State.cancelled)
    × (find 1 e.running ≡ none)
    × (lookup worker.line e.busy_lines ≡ none)
on_finish-on_cancel_example =
    on_finish-on_cancel (env_at 9) (env_at 20) working report worker
      (Reach-Inv heap limits Reach-working) (λ a o. refl) working_live first_works refl

expire_waiting_test :
    10 < ((expire (env_at 10) waiting).heap 2).queued_at + (expire (env_at 10) waiting).queue_wait
unfolding new on_submit expire lookup insert bytes_eq erase
expire_waiting_test = expire_waiting (env_at 10) waiting 2 refl

expire_running_example :
    10
    < ((expire (env_at 10) working).heap 1).started_at + (expire (env_at 10) working).action_budget
unfolding find new on_submit expire dispatch lookup insert bytes_eq erase remove
expire_running_example = expire_running (env_at 10) working 1 worker refl refl refl

expire_stops_test :
    find 1 (expire (env_at 5000) working).running
    ≡ some (record { line = worker.line; overdue = true; stopping = true })
unfolding find new on_submit expire dispatch lookup insert bytes_eq erase remove
expire_stops_test = expire_stops (env_at 5000) working 1 worker refl refl

next_deadline_later_test : 10 < 106
unfolding find new on_submit expire dispatch lookup insert bytes_eq erase remove next_deadline
next_deadline_later_test = next_deadline_later (env_at 10) working 106 refl

shutdown_waiting_example :
    ((shutdown (env_at 30) working none).queue ≡ [])
    × (((shutdown (env_at 30) working none).heap 2).state ≡ State.interrupted)
unfolding find new on_submit expire dispatch lookup insert bytes_eq erase remove
shutdown_waiting_example =
    shutdown_waiting (env_at 30) working 2 (Reach-Inv heap limits Reach-working) refl

shutdown_running_test : find 1 (shutdown (env_at 30) working none).running ≡ some (stop_run worker)
shutdown_running_test = shutdown_running (env_at 30) working 1 worker first_works
