-- ===== src/Application/Loop/Shutdown.antt =====
-- core/internal/application/coordinator.go: what `shutdown` does before it waits for the workers.
use smart_srun.Prelude.{
  ℕ, ◌≡◌, refl, true, not, ◌&&◌, some, none, List, [], ◌∷◌, arith, elem, ◌==◌, if◌then◌else◌,
}
use smart_srun.Prelude.Maps.{find}
use smart_srun.Application.Action.{State, Message, is_terminal, transition}
use smart_srun.Application.Coordinator.{Coordinator, Run, Env}
use smart_srun.Application.Invariant.{Inv}
use smart_srun.Application.Loop.{
  interrupt_queue, interrupt_run, interrupt_runs, stop_runs, shutdown,
}
use smart_srun.Application.Schedule.Retire.{put, publish, retire, stop_run}

-- Every action in the list that had not finished is interrupted, and nothing else changes state.
interrupt_queue-state :
    (env : Env) (c : Coordinator) (ns : List ℕ) (m : ℕ)
    → ((interrupt_queue env c ns).heap m).state ≡ (
        if elem m ns && not (is_terminal (c.heap m).state)
        then State.interrupted
        else (c.heap m).state)
unfolding interrupt_queue
interrupt_queue-state env c [] m = refl
interrupt_queue-state env c (n ∷ ns) m =
    let moved = (transition (c.heap n) State.interrupted env.now).0 in
    let a = record moved { message = Message.stopped_before_start } in
    ground (arith, interrupt_queue-state env (publish (retire (put c n a) n) n) ns m)

-- Where `shutdown` has marked a running action, the action is finished.
interrupt_run-state :
    (env : Env) (c : Coordinator) (n m : ℕ)
    → ((interrupt_run env c n).heap m).state ≡ (
        if (n == m) && elem n c.index && not (is_terminal (c.heap m).state)
        then State.interrupted
        else (c.heap m).state)
unfolding interrupt_run
interrupt_run-state env c n m = ground arith

interrupt_run-index :
    (env : Env) (c : Coordinator) (n : ℕ) → (interrupt_run env c n).index ≡ c.index
unfolding interrupt_run
interrupt_run-index env c n = ground arith

interrupt_runs_keep :
    (env : Env) (c : Coordinator) (rs : List (ℕ × Run)) (m : ℕ)
    → is_terminal (c.heap m).state ≡ true
    → ((interrupt_runs env c rs).heap m).state ≡ (c.heap m).state
unfolding interrupt_runs
interrupt_runs_keep env c [] m h = refl
interrupt_runs_keep env c ((n, r) ∷ rs) m h =
    ground
      (arith, interrupt_run-state env c n m, interrupt_runs_keep env (interrupt_run env c n) rs m)

find-stop_runs :
    (rs : List (ℕ × Run)) (m : ℕ)
    → find m (stop_runs rs) ≡ (elim (find m rs) [ none ↦ none | some r ↦ some (stop_run r) ])
unfolding find stop_runs
find-stop_runs [] m = refl
find-stop_runs ((n, r) ∷ rs) m = ground (arith, find-stop_runs rs m)

interrupt_runs-queue :
    (env : Env) (c : Coordinator) (rs : List (ℕ × Run))
    → ((interrupt_runs env c rs).queue ≡ c.queue) × ((interrupt_runs env c rs).running ≡ c.running)
unfolding interrupt_runs interrupt_run
interrupt_runs-queue env c [] = (refl, refl)
interrupt_runs-queue env c ((n, r) ∷ rs) =
    ground (arith, interrupt_runs-queue env (interrupt_run env c n) rs)

interrupt_queue-queue :
    (env : Env) (c : Coordinator) (ns : List ℕ)
    → ((interrupt_queue env c ns).queue ≡ []) × ((interrupt_queue env c ns).running ≡ c.running)
unfolding interrupt_queue
interrupt_queue-queue env c [] = (refl, refl)
interrupt_queue-queue env c (n ∷ ns) =
    let moved = (transition (c.heap n) State.interrupted env.now).0 in
    let a = record moved { message = Message.stopped_before_start } in
    ground (arith, interrupt_queue-queue env (publish (retire (put c n a) n) n) ns)

-- In a state with the invariant, a stop with no completion at hand empties the queue, and interrupts
-- every action that waited.
pub shutdown_waiting :
    (env : Env) (c : Coordinator) (n : ℕ)
    → Inv c.queue none c
    → elem n c.queue ≡ true
    → ((shutdown env c none).queue ≡ [])
      × (((shutdown env c none).heap n).state ≡ State.interrupted)
unfolding shutdown
shutdown_waiting env c n v queued =
    let d = interrupt_queue env c c.queue in
    ground (
      arith,
      v.waiting n queued,
      interrupt_queue-state env c c.queue n,
      interrupt_queue-queue env c c.queue,
      interrupt_runs-queue env d d.running,
      interrupt_runs_keep env d d.running n,
    )

-- A stop with no completion at hand cancels the context of every action that runs, and leaves it
-- among the running ones.
pub shutdown_running :
    (env : Env) (c : Coordinator) (n : ℕ) (r : Run)
    → find n c.running ≡ some r
    → find n (shutdown env c none).running ≡ some (stop_run r)
unfolding shutdown
shutdown_running env c n r busy =
    let d = interrupt_queue env c c.queue in
    let e = interrupt_runs env d d.running in
    ground (
      arith,
      interrupt_queue-queue env c c.queue,
      interrupt_runs-queue env d d.running,
      find-stop_runs e.running n,
    )
