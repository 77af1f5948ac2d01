-- ===== src/Application/Invariant/Finish.antt =====
-- `onFinish` keeps the invariant, where `Finalize` returns a verdict.
use smart_srun.Prelude.{
  ℕ, ◌≡◌, refl, ◌∙◌, Bool, true, some, none, List, ◌⊎◌, inl, inr, elem, arith, ==_refl, is_some,
  Bool-cases, Option-cases, bytes_eq_iff, Option,
}
use smart_srun.Prelude.Maps.{find, find-remove, lookup-erase}
use smart_srun.Observe.View.{Observation}
use smart_srun.Application.Action.{Action, Outcome, is_terminal}
use smart_srun.Application.Coordinator.{Coordinator, Run, Env, Completion}
use smart_srun.Application.Invariant.{Inv, IsWaiting, IsWorking, is_away}
use smart_srun.Application.Invariant.Cancel.{OwnInv, own}
use smart_srun.Application.Invariant.Close.{close-Inv, retire-queue}
use smart_srun.Application.Schedule.Finish.{
  settle, apply_outcome, release, observe, finish_run, on_finish, is_verdict,
}
use smart_srun.Application.Schedule.Retire.{put, publish, retire}

-- `Finalize` answers with a success or a failure.
abbrev pub FinalizesVerdict : Env → Type 0
FinalizesVerdict env = (a : Action) (o : Outcome) → is_verdict (env.finalize a o).state ≡ true

settle-is_verdict :
    (env : Env) (a : Action) (o : Outcome)
    → FinalizesVerdict env
    → is_verdict (settle env a o).state ≡ true
unfolding settle
settle-is_verdict env a o sound = ground (arith, sound a o)

pub apply_outcome-is_terminal :
    (env : Env) (overdue : Bool) (a : Action) (o : Outcome)
    → FinalizesVerdict env
    → is_terminal (apply_outcome env overdue a o).0.state ≡ true
unfolding apply_outcome
apply_outcome-is_terminal env overdue a o sound = ground (arith, settle-is_verdict env a o sound)

apply_outcome-retired :
    (env : Env) (overdue : Bool) (a : Action) (o : Outcome)
    → (apply_outcome env overdue a o).0.retired ≡ a.retired
unfolding apply_outcome
apply_outcome-retired env overdue a o = ground arith

-- The run has left, and its action is not filed yet.
module _ (c : Coordinator) (n : ℕ) (w : Run) (v : OwnInv c) (busy : find n c.running ≡ some w) where
  release-waiting : (m : ℕ) → elem m c.queue ≡ true → IsWaiting (release c n w) m
  unfolding release
  release-waiting m h = ground (arith, v.waiting m h, find-remove n m c.running)

  release-working :
      (m : ℕ) (r : Run) → find m (release c n w).running ≡ some r → IsWorking (release c n w) m r
  unfolding release
  release-working m r h = ground (
    arith,
    v.working m r,
    v.working n w busy,
    find-remove n m c.running,
    lookup-erase w.line r.line c.busy_lines,
    bytes_eq_iff w.line r.line,
  )

  release-placed :
      (m : ℕ)
      → elem m c.index ≡ true
      → (elem m c.queue ≡ true)
        ⊎ (is_some (find m (release c n w).running) ≡ true)
        ⊎ (is_away m (some n) ≡ true)
        ⊎ ((c.heap m).retired ≡ true) × (is_terminal (c.heap m).state ≡ true)
  unfolding release
  release-placed m h = ground (arith, v.placed m h, find-remove n m c.running, ==_refl n)

  release-Inv : Inv c.queue (some n) (release c n w)
  unfolding release
  release-Inv = record {
    waiting = release-waiting;
    working = release-working;
    filed = v.filed;
    fresh = v.fresh;
    distinct = v.distinct;
    placed = release-placed;
  }

-- What `onFinish` makes of a completion: the action as the outcome leaves it.
abbrev timed : Coordinator → Completion → Action
timed c done = record (c.heap done.id) {
  timings = done.timings;
  worker_milliseconds = done.worker_milliseconds;
}

observe-Inv :
    {q : List ℕ} {away : Option ℕ} (c : Coordinator) (o : Option Observation)
    → Inv q away c
    → Inv q away (observe c o)
observe-Inv c none v = v
observe-Inv c (some o) v = record {
  waiting = λ n h. ground (arith, v.waiting n h);
  working = λ n r h. ground (arith, v.working n r h);
  filed = v.filed;
  fresh = v.fresh;
  distinct = v.distinct;
  placed = v.placed;
}

observe-put :
    (c : Coordinator) (n : ℕ) (a : Action) (o : Option Observation)
    → observe (put c n a) o ≡ put (observe c o) n a
observe-put c n a none = refl
observe-put c n a (some o) = refl

observe-queue : (c : Coordinator) (o : Option Observation) → (observe c o).queue ≡ c.queue
observe-queue c none = refl
observe-queue c (some o) = refl

observe-running : (c : Coordinator) (o : Option Observation) → (observe c o).running ≡ c.running
observe-running c none = refl
observe-running c (some o) = refl

observe-index : (c : Coordinator) (o : Option Observation) → (observe c o).index ≡ c.index
observe-index c none = refl
observe-index c (some o) = refl

finish_run-Inv :
    (env : Env) (c : Coordinator) (done : Completion) (w : Run)
    → FinalizesVerdict env
    → OwnInv c
    → find done.id c.running ≡ some w
    → OwnInv (finish_run env c done w)
unfolding finish_run release
finish_run-Inv env c done w sound v busy =
    let n = done.id in
    let result = apply_outcome env w.overdue (timed c done) done.outcome in
    let freed = observe (release c n w) result.1.observation in
    let k = v.working n w busy in
    rw observe-put (
      own (publish (retire (put freed n result.0) n) n)
        (close-Inv c.queue freed n result.0
          (observe-Inv (release c n w) result.1.observation (release-Inv c n w v busy))
          (ground (arith, v.waiting n, busy))
          (ground (
            arith,
            observe-running (release c n w) result.1.observation,
            find-remove n n c.running,
            ==_refl n,
          ))
          (ground (arith, observe-index (release c n w) result.1.observation, k.known))
          (apply_outcome-retired env w.overdue (timed c done) done.outcome ∙ k.unfiled)
          (apply_outcome-is_terminal env w.overdue (timed c done) done.outcome sound))
        (retire-queue (put freed n result.0) n
          ∙ observe-queue (release c n w) result.1.observation))

-- Whatever completion arrives, the invariant holds after it.
pub on_finish-Inv :
    (env : Env) (c : Coordinator) (done : Completion)
    → FinalizesVerdict env
    → OwnInv c
    → OwnInv (on_finish env c done)
unfolding on_finish
on_finish-Inv env c done sound v = elim (Bool-cases (elem done.id c.index)) [
  | inr unknown ↦ rw unknown v
  | inl known ↦ elim (Option-cases (find done.id c.running)) [
    | inl idle ↦ rw (known, idle, on_finish) v
    | inr (w, busy) ↦ rw (known, busy, on_finish) (finish_run-Inv env c done w sound v busy)
  ]
]
