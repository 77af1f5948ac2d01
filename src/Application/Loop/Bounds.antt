-- ===== src/Application/Loop/Bounds.antt =====
-- The limits of the coordinator: the queue, the running set and the history of finished actions.
use smart_srun.Prelude.{
  ℕ, zero, suc, ◌+◌, ◌≤◌, ◌≡◌, refl, some, none, inl, inr, List, [], ◌∷◌, ◌++◌, arith, elem,
  Bool-cases, Option-cases, ltb, length, length-append, Option,
}
use smart_srun.Prelude.Maps.{find, erase, length-remove-le}
use smart_srun.Domain.Errors.{Failure}
use smart_srun.Observe.View.{Observation}
use smart_srun.Application.Action.{Action, Request}
use smart_srun.Application.Coordinator.{Coordinator, Limits, Run, Env, Completion, PhaseReport}
use smart_srun.Application.Loop.{
  new, Step, Reach, scheduled, submitted, cancelled, finished, progressed, here, next,
}
use smart_srun.Application.Schedule.Dispatch.{
  take_runnable, refused_action, launch, dispatch_rounds, dispatch,
}
use smart_srun.Application.Schedule.Expire.{
  fail_waiting, failed_action, expire_queue, expire_runs, expire,
}
use smart_srun.Application.Schedule.Finish.{observe, release, apply_outcome, finish_run, on_finish}
use smart_srun.Application.Schedule.Retire.{put, remove_first, on_cancel, on_phase}
use smart_srun.Application.Schedule.Submit.{
  supersede, enqueue, submit_new, on_submit, next_u64, digested,
}
use smart_srun.Application.Loop.Sizes.{
  length-remove_first-le, IsBounded, Shrinks, Shrinks-IsBounded, retire-Shrinks, close-Shrinks,
  Shrinks-refl, on_cancel-Shrinks, supersede-Shrinks,
}

enqueue-IsBounded :
    (env : Env) (c : Coordinator) (r : Request)
    → length c.queue + 1 ≤ c.queue_limit
    → IsBounded c
    → IsBounded (enqueue env c r).0
unfolding enqueue
enqueue-IsBounded env c r room b = record {
  queue_fits = omega (arith, length-append c.queue (next_u64 c.next_id ∷ []));
  running_fits = b.running_fits;
  history_fits = b.history_fits;
}

submit_new-IsBounded :
    (env : Env) (c : Coordinator) (r : Request) → IsBounded c → IsBounded (submit_new env c r).0
unfolding submit_new
submit_new-IsBounded env c r b =
    let s = supersede-Shrinks env c r in
    ground (
      arith,
      enqueue-IsBounded env (supersede env c r) r,
      Shrinks-IsBounded c (supersede env c r) s b,
      s,
    )

on_submit-IsBounded :
    (env : Env) (c : Coordinator) (r : Request) → IsBounded c → IsBounded (on_submit env c r).0
unfolding on_submit
on_submit-IsBounded env c r b =
    let d = record c { by_key = erase r.idempotency_key c.by_key } in
    ground (
      arith,
      submit_new-IsBounded env c (digested env r) b,
      submit_new-IsBounded env d (digested env r) (ground arith),
    )

fail_waiting-Shrinks : (env : Env) (c : Coordinator) (n : ℕ) → Shrinks c (fail_waiting env c n)
unfolding fail_waiting
fail_waiting-Shrinks env c n = close-Shrinks c n (failed_action env (c.heap n))

expire_queue-IsBounded :
    (env : Env) (c : Coordinator) (ns kept : List ℕ)
    → length kept + length ns ≤ c.queue_limit
    → IsBounded c
    → IsBounded (expire_queue env c ns kept)
unfolding expire_queue
expire_queue-IsBounded env c [] kept h b = ground arith
expire_queue-IsBounded env c (n ∷ ns) kept h b =
    let s = fail_waiting-Shrinks env c n in
    ground (
      arith,
      expire_queue-IsBounded env c ns (kept ++ (n ∷ [])),
      expire_queue-IsBounded env (fail_waiting env c n) ns kept,
      length-append kept (n ∷ []),
      s,
      Shrinks-IsBounded c (fail_waiting env c n) s b,
    )

length-expire_runs :
    (env : Env) (c : Coordinator) (rs : List (ℕ × Run)) → length (expire_runs env c rs) ≡ length rs
unfolding expire_runs
length-expire_runs env c [] = refl
length-expire_runs env c ((n, r) ∷ rs) = omega (arith, length-expire_runs env c rs)

expire-IsBounded : (env : Env) (c : Coordinator) → IsBounded c → IsBounded (expire env c)
unfolding expire
expire-IsBounded env c b =
    let d = expire_queue env c c.queue [] in
    let e = expire_queue-IsBounded env c c.queue [] (omega arith) b in
    record {
      queue_fits = e.queue_fits;
      running_fits = omega (arith, e.running_fits, length-expire_runs env d d.running);
      history_fits = e.history_fits;
    }

abbrev failure_of : Option Failure → Failure
failure_of none = record { code = none; message = [] }
failure_of (some failure) = failure

launch-IsBounded :
    (env : Env) (c : Coordinator) (n : ℕ)
    → length c.running + 1 ≤ c.parallel
    → IsBounded c
    → IsBounded (launch env c n)
unfolding launch
launch-IsBounded env c n room b =
    let taken = record c { queue = remove_first n c.queue } in
    ground (
      arith,
      length-remove_first-le n c.queue,
      length-remove-le n c.running,
      retire-Shrinks
          (put taken n (refused_action env (c.heap n) (failure_of (env.check (c.heap n).request))))
          n,
    )

dispatch_rounds-IsBounded :
    (fuel : ℕ) (env : Env) (c : Coordinator) → IsBounded c → IsBounded (dispatch_rounds fuel env c)
unfolding dispatch_rounds
dispatch_rounds-IsBounded zero env c b = b
dispatch_rounds-IsBounded (suc fuel) env c b =
    elim (Bool-cases (ltb (length c.running) c.parallel)) [
      | inr full ↦ rw (full, dispatch_rounds) b
      | inl room ↦ elim (Option-cases (take_runnable c)) [
        | inl idle ↦ rw (room, idle, dispatch_rounds) b
        | inr (n, e) ↦
            rw (room, e, dispatch_rounds)
              (dispatch_rounds-IsBounded fuel env (launch env c n)
                (launch-IsBounded env c n (ground arith) b))
      ]
    ]

observe-Shrinks : (c : Coordinator) (o : Option Observation) → Shrinks c (observe c o)
observe-Shrinks c none = Shrinks-refl c
observe-Shrinks c (some o) = ground arith

finish_run-Shrinks :
    (env : Env) (c : Coordinator) (done : Completion) (w : Run)
    → Shrinks c (finish_run env c done w)
unfolding finish_run release
finish_run-Shrinks env c done w =
    let n = done.id in
    let a = record (c.heap n) {
      timings = done.timings;
      worker_milliseconds = done.worker_milliseconds;
    } in
    let result = apply_outcome env w.overdue a done.outcome in
    let d = put (release c n w) n result.0 in
    let e = observe d result.1.observation in
    ground (
      arith,
      length-remove-le n c.running,
      observe-Shrinks d result.1.observation,
      retire-Shrinks e n,
    )

on_finish-IsBounded :
    (env : Env) (c : Coordinator) (done : Completion)
    → IsBounded c
    → IsBounded (on_finish env c done)
unfolding on_finish
on_finish-IsBounded env c done b = elim (Bool-cases (elem done.id c.index)) [
  | inr unknown ↦ rw unknown b
  | inl known ↦ elim (Option-cases (find done.id c.running)) [
    | inl idle ↦ rw (known, idle, on_finish) b
    | inr (w, busy) ↦
        rw (known, busy, on_finish)
          (Shrinks-IsBounded c (finish_run env c done w) (finish_run-Shrinks env c done w) b)
  ]
]

on_phase-IsBounded :
    (c : Coordinator) (report : PhaseReport) → IsBounded c → IsBounded (on_phase c report)
unfolding on_phase
on_phase-IsBounded c report b = ground arith

Step-IsBounded : {c d : Coordinator} → Step c d → IsBounded c → IsBounded d
Step-IsBounded (scheduled env c) b =
    unfold dispatch in
    dispatch_rounds-IsBounded (suc (length (expire env c).queue)) env (expire env c)
      (expire-IsBounded env c b)
Step-IsBounded (submitted env c r room) b = on_submit-IsBounded env c r b
Step-IsBounded (cancelled env c n) b =
    Shrinks-IsBounded c (on_cancel env c n).0 (on_cancel-Shrinks env c n) b
Step-IsBounded (finished env c done sound) b = on_finish-IsBounded env c done b
Step-IsBounded (progressed c report) b = on_phase-IsBounded c report b

-- In every state that a new coordinator reaches, the queue holds at most `queue_limit` actions, at
-- most `parallel` actions run, and at most `history` finished actions are kept.
pub Reach-IsBounded :
    (heap : ℕ → Action) (options : Limits) {c : Coordinator}
    → Reach (new heap options) c
    → IsBounded c
unfolding new
Reach-IsBounded heap options here = ground arith
Reach-IsBounded heap options (next r s) = Step-IsBounded s (Reach-IsBounded heap options r)
