-- ===== src/Application/Loop/Terminal.antt =====
-- A finished action stays as it finished.
use smart_srun.Prelude.{
  ℕ, zero, suc, ◌+◌, ◌^◌, ◌<◌, ◌≤◌, ◌≡◌, refl, Bool, true, some, none, inl, inr, List, [], ◌∷◌,
  ◌++◌, arith, elem, Option, Bool-cases, Option-cases, length, filter,
}
use smart_srun.Prelude.Maps.{find, erase}
use smart_srun.Observe.View.{Observation}
use smart_srun.Application.Action.{Action, Request, Outcome, is_terminal}
use smart_srun.Application.Coordinator.{Coordinator, Run, Env, Completion, PhaseReport}
use smart_srun.Application.Loop.{
  Step, Reach, scheduled, submitted, cancelled, finished, progressed, here, next,
}
use smart_srun.Application.Schedule.Dispatch.{take_runnable, launch, dispatch_rounds, dispatch}
use smart_srun.Application.Schedule.Expire.{fail_waiting, expire_queue, expire}
use smart_srun.Application.Schedule.Finish.{apply_outcome, observe, release, finish_run, on_finish}
use smart_srun.Application.Schedule.Retire.{put, retire, on_cancel, on_phase}
use smart_srun.Application.Schedule.Submit.{
  cancel_all, supersede, enqueue, submit_new, on_submit, digested, is_superseded,
}

-- Between two states no finished action changes its state.
abbrev KeepsEnded : Coordinator → Coordinator → Type 0
KeepsEnded c d =
    (m : ℕ)
    → m ≤ c.next_id
    → is_terminal (c.heap m).state ≡ true
    → ((d.heap m).state ≡ (c.heap m).state) × (c.next_id ≤ d.next_id)

retire-state : (c : Coordinator) (n m : ℕ) → ((retire c n).heap m).state ≡ (c.heap m).state
unfolding retire
retire-state c n m = ground arith

retire-next_id : (c : Coordinator) (n : ℕ) → (retire c n).next_id ≡ c.next_id
unfolding retire
retire-next_id c n = ground arith

on_cancel-KeepsEnded : (env : Env) (c : Coordinator) (n : ℕ) → KeepsEnded c (on_cancel env c n).0
unfolding on_cancel
on_cancel-KeepsEnded env c n m low h = ground arith

on_phase-KeepsEnded : (c : Coordinator) (p : PhaseReport) → KeepsEnded c (on_phase c p)
unfolding on_phase
on_phase-KeepsEnded c p m low h = ground arith

KeepsEnded-trans : (c d e : Coordinator) → KeepsEnded c d → KeepsEnded d e → KeepsEnded c e
KeepsEnded-trans c d e f g m low h = ground (arith, f m low h, g m)

cancel_all-KeepsEnded :
    (env : Env) (c : Coordinator) (ns : List ℕ) → KeepsEnded c (cancel_all env c ns)
unfolding cancel_all
cancel_all-KeepsEnded env c [] m low h = (refl, omega arith)
cancel_all-KeepsEnded env c (n ∷ ns) m low h =
    KeepsEnded-trans c (on_cancel env c n).0 (cancel_all env (on_cancel env c n).0 ns)
      (on_cancel-KeepsEnded env c n) (cancel_all-KeepsEnded env (on_cancel env c n).0 ns) m low h

supersede-KeepsEnded :
    (env : Env) (c : Coordinator) (r : Request) → KeepsEnded c (supersede env c r)
unfolding supersede
supersede-KeepsEnded env c r m low h =
    ground (
      arith,
      cancel_all-KeepsEnded env c (filter (λ n. is_superseded r (c.heap n)) c.index) m low h,
    )

-- What a supersession does to the counter of submissions: nothing.
on_cancel-next_id :
    (env : Env) (c : Coordinator) (n : ℕ) → (on_cancel env c n).0.next_id ≡ c.next_id
unfolding on_cancel
on_cancel-next_id env c n = ground arith

cancel_all-next_id :
    (env : Env) (c : Coordinator) (ns : List ℕ) → (cancel_all env c ns).next_id ≡ c.next_id
unfolding cancel_all
cancel_all-next_id env c [] = refl
cancel_all-next_id env c (n ∷ ns) =
    omega (arith, cancel_all-next_id env (on_cancel env c n).0 ns, on_cancel-next_id env c n)

supersede-next_id :
    (env : Env) (c : Coordinator) (r : Request) → (supersede env c r).next_id ≡ c.next_id
unfolding supersede
supersede-next_id env c r =
    ground (arith, cancel_all-next_id env c (filter (λ n. is_superseded r (c.heap n)) c.index))

enqueue-KeepsEnded :
    (env : Env) (c : Coordinator) (r : Request)
    → c.next_id + 1 < 2 ^ 64
    → KeepsEnded c (enqueue env c r).0
unfolding enqueue
enqueue-KeepsEnded env c r room m low h = ground arith

submit_new-KeepsEnded :
    (env : Env) (c : Coordinator) (r : Request)
    → c.next_id + 1 < 2 ^ 64
    → KeepsEnded c (submit_new env c r).0
unfolding submit_new
submit_new-KeepsEnded env c r room m low h =
    let d = supersede env c r in
    let same = supersede-next_id env c r in
    ground (
      arith,
      supersede-KeepsEnded env c r m low h,
      enqueue-KeepsEnded env d r (omega arith) m,
      same,
    )

on_submit-KeepsEnded :
    (env : Env) (c : Coordinator) (r : Request)
    → c.next_id + 1 < 2 ^ 64
    → KeepsEnded c (on_submit env c r).0
unfolding on_submit
on_submit-KeepsEnded env c r room m low h = ground (
  arith,
  submit_new-KeepsEnded env c (digested env r) room m low h,
  submit_new-KeepsEnded env (record c { by_key = erase r.idempotency_key c.by_key })
      (digested env r) room m low h,
)

fail_waiting-KeepsEnded :
    (env : Env) (c : Coordinator) (n : ℕ) → KeepsEnded c (fail_waiting env c n)
unfolding fail_waiting
fail_waiting-KeepsEnded env c n m low h = ground arith

expire_queue-KeepsEnded :
    (env : Env) (c : Coordinator) (ns kept : List ℕ) → KeepsEnded c (expire_queue env c ns kept)
unfolding expire_queue
expire_queue-KeepsEnded env c [] kept m low h = (refl, omega arith)
expire_queue-KeepsEnded env c (n ∷ ns) kept m low h = ground (
  arith,
  expire_queue-KeepsEnded env c ns (kept ++ (n ∷ [])) m low h,
  fail_waiting-KeepsEnded env c n m low h,
  expire_queue-KeepsEnded env (fail_waiting env c n) ns kept m,
)

expire-KeepsEnded : (env : Env) (c : Coordinator) → KeepsEnded c (expire env c)
unfolding expire
expire-KeepsEnded env c m low h = expire_queue-KeepsEnded env c c.queue [] m low h

launch-KeepsEnded : (env : Env) (c : Coordinator) (n : ℕ) → KeepsEnded c (launch env c n)
unfolding launch
launch-KeepsEnded env c n m low h = ground arith

dispatch_rounds-KeepsEnded :
    (fuel : ℕ) (env : Env) (c : Coordinator) → KeepsEnded c (dispatch_rounds fuel env c)
unfolding dispatch_rounds
dispatch_rounds-KeepsEnded zero env c m low h = (refl, omega arith)
dispatch_rounds-KeepsEnded (suc fuel) env c m low h = elim (Option-cases (take_runnable c)) [
  | inl idle ↦ ground arith
  | inr (n, e) ↦ ground (
    arith,
    launch-KeepsEnded env c n m low h,
    dispatch_rounds-KeepsEnded fuel env (launch env c n) m,
  )
]

dispatch-KeepsEnded : (env : Env) (c : Coordinator) → KeepsEnded c (dispatch env c)
unfolding dispatch
dispatch-KeepsEnded env c = dispatch_rounds-KeepsEnded (suc (length c.queue)) env c

observe-same :
    (c : Coordinator) (o : Option Observation)
    → ((observe c o).heap ≡ c.heap) × ((observe c o).next_id ≡ c.next_id)
observe-same c none = (refl, refl)
observe-same c (some o) = (refl, refl)

apply_outcome_ended :
    (env : Env) (overdue : Bool) (a : Action) (o : Outcome)
    → is_terminal a.state ≡ true
    → (apply_outcome env overdue a o).0.state ≡ a.state
unfolding apply_outcome
apply_outcome_ended env overdue a o h = ground arith

finish_run-KeepsEnded :
    (env : Env) (c : Coordinator) (done : Completion) (w : Run)
    → KeepsEnded c (finish_run env c done w)
unfolding finish_run release
finish_run-KeepsEnded env c done w m low h =
    let a = record (c.heap done.id) {
      timings = done.timings;
      worker_milliseconds = done.worker_milliseconds;
    } in
    let result = apply_outcome env w.overdue a done.outcome in
    let d = observe (put (release c done.id w) done.id result.0) result.1.observation in
    let same = observe-same (put (release c done.id w) done.id result.0) result.1.observation in
    ground (
      arith,
      retire-state d done.id m,
      retire-next_id d done.id,
      same,
      apply_outcome_ended env w.overdue a done.outcome,
    )

on_finish-KeepsEnded :
    (env : Env) (c : Coordinator) (done : Completion) → KeepsEnded c (on_finish env c done)
unfolding on_finish
on_finish-KeepsEnded env c done m low h = elim (Bool-cases (elem done.id c.index)) [
  | inr unknown ↦ rw unknown (refl, omega arith)
  | inl known ↦ elim (Option-cases (find done.id c.running)) [
    | inl idle ↦ rw (known, idle, on_finish) (refl, omega arith)
    | inr (w, busy) ↦ rw (known, busy, on_finish) (finish_run-KeepsEnded env c done w m low h)
  ]
]

Step-KeepsEnded : {c d : Coordinator} → Step c d → KeepsEnded c d
Step-KeepsEnded (scheduled env c) =
    KeepsEnded-trans c (expire env c) (dispatch env (expire env c)) (expire-KeepsEnded env c)
      (dispatch-KeepsEnded env (expire env c))
Step-KeepsEnded (submitted env c r room) = on_submit-KeepsEnded env c r room
Step-KeepsEnded (cancelled env c n) = on_cancel-KeepsEnded env c n
Step-KeepsEnded (finished env c done sound) = on_finish-KeepsEnded env c done
Step-KeepsEnded (progressed c report) = on_phase-KeepsEnded c report

Reach-KeepsEnded : {c d : Coordinator} → Reach c d → KeepsEnded c d
Reach-KeepsEnded here m low h = (refl, omega arith)
Reach-KeepsEnded {c} (next {t} {u} r s) m low h =
    KeepsEnded-trans c t u (Reach-KeepsEnded r) (Step-KeepsEnded s) m low h

-- The four terminal states are irreversible: whatever steps the loop takes, an action that was
-- submitted and has finished is later in the state in which it finished.
pub Reach-terminal :
    {c d : Coordinator} (n : ℕ)
    → Reach c d
    → n ≤ c.next_id
    → is_terminal (c.heap n).state ≡ true
    → (d.heap n).state ≡ (c.heap n).state
Reach-terminal n reached low h = (Reach-KeepsEnded reached n low h).0
