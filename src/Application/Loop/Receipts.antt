-- ===== src/Application/Loop/Receipts.antt =====
-- core/internal/application/schedule.go: idempotency keys, cancellation and the release of a line.
use smart_srun.Prelude.{
  ℕ, ◌≡◌, refl, ◌∙◌, ap, ==_refl, true, false, some, none, inl, inr, Option, arith, elem,
  Bool-cases, Option-cases, bytes_eq_refl, is_empty, leb, length,
}
use smart_srun.Prelude.Maps.{find, lookup, erase, lookup-insert, lookup-erase, find-remove}
use smart_srun.Observe.View.{Observation}
use smart_srun.Application.Action.{State, Request, is_terminal}
use smart_srun.Application.Coordinator.{Coordinator, Run, Env, Completion, Receipt}
use smart_srun.Application.Fingerprint.{fingerprint}
use smart_srun.Application.Invariant.{Inv}
use smart_srun.Application.Invariant.Cancel.{find-change_run, on_cancel-Inv}
use smart_srun.Application.Invariant.Finish.{FinalizesVerdict, apply_outcome-is_terminal}
use smart_srun.Application.Schedule.Finish.{apply_outcome, observe, release, finish_run, on_finish}
use smart_srun.Application.Schedule.Retire.{put, retire, stop_run, on_cancel}
use smart_srun.Application.Schedule.Submit.{
  accepted, enqueue, supersede, submit_new, resubmit, on_submit, digested, next_u64, queued_receipt,
}

-- What a repetition is answered: the action that the key has.
abbrev pub duplicate_receipt : ℕ → Receipt
duplicate_receipt n = record { action_id = n; state = State.queued; duplicate = true }

enqueue_again :
    (env later : Env) (c : Coordinator) (r : Request)
    → (later.sha256 r.private_json ≡ env.sha256 r.private_json)
    → on_submit later (enqueue env c (digested env r)).0 r
      ≡ ((enqueue env c (digested env r)).0, accepted (duplicate_receipt (next_u64 c.next_id)))
unfolding on_submit enqueue
enqueue_again env later c r same = ground (
  arith,
  lookup-insert r.idempotency_key r.idempotency_key (next_u64 c.next_id) c.by_key,
  bytes_eq_refl r.idempotency_key,
  bytes_eq_refl (fingerprint (digested env r)),
  ==_refl (next_u64 c.next_id),
)

enqueue-id :
    (env : Env) (c : Coordinator) (r : Request) (n : ℕ)
    → (enqueue env c r).1 ≡ accepted (queued_receipt n)
    → next_u64 c.next_id ≡ n
unfolding enqueue
enqueue-id env c r n e = ground arith

submit_new_again :
    (env later : Env) (c d : Coordinator) (r : Request) (n : ℕ)
    → submit_new env c (digested env r) ≡ (d, accepted (queued_receipt n))
    → later.sha256 r.private_json ≡ env.sha256 r.private_json
    → on_submit later d r ≡ (d, accepted (duplicate_receipt n))
unfolding submit_new
submit_new_again env later c d r n e same = elim (Option-cases (env.check (digested env r))) [
  | inr (failure, refuses) ↦ absurd (ground arith)
  | inl passed ↦ elim (Bool-cases (leb c.queue_limit (length c.queue))) [
    | inl full ↦ absurd (ground arith)
    | inr space ↦ elim (Option-cases (env.admit (digested env r))) [
      | inr (failure, refuses) ↦ absurd (ground arith)
      | inl admitted ↦
          let s = supersede env c (digested env r) in
          let e' : enqueue env s (digested env r) ≡ (d, accepted (queued_receipt n)) =
            rw (passed, space, admitted, submit_new) at e in
          let same_state : (enqueue env s (digested env r)).0 ≡ d = ap (λ p. p.0) e' in
          let same_reply = ap (λ p. p.1) e' in
          let same_id : next_u64 s.next_id ≡ n = enqueue-id env s (digested env r) n same_reply in
          rw (← same_state, ← same_id) (enqueue_again env later s r same)
    ]
  ]
]

resubmit_old :
    (env : Env) (c : Coordinator) (r : Request) (d : Coordinator) (n k : ℕ)
    → resubmit c k (digested env r) ≡ (d, accepted (queued_receipt n))
    → ⊥
unfolding resubmit
resubmit_old env c r d n k e = ground arith

-- A request that was just taken and comes again with the same key, by the same digest, changes
-- nothing: it is answered with the action that the first one got.
pub on_submit_again :
    (env later : Env) (c d : Coordinator) (r : Request) (n : ℕ)
    → on_submit env c r ≡ (d, accepted (queued_receipt n))
    → later.sha256 r.private_json ≡ env.sha256 r.private_json
    → on_submit later d r ≡ (d, accepted (duplicate_receipt n))
on_submit_again env later c d r n e same = elim (Option-cases (lookup r.idempotency_key c.by_key)) [
  | inl new ↦ submit_new_again env later c d r n (unfold on_submit in rw (new, on_submit) at e) same
  | inr (k, old) ↦ elim (Bool-cases (elem k c.index)) [
    | inl live ↦
        absurd (resubmit_old env c r d n k (unfold on_submit in rw (old, live, on_submit) at e))
    | inr gone ↦
        submit_new_again env later (record c { by_key = erase r.idempotency_key c.by_key }) d r n
          (unfold on_submit in rw (old, gone, on_submit) at e) same
  ]
]

on_cancel_running :
    (env : Env) (c : Coordinator) (n : ℕ) (w : Run)
    → elem n c.index ≡ true
    → is_terminal (c.heap n).state ≡ false
    → find n c.running ≡ some w
    → let d = (on_cancel env c n).0 in
      ((d.heap n).state ≡ State.cancelled)
      × (find n d.running ≡ some (stop_run w))
      × (d.busy_lines ≡ c.busy_lines)
unfolding on_cancel
on_cancel_running env c n w known live busy =
    ground (arith, find-change_run n n stop_run c.running, ==_refl n)

on_finish-finish_run :
    (env : Env) (c : Coordinator) (done : Completion) (w : Run)
    → elem done.id c.index ≡ true
    → find done.id c.running ≡ some w
    → on_finish env c done ≡ finish_run env c done w
unfolding on_finish
on_finish-finish_run env c done w known busy = rw (known, busy, on_finish)

retire-same :
    (c : Coordinator) (n : ℕ)
    → (((retire c n).heap n).state ≡ (c.heap n).state)
      × ((retire c n).running ≡ c.running)
      × ((retire c n).busy_lines ≡ c.busy_lines)
unfolding retire
retire-same c n = ground arith

observe-same :
    (c : Coordinator) (o : Option Observation)
    → ((observe c o).heap ≡ c.heap)
      × ((observe c o).running ≡ c.running)
      × ((observe c o).busy_lines ≡ c.busy_lines)
observe-same c none = (refl, refl, refl)
observe-same c (some o) = (refl, refl, refl)

finish_run_lem :
    (env : Env) (c : Coordinator) (done : Completion) (w : Run)
    → FinalizesVerdict env
    → is_empty w.line ≡ false
    → lookup w.line c.busy_lines ≡ some done.id
    → let d = finish_run env c done w in
      (is_terminal (d.heap done.id).state ≡ true)
      × (find done.id d.running ≡ none)
      × (lookup w.line d.busy_lines ≡ none)
unfolding finish_run release
finish_run_lem env c done w sound line held =
    let n = done.id in
    let a = record (c.heap n) {
      timings = done.timings;
      worker_milliseconds = done.worker_milliseconds;
    } in
    let result = apply_outcome env w.overdue a done.outcome in
    let e = observe (put (release c n w) n result.0) result.1.observation in
    ground (
      arith,
      retire-same e n,
      observe-same (put (release c n w) n result.0) result.1.observation,
      apply_outcome-is_terminal env w.overdue a done.outcome sound,
      find-remove n n c.running,
      lookup-erase w.line w.line c.busy_lines,
      bytes_eq_refl w.line,
      ==_refl n,
    )

-- In a state with the invariant, when the worker of an action with a line reports and `Finalize`
-- always answers with a success or a failure, the action is finished, no longer runs, and its line
-- is free again.
pub on_finish_lem :
    (env : Env) (c : Coordinator) (done : Completion) (w : Run)
    → Inv c.queue none c
    → FinalizesVerdict env
    → find done.id c.running ≡ some w
    → is_empty w.line ≡ false
    → let d = on_finish env c done in
      (is_terminal (d.heap done.id).state ≡ true)
      × (find done.id d.running ≡ none)
      × (lookup w.line d.busy_lines ≡ none)
on_finish_lem env c done w v sound busy line =
    rw (on_finish-finish_run env c done w (v.working done.id w busy).known busy)
      (finish_run_lem env c done w sound line ((v.working done.id w busy).holds line))

finish_run-finished :
    (env : Env) (c : Coordinator) (done : Completion) (w : Run)
    → is_terminal (c.heap done.id).state ≡ true
    → ((finish_run env c done w).heap done.id).state ≡ (c.heap done.id).state
unfolding finish_run release apply_outcome
finish_run-finished env c done w over =
    let n = done.id in
    let a = record (c.heap n) {
      timings = done.timings;
      worker_milliseconds = done.worker_milliseconds;
    } in
    let result = apply_outcome env w.overdue a done.outcome in
    let e = put (release c n w) n result.0 in
    ground (
      arith,
      over,
      retire-same (observe e result.1.observation) n,
      observe-same e result.1.observation,
      ==_refl n,
    )

-- In a state with the invariant, an action with a worker and a line that has not finished is cancelled,
-- and then its worker reports, at any later time, and `Finalize` always answers with a success or a
-- failure: until the report the action keeps its line; after it, whatever it says, the action is
-- still cancelled, no longer runs, and its line is free.
pub on_finish-on_cancel :
    (env later : Env) (c : Coordinator) (done : Completion) (w : Run)
    → Inv c.queue none c
    → FinalizesVerdict later
    → is_terminal (c.heap done.id).state ≡ false
    → find done.id c.running ≡ some w
    → is_empty w.line ≡ false
    → let d = (on_cancel env c done.id).0 in
      let e = on_finish later d done in
      (lookup w.line d.busy_lines ≡ some done.id)
      × ((e.heap done.id).state ≡ State.cancelled)
      × (find done.id e.running ≡ none)
      × (lookup w.line e.busy_lines ≡ none)
on_finish-on_cancel env later c done w v sound live busy line =
    let own = v.working done.id w busy in
    let d = (on_cancel env c done.id).0 in
    let (state, stopped, lines) = on_cancel_running env c done.id w own.known live busy in
    let u = on_cancel-Inv env c done.id v in
    let over = on_finish_lem later d done (stop_run w) u sound stopped line in
    let ended : is_terminal (d.heap done.id).state ≡ true = rw state refl in
    let report =
      on_finish-finish_run later d done (stop_run w) (u.working done.id (stop_run w) stopped).known
        stopped in
    (
      ap (lookup w.line) lines ∙ own.holds line,
      ap (λ x. (x.heap done.id).state) report
          ∙ (finish_run-finished later d done (stop_run w) ended ∙ state),
      over.1,
      over.2,
    )
