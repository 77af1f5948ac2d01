-- ===== src/Application/Loop/Deadlines.antt =====
-- core/internal/application/schedule.go: what `expire` leaves, and when the loop wakes next.
use smart_srun.Prelude.{
  ℕ, ◌+◌, ◌<◌, ◌≡◌, refl, ◌∙◌, ==_refl, Bool, not, ◌&&◌, true, false, some, none, inl, inr, Option,
  List, [], ◌∷◌, ◌++◌, arith, elem, Bool-cases, Option-cases, if◌then◌else◌, elem-append,
}
use smart_srun.Prelude.Maps.{find}
use smart_srun.Application.Coordinator.{Coordinator, Run, Env}
use smart_srun.Application.Invariant.Expire.{expire_queue_keep, expire_queue_fail, find-expire_runs}
use smart_srun.Application.Schedule.Expire.{
  fail_waiting, may_wait, is_over_budget, expire_run, expire_queue, expire_runs, expire, consider,
  queue_deadline, run_deadline, next_deadline,
}

-- Failing an action leaves every action's time of arrival, and the limits.
fail_waiting_keeps :
    (env : Env) (c : Coordinator) (n m : ℕ)
    → (may_wait env (fail_waiting env c n) m ≡ may_wait env c m)
unfolding fail_waiting
fail_waiting_keeps env c n m = ground arith

-- Everything that `expire_queue` keeps may still wait.
expire_queue_kept :
    (env : Env) (c : Coordinator) (ns kept : List ℕ)
    → ((m : ℕ) → elem m kept ≡ true → may_wait env c m ≡ true)
    → (m : ℕ) → elem m (expire_queue env c ns kept).queue ≡ true
    → may_wait env (expire_queue env c ns kept) m ≡ true
expire_queue_kept env c [] kept h m = unfold expire_queue in h m
expire_queue_kept env c (n ∷ ns) kept h m = elim (Bool-cases (may_wait env c n)) [
  | inl waits ↦ rw (expire_queue_keep env c n ns kept waits) (
      expire_queue_kept env c ns (kept ++ (n ∷ []))
        (λ k e. ground (arith, h k, elem-append k kept (n ∷ []))) m)
  | inr late ↦ rw (expire_queue_fail env c n ns kept late) (
      expire_queue_kept env (fail_waiting env c n) ns kept
        (λ k e. fail_waiting_keeps env c n k ∙ h k e) m)
]

-- After the deadlines were looked at, every action that still waits is within its waiting time.
pub expire_waiting :
    (env : Env) (c : Coordinator) (n : ℕ)
    → elem n (expire env c).queue ≡ true
    → env.now < ((expire env c).heap n).queued_at + (expire env c).queue_wait
unfolding expire
expire_waiting env c n e = ground (arith, expire_queue_kept env c c.queue [] (λ m f. cc) n e)

-- After the deadlines were looked at, every known action that runs is within its budget or was
-- marked overdue.
pub expire_running :
    (env : Env) (c : Coordinator) (n : ℕ) (r : Run)
    → find n (expire env c).running ≡ some r
    → r.overdue ≡ false
    → elem n (expire env c).index ≡ true
    → env.now < ((expire env c).heap n).started_at + (expire env c).action_budget
unfolding expire
expire_running env c n r e fresh known =
    let d = expire_queue env c c.queue [] in
    elim (Option-cases (find n d.running)) [
      | inl idle ↦ absurd (ground (arith, find-expire_runs env d d.running n))
      | inr (w, busy) ↦ ground (arith, find-expire_runs env d d.running n)
    ]

-- A run that `expire` finds over its budget is told to stop, and keeps its line.
pub expire_stops :
    (env : Env) (c : Coordinator) (n : ℕ) (w : Run)
    → find n (expire_queue env c c.queue []).running ≡ some w
    → is_over_budget env (expire_queue env c c.queue []) n w ≡ true
    → find n (expire env c).running
      ≡ some (record { line = w.line; overdue = true; stopping = true })
unfolding expire
expire_stops env c n w busy over =
    let d = expire_queue env c c.queue [] in ground (arith, find-expire_runs env d d.running n)

abbrev IsLater : ℕ → Option ℕ → Type 0
IsLater now none = Unit
IsLater now (some t) = now < t

consider-IsLater :
    (now : ℕ) (soonest : Option ℕ) (t : ℕ)
    → IsLater now soonest
    → now < t
    → IsLater now (consider soonest t)
consider-IsLater now none t h k = k
consider-IsLater now (some s) t h k = ground arith

queue_deadline-IsLater :
    (now : ℕ) (c : Coordinator) (ns : List ℕ) (soonest : Option ℕ)
    → ((n : ℕ) → elem n ns ≡ true → now < (c.heap n).queued_at + c.queue_wait)
    → IsLater now soonest
    → IsLater now (queue_deadline c ns soonest)
unfolding queue_deadline
queue_deadline-IsLater now c [] soonest h k = k
queue_deadline-IsLater now c (n ∷ ns) soonest h k =
    queue_deadline-IsLater now c ns (consider soonest ((c.heap n).queued_at + c.queue_wait))
      (λ m e. h m (ground arith))
      (consider-IsLater now soonest _ k (h n (ground (arith, ==_refl n))))

if_IsLater :
    (b : Bool) (now : ℕ) (soonest : Option ℕ) (t : ℕ)
    → IsLater now soonest
    → (b ≡ true → now < t)
    → IsLater now (if b then consider soonest t else soonest)
if_IsLater true now soonest t h k = consider-IsLater now soonest t h (k refl)
if_IsLater false now soonest t h k = h

run_deadline-IsLater :
    (env : Env) (d : Coordinator) (rest rs : List (ℕ × Run)) (soonest : Option ℕ)
    → IsLater env.now soonest
    → IsLater env.now (run_deadline (record d { running = rest }) (expire_runs env d rs) soonest)
unfolding run_deadline expire_runs
run_deadline-IsLater env d rest [] soonest k = k
run_deadline-IsLater env d rest ((n, r) ∷ rs) soonest k =
    let at = (d.heap n).started_at + d.action_budget in
    let counted = not (expire_run env d n r).overdue && elem n d.index in
    run_deadline-IsLater env d rest rs (if counted then consider soonest at else soonest)
      (if_IsLater counted env.now soonest at k (λ e. ground arith))

-- The next deadline right after `expire`, before `dispatch` starts more, lies after the reading of the
-- clock that `expire` was given.
pub next_deadline_later :
    (env : Env) (c : Coordinator) (t : ℕ) → next_deadline (expire env c) ≡ some t → env.now < t
unfolding next_deadline expire
next_deadline_later env c t e =
    rw e at (run_deadline-IsLater env d e'.running d.running soonest first)
  where
    d : Coordinator
    d = expire_queue env c c.queue []

    e' : Coordinator
    e' = expire env c

    soonest : Option ℕ
    soonest = queue_deadline e' e'.queue none

    first : IsLater env.now soonest
    first = queue_deadline-IsLater env.now e' e'.queue none (expire_waiting env c) tt
