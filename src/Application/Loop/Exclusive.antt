-- ===== src/Application/Loop/Exclusive.antt =====
-- What holds in every state that the loop reaches.
use smart_srun.Prelude.{ℕ, ◌≡◌, false, some, none, is_empty, arith}
use smart_srun.Prelude.Maps.{find}
use smart_srun.Application.Action.{Action}
use smart_srun.Application.Coordinator.{Coordinator, Limits, Run}
use smart_srun.Application.Invariant.{Inv}
use smart_srun.Application.Invariant.Cancel.{OwnInv, on_cancel-Inv}
use smart_srun.Application.Invariant.Dispatch.{dispatch-Inv}
use smart_srun.Application.Invariant.Expire.{expire-Inv, on_phase-Inv}
use smart_srun.Application.Invariant.Finish.{on_finish-Inv}
use smart_srun.Application.Invariant.Submit.{on_submit-Inv}
use smart_srun.Application.Loop.{
  new, Step, Reach, scheduled, submitted, cancelled, finished, progressed, here, next,
}
use smart_srun.Application.Schedule.Expire.{expire}

new-Inv : (heap : ℕ → Action) (options : Limits) → OwnInv (new heap options)
unfolding new find
new-Inv heap options = record {
  waiting = λ n h. cc;
  working = λ n r h. cc;
  filed = λ n h. cc;
  fresh = λ n h. cc;
  distinct = tt;
  placed = λ n h. cc;
}

Step-Inv : {c d : Coordinator} → Step c d → OwnInv c → OwnInv d
Step-Inv (scheduled env c) v = dispatch-Inv env (expire env c) (expire-Inv env c v)
Step-Inv (submitted env c r room) v = on_submit-Inv env c r v room
Step-Inv (cancelled env c n) v = on_cancel-Inv env c n v
Step-Inv (finished env c done sound) v = on_finish-Inv env c done sound v
Step-Inv (progressed c report) v = on_phase-Inv c report v

Reach-OwnInv : {c d : Coordinator} → Reach c d → OwnInv c → OwnInv d
Reach-OwnInv here v = v
Reach-OwnInv (next r s) v = Step-Inv s (Reach-OwnInv r v)

-- In every state that a new coordinator reaches by submissions, cancellations, completions, progress
-- reports and scheduling, the invariant holds: a waiting action is known, queued and not running; an
-- action with a worker is known, was started and holds its line; a filed action is finished; and
-- every known action waits, works or was filed. A reached state is one that needed fewer than 2 ^ 64
-- submissions, and in which `Finalize` always answered with a success or a failure.
pub Reach-Inv :
    (heap : ℕ → Action) (options : Limits) {c : Coordinator}
    → Reach (new heap options) c
    → Inv c.queue none c
Reach-Inv heap options r = Reach-OwnInv r (new-Inv heap options)

-- In every state that a new coordinator reaches, two workers that hold the same non-empty line are
-- one worker: no two actions run on one line at once.
pub Reach-exclusive :
    (heap : ℕ → Action) (options : Limits) {c : Coordinator} (m n : ℕ) (r s : Run)
    → Reach (new heap options) c
    → find m c.running ≡ some r
    → find n c.running ≡ some s
    → is_empty r.line ≡ false
    → r.line ≡ s.line
    → m ≡ n
Reach-exclusive heap options {c} m n r s reached a b nonempty same =
    let v = Reach-Inv heap options reached in ground (arith, v.working m r a, v.working n s b)
