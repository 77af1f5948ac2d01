-- ===== src/Application/Invariant/Dispatch.antt =====
-- `dispatch` keeps the invariant: a line that is started is free.
use smart_srun.Prelude.{
  ℕ, ◌≤◌, ◌≡◌, refl, true, false, some, none, List, [], ◌∷◌, ◌⊎◌, inl, inr, elem, arith, ==_refl,
  is_empty, is_some, Bool-cases, Option-cases, if◌then◌else◌, bytes_eq, bytes_eq_iff, Option, zero,
  suc, ltb, length,
}
use smart_srun.Prelude.Maps.{find, find-remove, lookup-insert}
use smart_srun.Domain.Errors.{Failure}
use smart_srun.Application.Action.{Action, is_terminal}
use smart_srun.Application.Coordinator.{Coordinator, Run, Env}
use smart_srun.Application.Invariant.{IsWaiting, IsWorking, is_away}
use smart_srun.Application.Invariant.Cancel.{
  OwnInv, own, take-Inv, elem-remove_first, remove_first-Distinct,
}
use smart_srun.Application.Invariant.Close.{close-Inv, retire-queue}
use smart_srun.Application.Schedule.Dispatch.{
  any_running, does_switch, must_wait, choose, better, take_runnable, start_action, refuse_start,
  refused_action, launch, dispatch_rounds, dispatch,
}
use smart_srun.Application.Schedule.Retire.{put, publish, retire, remove_first}

-- Whatever `choose` returns was in the queue and need not wait.
pub choose_sound :
    (c : Coordinator) (q : List ℕ) (chosen : Option ℕ) (n : ℕ)
    → choose c q chosen ≡ some n
    → ((elem n q ≡ true) × (must_wait c (c.heap n) ≡ false)) ⊎ (chosen ≡ some n)
unfolding choose
choose_sound c [] chosen n h = inr h
choose_sound c (m ∷ ms) chosen n h = ground (
  arith,
  choose_sound c ms (if must_wait c (c.heap m) then chosen else better c.heap m chosen) n h,
)

-- No running action has the line of `a`.
abbrev IsLineFree : Coordinator → Action → Type 0
IsLineFree c a =
    (m : ℕ) (r : Run)
    → find m c.running ≡ some r
    → is_empty r.line ≡ false
    → bytes_eq a.line r.line ≡ false

-- The action that is taken was waiting, need not wait, and a switch is taken only alone.
pub record IsRunnable (c : Coordinator) (n : ℕ) : Type 0 where
  pub queued : elem n c.queue ≡ true
  pub may_start : must_wait c (c.heap n) ≡ false
  pub no_switch : any_running does_switch c.heap c.running ≡ false
  pub alone : does_switch (c.heap n) ≡ true → c.running ≡ []

is_empty-nil {ℓ} : {A : Type ℓ} (xs : List A) → is_empty xs ≡ true → xs ≡ []
is_empty-nil [] h = refl
is_empty-nil (x ∷ xs) h = cc

pub take_runnable_sound : (c : Coordinator) (n : ℕ) → take_runnable c ≡ some n → IsRunnable c n
unfolding take_runnable
take_runnable_sound c n h = elim (Option-cases (choose c c.queue none)) [
  | inl none_left ↦ absurd (ground arith)
  | inr (m, e) ↦ ground (arith, choose_sound c c.queue none n, is_empty-nil c.running)
]

runnable-IsLineFree :
    (c : Coordinator) (n : ℕ) → OwnInv c → IsRunnable c n → IsLineFree c (c.heap n)
unfolding must_wait find
runnable-IsLineFree c n v k m r h e =
    ground (arith, k.may_start, k.alone, v.working m r h, bytes_eq_iff (c.heap n).line r.line)

module _ (env : Env) (c : Coordinator) (n : ℕ) (v : OwnInv c) (k : IsRunnable c n) where
  abbrev taken : Coordinator
  taken = record c { queue = remove_first n c.queue }

  refuse-Inv : (failure : Failure) → OwnInv (refuse_start env taken n failure)
  unfolding refuse_start
  refuse-Inv failure =
      let b = refused_action env (c.heap n) failure in
      let k' = v.waiting n k.queued in
      own (publish (retire (put taken n b) n) n)
        (close-Inv (remove_first n c.queue) taken n b (take-Inv c n v k.queued)
          (ground (arith, elem-remove_first n n c.queue v.distinct, ==_refl n)) k'.idle k'.known
          (ground (arith, k')) (ground (arith, k')))
        (retire-queue (put taken n b) n)

  abbrev started : Coordinator
  started = start_action env taken n

  start-waiting : (m : ℕ) → elem m (remove_first n c.queue) ≡ true → IsWaiting started m
  unfolding start_action find
  start-waiting m h =
      ground
        (arith, v.waiting m, elem-remove_first n m c.queue v.distinct, find-remove n m c.running)

  start-working : (m : ℕ) (r : Run) → find m started.running ≡ some r → IsWorking started m r
  unfolding start_action find
  start-working m r h = ground (
    arith,
    v.working m r,
    v.waiting n k.queued,
    find-remove n m c.running,
    runnable-IsLineFree c n v k m r,
    lookup-insert (c.heap n).line r.line n c.busy_lines,
    bytes_eq_iff (c.heap n).line r.line,
  )

  start-filed :
      (m : ℕ)
      → elem m c.terminals ≡ true
      → ((started.heap m).retired ≡ true)
        × (is_terminal (started.heap m).state ≡ true)
        × (m ≤ started.next_id)
  unfolding start_action
  start-filed m h = ground (arith, v.filed m h, v.waiting n k.queued)

  start-placed :
      (m : ℕ)
      → elem m c.index ≡ true
      → (elem m (remove_first n c.queue) ≡ true)
        ⊎ (is_some (find m started.running) ≡ true)
        ⊎ (is_away m none ≡ true)
        ⊎ ((started.heap m).retired ≡ true) × (is_terminal (started.heap m).state ≡ true)
  unfolding start_action find
  start-placed m h =
      ground
        (arith, v.placed m h, elem-remove_first n m c.queue v.distinct, find-remove n m c.running)

  start-Inv : OwnInv started
  unfolding start_action
  start-Inv = record {
    waiting = start-waiting;
    working = start-working;
    filed = start-filed;
    fresh = v.fresh;
    distinct = remove_first-Distinct n c.queue v.distinct;
    placed = start-placed;
  }

  launch-Inv : OwnInv (launch env c n)
  unfolding launch
  launch-Inv = elim (Option-cases (env.check (c.heap n).request)) [
    | inl passed ↦ rw (passed, launch) start-Inv
    | inr (failure, e) ↦ rw (e, launch) (refuse-Inv failure)
  ]

dispatch_rounds-Inv :
    (fuel : ℕ) (env : Env) (c : Coordinator) → OwnInv c → OwnInv (dispatch_rounds fuel env c)
unfolding dispatch_rounds
dispatch_rounds-Inv zero env c v = v
dispatch_rounds-Inv (suc fuel) env c v = elim (Bool-cases (ltb (length c.running) c.parallel)) [
  | inr full ↦ rw (full, dispatch_rounds) v
  | inl room ↦ elim (Option-cases (take_runnable c)) [
    | inl idle ↦ rw (room, idle, dispatch_rounds) v
    | inr (n, e) ↦
        rw (room, e, dispatch_rounds)
          (dispatch_rounds-Inv fuel env (launch env c n)
            (launch-Inv env c n v (take_runnable_sound c n e)))
  ]
]

pub dispatch-Inv : (env : Env) (c : Coordinator) → OwnInv c → OwnInv (dispatch env c)
unfolding dispatch
dispatch-Inv env c v = dispatch_rounds-Inv (suc (length c.queue)) env c v
