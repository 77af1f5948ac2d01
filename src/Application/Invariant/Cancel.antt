-- ===== src/Application/Invariant/Cancel.antt =====
-- `onCancel` keeps the invariant.
use smart_srun.Prelude.{
  ℕ, ◌≤◌, ◌≡◌, refl, sym, subst, true, false, some, none, List, [], ◌∷◌, ◌⊎◌, inl, inr, elem, arith,
  ==_refl, is_some, ◌==◌, Bool-cases, Option-cases, if◌then◌else◌,
}
use smart_srun.Prelude.Maps.{find}
use smart_srun.Domain.Errors.{ErrorCode}
use smart_srun.Application.Action.{State, Action, Message, is_terminal, transition}
use smart_srun.Application.Coordinator.{Coordinator, Run, Env}
use smart_srun.Application.Invariant.{Inv, IsWaiting, IsWorking, Distinct, is_away}
use smart_srun.Application.Invariant.Close.{close-Inv, retire-queue}
use smart_srun.Application.Schedule.Retire.{
  put, publish, retire, remove_first, change_run, stop_run, cancel_live, on_cancel,
}

pub elem-remove_first :
    (n m : ℕ) (q : List ℕ)
    → Distinct q
    → elem m (remove_first n q) ≡ (if n == m then false else elem m q)
unfolding remove_first
elem-remove_first n m [] d = ground arith
elem-remove_first n m (x ∷ xs) d = ground (arith, elem-remove_first n m xs d.1)

pub remove_first-Distinct : (n : ℕ) (q : List ℕ) → Distinct q → Distinct (remove_first n q)
unfolding remove_first
remove_first-Distinct n [] d = tt
remove_first-Distinct n (x ∷ xs) d =
    ground (arith, remove_first-Distinct n xs d.1, elem-remove_first n x xs d.1)

pub find-change_run :
    (n m : ℕ) (f : Run → Run) (rs : List (ℕ × Run))
    → find m (change_run n f rs)
      ≡ (elim (find m rs) [ none ↦ none | some r ↦ some (if m == n then f r else r) ])
unfolding find change_run
find-change_run n m f [] = refl
find-change_run n m f ((k, r) ∷ rs) = ground (arith, find-change_run n m f rs)

change_run-some :
    (n m : ℕ) (f : Run → Run) (rs : List (ℕ × Run)) (r : Run)
    → find m (change_run n f rs) ≡ some r
    → (w : Run) × (find m rs ≡ some w) × (r ≡ (if m == n then f w else w))
change_run-some n m f rs r h = elim (Option-cases (find m rs)) [
  | inl gone ↦ absurd (ground (arith, find-change_run n m f rs))
  | inr (w, e) ↦ (w, e, ground (arith, find-change_run n m f rs))
]

-- An action is taken out of the queue, before it is filed or started.
module _ (c : Coordinator) (n : ℕ) (v : Inv c.queue none c) (queued : elem n c.queue ≡ true) where
  take-waiting :
      (m : ℕ)
      → elem m (remove_first n c.queue) ≡ true
      → IsWaiting (record c { queue = remove_first n c.queue }) m
  take-waiting m h = ground (arith, v.waiting m, elem-remove_first n m c.queue v.distinct)

  take-working :
      (m : ℕ) (r : Run)
      → find m c.running ≡ some r
      → IsWorking (record c { queue = remove_first n c.queue }) m r
  take-working m r h = ground (arith, v.working m r h)

  take-placed :
      (m : ℕ)
      → elem m c.index ≡ true
      → (elem m (remove_first n c.queue) ≡ true)
        ⊎ (is_some (find m c.running) ≡ true)
        ⊎ (is_away m (some n) ≡ true)
        ⊎ ((c.heap m).retired ≡ true) × (is_terminal (c.heap m).state ≡ true)
  take-placed m h =
      ground (arith, v.placed m h, elem-remove_first n m c.queue v.distinct, ==_refl n)

  pub take-Inv : Inv (remove_first n c.queue) (some n) (record c { queue = remove_first n c.queue })
  take-Inv = record {
    waiting = take-waiting;
    working = take-working;
    filed = v.filed;
    fresh = v.fresh;
    distinct = remove_first-Distinct n c.queue v.distinct;
    placed = take-placed;
  }

-- A running action that is told to stop stays in its place.
module _ (c : Coordinator) (n : ℕ) (a : Action) (w : Run) (v : Inv c.queue none c)
    (busy : find n c.running ≡ some w) (same_line : a.line ≡ (c.heap n).line)
    (unfiled : a.retired ≡ false) (moved : a.state ≡ State.cancelled) where
  abbrev stopped : Coordinator
  stopped = publish (put (record c { running = change_run n stop_run c.running }) n a) n

  stop-waiting : (m : ℕ) → elem m c.queue ≡ true → IsWaiting stopped m
  stop-waiting m h = ground (arith, v.waiting m h, find-change_run n m stop_run c.running)

  stop-working : (m : ℕ) (r : Run) → find m stopped.running ≡ some r → IsWorking stopped m r
  stop-working m r h =
      let (old, e, same) = change_run-some n m stop_run c.running r h in
      ground (arith, v.working m old e, v.working n w busy, same)

  stop-filed :
      (m : ℕ)
      → elem m c.terminals ≡ true
      → ((stopped.heap m).retired ≡ true)
        × (is_terminal (stopped.heap m).state ≡ true)
        × (m ≤ c.next_id)
  stop-filed m h = ground (arith, v.filed m h, v.working n w busy)

  stop-placed :
      (m : ℕ)
      → elem m c.index ≡ true
      → (elem m c.queue ≡ true)
        ⊎ (is_some (find m stopped.running) ≡ true)
        ⊎ (is_away m none ≡ true)
        ⊎ ((stopped.heap m).retired ≡ true) × (is_terminal (stopped.heap m).state ≡ true)
  stop-placed m h = ground (arith, v.placed m h, find-change_run n m stop_run c.running, busy)

  stop-Inv : Inv c.queue none stopped
  stop-Inv = record {
    waiting = stop-waiting;
    working = stop-working;
    filed = stop-filed;
    fresh = v.fresh;
    distinct = v.distinct;
    placed = stop-placed;
  }

abbrev to_cancel : Env → Coordinator → ℕ → Action
to_cancel env c n = record (transition (c.heap n) State.cancelled env.now).0 {
  message = Message.action_cancelled;
  code = some ErrorCode.cancelled;
}

on_cancel_known :
    (env : Env) (c : Coordinator) (n : ℕ)
    → elem n c.index ≡ true
    → is_terminal (c.heap n).state ≡ false
    → (on_cancel env c n).0 ≡ cancel_live c n (to_cancel env c n)
unfolding on_cancel
on_cancel_known env c n known live = rw (known, live)

cancel_working :
    (c : Coordinator) (n : ℕ) (a : Action) (w : Run)
    → find n c.running ≡ some w
    → cancel_live c n a
      ≡ publish (put (record c { running = change_run n stop_run c.running }) n a) n
unfolding cancel_live
cancel_working c n a w busy = rw (busy, cancel_live)

cancel_waiting :
    (c : Coordinator) (n : ℕ) (a : Action)
    → find n c.running ≡ none
    → cancel_live c n a ≡ (
        let waiting = record c { queue = remove_first n c.queue } in
        let b = record a { message = Message.cancelled_before_start } in
        publish (retire (put waiting n b) n) n)
unfolding cancel_live
cancel_waiting c n a idle = rw (idle, cancel_live)

abbrev pub OwnInv : Coordinator → Type 0
OwnInv c = Inv c.queue none c

pub own : {q : List ℕ} (c : Coordinator) → Inv q none c → c.queue ≡ q → OwnInv c
own c v e = subst (λ p. Inv p none c) (sym e) v

module _ (c : Coordinator) (n : ℕ) (a : Action) (v : OwnInv c) (known : elem n c.index ≡ true)
    (live : is_terminal (c.heap n).state ≡ false) (same_line : a.line ≡ (c.heap n).line)
    (same_filing : a.retired ≡ (c.heap n).retired) (moved : a.state ≡ State.cancelled) where
  cancel_waiting-Inv : find n c.running ≡ none → OwnInv (cancel_live c n a)
  cancel_waiting-Inv idle =
      let queued : elem n c.queue ≡ true = ground (arith, v.placed n known) in
      let taken = record c { queue = remove_first n c.queue } in
      let b = record a { message = Message.cancelled_before_start } in
      rw (cancel_waiting c n a idle) (
        own _
          (close-Inv (remove_first n c.queue) taken n b (take-Inv c n v queued)
            (ground (arith, elem-remove_first n n c.queue v.distinct)) idle known
            (ground (arith, v.waiting n queued)) (ground arith))
          (retire-queue (put taken n b) n))

  cancel_live-Inv : OwnInv (cancel_live c n a)
  cancel_live-Inv = elim (Option-cases (find n c.running)) [
    | inl idle ↦ cancel_waiting-Inv idle
    | inr (w, busy) ↦
        rw (cancel_working c n a w busy)
          (stop-Inv c n a w v busy same_line (ground (arith, v.working n w busy)) moved)
  ]

-- Whatever is cancelled, the invariant holds after it.
pub on_cancel-Inv : (env : Env) (c : Coordinator) (n : ℕ) → OwnInv c → OwnInv (on_cancel env c n).0
unfolding on_cancel
on_cancel-Inv env c n v = elim (Bool-cases (elem n c.index)) [
  | inr unknown ↦ rw unknown v
  | inl known ↦ elim (Bool-cases (is_terminal (c.heap n).state)) [
    | inl ended ↦ rw (known, ended) v
    | inr live ↦ rw (on_cancel_known env c n known live) (
        cancel_live-Inv c n (to_cancel env c n) v known live (ground arith) (ground arith)
          (ground arith))
  ]
]
