-- ===== src/Application/Invariant/Expire.antt =====
-- `expire` and `onPhase` keep the invariant.
use mathlib.Core.List.{append-nil, append_assoc}
use smart_srun.Prelude.{
  ℕ, ◌≡◌, refl, sym, subst, true, false, not, ◌||◌, some, none, List, [], ◌∷◌, ◌++◌, ◌⊎◌, inl, inr,
  elem, arith, ==_refl, is_some, Bool-cases, Option-cases, elem-append,
}
use smart_srun.Prelude.Maps.{find}
use smart_srun.Application.Action.{Action, is_terminal, is_known_phase}
use smart_srun.Application.Coordinator.{Coordinator, Run, Env, PhaseReport}
use smart_srun.Application.Invariant.{Inv, IsWaiting, Distinct, is_away}
use smart_srun.Application.Invariant.Cancel.{OwnInv}
use smart_srun.Application.Invariant.Close.{close-Inv}
use smart_srun.Application.Schedule.Expire.{
  fail_waiting, failed_action, may_wait, expire_queue, expire_run, expire_runs, expire,
}
use smart_srun.Application.Schedule.Retire.{put, publish, on_phase, is_running}

Distinct-skip :
    (kept : List ℕ) (n : ℕ) (ns : List ℕ)
    → Distinct (kept ++ (n ∷ ns))
    → Distinct (kept ++ ns) × (elem n (kept ++ ns) ≡ false)
Distinct-skip [] n ns d = (d.1, d.0)
Distinct-skip (x ∷ xs) n ns d =
    ground (arith, Distinct-skip xs n ns d.1, elem-append x xs ns, elem-append x xs (n ∷ ns))

-- An action that failed in the queue leaves it.
module _ (c : Coordinator) (kept : List ℕ) (n : ℕ) (ns : List ℕ)
    (v : Inv (kept ++ (n ∷ ns)) none c) where
  skip-waiting : (m : ℕ) → elem m (kept ++ ns) ≡ true → IsWaiting c m
  skip-waiting m h =
      v.waiting m (ground (arith, elem-append m kept ns, elem-append m kept (n ∷ ns)))

  skip-placed :
      (m : ℕ)
      → elem m c.index ≡ true
      → (elem m (kept ++ ns) ≡ true)
        ⊎ (is_some (find m c.running) ≡ true)
        ⊎ (is_away m (some n) ≡ true)
        ⊎ ((c.heap m).retired ≡ true) × (is_terminal (c.heap m).state ≡ true)
  skip-placed m h =
      ground (arith, v.placed m h, elem-append m kept ns, elem-append m kept (n ∷ ns), ==_refl n)

  skip-Inv : Inv (kept ++ ns) (some n) c
  skip-Inv = record {
    waiting = skip-waiting;
    working = v.working;
    filed = v.filed;
    fresh = v.fresh;
    distinct = (Distinct-skip kept n ns v.distinct).0;
    placed = skip-placed;
  }

  fail_waiting-Inv : (env : Env) → Inv (kept ++ ns) none (fail_waiting env c n)
  unfolding fail_waiting
  fail_waiting-Inv env =
      let k = v.waiting n (ground (arith, elem-append n kept (n ∷ ns), ==_refl n)) in
      close-Inv (kept ++ ns) c n (failed_action env (c.heap n)) skip-Inv
        (Distinct-skip kept n ns v.distinct).1 k.idle k.known (ground (arith, k))
        (ground (arith, k))

repack : {q : List ℕ} (c : Coordinator) → Inv q none c → Inv q none (record c { queue = q })
repack c v = record {
  waiting = λ n h. ground (arith, v.waiting n h);
  working = λ n r h. ground (arith, v.working n r h);
  filed = v.filed;
  fresh = v.fresh;
  distinct = v.distinct;
  placed = v.placed;
}

pub expire_queue_keep :
    (env : Env) (c : Coordinator) (n : ℕ) (ns kept : List ℕ)
    → may_wait env c n ≡ true
    → expire_queue env c (n ∷ ns) kept ≡ expire_queue env c ns (kept ++ (n ∷ []))
unfolding expire_queue
expire_queue_keep env c n ns kept waits = rw waits

pub expire_queue_fail :
    (env : Env) (c : Coordinator) (n : ℕ) (ns kept : List ℕ)
    → may_wait env c n ≡ false
    → expire_queue env c (n ∷ ns) kept ≡ expire_queue env (fail_waiting env c n) ns kept
unfolding expire_queue
expire_queue_fail env c n ns kept late = rw late

expire_queue-Inv :
    (env : Env) (c : Coordinator) (ns kept : List ℕ)
    → Inv (kept ++ ns) none c
    → OwnInv (expire_queue env c ns kept)
expire_queue-Inv env c [] kept v =
    unfold expire_queue in repack c (subst (λ q. Inv q none c) (append-nil kept) v)
expire_queue-Inv env c (n ∷ ns) kept v = elim (Bool-cases (may_wait env c n)) [
  | inl waits ↦ rw (expire_queue_keep env c n ns kept waits) (
      expire_queue-Inv env c ns (kept ++ (n ∷ []))
        (subst (λ q. Inv q none c) (sym (append_assoc kept (n ∷ []) ns)) v))
  | inr late ↦
      rw (expire_queue_fail env c n ns kept late)
        (expire_queue-Inv env (fail_waiting env c n) ns kept (fail_waiting-Inv c kept n ns v env))
]

pub find-expire_runs :
    (env : Env) (c : Coordinator) (rs : List (ℕ × Run)) (m : ℕ)
    → find m (expire_runs env c rs)
      ≡ (elim (find m rs) [ none ↦ none | some r ↦ some (expire_run env c m r) ])
unfolding find expire_runs
find-expire_runs env c [] m = refl
find-expire_runs env c ((k, r) ∷ rs) m = ground (arith, find-expire_runs env c rs m)

expire_runs-Inv :
    (env : Env) (c : Coordinator)
    → OwnInv c
    → OwnInv (record c { running = expire_runs env c c.running })
expire_runs-Inv env c v = record {
  waiting = λ n h. ground (arith, v.waiting n h, find-expire_runs env c c.running n);
  working = λ n r h. elim (Option-cases (find n c.running)) [
    | inl idle ↦ absurd (ground (arith, find-expire_runs env c c.running n))
    | inr (w, busy) ↦ ground (arith, v.working n w busy, find-expire_runs env c c.running n)
  ];
  filed = v.filed;
  fresh = v.fresh;
  distinct = v.distinct;
  placed = λ n h. ground (arith, v.placed n h, find-expire_runs env c c.running n);
}

-- Whatever the clock says, the invariant holds after the deadlines were looked at.
pub expire-Inv : (env : Env) (c : Coordinator) → OwnInv c → OwnInv (expire env c)
unfolding expire
expire-Inv env c v =
    expire_runs-Inv env (expire_queue env c c.queue []) (expire_queue-Inv env c c.queue [] v)

phase-Inv :
    (c : Coordinator) (n : ℕ) (a : Action)
    → OwnInv c
    → a.state ≡ (c.heap n).state
    → a.retired ≡ (c.heap n).retired
    → a.line ≡ (c.heap n).line
    → OwnInv (publish (put c n a) n)
phase-Inv c n a v s t l = record {
  waiting = λ m h. ground (arith, v.waiting m h);
  working = λ m r h. ground (arith, v.working m r h);
  filed = λ m h. ground (arith, v.filed m h);
  fresh = v.fresh;
  distinct = v.distinct;
  placed = λ m h. ground (arith, v.placed m h);
}

pub on_phase-Inv : (c : Coordinator) (report : PhaseReport) → OwnInv c → OwnInv (on_phase c report)
unfolding on_phase
on_phase-Inv c report v =
    let n = report.id in
    let a = record (c.heap n) { phase = some report.phase } in
    elim (Bool-cases (
      not (is_known_phase report.phase)
      || not (elem n c.index)
      || is_terminal (c.heap n).state
      || not (is_running c n))) [
        | inl ignored ↦ rw ignored v
        | inr taken ↦ rw taken (phase-Inv c n a v refl refl refl)
      ]
