-- ===== src/Application/Invariant/Submit.antt =====
-- `onSubmit` keeps the invariant, while the counter of submissions has not wrapped.
use smart_srun.Prelude.{
  ℕ, ◌+◌, ◌^◌, ◌≤◌, ◌<◌, ◌≡◌, refl, true, false, some, none, List, [], ◌∷◌, ◌++◌, ◌⊎◌, inl, inr,
  elem, arith, ==_refl, is_some, leb, length, Bool-cases, Option-cases, filter, Bytes, elem-append,
}
use smart_srun.Prelude.Maps.{lookup, find, erase}
use smart_srun.Application.Action.{Request, is_terminal}
use smart_srun.Application.Coordinator.{Coordinator, Run, Env}
use smart_srun.Application.Invariant.{IsWaiting, IsWorking, Distinct, is_away}
use smart_srun.Application.Invariant.Cancel.{OwnInv, on_cancel-Inv}
use smart_srun.Application.Schedule.Retire.{on_cancel}
use smart_srun.Application.Schedule.Submit.{
  next_u64, cancel_all, supersede, enqueue, submit_new, on_submit, resubmit, is_superseded,
  digested, is_explicit_choice,
}

on_cancel-next_id :
    (env : Env) (c : Coordinator) (n : ℕ) → (on_cancel env c n).0.next_id ≡ c.next_id
unfolding on_cancel
on_cancel-next_id env c n = ground arith

cancel_all-next_id :
    (env : Env) (c : Coordinator) (ns : List ℕ) → (cancel_all env c ns).next_id ≡ c.next_id
unfolding cancel_all
cancel_all-next_id env c [] = refl
cancel_all-next_id env c (n ∷ ns) =
    omega (arith, cancel_all-next_id env (on_cancel env c n).0 ns, on_cancel-next_id env c n)

supersede-next_id :
    (env : Env) (c : Coordinator) (r : Request) → (supersede env c r).next_id ≡ c.next_id
unfolding supersede
supersede-next_id env c r =
    ground (arith, cancel_all-next_id env c (filter (λ n. is_superseded r (c.heap n)) c.index))

cancel_all-Inv :
    (env : Env) (c : Coordinator) (ns : List ℕ) → OwnInv c → OwnInv (cancel_all env c ns)
unfolding cancel_all
cancel_all-Inv env c [] v = v
cancel_all-Inv env c (n ∷ ns) v =
    cancel_all-Inv env (on_cancel env c n).0 ns (on_cancel-Inv env c n v)

supersede_cases {ℓ} :
    (P : Coordinator → Type ℓ) (env : Env) (c : Coordinator) (r : Request)
    → P c
    → P (cancel_all env c (filter (λ n. is_superseded r (c.heap n)) c.index))
    → P (supersede env c r)
unfolding supersede
supersede_cases P env c r same ended = elim (Bool-cases (is_explicit_choice r.kind)) [
  | inl e ↦ rw e ended
  | inr e ↦ rw e same
]

supersede-Inv : (env : Env) (c : Coordinator) (r : Request) → OwnInv c → OwnInv (supersede env c r)
unfolding supersede
supersede-Inv env c r v =
    supersede_cases (λ d. OwnInv d) env c r v
      (cancel_all-Inv env c (filter (λ n. is_superseded r (c.heap n)) c.index) v)

concat-Distinct : (q : List ℕ) (n : ℕ) → Distinct q → elem n q ≡ false → Distinct (q ++ (n ∷ []))
concat-Distinct [] n d h = ground arith
concat-Distinct (x ∷ xs) n d h = ground (arith, concat-Distinct xs n d.1, elem-append x xs (n ∷ []))

module _ (env : Env) (c : Coordinator) (r : Request) (v : OwnInv c)
    (room : c.next_id + 1 < 2 ^ 64) where
  abbrev grown : Coordinator
  grown = (enqueue env c r).0

  new_idle : find (c.next_id + 1) c.running ≡ none
  new_idle = elim (Option-cases (find (c.next_id + 1) c.running)) [
    | inl idle ↦ idle
    | inr (w, busy) ↦
        absurd (omega (arith, v.fresh (c.next_id + 1) (v.working (c.next_id + 1) w busy).known))
  ]

  enqueue-waiting : (m : ℕ) → elem m grown.queue ≡ true → IsWaiting grown m
  unfolding enqueue
  enqueue-waiting m h =
      ground (arith, v.waiting m, new_idle, v.fresh m, elem-append m c.queue ((c.next_id + 1) ∷ []))

  enqueue-working : (m : ℕ) (w : Run) → find m grown.running ≡ some w → IsWorking grown m w
  unfolding enqueue
  enqueue-working m w h = ground (arith, v.working m w h, v.fresh m)

  enqueue-filed :
      (m : ℕ)
      → elem m grown.terminals ≡ true
      → ((grown.heap m).retired ≡ true)
        × (is_terminal (grown.heap m).state ≡ true)
        × (m ≤ grown.next_id)
  unfolding enqueue
  enqueue-filed m h = ground (arith, v.filed m h)

  enqueue-fresh : (m : ℕ) → elem m grown.index ≡ true → m ≤ grown.next_id
  unfolding enqueue
  enqueue-fresh m h = ground (arith, v.fresh m)

  enqueue-Distinct : Distinct grown.queue
  unfolding enqueue
  enqueue-Distinct =
      concat-Distinct c.queue (next_u64 c.next_id) v.distinct
        (ground (arith, v.waiting (c.next_id + 1), v.fresh (c.next_id + 1)))

  enqueue-placed :
      (m : ℕ)
      → elem m grown.index ≡ true
      → (elem m grown.queue ≡ true)
        ⊎ (is_some (find m grown.running) ≡ true)
        ⊎ (is_away m none ≡ true)
        ⊎ ((grown.heap m).retired ≡ true) × (is_terminal (grown.heap m).state ≡ true)
  unfolding enqueue
  enqueue-placed m h = ground (
    arith,
    v.placed m,
    elem-append m c.queue (next_u64 c.next_id ∷ []),
    ==_refl (next_u64 c.next_id),
  )

  enqueue-Inv : OwnInv (enqueue env c r).0
  enqueue-Inv = record {
    waiting = enqueue-waiting;
    working = enqueue-working;
    filed = enqueue-filed;
    fresh = enqueue-fresh;
    distinct = enqueue-Distinct;
    placed = enqueue-placed;
  }

submit_new-Inv :
    (env : Env) (c : Coordinator) (r : Request)
    → OwnInv c
    → c.next_id + 1 < 2 ^ 64
    → OwnInv (submit_new env c r).0
unfolding submit_new
submit_new-Inv env c r v room = elim (Option-cases (env.check r)) [
  | inr (failure, e) ↦ rw (e, submit_new) v
  | inl passed ↦ elim (Bool-cases (leb c.queue_limit (length c.queue))) [
    | inl full ↦ rw (passed, full, submit_new) v
    | inr space ↦ elim (Option-cases (env.admit r)) [
      | inr (failure, e) ↦ rw (passed, space, e, submit_new) v
      | inl admitted ↦
          rw (passed, space, admitted, submit_new)
            (enqueue-Inv env (supersede env c r) r (supersede-Inv env c r v)
              (omega (arith, supersede-next_id env c r)))
    ]
  ]
]

-- The key of a forgotten action may go.
forget_key-Inv :
    (c : Coordinator) (m : List (Bytes × ℕ)) → OwnInv c → OwnInv (record c { by_key = m })
forget_key-Inv c m v = record {
  waiting = λ n h. ground (arith, v.waiting n h);
  working = λ n r h. ground (arith, v.working n r h);
  filed = v.filed;
  fresh = v.fresh;
  distinct = v.distinct;
  placed = v.placed;
}

resubmit-state : (c : Coordinator) (n : ℕ) (r : Request) → (resubmit c n r).0 ≡ c
unfolding resubmit
resubmit-state c n r = ground arith

-- Whatever is submitted, the invariant holds after it.
pub on_submit-Inv :
    (env : Env) (c : Coordinator) (r : Request)
    → OwnInv c
    → c.next_id + 1 < 2 ^ 64
    → OwnInv (on_submit env c r).0
unfolding on_submit
on_submit-Inv env c r v room = elim (Option-cases (lookup r.idempotency_key c.by_key)) [
  | inl new ↦ rw (new, on_submit) (submit_new-Inv env c (digested env r) v room)
  | inr (n, e) ↦ elim (Bool-cases (elem n c.index)) [
    | inl live ↦ rw (e, live, on_submit) (rw (resubmit-state c n (digested env r)) v)
    | inr gone ↦
        rw (e, gone, on_submit)
          (submit_new-Inv env (record c { by_key = erase r.idempotency_key c.by_key })
            (digested env r) (forget_key-Inv c (erase r.idempotency_key c.by_key) v) room)
  ]
]
