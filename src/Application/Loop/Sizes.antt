-- ===== src/Application/Loop/Sizes.antt =====
-- The limits of the coordinator, and the operations that make none of its collections longer.
use smart_srun.Prelude.{
  ℕ, ◌≤◌, ◌≡◌, refl, inl, inr, List, [], ◌∷◌, ◌++◌, arith, elem, Bool-cases, length, filter,
}
use smart_srun.Application.Action.{Action, Message, Request, is_terminal}
use smart_srun.Application.Coordinator.{Coordinator, Run, Env}
use smart_srun.Application.Schedule.Retire.{
  put, publish, retire, trim, evict, History, filed, history_of, change_run, stop_run, remove_first,
  cancel_live, on_cancel,
}
use smart_srun.Application.Schedule.Submit.{cancel_all, supersede, is_superseded}

pub record IsBounded (c : Coordinator) : Type 0 where
  pub queue_fits : length c.queue ≤ c.queue_limit
  pub running_fits : length c.running ≤ c.parallel
  pub history_fits : length c.terminals ≤ c.history

trim_fits :
    (heap : ℕ → Action) (limit : ℕ) (h : History) (ts : List ℕ)
    → length (trim heap limit h ts).terminals ≤ limit
unfolding trim
trim_fits heap limit h [] = omega arith
trim_fits heap limit h (o ∷ rest) = ground (arith, trim_fits heap limit (evict heap h o) rest)

-- What an operation may do to the sizes: none grows.
pub record Shrinks (c d : Coordinator) : Type 0 where
  pub same_limits : d.limits ≡ c.limits
  pub queue_shrinks : length d.queue ≤ length c.queue
  pub running_shrinks : length d.running ≤ length c.running
  pub history_bounded : length c.terminals ≤ c.history → length d.terminals ≤ c.history

Shrinks-trans : (c d e : Coordinator) → Shrinks c d → Shrinks d e → Shrinks c e
Shrinks-trans c d e f g = ground arith

pub Shrinks-IsBounded : (c d : Coordinator) → Shrinks c d → IsBounded c → IsBounded d
Shrinks-IsBounded c d f b = ground arith

pub retire-Shrinks : (c : Coordinator) (n : ℕ) → Shrinks c (retire c n)
unfolding retire
retire-Shrinks c n =
    ground (arith, trim_fits (filed c n).heap c.history (history_of c) (c.terminals ++ (n ∷ [])))

-- The rest of a step, around `retire`.
pub close-Shrinks :
    (c : Coordinator) (n : ℕ) (a : Action) → Shrinks c (publish (retire (put c n a) n) n)
close-Shrinks c n a = ground (arith, retire-Shrinks (put c n a) n)

pub length-remove_first-le : (n : ℕ) (q : List ℕ) → length (remove_first n q) ≤ length q
unfolding remove_first
length-remove_first-le n [] = omega arith
length-remove_first-le n (x ∷ xs) = ground (arith, length-remove_first-le n xs)

length-change_run :
    (n : ℕ) (f : Run → Run) (rs : List (ℕ × Run)) → length (change_run n f rs) ≡ length rs
unfolding change_run
length-change_run n f [] = refl
length-change_run n f ((m, r) ∷ rs) = omega (arith, length-change_run n f rs)

cancel_live-Shrinks : (c : Coordinator) (n : ℕ) (a : Action) → Shrinks c (cancel_live c n a)
unfolding cancel_live
cancel_live-Shrinks c n a =
    let waiting = record c { queue = remove_first n c.queue } in
    let b = record a { message = Message.cancelled_before_start } in
    ground (
      arith,
      retire-Shrinks (put waiting n b) n,
      length-remove_first-le n c.queue,
      length-change_run n stop_run c.running,
    )

on_cancel_cases {ℓ} :
    (P : Coordinator → Type ℓ) (env : Env) (c : Coordinator) (n : ℕ)
    → P c
    → ((a : Action) → P (cancel_live c n a))
    → P (on_cancel env c n).0
unfolding on_cancel
on_cancel_cases P env c n same live = elim (Bool-cases (elem n c.index)) [
  | inr unknown ↦ rw unknown same
  | inl known ↦ elim (Bool-cases (is_terminal (c.heap n).state)) [
    | inl ended ↦ rw (known, ended) same
    | inr going ↦ rw (known, going) (live _)
  ]
]

pub Shrinks-refl : (c : Coordinator) → Shrinks c c
Shrinks-refl c = ground arith

pub on_cancel-Shrinks : (env : Env) (c : Coordinator) (n : ℕ) → Shrinks c (on_cancel env c n).0
on_cancel-Shrinks env c n =
    on_cancel_cases (λ d. Shrinks c d) env c n (Shrinks-refl c) (cancel_live-Shrinks c n)

cancel_all-Shrinks : (env : Env) (c : Coordinator) (ns : List ℕ) → Shrinks c (cancel_all env c ns)
unfolding cancel_all
cancel_all-Shrinks env c [] = Shrinks-refl c
cancel_all-Shrinks env c (n ∷ ns) =
    Shrinks-trans c (on_cancel env c n).0 (cancel_all env (on_cancel env c n).0 ns)
      (on_cancel-Shrinks env c n) (cancel_all-Shrinks env (on_cancel env c n).0 ns)

pub supersede-Shrinks : (env : Env) (c : Coordinator) (r : Request) → Shrinks c (supersede env c r)
unfolding supersede
supersede-Shrinks env c r = ground (
  arith,
  cancel_all-Shrinks env c (filter (λ n. is_superseded r (c.heap n)) c.index),
  Shrinks-refl c,
)
