-- ===== src/Application/Loop/Choice.antt =====
-- core/internal/application/schedule.go: which action `dispatch` starts, and when it stops.
use smart_srun.Prelude.{
  ℕ, zero, suc, ◌<◌, ◌≡◌, refl, ap, Bool, not, true, false, some, none, Option, List, [], ◌∷◌, ◌⊎◌,
  inl, inr, elem, arith, ==_refl, ◌==◌, Bool-cases, Option-cases, if◌then◌else◌, ltb, length,
  is_empty, is_some,
}
use smart_srun.Policy.Priority.{rank}
use smart_srun.Application.Action.{Action, is_presets_refresh, priority}
use smart_srun.Application.Coordinator.{Coordinator, Env}
use smart_srun.Prelude.Maps.{lookup}
use smart_srun.Application.Invariant.Dispatch.{choose_sound, take_runnable_sound}
use smart_srun.Application.Schedule.Dispatch.{
  any_running, does_switch, does_refresh, runs_first, must_wait, better, choose, take_runnable,
  launch, dispatch_rounds, dispatch,
}
use smart_srun.Application.Schedule.Retire.{remove_first}

-- The order on the three keys alone.
before : ℕ → ℕ → ℕ → ℕ → ℕ → ℕ → Bool
before p q n p' q' n' =
    if not (p == p') then ltb p' p else if not (q == q') then ltb q q' else ltb n n'

before_trans :
    (p q n p' q' n' p'' q'' n'' : ℕ)
    → before p q n p' q' n' ≡ false
    → before p' q' n' p'' q'' n'' ≡ false
    → before p q n p'' q'' n'' ≡ false
unfolding before
before_trans p q n p' q' n' p'' q'' n'' h k = ground arith

abbrev priority_rank : Action → ℕ
priority_rank a = rank (priority a.request.kind)

runs_first-before :
    (a b : Action)
    → runs_first a b
      ≡ before (priority_rank a) a.queued_at a.ordinal (priority_rank b) b.queued_at b.ordinal
unfolding runs_first before
runs_first-before a b = refl

-- The queue order is a strict weak order: being no earlier is transitive.
runs_first_trans :
    (a b c : Action) → runs_first a b ≡ false → runs_first b c ≡ false → runs_first a c ≡ false
runs_first_trans a b c h k = rw (runs_first-before a c) (
    before_trans (priority_rank a) a.queued_at a.ordinal (priority_rank b) b.queued_at b.ordinal
      (priority_rank c) c.queued_at c.ordinal (rw runs_first-before at h)
      (rw runs_first-before at k))

runs_first_irrefl : (a : Action) → runs_first a a ≡ false
runs_first_irrefl a =
    rw (runs_first-before a a) (unfold before in ground (arith, ==_refl (priority_rank a)))

before_asym : (p q n p' q' n' : ℕ) → before p q n p' q' n' ≡ true → before p' q' n' p q n ≡ false
unfolding before
before_asym p q n p' q' n' h = ground arith

runs_first_asym : (a b : Action) → runs_first a b ≡ true → runs_first b a ≡ false
runs_first_asym a b h = rw (runs_first-before b a) (
    before_asym (priority_rank a) a.queued_at a.ordinal (priority_rank b) b.queued_at b.ordinal
      (rw runs_first-before at h))

-- The choice so far does not go before `n`.
abbrev IsNotBefore : (ℕ → Action) → Option ℕ → ℕ → Type 0
IsNotBefore heap none n = Unit
IsNotBefore heap (some k) n = runs_first (heap k) (heap n) ≡ false

better-IsNotBefore :
    (heap : ℕ → Action) (m n : ℕ) (chosen : Option ℕ)
    → IsNotBefore heap (better heap m chosen) n
    → (runs_first (heap m) (heap n) ≡ false) × IsNotBefore heap chosen n
better-IsNotBefore heap m n none h = (h, tt)
better-IsNotBefore heap m n (some k) h = elim (Bool-cases (runs_first (heap m) (heap k))) [
  | inl earlier ↦
      let last : runs_first (heap m) (heap n) ≡ false = rw earlier at h in
      let back = runs_first_asym (heap m) (heap k) earlier in
      (last, runs_first_trans (heap k) (heap m) (heap n) back last)
  | inr later ↦
      let last : runs_first (heap k) (heap n) ≡ false = rw later at h in
      (runs_first_trans (heap m) (heap k) (heap n) later last, last)
]

-- No action of `q` that need not wait goes before `n`, nor does the one chosen so far.
abbrev IsBest : Coordinator → List ℕ → Option ℕ → ℕ → Type 0
IsBest c q chosen n =
    ((m : ℕ)
      → elem m q ≡ true
      → must_wait c (c.heap m) ≡ false
      → runs_first (c.heap m) (c.heap n) ≡ false)
    × IsNotBefore c.heap chosen n

choose-IsBest :
    (c : Coordinator) (q : List ℕ) (chosen : Option ℕ) (n : ℕ)
    → choose c q chosen ≡ some n
    → IsBest c q chosen n
unfolding choose
choose-IsBest c [] none n h = cc
choose-IsBest c [] (some k) n h =
    let same : k ≡ n = cc in (λ m e w. cc, rw same (runs_first_irrefl (c.heap n)))
choose-IsBest c (m ∷ ms) chosen n h = elim (Bool-cases (must_wait c (c.heap m))) [
  | inl waits ↦
      let rest = choose-IsBest c ms chosen n (rw waits at h) in
      (λ k e w. ground (arith, rest.0 k), rest.1)
  | inr free ↦
      let rest = choose-IsBest c ms (better c.heap m chosen) n (rw free at h) in
      let first = better-IsNotBefore c.heap m n chosen rest.1 in
      (λ k e w. ground (arith, first.0, rest.0 k), first.1)
]

take_runnable-choose :
    (c : Coordinator) (n : ℕ) → take_runnable c ≡ some n → choose c c.queue none ≡ some n
unfolding take_runnable
take_runnable-choose c n h = elim (Option-cases (choose c c.queue none)) [
  | inl nobody ↦ absurd (ground arith)
  | inr (k, e) ↦ ground arith
]

-- The action that is taken from the queue is a best one: no queued action that need not wait goes
-- before it, by priority, then time of arrival, then order of submission.
pub take_runnable_best :
    (c : Coordinator) (n m : ℕ)
    → take_runnable c ≡ some n
    → elem m c.queue ≡ true
    → must_wait c (c.heap m) ≡ false
    → runs_first (c.heap m) (c.heap n) ≡ false
take_runnable_best c n m h queued free =
    (choose-IsBest c c.queue none n (take_runnable-choose c n h)).0 m queued free

length-remove_first :
    (n : ℕ) (q : List ℕ) → elem n q ≡ true → suc (length (remove_first n q)) ≡ length q
unfolding remove_first
length-remove_first n [] h = ground arith
length-remove_first n (x ∷ xs) h = ground (arith, length-remove_first n xs)

launch-queue :
    (env : Env) (c : Coordinator) (n : ℕ) → (launch env c n).queue ≡ remove_first n c.queue
unfolding launch
launch-queue env c n = ground arith

dispatch_rounds_complete :
    (fuel : ℕ) (env : Env) (c : Coordinator)
    → length c.queue < fuel
    → (ltb (length (dispatch_rounds fuel env c).running) (dispatch_rounds fuel env c).parallel
        ≡ false)
      ⊎ (take_runnable (dispatch_rounds fuel env c) ≡ none)
unfolding dispatch_rounds
dispatch_rounds_complete zero env c h = absurd (omega arith)
dispatch_rounds_complete (suc fuel) env c h =
    elim (Bool-cases (ltb (length c.running) c.parallel)) [
      | inr full ↦ rw (full, dispatch_rounds) (inl full)
      | inl room ↦ elim (Option-cases (take_runnable c)) [
        | inl idle ↦ rw (room, idle, dispatch_rounds) (inr idle)
        | inr (n, e) ↦
            rw (room, e, dispatch_rounds)
              (dispatch_rounds_complete fuel env (launch env c n) (
                omega (
                  arith,
                  ap length (launch-queue env c n),
                  length-remove_first n c.queue (take_runnable_sound c n e).queued,
                )))
      ]
    ]

-- Why a queued action does not start: a switch runs, a refresh runs beside its own, its line is taken, or
-- it does not go before a queued switch, which waits for everything that runs.
pub data IsHeld (c : Coordinator) (n : ℕ) : Type 0 where
  by_switch : any_running does_switch c.heap c.running ≡ true → IsHeld c n
  by_refresh :
      is_presets_refresh (c.heap n).request.kind ≡ true
      → any_running does_refresh c.heap c.running ≡ true
      → IsHeld c n
  by_line :
      is_empty (c.heap n).line ≡ false
      → does_switch (c.heap n) ≡ false
      → is_some (lookup (c.heap n).line c.busy_lines) ≡ true
      → IsHeld c n
  by_order :
      (m : ℕ)
      → elem m c.queue ≡ true
      → does_switch (c.heap m) ≡ true
      → is_empty c.running ≡ false
      → runs_first (c.heap n) (c.heap m) ≡ false
      → IsHeld c n

must_wait-IsHeld : (c : Coordinator) (n : ℕ) → must_wait c (c.heap n) ≡ true → IsHeld c n
unfolding must_wait
must_wait-IsHeld c n h = elim (Bool-cases (any_running does_refresh c.heap c.running)) [
  | inl some_refresh ↦ elim (Bool-cases (does_refresh (c.heap n))) [
    | inl refresh ↦ IsHeld.by_refresh refresh some_refresh
    | inr plain ↦
        IsHeld.by_line (ground (arith, h, plain)) (ground (arith, h, plain))
          (ground (arith, h, plain))
  ]
  | inr none_runs ↦
      IsHeld.by_line (ground (arith, h, none_runs)) (ground (arith, h, none_runs))
        (ground (arith, h, none_runs))
]

choose-some : (c : Coordinator) (q : List ℕ) (n : ℕ) → choose c q (some n) ≡ none → ⊥
unfolding choose
choose-some c [] n h = cc
choose-some c (m ∷ ms) n h = elim (Bool-cases (must_wait c (c.heap m))) [
  | inl waits ↦ choose-some c ms n (rw waits at h)
  | inr free ↦ elim (Bool-cases (runs_first (c.heap m) (c.heap n))) [
    | inl earlier ↦ choose-some c ms m (rw (free, earlier) at h)
    | inr later ↦ choose-some c ms n (rw (free, later) at h)
  ]
]

-- Where nobody is chosen, everybody must wait.
choose-none :
    (c : Coordinator) (q : List ℕ) (n : ℕ)
    → choose c q none ≡ none
    → elem n q ≡ true
    → must_wait c (c.heap n) ≡ true
unfolding choose
choose-none c [] n h e = cc
choose-none c (m ∷ ms) n h e = elim (Bool-cases (must_wait c (c.heap m))) [
  | inl waits ↦ ground (arith, choose-none c ms n (rw waits at h))
  | inr free ↦ absurd (choose-some c ms m (rw free at h))
]

idle-IsHeld :
    (c : Coordinator) (n : ℕ) → take_runnable c ≡ none → elem n c.queue ≡ true → IsHeld c n
unfolding take_runnable
idle-IsHeld c n h e = elim (Bool-cases (any_running does_switch c.heap c.running)) [
  | inl switching ↦ IsHeld.by_switch switching
  | inr calm ↦ elim (Bool-cases (must_wait c (c.heap n))) [
    | inl waits ↦ must_wait-IsHeld c n waits
    | inr free ↦ elim (Option-cases (choose c c.queue none)) [
      | inl nobody ↦ absurd (ground (arith, choose-none c c.queue n nobody e))
      | inr (m, chosen) ↦
          IsHeld.by_order m (ground (arith, choose_sound c c.queue none m chosen))
            (ground (arith, h, calm, chosen)) (ground (arith, h, calm, chosen))
            ((choose-IsBest c c.queue none m chosen).0 n e free)
    ]
  ]
]

-- `dispatch` runs to its end: when it returns, and an action is queued then, the limit on running actions is
-- reached, or the action is held by a switch that runs, by a refresh beside its own, by another on its line, or by a queued
-- switch that it does not go before, while something runs.
pub dispatch_complete :
    (env : Env) (c : Coordinator) (n : ℕ)
    → elem n (dispatch env c).queue ≡ true
    → (ltb (length (dispatch env c).running) (dispatch env c).parallel ≡ false)
      ⊎ IsHeld (dispatch env c) n
unfolding dispatch
dispatch_complete env c n e =
    elim (dispatch_rounds_complete (suc (length c.queue)) env c (omega arith)) [
      | inl full ↦ inl full
      | inr idle ↦ inr (idle-IsHeld _ n idle e)
    ]
