-- ===== src/Application/Invariant/Close.antt =====
-- Filing a finished action keeps the invariant.
use smart_srun.Prelude.{
  ℕ, ◌≤◌, ◌≡◌, refl, true, false, not, some, none, List, [], ◌∷◌, ◌++◌, ◌⊎◌, elem, arith, ==_refl,
  is_some, ◌==◌, elem-filter, elem-append,
}
use smart_srun.Prelude.Maps.{find}
use smart_srun.Application.Action.{Action, is_terminal}
use smart_srun.Application.Coordinator.{Coordinator, Run}
use smart_srun.Application.Invariant.{Inv, IsWaiting, IsWorking, is_away}
use smart_srun.Application.Schedule.Retire.{
  put, publish, retire, evict, trim, History, filed, history_of,
}

-- The history forgets nothing but terminals.
trim_keeps :
    (heap : ℕ → Action) (limit : ℕ) (h : History) (ts : List ℕ) (n : ℕ)
    → elem n ts ≡ false
    → elem n (trim heap limit h ts).index ≡ elem n h.index
unfolding trim
trim_keeps heap limit h [] n e = refl
trim_keeps heap limit h (o ∷ rest) n e = ground (
  arith,
  trim_keeps heap limit (evict heap h o) rest n,
  elem-filter n (λ m. not (m == o)) h.index,
)

trim_subset :
    (heap : ℕ → Action) (limit : ℕ) (h : History) (ts : List ℕ) (n : ℕ)
    → elem n (trim heap limit h ts).index ≡ true
    → elem n h.index ≡ true
unfolding trim
trim_subset heap limit h [] n e = e
trim_subset heap limit h (o ∷ rest) n e = ground (
  arith,
  trim_subset heap limit (evict heap h o) rest n,
  elem-filter n (λ m. not (m == o)) h.index,
)

trim-terminals :
    (heap : ℕ → Action) (limit : ℕ) (h : History) (ts : List ℕ) (n : ℕ)
    → elem n (trim heap limit h ts).terminals ≡ true
    → elem n ts ≡ true
unfolding trim
trim-terminals heap limit h [] n e = e
trim-terminals heap limit h (o ∷ rest) n e =
    ground (arith, trim-terminals heap limit (evict heap h o) rest n)

-- Filing an action leaves the queue and the running set alone.
pub retire-queue : (c : Coordinator) (n : ℕ) → (retire c n).queue ≡ c.queue
unfolding retire
retire-queue c n = ground arith

retire-running : (c : Coordinator) (n : ℕ) → (retire c n).running ≡ c.running
unfolding retire
retire-running c n = ground arith

module _ (q : List ℕ) (c : Coordinator) (n : ℕ) (a : Action) (v : Inv q (some n) c)
    (absent : elem n q ≡ false) (idle : find n c.running ≡ none) (known : elem n c.index ≡ true)
    (unfiled : a.retired ≡ false) (ended : is_terminal a.state ≡ true) where
  retired_lem : publish (retire (put c n a) n) n ≡ publish (filed (put c n a) n) n
  unfolding retire
  retired_lem = ground (arith, ==_refl n)

  close-waiting : (m : ℕ) → elem m q ≡ true → IsWaiting (publish (filed (put c n a) n) n) m
  close-waiting m h = ground (
    arith,
    v.waiting m h,
    v.filed m,
    elem-append m c.terminals (n ∷ []),
    trim_keeps (filed (put c n a) n).heap c.history (history_of c) (c.terminals ++ (n ∷ [])) m,
  )

  close-working :
      (m : ℕ) (r : Run)
      → find m c.running ≡ some r
      → IsWorking (publish (filed (put c n a) n) n) m r
  close-working m r h = ground (
    arith,
    v.working m r h,
    v.filed m,
    elem-append m c.terminals (n ∷ []),
    trim_keeps (filed (put c n a) n).heap c.history (history_of c) (c.terminals ++ (n ∷ [])) m,
  )

  close-filed :
      (m : ℕ)
      → elem m (filed (put c n a) n).terminals ≡ true
      → (((filed (put c n a) n).heap m).retired ≡ true)
        × (is_terminal ((filed (put c n a) n).heap m).state ≡ true)
        × (m ≤ c.next_id)
  close-filed m h = ground (
    arith,
    v.filed m,
    v.fresh n known,
    elem-append m c.terminals (n ∷ []),
    trim-terminals (filed (put c n a) n).heap c.history (history_of c) (c.terminals ++ (n ∷ [])) m
        h,
  )

  close-placed :
      (m : ℕ)
      → elem m (filed (put c n a) n).index ≡ true
      → (elem m q ≡ true)
        ⊎ (is_some (find m c.running) ≡ true)
        ⊎ (is_away m none ≡ true)
        ⊎ (((filed (put c n a) n).heap m).retired ≡ true)
          × (is_terminal ((filed (put c n a) n).heap m).state ≡ true)
  close-placed m h = ground (
    arith,
    v.placed m (
        trim_subset (filed (put c n a) n).heap c.history (history_of c) (c.terminals ++ (n ∷ [])) m
          h),
  )

  pub close-Inv : Inv q none (publish (retire (put c n a) n) n)
  close-Inv = rw retired_lem (record {
    waiting = close-waiting;
    working = close-working;
    filed = close-filed;
    fresh = λ m h. v.fresh m (
        trim_subset (filed (put c n a) n).heap c.history (history_of c) (c.terminals ++ (n ∷ [])) m
          h);
    distinct = v.distinct;
    placed = close-placed;
  })
