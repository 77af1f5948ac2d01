-- ===== src/Application/Invariant.antt =====
-- What holds of the coordinator between two steps of its loop, for any queue `q`: `expire` goes
-- through the queue while it is not yet written back.
pub mod Close
pub mod Cancel
pub mod Submit
pub mod Finish
pub mod Dispatch
pub mod Expire
use smart_srun.Prelude.{
  ℕ, ◌≤◌, ◌≡◌, ◌≢◌, Bool, true, false, some, none, List, [], ◌∷◌, Option, ◌==◌, elem, is_empty,
  is_some, ◌⊎◌,
}
use smart_srun.Prelude.Maps.{lookup, find}
use smart_srun.Application.Action.{State, is_terminal}
use smart_srun.Application.Coordinator.{Coordinator, Run}

-- No number stands twice.
abbrev pub Distinct : List ℕ → Type 0
Distinct [] = Unit
Distinct (x ∷ xs) = (elem x xs ≡ false) × Distinct xs

-- A waiting action: known, not started, not filed.
pub record IsWaiting (c : Coordinator) (n : ℕ) : Type 0 where
  pub known : elem n c.index ≡ true
  pub queued : (c.heap n).state ≡ State.queued
  pub unfiled : (c.heap n).retired ≡ false
  pub idle : find n c.running ≡ none

-- An action with a worker: known, not filed, and the holder of its line.
pub record IsWorking (c : Coordinator) (n : ℕ) (r : Run) : Type 0 where
  pub known : elem n c.index ≡ true
  pub started : (c.heap n).state ≢ State.queued
  pub unfiled : (c.heap n).retired ≡ false
  pub line : r.line ≡ (c.heap n).line
  pub holds : is_empty r.line ≡ false → lookup r.line c.busy_lines ≡ some n

abbrev pub is_away : ℕ → Option ℕ → Bool
is_away n none = false
is_away n (some m) = m == n

-- `away` is an action between two places: out of the queue, and not yet filed or started.
pub record Inv (q : List ℕ) (away : Option ℕ) (c : Coordinator) : Type 0 where
  pub waiting : (n : ℕ) → elem n q ≡ true → IsWaiting c n
  pub working : (n : ℕ) (r : Run) → find n c.running ≡ some r → IsWorking c n r
  pub filed :
      (n : ℕ)
      → elem n c.terminals ≡ true
      → ((c.heap n).retired ≡ true) × (is_terminal (c.heap n).state ≡ true) × (n ≤ c.next_id)
  pub fresh : (n : ℕ) → elem n c.index ≡ true → n ≤ c.next_id
  pub distinct : Distinct q
  -- no known action is lost: it waits, works or was filed
  pub placed :
      (n : ℕ)
      → elem n c.index ≡ true
      → (elem n q ≡ true)
        ⊎ (is_some (find n c.running) ≡ true)
        ⊎ (is_away n away ≡ true)
        ⊎ ((c.heap n).retired ≡ true) × (is_terminal (c.heap n).state ≡ true)
