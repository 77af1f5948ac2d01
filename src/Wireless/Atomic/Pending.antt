-- ===== src/Wireless/Atomic/Pending.antt =====
-- A transaction of core/internal/wireless/transaction.go that is applied, perhaps, and awaits its
-- confirmation, perhaps, and the next start of the program.
use smart_srun.Prelude.{ℕ, ◌≡◌, Bool, true, false, ◌||◌, Option, some, List, [], ◌∷◌, Bytes}
use smart_srun.Wireless.Journal.{Key, Journal, Phase, Backup}
use smart_srun.Wireless.Machine.{Value, Store, IsLawful, Machine, Result, Fault}
use smart_srun.Wireless.Transaction.{Plan, planned_journal, planned_backup, phase_eq}
use smart_srun.Wireless.Invariant.{IsSound, at_phase}
use smart_srun.Wireless.Atomic.{Step}
use smart_srun.Wireless.Atomic.Undone.{is_open}

-- `Apply` and `AwaitConfirm`, any number of times.
abbrev pub is_forward : List (Step × List Fault) → Bool
is_forward [] = true
is_forward ((Step.apply_step cs, fs) ∷ ss) = is_forward ss
is_forward ((Step.await_step, fs) ∷ ss) = is_forward ss
is_forward ((_, fs) ∷ ss) = false

abbrev pub can_undo : Phase → Bool
can_undo q = is_open q || phase_eq q Phase.backed_up

-- The record is on the disk, whole.
pub record IsPending (p : Plan) (before : Key → Value) (j : Journal) (f : Option Journal)
    (b : Option Backup) : Type 0 where
  pub file_phase : Phase
  pub file : f ≡ some (at_phase j file_phase)
  pub undoable : can_undo file_phase ≡ true
  pub saved : b ≡ some (planned_backup p before)

module _ {S : Store} (hash : Bytes → Bytes → Bytes) (p : Plan) (before : Key → Value)
    (j : Journal) where
  abbrev Pending : Result (Unit {0}) → Machine S → Type 0
  Pending x m = IsPending p before j m.journal m.backup

module _ {S : Store} (law : IsLawful S) (hash : Bytes → Bytes → Bytes)
    (decode : Bytes → Option (List Bytes)) (p : Plan) (before : Key → Value)
    (sound : IsSound hash decode p before) (salt : Bytes) (now : ℕ) where
  abbrev plan_journal : Journal
  plan_journal = planned_journal hash p salt now before
