-- ===== src/Examples/Radios/Edits.antt =====
-- The same plan applied, where somebody else has edited the configuration or a file is lost.
use smart_srun.Prelude.{◌≡◌, refl, true, false, none, some, [], ◌∷◌, codes, if◌then◌else◌, is_empty}
use smart_srun.Prelude.{bytes_eq}
use smart_srun.Domain.Errors.{ErrorCode}
use smart_srun.Wireless.Journal.{Key, Journal, Phase, key_eq}
use smart_srun.Wireless.Machine.{Value, Machine, ok, err, failed, Fault}
use smart_srun.Wireless.Check.{check_key, check_writable}
use smart_srun.Wireless.Transaction.{begin, confirm, planned_journal, planned_backup}
use smart_srun.Wireless.Rollback.{Outcome, rollback, recover, plain}
use smart_srun.Wireless.Rollback.Values.{edited_keys, put_back_at}
use smart_srun.Wireless.Invariant.{IsSound, at_phase}
use smart_srun.Wireless.Invariant.Start.{begin-unfinished, is_ok}
use smart_srun.Wireless.Atomic.Edited.{rollback-undone, end_phase}
use smart_srun.Wireless.Atomic.Lost.{
  IsSettled, confirm-IsSettled, recover-lost_backup, confirm-retried,
}
use smart_srun.Examples.Radios.{
  value_of, Cell, table, absent_cell, table-IsLawful, salted, salted-IsInjective, decoded, ssid,
  password, plan, home,
}

-- Somebody else has given the network another name.
edited : Key → Cell
edited k = if key_eq ssid k then some (codes "cafe", false) else none

before_edit : Key → Value
before_edit k = value_of (home k)

abbrev plan_journal : Journal
plan_journal = planned_journal salted plan (codes "ab") 100 before_edit

applied : Machine table
applied = record {
  live = edited;
  staged = [];
  journal = some (at_phase plan_journal Phase.applied);
  backup = some (planned_backup plan before_edit);
  memory = at_phase plan_journal Phase.applied;
}

before_edit-IsSound : IsSound salted decoded plan before_edit
unfolding before_edit check_writable check_key bytes_eq
before_edit-IsSound = record {
  injective = salted-IsInjective;
  options = refl;
  distinct = refl;
  writable = refl;
  proper = λ k h. absent_cell (home k) h;
}

rollback-undone_example :
    ((o : Outcome) × ((rollback salted applied []).0 ≡ ok o)
      × (o.conflicts ≡ edited_keys before_edit (table.read edited (codes "wireless")) plan.changes)
      × (o.phase
          ≡ end_phase
              (edited_keys before_edit (table.read edited (codes "wireless")) plan.changes)))
    × (table.read ((rollback salted applied []).1).live (codes "wireless") password
        ≡ put_back_at before_edit (table.read edited (codes "wireless")) plan.changes password)
    × (((rollback salted applied []).1).backup ≡ (
        if is_empty (edited_keys before_edit (table.read edited (codes "wireless")) plan.changes)
        then none
        else some (planned_backup plan before_edit)))
unfolding applied
rollback-undone_example =
    rollback-undone table-IsLawful salted decoded plan before_edit (codes "ab") 100 Phase.applied
      applied password before_edit-IsSound refl refl refl

-- The name is the other one, and the password is back.
undone_test :
    (edited_keys before_edit (table.read edited (codes "wireless")) plan.changes ≡ ssid ∷ [])
    × (put_back_at before_edit (table.read edited (codes "wireless")) plan.changes password
        ≡ record { text = codes "secret"; present = true; is_list = false })
unfolding edited_keys put_back_at before_edit home edited bytes_eq
undone_test = (refl, refl)

confirm-IsSettled_example :
    (((confirm applied (Fault.passes ∷ Fault.passes ∷ Fault.fails ∷ [])).1).live ≡ applied.live)
    × IsSettled applied ((confirm applied (Fault.passes ∷ Fault.passes ∷ Fault.fails ∷ [])).1)
unfolding applied
confirm-IsSettled_example =
    confirm-IsSettled applied (Fault.passes ∷ Fault.passes ∷ Fault.fails ∷ []) refl

confirm-retried_example :
    ((confirm applied (Fault.fails ∷ [])).0 ≡ err failed)
    × (((confirm ((confirm applied (Fault.fails ∷ [])).1) (Fault.passes ∷ Fault.fails ∷ [])).1
          ).journal
        ≡ applied.journal)
    × (((confirm ((confirm applied (Fault.fails ∷ [])).1) (Fault.passes ∷ Fault.fails ∷ [])).1
          ).backup
        ≡ none)
unfolding applied
confirm-retried_example = confirm-retried applied refl

abbrev lost_journal : Journal
lost_journal = at_phase plan_journal Phase.rolling_back

abbrev lost : Machine table
lost = record {
  live = home;
  staged = [];
  journal = some lost_journal;
  backup = none;
  memory = lost_journal;
}

recover-lost_backup_example :
    ((recover salted 4 1000 lost []).0
      ≡ ok (some (plain Phase.recovery_required (some ErrorCode.recovery_required))))
    × (((recover salted 4 1000 lost []).1).live ≡ home)
    × (((recover salted 4 1000 lost []).1).journal
        ≡ some (at_phase lost_journal Phase.recovery_required))
recover-lost_backup_example =
    recover-lost_backup salted lost lost_journal 1000 refl refl refl refl refl

begin-unfinished_example :
    (is_ok ((begin salted decoded plan (codes "cd") 200 lost []).0) ≡ false)
    × (((begin salted decoded plan (codes "cd") 200 lost []).1).live ≡ home)
    × (((begin salted decoded plan (codes "cd") 200 lost []).1).journal ≡ some lost_journal)
    × (((begin salted decoded plan (codes "cd") 200 lost []).1).backup ≡ none)
begin-unfinished_example =
    begin-unfinished salted decoded plan (codes "cd") 200 lost lost_journal [] refl refl
