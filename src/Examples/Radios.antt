-- ===== src/Examples/Radios.antt =====
-- A wireless configuration as a table, and a plan that sets one option of a section and removes
-- another.
mod Edits
use smart_srun.Prelude.{
  ◌≡◌, refl, ◌⊎◌, inl, inr, Bool, true, false, Option, none, some, List, [], ◌∷◌, ◌++◌, arith,
  Bytes, codes, if◌then◌else◌, Bool-cases, is_empty,
}
use smart_srun.Prelude.{bytes_eq}
use smart_srun.Prelude.Maps.{erase, insert, lookup}
use smart_srun.Domain.Errors.{ErrorCode}
use smart_srun.Wireless.Journal.{Key, Journal, Phase, key_eq, key_string}
use smart_srun.Wireless.Machine.{
  Value, absent, Change, Store, IsLawful, Machine, ok, err, failed, Fault, written, guard, assign,
  pure, throw, attempt, query, ◌>>=◌,
}
use smart_srun.Wireless.Check.{check_key, check_writable}
use smart_srun.Wireless.Transaction.{
  Plan, begin, check_plan, leftover, read_plan, record_plan, apply, apply_with, await_confirm,
  await_with, confirm, planned_journal, planned_backup, entry_of, values_of, match_all,
}
use smart_srun.Wireless.Rollback.{
  already_before, still_ours, rollback_with, undo_with, blocked_sections, undo, undo_one, publish,
  saved_value, settle_undo, Outcome, rollback, plain,
}
use smart_srun.Wireless.Rollback.Entries.{IsInjective}
use smart_srun.Wireless.Rollback.Collected.{theirs, undone}
use smart_srun.Wireless.Invariant.{IsSound, at_phase}
use smart_srun.Wireless.Invariant.Start.{begin-unfinished, is_ok}
use smart_srun.Wireless.Atomic.{Step, run, after_step, run-written, rollback_complete}
use smart_srun.Wireless.Atomic.Edited.{rollback-undone, end_phase}
use smart_srun.Wireless.Atomic.Lost.{
  IsSettled, confirm-IsSettled, recover-lost_backup, confirm-retried,
}

-- The text of an option, and whether it is a list.
abbrev pub Cell : Type 0
Cell = Option (Bytes × Bool)

abbrev pub value_of : Cell → Value
value_of none = absent
value_of (some (t, l)) = record { text = t; present = true; is_list = l }

abbrev cell_after : Change → Cell
cell_after c = if c.delete then none else some (c.text, c.is_list)

pub write_table : List Change → (Key → Cell) → Key → Cell
write_table [] s k = s k
write_table (c ∷ cs) s k = if key_eq c.key k then cell_after c else write_table cs s k

abbrev pub table : Store
table = record {
  State = Key → Cell;
  read = λ s pkg k. value_of (s k);
  section_keys = λ s pkg name. [];
  write = λ s pkg cs. write_table cs s;
  pending = λ s pkg. 0;
}

read_table :
    (cs : List Change) (s : Key → Cell) (k : Key)
    → value_of (write_table cs s k) ≡ written cs k (value_of (s k))
unfolding write_table written
read_table [] s k = refl
read_table (c ∷ cs) s k = elim (Bool-cases (key_eq c.key k)) [
  | inl t ↦ rw t (elim (Bool-cases c.delete) [ inl d ↦ rw d refl | inr d ↦ rw d refl ])
  | inr f ↦ rw f (read_table cs s k)
]

pub absent_cell : (c : Cell) → (value_of c).present ≡ false → value_of c ≡ absent
absent_cell none h = refl
absent_cell (some (t, l)) h = ground (arith, h)

pub table-IsLawful : IsLawful table
table-IsLawful = record {
  read-write = λ s pkg cs k o d. read_table cs s k;
  read_absent = λ s pkg k h. absent_cell (s k) h;
}

-- A stand-in for the hash: the salt, then the text.
abbrev pub salted : Bytes → Bytes → Bytes
salted salt text = salt ++ text

pub salted-IsInjective : IsInjective salted
salted-IsInjective [] a b h = h
salted-IsInjective (x ∷ salt) a b h = salted-IsInjective salt a b (ground (arith, h))

abbrev pub decoded : Bytes → Option (List Bytes)
decoded text = none

abbrev pub ssid : Key
ssid = record { section = codes "sta"; option = codes "ssid" }

abbrev pub password : Key
password = record { section = codes "sta"; option = codes "key" }

abbrev pub plan : Plan
plan = record {
  task_id = codes "t1";
  pkg = codes "wireless";
  changes =
      record { key = ssid; text = codes "campus"; is_list = false; delete = false }
      ∷ record { key = password; text = []; is_list = false; delete = true }
      ∷ [];
  config_revision = 4;
  confirm_within = 900;
}

unfoldable pub home : Key → Cell
home k =
    if key_eq ssid k
    then some (codes "home", false)
    else (if key_eq password k then some (codes "secret", false) else none)

abbrev empty_journal : Journal
empty_journal = record {
  version = 0;
  task_id = [];
  phase = Phase.planned;
  pkg = [];
  config_revision = 0;
  salt = [];
  entries = [];
  started_at = 0;
  expires_at = 0;
}

abbrev router : Machine table
router = record { live = home; staged = []; journal = none; backup = none; memory = empty_journal }

-- An `Apply` whose commit is done and reported as failed, then an `AwaitConfirm`.
abbrev cut_short : List (Step × List Fault)
cut_short =
    (Step.apply_step plan.changes, Fault.passes ∷ Fault.passes ∷ Fault.fails_after ∷ [])
    ∷ (Step.await_step, [])
    ∷ []

begins : (begin salted decoded plan (codes "ab") 100 router []).0 ≡ ok tt
unfolding home begin check_plan leftover read_plan record_plan check_writable check_key attempt
    query guard assign pure throw ◌>>=◌ bytes_eq
begins = refl

run-written_example :
    (table.read
        (run salted cut_short ((begin salted decoded plan (codes "ab") 100 router []).1)).live
        (codes "wireless")
        ssid
      ≡ table.read home (codes "wireless") ssid)
    ⊎ (table.read
          (run salted cut_short ((begin salted decoded plan (codes "ab") 100 router []).1)).live
          (codes "wireless")
          ssid
        ≡ written plan.changes ssid (table.read home (codes "wireless") ssid))
run-written_example =
    run-written table-IsLawful salted decoded plan salted-IsInjective refl (codes "ab") 100 router
      [] cut_short ssid begins

abbrev all_restored : Outcome
all_restored = record {
  phase = Phase.rolled_back;
  restored = ssid ∷ password ∷ [];
  conflicts = [];
  removed = [];
  error = none;
}

rolls_back :
    (rollback salted
      (run salted cut_short ((begin salted decoded plan (codes "ab") 100 router []).1))
      []).0
    ≡ ok all_restored
unfolding home begin check_plan leftover read_plan record_plan check_writable check_key attempt
    query guard assign pure throw ◌>>=◌ bytes_eq rollback rollback_with run after_step await_confirm
    await_with apply apply_with match_all entry_of undo_with blocked_sections undo undo_one
    already_before write_table still_ours erase insert lookup key_string publish saved_value
    settle_undo values_of
rolls_back = refl

rollback_complete_example :
    (table.read
        ((rollback salted
            (run salted cut_short ((begin salted decoded plan (codes "ab") 100 router []).1))
            []).1
          ).live
        (codes "wireless")
        ssid
      ≡ table.read home (codes "wireless") ssid)
    × (all_restored.conflicts ≡ [])
rollback_complete_example =
    rollback_complete table-IsLawful salted decoded plan salted-IsInjective refl (codes "ab") 100
      router [] [] cut_short all_restored ssid begins rolls_back refl
