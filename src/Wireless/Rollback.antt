-- ===== src/Wireless/Rollback.antt =====
-- core/internal/wireless/transaction.go: `rollback`, `Recover`, and the two tests on a value that they
-- share. An error of the store or of a file comes without the outcome that goes with it.
pub mod Entries
pub mod Collected
pub mod Saved
pub mod Values
pub mod Mixed
use smart_srun.Prelude.{
  ℕ, Bool, true, false, not, ◌&&◌, ◌||◌, Option, none, some, List, [], ◌∷◌, ltb, ◌==◌,
  if◌then◌else◌, Bytes, bytes_eq, is_empty,
}
use smart_srun.Prelude.Maps.{lookup}
use smart_srun.Domain.Errors.{ErrorCode}
use smart_srun.Wireless.Journal.{
  Phase, Key, is_final, is_section, key_eq, key_string, Entry, Journal, Backup,
}
use smart_srun.Wireless.Machine.{
  Value, Change, Store, Result, ok, M, Machine, pure, throw, guard, assign, query, ◌>>=◌, ◌>>◌,
  save_journal, set_memory, set_phase, load_journal, load_backup, clear, read, stage, commit,
  reload,
}
use smart_srun.Wireless.Transaction.{phase_eq, bool_eq}

-- `Outcome`, with the code of the error that it is returned with.
pub record Outcome : Type 0 where
  pub phase : Phase
  pub restored : List Key
  pub conflicts : List Key
  pub removed : List Key
  pub error : Option ErrorCode

abbrev pub plain : Phase → Option ErrorCode → Outcome
plain p e = record { phase = p; restored = []; conflicts = []; removed = []; error = e }

-- What the loop of `rollback` collects: the three lists, and the changes to write.
pub record Undo : Type 0 where
  pub restored : List Key
  pub conflicts : List Key
  pub removed : List Key
  pub changes : List Change

abbrev pub nothing : Undo
nothing = record { restored = []; conflicts = []; removed = []; changes = [] }

abbrev pub change_back : Entry → Bytes → Change
change_back e v = record { key = e.key; text = v; is_list = e.before_list; delete = false }

abbrev pub take_away : Entry → Change
take_away e = record { key = e.key; text = []; is_list = false; delete = true }

abbrev pub keep : Entry → Undo → Undo
keep e u = record u { restored = e.key ∷ u.restored }

abbrev pub conflict : Entry → Undo → Undo
conflict e u = record u { conflicts = e.key ∷ u.conflicts }

abbrev pub restore : Entry → Bytes → Undo → Undo
restore e v u = record u { restored = e.key ∷ u.restored; changes = change_back e v ∷ u.changes }

abbrev pub remove_key : Entry → Undo → Undo
remove_key e u = record u { removed = e.key ∷ u.removed; changes = take_away e ∷ u.changes }

abbrev has_section : Bytes → List Bytes → Bool
has_section s [] = false
has_section s (x ∷ xs) = bytes_eq x s || has_section s xs

-- `owned[child]`: entries have distinct keys, so that the first one is the last one.
abbrev find_entry : Key → List Entry → Option Entry
find_entry k [] = none
find_entry k (e ∷ es) = if key_eq e.key k then some e else find_entry k es

module _ {S : Store} where
  unfoldable pub publish : Bytes → List Change → M S (Unit {0})
  publish pkg [] = pure tt
  publish pkg (c ∷ cs) = do stage (c ∷ cs); commit pkg; reload

  -- From the published changes on.
  unfoldable pub settle_undo : Undo → M S Outcome
  settle_undo u =
      if is_empty u.conflicts
      then (do
        assign (λ m. record m { memory = record (m.memory) { phase = Phase.rolled_back } })
        clear
        pure (record {
          phase = Phase.rolled_back;
          restored = u.restored;
          conflicts = [];
          removed = u.removed;
          error = none;
        }))
      else (do
        set_phase Phase.recovery_required
        pure (record {
          phase = Phase.recovery_required;
          restored = u.restored;
          conflicts = u.conflicts;
          removed = u.removed;
          error = some ErrorCode.recovery_required;
        }))

  -- `_ = paths.SaveJournal(journal)`: the error is dropped.
  abbrev pub ignore : M S (Unit {0}) → M S (Unit {0})
  ignore c m fs = (ok tt, (c m fs).1, (c m fs).2)

module _ (hash : Bytes → Bytes → Bytes) where
  -- `alreadyBefore`.
  unfoldable pub already_before : Bytes → Entry → Value → Bool
  already_before salt e v =
      if e.before_present
      then v.present
        && (bool_eq v.is_list e.before_list && bytes_eq (hash salt v.text) e.before_hash)
      else not v.present

  -- `stillOurs`.
  unfoldable pub still_ours : Bytes → Entry → Value → Bool
  still_ours salt e v =
      if e.after_deleted
      then not v.present
      else v.present && (bool_eq v.is_list e.after_list && bytes_eq (hash salt v.text) e.after_hash)

  -- What goes back for an entry that was there: the value of the backup, if the backup is this
  -- transaction's and fits the journal.
  unfoldable pub saved_value : Journal → Backup → Entry → Option Bytes → Option Bytes
  saved_value j b e none = none
  saved_value j b e (some v) =
      if bytes_eq b.task_id j.task_id && bytes_eq (hash j.salt v) e.before_hash
      then some v
      else none

  abbrev put_back : Entry → Option Bytes → Undo → Option Undo
  put_back e none u = none
  put_back e (some v) u = some (restore e v u)

  -- The body of the loop, on one entry.
  unfoldable pub undo_one :
      Journal → Backup → List Bytes → (Key → Value) → Entry → Undo → Option Undo
  undo_one j b blocked current e u =
      if is_section e.key && has_section e.key.section blocked
      then some (conflict e u)
      else if already_before j.salt e (current e.key)
      then some (keep e u)
      else if not (still_ours j.salt e (current e.key))
      then some (conflict e u)
      else if e.before_present
      then put_back e (saved_value j b e (lookup (key_string e.key) b.values)) u
      else some (remove_key e u)

  abbrev pub undo_next :
      Journal → Backup → List Bytes → (Key → Value) → Entry → Option Undo → Option Undo
  undo_next j b blocked current e none = none
  undo_next j b blocked current e (some u) = undo_one j b blocked current e u

  -- The loop: `none` is a backup that does not fit the journal.
  unfoldable pub undo : Journal → Backup → List Bytes → (Key → Value) → List Entry → Option Undo
  undo j b blocked current [] = some nothing
  undo j b blocked current (e ∷ es) = undo_next j b blocked current e (undo j b blocked current es)

  -- A child that somebody else made or changed.
  abbrev foreign : Journal → (Key → Value) → Option Entry → Key → Bool
  foreign j current none k = true
  foreign j current (some e) k =
      not (still_ours j.salt e (current k)) && not (already_before j.salt e (current k))

  abbrev any_foreign : Journal → (Key → Value) → List Key → Bool
  any_foreign j current [] = false
  any_foreign j current (k ∷ ks) =
      foreign j current (find_entry k j.entries) k || any_foreign j current ks

  module _ {S : Store} where
    -- `blockedSections`.
    unfoldable pub blocked_sections : Journal → (Key → Value) → List Entry → M S (List Bytes)
    blocked_sections j current [] = pure []
    blocked_sections j current (e ∷ es) =
        let rest = blocked_sections j current es in
        if not (is_section e.key) || (e.before_present || not (current e.key).present)
        then rest
        else do
          children ← query (λ m. S.section_keys m.live j.pkg e.key.section)
          others ← rest
          pure (if any_foreign j current children then e.key.section ∷ others else others)

    abbrev pub carry_out : Bytes → Option Undo → M S Outcome
    carry_out pkg none = throw ErrorCode.recovery_required
    carry_out pkg (some u) = do publish pkg u.changes; settle_undo u

    -- With the answer of `LoadBackup`.
    unfoldable pub undo_with : Journal → Option Backup → M S Outcome
    undo_with j none = do
      ignore (set_phase Phase.recovery_required)
      pure (plain Phase.recovery_required (some ErrorCode.recovery_required))
    undo_with j (some b) = do
      current ← read j.pkg
      blocked ← blocked_sections j current j.entries
      carry_out j.pkg (undo j b blocked current j.entries)

    -- `rollback`, on the journal of the transaction.
    unfoldable pub rollback_with : Journal → M S Outcome
    rollback_with j =
        if is_final j.phase
        then pure (plain j.phase none)
        else if phase_eq j.phase Phase.planned || phase_eq j.phase Phase.backed_up
        then (do
          assign (λ m. record m { memory = record (m.memory) { phase = Phase.rolled_back } })
          clear
          pure (plain Phase.rolled_back none))
        else (do set_phase Phase.rolling_back; b ← load_backup; undo_with j b)

    unfoldable pub rollback : M S Outcome
    rollback m = rollback_with m.memory m

    -- The last cases of `Recover`, of a change that may have been published.
    unfoldable pub recover_undo : (revision : ℕ) → (now : ℕ) → Journal → M S (Option Outcome)
    recover_undo revision now j =
        if not (j.config_revision == revision)
        then (do
          set_memory j
          set_phase Phase.recovery_required
          pure (some (plain Phase.recovery_required (some ErrorCode.recovery_required))))
        else if phase_eq j.phase Phase.awaiting_confirm && ltb now j.expires_at
        then pure (some (plain j.phase none))
        else (do set_memory j; o ← rollback; pure (some o))

    -- `Recover` with a journal, by its phase.
    unfoldable pub recover_from : (revision : ℕ) → (now : ℕ) → Journal → M S (Option Outcome)
    recover_from revision now j =
        if phase_eq j.phase Phase.recovery_required
        then pure (some (plain Phase.recovery_required (some ErrorCode.recovery_required)))
        else if is_final j.phase
        then (do clear; pure (some (plain j.phase none)))
        else if phase_eq j.phase Phase.planned || phase_eq j.phase Phase.backed_up
        then (do clear; pure (some (plain Phase.rolled_back none)))
        else recover_undo revision now j

    abbrev pub recover_found : (revision : ℕ) → (now : ℕ) → Option Journal → M S (Option Outcome)
    recover_found revision now none = pure none
    recover_found revision now (some j) = recover_from revision now j

    -- `Recover`: nothing, where there is no journal.
    unfoldable pub recover : (revision : ℕ) → (now : ℕ) → M S (Option Outcome)
    recover revision now = do j ← load_journal; recover_found revision now j
