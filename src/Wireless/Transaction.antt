-- ===== src/Wireless/Transaction.antt =====
-- core/internal/wireless/transaction.go: `Begin`, `Apply`, `AwaitConfirm` and `Confirm`. The salted
-- hash and the decoder of JSON arrays are parameters, and so are the salt that is drawn and the time.
pub mod Matched
use smart_srun.Prelude.{
  ℕ, ◌+◌, Bool, true, false, not, ◌&&◌, ◌||◌, Option, none, some, List, [], ◌∷◌, map, length, ◌==◌,
  if◌then◌else◌, Bytes, bytes_eq, is_empty,
}
use smart_srun.Prelude.Maps.{insert}
use smart_srun.Domain.Errors.{ErrorCode}
use smart_srun.Wireless.Journal.{
  Phase, Key, is_section, key_eq, key_string, Entry, Journal, Backup, journal_version,
}
use smart_srun.Wireless.Machine.{
  Value, Change, Store, are_distinct, has_key, M, Machine, pure, throw, guard, assign, query, ◌>>=◌,
  ◌>>◌, save_journal, save_backup, set_memory, set_phase, load_journal, clear, read, stage, commit,
  reload,
}
use smart_srun.Wireless.Check.{check_writable}

pub record Plan : Type 0 where
  pub task_id : Bytes
  pub pkg : Bytes
  pub changes : List Change
  pub config_revision : ℕ
  pub confirm_within : ℕ

abbrev phase_code : Phase → ℕ
phase_code Phase.planned = 0
phase_code Phase.backed_up = 1
phase_code Phase.applied = 2
phase_code Phase.awaiting_confirm = 3
phase_code Phase.committed = 4
phase_code Phase.rolling_back = 5
phase_code Phase.rolled_back = 6
phase_code Phase.recovery_required = 7

abbrev pub phase_eq : Phase → Phase → Bool
phase_eq p q = phase_code p == phase_code q

abbrev pub bool_eq : Bool → Bool → Bool
bool_eq true b = b
bool_eq false b = not b

-- The values for the backup, in the order of the loop.
unfoldable pub values_of : (Key → Value) → List Change → List (Bytes × Bytes) → List (Bytes × Bytes)
values_of before [] m = m
values_of before (c ∷ cs) m =
    values_of before cs
      (if (before c.key).present then insert (key_string c.key) ((before c.key).text) m else m)

-- A section that exists is neither deleted nor given another type.
abbrev section_ok : Value → Change → Bool
section_ok v c = not (is_section c.key && (v.present && (c.delete || not (bytes_eq c.text v.text))))

abbrev sections_ok : (Key → Value) → List Change → Bool
sections_ok before [] = true
sections_ok before (c ∷ cs) = section_ok (before c.key) c && sections_ok before cs

abbrev pub planned_backup : Plan → (Key → Value) → Backup
planned_backup p before = record { task_id = p.task_id; values = values_of before p.changes [] }

module _ {S : Store} where
  -- A journal that is left behind.
  unfoldable pub leftover : Option Journal → M S (Unit {0})
  leftover none = pure tt
  leftover (some j) =
      if phase_eq j.phase Phase.committed || phase_eq j.phase Phase.rolled_back
      then clear
      else if phase_eq j.phase Phase.recovery_required
      then throw ErrorCode.recovery_required
      else throw ErrorCode.conflict

  unfoldable pub check_plan : (Bytes → Option (List Bytes)) → Plan → M S (Unit {0})
  check_plan decode p = do
    guard (not (is_empty p.task_id)) ErrorCode.invalid_argument
    guard (not (is_empty p.pkg)) ErrorCode.invalid_argument
    guard (not (is_empty p.changes)) ErrorCode.invalid_argument
    guard (check_writable decode p.changes) ErrorCode.invalid_argument
    guard (are_distinct p.changes) ErrorCode.invalid_argument

module _ (hash : Bytes → Bytes → Bytes) where
  -- The entry that `Begin` records for a change, given the value before.
  unfoldable pub entry_of : Bytes → Value → Change → Entry
  entry_of salt v c = record {
    key = c.key;
    before_hash = if v.present then hash salt v.text else [];
    before_present = v.present;
    after_hash = if c.delete then [] else hash salt c.text;
    after_deleted = c.delete;
    before_list = v.is_list;
    after_list = c.is_list;
  }

  abbrev pub entries_of : Bytes → (Key → Value) → List Change → List Entry
  entries_of salt before [] = []
  entries_of salt before (c ∷ cs) = entry_of salt (before c.key) c ∷ entries_of salt before cs

  -- The test of `Apply` on one change and one entry.
  abbrev pub matches : Bytes → Change → Entry → Bool
  matches salt c e =
      key_eq e.key c.key
      && (bool_eq e.after_deleted c.delete
          && (bool_eq e.after_list c.is_list
              && (c.delete || bytes_eq (hash salt c.text) e.after_hash)))

  abbrev pub match_any : Bytes → Change → List Entry → Bool
  match_any salt c [] = false
  match_any salt c (e ∷ es) = matches salt c e || match_any salt c es

  unfoldable pub match_all : Bytes → List Change → List Entry → Bool
  match_all salt [] es = true
  match_all salt (c ∷ cs) es = match_any salt c es && match_all salt cs es

  abbrev pub planned_journal : Plan → (salt : Bytes) → (now : ℕ) → (Key → Value) → Journal
  planned_journal p salt now before = record {
    version = journal_version;
    task_id = p.task_id;
    phase = Phase.planned;
    pkg = p.pkg;
    config_revision = p.config_revision;
    salt = salt;
    entries = entries_of salt before p.changes;
    started_at = now;
    expires_at = now + p.confirm_within;
  }

  -- The guards of `Apply`, on the journal of the transaction.
  abbrev pub may_apply : Journal → List Change → Bool
  may_apply j cs =
      phase_eq j.phase Phase.backed_up
      && (length cs == length j.entries && (match_all j.salt cs j.entries && are_distinct cs))

  module _ {S : Store} where
    -- From the answer of `Read` on: the record is written, the backup first.
    unfoldable pub record_plan : Plan → (salt : Bytes) → (now : ℕ) → (Key → Value) → M S (Unit {0})
    record_plan p salt now before = do
      guard (sections_ok before p.changes) ErrorCode.conflict
      set_memory (planned_journal p salt now before)
      save_backup (planned_backup p before)
      set_phase Phase.backed_up

    unfoldable pub read_plan : Plan → Bytes → ℕ → M S (Unit {0})
    read_plan p fresh now = do
      pending ← query (λ m. S.pending m.live p.pkg)
      guard (pending == 0) ErrorCode.conflict
      salt ← query (λ m. fresh)
      before ← read p.pkg
      record_plan p salt now before

    unfoldable pub begin : (Bytes → Option (List Bytes)) → Plan → Bytes → ℕ → M S (Unit {0})
    begin decode p fresh now = do
      check_plan decode p
      previous ← load_journal
      leftover previous
      read_plan p fresh now

    -- `Apply`, on the journal of the transaction.
    unfoldable pub apply_with : Journal → List Change → M S (Unit {0})
    apply_with j cs = do
      guard (may_apply j cs) ErrorCode.conflict
      stage cs
      set_phase Phase.applied
      commit j.pkg
      reload

    unfoldable pub apply : List Change → M S (Unit {0})
    apply cs m = apply_with m.memory cs m

module _ {S : Store} where
  unfoldable pub await_with : Journal → M S (Unit {0})
  await_with j = do
    guard (phase_eq j.phase Phase.applied) ErrorCode.conflict
    set_phase Phase.awaiting_confirm

  unfoldable pub await_confirm : M S (Unit {0})
  await_confirm m = await_with m.memory m

  -- `Confirm`, before the record is cleared.
  unfoldable pub confirm_with : Journal → M S (Unit {0})
  confirm_with j = if phase_eq j.phase Phase.committed then pure tt else do
    guard (phase_eq j.phase Phase.applied || phase_eq j.phase Phase.awaiting_confirm)
        ErrorCode.conflict
    set_phase Phase.committed

  unfoldable pub confirm : M S (Unit {0})
  confirm m = (do confirm_with m.memory; clear) m
