-- ===== src/Wireless/Journal.antt =====
-- core/internal/wireless/journal.go: phases, keys, entries and the two documents on the disk. The
-- salted SHA-256 of `Hash` is a parameter wherever it is used.
use smart_srun.Prelude.{
  ℕ, Bool, true, false, ◌&&◌, List, ◌∷◌, ◌++◌, if◌then◌else◌, Bytes, bytes_eq, is_empty,
}

pub data Phase : Type 0 where
  planned backed_up applied awaiting_confirm committed : Phase
  rolling_back rolled_back recovery_required : Phase

-- `Terminal`.
abbrev pub is_final : Phase → Bool
is_final Phase.committed = true
is_final Phase.rolled_back = true
is_final Phase.recovery_required = true
is_final _ = false

pub record Key : Type 0 where
  pub section : Bytes
  pub option : Bytes

-- `IsSection`.
abbrev pub is_section : Key → Bool
is_section k = is_empty k.option

abbrev pub key_eq : Key → Key → Bool
key_eq a b = bytes_eq a.section b.section && bytes_eq a.option b.option

-- `keyString`.
unfoldable pub key_string : Key → Bytes
key_string k = if is_section k then k.section else k.section ++ (46 ∷ k.option)

pub record Entry : Type 0 where
  pub key : Key
  pub before_hash : Bytes
  pub before_present : Bool
  pub after_hash : Bytes
  pub after_deleted : Bool
  pub before_list : Bool
  pub after_list : Bool

pub record Journal : Type 0 where
  pub version : ℕ
  pub task_id : Bytes
  pub phase : Phase
  pub pkg : Bytes
  pub config_revision : ℕ
  pub salt : Bytes
  pub entries : List Entry
  pub started_at : ℕ
  pub expires_at : ℕ

abbrev pub journal_version : ℕ
journal_version = 2

-- `Values` is a map from the spelling of a key.
pub record Backup : Type 0 where
  pub task_id : Bytes
  pub values : List (Bytes × Bytes)
