-- ===== src/Observe/View.antt =====
-- core/internal/observe/store.go: the records. Times are instants.
use smart_srun.Prelude.{ℕ, Option, Bytes}
use smart_srun.Domain.Binding.{LinkState, AuthState, Connectivity}
use smart_srun.Domain.Errors.{ErrorCode}

pub record LineView : Type 0 where
  pub iface : Bytes
  pub device : Bytes
  pub address : Bytes

pub record Observation : Type 0 where
  pub account_id : Bytes
  pub revision : ℕ
  pub generation : ℕ
  pub sequence : ℕ
  pub link : LinkState
  pub auth : AuthState
  pub connectivity : Connectivity
  pub identity : Bytes
  pub line : LineView
  pub at : ℕ

pub data Drop : Type 0 where
  no_drop no_account obsolete_revision obsolete_binding late : Drop

pub record Note : Type 0 where
  pub action_id : Bytes
  pub kind : Bytes
  pub state : Bytes
  pub message : Bytes
  pub code : Option ErrorCode
  pub at : ℕ

pub record AccountView : Type 0 where
  pub account_id : Bytes
  pub link : LinkState
  pub auth : AuthState
  pub connectivity : Connectivity
  pub identity : Bytes
  pub line : LineView
  pub observed_at : ℕ
  pub revision : ℕ
  pub generation : ℕ
  pub sequence : ℕ
  -- the empty string where no action is in flight
  pub running_action : Bytes
  pub note : Option Note
