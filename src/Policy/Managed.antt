-- ===== src/Policy/Managed.antt =====
-- core/internal/policy/managed.go: the accounts that the loop maintains, those that a quiet window logs
-- out, and the record of what one window has done.
pub mod Targets
pub mod Progress
use smart_srun.Prelude.{
  Bool, true, false, not, ◌&&◌, ◌||◌, Option, none, some, List, [], ◌∷◌, ◌++◌, map, any,
  if◌then◌else◌, Bytes, bytes_eq, is_empty, filter,
}
use smart_srun.Prelude.Maps.{lookup, insert}
use smart_srun.Domain.Config.{
  CampusAccount, Config, is_wired, campus_account_by_id, managed_wired_accounts,
}

pub record Target : Type 0 where
  pub account_id : Bytes
  pub line : Bytes
  pub wireless : Bool
  pub managed : Bool
  pub active : Bool

abbrev pub managed_target : Bytes → CampusAccount → Target
managed_target active_id a = record {
  account_id = a.id;
  line = a.wired_iface;
  wireless = false;
  managed = true;
  active = bytes_eq a.id active_id;
}

-- `Managed`.
pub managed : Config → List Target
unfolding managed_wired_accounts
managed c = map (managed_target c.selection.active_campus_id) (managed_wired_accounts c)

-- The target that is appended for the active account.
abbrev pub active_target : CampusAccount → Target
active_target a = record {
  account_id = a.id;
  line = if is_wired a then a.wired_iface else [];
  wireless = not (is_wired a);
  managed = false;
  active = true;
}

abbrev append_active : List Target → Option CampusAccount → List Target
append_active targets none = targets
append_active targets (some a) = targets ++ active_target a ∷ []

pub forced_logout_targets : Config → List Target
unfolding managed campus_account_by_id
forced_logout_targets c =
    if is_empty c.selection.active_campus_id
    then managed c
    else if any (λ t. bytes_eq t.account_id c.selection.active_campus_id) (managed c)
    then managed c
    else append_active (managed c)
        (campus_account_by_id c.campus_accounts c.selection.active_campus_id)

-- The map of what is done holds a key exactly if the account succeeded.
pub record Sweep : Type 0 where
  pub occurrence : Bytes
  pub done : List (Bytes × Bool)

-- The zero value.
abbrev pub new_sweep : Sweep
new_sweep = record { occurrence = []; done = [] }

abbrev or_false : Option Bool → Bool
or_false none = false
or_false (some b) = b

abbrev pub is_done : Sweep → Bytes → Bool
is_done s id = or_false (lookup id s.done)

-- The reset when the occurrence is another one.
pub at_occurrence : Sweep → Bytes → Sweep
at_occurrence s occurrence =
    if bytes_eq s.occurrence occurrence then s else record { occurrence = occurrence; done = [] }

pub pending : Sweep → Bytes → List Target → Sweep × List Target
unfolding at_occurrence lookup
pending s occurrence targets =
    let now = at_occurrence s occurrence in
    (now, filter (λ t. not (is_done now t.account_id)) targets)

pub succeeded : Sweep → Bytes → Bytes → Sweep
unfolding at_occurrence insert
succeeded s occurrence account_id =
    let now = at_occurrence s occurrence in record now { done = insert account_id true now.done }
