-- ===== src/Examples/Decisions.antt =====
-- The scheduling decisions at concrete inputs.
use smart_srun.Prelude.{
  ◌≡◌, refl, true, false, not, ◌&&◌, ◌||◌, List, [], ◌∷◌, codes, arith, bytes_eq, filter,
}
use smart_srun.Domain.Config.{CampusAccount, Config, empty_account, empty_config}
use smart_srun.Domain.Enums.{AccessMode}
use smart_srun.Policy.Backoff.{Backoff}
use smart_srun.Policy.Managed.{Target, forced_logout_targets, pending, succeeded, new_sweep}
use smart_srun.Policy.Managed.Targets.{times, times-forced_logout_targets}
use smart_srun.Policy.Managed.Progress.{pending-succeeded, pending-other_occurrence}
use smart_srun.Policy.Pause.{
  PauseReason, has, derive, with_reason, without_reason, allows_manual, primary,
}
use smart_srun.Policy.Pause.Derived.{
  is_frozen, is_unknown, same_reason, has-derive, has-with_reason, allows_manual-primary,
}

-- 1 + 16: quiet hours and a service stop.
has-derive_example : has (derive 17 false false) PauseReason.quiet_hours ≡ false
has-derive_example = has-derive 17 false false PauseReason.quiet_hours (omega arith)

has-with_reason_test :
    (has (with_reason 1 PauseReason.manual_pause) PauseReason.quiet_hours ≡ (
      same_reason PauseReason.manual_pause PauseReason.quiet_hours
        && not (is_unknown PauseReason.manual_pause)
      || has 1 PauseReason.quiet_hours))
    × (has (without_reason 1 PauseReason.manual_pause) PauseReason.quiet_hours ≡ (
        not (same_reason PauseReason.manual_pause PauseReason.quiet_hours)
        && has 1 PauseReason.quiet_hours))
has-with_reason_test =
    has-with_reason 1 PauseReason.manual_pause PauseReason.quiet_hours (omega arith)

allows_manual-primary_example : allows_manual 9 ≡ not (is_frozen (primary 9))
allows_manual-primary_example = allows_manual-primary 9 (omega arith)

abbrev slow : Backoff
slow = record { base = 10; cap = 600 }

abbrev alice : CampusAccount
alice = record empty_account {
  id = codes "alice";
  access_mode = AccessMode.wired;
  wired_iface = codes "wan";
  auth_enabled = true;
}

abbrev bob : CampusAccount
bob = record empty_account {
  id = codes "bob";
  access_mode = AccessMode.wifi;
  wired_iface = [];
  auth_enabled = true;
}

abbrev two_accounts : Config
two_accounts = record empty_config {
  multi_wan_enabled = true;
  campus_accounts = alice ∷ bob ∷ [];
  selection = record empty_config.selection { active_campus_id = codes "bob" };
}

times-forced_logout_targets_example : times (codes "bob") (forced_logout_targets two_accounts) ≡ 1
unfolding bytes_eq
times-forced_logout_targets_example =
    times-forced_logout_targets two_accounts (codes "bob") refl (omega arith)

abbrev both : List Target
both = forced_logout_targets two_accounts

pending-succeeded_test :
    (pending (succeeded new_sweep (codes "mon") (codes "bob")) (codes "mon") both).1
    ≡ filter
        (λ t. not (bytes_eq (codes "bob") t.account_id))
        (pending new_sweep (codes "mon") both).1
pending-succeeded_test = pending-succeeded new_sweep (codes "mon") (codes "bob") both

pending-other_occurrence_test :
    (pending (succeeded new_sweep (codes "mon") (codes "bob")) (codes "tue") both).1 ≡ both
unfolding bytes_eq
pending-other_occurrence_test =
    pending-other_occurrence new_sweep (codes "mon") (codes "tue") (codes "bob") both refl
