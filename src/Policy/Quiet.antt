-- ===== src/Policy/Quiet.antt =====
-- core/internal/policy/quiet.go.
pub mod Permits
use smart_srun.Prelude.{ℕ, Bool, true, false, not, Option, none, some, leb, is_some, if◌then◌else◌}
use smart_srun.Domain.Config.{QuietConfig, window}
use smart_srun.Domain.QuietWindow.{occurrence_id, next_boundary}
use smart_srun.Policy.Priority.{Priority, rank}

-- `QuietState`: `HasNext` is whether there is a next instant.
pub record QuietState : Type 0 where
  pub active : Bool
  pub occurrence : Option ℕ
  pub force_logout : Bool
  pub next : Option ℕ

abbrev pub no_quiet : QuietState
no_quiet = record { active = false; occurrence = none; force_logout = false; next = none }

-- `EvaluateQuiet`.
unfoldable pub evaluate_quiet : QuietConfig → ℕ → QuietState
evaluate_quiet q at = if not q.enabled then no_quiet else (record {
  active = is_some (occurrence_id (window q) at);
  occurrence = occurrence_id (window q) at;
  force_logout = if is_some (occurrence_id (window q) at) then q.force_logout else false;
  next = next_boundary (window q) at;
})

-- `QuietPermits`.
unfoldable pub quiet_permits : QuietState → Priority → Bool → Bool
quiet_permits s p override =
    if not s.active
    then true
    else if override
    then true
    else leb (rank Priority.user_action) (rank p)
