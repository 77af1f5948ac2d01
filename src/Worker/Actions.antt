-- ===== src/Worker/Actions.antt =====
-- The attempts that serve an action, and the traces that belong to one.
pub mod Preparation
pub mod Own
pub mod Runs
use smart_srun.Prelude.{◌≡◌, Bool, true, false, Option, some, List, [], ◌∷◌, ◌⊎◌, inl, inr}
use smart_srun.Domain.Config.{CampusAccount, campus_account_by_id}
use smart_srun.Configuration.Defaults.{effective_username}
use smart_srun.Worker.World.{World, Tools, Event, Request}
use smart_srun.Worker.Attempt.{Task, Attempt, intent_of}
use smart_srun.Worker.Evidence.{ends_only_own}

-- No logout stands in a trace.
unfoldable pub ends_nobody : List Event → Bool
ends_nobody [] = true
ends_nobody (Event.sent (Request.logout_request _) _ ∷ es) = false
ends_nobody (_ ∷ es) = ends_nobody es

-- The settings give the account under the action's id, in some state of the worker's surroundings.
abbrev pub IsConfigured : World → Task → CampusAccount → Type 0
IsConfigured W t a =
    (s : W.State) × (campus_account_by_id (W.config s).campus_accounts t.account_id ≡ some a)

-- An attempt serves an action: its account is the one that the settings give under the action's id, its
-- name is the one that this account resolves to, and it may do what the action's kind may.
pub record Serves (W : World) (t : Task) (p : Attempt) : Type 0 where
  pub configured : IsConfigured W t p.account
  pub username : p.username ≡ effective_username p.account
  pub intent : p.intent ≡ intent_of t.kind

-- A trace has no logout, or an attempt that serves the action may make each of them at the point where
-- it stands.
abbrev pub EndsOwn : World → Tools → Task → List Event → Type 0
EndsOwn W tools t es =
    (ends_nobody es ≡ true) ⊎ ((p : Attempt) × (Serves W t p × (ends_only_own tools p es ≡ true)))
