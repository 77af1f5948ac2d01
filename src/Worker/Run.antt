-- ===== src/Worker/Run.antt =====
-- core/internal/application/authworker.go and quiet_switch.go: the dispatch of an action.
use smart_srun.Prelude.{
  ℕ, Bool, true, false, not, ◌&&◌, ◌||◌, Option, none, some, [], if◌then◌else◌, is_some, bytes_eq,
}
use smart_srun.Domain.Config.{
  Config, CampusAccount, HotspotProfile, campus_account_by_id, hotspot_by_id,
}
use smart_srun.Domain.Errors.{ErrorCode}
use smart_srun.Policy.Quiet.{evaluate_quiet}
use smart_srun.Application.Action.{Kind}
use smart_srun.Worker.World.{World, M, Tools, pure, ◌>>=◌, checked, when, view, associated}
use smart_srun.Worker.Attempt.{Task, Verdict, failure, done_with}
use smart_srun.Worker.Radio.{hotspot_destination, satisfied, defer_on_hotspot}
use smart_srun.Worker.Session.{authenticate, log_out}
use smart_srun.Worker.Switch.{switch_campus, switch_hotspot, manual_logout}

-- `quietSwitchDeferred`.
abbrev pub deferred : Verdict
deferred = record done_with { maintenance_deferred = true }

-- The kinds that the guard at the head of `Run` reads.
abbrev pub is_guarded : Kind → Bool
is_guarded Kind.login = true
is_guarded Kind.relogin = true
is_guarded Kind.maintain = true
is_guarded Kind.switch_campus = true
is_guarded _ = false

-- The guard at the head of `Run`: the verdict that ends the action, or none.
unfoldable pub guard : Config → ℕ → Task → Option Verdict
guard c now t =
    if not (is_guarded t.kind)
    then none
    else if not (is_some (campus_account_by_id c.campus_accounts t.account_id))
    then some (failure (some ErrorCode.not_found))
    else if not t.ignore_quiet && (evaluate_quiet c.quiet now).active
    then some (failure (some ErrorCode.busy))
    else none

module _ (W : World) (tools : Tools) where
  -- `quietSwitch`, where the quiet hours begin on a hotspot already.
  unfoldable pub stay : HotspotProfile → Verdict → M W Verdict
  stay h v = when (not v.maintenance_deferred) (pure v) (
      checked (associated h.radio) (λ e. pure (failure e))
        (λ seen.
          checked (pure (hotspot_destination tools h)) (λ e. pure (failure e))
            (λ d. pure (if satisfied tools d seen then done_with else deferred))))

  abbrev pub stay_or_go : Task → HotspotProfile → Option Verdict → M W Verdict
  stay_or_go t h none = switch_hotspot W tools t.hotspot_id
  stay_or_go t h (some v) = stay h v

  -- `quietSwitch`, at the end of the quiet hours.
  unfoldable pub return_to_campus : Task → HotspotProfile → M W Verdict
  return_to_campus t h =
      checked (associated h.radio) (λ e. pure (failure e))
        (λ seen.
          checked (pure (hotspot_destination tools h)) (λ e. pure (failure e))
            (λ d. when (satisfied tools d seen) (switch_campus W tools t) (pure deferred)))

  abbrev pub quiet_between :
      Config → Task → Bool → Option CampusAccount → Option HotspotProfile → M W Verdict
  quiet_between c t entering (some a) (some h) =
      when (not (bytes_eq c.selection.active_campus_id a.id)) (pure deferred) (
        when (not tools.has_wireless) (pure (failure (some ErrorCode.unsupported_capability))) (
          when entering (defer_on_hotspot W tools a [] c.hotspot_profiles >>= stay_or_go t h)
            (return_to_campus t h)))
  quiet_between c t entering _ _ = pure deferred

  abbrev pub same_bool : Bool → Bool → Bool
  same_bool a b = if a then b else not b

  -- `quietSwitch`.
  unfoldable pub quiet_switch : Task → Bool → M W Verdict
  quiet_switch t entering = do
    c ← view W.config
    now ← view W.now
    when
        (not c.enabled
          || (not c.failover.enabled
              || not (same_bool (evaluate_quiet c.quiet now).active entering)))
        (pure deferred)
        (quiet_between c t entering (campus_account_by_id c.campus_accounts t.account_id)
          (hotspot_by_id c.hotspot_profiles t.hotspot_id))

  -- The forced logout of `Run`.
  unfoldable pub forced_logout : Task → M W Verdict
  forced_logout t = do
    c ← view W.config
    now ← view W.now
    let quiet = evaluate_quiet c.quiet now
    when (not c.enabled || (not quiet.active || not quiet.force_logout)) (pure deferred)
        (log_out W tools t)

  -- The switch of `Run`.
  unfoldable pub dispatch : Task → Kind → M W Verdict
  dispatch t Kind.quiet_hotspot = quiet_switch t true
  dispatch t Kind.quiet_campus = quiet_switch t false
  dispatch t Kind.login = authenticate W tools t
  dispatch t Kind.relogin = authenticate W tools t
  dispatch t Kind.maintain = authenticate W tools t
  dispatch t Kind.switch_campus = switch_campus W tools t
  dispatch t Kind.forced_logout = forced_logout t
  dispatch t Kind.logout = manual_logout W tools t
  dispatch t Kind.switch_hotspot = switch_hotspot W tools t.hotspot_id
  dispatch t _ = pure (failure (some ErrorCode.unsupported_capability))

  abbrev pub unless_guarded : Option Verdict → M W Verdict → M W Verdict
  unless_guarded (some v) go = pure v
  unless_guarded none go = go

  -- `Run`.
  unfoldable pub run : Task → M W Verdict
  run t = do c ← view W.config; now ← view W.now; unless_guarded (guard c now t) (dispatch t t.kind)
