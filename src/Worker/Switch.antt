-- ===== src/Worker/Switch.antt =====
-- core/internal/application/switch.go, hotspot_connectivity.go, quiet_switch.go and manual_logout.go: the
-- actions that move the uplink.
use smart_srun.Prelude.{
  Bool, true, false, not, ◌&&◌, ◌||◌, Option, none, some, [], ◌++◌, ◌==◌, if◌then◌else◌, is_empty,
  is_some, Bytes, bytes_eq, codes,
}
use smart_srun.Prelude.Maps.{lookup}
use smart_srun.Domain.Binding.{Binding, AuthState, Connectivity, LinkState, is_ready, stamped}
use smart_srun.Domain.Config.{
  Config, CampusAccount, HotspotProfile, campus_account_by_id, hotspot_by_id, is_wired,
  empty_account,
}
use smart_srun.Domain.Errors.{ErrorCode}
use smart_srun.Observe.View.{Observation}
use smart_srun.Application.Action.{State, Phase}
use smart_srun.Auth.Answer.{Reply}
use smart_srun.Worker.World.{
  World, M, Tools, Report, pure, ◌>>=◌, ◌>>◌, checked, when, view, kept, call, report, resolve,
  leave, associated,
}
use smart_srun.Worker.Line.{same_line, line_interface, observe_line}
use smart_srun.Worker.Attempt.{Task, Verdict, failure, done_with, addr_string}
use smart_srun.Worker.Radio.{hotspot_target, hotspot_destination, satisfies, move_to, fail_back}
use smart_srun.Worker.Confirm.{is_internet, forget}
use smart_srun.Worker.Session.{authenticate, log_out}

abbrev pub has_succeeded : Verdict → Bool
has_succeeded v = elim v.state [ State.succeeded ↦ true | _ ↦ false ]

-- A change of the observation, where there is one.
abbrev pub observed_as : (Observation → Observation) → Verdict → Verdict
observed_as f v = elim v.observation [ none ↦ v | some o ↦ record v { observation = some (f o) } ]

-- What `switchCampus` writes where the wired line moved: the link is missing, or has a new generation.
abbrev pub uprooted : Binding × Option (Option ErrorCode) → Observation → Observation
uprooted (now, some _) o = record o {
  auth = AuthState.unknown;
  connectivity = Connectivity.unknown;
  link = LinkState.missing;
}
uprooted (now, none) o = record o {
  auth = AuthState.unknown;
  connectivity = Connectivity.unknown;
  generation = now.generation;
}

-- `before`, where an account that was not seen has the zero binding.
abbrev pub or_zero : Option Binding → Binding
or_zero none = stamped 0
or_zero (some b) = b

abbrev pub is_still : Binding → Binding × Option (Option ErrorCode) → Bool
is_still before (now, some _) = false
is_still before (now, none) = same_line before now

abbrev pub after_retire : Reply (Unit {0}) → Verdict → Verdict
after_retire (Reply.ok _) v = v
after_retire (Reply.err _) v = record v {
  state = State.failed;
  code = some ErrorCode.recovery_required;
}

-- The end of `switchCampus`.
unfoldable pub after_move : Binding → Binding × Option (Option ErrorCode) → Verdict → Verdict
after_move before now v =
    if is_still before now
    then v
    else observed_as (uprooted now)
        (record v { state = State.failed; code = some ErrorCode.binding_changed })

-- What `manualLogout` writes over the observation, once the uplink was moved.
unfoldable pub relocated :
    CampusAccount → Binding × Option (Option ErrorCode) → Observation → Observation
relocated a (current, some _) o = record (forget o) {
  link = LinkState.missing;
  line = record o.line { device = []; address = [] };
}
relocated a (current, none) o =
    if is_wired a && current.generation == o.generation then o else record (forget o) {
      generation = current.generation;
      line = record o.line {
        device = current.l3_device;
        address = addr_string current.source_ipv4;
      };
    }

module _ (W : World) (tools : Tools) where
  -- The end of `switchCampus`, for a wired account.
  unfoldable pub leave_wireless : CampusAccount → Verdict → M W Verdict
  leave_wireless a v = do
    before ← kept (λ w. lookup a.id w.seen)
    report Phase.retire
    retired ← leave
    now ← observe_line a.id a.wired_iface
    pure (after_move (or_zero before) now (after_retire retired v))

  abbrev pub leave_for : Verdict → Option CampusAccount → M W Verdict
  leave_for v none = pure v
  leave_for v (some a) = when (is_wired a) (leave_wireless a v) (pure v)

  -- `switchCampus`.
  unfoldable pub switch_campus : Task → M W Verdict
  switch_campus t =
      when (not tools.has_wireless) (pure (failure (some ErrorCode.unsupported_capability))) (do
        v ← authenticate W tools t
        c ← view W.config
        when (not (has_succeeded v)) (pure v)
            (leave_for v (campus_account_by_id c.campus_accounts t.account_id)))

  abbrev pub hotspot_key : HotspotProfile → Bytes
  hotspot_key h = codes "hotspot:" ++ h.id

  -- `checkHotspot`, from the probe on: the radio is still on the hotspot.
  unfoldable pub still_on :
      HotspotProfile → Report × Option (Option ErrorCode) → M W (Reply Connectivity)
  still_on h probed =
      checked (associated h.radio) (λ e. pure (Reply.err e))
        (λ seen. pure (
          if not (satisfies tools (hotspot_target tools h) seen)
          then Reply.err (some ErrorCode.binding_changed)
          else elim probed.1 [ none ↦ Reply.ok probed.0.level | some e ↦ Reply.err e ]))

  -- `checkHotspot`, over a line.
  unfoldable pub probe_hotspot :
      Config → HotspotProfile → Binding → W.Line → M W (Reply Connectivity)
  probe_hotspot c h binding line = do
    probed ← call (λ s. W.probe s (some line))
    checked (resolve c.sta_iface binding.generation) (λ e. pure (Reply.err e))
        (λ now.
          when (same_line binding now) (still_on h probed)
            (pure (Reply.err (some ErrorCode.binding_changed))))

  abbrev pub check_binding :
      Config → HotspotProfile → Binding × Option (Option ErrorCode) → M W (Reply Connectivity)
  check_binding c h (b, some e) = pure (Reply.err e)
  check_binding c h (b, none) =
      when (not (is_ready b)) (pure (Reply.err (some ErrorCode.binding_unavailable))) (
        checked (call (λ s. W.line s (hotspot_key h) b (codes "hotspot-connectivity")))
          (λ e. pure (Reply.err e)) (probe_hotspot c h b))

  -- `checkHotspot`.
  unfoldable pub check_hotspot : Config → HotspotProfile → M W (Reply Connectivity)
  check_hotspot c h =
      when (is_empty c.sta_iface) (pure (Reply.err (some ErrorCode.binding_unavailable)))
        (observe_line (hotspot_key h) c.sta_iface >>= check_binding c h)

  -- The end of `switchHotspot`.
  unfoldable pub judge_hotspot : Config → Connectivity → M W Verdict
  judge_hotspot c level =
      when (not (is_internet level) && c.failover.hotspot_failback_enabled)
        (fail_back W tools c (some ErrorCode.transport_failure)) (pure done_with)

  abbrev pub switch_to : Config → Option HotspotProfile → M W Verdict
  switch_to c none = pure (failure (some ErrorCode.not_found))
  switch_to c (some h) =
      checked (pure (hotspot_destination tools h)) (λ e. pure (failure e))
        (λ d.
          when (not tools.has_wireless) (pure (failure (some ErrorCode.unsupported_capability))) (
            checked (move_to W tools d) (fail_back W tools c) (λ _. do
              report Phase.verify
              checked (check_hotspot c h) (fail_back W tools c) (judge_hotspot c))))

  -- `switchHotspot`.
  unfoldable pub switch_hotspot : Bytes → M W Verdict
  switch_hotspot id = do c ← view W.config; switch_to c (hotspot_by_id c.hotspot_profiles id)

  -- The hotspot that `manualLogout` goes to.
  abbrev pub next_hotspot : Config → Bytes
  next_hotspot c =
      if is_empty c.selection.active_hotspot_id
      then c.selection.default_hotspot_id
      else c.selection.active_hotspot_id

  abbrev pub observe_account :
      Reply Bytes → CampusAccount → M W (Binding × Option (Option ErrorCode))
  observe_account (Reply.ok iface) a = observe_line a.id iface
  observe_account (Reply.err e) a = pure (stamped 0, some e)

  abbrev pub or_empty : Option CampusAccount → CampusAccount
  or_empty none = empty_account
  or_empty (some a) = a

  -- The end of `manualLogout`: the observation of the logout, on the line as it is now.
  unfoldable pub publish_move : Config → CampusAccount → Option Observation → Verdict → M W Verdict
  publish_move c a none switched = pure (record switched { observation = none })
  publish_move c a (some o) switched = do
    now ← observe_account (line_interface c a) a
    pure (record switched { observation = some (relocated a now o) })

  -- `manualLogout`.
  unfoldable pub manual_logout : Task → M W Verdict
  manual_logout t = do
    c ← view W.config
    v ← log_out W tools t
    when
        (not (has_succeeded v)
          || (not c.failover.enabled || not (bytes_eq c.selection.active_campus_id t.account_id)))
        (pure v)
        (when (not (is_some (hotspot_by_id c.hotspot_profiles (next_hotspot c)))) (pure v) (do
          switched ← switch_hotspot (next_hotspot c)
          publish_move c (or_empty (campus_account_by_id c.campus_accounts t.account_id))
              v.observation switched))
