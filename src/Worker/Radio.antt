-- ===== src/Worker/Radio.antt =====
-- core/internal/application/switch.go: the networks that the managed client is moved to, and the move.
use smart_srun.Prelude.{
  ℕ, Bool, true, false, not, ◌&&◌, ◌||◌, Option, none, some, List, [], ◌∷◌, ◌==◌, if◌then◌else◌,
  is_empty, Bytes, bytes_eq,
}
use smart_srun.Prelude.Maps.{lookup, insert}
use smart_srun.Domain.Binding.{AuthState, Connectivity, stamped}
use smart_srun.Domain.Config.{Config, CampusAccount, HotspotProfile, campus_account_by_id, is_wired}
use smart_srun.Domain.Enums.{ApSelection}
use smart_srun.Domain.Errors.{ErrorCode}
use smart_srun.Application.Action.{Kind, State, Phase}
use smart_srun.Auth.Answer.{Reply}
use smart_srun.Wifi.Security.{parse_security}
use smart_srun.Wifi.Select.{
  Candidate, Target, Association, Choice, needs_scan, select, is_joined, is_satisfied,
}
use smart_srun.Worker.World.{
  World, M, Tools, WirelessPlan, pure, ◌>>=◌, ◌>>◌, checked, when, view, kept, call, report, apply,
  associated,
}
use smart_srun.Worker.Line.{generation_of, next_generation, invalidate_line}
use smart_srun.Worker.Attempt.{Task, Verdict, bare, failure, with_observation, observation}
use smart_srun.Worker.Prepare.{attempt_of}

-- `destination`, but for the words that name it.
pub record Destination : Type 0 where
  pub plan : WirelessPlan
  pub want : Target

module _ (tools : Tools) where
  -- The target of a hotspot, in `hotspotDestination` and in `checkHotspot`.
  unfoldable pub hotspot_target : HotspotProfile → Target
  hotspot_target h = record {
    ssid = h.ssid;
    security = parse_security tools.folding.to_lower tools.folding.trim_space h.encryption;
    policy = ApSelection.auto;
    pinned_bssid = [];
  }

  -- `hotspotDestination`.
  unfoldable pub hotspot_destination : HotspotProfile → Reply Destination
  hotspot_destination h =
      if is_empty h.ssid
      then Reply.err (some ErrorCode.invalid_config)
      else Reply.ok (record {
        plan = record {
          radio = h.radio;
          ssid = h.ssid;
          encryption = h.encryption;
          key = h.key;
          bssid = [];
        };
        want = hotspot_target h;
      })

  -- `campusDestination`.
  unfoldable pub campus_destination : CampusAccount → Reply Destination
  campus_destination a =
      if is_wired a
      then Reply.err (some ErrorCode.invalid_argument)
      else if is_empty a.ssid
      then Reply.err (some ErrorCode.invalid_config)
      else Reply.ok (record {
        plan = record {
          radio = a.radio;
          ssid = a.ssid;
          encryption = a.encryption;
          key = a.key;
          bssid = [];
        };
        want = record {
          ssid = a.ssid;
          security = parse_security tools.folding.to_lower tools.folding.trim_space a.encryption;
          policy = a.ap_selection;
          pinned_bssid = a.bssid;
        };
      })

  -- `Target.Satisfied` and `Association.Joined`.
  abbrev pub satisfies : Target → Association → Bool
  satisfies want seen =
      is_satisfied tools.folding.to_lower tools.folding.trim_space tools.folding.equal_fold want
        seen

  abbrev pub satisfied : Destination → Association → Bool
  satisfied d seen = satisfies d.want seen

  abbrev pub joined : Association → Bool
  joined seen =
      is_joined tools.folding.to_lower tools.folding.trim_space tools.folding.equal_fold seen

  -- Whether the radio is there already (`ShouldReselect`); a failed reading says nothing.
  abbrev pub is_there : Destination → Reply Association → Bool
  is_there d (Reply.ok seen) = satisfied d seen
  is_there d (Reply.err _) = false

module _ (W : World) (tools : Tools) where
  -- The end of `moveTo`, with the choice of an access point.
  unfoldable pub apply_choice : Destination → Choice → M W (Reply (Unit {0}))
  apply_choice d (Choice.refused e) = pure (Reply.err (some e))
  -- a sort keeps the length of a list, so this does not happen
  apply_choice d Choice.panics = pure (Reply.err none)
  apply_choice d (Choice.decided c) = apply (record d.plan { bssid = c.bssid })

  -- The scan of `moveTo`, where the target needs one.
  abbrev pub candidates : Destination → M W (Reply (List Candidate))
  candidates d = when (needs_scan d.want) (call (λ s. W.scan s d.plan.radio)) (pure (Reply.ok []))

  -- `moveTo`.
  unfoldable pub move_to : Destination → M W (Reply (Unit {0}))
  move_to d = do
    report Phase.switch
    seen ← associated d.plan.radio
    when (is_there tools d seen) (report Phase.reuse >> pure (Reply.ok tt)) (
        checked (candidates d) (λ e. pure (Reply.err e))
          (λ cs. apply_choice d (
            select tools.folding.to_lower tools.folding.trim_space tools.folding.equal_fold
              tools.sort d.want cs)))

  -- `failBack`, with the account that was active.
  abbrev pub fail_back_to : Option ErrorCode → Option CampusAccount → M W Verdict
  fail_back_to cause none = pure (failure cause)
  fail_back_to cause (some a) =
      checked (pure (campus_destination tools a)) (λ _. pure (failure cause))
        (λ previous.
          checked (move_to previous)
            (λ _. pure (bare State.failed (some ErrorCode.recovery_required)))
            (λ _. pure (failure cause)))

  -- `failBack`.
  unfoldable pub fail_back : Config → Option ErrorCode → M W Verdict
  fail_back c cause =
      when (not c.failover.hotspot_failback_enabled) (pure (failure cause))
        (fail_back_to cause (campus_account_by_id c.campus_accounts c.selection.active_campus_id))

  -- The association of a radio: the one that was read for another hotspot, or a new reading.
  abbrev pub association_of : Bytes → Option Association → M W (Reply Association)
  association_of radio none = associated radio
  association_of radio (some seen) = pure (Reply.ok seen)

  -- Whether the loop of `deferOnHotspot` passes a hotspot over.
  abbrev pub is_skipped : CampusAccount → HotspotProfile → Bool
  is_skipped a h =
      is_empty h.radio || (is_empty h.ssid || (bytes_eq h.radio a.radio && bytes_eq h.ssid a.ssid))

  -- `deferOnHotspot`: the verdict that ends the action, or none. `seen` holds the readings.
  unfoldable pub defer_on_hotspot :
      CampusAccount → List (Bytes × Association) → List HotspotProfile → M W (Option Verdict)
  defer_on_hotspot a seen [] = pure none
  defer_on_hotspot a seen (h ∷ hs) = when (is_skipped a h) (defer_on_hotspot a seen hs) (
      checked (association_of h.radio (lookup h.radio seen)) (λ e. pure (some (failure e)))
        (λ observed.
          when (joined tools observed && bytes_eq observed.ssid h.ssid)
            (pure (
              some
                (record (bare State.failed (some ErrorCode.busy)) { maintenance_deferred = true })))
            (defer_on_hotspot a (insert h.radio observed seen) hs)))

  -- The closure `unconfirmed` of `ensureWirelessLine`.
  unfoldable pub unconfirmed_line :
      Config → ℕ → Task → CampusAccount → ℕ → Verdict → M W (Option Verdict)
  unconfirmed_line c revision t a generation v = do
    invalidate_line a.id generation
    now ← view W.now
    pure (
        some (
          with_observation v (
            observation (record (attempt_of c revision t a) { binding = stamped generation }) now
              AuthState.unknown Connectivity.unknown [])))

  -- The generation that `ensureWirelessLine` keeps from before the radio moves.
  abbrev pub current_generation : ℕ → M W ℕ
  current_generation g = when (g == 0) next_generation (pure g)

  -- `ensureWirelessLine`, from the generation on.
  unfoldable pub move_campus :
      Config → ℕ → Task → CampusAccount → ℕ → Option Verdict → M W (Option Verdict)
  move_campus c revision t a generation (some v) = unconfirmed_line c revision t a generation v
  move_campus c revision t a generation none =
      checked (pure (campus_destination tools a))
        (λ e. unconfirmed_line c revision t a generation (failure e))
        (λ d.
          checked (move_to d) (λ e. unconfirmed_line c revision t a generation (failure e))
            (λ _. pure none))

  abbrev pub is_maintain : Kind → Bool
  is_maintain Kind.maintain = true
  is_maintain _ = false

  abbrev pub ensure_account : Config → ℕ → Task → Option CampusAccount → M W (Option Verdict)
  ensure_account c revision t none = pure none
  ensure_account c revision t (some a) = when (is_wired a) (pure none) (do
    before ← kept (λ w. lookup a.id w.seen)
    generation ← current_generation (generation_of before)
    deferred ← when (is_maintain t.kind) (defer_on_hotspot a [] c.hotspot_profiles) (pure none)
    move_campus c revision t a generation deferred)

  -- `ensureWirelessLine`: the verdict that ends the action, or none.
  unfoldable pub ensure_wireless_line : Task → M W (Option Verdict)
  ensure_wireless_line t = when (not tools.has_wireless) (pure none) (do
    c ← view W.config
    revision ← view W.revision
    ensure_account c revision t (campus_account_by_id c.campus_accounts t.account_id))
