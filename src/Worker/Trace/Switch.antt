-- ===== src/Worker/Trace/Switch.antt =====
-- The parts of a worker that move the uplink send nothing but the requests of a login or a logout.
use smart_srun.Prelude.{Option, none, some, Bytes}
use smart_srun.Domain.Binding.{Binding, Connectivity}
use smart_srun.Domain.Config.{Config, CampusAccount, HotspotProfile}
use smart_srun.Domain.Errors.{ErrorCode}
use smart_srun.Observe.View.{Observation}
use smart_srun.Auth.Answer.{Reply}
use smart_srun.Worker.World.{World, Tools, Report}
use smart_srun.Worker.Trace.{adds}
use smart_srun.Worker.Trace.Quiet.{Quiet, observe_line-Quiet}
use smart_srun.Worker.Trace.Radio.{move_to-Quiet, fail_back-Quiet}
use smart_srun.Worker.Attempt.{Verdict}
use smart_srun.Worker.Switch.{
  leave_wireless, leave_for, still_on, probe_hotspot, check_binding, check_hotspot, judge_hotspot,
  switch_to, switch_hotspot, observe_account, publish_move,
}

module _ (W : World) (tools : Tools) where
  leave_wireless-Quiet : (a : CampusAccount) (v : Verdict) → Quiet (leave_wireless W tools a v)
  unfolding leave_wireless
  leave_wireless-Quiet a v = search (adds, observe_line-Quiet) depth 30

  pub leave_for-Quiet : (v : Verdict) (o : Option CampusAccount) → Quiet (leave_for W tools v o)
  leave_for-Quiet v none = search adds
  leave_for-Quiet v (some a) = search (adds, leave_wireless-Quiet)

  still_on-Quiet :
      (h : HotspotProfile) (r : Report × Option (Option ErrorCode)) → Quiet (still_on W tools h r)
  unfolding still_on
  still_on-Quiet h r = search adds depth 30

  probe_hotspot-Quiet :
      (c : Config) (h : HotspotProfile) (b : Binding) (line : W.Line)
      → Quiet (probe_hotspot W tools c h b line)
  unfolding probe_hotspot
  probe_hotspot-Quiet c h b line = search (adds, still_on-Quiet) depth 30

  check_binding-Quiet :
      (c : Config) (h : HotspotProfile) (r : Binding × Option (Option ErrorCode))
      → Quiet (check_binding W tools c h r)
  check_binding-Quiet c h (b, none) = search (adds, probe_hotspot-Quiet) depth 30
  check_binding-Quiet c h (b, some e) = search adds

  check_hotspot-Quiet : (c : Config) (h : HotspotProfile) → Quiet (check_hotspot W tools c h)
  unfolding check_hotspot
  check_hotspot-Quiet c h = search (adds, observe_line-Quiet, check_binding-Quiet) depth 30

  judge_hotspot-Quiet : (c : Config) (level : Connectivity) → Quiet (judge_hotspot W tools c level)
  unfolding judge_hotspot
  judge_hotspot-Quiet c level = search (adds, fail_back-Quiet)

  switch_to-Quiet : (c : Config) (o : Option HotspotProfile) → Quiet (switch_to W tools c o)
  switch_to-Quiet c none = search adds
  switch_to-Quiet c (some h) =
      search (adds, move_to-Quiet, fail_back-Quiet, check_hotspot-Quiet, judge_hotspot-Quiet) depth
        30

  pub switch_hotspot-Quiet : (id : Bytes) → Quiet (switch_hotspot W tools id)
  unfolding switch_hotspot
  switch_hotspot-Quiet id = search (adds, switch_to-Quiet)

  observe_account-Quiet :
      (r : Reply Bytes) (a : CampusAccount) → Quiet (observe_account W tools r a)
  observe_account-Quiet (Reply.ok iface) a = observe_line-Quiet _ _
  observe_account-Quiet (Reply.err e) a = search adds

  pub publish_move-Quiet :
      (c : Config) (a : CampusAccount) (o : Option Observation) (v : Verdict)
      → Quiet (publish_move W tools c a o v)
  unfolding publish_move
  publish_move-Quiet c a none v = search adds
  publish_move-Quiet c a (some o) v = search (adds, observe_account-Quiet) depth 30
