-- ===== src/Worker/Trace/Quiet.antt =====
-- The parts of a worker that send nothing.
use smart_srun.Prelude.{ℕ, Option, none, some, Bytes}
use smart_srun.Domain.Binding.{Binding}
use smart_srun.Domain.Config.{Config, CampusAccount}
use smart_srun.Domain.Enums.{CheckMode}
use smart_srun.Domain.Errors.{ErrorCode}
use smart_srun.Worker.World.{World, M, Tools, Gateway, Report}
use smart_srun.Worker.Trace.{is_plain, OnlyAdds, adds}
use smart_srun.Worker.Line.{
  invalidate_line, next_generation, remember, stamp_of, settle, observe_line, compare_line,
  confirm_unchanged,
}
use smart_srun.Worker.Attempt.{Task, Attempt, Verdict, link_failure}
use smart_srun.Worker.Prepare.{open_line, bind_line, prepare_account, prepare_found, prepare}
use smart_srun.Worker.Confirm.{
  ask_system, judge_probe, check_internet, check_mode, check_radio, verify_connectivity,
}

module _ {W : World} where
  -- A part that sends nothing.
  abbrev pub Quiet : {A : Type 0} → M W A → Type 0
  Quiet c = OnlyAdds is_plain c

  pub invalidate_line-Quiet :
      (account_id : Bytes) (generation : ℕ) → Quiet (invalidate_line account_id generation)
  unfolding invalidate_line
  invalidate_line-Quiet account_id generation = search adds depth 30

  pub next_generation-Quiet : Quiet next_generation
  unfolding next_generation
  next_generation-Quiet = search adds depth 30

  remember-Quiet : (account_id : Bytes) (b : Binding) → Quiet (remember account_id b)
  unfolding remember
  remember-Quiet account_id b = search adds depth 30

  stamp_of-Quiet : (o : Option Binding) → Quiet (stamp_of o)
  unfolding stamp_of
  stamp_of-Quiet none = next_generation-Quiet
  stamp_of-Quiet (some b) = search adds

  settle-Quiet : (o : Option Binding) (stamp : ℕ) (b : Binding) → Quiet (settle o stamp b)
  unfolding settle
  settle-Quiet none stamp b = search adds
  settle-Quiet (some before) stamp b = search (adds, next_generation-Quiet)

  pub observe_line-Quiet : (account_id iface : Bytes) → Quiet (observe_line account_id iface)
  unfolding observe_line
  observe_line-Quiet account_id iface =
      search (adds, stamp_of-Quiet, settle-Quiet, remember-Quiet, invalidate_line-Quiet) depth 30

  compare_line-Quiet :
      (account_id : Bytes) (b : Binding) (iface : Bytes) → Quiet (compare_line account_id b iface)
  unfolding compare_line
  compare_line-Quiet account_id b iface = search (adds, invalidate_line-Quiet) depth 30

  pub confirm_unchanged-Quiet :
      (account : CampusAccount) (b : Binding) → Quiet (confirm_unchanged account b)
  unfolding confirm_unchanged
  confirm_unchanged-Quiet account b = search (adds, compare_line-Quiet) depth 30

  link_failure-Quiet :
      (p : Attempt) (iface : Bytes) (e : Option ErrorCode) → Quiet (link_failure p iface e)
  unfolding link_failure
  link_failure-Quiet p iface e = search adds depth 30

module _ (W : World) (tools : Tools) where
  open_line-Quiet : (p : Attempt) → Quiet (open_line W tools p)
  unfolding open_line
  open_line-Quiet p = search adds depth 30

  bind_line-Quiet :
      (p : Attempt) (iface : Bytes) (r : Binding × Option (Option ErrorCode))
      → Quiet (bind_line W tools p iface r)
  unfolding bind_line
  bind_line-Quiet p iface (b, some e) = search (adds, link_failure-Quiet)
  bind_line-Quiet p iface (b, none) = open_line-Quiet _

  prepare_account-Quiet : (c : Config) (p : Attempt) → Quiet (prepare_account W tools c p)
  unfolding prepare_account
  prepare_account-Quiet c p =
      search (adds, link_failure-Quiet, observe_line-Quiet, bind_line-Quiet) depth 30

  prepare_found-Quiet :
      (c : Config) (revision : ℕ) (t : Task) (o : Option CampusAccount)
      → Quiet (prepare_found W tools c revision t o)
  prepare_found-Quiet c revision t none = search adds
  prepare_found-Quiet c revision t (some a) = prepare_account-Quiet c _

  pub prepare-Quiet : (t : Task) → Quiet (prepare W tools t)
  unfolding prepare
  prepare-Quiet t = search (adds, prepare_found-Quiet) depth 30

module _ (W : World) (tools : Tools) (p : Attempt) (line : W.Line) (g : Gateway) where
  ask_system-Quiet : (r : Report) (o : Option Bytes) → Quiet (ask_system W tools p line g r o)
  unfolding ask_system
  ask_system-Quiet r none = search adds depth 30
  ask_system-Quiet r (some e) = search adds

  judge_probe-Quiet :
      (r : Report × Option (Option ErrorCode)) → Quiet (judge_probe W tools p line g r)
  unfolding judge_probe
  judge_probe-Quiet (r, some e) = search adds
  judge_probe-Quiet (r, none) = search (adds, ask_system-Quiet)

  check_mode-Quiet : (m : CheckMode) → Quiet (check_mode W tools p line g m)
  unfolding check_mode check_internet
  check_mode-Quiet CheckMode.internet = search (adds, judge_probe-Quiet)
  check_mode-Quiet CheckMode.portal = search adds
  check_mode-Quiet CheckMode.ssid = search adds
  check_mode-Quiet CheckMode.unknown = search adds

  check_radio-Quiet : (v : Verdict) → Quiet (check_radio W tools p line g v)
  unfolding check_radio
  check_radio-Quiet v = search adds depth 30

  pub verify_connectivity-Quiet :
      (identity : Bytes) → Quiet (verify_connectivity W tools p line g identity)
  unfolding verify_connectivity
  verify_connectivity-Quiet identity =
      search (adds, check_mode-Quiet, check_radio-Quiet, confirm_unchanged-Quiet) depth 30
