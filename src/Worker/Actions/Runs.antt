-- ===== src/Worker/Actions/Runs.antt =====
-- Whose sessions a run of the worker ends.
use smart_srun.Prelude.{◌≡◌, Bool, true, false, Option, none, some}
use smart_srun.Domain.Config.{Config, CampusAccount, HotspotProfile}
use smart_srun.Application.Action.{Kind}
use smart_srun.Worker.World.{World, Worker, M, Tools}
use smart_srun.Worker.Rules.{Triple, bind_rule, checked_rule, when_rule}
use smart_srun.Worker.Trace.{adds}
use smart_srun.Worker.Trace.Quiet.{Quiet}
use smart_srun.Worker.Trace.Radio.{defer_on_hotspot-Quiet}
use smart_srun.Worker.Trace.Switch.{leave_for-Quiet, switch_hotspot-Quiet, publish_move-Quiet}
use smart_srun.Worker.Attempt.{Task, Verdict}
use smart_srun.Worker.Switch.{switch_campus, manual_logout}
use smart_srun.Worker.Run.{
  stay, stay_or_go, return_to_campus, quiet_between, quiet_switch, forced_logout, dispatch,
  unless_guarded, run,
}
use smart_srun.Worker.Actions.{ends_nobody, EndsOwn}
use smart_srun.Worker.Actions.Own.{
  Own, Untouched, untouched, Quiet-Own, Quiet-after, authenticate-Own, log_out-Own,
}

module _ (W : World) (tools : Tools) (t : Task) where
  -- Once sessions were ended that are the action's own.
  abbrev After : {A : Type 0} → M W A → Type 0
  After c = Triple (λ w. EndsOwn W tools t w.trace) c (λ _ w. EndsOwn W tools t w.trace)

  after : {A : Type 0} {c : M W A} → Quiet c → After c
  after h = Quiet-after W tools t h

  quietly : {A : Type 0} {c : M W A} → Quiet c → Own W tools t c
  quietly h = Quiet-Own W tools t h

  first :
      {A : Type 0} {c : M W A}
      → Quiet c
      → Triple (λ w. Untouched W tools t w) c (λ _ w. Untouched W tools t w)
  first h = untouched W tools t h

  switch_campus-Own : Own W tools t (switch_campus W tools t)
  unfolding switch_campus
  switch_campus-Own =
      when_rule (λ _. quietly (search adds))
        (λ _. bind_rule (authenticate-Own W tools t) (λ v. after (search (adds, leave_for-Quiet))))

  manual_logout-Own : Own W tools t (manual_logout W tools t)
  unfolding manual_logout
  manual_logout-Own = bind_rule (first (search adds)) (λ c.
      bind_rule (log_out-Own W tools t)
        (λ v. after (search (adds, switch_hotspot-Quiet, publish_move-Quiet) depth 30)))

  stay-Quiet : (h : HotspotProfile) (v : Verdict) → Quiet (stay W tools h v)
  unfolding stay
  stay-Quiet h v = search adds depth 30

  stay_or_go-Quiet : (h : HotspotProfile) (o : Option Verdict) → Quiet (stay_or_go W tools t h o)
  stay_or_go-Quiet h none = switch_hotspot-Quiet W tools t.hotspot_id
  stay_or_go-Quiet h (some v) = stay-Quiet h v

  return_to_campus-Own : (h : HotspotProfile) → Own W tools t (return_to_campus W tools t h)
  unfolding return_to_campus
  return_to_campus-Own h =
      checked_rule (first (search adds)) (λ e. quietly (search adds))
        (λ seen.
          checked_rule (first (search adds)) (λ e. quietly (search adds))
            (λ d. when_rule (λ _. switch_campus-Own) (λ _. quietly (search adds))))

  quiet_between-Own :
      (c : Config) (entering : Bool) (a : Option CampusAccount) (h : Option HotspotProfile)
      → Own W tools t (quiet_between W tools c t entering a h)
  quiet_between-Own c entering (some a) (some h) =
      when_rule (λ _. quietly (search adds))
        (λ _.
          when_rule (λ _. quietly (search adds))
            (λ _.
              when_rule (λ _. quietly (search (adds, defer_on_hotspot-Quiet, stay_or_go-Quiet)))
                (λ _. return_to_campus-Own h)))
  quiet_between-Own c entering (some a) none = quietly (search adds)
  quiet_between-Own c entering none none = quietly (search adds)
  quiet_between-Own c entering none (some h) = quietly (search adds)

  quiet_switch-Own : (entering : Bool) → Own W tools t (quiet_switch W tools t entering)
  unfolding quiet_switch
  quiet_switch-Own entering = bind_rule (first (search adds)) (λ c.
      bind_rule (first (search adds))
        (λ now. when_rule (λ _. quietly (search adds)) (λ _. quiet_between-Own c entering _ _)))

  forced_logout-Own : Own W tools t (forced_logout W tools t)
  unfolding forced_logout
  forced_logout-Own = bind_rule (first (search adds)) (λ c.
      bind_rule (first (search adds))
        (λ now. when_rule (λ _. quietly (search adds)) (λ _. log_out-Own W tools t)))

  dispatch-Own : (k : Kind) → Own W tools t (dispatch W tools t k)
  unfolding dispatch
  dispatch-Own Kind.quiet_hotspot = quiet_switch-Own true
  dispatch-Own Kind.quiet_campus = quiet_switch-Own false
  dispatch-Own Kind.login = authenticate-Own W tools t
  dispatch-Own Kind.relogin = authenticate-Own W tools t
  dispatch-Own Kind.maintain = authenticate-Own W tools t
  dispatch-Own Kind.switch_campus = switch_campus-Own
  dispatch-Own Kind.forced_logout = forced_logout-Own
  dispatch-Own Kind.logout = manual_logout-Own
  dispatch-Own Kind.switch_hotspot = quietly (switch_hotspot-Quiet W tools t.hotspot_id)
  dispatch-Own Kind.presets_refresh = quietly (search adds)
  dispatch-Own _ = quietly (search adds)

  unless_guarded-Own :
      (o : Option Verdict) → Own W tools t (unless_guarded W tools o (dispatch W tools t t.kind))
  unless_guarded-Own none = dispatch-Own t.kind
  unless_guarded-Own (some v) = quietly (search adds)

  run-Own : Own W tools t (run W tools t)
  unfolding run
  run-Own =
      bind_rule (first (search adds))
        (λ c. bind_rule (first (search adds)) (λ now. unless_guarded-Own _))

  -- From a trace without logouts, a run of any action either makes no logout, or it makes all of them for
  -- one attempt, whose account is one that the settings give under the action's id in some state of the
  -- worker's surroundings, under the name that this account resolves to, each at a point where the attempt
  -- may: the newest query named the session that is ended, and it is the attempt's own account or a user
  -- asks; or it said that nobody is online, and the name is the user id of the account.
  pub run-EndsOwn :
      (w : Worker W) → ends_nobody w.trace ≡ true → EndsOwn W tools t (run W tools t w).1.trace
  run-EndsOwn w h = run-Own.after_run w h
