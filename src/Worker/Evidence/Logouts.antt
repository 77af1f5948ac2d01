-- ===== src/Worker/Evidence/Logouts.antt =====
-- A logout that succeeds is one after which nobody is online.
use smart_srun.Prelude.{◌≡◌, Bool, true, false, not, Option, some, List, Bytes}
use smart_srun.Domain.Binding.{AuthState}
use smart_srun.Auth.Answer.{Reply}
use smart_srun.Auth.Identity.{Identity}
use smart_srun.Worker.World.{World, Worker, M, Tools, Gateway, Event}
use smart_srun.Worker.Rules.{Triple, bind_rule, checked_rule, when_rule, any_rule}
use smart_srun.Worker.Trace.{adds}
use smart_srun.Worker.Trace.Quiet.{confirm_unchanged-Quiet}
use smart_srun.Worker.Attempt.{Attempt, Verdict, failed, went_offline}
use smart_srun.Worker.Terminal.{terminal_checks, judge_logout, logout_check, verify_logout}
use smart_srun.Worker.Session.{end_session, sign_out}
use smart_srun.Worker.Switch.{has_succeeded}
use smart_srun.Worker.Evidence.{read_reply, last_identity}
use smart_srun.Worker.Evidence.Success.{
  is_vacant, Backed, failed_rule, unconfirmed_rule, stop_rule, moved_rule, first_rule, Sound,
  Answered, query, backed_rule, quietly,
}

module _ (W : World) (tools : Tools) (p : Attempt) (line : W.Line) (g : Gateway) where
  abbrev Vacant : (List Event → Type 0) → M W Verdict → Type 0
  Vacant Pre c = Sound is_vacant W tools p line g Pre c

  abbrev Known : Option Identity → List Event → Type 0
  Known o = Answered is_vacant W tools p line g o

  fails :
      {P : Worker W → Type 0} (e : _) (a : AuthState) (identity : Bytes)
      → Triple P (failed p e a identity) (λ v w. Backed is_vacant tools p v w.trace)
  fails e a identity = failed_rule is_vacant tools p e a identity

  gone-Vacant : (i : Identity) → not i.present ≡ true → Vacant (Known (some i)) (went_offline p)
  gone-Vacant i absent = backed_rule is_vacant W tools p line g (some i) absent (search adds)

  judge_logout-Vacant :
      (identity : Bytes) (r : Reply Identity)
      → Triple
          (λ w. Known (read_reply r) w.trace)
          (judge_logout W tools p line g identity r)
          (λ x w. Backed is_vacant tools p (x.0) w.trace)
  unfolding judge_logout
  judge_logout-Vacant identity (Reply.err e) =
      stop_rule is_vacant tools p _ (unconfirmed_rule is_vacant tools p identity)
  judge_logout-Vacant identity (Reply.ok i) =
      when_rule (λ absent. stop_rule is_vacant tools p false (gone-Vacant i absent))
        (λ here. stop_rule is_vacant tools p _ (fails _ _ _))

  logout_check-Vacant :
      (identity : Bytes) (first : Bool)
      → Triple
          (λ w. Unit {0})
          (logout_check W tools p line g identity first)
          (λ x w. Backed is_vacant tools p (x.0) w.trace)
  unfolding logout_check
  logout_check-Vacant identity first = bind_rule {R = λ _ w. Unit {0}} (any_rule _) (λ _.
      bind_rule (query is_vacant W tools p line g) (λ r.
        bind_rule
          (quietly is_vacant W tools p line g (read_reply r)
            (confirm_unchanged-Quiet p.account p.binding))
          (λ unchanged. moved_rule is_vacant tools p unchanged (judge_logout-Vacant identity r))))

  verify_logout-Vacant :
      (identity : Bytes) → Vacant (λ _. Unit) (verify_logout W tools p line g identity)
  unfolding verify_logout terminal_checks
  verify_logout-Vacant identity =
      first_rule is_vacant tools p _ (λ _. Unit) (λ e es k x. x) _
        (logout_check-Vacant identity true) (logout_check-Vacant identity false)

  end_session-Vacant : (i : Identity) → Vacant (Known (some i)) (end_session W tools p line g i)
  unfolding end_session
  end_session-Vacant i =
      when_rule (λ absent. gone-Vacant i absent)
        (λ here.
          when_rule (λ _. fails _ _ _)
            (λ _. bind_rule {R = λ _ w. Unit {0}} (any_rule _) (λ _.
              checked_rule {R = λ _ w. Unit {0}} (any_rule _) (λ e. fails _ _ _)
                (λ r. when_rule (λ _. fails _ _ _) (λ _. verify_logout-Vacant i.username)))))

  sign_out-Vacant : Vacant (λ _. Unit) (sign_out W tools p line g)
  unfolding sign_out
  sign_out-Vacant =
      bind_rule {R = λ _ w. Unit {0}} (any_rule _)
        (λ _. checked_rule (query is_vacant W tools p line g) (λ e. fails _ _ _) end_session-Vacant)

  -- After a sign-out that succeeds, whatever the trace was before it, the newest query of the trace
  -- was answered that nobody is online.
  pub sign_out-is_vacant :
      (w : Worker W)
      → has_succeeded (sign_out W tools p line g w).0 ≡ true
      → is_vacant (last_identity tools p.username (sign_out W tools p line g w).1.trace) ≡ true
  sign_out-is_vacant w = sign_out-Vacant.after_run w tt
