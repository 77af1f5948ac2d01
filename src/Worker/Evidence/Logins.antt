-- ===== src/Worker/Evidence/Logins.antt =====
-- A login that succeeds is one whose session was verified.
use smart_srun.Prelude.{◌≡◌, refl, Bool, true, Option, none, some, List, Bytes}
use smart_srun.Domain.Binding.{AuthState}
use smart_srun.Auth.Answer.{Result}
use smart_srun.Auth.Identity.{Identity}
use smart_srun.Worker.World.{World, Worker, M, Tools, Gateway, Event, pure, ◌>>=◌}
use smart_srun.Worker.Rules.{
  Triple, bind_rule, pure_rule, traced_rule, checked_rule, when_rule, state_rule, weaken_rule,
  any_rule,
}
use smart_srun.Worker.Trace.{adds}
use smart_srun.Worker.Trace.Quiet.{Quiet, verify_connectivity-Quiet}
use smart_srun.Worker.Attempt.{Attempt, Verdict, failed}
use smart_srun.Worker.Confirm.{verify_once, judge_identity, check_existing}
use smart_srun.Worker.Terminal.{terminal_checks, verify_session}
use smart_srun.Worker.Session.{
  clear_and_retry, settle_retry, settle_identity, settle_already_online, settle_login, first_login,
  sign_in, unless_settled,
}
use smart_srun.Worker.Switch.{has_succeeded}
use smart_srun.Worker.Evidence.{last_identity}
use smart_srun.Worker.Evidence.Queries.{last_identity-plain}
use smart_srun.Worker.Evidence.Success.{
  is_verified, Backed, failed_rule, first_rule, Sound, Answered, query, backed_rule, quietly,
}

module _ (W : World) (tools : Tools) (p : Attempt) (line : W.Line) (g : Gateway) where
  abbrev Verified : (List Event → Type 0) → M W Verdict → Type 0
  Verified Pre c = Sound is_verified W tools p line g Pre c

  abbrev Known : Option Identity → List Event → Type 0
  Known o = Answered is_verified W tools p line g o

  -- From any trace.
  anyhow :
      {P : Worker W → Type 0} {c : M W Verdict}
      → Verified (λ _. Unit) c
      → Triple P c (λ v w. Backed is_verified tools p v w.trace)
  anyhow h = weaken_rule h (λ w x. tt) (λ v w x. x)

  Known-rule :
      {o : Option Identity} {c : M W (Unit {0})}
      → Quiet c
      → Triple (λ w. Known o w.trace) c (λ _ w. Known o w.trace)
  Known-rule {o} h = quietly is_verified W tools p line g o h

  fails :
      {P : Worker W → Type 0} (e : _) (a : AuthState) (identity : Bytes)
      → Triple P (failed p e a identity) (λ v w. Backed is_verified tools p v w.trace)
  fails e a identity = failed_rule is_verified tools p e a identity

  judge_identity-Verified :
      (i : Identity) → Verified (Known (some i)) (judge_identity W tools p line g i)
  judge_identity-Verified i =
      state_rule i
        (λ here self.
          backed_rule is_verified W tools p line g (some i) (rw (here, self) refl)
            (verify_connectivity-Quiet W tools p line g i.username))
        (λ here other. fails _ _ _) (λ absent. fails _ _ _)

  verify_once-Verified : Verified (λ _. Unit) (verify_once W tools p line g none)
  unfolding verify_once
  verify_once-Verified = bind_rule {R = λ _ w. Unit {0}} (traced_rule _ _ (λ w a s x. tt)) (λ _.
      checked_rule (query is_verified W tools p line g) (λ e. fails _ _ _) judge_identity-Verified)

  verify-Known-Verified :
      (i : Identity) → Verified (Known (some i)) (verify_once W tools p line g (some i))
  unfolding verify_once
  verify-Known-Verified i = bind_rule (Known-rule (search adds)) (λ _. judge_identity-Verified i)

  session_check-Verified :
      {P : Worker W → Type 0} {c : M W Verdict} (f : Verdict → Bool)
      → Triple P c (λ v w. Backed is_verified tools p v w.trace)
      → Triple {A = Verdict × Bool} P
          (c >>= λ v. pure (v, f v))
          (λ r w. Backed is_verified tools p (r.0) w.trace)
  session_check-Verified f h = bind_rule h (λ v. pure_rule _ (λ w x. x))

  verify_session-Verified : Verified (λ _. Unit) (verify_session W tools p line g none)
  unfolding verify_session terminal_checks
  verify_session-Verified =
      first_rule is_verified tools p _ (λ _. Unit) (λ e es k x. x) _
        (session_check-Verified _ verify_once-Verified)
        (session_check-Verified _ verify_once-Verified)

  verify-Known_session-Verified :
      (i : Identity) → Verified (Known (some i)) (verify_session W tools p line g (some i))
  unfolding verify_session terminal_checks
  verify-Known_session-Verified i =
      first_rule is_verified tools p _ (Known (some i))
        (λ e es k x. last_identity-plain tools p.username (some i) e es k x) _
        (session_check-Verified _ (verify-Known-Verified i))
        (session_check-Verified _ verify_once-Verified)

  settle_retry-Verified :
      (identity : Bytes) (r : Result)
      → Verified (λ _. Unit) (settle_retry W tools p line g identity r)
  unfolding settle_retry
  settle_retry-Verified identity r =
      when_rule (λ _. fails _ _ _)
        (λ _. when_rule (λ _. fails _ _ _) (λ _. verify_session-Verified))

  clear_and_retry-Verified :
      (username identity : Bytes)
      → Verified (λ _. Unit) (clear_and_retry W tools p line g username identity)
  unfolding clear_and_retry
  clear_and_retry-Verified username identity = bind_rule {R = λ _ w. Unit {0}} (any_rule _) (λ _.
      checked_rule {R = λ _ w. Unit {0}} (any_rule _) (λ e. fails _ _ _)
        (λ cleared.
          when_rule (λ _. fails _ _ _)
            (λ _.
              checked_rule {R = λ _ w. Unit {0}} (any_rule _) (λ e. fails _ _ _)
                (λ r. settle_retry-Verified identity r))))

  settle_identity-Verified :
      (i : Identity) → Verified (Known (some i)) (settle_identity W tools p line g i)
  unfolding settle_identity
  settle_identity-Verified i =
      state_rule i (λ here self. verify-Known_session-Verified i)
        (λ here other. when_rule (λ _. fails _ _ _) (λ _. anyhow (clear_and_retry-Verified _ _)))
        (λ absent. anyhow (clear_and_retry-Verified _ _))

  settle_already_online-Verified : Verified (λ _. Unit) (settle_already_online W tools p line g)
  unfolding settle_already_online
  settle_already_online-Verified = bind_rule {R = λ _ w. Unit {0}} (any_rule _) (λ _.
      checked_rule (query is_verified W tools p line g) (λ e. fails _ _ _) settle_identity-Verified)

  settle_login-Verified : (r : Result) → Verified (λ _. Unit) (settle_login W tools p line g r)
  unfolding settle_login
  settle_login-Verified r =
      when_rule (λ _. settle_already_online-Verified)
        (λ _. when_rule (λ _. fails _ _ _) (λ _. verify_session-Verified))

  first_login-Verified : Verified (λ _. Unit) (first_login W tools p line g)
  unfolding first_login
  first_login-Verified =
      checked_rule {R = λ _ w. Unit {0}} (any_rule _) (λ e. fails _ _ _) settle_login-Verified

  -- The verdict that ends an action is backed.
  abbrev Settled : Option Verdict → List Event → Type 0
  Settled none es = Unit
  Settled (some v) es = Backed is_verified tools p v es

  settled :
      {P : Worker W → Type 0} {c : M W Verdict}
      → Triple P c (λ v w. Backed is_verified tools p v w.trace)
      → Triple {A = Option Verdict} P (c >>= λ v. pure (some v)) (λ o w. Settled o w.trace)
  settled h = bind_rule h (λ v. pure_rule _ (λ w x. x))

  check_existing-Verified :
      Triple (λ w. Unit {0}) (check_existing W tools p line g) (λ o w. Settled o w.trace)
  unfolding check_existing
  check_existing-Verified = bind_rule {R = λ _ w. Unit {0}} (any_rule _) (λ _.
      checked_rule (query is_verified W tools p line g) (λ e. settled (fails _ _ _))
        (λ i.
          state_rule i
            (λ here self. settled (
              backed_rule is_verified W tools p line g (some i) (rw (here, self) refl)
                (verify_connectivity-Quiet W tools p line g i.username)))
            (λ here other. settled (fails _ _ _)) (λ absent. pure_rule _ (λ w x. tt))))

  unless_settled-Verified :
      (o : Option Verdict)
      → Triple
          (λ w. Settled o w.trace)
          (unless_settled W tools p line g o)
          (λ v w. Backed is_verified tools p v w.trace)
  unless_settled-Verified none = first_login-Verified
  unless_settled-Verified (some v) = pure_rule v (λ w x. x)

  sign_in-Verified : Verified (λ _. Unit) (sign_in W tools p line g)
  unfolding sign_in
  sign_in-Verified =
      when_rule (λ _. bind_rule check_existing-Verified unless_settled-Verified)
        (λ _. first_login-Verified)

  -- After a sign-in that succeeds, whatever the trace was before it, the newest query of the trace was
  -- answered with a session of the attempt's account.
  pub sign_in-is_verified :
      (w : Worker W)
      → has_succeeded (sign_in W tools p line g w).0 ≡ true
      → is_verified (last_identity tools p.username (sign_in W tools p line g w).1.trace) ≡ true
  sign_in-is_verified w = sign_in-Verified.after_run w tt
