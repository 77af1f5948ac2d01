-- ===== src/Worker/Evidence/Credentials.antt =====
-- When credentials are sent: after a challenge, and on a line that did not move since.
use smart_srun.Prelude.{ℕ, ◌≡◌, true, Option, none, some, List, [], Bytes, ◌∙◌}
use smart_srun.Domain.Errors.{ErrorCode}
use smart_srun.Auth.Answer.{Reply, Result}
use smart_srun.Auth.Identity.{Identity}
use smart_srun.Worker.World.{World, Worker, M, Tools, Gateway, Event, pure, ◌>>=◌}
use smart_srun.Worker.Rules.{
  Triple, bind_rule, pure_rule, view_rule, traced_rule, checked_rule, when_rule, state_rule,
  weaken_rule,
}
use smart_srun.Worker.Trace.{OnlyAdds, adds, adds_rule, loosen}
use smart_srun.Worker.Trace.Quiet.{invalidate_line-Quiet}
use smart_srun.Worker.Trace.Harmless.{
  Harmless, check_existing-Harmless, online-Harmless, verify_session-Harmless,
}
use smart_srun.Worker.Transaction.{
  Challenge, Shape, challenge, login, send_login, send_or_refuse, logout, send_logout,
}
use smart_srun.Worker.Line.{invalidate_line, confirm_unchanged, compare_line}
use smart_srun.Worker.Terminal.{verify_session}
use smart_srun.Worker.Attempt.{Attempt, Verdict}
use smart_srun.Worker.Session.{
  attempt_login, clear_and_retry, settle_retry, settle_identity, settle_already_online,
  settle_login, first_login, sign_in, unless_settled,
}
use smart_srun.Worker.Evidence.Challenges.{
  read_token, token_in, signs_fresh, signs_none, harmless-signs_none, IsFresh, IsFresh-other, Holds,
  Armed, Holds-plain, IsFresh-login, challenge-sent, Looked, looked, Armed-reported, login-IsSigned,
}

module _ (W : World) (tools : Tools) (p : Attempt) (line : W.Line) (g : Gateway) where
  abbrev Fresh : {A : Type 0} → M W A → Type 0
  Fresh c = Triple (λ w. IsFresh tools p w.trace) c (λ _ w. IsFresh tools p w.trace)

  abbrev FreshFrom : {A : Type 0} → (Worker W → Type 0) → M W A → Type 0
  FreshFrom P c = Triple P c (λ _ w. IsFresh tools p w.trace)

  Fresh-other : {A : Type 0} {c : M W A} → OnlyAdds signs_none c → Fresh c
  Fresh-other h = adds_rule (λ es. IsFresh tools p es) (IsFresh-other tools p) h

  Harmless-Fresh : {A : Type 0} {c : M W A} → Harmless c → Fresh c
  Harmless-Fresh h = Fresh-other (loosen harmless-signs_none h)

  challenge_rule :
      Triple
        (λ w. IsFresh tools p w.trace)
        (challenge W tools line g p.username)
        (λ r w. Holds tools p (read_token r) w.trace)
  unfolding challenge
  challenge_rule = bind_rule (view_rule _ (λ w x. x)) (λ ms.
      bind_rule (view_rule _ (λ w x. x)) (λ callback.
        checked_rule {R = λ r w. Holds tools p (token_in tools r) w.trace}
          (traced_rule _ _ (λ w r s x. challenge-sent tools p p.username ms callback r w.trace x))
          (λ e. pure_rule _ (λ w x. x)) (λ payload. pure_rule _ (λ w x. x))))

  -- What `confirmUnchanged` leaves: a line that did not move, or a failure.
  abbrev Confirmed : Challenge → Reply (Unit {0}) → List Event → Type 0
  Confirmed c (Reply.ok _) es = Armed tools p c es
  Confirmed c (Reply.err _) es = IsFresh tools p es

  invalidated :
      (e : Option ErrorCode) (c : Challenge) (account_id : Bytes) (generation : ℕ)
      → Triple {W = W}
          (λ w. Holds tools p (some c) w.trace)
          (invalidate_line account_id generation >>= λ _. pure (Reply.err e))
          (λ r w. Confirmed c r w.trace)
  invalidated e c account_id generation =
      bind_rule
        (adds_rule (Holds tools p (some c)) (Holds-plain tools p (some c))
          (invalidate_line-Quiet account_id generation))
        (λ _. pure_rule _ (λ w x. x.0))

  compare_rule :
      (c : Challenge) (iface : Bytes)
      → Triple {W = W}
          (λ w. Holds tools p (some c) w.trace)
          (compare_line p.account.id p.binding iface)
          (λ r w. Confirmed c r w.trace)
  unfolding compare_line
  compare_rule c iface =
      checked_rule {R = λ r w. Looked tools p c r w.trace}
        (traced_rule _ _ (λ w r s x. looked tools p c iface p.binding.generation r w.trace x))
        (λ e. invalidated e c p.account.id p.binding.generation)
        (λ now.
          when_rule (λ held. pure_rule _ (λ w (x, u). (x, u ∙ held)))
            (λ _.
              weaken_rule (invalidated _ c p.account.id p.binding.generation) (λ w x. x.0)
                (λ r w x. x)))

  confirm_rule :
      (c : Challenge)
      → Triple {W = W}
          (λ w. Holds tools p (some c) w.trace)
          (confirm_unchanged p.account p.binding)
          (λ r w. Confirmed c r w.trace)
  unfolding confirm_unchanged
  confirm_rule c =
      bind_rule {R = λ _ w. Holds tools p (some c) w.trace} (view_rule _ (λ w x. x)) (λ iface.
        checked_rule {R = λ _ w. Holds tools p (some c) w.trace} (pure_rule _ (λ w x. x))
          (λ e. pure_rule _ (λ w x. x.0)) (compare_rule c))

  send_login-Fresh :
      (s : Shape) (c : Challenge) (ip info_json : Bytes)
      → FreshFrom
          (λ w. Armed tools p c w.trace)
          (send_login W tools line g p.username p.account.password s c.token ip info_json)
  unfolding send_login
  send_login-Fresh s c ip info_json =
      bind_rule {R = λ _ w. Armed tools p c w.trace} (view_rule _ (λ w x. x)) (λ callback.
        bind_rule {R = λ _ w. Armed tools p c w.trace} (view_rule _ (λ w x. x)) (λ ms.
          checked_rule {R = λ r w. IsFresh tools p w.trace}
            (traced_rule _ _ (λ w r t x.
              IsFresh-login tools p _ r w.trace c x
                (login-IsSigned tools p g s c ip info_json ms callback)))
            (λ e. pure_rule _ (λ w x. x)) (λ payload. pure_rule _ (λ w x. x))))

  send_or_refuse-Fresh :
      (s : Shape) (c : Challenge) (e : Option ErrorCode) (info_json : Option Bytes)
      → FreshFrom
          (λ w. Armed tools p c w.trace)
          (send_or_refuse W tools line g p.username p.account.password s c e info_json)
  unfolding send_or_refuse
  send_or_refuse-Fresh s c none (some i) = send_login-Fresh s c _ i
  send_or_refuse-Fresh s c none none = pure_rule _ (λ w x. x.0.0)
  send_or_refuse-Fresh s c (some e) none = pure_rule _ (λ w x. x.0.0)
  send_or_refuse-Fresh s c (some e) (some i) = pure_rule _ (λ w x. x.0.0)

  login-Fresh :
      (c : Challenge)
      → FreshFrom
          (λ w. Armed tools p c w.trace)
          (login W tools line g p.username p.account.password p.shape c)
  unfolding login
  login-Fresh c = send_or_refuse-Fresh _ c _ _

  attempt_login-Fresh : Fresh (attempt_login W tools p line g)
  unfolding attempt_login
  attempt_login-Fresh = bind_rule (Harmless-Fresh (search adds)) (λ _.
      checked_rule challenge_rule (λ e. pure_rule _ (λ w x. x.0))
        (λ c.
          checked_rule (confirm_rule c) (λ e. pure_rule _ (λ w x. x))
            (λ _.
              bind_rule {R = λ _ w. Armed tools p c w.trace}
                (traced_rule _ _ (λ w a s x. Armed-reported tools p c _ w.trace x))
                (λ _. login-Fresh c))))

  send_logout-Fresh :
      (username ip : Bytes) → OnlyAdds signs_none (logout W tools line g username ip)
  unfolding logout send_logout
  send_logout-Fresh username ip = search adds depth 30

  verify-Fresh : (o : Option Identity) → Fresh (verify_session W tools p line g o)
  verify-Fresh o = Harmless-Fresh (verify_session-Harmless W tools p line g o)

  settle_retry-Fresh :
      (identity : Bytes) (r : Result) → Fresh (settle_retry W tools p line g identity r)
  unfolding settle_retry
  settle_retry-Fresh identity r =
      when_rule (λ _. Harmless-Fresh (search adds))
        (λ _. when_rule (λ _. Harmless-Fresh (search adds)) (λ _. verify-Fresh none))

  clear_and_retry-Fresh :
      (username identity : Bytes) → Fresh (clear_and_retry W tools p line g username identity)
  unfolding clear_and_retry
  clear_and_retry-Fresh username identity = bind_rule (Harmless-Fresh (search adds)) (λ _.
      checked_rule (Fresh-other (send_logout-Fresh username [])) (λ e. Harmless-Fresh (search adds))
        (λ cleared.
          when_rule (λ _. Harmless-Fresh (search adds))
            (λ _.
              checked_rule attempt_login-Fresh (λ e. Harmless-Fresh (search adds))
                (settle_retry-Fresh identity))))

  settle_identity-Fresh : (i : Identity) → Fresh (settle_identity W tools p line g i)
  unfolding settle_identity
  settle_identity-Fresh i =
      state_rule i (λ here self. verify-Fresh (some i))
        (λ here other.
          when_rule (λ _. Harmless-Fresh (search adds)) (λ _. clear_and_retry-Fresh _ _))
        (λ absent. clear_and_retry-Fresh _ _)

  settle_already_online-Fresh : Fresh (settle_already_online W tools p line g)
  unfolding settle_already_online
  settle_already_online-Fresh = bind_rule (Harmless-Fresh (search adds)) (λ _.
      checked_rule (Harmless-Fresh (online-Harmless W tools line g p.username))
        (λ e. Harmless-Fresh (search adds)) settle_identity-Fresh)

  settle_login-Fresh : (r : Result) → Fresh (settle_login W tools p line g r)
  unfolding settle_login
  settle_login-Fresh r =
      when_rule (λ _. settle_already_online-Fresh)
        (λ _. when_rule (λ _. Harmless-Fresh (search adds)) (λ _. verify-Fresh none))

  first_login-Fresh : Fresh (first_login W tools p line g)
  unfolding first_login
  first_login-Fresh =
      checked_rule attempt_login-Fresh (λ e. Harmless-Fresh (search adds)) settle_login-Fresh

  unless_settled-Fresh : (o : Option Verdict) → Fresh (unless_settled W tools p line g o)
  unless_settled-Fresh none = first_login-Fresh
  unless_settled-Fresh (some v) = Harmless-Fresh (search adds)

  sign_in-Fresh : Fresh (sign_in W tools p line g)
  unfolding sign_in
  sign_in-Fresh =
      when_rule
        (λ _.
          bind_rule (Harmless-Fresh (check_existing-Harmless W tools line g p))
            unless_settled-Fresh)
        (λ _. first_login-Fresh)

  -- Where each login of the trace so far carries the attempt's name, and its password signed with the
  -- challenge that was answered just before, on a line that did not move since, so does each login of a
  -- sign-in.
  pub sign_in-signs_fresh :
      (w : Worker W)
      → signs_fresh tools p w.trace ≡ true
      → signs_fresh tools p (sign_in W tools p line g w).1.trace ≡ true
  sign_in-signs_fresh w h = sign_in-Fresh.after_run w h
