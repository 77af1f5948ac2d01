-- ===== src/Worker/Trace/Logins.antt =====
-- The parts of a worker that end no session: a login is one of them.
use smart_srun.Prelude.{◌≡◌, refl, Bool, true, false, Option, none, some, Bytes}
use smart_srun.Domain.Binding.{Binding}
use smart_srun.Domain.Config.{CampusAccount}
use smart_srun.Domain.Errors.{ErrorCode}
use smart_srun.Auth.Identity.{Identity}
use smart_srun.Worker.Terminal.{verify_session}
use smart_srun.Worker.Line.{confirm_unchanged}
use smart_srun.Auth.Answer.{Result}
use smart_srun.Worker.World.{World, M, Tools, Gateway, Event, Request}
use smart_srun.Worker.Trace.{is_plain, is_harmless, OnlyAdds, adds, loosen}
use smart_srun.Worker.Trace.Quiet.{Quiet, confirm_unchanged-Quiet}
use smart_srun.Worker.Trace.Harmless.{Harmless, challenge-Harmless, verify_session-Harmless}
use smart_srun.Worker.Transaction.{Challenge, Shape, challenge, login, send_login, send_or_refuse}
use smart_srun.Worker.Attempt.{Attempt}
use smart_srun.Worker.Session.{attempt_login, settle_retry}

-- No session is ended.
abbrev pub ends_none : Event → Bool
ends_none (Event.sent (Request.logout_request _) _) = false
ends_none _ = true

harmless-ends_none : (e : Event) → is_harmless e ≡ true → ends_none e ≡ true
harmless-ends_none (Event.sent (Request.challenge_request _ _ _) _) h = refl
harmless-ends_none (Event.sent (Request.login_request _) _) h = refl
harmless-ends_none (Event.sent (Request.online_request _ _) _) h = refl
harmless-ends_none (Event.sent (Request.logout_request _) _) h = h
harmless-ends_none (Event.reported _) h = refl
harmless-ends_none (Event.resolved _ _ _) h = refl
harmless-ends_none (Event.retired _ _) h = refl
harmless-ends_none (Event.moved _) h = refl
harmless-ends_none Event.left h = refl

pub plain-ends_none : (e : Event) → is_plain e ≡ true → ends_none e ≡ true
plain-ends_none (Event.sent _ _) h = absurd (cc)
plain-ends_none (Event.reported _) h = refl
plain-ends_none (Event.resolved _ _ _) h = refl
plain-ends_none (Event.retired _ _) h = refl
plain-ends_none (Event.moved _) h = refl
plain-ends_none Event.left h = refl

module _ {W : World} where
  abbrev pub EndsNone : {A : Type 0} → M W A → Type 0
  EndsNone c = OnlyAdds ends_none c

  pub Harmless-EndsNone : {A : Type 0} {c : M W A} → Harmless c → EndsNone c
  Harmless-EndsNone h = loosen harmless-ends_none h

  pub Quiet-EndsNone : {A : Type 0} {c : M W A} → Quiet c → EndsNone c
  Quiet-EndsNone h = loosen plain-ends_none h

  confirm_unchanged-EndsNone : (a : CampusAccount) (b : Binding) → EndsNone (confirm_unchanged a b)
  confirm_unchanged-EndsNone a b = Quiet-EndsNone (confirm_unchanged-Quiet a b)

module _ (W : World) (tools : Tools) (line : W.Line) (g : Gateway) where
  send_login-EndsNone :
      (username password : Bytes) (s : Shape) (token ip info_json : Bytes)
      → EndsNone (send_login W tools line g username password s token ip info_json)
  unfolding send_login
  send_login-EndsNone username password s token ip info_json = search adds depth 30

  send_or_refuse-EndsNone :
      (username password : Bytes) (s : Shape) (c : Challenge) (e : Option ErrorCode)
      (info_json : Option Bytes)
      → EndsNone (send_or_refuse W tools line g username password s c e info_json)
  unfolding send_or_refuse
  send_or_refuse-EndsNone username password s c none (some i) = send_login-EndsNone _ _ _ _ _ _
  send_or_refuse-EndsNone username password s c none none = search adds
  send_or_refuse-EndsNone username password s c (some e) none = search adds
  send_or_refuse-EndsNone username password s c (some e) (some i) = search adds

  login-EndsNone :
      (username password : Bytes) (s : Shape) (c : Challenge)
      → EndsNone (login W tools line g username password s c)
  unfolding login
  login-EndsNone username password s c = send_or_refuse-EndsNone _ _ _ _ _ _

  module _ (p : Attempt) where
    challenge-EndsNone : (username : Bytes) → EndsNone (challenge W tools line g username)
    challenge-EndsNone username = Harmless-EndsNone (challenge-Harmless W tools line g username)

    pub attempt_login-EndsNone : EndsNone (attempt_login W tools p line g)
    unfolding attempt_login
    attempt_login-EndsNone =
        search (adds, challenge-EndsNone, login-EndsNone, confirm_unchanged-EndsNone) depth 30

    verify-EndsNone : (o : Option Identity) → EndsNone (verify_session W tools p line g o)
    verify-EndsNone o = Harmless-EndsNone (verify_session-Harmless W tools p line g o)

    pub settle_retry-EndsNone :
        (identity : Bytes) (r : Result) → EndsNone (settle_retry W tools p line g identity r)
    unfolding settle_retry
    settle_retry-EndsNone identity r = search (adds, verify-EndsNone) depth 30
