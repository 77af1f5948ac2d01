-- ===== src/Worker/Actions/Own.antt =====
-- Whose sessions an action ends, from its start.
use smart_srun.Prelude.{◌≡◌, refl, true, Option, none, some, List, [], ◌∷◌, inl, inr}
use smart_srun.Domain.Config.{CampusAccount}
use smart_srun.Worker.World.{World, Worker, M, Tools, Gateway, Event, Request, ◌>>=◌}
use smart_srun.Worker.Rules.{Triple, bind_rule, pure_rule, weaken_rule, both_rule}
use smart_srun.Worker.Trace.{is_plain, adds, adds_rule}
use smart_srun.Worker.Trace.Quiet.{Quiet, prepare-Quiet}
use smart_srun.Worker.Trace.Radio.{ensure_wireless_line-Quiet}
use smart_srun.Worker.Attempt.{Task, Attempt, Verdict}
use smart_srun.Worker.Prepare.{Prepared, prepare}
use smart_srun.Worker.Session.{
  on_line, unless_ended, authenticate, sign_in, sign_out, log_out, off_campus, off_campus_of,
}
use smart_srun.Worker.Evidence.{ends_only_own}
use smart_srun.Worker.Evidence.Ownership.{IsFair, fair-plain, sign_in-Fair, sign_out-Fair}
use smart_srun.Worker.Actions.{ends_nobody, EndsOwn}
use smart_srun.Worker.Actions.Preparation.{Ready, prepare-Gives}

nobody-plain :
    (e : Event) (es : List Event)
    → is_plain e ≡ true
    → ends_nobody es ≡ true
    → ends_nobody (e ∷ es) ≡ true
unfolding ends_nobody
nobody-plain (Event.sent _ _) es h x = absurd (cc)
nobody-plain (Event.reported _) es h x = x
nobody-plain (Event.resolved _ _ _) es h x = x
nobody-plain (Event.retired _ _) es h x = x
nobody-plain (Event.moved _) es h x = x
nobody-plain Event.left es h x = x

nobody-fair :
    (tools : Tools) (p : Attempt) (es : List Event)
    → ends_nobody es ≡ true
    → ends_only_own tools p es ≡ true
unfolding ends_nobody ends_only_own
nobody-fair tools p [] h = refl
nobody-fair tools p (Event.sent (Request.challenge_request _ _ _) _ ∷ es) h =
    nobody-fair tools p es h
nobody-fair tools p (Event.sent (Request.login_request _) _ ∷ es) h = nobody-fair tools p es h
nobody-fair tools p (Event.sent (Request.online_request _ _) _ ∷ es) h = nobody-fair tools p es h
nobody-fair tools p (Event.sent (Request.logout_request _) _ ∷ es) h = absurd (cc)
nobody-fair tools p (Event.reported _ ∷ es) h = nobody-fair tools p es h
nobody-fair tools p (Event.resolved _ _ _ ∷ es) h = nobody-fair tools p es h
nobody-fair tools p (Event.retired _ _ ∷ es) h = nobody-fair tools p es h
nobody-fair tools p (Event.moved _ ∷ es) h = nobody-fair tools p es h
nobody-fair tools p (Event.left ∷ es) h = nobody-fair tools p es h

pub plain-EndsOwn :
    (W : World) (tools : Tools) (t : Task) (e : Event) (es : List Event)
    → is_plain e ≡ true
    → EndsOwn W tools t es
    → EndsOwn W tools t (e ∷ es)
plain-EndsOwn W tools t e es h (inl x) = inl (nobody-plain e es h x)
plain-EndsOwn W tools t e es h (inr (p, (s, x))) = inr (p, (s, fair-plain tools p e es h x))

module _ (W : World) (tools : Tools) (t : Task) where
  -- No session was ended so far.
  abbrev pub Untouched : Worker W → Type 0
  Untouched w = ends_nobody w.trace ≡ true

  -- From there, what a part ends is its own.
  abbrev pub Own : {A : Type 0} → M W A → Type 0
  Own c = Triple (λ w. ends_nobody w.trace ≡ true) c (λ _ w. EndsOwn W tools t w.trace)

  pub untouched : {A : Type 0} {c : M W A} → Quiet c → Triple Untouched c (λ _ w. Untouched w)
  untouched h = adds_rule (λ es. ends_nobody es ≡ true) nobody-plain h

  pub Quiet-Own : {A : Type 0} {c : M W A} → Quiet c → Own c
  Quiet-Own h = weaken_rule (untouched h) (λ w x. x) (λ a w x. inl x)

  pub Quiet-after :
      {A : Type 0} {c : M W A}
      → Quiet c
      → Triple (λ w. EndsOwn W tools t w.trace) c (λ _ w. EndsOwn W tools t w.trace)
  Quiet-after h = adds_rule (EndsOwn W tools t) (plain-EndsOwn W tools t) h

  module _ (go : Attempt → W.Line → Gateway → M W Verdict)
      (fair : (p : Attempt) (line : W.Line) (g : Gateway)
        → Triple (λ w. IsFair tools p w.trace) (go p line g) (λ _ w. IsFair tools p w.trace)) where
    on_line-Own :
        (r : Prepared W.Line)
        → Triple
            (λ w. Untouched w × Ready W tools t r)
            (on_line W tools go r)
            (λ _ w. EndsOwn W tools t w.trace)
    on_line-Own (Prepared.ready p g line) = record {
      after_run =
          λ w (x, s). inr (p, (s, (fair p line g).after_run w (nobody-fair tools p w.trace x)));
    }
    on_line-Own (Prepared.ended v) = pure_rule v (λ w (x, s). inl x)

    prepared-Own : Own (prepare W tools t >>= on_line W tools go)
    prepared-Own =
        bind_rule
          (both_rule (untouched (prepare-Quiet W tools t))
            (weaken_rule (prepare-Gives W tools t) (λ w x. tt) (λ r w x. x)))
          on_line-Own

    stopped-Own :
        (o : Option Verdict)
        → Own (unless_ended W tools o (prepare W tools t >>= on_line W tools go))
    stopped-Own none = prepared-Own
    stopped-Own (some v) = Quiet-Own (search adds)

  pub authenticate-Own : Own (authenticate W tools t)
  unfolding authenticate
  authenticate-Own =
      bind_rule (untouched (ensure_wireless_line-Quiet W tools t))
        (stopped-Own (sign_in W tools) (λ p line g. sign_in-Fair W tools p line g))

  off_campus-Quiet : (o : Option CampusAccount) → Quiet (off_campus_of W tools t o)
  unfolding off_campus
  off_campus-Quiet none = search adds
  off_campus-Quiet (some a) = search adds depth 30

  pub log_out-Own : Own (log_out W tools t)
  unfolding log_out
  log_out-Own = bind_rule (untouched (search adds)) (λ c.
      bind_rule (untouched (search (adds, off_campus-Quiet)))
        (stopped-Own (sign_out W tools) (λ p line g. sign_out-Fair W tools p line g)))
