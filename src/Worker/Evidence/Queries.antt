-- ===== src/Worker/Evidence/Queries.antt =====
-- A query leaves its answer in the trace.
use smart_srun.Prelude.{◌≡◌, refl, true, Option, List, ◌∷◌, Bytes}
use smart_srun.Auth.Answer.{Reply}
use smart_srun.Auth.Identity.{Identity}
use smart_srun.Worker.World.{World, Tools, Gateway, Event, Request}
use smart_srun.Worker.Rules.{Triple, bind_rule, pure_rule, view_rule, traced_rule, checked_rule}
use smart_srun.Worker.Trace.{is_plain, is_harmless}
use smart_srun.Worker.Transaction.{online}
use smart_srun.Worker.Evidence.{read_reply, named_in, last_identity}

-- Events of no query leave the newest answer.
pub last_identity-plain :
    (tools : Tools) (expected : Bytes) (o : Option Identity) (e : Event) (es : List Event)
    → is_plain e ≡ true
    → last_identity tools expected es ≡ o
    → last_identity tools expected (e ∷ es) ≡ o
unfolding last_identity
last_identity-plain tools expected o (Event.sent _ _) es h x = absurd (cc)
last_identity-plain tools expected o (Event.reported _) es h x = x
last_identity-plain tools expected o (Event.resolved _ _ _) es h x = x
last_identity-plain tools expected o (Event.retired _ _) es h x = x
last_identity-plain tools expected o (Event.moved _) es h x = x
last_identity-plain tools expected o Event.left es h x = x

last_identity-sent :
    (tools : Tools) (expected : Bytes) (ms : _) (callback : Bytes) (r : Reply Bytes)
    (es : List Event)
    → last_identity tools expected (Event.sent (Request.online_request ms callback) r ∷ es)
      ≡ named_in tools expected r
unfolding last_identity
last_identity-sent tools expected ms callback r es = refl

module _ {W : World} (tools : Tools) (line : W.Line) (g : Gateway) (J : List Event → Type 0)
    (stable : (e : Event) (es : List Event) → is_harmless e ≡ true → J es → J (e ∷ es)) where
  -- A query keeps what harmless events keep, and its answer is the newest one.
  pub online_rule :
      (expected : Bytes)
      → Triple
          (λ w. J w.trace)
          (online W tools line g expected)
          (λ r w. J w.trace × (last_identity tools expected w.trace ≡ read_reply r))
  unfolding online
  online_rule expected = bind_rule (view_rule _ (λ w x. x)) (λ ms.
      bind_rule (view_rule _ (λ w x. x)) (λ callback.
        checked_rule
          {R = λ r w.
            J w.trace × (last_identity tools expected w.trace ≡ named_in tools expected r)}
          (traced_rule _ _ (λ w r s x.
            (stable _ _ refl x, last_identity-sent tools expected ms callback r w.trace)))
          (λ e. pure_rule _ (λ w x. x)) (λ payload. pure_rule _ (λ w x. x))))
