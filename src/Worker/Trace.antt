-- ===== src/Worker/Trace.antt =====
-- The events that a part of a worker can add to the trace, by their kind.
pub mod Quiet
pub mod Radio
pub mod Harmless
pub mod Logins
pub mod Switch
use smart_srun.Prelude.{ℕ, ◌≡◌, refl, Bool, true, false, Option, List, [], ◌∷◌, Bytes}
use smart_srun.Domain.Binding.{Binding}
use smart_srun.Domain.Errors.{ErrorCode}
use smart_srun.Auth.Answer.{Reply}
use smart_srun.Auth.Identity.{Identity, state_of}
use smart_srun.Worker.World.{
  World, Worker, M, Event, Request, pure, ◌>>=◌, or_return, when, view, kept, call, traced, keep,
}
use smart_srun.Worker.Confirm.{by_state}
use smart_srun.Worker.Rules.{
  Triple, bind_rule, pure_rule, view_rule, kept_rule, call_rule, traced_rule, keep_rule, when_rule,
  return_rule, state_rule, weaken_rule,
}

-- No request is sent.
abbrev pub is_plain : Event → Bool
is_plain (Event.sent _ _) = false
is_plain _ = true

-- No credentials are sent, and no session is ended.
abbrev pub is_harmless : Event → Bool
is_harmless (Event.sent (Request.login_request _) _) = false
is_harmless (Event.sent (Request.logout_request _) _) = false
is_harmless _ = true

-- The second trace is the first one, and then events of a kind.
pub data Adds (K : Event → Bool) : List Event → List Event → Type 0 where
  same : (es : List Event) → Adds K es es
  more : {es fs : List Event} (e : Event) → K e ≡ true → Adds K es fs → Adds K es (e ∷ fs)

module _ {W : World} where
  -- A part adds only events of a kind.
  pub record OnlyAdds (K : Event → Bool) {A : Type 0} (c : M W A) : Type 0 where
    pub triple : (es : List Event) → Triple (λ w. Adds K es w.trace) c (λ _ w. Adds K es w.trace)

  module _ {K : Event → Bool} where
    pub bind_adds :
        {A B : Type 0} {c : M W A} {f : A → M W B}
        → OnlyAdds K c
        → ((a : A) → OnlyAdds K (f a))
        → OnlyAdds K (c >>= f)
    bind_adds h k = record { triple = λ es. bind_rule (h.triple es) (λ a. (k a).triple es) }

    pub pure_adds : {A : Type 0} (a : A) → OnlyAdds K (pure a)
    pure_adds a = record { triple = λ es. pure_rule a (λ w x. x) }

    pub view_adds : {A : Type 0} (f : W.State → A) → OnlyAdds K (view f)
    view_adds f = record { triple = λ es. view_rule f (λ w x. x) }

    pub kept_adds : {A : Type 0} (f : Worker W → A) → OnlyAdds K (kept f)
    kept_adds f = record { triple = λ es. kept_rule f (λ w x. x) }

    pub call_adds : {A : Type 0} (f : W.State → A × W.State) → OnlyAdds K (call f)
    call_adds f = record { triple = λ es. call_rule f (λ w a s x. x) }

    pub keep_adds : (g : ℕ) (seen : List (Bytes × Binding)) → OnlyAdds K (keep g seen)
    keep_adds g seen = record { triple = λ es. keep_rule g seen (λ w x. x) }

    pub traced_adds :
        {A : Type 0} (f : W.State → A × W.State) (e : A → Event)
        → ((a : A) → K (e a) ≡ true)
        → OnlyAdds K (traced f e)
    traced_adds f e h = record {
      triple = λ es. traced_rule f e (λ w a s x. Adds.more (e a) (h a) x);
    }

    pub when_adds :
        {A : Type 0} (b : Bool) {c d : M W A}
        → OnlyAdds K c
        → OnlyAdds K d
        → OnlyAdds K (when b c d)
    when_adds b h k = record { triple = λ es. when_rule (λ _. h.triple es) (λ _. k.triple es) }

    pub return_adds :
        {A B : Type 0} (r : Reply A) {failing : Option ErrorCode → M W B} {go : A → M W B}
        → ((e : Option ErrorCode) → OnlyAdds K (failing e))
        → ((a : A) → OnlyAdds K (go a))
        → OnlyAdds K (or_return failing go r)
    return_adds r h k = record {
      triple = λ es. return_rule (λ e. (h e).triple es) (λ a _. (k a).triple es);
    }

    pub state_adds :
        {A : Type 0} (i : Identity) {c d e : M W A}
        → OnlyAdds K c
        → OnlyAdds K d
        → OnlyAdds K e
        → OnlyAdds K (by_state (state_of i) c d e)
    state_adds i h k l = record {
      triple = λ es. state_rule i (λ _ _. h.triple es) (λ _ _. k.triple es) (λ _. l.triple es);
    }

pub ruleset adds = (
  bind_adds, pure_adds, view_adds, kept_adds, call_adds, keep_adds, traced_adds, when_adds,
  return_adds, state_adds,
)

-- What holds of a trace and is not lost by events of a kind is not lost by a part that adds only these.
module _ {K : Event → Bool} (J : List Event → Type 0)
    (stable : (e : Event) (es : List Event) → K e ≡ true → J es → J (e ∷ es)) where
  carried : (es fs : List Event) → Adds K es fs → J es → J fs
  carried es _ (Adds.same _) x = x
  carried es _ (Adds.more {fs = fs} e k a) x = stable e fs k (carried es fs a x)

  pub adds_rule :
      {W : World} {A : Type 0} {c : M W A}
      → OnlyAdds K c
      → Triple (λ w. J w.trace) c (λ _ w. J w.trace)
  adds_rule h = record {
    after_run = λ w x. carried w.trace _ ((h.triple w.trace).after_run w (Adds.same w.trace)) x;
  }

-- A part that adds only events of a kind adds only events of a wider one.
pub loosen :
    {W : World} {A : Type 0} {c : M W A} {K L : Event → Bool}
    → ((e : Event) → K e ≡ true → L e ≡ true)
    → OnlyAdds K c
    → OnlyAdds L c
loosen {L = L} wider h = record {
  triple = λ es. adds_rule (Adds L es) (λ e fs k a. Adds.more e (wider e k) a) h;
}
