-- ===== src/Worker/Evidence/Success.antt =====
-- What stands behind a success: the answer to a query.
use smart_srun.Prelude.{
  ℕ, zero, suc, ◌≡◌, Bool, true, false, not, ◌&&◌, Option, none, some, List, [], ◌∷◌, Bytes,
}
use smart_srun.Domain.Binding.{AuthState}
use smart_srun.Domain.Errors.{ErrorCode}
use smart_srun.Auth.Answer.{Reply}
use smart_srun.Auth.Identity.{Identity}
use smart_srun.Worker.World.{World, Worker, M, Tools, Gateway, Event, pure, ◌>>=◌}
use smart_srun.Worker.Rules.{
  Triple, bind_rule, pure_rule, view_rule, call_rule, when_rule, weaken_rule,
}
use smart_srun.Worker.Trace.{is_plain, adds, adds_rule}
use smart_srun.Worker.Trace.Quiet.{Quiet, confirm_unchanged-Quiet}
use smart_srun.Worker.Transaction.{online}
use smart_srun.Worker.Attempt.{Attempt, Verdict, failed, failed_at, unconfirmed, unconfirmed_at}
use smart_srun.Worker.Terminal.{terminal_round, terminal_loop, unless_moved, unless_stopped}
use smart_srun.Worker.Switch.{has_succeeded}
use smart_srun.Worker.Evidence.{read_reply, last_identity}
use smart_srun.Worker.Evidence.Queries.{last_identity-plain, online_rule}

-- The newest query named a session, and it is the one of the account that was asked about.
abbrev pub is_verified : Option Identity → Bool
is_verified none = false
is_verified (some i) = i.present && i.matches_expected

-- The newest query was answered that nobody is online.
abbrev pub is_vacant : Option Identity → Bool
is_vacant none = false
is_vacant (some i) = not i.present

-- A success has what `T` asks of the newest answer.
abbrev pub Backed : (Option Identity → Bool) → Tools → Attempt → Verdict → List Event → Type 0
Backed T tools p v es = has_succeeded v ≡ true → T (last_identity tools p.username es) ≡ true

module _ (T : Option Identity → Bool) (tools : Tools) (p : Attempt) where
  failed-Backed :
      (now : ℕ) (e : Option ErrorCode) (a : AuthState) (identity : Bytes) (es : List Event)
      → Backed T tools p (failed_at p now e a identity) es
  unfolding failed_at
  failed-Backed now e a identity es h = absurd (cc)

  unconfirmed-Backed :
      (now : ℕ) (identity : Bytes) (es : List Event)
      → Backed T tools p (unconfirmed_at p now identity) es
  unfolding unconfirmed_at
  unconfirmed-Backed now identity es h = absurd (cc)

  module _ {W : World} where
    pub failed_rule :
        {P : Worker W → Type 0} (e : Option ErrorCode) (a : AuthState) (identity : Bytes)
        → Triple P (failed p e a identity) (λ v w. Backed T tools p v w.trace)
    failed_rule e a identity = view_rule _ (λ w x. failed-Backed _ e a identity w.trace)

    pub unconfirmed_rule :
        {P : Worker W → Type 0} (identity : Bytes)
        → Triple P (unconfirmed p identity) (λ v w. Backed T tools p v w.trace)
    unconfirmed_rule identity = view_rule _ (λ w x. unconfirmed-Backed _ identity w.trace)

    -- A result that may be tried again.
    pub stop_rule :
        {P : Worker W → Type 0} {c : M W Verdict} (b : Bool)
        → Triple P c (λ v w. Backed T tools p v w.trace)
        → Triple {A = Verdict × Bool} P
            (c >>= λ v. pure (v, b))
            (λ r w. Backed T tools p (r.0) w.trace)
    stop_rule b h = bind_rule h (λ v. pure_rule _ (λ w x. x))

    stopped_rule :
        {P : Worker W → Type 0} (o : Option ErrorCode) {c : M W (Verdict × Bool)}
        → Triple P c (λ r w. Backed T tools p (r.0) w.trace)
        → Triple P (unless_stopped W p o c) (λ r w. Backed T tools p (r.0) w.trace)
    stopped_rule none h = h
    stopped_rule (some e) h = stop_rule false (failed_rule (some e) AuthState.unknown [])

    pub moved_rule :
        {P : Worker W → Type 0} (o : Reply (Unit {0})) {c : M W (Verdict × Bool)}
        → Triple P c (λ r w. Backed T tools p (r.0) w.trace)
        → Triple P (unless_moved W p o c) (λ r w. Backed T tools p (r.0) w.trace)
    moved_rule (Reply.ok x) h = h
    moved_rule (Reply.err e) h = stop_rule false (failed_rule e AuthState.unknown [])

    module _ (check : Bool → M W (Verdict × Bool)) where
      -- A round is backed where its check is, from what plain events keep.
      round_rule :
          (Pre : List Event → Type 0)
          → ((e : Event) (es : List Event) → is_plain e ≡ true → Pre es → Pre (e ∷ es))
          → (first : Bool)
          → Triple (λ w. Pre w.trace) (check first) (λ r w. Backed T tools p (r.0) w.trace)
          → Triple
              (λ w. Pre w.trace)
              (terminal_round W p check first)
              (λ r w. Backed T tools p (r.0) w.trace)
      unfolding terminal_round
      round_rule Pre stable first h =
          bind_rule {R = λ _ w. Pre w.trace} (view_rule _ (λ w x. x)) (λ stopped.
            stopped_rule stopped (
              bind_rule (adds_rule Pre stable (search (adds, confirm_unchanged-Quiet)))
                (λ unchanged. moved_rule unchanged h)))

      loop_rule :
          (n : ℕ)
          → Triple (λ w. Unit {0}) (check false) (λ r w. Backed T tools p (r.0) w.trace)
          → Triple
              (λ w. Unit {0})
              (terminal_loop W p check n false)
              (λ v w. Backed T tools p v w.trace)
      unfolding terminal_loop
      loop_rule zero h =
          bind_rule (round_rule (λ _. Unit) (λ e es k x. x) false h) (λ r. pure_rule _ (λ w x. x))
      loop_rule (suc n) h = bind_rule (round_rule (λ _. Unit) (λ e es k x. x) false h) (λ r.
          when_rule (λ _. pure_rule _ (λ w x. x))
            (λ _.
              bind_rule {R = λ _ w. Unit {0}} (call_rule _ (λ w a s x. tt)) (λ _. loop_rule n h)))

      pub first_rule :
          (Pre : List Event → Type 0)
          → ((e : Event) (es : List Event) → is_plain e ≡ true → Pre es → Pre (e ∷ es))
          → (n : ℕ) → Triple (λ w. Pre w.trace) (check true) (λ r w. Backed T tools p (r.0) w.trace)
          → Triple (λ w. Unit {0}) (check false) (λ r w. Backed T tools p (r.0) w.trace)
          → Triple
              (λ w. Pre w.trace)
              (terminal_loop W p check n true)
              (λ v w. Backed T tools p v w.trace)
      unfolding terminal_loop
      first_rule Pre stable zero h k =
          bind_rule (round_rule Pre stable true h) (λ r. pure_rule _ (λ w x. x))
      first_rule Pre stable (suc n) h k = bind_rule (round_rule Pre stable true h) (λ r.
          when_rule (λ _. pure_rule _ (λ w x. x))
            (λ _.
              bind_rule {R = λ _ w. Unit {0}} (call_rule _ (λ w a s x. tt)) (λ _. loop_rule n k)))

module _ (T : Option Identity → Bool) (W : World) (tools : Tools) (p : Attempt) (line : W.Line)
    (g : Gateway) where
  -- A part whose success is backed, from a trace with `Pre`.
  abbrev pub Sound : (List Event → Type 0) → M W Verdict → Type 0
  Sound Pre c = Triple (λ w. Pre w.trace) c (λ v w. Backed T tools p v w.trace)

  -- The newest query of the attempt was answered so.
  abbrev pub Answered : Option Identity → List Event → Type 0
  Answered o es = last_identity tools p.username es ≡ o

  pub query :
      {P : Worker W → Type 0}
      → Triple P (online W tools line g p.username) (λ r w. Answered (read_reply r) w.trace)
  query =
      weaken_rule (online_rule tools line g (λ _. Unit) (λ e es k x. x) p.username) (λ w x. tt)
        (λ r w x. x.1)

  -- A part that sends nothing is backed where the answer is.
  pub backed_rule :
      {c : M W Verdict} (o : Option Identity) → T o ≡ true → Quiet c → Sound (Answered o) c
  backed_rule o t h =
      weaken_rule
        (adds_rule (Answered o) (λ e es k x. last_identity-plain tools p.username o e es k x) h)
        (λ w x. x) (λ v w x s. rw x t)

  pub quietly :
      {A : Type 0} {c : M W A} (o : Option Identity)
      → Quiet c
      → Triple (λ w. Answered o w.trace) c (λ _ w. Answered o w.trace)
  quietly o h =
      adds_rule (Answered o) (λ e es k x. last_identity-plain tools p.username o e es k x) h
