-- ===== src/Worker/Actions/Preparation.antt =====
-- The attempt that `prepare` makes serves its action.
use smart_srun.Prelude.{
  ℕ, ◌≡◌, refl, ap, ◌∙◌, false, Option, none, some, Bytes, Option-cases, [], arith,
}
use smart_srun.Domain.Binding.{Binding, AuthState, LinkState}
use smart_srun.Domain.Config.{Config, CampusAccount, campus_account_by_id}
use smart_srun.Domain.Errors.{ErrorCode}
use smart_srun.Worker.World.{World, M, Tools, view, ◌>>=◌}
use smart_srun.Worker.Rules.{Triple, bind_rule, pure_rule, view_rule, checked_rule, any_rule}
use smart_srun.Worker.Attempt.{Task, Attempt, Verdict, failed, failed_at, link_failure, relinked}
use smart_srun.Worker.Prepare.{
  Prepared, attempt_of, ends, open_line, bind_line, prepare_account, prepare_found, prepare,
}
use smart_srun.Worker.Switch.{has_succeeded}
use smart_srun.Worker.Actions.{IsConfigured, Serves}

pub attempt_of-Serves :
    (W : World) (c : Config) (revision : ℕ) (t : Task) (a : CampusAccount)
    → IsConfigured W t a
    → Serves W t (attempt_of c revision t a)
unfolding attempt_of
attempt_of-Serves W c revision t a e = record { configured = e; username = refl; intent = refl }

bound-Serves :
    (W : World) (t : Task) (p : Attempt) (b : Binding)
    → Serves W t p
    → Serves W t (record p { binding = b })
bound-Serves W t p b s = record {
  configured = s.configured;
  username = s.username;
  intent = s.intent;
}

failed_at-fails :
    (p : Attempt) (now : ℕ) (e : Option ErrorCode) (a : AuthState) (identity : Bytes)
    → has_succeeded (failed_at p now e a identity) ≡ false
unfolding failed_at
failed_at-fails p now e a identity = refl

relinked-fails :
    (link : LinkState) (v : Verdict)
    → has_succeeded v ≡ false
    → has_succeeded (relinked link v) ≡ false
relinked-fails link v x = ground (arith, Option-cases v.observation)

module _ (W : World) (tools : Tools) (t : Task) where
  -- What `prepare` gives: an attempt that serves the action, or a verdict that is no success.
  abbrev pub Ready : Prepared W.Line → Type 0
  Ready (Prepared.ready p g line) = Serves W t p
  Ready (Prepared.ended v) = has_succeeded v ≡ false

  abbrev Gives : M W (Prepared W.Line) → Type 0
  Gives c = Triple (λ w. Unit {0}) c (λ r w. Ready r)

  abbrev Fails : M W Verdict → Type 0
  Fails c = Triple (λ w. Unit {0}) c (λ v w. has_succeeded v ≡ false)

  ends-Gives : (c : M W Verdict) → Fails c → Gives (ends W tools c)
  ends-Gives c h = bind_rule h (λ v. pure_rule _ (λ w x. x))

  failed-Fails :
      (p : Attempt) (e : Option ErrorCode) (a : AuthState) (identity : Bytes)
      → Fails (failed p e a identity)
  failed-Fails p e a identity =
      view_rule _ (λ w x. failed_at-fails p (W.now w.outside) e a identity)

  link_failure-Fails :
      (p : Attempt) (iface : Bytes) (e : Option ErrorCode) → Fails (link_failure p iface e)
  unfolding link_failure
  link_failure-Fails p iface e = bind_rule {R = λ _ w. Unit {0}} (any_rule _) (λ link.
      bind_rule (failed-Fails p e AuthState.unknown [])
        (λ v. pure_rule _ (λ w x. relinked-fails link v x)))

  open_line-Gives : (p : Attempt) → Serves W t p → Gives (open_line W tools p)
  unfolding open_line
  open_line-Gives p s =
      checked_rule {R = λ _ w. Unit {0}} (any_rule _)
        (λ e. ends-Gives _ (failed-Fails p e AuthState.unknown []))
        (λ g.
          checked_rule {R = λ _ w. Unit {0}} (any_rule _)
            (λ e. ends-Gives _ (failed-Fails p e AuthState.unknown []))
            (λ line. pure_rule _ (λ w x. s)))

  bind_line-Gives :
      (p : Attempt) (iface : Bytes) (r : Binding × Option (Option ErrorCode))
      → Serves W t p
      → Gives (bind_line W tools p iface r)
  unfolding bind_line
  bind_line-Gives p iface (b, some e) s = ends-Gives _ (link_failure-Fails _ iface e)
  bind_line-Gives p iface (b, none) s = open_line-Gives _ (bound-Serves W t p b s)

  prepare_account-Gives :
      (c : Config) (p : Attempt) → Serves W t p → Gives (prepare_account W tools c p)
  unfolding prepare_account
  prepare_account-Gives c p s =
      checked_rule {R = λ _ w. Unit {0}} (any_rule _)
        (λ e. ends-Gives _ (link_failure-Fails p [] e))
        (λ iface.
          bind_rule {R = λ _ w. Unit {0}} (any_rule _)
            (λ _. bind_rule {R = λ _ w. Unit {0}} (any_rule _) (λ r. bind_line-Gives p iface r s)))

  prepare_found-Gives :
      (c : Config) (revision : ℕ) (o : Option CampusAccount)
      → ((a : CampusAccount) → o ≡ some a → IsConfigured W t a)
      → Gives (prepare_found W tools c revision t o)
  prepare_found-Gives c revision none h = pure_rule _ (λ w x. refl)
  prepare_found-Gives c revision (some a) h =
      prepare_account-Gives c _ (attempt_of-Serves W c revision t a (h a refl))

  abbrev IsRead : Config → Type 0
  IsRead c = (s : W.State) × (W.config s ≡ c)

  prepare_read-Gives :
      (c : Config)
      → IsRead c
      → Gives (
          view W.revision >>= λ revision.
          prepare_found W tools c revision t (campus_account_by_id c.campus_accounts t.account_id))
  prepare_read-Gives c (s, e) = bind_rule {R = λ _ w. Unit {0}} (any_rule _) (λ revision.
      prepare_found-Gives c revision _
        (λ a found. (s, ap (λ d. campus_account_by_id d.campus_accounts t.account_id) e ∙ found)))

  pub prepare-Gives : Triple (λ w. Unit {0}) (prepare W tools t) (λ r w. Ready r)
  unfolding prepare
  prepare-Gives =
      bind_rule {R = λ c w. IsRead c} (view_rule _ (λ w x. (w.outside, refl)))
        (λ c. record { after_run = λ w r. (prepare_read-Gives c r).after_run w tt })
