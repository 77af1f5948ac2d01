-- ===== src/Worker/Prepare.antt =====
-- core/internal/application/authworker.go: `prepare`, which resolves everything that an attempt needs.
use smart_srun.Prelude.{ℕ, Bool, true, false, Option, none, some, [], Bytes}
use smart_srun.Domain.Binding.{Binding, AuthState, stamped}
use smart_srun.Domain.Config.{Config, CampusAccount, campus_account_by_id}
use smart_srun.Domain.Errors.{ErrorCode}
use smart_srun.Application.Action.{Kind, Phase}
use smart_srun.Configuration.Defaults.{effective_login, effective_username}
use smart_srun.Worker.World.{
  World, M, Tools, Gateway, pure, ◌>>=◌, ◌>>◌, checked, view, call, report,
}
use smart_srun.Worker.Gateway.{parse_gateway}
use smart_srun.Worker.Line.{line_interface, observe_line}
use smart_srun.Worker.Attempt.{
  intent_of, shape_of, Task, Attempt, Verdict, failure, failed, link_failure,
}

abbrev confirms : Kind → Bool
confirms Kind.forced_logout = true
confirms Kind.quiet_campus = true
confirms _ = false

-- The attempt of `prepare`, before its line is observed.
unfoldable pub attempt_of : Config → ℕ → Task → CampusAccount → Attempt
unfolding confirms
attempt_of c revision t a = record {
  account = a;
  username = effective_username a;
  shape = shape_of (effective_login c a);
  intent = intent_of t.kind;
  checks = c.checks;
  kind = t.kind;
  multi_wan = c.multi_wan_enabled;
  confirm_terminal = confirms t.kind;
  revision = revision;
  binding = stamped 0;
  sequence = t.sequence;
}

-- An attempt with its gateway and its line, or the verdict that ends it.
pub data Prepared (Line : Type 0) : Type 0 where
  ready : Attempt → Gateway → Line → Prepared Line
  ended : Verdict → Prepared Line

module _ (W : World) (tools : Tools) where
  abbrev pub ends : M W Verdict → M W (Prepared W.Line)
  ends c = c >>= λ v. pure (Prepared.ended v)

  -- `prepare`, from the gateway on.
  unfoldable pub open_line : Attempt → M W (Prepared W.Line)
  open_line p =
      checked (pure (parse_gateway tools p.account.base_url p.account.acid))
        (λ e. ends (failed p e AuthState.unknown []))
        (λ g.
          checked (call (λ s. W.line s p.account.id p.binding g.base_url))
            (λ e. ends (failed p e AuthState.unknown [])) (λ line. pure (Prepared.ready p g line)))

  -- `prepare`, from an observation of the line on.
  unfoldable pub bind_line :
      Attempt → Bytes → Binding × Option (Option ErrorCode) → M W (Prepared W.Line)
  bind_line p iface (b, some e) = ends (link_failure (record p { binding = b }) iface e)
  bind_line p iface (b, none) = open_line (record p { binding = b })

  -- `prepare`, with the account that was found.
  unfoldable pub prepare_account : Config → Attempt → M W (Prepared W.Line)
  prepare_account c p =
      checked (pure (line_interface c p.account)) (λ e. ends (link_failure p [] e))
        (λ iface. do
          report Phase.waiting_link
          seen ← observe_line p.account.id iface
          bind_line p iface seen)

  abbrev pub prepare_found : Config → ℕ → Task → Option CampusAccount → M W (Prepared W.Line)
  prepare_found c revision t none = pure (Prepared.ended (failure (some ErrorCode.not_found)))
  prepare_found c revision t (some a) = prepare_account c (attempt_of c revision t a)

  -- `prepare`.
  unfoldable pub prepare : Task → M W (Prepared W.Line)
  prepare t = do
    c ← view W.config
    revision ← view W.revision
    prepare_found c revision t (campus_account_by_id c.campus_accounts t.account_id)
