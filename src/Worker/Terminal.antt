-- ===== src/Worker/Terminal.antt =====
-- core/internal/application/terminal.go: the checks that are repeated until a session or its end is
-- confirmed. None of this sends credentials or ends a session.
use smart_srun.Prelude.{
  ℕ, zero, suc, ◌+◌, ◌-◌, ◌*◌, min, max, Bool, true, false, not, ◌&&◌, ◌||◌, Option, none, some, [],
  if◌then◌else◌, Bytes, bytes_eq,
}
use smart_srun.Domain.Binding.{AuthState}
use smart_srun.Domain.Errors.{ErrorCode}
use smart_srun.Application.Action.{State, Phase}
use smart_srun.Auth.Answer.{Reply}
use smart_srun.Auth.Identity.{Identity, state_of}
use smart_srun.Configuration.Defaults.{max_terminal_attempts, max_terminal_interval_seconds}
use smart_srun.Worker.World.{World, M, Tools, Gateway, pure, ◌>>=◌, ◌>>◌, when, view, call, report}
use smart_srun.Worker.Transaction.{online, second}
use smart_srun.Worker.Line.{confirm_unchanged}
use smart_srun.Worker.Attempt.{
  Attempt, Verdict, is_manual_intent, went_offline, unconfirmed, failed,
}
use smart_srun.Worker.Confirm.{verify_once}

abbrev pub is_transient : Option ErrorCode → Bool
is_transient (some ErrorCode.transport_failure) = true
is_transient (some ErrorCode.dns_failure) = true
is_transient (some ErrorCode.deadline_exceeded) = true
is_transient _ = false

abbrev pub is_failed : State → Bool
is_failed State.failed = true
is_failed _ = false

-- `retryableTerminal`.
unfoldable pub retryable_terminal : Verdict → Bool
retryable_terminal v = is_failed v.state && is_transient v.code

-- The number of checks in `terminalChecks`, of an `int` that is not negative.
unfoldable pub check_count : Attempt → ℕ
check_count p =
    if is_manual_intent p.intent || p.confirm_terminal
    then max 1 (min max_terminal_attempts p.checks.terminal_attempts)
    else 1

-- Nanoseconds between two of them.
unfoldable pub check_interval : Attempt → ℕ
check_interval p =
    max 1 (min max_terminal_interval_seconds p.checks.terminal_interval_seconds) * second

module _ (W : World) (p : Attempt) where
  -- A check, whose result says whether it may be tried again, unless the line has moved.
  abbrev pub unless_moved : Reply (Unit {0}) → M W (Verdict × Bool) → M W (Verdict × Bool)
  unless_moved (Reply.ok _) check = check
  unless_moved (Reply.err e) check = failed p e AuthState.unknown [] >>= λ v. pure (v, false)

  abbrev pub unless_stopped : Option ErrorCode → M W (Verdict × Bool) → M W (Verdict × Bool)
  unless_stopped none go = go
  unless_stopped (some e) go = failed p (some e) AuthState.unknown [] >>= λ v. pure (v, false)

  abbrev pub line_before : Bool → M W (Reply (Unit {0}))
  line_before first = when first (pure (Reply.ok tt)) (confirm_unchanged p.account p.binding)

  -- One round of `terminalChecks`; `check` is told whether it is the first.
  unfoldable pub terminal_round : (Bool → M W (Verdict × Bool)) → Bool → M W (Verdict × Bool)
  terminal_round check first = do
    stopped ← view W.stopped
    unless_stopped stopped (line_before first >>= λ unchanged. unless_moved unchanged (check first))

  abbrev pub pause : M W (Unit {0})
  pause = call (λ s. (tt, W.wait_until s (W.now s + check_interval p)))

  -- The loop of `terminalChecks`, with the rounds that are left after this one.
  unfoldable pub terminal_loop : (Bool → M W (Verdict × Bool)) → ℕ → Bool → M W Verdict
  terminal_loop check zero first = terminal_round check first >>= λ r. pure (r.0)
  terminal_loop check (suc n) first = terminal_round check first >>= λ r.
      when (not (r.1)) (pure (r.0)) (pause >> terminal_loop check n false)

  -- `terminalChecks`.
  unfoldable pub terminal_checks : (Bool → M W (Verdict × Bool)) → M W Verdict
  terminal_checks check = terminal_loop check (check_count p - 1) true

module _ (W : World) (tools : Tools) (p : Attempt) (line : W.Line) (g : Gateway) where
  -- The closure of `verifySession`: only the first check goes by an identity that is known.
  abbrev pub session_check : Option Identity → Bool → M W (Verdict × Bool)
  session_check known first = verify_once W tools p line g (if first then known else none) >>= λ v.
      pure (v, retryable_terminal v)

  -- `verifySession`.
  unfoldable pub verify_session : Option Identity → M W Verdict
  verify_session known = terminal_checks W p (session_check known)

  -- What `verifyLogout` makes of an answer, on a line that did not move.
  unfoldable pub judge_logout : Bytes → Reply Identity → M W (Verdict × Bool)
  judge_logout identity (Reply.err e) = unconfirmed p identity >>= λ v. pure (v, is_transient e)
  judge_logout identity (Reply.ok i) =
      when (not i.present) (went_offline p >>= λ v. pure (v, false)) (
        failed p (some ErrorCode.conflict) (state_of i) i.username >>= λ v.
        pure (v, bytes_eq i.username identity))

  -- The closure of `verifyLogout`.
  unfoldable pub logout_check : Bytes → Bool → M W (Verdict × Bool)
  logout_check identity first = do
    report Phase.verify
    after ← online W tools line g p.username
    unchanged ← confirm_unchanged p.account p.binding
    unless_moved W p unchanged (judge_logout identity after)

  -- `verifyLogout`.
  unfoldable pub verify_logout : Bytes → M W Verdict
  verify_logout identity = terminal_checks W p (logout_check identity)
