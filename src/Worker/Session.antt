-- ===== src/Worker/Session.antt =====
-- core/internal/application/authworker.go: the login and the logout.
use smart_srun.Prelude.{Bool, true, false, not, ◌&&◌, Option, none, some, [], if◌then◌else◌, Bytes}
use smart_srun.Domain.Binding.{AuthState}
use smart_srun.Domain.Config.{CampusAccount, campus_account_by_id, is_wired}
use smart_srun.Domain.Errors.{ErrorCode}
use smart_srun.Application.Action.{Kind, Phase}
use smart_srun.Auth.Answer.{Reply, Result}
use smart_srun.Auth.Identity.{Identity, state_of}
use smart_srun.Worker.World.{
  World, M, Tools, Gateway, pure, ◌>>=◌, ◌>>◌, checked, when, view, report, associated,
}
use smart_srun.Worker.Transaction.{challenge, login, online, logout}
use smart_srun.Worker.Line.{confirm_unchanged}
use smart_srun.Worker.Attempt.{
  Task, Attempt, Verdict, is_manual_intent, failure, done_with, failed, went_offline,
}
use smart_srun.Worker.Prepare.{Prepared, prepare}
use smart_srun.Worker.Radio.{campus_destination, satisfied, ensure_wireless_line}
use smart_srun.Worker.Confirm.{by_state, check_existing}
use smart_srun.Worker.Terminal.{verify_session, verify_logout}

abbrev pub is_rejected : AuthState → Bool
is_rejected AuthState.rejected = true
is_rejected _ = false

module _ (W : World) (tools : Tools) (p : Attempt) (line : W.Line) (g : Gateway) where
  -- `attemptLogin`: the challenge, the line once more, the credentials.
  unfoldable pub attempt_login : M W (Reply Result)
  attempt_login = do
    report Phase.challenge
    checked (challenge W tools line g p.username) (λ e. pure (Reply.err e))
        (λ c.
          checked (confirm_unchanged p.account p.binding) (λ e. pure (Reply.err e))
            (λ _. do
              report Phase.login
              login W tools line g p.username p.account.password p.shape c))

  -- `verify`.
  abbrev pub verify : M W Verdict
  verify = verify_session W tools p line g none

  -- The end of `clearAndRetry`, from the result of the second login.
  unfoldable pub settle_retry : Bytes → Result → M W Verdict
  settle_retry identity r =
      when r.already_online (failed p (some ErrorCode.conflict) AuthState.accepted identity) (
        when (is_rejected r.state)
          (failed p (some ErrorCode.auth_rejected) AuthState.rejected r.identity) verify)

  -- `clearAndRetry`.
  unfoldable pub clear_and_retry : Bytes → Bytes → M W Verdict
  clear_and_retry session_username identity = do
    report Phase.logout
    checked (logout W tools line g session_username [])
        (λ e. failed p e AuthState.verified_other identity)
        (λ cleared.
          when (is_rejected cleared.state)
            (failed p (some ErrorCode.conflict) AuthState.verified_other identity)
            (checked attempt_login (λ e. failed p e AuthState.authenticating [])
              (settle_retry identity)))

  -- The switch of `settleAlreadyOnline`.
  unfoldable pub settle_identity : Identity → M W Verdict
  settle_identity i =
      by_state (state_of i) (verify_session W tools p line g (some i))
        (when (not (is_manual_intent p.intent))
          (failed p (some ErrorCode.online_identity_mismatch) AuthState.verified_other i.username)
          (clear_and_retry i.session_username i.username))
        (clear_and_retry p.account.user_id p.username)

  -- `settleAlreadyOnline`.
  unfoldable pub settle_already_online : M W Verdict
  settle_already_online = do
    report Phase.verify
    checked (online W tools line g p.username) (λ e. failed p e AuthState.accepted [])
        settle_identity

  -- `authenticate`, from the result of the first login.
  unfoldable pub settle_login : Result → M W Verdict
  settle_login r = when r.already_online settle_already_online (
      when (is_rejected r.state)
        (failed p (some ErrorCode.auth_rejected) AuthState.rejected r.identity) verify)

  -- `authenticate`, from the first login.
  unfoldable pub first_login : M W Verdict
  first_login = checked attempt_login (λ e. failed p e AuthState.authenticating []) settle_login

  abbrev pub observes_first : Kind → Bool
  observes_first Kind.maintain = true
  observes_first Kind.quiet_campus = true
  observes_first _ = false

  abbrev pub unless_settled : Option Verdict → M W Verdict
  unless_settled (some v) = pure v
  unless_settled none = first_login

  -- `authenticate`, on a line that is ready.
  unfoldable pub sign_in : M W Verdict
  sign_in =
      when (observes_first p.kind) (check_existing W tools p line g >>= unless_settled) first_login

  -- `logout`, from the session that the line reported.
  unfoldable pub end_session : Identity → M W Verdict
  end_session i = when (not i.present) (went_offline p) (
      when (not i.matches_expected && not (is_manual_intent p.intent))
        (failed p (some ErrorCode.online_identity_mismatch) AuthState.verified_other i.username)
        (do
          report Phase.logout
          checked (logout W tools line g i.session_username i.client_ip)
              (λ e. failed p e (state_of i) i.username)
              (λ r.
                when (is_rejected r.state)
                  (failed p (some ErrorCode.auth_rejected) (state_of i) i.username)
                  (verify_logout W tools p line g i.username))))

  -- `logout`, on a line that is ready.
  unfoldable pub sign_out : M W Verdict
  sign_out = do
    report Phase.verify
    checked (online W tools line g p.username) (λ e. failed p e AuthState.unknown []) end_session

module _ (W : World) (tools : Tools) where
  abbrev pub on_line : (Attempt → W.Line → Gateway → M W Verdict) → Prepared W.Line → M W Verdict
  on_line go (Prepared.ready p g line) = go p line g
  on_line go (Prepared.ended v) = pure v

  abbrev pub unless_ended : Option Verdict → M W Verdict → M W Verdict
  unless_ended (some v) go = pure v
  unless_ended none go = go

  -- `authenticate`.
  unfoldable pub authenticate : Task → M W Verdict
  authenticate t = ensure_wireless_line W tools t >>= λ stop.
      unless_ended stop (prepare W tools t >>= on_line (sign_in W tools))

  abbrev pub is_forced_logout : Kind → Bool
  is_forced_logout Kind.forced_logout = true
  is_forced_logout _ = false

  -- The test of `logout` that the radio is on the account's own network: the verdict that ends it, or none.
  unfoldable pub off_campus : Task → CampusAccount → M W (Option Verdict)
  off_campus t a =
      checked (associated a.radio) (λ e. pure (some (failure e)))
        (λ seen.
          checked (pure (campus_destination tools a)) (λ e. pure (some (failure e)))
            (λ d. pure (
              if satisfied tools d seen
              then none
              else some (
                  if is_forced_logout t.kind
                  then done_with
                  else failure (some ErrorCode.binding_unavailable)))))

  abbrev pub off_campus_of : Task → Option CampusAccount → M W (Option Verdict)
  off_campus_of t none = pure none
  off_campus_of t (some a) = when (is_wired a) (pure none) (off_campus t a)

  -- `logout`.
  unfoldable pub log_out : Task → M W Verdict
  log_out t = do
    c ← view W.config
    stop ←
        when (not tools.has_wireless) (pure none)
          (off_campus_of t (campus_account_by_id c.campus_accounts t.account_id))
    unless_ended stop (prepare W tools t >>= on_line (sign_out W tools))
