-- ===== src/Worker/Trace/Harmless.antt =====
-- The parts of a worker that send no credentials and end no session: the queries, and the checks that
-- are made of them.
use smart_srun.Prelude.{ℕ, zero, suc, ◌-◌, ◌≡◌, refl, Bool, true, false, Option, none, some, Bytes}
use smart_srun.Domain.Config.{CampusAccount}
use smart_srun.Domain.Binding.{Binding}
use smart_srun.Domain.Errors.{ErrorCode}
use smart_srun.Auth.Answer.{Reply}
use smart_srun.Auth.Identity.{Identity}
use smart_srun.Worker.World.{World, M, Tools, Gateway, Event, Request}
use smart_srun.Worker.Trace.{
  is_plain, is_harmless, OnlyAdds, adds, bind_adds, pure_adds, call_adds, when_adds, loosen,
}
use smart_srun.Worker.Trace.Quiet.{Quiet, confirm_unchanged-Quiet, verify_connectivity-Quiet}
use smart_srun.Worker.Transaction.{challenge, online}
use smart_srun.Worker.Attempt.{Attempt, Verdict}
use smart_srun.Worker.Line.{confirm_unchanged}
use smart_srun.Worker.Confirm.{verify_connectivity, verify_once, check_existing}
use smart_srun.Worker.Terminal.{
  terminal_round, terminal_loop, terminal_checks, check_count, unless_moved, unless_stopped,
  session_check, verify_session, judge_logout, logout_check, verify_logout,
}

plain-harmless : (e : Event) → is_plain e ≡ true → is_harmless e ≡ true
plain-harmless (Event.sent (Request.challenge_request _ _ _) _) h = refl
plain-harmless (Event.sent (Request.login_request _) _) h = h
plain-harmless (Event.sent (Request.online_request _ _) _) h = refl
plain-harmless (Event.sent (Request.logout_request _) _) h = h
plain-harmless (Event.reported _) h = refl
plain-harmless (Event.resolved _ _ _) h = refl
plain-harmless (Event.retired _ _) h = refl
plain-harmless (Event.moved _) h = refl
plain-harmless Event.left h = refl

module _ {W : World} where
  abbrev pub Harmless : {A : Type 0} → M W A → Type 0
  Harmless c = OnlyAdds is_harmless c

  pub Quiet-Harmless : {A : Type 0} {c : M W A} → Quiet c → Harmless c
  Quiet-Harmless h = loosen plain-harmless h

  confirm_unchanged-Harmless :
      (account : CampusAccount) (b : Binding) → Harmless (confirm_unchanged account b)
  confirm_unchanged-Harmless account b = Quiet-Harmless (confirm_unchanged-Quiet account b)

module _ (W : World) (tools : Tools) (line : W.Line) (g : Gateway) where
  pub challenge-Harmless : (username : Bytes) → Harmless (challenge W tools line g username)
  unfolding challenge
  challenge-Harmless username = search adds depth 30

  pub online-Harmless : (username : Bytes) → Harmless (online W tools line g username)
  unfolding online
  online-Harmless username = search adds depth 30

  module _ (p : Attempt) where
    connectivity-Harmless :
        (identity : Bytes) → Harmless (verify_connectivity W tools p line g identity)
    connectivity-Harmless identity =
        Quiet-Harmless (verify_connectivity-Quiet W tools p line g identity)

    pub verify_once-Harmless : (o : Option Identity) → Harmless (verify_once W tools p line g o)
    unfolding verify_once
    verify_once-Harmless none = search (adds, online-Harmless, connectivity-Harmless) depth 30
    verify_once-Harmless (some i) = search (adds, connectivity-Harmless) depth 30

    pub check_existing-Harmless : Harmless (check_existing W tools p line g)
    unfolding check_existing
    check_existing-Harmless = search (adds, online-Harmless, connectivity-Harmless) depth 30

module _ (W : World) (p : Attempt) where
  unless_moved-Harmless :
      (r : Reply (Unit {0})) {c : M W (Verdict × Bool)}
      → Harmless c
      → Harmless (unless_moved W p r c)
  unless_moved-Harmless (Reply.ok x) h = h
  unless_moved-Harmless (Reply.err e) h = search adds

  unless_stopped-Harmless :
      (o : Option ErrorCode) {c : M W (Verdict × Bool)}
      → Harmless c
      → Harmless (unless_stopped W p o c)
  unless_stopped-Harmless none h = h
  unless_stopped-Harmless (some e) h = search adds

  module _ (check : Bool → M W (Verdict × Bool)) (h : (first : Bool) → Harmless (check first)) where
    round-Harmless : (first : Bool) → Harmless (terminal_round W p check first)
    unfolding terminal_round
    round-Harmless first =
        search (adds, unless_stopped-Harmless, unless_moved-Harmless, confirm_unchanged-Harmless, h)
          depth 30

    loop-Harmless : (n : ℕ) (first : Bool) → Harmless (terminal_loop W p check n first)
    unfolding terminal_loop
    loop-Harmless zero first = search (adds, round-Harmless)
    loop-Harmless (suc n) first =
        bind_adds (round-Harmless first)
          (λ r. when_adds _ (pure_adds _) (bind_adds (call_adds _) (λ _. loop-Harmless n false)))

    pub terminal_checks-Harmless : Harmless (terminal_checks W p check)
    unfolding terminal_checks
    terminal_checks-Harmless = loop-Harmless (check_count p - 1) true

module _ (W : World) (tools : Tools) (p : Attempt) (line : W.Line) (g : Gateway) where
  session_check-Harmless :
      (known : Option Identity) (first : Bool)
      → Harmless (session_check W tools p line g known first)
  session_check-Harmless known first = search (adds, verify_once-Harmless) depth 30

  pub verify_session-Harmless :
      (known : Option Identity) → Harmless (verify_session W tools p line g known)
  unfolding verify_session
  verify_session-Harmless known = terminal_checks-Harmless W p _ (session_check-Harmless known)

  judge_logout-Harmless :
      (identity : Bytes) (r : Reply Identity) → Harmless (judge_logout W tools p line g identity r)
  unfolding judge_logout
  judge_logout-Harmless identity (Reply.ok i) = search adds depth 30
  judge_logout-Harmless identity (Reply.err e) = search adds depth 30

  logout_check-Harmless :
      (identity : Bytes) (first : Bool) → Harmless (logout_check W tools p line g identity first)
  unfolding logout_check
  logout_check-Harmless identity first =
      search
        (
          adds, online-Harmless, confirm_unchanged-Harmless, unless_moved-Harmless,
          judge_logout-Harmless,
        )
        depth 30

  pub verify_logout-Harmless :
      (identity : Bytes) → Harmless (verify_logout W tools p line g identity)
  unfolding verify_logout
  verify_logout-Harmless identity = terminal_checks-Harmless W p _ (logout_check-Harmless identity)
