-- ===== src/Worker/Confirm.antt =====
-- core/internal/application/connectivity.go, and verifyOnce of authworker.go: whether the session and the line are what
-- the action wanted. None of this sends credentials or ends a session.
use smart_srun.Prelude.{
  Bool, true, false, not, ◌&&◌, ◌||◌, Option, none, some, [], if◌then◌else◌, Bytes, codes,
}
use smart_srun.Domain.Binding.{AuthState, Connectivity}
use smart_srun.Domain.Config.{is_wired}
use smart_srun.Domain.Enums.{CheckMode}
use smart_srun.Domain.Errors.{ErrorCode}
use smart_srun.Observe.View.{Observation}
use smart_srun.Application.Action.{Kind, State, Phase, Diagnosis}
use smart_srun.Auth.Identity.{Identity, state_of}
use smart_srun.Worker.World.{
  World, M, Tools, Gateway, Report, pure, ◌>>=◌, ◌>>◌, checked, when, call, report, associated,
}
use smart_srun.Worker.Transaction.{online}
use smart_srun.Worker.Line.{confirm_unchanged}
use smart_srun.Worker.Attempt.{Attempt, Verdict, succeeded, failed}
use smart_srun.Worker.Radio.{campus_destination, satisfied}

abbrev pub is_internet : Connectivity → Bool
is_internet Connectivity.internet_reachable = true
is_internet _ = false

abbrev pub is_unknown : Connectivity → Bool
is_unknown Connectivity.unknown = true
is_unknown _ = false

abbrev pub is_campus_switch : Kind → Bool
is_campus_switch Kind.switch_campus = true
is_campus_switch Kind.quiet_campus = true
is_campus_switch _ = false

-- `systemFallback`: why not, or none where the system route may answer.
unfoldable pub system_fallback : Tools → Attempt → Option Bytes
system_fallback tools p =
    if not tools.has_system_probe
    then some (codes "unavailable")
    else if p.multi_wan
    then some (codes "skipped_multi_wan")
    else if is_campus_switch p.kind
    then some (codes "skipped_switch")
    else none

-- What the check of a mode found: a level, its diagnosis, and the code of a failure.
pub record Checked : Type 0 where
  pub level : Connectivity
  pub diagnosis : Option Diagnosis
  pub fault : Option (Option ErrorCode)

abbrev pub changes_level : Connectivity → Observation → Observation
changes_level level o = record o {
  connectivity = if is_unknown level then o.connectivity else level;
}

abbrev pub with_level : Connectivity → Verdict → Verdict
with_level level v = elim v.observation [
  | none ↦ v
  | some o ↦ record v { observation = some (changes_level level o) }
]

abbrev pub is_binding_code : ErrorCode → Bool
is_binding_code ErrorCode.binding_changed = true
is_binding_code ErrorCode.binding_unavailable = true
is_binding_code _ = false

abbrev pub forget : Observation → Observation
forget o = record o { auth = AuthState.unknown; connectivity = Connectivity.unknown; identity = [] }

abbrev pub forgotten : Verdict → Verdict
forgotten v = elim v.observation [ none ↦ v | some o ↦ record v { observation = some (forget o) } ]

-- `switch identity.State()`, with its two cases and its default.
unfoldable pub by_state : {W : World} {A : Type 0} → AuthState → M W A → M W A → M W A → M W A
by_state AuthState.verified_self self other rest = self
by_state AuthState.verified_other self other rest = other
by_state _ self other rest = rest

-- The code of a failure of the check, where the cause has none.
abbrev pub code_or_transport : Option ErrorCode → ErrorCode
code_or_transport none = ErrorCode.transport_failure
code_or_transport (some c) = c

-- The end of `verifyConnectivity`.
unfoldable pub with_fault : Option (Option ErrorCode) → Verdict → Verdict
with_fault none v = v
with_fault (some e) v =
    let failing = record v { state = State.failed; code = some (code_or_transport e) } in
    if is_binding_code (code_or_transport e) then forgotten failing else failing

abbrev pub unprobed : Option (Option ErrorCode) → Checked
unprobed fault = record { level = Connectivity.unknown; diagnosis = none; fault = fault }

-- Whether a probe of the system route proves access.
abbrev pub proves : Report × Option (Option ErrorCode) → Bool
proves (r, none) = is_internet r.level
proves (r, some _) = false

-- The verdict on a level, where no probe failed.
abbrev pub level_fault : Connectivity → Option (Option ErrorCode)
level_fault level = if is_internet level then none else some (some ErrorCode.transport_failure)

module _ (W : World) (tools : Tools) (p : Attempt) (line : W.Line) (g : Gateway) where
  -- What a bound probe found that did not prove access, once the system route was asked.
  unfoldable pub ask_system : Report → Option Bytes → M W Checked
  ask_system r (some reason) = pure (record {
    level = r.level;
    diagnosis = some (record {
      via = [];
      bound = r.summary;
      bound_last = r.last_failure;
      system = [];
      fallback = reason;
    });
    fault = level_fault r.level;
  })
  ask_system r none = do
    system ← call (λ s. W.probe s none)
    let level = if proves system then system.0.level else r.level
    pure (record {
      level = level;
      diagnosis = some (record {
        via = if proves system then codes "system" else [];
        bound = r.summary;
        bound_last = r.last_failure;
        system = system.0.summary;
        fallback = codes "used";
      });
      fault = level_fault level;
    })

  -- What a bound probe found.
  unfoldable pub judge_probe : Report × Option (Option ErrorCode) → M W Checked
  judge_probe (r, some e) = pure (record {
    level = r.level;
    diagnosis = some (record {
      via = [];
      bound = r.summary;
      bound_last = r.last_failure;
      system = [];
      fallback = [];
    });
    fault = some e;
  })
  judge_probe (r, none) =
      when (is_internet r.level)
        (pure (record {
          level = r.level;
          diagnosis = some (record {
            via = codes "bound";
            bound = r.summary;
            bound_last = r.last_failure;
            system = [];
            fallback = [];
          });
          fault = none;
        }))
        (ask_system r (system_fallback tools p))

  -- `CheckInternet`.
  unfoldable pub check_internet : M W Checked
  check_internet = call (λ s. W.probe s (some line)) >>= judge_probe

  -- The switch of `verifyConnectivity`.
  unfoldable pub check_mode : CheckMode → M W Checked
  check_mode CheckMode.internet = check_internet
  check_mode CheckMode.portal = pure (unprobed none)
  check_mode CheckMode.ssid = pure (
      unprobed (
        if not (is_wired p.account) && not tools.has_wireless
        then some (some ErrorCode.unsupported_capability)
        else none))
  check_mode CheckMode.unknown = pure (unprobed (some (some ErrorCode.invalid_config)))

  -- `p.failed(a, cause, domain.AuthUnknown, "")`.
  abbrev pub lost : Option ErrorCode → M W Verdict
  lost e = failed p e AuthState.unknown []

  -- The check of the association, and the end of `verifyConnectivity`.
  unfoldable pub check_radio : Verdict → M W Verdict
  check_radio v = when (is_wired p.account || not tools.has_wireless) (pure v) (
      checked (pure (campus_destination tools p.account)) lost (λ d.
        checked (associated p.account.radio) lost
          (λ seen. when (satisfied tools d seen) (pure v) (lost (some ErrorCode.binding_changed)))))

  -- `verifyConnectivity`.
  unfoldable pub verify_connectivity : Bytes → M W Verdict
  verify_connectivity identity = do
    v ← succeeded p identity
    c ← check_mode p.checks.mode
    checked (confirm_unchanged p.account p.binding) lost (λ _.
        check_radio
          (with_fault c.fault (with_level c.level (record v { connectivity = c.diagnosis }))))

  -- The switch of `verifyOnce`.
  abbrev pub judge_identity : Identity → M W Verdict
  judge_identity i =
      by_state (state_of i) (verify_connectivity i.username)
        (failed p (some ErrorCode.online_identity_mismatch) AuthState.verified_other i.username)
        (failed p (some ErrorCode.deadline_exceeded) AuthState.accepted [])

  -- `verifyOnce`.
  unfoldable pub verify_once : Option Identity → M W Verdict
  verify_once (some i) = report Phase.verify >> judge_identity i
  verify_once none =
      report Phase.verify
      >> checked (online W tools line g p.username) (λ e. failed p e AuthState.accepted [])
          judge_identity

  -- `checkExisting`: the verdict that ends the action, or none.
  unfoldable pub check_existing : M W (Option Verdict)
  check_existing = do
    report Phase.verify
    checked (online W tools line g p.username) (λ e. lost e >>= λ v. pure (some v))
        (λ i.
          by_state (state_of i) (verify_connectivity i.username >>= λ v. pure (some v))
            (failed p (some ErrorCode.online_identity_mismatch) AuthState.verified_other i.username
              >>= λ v. pure (some v))
            (pure none))
