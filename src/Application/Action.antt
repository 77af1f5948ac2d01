-- ===== src/Application/Action.antt =====
-- core/internal/application/action.go: kinds, states, requests and actions. A string is its bytes,
-- an instant a number of nanoseconds. An action's ID is `instanceID-a<ordinal>`, one string for each
-- ordinal of a coordinator, so the ordinal stands for it.
use smart_srun.Prelude.{ℕ, Bool, true, false, Option, List, [], Bytes, if◌then◌else◌}
use smart_srun.Domain.Errors.{ErrorCode}
use smart_srun.Observe.View.{Observation}
use smart_srun.Policy.Priority.{Priority, periodic, maintenance, quiet_boundary, user_action}

pub data Kind : Type 0 where
  login logout relogin switch_campus switch_hotspot maintain forced_logout : Kind
  quiet_hotspot quiet_campus presets_refresh detect_acid detect_environment : Kind
  detect_operators detect_identity detect_verify wifi_setup_start wifi_setup_cancel : Kind

-- `WifiSetup`.
abbrev is_wifi_setup : Kind → Bool
is_wifi_setup Kind.wifi_setup_start = true
is_wifi_setup Kind.wifi_setup_cancel = true
is_wifi_setup _ = false

-- `Discovery`.
abbrev is_discovery : Kind → Bool
is_discovery Kind.detect_acid = true
is_discovery Kind.detect_environment = true
is_discovery Kind.detect_operators = true
is_discovery Kind.detect_identity = true
is_discovery Kind.detect_verify = true
is_discovery _ = false

abbrev pub switches : Kind → Bool
switches Kind.logout = true
switches Kind.switch_campus = true
switches Kind.switch_hotspot = true
switches Kind.quiet_hotspot = true
switches Kind.quiet_campus = true
switches k = is_wifi_setup k

abbrev pub priority : Kind → Priority
priority Kind.presets_refresh = periodic
priority Kind.maintain = maintenance
priority Kind.forced_logout = quiet_boundary
priority Kind.quiet_hotspot = quiet_boundary
priority Kind.quiet_campus = quiet_boundary
priority _ = user_action

-- `Manual`.
abbrev pub is_manual : Kind → Bool
is_manual Kind.maintain = false
is_manual Kind.forced_logout = false
is_manual Kind.quiet_hotspot = false
is_manual Kind.quiet_campus = false
is_manual Kind.presets_refresh = false
is_manual _ = true

abbrev pub is_presets_refresh : Kind → Bool
is_presets_refresh Kind.presets_refresh = true
is_presets_refresh _ = false

abbrev pub is_logout : Kind → Bool
is_logout Kind.logout = true
is_logout _ = false

pub data State : Type 0 where
  queued running succeeded failed cancelled interrupted : State

-- `Terminal`.
abbrev pub is_terminal : State → Bool
is_terminal State.queued = false
is_terminal State.running = false
is_terminal _ = true

pub data Phase : Type 0 where
  waiting_link challenge login verify logout switch fetch prepare activate : Phase
  association address commit rollback retire reuse : Phase
  -- a string that is no known phase
  other : Bytes → Phase

-- `knownPhase` of timing.go.
abbrev pub is_known_phase : Phase → Bool
is_known_phase (Phase.other _) = false
is_known_phase _ = true

pub record Request : Type 0 where
  pub kind : Kind
  pub account_id : Bytes
  pub hotspot_id : Bytes
  pub iface : Bytes
  pub probe_url : Bytes
  pub probe_ssid : Bytes
  pub probe_mode : Bytes
  pub probe_school : Bytes
  pub probe_acid : Bytes
  pub owner : Bytes
  pub setup_job : Bytes
  pub private_json : Bytes
  pub private_digest : Bytes
  pub idempotency_key : Bytes
  pub ignore_quiet : Bool
  pub check_revision : Bool
  pub config_revision : ℕ

-- The texts that the coordinator writes itself, a worker's, and that of a refused check.
pub data Message : Type 0 where
  blank action_cancelled cancelled_before_start over_budget queue_timeout : Message
  stopped_before_start stopped_while_running unexplained_result result_too_large : Message
  worker refusal : Bytes → Message

pub record PhaseTiming : Type 0 where
  pub phase : Phase
  pub milliseconds : ℕ
  pub visits : ℕ

-- `ConnectivityDiagnosis` of connectivity.go.
pub record Diagnosis : Type 0 where
  pub via : Bytes
  pub bound : Bytes
  pub bound_last : Bytes
  pub system : Bytes
  pub fallback : Bytes

pub record Action : Type 0 where
  pub request : Request
  pub line : Bytes
  pub state : State
  pub phase : Option Phase
  pub message : Message
  pub code : Option ErrorCode
  pub result_json : Bytes
  pub queued_at : ℕ
  pub started_at : ℕ
  pub ended_at : ℕ
  pub timings : List PhaseTiming
  pub worker_milliseconds : ℕ
  pub sequence : ℕ
  pub maintenance_deferred : Bool
  pub connectivity : Option Diagnosis
  pub ordinal : ℕ
  pub retired : Bool

pub record Outcome : Type 0 where
  pub state : State
  pub message : Message
  pub code : Option ErrorCode
  pub maintenance_deferred : Bool
  pub observation : Option Observation
  pub result_json : Bytes
  pub connectivity : Option Diagnosis

abbrev starts : State → Bool
starts State.running = true
starts _ = false

-- The new action; the result tells whether the move was made.
unfoldable pub transition : Action → State → ℕ → Action × Bool
transition a next at = if is_terminal a.state then (a, false) else (
  record a {
    state = next;
    started_at = if starts next then at else a.started_at;
    ended_at = if is_terminal next then at else a.ended_at;
  },
  true,
)

-- `publicCopy` of schedule.go: what a reader or an observer is given.
abbrev pub public_copy : Action → Action
public_copy a = record a { request = record a.request { private_json = [] } }
