-- ===== src/Worker/Attempt.antt =====
-- core/internal/application/authworker.go: what one action needs, and the outcomes with what the attempt
-- learned. A `Verdict` is an `Outcome` but for the message to the user.
use smart_srun.Prelude.{
  ℕ, Bool, true, false, Option, none, some, [], if◌then◌else◌, is_empty, Bytes, codes,
}
use smart_srun.Domain.Binding.{Addr, Binding, LinkState, AuthState, Connectivity, is_ready}
use smart_srun.Domain.Config.{CampusAccount, ChecksConfig}
use smart_srun.Domain.Errors.{ErrorCode}
use smart_srun.Observe.View.{Observation}
use smart_srun.Application.Action.{Kind, State, Diagnosis, is_manual}
use smart_srun.Configuration.Defaults.{EffectiveLoginShape}
use smart_srun.Auth.Answer.{Reply}
use smart_srun.Worker.World.{World, M, pure, ◌>>=◌, when, view, call}
use smart_srun.Worker.Transaction.{Shape}

pub data Intent : Type 0 where
  automatic manual : Intent

-- `intentOf`.
abbrev pub intent_of : Kind → Intent
intent_of k = if is_manual k then Intent.manual else Intent.automatic

abbrev pub is_manual_intent : Intent → Bool
is_manual_intent Intent.manual = true
is_manual_intent Intent.automatic = false

-- `shapeOf`.
abbrev pub shape_of : EffectiveLoginShape → Shape
shape_of l = record {
  n = l.n;
  login_type = l.login_type;
  enc = l.enc;
  info_prefix = l.info_prefix;
  os = l.os;
  name = l.name;
  double_stack = l.double_stack;
  alphabet = l.alphabet;
}

-- The fields of `Action` that a worker reads.
pub record Task : Type 0 where
  pub kind : Kind
  pub account_id : Bytes
  pub hotspot_id : Bytes
  pub ignore_quiet : Bool
  pub sequence : ℕ

-- `attempt`, but for the gateway and the line.
pub record Attempt : Type 0 where
  pub account : CampusAccount
  pub username : Bytes
  pub shape : Shape
  pub intent : Intent
  pub checks : ChecksConfig
  pub kind : Kind
  pub multi_wan : Bool
  pub confirm_terminal : Bool
  pub revision : ℕ
  pub binding : Binding
  pub sequence : ℕ

pub record Verdict : Type 0 where
  pub state : State
  pub code : Option ErrorCode
  pub maintenance_deferred : Bool
  pub observation : Option Observation
  pub connectivity : Option Diagnosis

abbrev pub bare : State → Option ErrorCode → Verdict
bare state code = record {
  state = state;
  code = code;
  maintenance_deferred = false;
  observation = none;
  connectivity = none;
}

-- The code of a cause (`CodeOf`), or that of an unclassified one.
abbrev pub code_or_internal : Option ErrorCode → ErrorCode
code_or_internal none = ErrorCode.internal
code_or_internal (some c) = c

-- `failure`.
abbrev pub failure : Option ErrorCode → Verdict
failure cause = bare State.failed (some (code_or_internal cause))

abbrev pub done_with : Verdict
done_with = bare State.succeeded none

-- The text of an address, where it is valid.
abbrev pub address_text : Addr → Bytes
address_text Addr.invalid = []
address_text (Addr.ipv4 t) = t
address_text (Addr.ipv6 t) = t

-- `Addr.String`.
abbrev pub addr_string : Addr → Bytes
addr_string Addr.invalid = codes "invalid IP"
addr_string (Addr.ipv4 t) = t
addr_string (Addr.ipv6 t) = t

-- `observation`, at an instant.
unfoldable pub observation : Attempt → ℕ → AuthState → Connectivity → Bytes → Observation
observation p now auth connectivity identity = record {
  account_id = p.account.id;
  revision = p.revision;
  generation = p.binding.generation;
  sequence = p.sequence;
  link = if is_ready p.binding then LinkState.ready else LinkState.missing;
  auth = auth;
  connectivity = connectivity;
  identity = identity;
  line = record {
    iface = p.binding.logical_iface;
    device = p.binding.l3_device;
    address = address_text p.binding.source_ipv4;
  };
  at = now;
}

-- The connectivity beside a state that is not unknown.
abbrev pub reached : AuthState → Connectivity
reached AuthState.unknown = Connectivity.unknown
reached _ = Connectivity.portal_reachable

-- `succeeded`, `wentOffline`, `unconfirmed` and `failed`, at an instant.
abbrev pub with_observation : Verdict → Observation → Verdict
with_observation v o = record v { observation = some o }

module _ (p : Attempt) (now : ℕ) where
  unfoldable pub succeeded_at : Bytes → Verdict
  succeeded_at identity =
      with_observation done_with
        (observation p now AuthState.verified_self Connectivity.portal_reachable identity)

  unfoldable pub went_offline_at : Verdict
  went_offline_at =
      with_observation done_with
        (observation p now AuthState.offline Connectivity.portal_reachable [])

  unfoldable pub unconfirmed_at : Bytes → Verdict
  unconfirmed_at identity =
      with_observation (bare State.failed (some ErrorCode.deadline_exceeded))
        (observation p now AuthState.unknown Connectivity.portal_reachable identity)

  unfoldable pub failed_at : Option ErrorCode → AuthState → Bytes → Verdict
  failed_at cause auth identity =
      with_observation (failure cause) (observation p now auth (reached auth) identity)

-- The observation of a line that was not found.
abbrev pub unlinked : LinkState → Observation → Observation
unlinked link o = record o { link = link; connectivity = Connectivity.unknown }

-- The state of the link, as the adapter reports it.
abbrev pub link_of : Reply LinkState → LinkState
link_of (Reply.ok s) = s
link_of (Reply.err _) = LinkState.missing

abbrev pub relinked : LinkState → Verdict → Verdict
relinked link v = elim v.observation [
  | none ↦ v
  | some o ↦ record v { observation = some (unlinked link o) }
]

module _ {W : World} where
  abbrev pub succeeded : Attempt → Bytes → M W Verdict
  succeeded p identity = view (λ s. succeeded_at p (W.now s) identity)

  abbrev pub went_offline : Attempt → M W Verdict
  went_offline p = view (λ s. went_offline_at p (W.now s))

  abbrev pub unconfirmed : Attempt → Bytes → M W Verdict
  unconfirmed p identity = view (λ s. unconfirmed_at p (W.now s) identity)

  abbrev pub failed : Attempt → Option ErrorCode → AuthState → Bytes → M W Verdict
  failed p cause auth identity = view (λ s. failed_at p (W.now s) cause auth identity)

  -- `linkFailure`.
  unfoldable pub link_failure : Attempt → Bytes → Option ErrorCode → M W Verdict
  link_failure p iface cause = do
    link ←
        when (is_empty iface) (pure LinkState.missing)
          (call (λ s. W.link_state s iface) >>= λ r. pure (link_of r))
    v ← failed p cause AuthState.unknown []
    pure (relinked link v)
