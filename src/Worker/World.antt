-- ===== src/Worker/World.antt =====
-- What a worker works on: the binder, the lines, the radio, the settings and the clock as one interface,
-- whose state any call may change in any way, and what the worker keeps and reports. The trace is the
-- calls that leave the program, with their answers; the newest is first.
use smart_srun.Prelude.{ℕ, Bool, true, false, Option, List, ◌∷◌, Bytes}
use smart_srun.Prelude.Texts.{Folding}
use smart_srun.Domain.Binding.{Binding, LinkState, Connectivity}
use smart_srun.Domain.Config.{Config}
use smart_srun.Domain.Errors.{ErrorCode}
use smart_srun.Application.Action.{Phase}
use smart_srun.Auth.Answer.{Reply, GatewayAnswer}
use smart_srun.Protocol.Login.{Hashes}
use smart_srun.Wifi.Select.{Candidate, Association}

pub record Gateway : Type 0 where
  pub base_url : Bytes
  pub acid : Bytes

pub record LoginParams : Type 0 where
  pub callback : Bytes
  pub username : Bytes
  pub wire_password : Bytes
  pub ip : Bytes
  pub checksum : Bytes
  pub info : Bytes
  pub n : Bytes
  pub login_type : Bytes
  pub os : Bytes
  pub name : Bytes
  pub double_stack : Bytes
  pub milliseconds : ℕ

pub record LogoutParams : Type 0 where
  pub username : Bytes
  pub ip : Bytes
  pub sign : Bytes
  pub seconds : ℕ
  pub callback : Bytes

-- The four requests, before they are written as addresses.
pub data Request : Type 0 where
  challenge_request : Bytes → ℕ → Bytes → Request
  login_request : LoginParams → Request
  online_request : ℕ → Bytes → Request
  logout_request : LogoutParams → Request

-- An address, before net/url escapes it: the origin, the path and the parameters.
pub record Url : Type 0 where
  pub origin : Bytes
  pub path : Bytes
  pub query : List (Bytes × Bytes)

-- The answer to `Challenge`: the token and the address that the gateway reports.
pub record ChallengeAnswer : Type 0 where
  pub challenge : Bytes
  pub client_ip : Bytes
  pub online_ip : Bytes

-- What is read of a connectivity report of core/internal/portal.
pub record Report : Type 0 where
  pub level : Connectivity
  pub summary : Bytes
  pub last_failure : Bytes

pub record WirelessPlan : Type 0 where
  pub radio : Bytes
  pub ssid : Bytes
  pub encryption : Bytes
  pub key : Bytes
  pub bssid : Bytes

-- The standard library's part, and how the worker was built.
pub record Tools : Type 0 where
  pub folding : Folding
  pub hashes : Hashes
  -- the scheme and the host of an address (`url.Parse`)
  pub parse_url : Bytes → Option (Bytes × Bytes)
  -- the JSON in a body, and its two readings
  pub read_challenge : Bytes → Option ChallengeAnswer
  pub read_answer : Bytes → Option GatewayAnswer
  pub sort : List Candidate → List Candidate
  pub has_wireless : Bool
  pub has_system_probe : Bool

pub record World : Type 1 where
  pub State : Type 0
  pub Line : Type 0
  pub now : State → ℕ
  pub callback : State → Bytes
  -- `ctx.Err()`
  pub stopped : State → Option ErrorCode
  pub config : State → Config
  pub revision : State → ℕ
  -- the Binder
  pub resolve_binding : State → Bytes → ℕ → Reply Binding × State
  pub link_state : State → Bytes → Reply LinkState × State
  -- the Lines: a line, its address, a request over it and the JSON object in the answer, and `Retire`
  pub line : State → Bytes → Binding → Bytes → Reply Line × State
  pub source_addr : Line → Bytes
  pub fetch : State → Line → Url → Reply Bytes × State
  pub retire : State → Bytes → ℕ → State
  -- the probe of the Internet, over a line or over the router's own route: a report also where it failed
  pub probe : State → Option Line → (Report × Option (Option ErrorCode)) × State
  -- the Wireless
  pub association : State → Bytes → Reply Association × State
  pub scan : State → Bytes → Reply (List Candidate) × State
  pub apply : State → WirelessPlan → Reply (Unit {0}) × State
  pub retire_wireless : State → Reply (Unit {0}) × State
  -- a wait until an instant, or until the context ends
  pub wait_until : State → ℕ → State

pub data Event : Type 0 where
  reported : Phase → Event
  resolved : Bytes → ℕ → Reply Binding → Event
  sent : Request → Reply Bytes → Event
  retired : Bytes → ℕ → Event
  moved : WirelessPlan → Event
  left : Event

module _ (W : World) where
  -- The `Authenticator`: `seen` holds a binding under each account.
  pub record Worker : Type 0 where
    pub outside : W.State
    pub generation : ℕ
    pub seen : List (Bytes × Binding)
    pub trace : List Event

  abbrev pub M : Type 0 → Type 0
  M A = Worker → A × Worker

module _ {W : World} where
  unfoldable pub pure : {A : Type 0} → A → M W A
  pure a w = (a, w)

  abbrev pub and_then : {A B : Type 0} → A × Worker W → (A → M W B) → B × Worker W
  and_then (a, w) f = f a w

  infixl 5 ◌>>=◌ ◌>>◌
  unfoldable pub ◌>>=◌ : {A B : Type 0} → M W A → (A → M W B) → M W B
  ◌>>=◌ c f w = and_then (c w) f

  abbrev pub ◌>>◌ : {A B : Type 0} → M W A → M W B → M W B
  c >> d = c >>= λ _. d

  -- `if err != nil { return on_error(err) }`, and the rest of the function.
  unfoldable pub or_return :
      {A B : Type 0} → (Option ErrorCode → M W B) → (A → M W B) → Reply A → M W B
  or_return failing go (Reply.ok a) = go a
  or_return failing go (Reply.err e) = failing e

  abbrev pub checked :
      {A B : Type 0} → M W (Reply A) → (Option ErrorCode → M W B) → (A → M W B) → M W B
  checked c failing go = c >>= or_return failing go

  -- `if b { return done }`, and the rest.
  unfoldable pub when : {B : Type 0} → Bool → M W B → M W B → M W B
  when true done rest = done
  when false done rest = rest

  -- A reading of what is outside, which changes nothing.
  unfoldable pub view : {A : Type 0} → (W.State → A) → M W A
  view f w = (f w.outside, w)

  -- A reading of what the worker keeps.
  unfoldable pub kept : {A : Type 0} → (Worker W → A) → M W A
  kept f w = (f w, w)

  -- A call that the trace does not record.
  unfoldable pub call : {A : Type 0} → (W.State → A × W.State) → M W A
  call f w = ((f w.outside).0, record w { outside = (f w.outside).1 })

  -- A call that it records.
  unfoldable pub traced : {A : Type 0} → (W.State → A × W.State) → (A → Event) → M W A
  traced f e w = (
    (f w.outside).0,
    record w { outside = (f w.outside).1; trace = e ((f w.outside).0) ∷ w.trace },
  )

  -- A write of what the worker keeps, under its lock.
  unfoldable pub keep : ℕ → List (Bytes × Binding) → M W (Unit {0})
  keep g seen w = (tt, record w { generation = g; seen = seen })

  abbrev pub report : Phase → M W (Unit {0})
  report p = traced (λ s. (tt, s)) (λ _. Event.reported p)

  abbrev pub resolve : Bytes → ℕ → M W (Reply Binding)
  resolve iface generation =
      traced (λ s. W.resolve_binding s iface generation) (Event.resolved iface generation)

  abbrev pub retire : Bytes → ℕ → M W (Unit {0})
  retire account_id generation =
      traced (λ s. (tt, W.retire s account_id generation))
        (λ _. Event.retired account_id generation)

  abbrev pub apply : WirelessPlan → M W (Reply (Unit {0}))
  apply plan = traced (λ s. W.apply s plan) (λ _. Event.moved plan)

  abbrev pub leave : M W (Reply (Unit {0}))
  leave = traced (λ s. W.retire_wireless s) (λ _. Event.left)

  abbrev pub associated : Bytes → M W (Reply Association)
  associated radio = call (λ s. W.association s radio)
