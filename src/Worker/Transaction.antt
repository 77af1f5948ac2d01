-- ===== src/Worker/Transaction.antt =====
-- core/internal/auth/transaction.go: the requests of one attempt, and what is read of their answers.
use smart_srun.Prelude.{
  ℕ, ◌/◌, Bool, not, ◌&&◌, Option, none, some, [], ◌∷◌, ◌++◌, if◌then◌else◌, is_empty, is_some,
  Bytes, codes,
}
use smart_srun.Prelude.Texts.{Folding}
use smart_srun.Domain.Errors.{ErrorCode}
use smart_srun.Auth.Answer.{Reply, Result, interpret, read_identity}
use smart_srun.Auth.Identity.{Identity}
use smart_srun.Protocol.Base64.{new_alphabet, default_alphabet_table}
use smart_srun.Protocol.Login.{
  hmac_md5_hex, encode_info, encrypted_info, checksum, logout_sign, wire_password_prefix,
  default_info_prefix, normalize_prefix,
}
use smart_srun.Worker.World.{
  Gateway, LoginParams, Request, ChallengeAnswer, Tools, World, M, Event, pure, ◌>>=◌, checked,
  when, view, traced,
}
use smart_srun.Worker.Gateway.{url_of}

pub record Challenge : Type 0 where
  pub token : Bytes
  pub client_ip : Bytes

-- `Shape`.
pub record Shape : Type 0 where
  pub n : Bytes
  pub login_type : Bytes
  pub enc : Bytes
  pub info_prefix : Bytes
  pub os : Bytes
  pub name : Bytes
  pub double_stack : Bool
  pub alphabet : Bytes

-- `if s == "" { s = d }`.
abbrev pub or_default : Bytes → Bytes → Bytes
or_default s d = if is_empty s then d else s

-- `withDefaults`.
unfoldable pub with_defaults : Folding → Shape → Shape
with_defaults folding s = record {
  n = or_default s.n (codes "200");
  login_type = or_default s.login_type (codes "1");
  enc = or_default s.enc (codes "srun_bx1");
  info_prefix = normalize_prefix folding s.info_prefix default_info_prefix;
  os = or_default s.os (codes "Windows 10");
  name = or_default s.name (codes "Windows");
  double_stack = s.double_stack;
  alphabet = s.alphabet;
}

-- `boolWire`.
abbrev pub bool_wire : Bool → Bytes
bool_wire b = if b then codes "1" else codes "0"

-- Nanoseconds in a millisecond, and in a second.
abbrev pub millisecond : ℕ
millisecond = 1000000

abbrev pub second : ℕ
second = 1000000000

-- What is read of the answer to a challenge.
unfoldable pub read_challenge : Option ChallengeAnswer → Reply Challenge
read_challenge none = Reply.err (some ErrorCode.protocol_invalid)
read_challenge (some a) =
    if is_empty a.challenge
    then Reply.err (some ErrorCode.protocol_invalid)
    else Reply.ok (record {
      token = a.challenge;
      client_ip = if is_empty a.client_ip then a.online_ip else a.client_ip;
    })

-- The parameters of `Login`, from the shape with its defaults, the address and the encoded credentials,
-- and the time and the callback of the request.
unfoldable pub login_params :
    Tools → Gateway → Bytes → Bytes → Shape → Bytes → Bytes → Bytes → ℕ → Bytes → LoginParams
login_params tools g username password s token ip info_json milliseconds callback =
    let digest = hmac_md5_hex tools.hashes token password in
    let table = or_default s.alphabet default_alphabet_table in
    let info = encrypted_info tools.folding s.info_prefix info_json token table in
    record {
      callback = callback;
      username = username;
      wire_password = wire_password_prefix ++ digest;
      ip = ip;
      checksum =
          checksum tools.hashes token
            (username ∷ digest ∷ g.acid ∷ ip ∷ s.n ∷ s.login_type ∷ info ∷ []);
      info = info;
      n = s.n;
      login_type = s.login_type;
      os = s.os;
      name = s.name;
      double_stack = bool_wire s.double_stack;
      milliseconds = milliseconds;
    }

-- What keeps `Login` from sending: no name, no token, credentials that are not text, or a bad alphabet.
unfoldable pub refusal : Tools → Bytes → Bytes → Shape → Challenge → Option Bytes → Option ErrorCode
refusal tools username password s c info_json =
    if is_empty username
    then some ErrorCode.invalid_argument
    else if is_empty c.token
    then some ErrorCode.internal
    else if not (is_some info_json)
    then some ErrorCode.invalid_argument
    else if not (is_empty s.alphabet) && is_some (new_alphabet s.alphabet)
    then some ErrorCode.invalid_config
    else none

module _ (W : World) (tools : Tools) (line : W.Line) (g : Gateway) where
  -- `get`.
  abbrev pub send : Request → M W (Reply Bytes)
  send r = traced (λ s. W.fetch s line (url_of g r)) (Event.sent r)

  -- `Challenge`.
  unfoldable pub challenge : Bytes → M W (Reply Challenge)
  challenge username = do
    milliseconds ← view (λ s. W.now s / millisecond)
    callback ← view W.callback
    checked (send (Request.challenge_request username milliseconds callback))
        (λ e. pure (Reply.err e)) (λ payload. pure (read_challenge (tools.read_challenge payload)))

  -- The end of `Login`, with the encoded credentials.
  unfoldable pub send_login : Bytes → Bytes → Shape → Bytes → Bytes → Bytes → M W (Reply Result)
  send_login username password s token ip info_json = do
    callback ← view W.callback
    milliseconds ← view (λ s. W.now s / millisecond)
    checked
        (send (
          Request.login_request
            (login_params tools g username password s token ip info_json milliseconds callback)))
        (λ e. pure (Reply.err e))
        (λ payload. pure (interpret tools.folding (tools.read_answer payload)))

  abbrev pub login_ip : Challenge → Bytes
  login_ip c = or_default c.client_ip (W.source_addr line)

  unfoldable pub send_or_refuse :
      Bytes → Bytes → Shape → Challenge → Option ErrorCode → Option Bytes → M W (Reply Result)
  send_or_refuse username password s c none (some info_json) =
      send_login username password s c.token (login_ip c) info_json
  send_or_refuse username password s c e _ = pure (Reply.err e)

  -- `Login`, with the shape as it is configured.
  unfoldable pub login : Bytes → Bytes → Shape → Challenge → M W (Reply Result)
  login username password shape c =
      let s = with_defaults tools.folding shape in
      let info_json = encode_info tools.hashes (record {
        username = username;
        password = password;
        ip = login_ip c;
        acid = g.acid;
        enc_ver = s.enc;
      }) in
      send_or_refuse username password s c (refusal tools username password s c info_json) info_json

  -- `Online`.
  unfoldable pub online : Bytes → M W (Reply Identity)
  online expected = do
    milliseconds ← view (λ s. W.now s / millisecond)
    callback ← view W.callback
    checked (send (Request.online_request milliseconds callback)) (λ e. pure (Reply.err e))
        (λ payload. pure (read_identity tools.folding (tools.read_answer payload) expected))

  -- The end of `Logout`.
  unfoldable pub send_logout : Bytes → Bytes → M W (Reply Result)
  send_logout username ip = do
    seconds ← view (λ s. W.now s / second)
    callback ← view W.callback
    checked
        (send (
          Request.logout_request (record {
            username = username;
            ip = ip;
            sign = logout_sign tools.hashes seconds username ip;
            seconds = seconds;
            callback = callback;
          })))
        (λ e. pure (Reply.err e))
        (λ payload. pure (interpret tools.folding (tools.read_answer payload)))

  -- `Logout`.
  unfoldable pub logout : Bytes → Bytes → M W (Reply Result)
  logout username ip =
      when (is_empty username) (pure (Reply.err (some ErrorCode.invalid_argument)))
        (send_logout username (or_default ip (W.source_addr line)))
