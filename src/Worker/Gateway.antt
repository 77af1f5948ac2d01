-- ===== src/Worker/Gateway.antt =====
-- core/internal/auth/gateway.go: the addresses of the four requests.
use smart_srun.Prelude.{
  not, ◌&&◌, none, some, [], ◌∷◌, ◌++◌, if◌then◌else◌, is_empty, Bytes, bytes_eq, codes, decimal,
}
use smart_srun.Domain.Errors.{ErrorCode}
use smart_srun.Auth.Answer.{Reply}
use smart_srun.Protocol.Login.{logout_unbind}
use smart_srun.Worker.World.{Gateway, Request, Url, Tools}

-- `ParseGateway`.
unfoldable pub parse_gateway : Tools → Bytes → Bytes → Reply Gateway
parse_gateway tools base_url acid =
    let trim = tools.folding.trim_space in
    if is_empty (trim base_url)
    then Reply.err (some ErrorCode.invalid_config)
    else elim (tools.parse_url (trim base_url)) [
      | none ↦ Reply.err (some ErrorCode.invalid_config)
      | some (scheme, host) ↦
          if not (bytes_eq scheme (codes "http")) && not (bytes_eq scheme (codes "https"))
          then Reply.err (some ErrorCode.invalid_config)
          else if is_empty host
          then Reply.err (some ErrorCode.invalid_config)
          else Reply.ok (record { base_url = scheme ++ (codes "://" ++ host); acid = trim acid })
    ]

-- `challengeURL`, `loginURL`, `onlineURL` and `logoutURL`.
unfoldable pub url_of : Gateway → Request → Url
url_of g (Request.challenge_request username milliseconds callback) = record {
  origin = g.base_url;
  path = codes "/cgi-bin/get_challenge";
  query =
      (codes "callback", callback)
      ∷ (codes "username", username)
      ∷ (codes "_", decimal milliseconds)
      ∷ [];
}
url_of g (Request.login_request p) = record {
  origin = g.base_url;
  path = codes "/cgi-bin/srun_portal";
  query =
      (codes "callback", p.callback)
      ∷ (codes "action", codes "login")
      ∷ (codes "username", p.username)
      ∷ (codes "password", p.wire_password)
      ∷ (codes "ac_id", g.acid)
      ∷ (codes "ip", p.ip)
      ∷ (codes "chksum", p.checksum)
      ∷ (codes "info", p.info)
      ∷ (codes "n", p.n)
      ∷ (codes "type", p.login_type)
      ∷ (codes "os", p.os)
      ∷ (codes "name", p.name)
      ∷ (codes "double_stack", p.double_stack)
      ∷ (codes "_", decimal p.milliseconds)
      ∷ [];
}
url_of g (Request.online_request milliseconds callback) = record {
  origin = g.base_url;
  path = codes "/cgi-bin/rad_user_info";
  query = (codes "callback", callback) ∷ (codes "_", decimal milliseconds) ∷ [];
}
url_of g (Request.logout_request p) = record {
  origin = g.base_url;
  path = codes "/cgi-bin/rad_user_dm";
  query =
      (codes "callback", p.callback)
      ∷ (codes "time", decimal p.seconds)
      ∷ (codes "unbind", logout_unbind)
      ∷ (codes "ip", p.ip)
      ∷ (codes "username", p.username)
      ∷ (codes "sign", p.sign)
      ∷ [];
}
