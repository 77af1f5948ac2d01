-- ===== src/Examples/Workers.antt =====
-- A gateway that has a session of alice on the line already, and a worker that signs her in and out.
use smart_srun.Prelude.{
  ℕ, ◌+◌, ◌≡◌, refl, Bool, true, false, Option, none, some, List, [], ◌∷◌, if◌then◌else◌, Bytes,
  bytes_eq, bytes_eq_refl, ◌&&◌, codes, inl, inr, ap, sym, ◌∙◌,
}
use smart_srun.Prelude.Texts.{Folding}
use smart_srun.Auth.Accounts.{with_realm, same_account-with_realm}
use smart_srun.Auth.Identity.{same_account}
use smart_srun.Domain.Binding.{Addr, Binding, LinkState, Connectivity, stamped}
use smart_srun.Domain.Config.{Config, CampusAccount, empty_account, empty_config}
use smart_srun.Configuration.Defaults.{effective_username}
use smart_srun.Domain.Enums.{AccessMode, CheckMode}
use smart_srun.Application.Action.{Kind}
use smart_srun.Auth.Answer.{Reply, ok, err, GatewayAnswer}
use smart_srun.Protocol.Login.{Hashes}
use smart_srun.Worker.World.{
  World, Worker, Tools, Gateway, Event, Request, ChallengeAnswer, Report, Url,
}
use smart_srun.Worker.Attempt.{Task, Attempt, Intent, is_manual_intent}
use smart_srun.Worker.Prepare.{attempt_of}
use smart_srun.Worker.Session.{sign_in, sign_out}
use smart_srun.Worker.Run.{run}
use smart_srun.Worker.Evidence.{last_identity, may_end, ends_only_own}
use smart_srun.Worker.Evidence.Success.{is_verified, is_vacant}
use smart_srun.Worker.Evidence.Logins.{sign_in-is_verified}
use smart_srun.Worker.Evidence.Logouts.{sign_out-is_vacant}
use smart_srun.Worker.Evidence.Challenges.{signs_fresh}
use smart_srun.Worker.Evidence.Credentials.{sign_in-signs_fresh}
use smart_srun.Worker.Actions.{ends_nobody, EndsOwn}
use smart_srun.Worker.Actions.Runs.{run-EndsOwn}

abbrev plain_text : Folding
plain_text = record { trim_space = λ s. s; to_lower = λ s. s; equal_fold = bytes_eq }

abbrev weak_hashes : Hashes
weak_hashes = record { hmac_md5 = λ key text. text; sha1 = λ text. text; runes = λ text. some text }

-- The answers are told apart by their first byte.
abbrev session_of : Bytes → GatewayAnswer
session_of name = record {
  error = codes "ok";
  error_msg = [];
  client_ip = [];
  online_ip = [];
  user_name = name;
  domain = [];
  result_value = [];
}

abbrev refused_login : GatewayAnswer
refused_login = record (session_of []) { error = codes "ip_already_online_error" }

abbrev read : Bytes → Option GatewayAnswer
read payload =
    if bytes_eq payload (codes "taken")
    then some refused_login
    else if bytes_eq payload (codes "gone")
    then some (session_of [])
    else some (session_of (codes "alice"))

abbrev tools : Tools
tools = record {
  folding = plain_text;
  hashes = weak_hashes;
  parse_url = λ u. some (codes "http", codes "gw");
  read_challenge = λ payload.
      some (record { challenge = codes "token"; client_ip = codes "10.0.0.2"; online_ip = [] });
  read_answer = read;
  sort = λ cs. cs;
  has_wireless = false;
  has_system_probe = false;
}

abbrev alice : CampusAccount
alice = record empty_account {
  id = codes "c1";
  user_id = codes "alice";
  password = codes "secret";
  access_mode = AccessMode.wired;
  wired_iface = codes "wan";
  base_url = codes "http://gw";
}

abbrev config : Config
config = record empty_config {
  campus_accounts = alice ∷ [];
  checks = record { mode = CheckMode.portal; terminal_attempts = 1; terminal_interval_seconds = 1 };
}

abbrev wan : Binding
wan = record (stamped 0) {
  logical_iface = codes "wan";
  l3_device = codes "eth0";
  source_ipv4 = Addr.ipv4 (codes "10.0.0.2");
}

-- The state is whether a session is on the line: a logout ends it.
abbrev answer : Bool → Url → Reply Bytes × Bool
answer online u =
    if bytes_eq u.path (codes "/cgi-bin/rad_user_dm")
    then (Reply.ok (codes "ok"), false)
    else if bytes_eq u.path (codes "/cgi-bin/srun_portal")
    then (Reply.ok (codes "taken"), online)
    else (Reply.ok (if online then codes "alice" else codes "gone"), online)

abbrev campus : World
campus = record {
  State = Bool;
  Line = Unit;
  now = λ s. 0;
  callback = λ s. codes "jQuery1";
  stopped = λ s. none;
  config = λ s. config;
  revision = λ s. 1;
  resolve_binding = λ s iface g. (Reply.ok (record wan { generation = g }), s);
  link_state = λ s iface. (Reply.ok LinkState.ready, s);
  line = λ s id b u. (Reply.ok tt, s);
  source_addr = λ l. codes "10.0.0.2";
  fetch = λ s l u. answer s u;
  retire = λ s id g. s;
  probe =
      λ s l. ((record { level = Connectivity.unknown; summary = []; last_failure = [] }, none), s);
  association = λ s r. (Reply.err none, s);
  scan = λ s r. (Reply.err none, s);
  apply = λ s p. (Reply.err none, s);
  retire_wireless = λ s. (Reply.err none, s);
  wait_until = λ s at. s;
}

abbrev task : Kind → Task
task k = record {
  kind = k;
  account_id = codes "c1";
  hotspot_id = [];
  ignore_quiet = false;
  sequence = 1;
}

abbrev start : Worker campus
start = record { outside = true; generation = 0; seen = []; trace = [] }

abbrev attempt : Kind → Attempt
attempt k = record (attempt_of config 1 (task k) alice) { binding = record wan { generation = 1 } }

abbrev gateway : Gateway
gateway = record { base_url = codes "http://gw"; acid = [] }

run-EndsOwn_example :
    EndsOwn campus tools (task Kind.maintain) (run campus tools (task Kind.maintain) start).1.trace
unfolding ends_nobody
run-EndsOwn_example = run-EndsOwn campus tools (task Kind.maintain) start refl

-- The same surroundings, with carol's account in the settings.
abbrev carol : CampusAccount
carol = record alice { user_id = codes "carol" }

abbrev others : World
others = record campus { config = λ s. record config { campus_accounts = carol ∷ [] } }

-- Alice is on the line.
abbrev asked : List Event
asked = Event.sent (Request.online_request 0 []) (Reply.ok (codes "alice")) ∷ []

-- Then her session is ended.
abbrev stranger : List Event
stranger =
    Event.sent
      (Request.logout_request
        (record { username = codes "alice"; ip = []; sign = []; seconds = 0; callback = [] }))
      (Reply.ok (codes "ok"))
    ∷ asked

may_not_end :
    (p : Attempt)
    → p.intent ≡ Intent.automatic
    → may_end p (codes "alice") (last_identity tools (codes "carol") asked) ≡ false
unfolding may_end last_identity bytes_eq smart_srun.Prelude.Texts.cut
    smart_srun.Auth.Identity.bare_account smart_srun.Auth.Identity.realm_of
    smart_srun.Auth.Identity.same_trimmed smart_srun.Auth.Identity.same_account
    smart_srun.Auth.Answer.already_online_markers smart_srun.Auth.Answer.offline_markers
    smart_srun.Auth.Answer.first_non_empty smart_srun.Auth.Answer.code_of
    smart_srun.Auth.Answer.identity_of smart_srun.Auth.Answer.is_ok
    smart_srun.Auth.Answer.is_already_online smart_srun.Auth.Answer.is_confirmed_offline
    smart_srun.Auth.Answer.judged smart_srun.Auth.Answer.interpret
    smart_srun.Auth.Answer.read_identity smart_srun.Prelude.Texts.starts_with
    smart_srun.Prelude.Texts.contains_text smart_srun.Prelude.Texts.cut_prefix
may_not_end p i = ap is_manual_intent i

ends_stranger :
    (p : Attempt)
    → p.username ≡ codes "carol"
    → p.intent ≡ Intent.automatic
    → ends_only_own tools p stranger ≡ false
unfolding ends_only_own
ends_stranger p u i =
    ap (λ n. may_end p (codes "alice") (last_identity tools n asked) && ends_only_own tools p asked)
      u
    ∙ rw (may_not_end p i) refl

-- Maintenance for carol's account makes no such trace.
stranger_test : ¬ EndsOwn others tools (task Kind.maintain) stranger
unfolding ends_nobody effective_username smart_srun.Domain.Config.campus_account_by_id bytes_eq
stranger_test (inl h) = absurd (cc)
stranger_test (inr (p, (s, h))) =
    let (_, e) = s.configured in
    let is : carol ≡ p.account = ap (λ o. elim o [ none ↦ carol | some a ↦ a ]) e in
    let name : p.username ≡ codes "carol" = s.username ∙ ap effective_username (sym is) in
    absurd (cc (ends_stranger p name s.intent, h))

sign_in-signs_fresh_example :
    signs_fresh tools
      (attempt Kind.login)
      (sign_in campus tools (attempt Kind.login) tt gateway start).1.trace
    ≡ true
unfolding signs_fresh
sign_in-signs_fresh_example =
    sign_in-signs_fresh campus tools (attempt Kind.login) tt gateway start refl

sign_in-is_verified_example :
    is_verified (
      last_identity tools
        (codes "alice")
        (sign_in campus tools (attempt Kind.login) tt gateway start).1.trace)
    ≡ true
unfolding smart_srun.Worker.World.pure smart_srun.Worker.World.◌>>=◌
    smart_srun.Worker.World.or_return smart_srun.Worker.World.when smart_srun.Worker.World.view
    smart_srun.Worker.World.kept smart_srun.Worker.World.call smart_srun.Worker.World.traced
    smart_srun.Worker.World.keep smart_srun.Worker.Gateway.url_of
    smart_srun.Worker.Transaction.with_defaults smart_srun.Worker.Transaction.read_challenge
    smart_srun.Worker.Transaction.refusal smart_srun.Worker.Transaction.challenge
    smart_srun.Worker.Transaction.send_login smart_srun.Worker.Transaction.send_or_refuse
    smart_srun.Worker.Transaction.login smart_srun.Worker.Transaction.online
    smart_srun.Worker.Transaction.send_logout smart_srun.Worker.Transaction.logout
    smart_srun.Worker.Line.same_line smart_srun.Worker.Line.line_interface
    smart_srun.Worker.Line.invalidate_line smart_srun.Worker.Line.next_generation
    smart_srun.Worker.Line.remember smart_srun.Worker.Line.stamp_of smart_srun.Worker.Line.settle
    smart_srun.Worker.Line.observe_line smart_srun.Worker.Line.compare_line
    smart_srun.Worker.Line.confirm_unchanged smart_srun.Worker.Attempt.observation
    smart_srun.Worker.Attempt.succeeded_at smart_srun.Worker.Attempt.went_offline_at
    smart_srun.Worker.Attempt.unconfirmed_at smart_srun.Worker.Attempt.failed_at
    smart_srun.Worker.Attempt.link_failure smart_srun.Worker.Prepare.attempt_of
    smart_srun.Worker.Prepare.open_line smart_srun.Worker.Prepare.bind_line
    smart_srun.Worker.Prepare.prepare_account smart_srun.Worker.Prepare.prepare
    smart_srun.Worker.Confirm.system_fallback smart_srun.Worker.Confirm.by_state
    smart_srun.Worker.Confirm.with_fault smart_srun.Worker.Confirm.ask_system
    smart_srun.Worker.Confirm.judge_probe smart_srun.Worker.Confirm.check_internet
    smart_srun.Worker.Confirm.check_mode smart_srun.Worker.Confirm.check_radio
    smart_srun.Worker.Confirm.verify_connectivity smart_srun.Worker.Confirm.verify_once
    smart_srun.Worker.Confirm.check_existing smart_srun.Worker.Terminal.retryable_terminal
    smart_srun.Worker.Terminal.check_count smart_srun.Worker.Terminal.check_interval
    smart_srun.Worker.Terminal.terminal_round smart_srun.Worker.Terminal.terminal_loop
    smart_srun.Worker.Terminal.terminal_checks smart_srun.Worker.Terminal.verify_session
    smart_srun.Worker.Terminal.judge_logout smart_srun.Worker.Terminal.logout_check
    smart_srun.Worker.Terminal.verify_logout smart_srun.Worker.Session.attempt_login
    smart_srun.Worker.Session.settle_retry smart_srun.Worker.Session.clear_and_retry
    smart_srun.Worker.Session.settle_identity smart_srun.Worker.Session.settle_already_online
    smart_srun.Worker.Session.settle_login smart_srun.Worker.Session.first_login
    smart_srun.Worker.Session.sign_in smart_srun.Worker.Session.end_session
    smart_srun.Worker.Session.sign_out smart_srun.Worker.Session.authenticate
    smart_srun.Worker.Session.off_campus smart_srun.Worker.Session.log_out
    smart_srun.Auth.Identity.bare_account smart_srun.Auth.Identity.realm_of
    smart_srun.Auth.Identity.same_trimmed smart_srun.Auth.Identity.same_account
    smart_srun.Auth.Answer.already_online_markers smart_srun.Auth.Answer.offline_markers
    smart_srun.Auth.Answer.first_non_empty smart_srun.Auth.Answer.code_of
    smart_srun.Auth.Answer.identity_of smart_srun.Auth.Answer.is_ok
    smart_srun.Auth.Answer.is_already_online smart_srun.Auth.Answer.is_confirmed_offline
    smart_srun.Auth.Answer.judged smart_srun.Auth.Answer.interpret
    smart_srun.Auth.Answer.read_identity smart_srun.Protocol.Login.json_symbol
    smart_srun.Protocol.Login.json_symbols smart_srun.Protocol.Login.drop_last
    smart_srun.Protocol.Login.ends_with_brace smart_srun.Protocol.Login.in_braces
    smart_srun.Protocol.Login.strip_braces smart_srun.Protocol.Login.normalize_prefix
    smart_srun.Protocol.Login.interleaved smart_srun.Protocol.Login.logout_sign_input
    smart_srun.Protocol.Login.json_string smart_srun.Protocol.Login.json_fields
    smart_srun.Protocol.Login.encode_info smart_srun.Prelude.Texts.starts_with
    smart_srun.Prelude.Texts.contains_text smart_srun.Prelude.Texts.cut_prefix
    smart_srun.Prelude.Texts.trim_left smart_srun.Prelude.Texts.trim_right
    smart_srun.Prelude.Texts.cut smart_srun.Configuration.Defaults.first_set
    smart_srun.Configuration.Defaults.effective_login
    smart_srun.Configuration.Defaults.effective_username smart_srun.Prelude.Maps.lookup
    smart_srun.Prelude.Maps.erase smart_srun.Domain.Binding.addrs_eq bytes_eq
    smart_srun.Protocol.Base64.new_alphabet
sign_in-is_verified_example =
    sign_in-is_verified campus tools (attempt Kind.login) tt gateway start refl

sign_out-is_vacant_example :
    is_vacant (
      last_identity tools
        (codes "alice")
        (sign_out campus tools (attempt Kind.logout) tt gateway start).1.trace)
    ≡ true
unfolding smart_srun.Worker.World.pure smart_srun.Worker.World.◌>>=◌
    smart_srun.Worker.World.or_return smart_srun.Worker.World.when smart_srun.Worker.World.view
    smart_srun.Worker.World.kept smart_srun.Worker.World.call smart_srun.Worker.World.traced
    smart_srun.Worker.World.keep smart_srun.Worker.Gateway.url_of
    smart_srun.Worker.Transaction.with_defaults smart_srun.Worker.Transaction.read_challenge
    smart_srun.Worker.Transaction.refusal smart_srun.Worker.Transaction.challenge
    smart_srun.Worker.Transaction.send_login smart_srun.Worker.Transaction.send_or_refuse
    smart_srun.Worker.Transaction.login smart_srun.Worker.Transaction.online
    smart_srun.Worker.Transaction.send_logout smart_srun.Worker.Transaction.logout
    smart_srun.Worker.Line.same_line smart_srun.Worker.Line.line_interface
    smart_srun.Worker.Line.invalidate_line smart_srun.Worker.Line.next_generation
    smart_srun.Worker.Line.remember smart_srun.Worker.Line.stamp_of smart_srun.Worker.Line.settle
    smart_srun.Worker.Line.observe_line smart_srun.Worker.Line.compare_line
    smart_srun.Worker.Line.confirm_unchanged smart_srun.Worker.Attempt.observation
    smart_srun.Worker.Attempt.succeeded_at smart_srun.Worker.Attempt.went_offline_at
    smart_srun.Worker.Attempt.unconfirmed_at smart_srun.Worker.Attempt.failed_at
    smart_srun.Worker.Attempt.link_failure smart_srun.Worker.Prepare.attempt_of
    smart_srun.Worker.Prepare.open_line smart_srun.Worker.Prepare.bind_line
    smart_srun.Worker.Prepare.prepare_account smart_srun.Worker.Prepare.prepare
    smart_srun.Worker.Confirm.system_fallback smart_srun.Worker.Confirm.by_state
    smart_srun.Worker.Confirm.with_fault smart_srun.Worker.Confirm.ask_system
    smart_srun.Worker.Confirm.judge_probe smart_srun.Worker.Confirm.check_internet
    smart_srun.Worker.Confirm.check_mode smart_srun.Worker.Confirm.check_radio
    smart_srun.Worker.Confirm.verify_connectivity smart_srun.Worker.Confirm.verify_once
    smart_srun.Worker.Confirm.check_existing smart_srun.Worker.Terminal.retryable_terminal
    smart_srun.Worker.Terminal.check_count smart_srun.Worker.Terminal.check_interval
    smart_srun.Worker.Terminal.terminal_round smart_srun.Worker.Terminal.terminal_loop
    smart_srun.Worker.Terminal.terminal_checks smart_srun.Worker.Terminal.verify_session
    smart_srun.Worker.Terminal.judge_logout smart_srun.Worker.Terminal.logout_check
    smart_srun.Worker.Terminal.verify_logout smart_srun.Worker.Session.attempt_login
    smart_srun.Worker.Session.settle_retry smart_srun.Worker.Session.clear_and_retry
    smart_srun.Worker.Session.settle_identity smart_srun.Worker.Session.settle_already_online
    smart_srun.Worker.Session.settle_login smart_srun.Worker.Session.first_login
    smart_srun.Worker.Session.sign_in smart_srun.Worker.Session.end_session
    smart_srun.Worker.Session.sign_out smart_srun.Worker.Session.authenticate
    smart_srun.Worker.Session.off_campus smart_srun.Worker.Session.log_out
    smart_srun.Auth.Identity.bare_account smart_srun.Auth.Identity.realm_of
    smart_srun.Auth.Identity.same_trimmed smart_srun.Auth.Identity.same_account
    smart_srun.Auth.Answer.already_online_markers smart_srun.Auth.Answer.offline_markers
    smart_srun.Auth.Answer.first_non_empty smart_srun.Auth.Answer.code_of
    smart_srun.Auth.Answer.identity_of smart_srun.Auth.Answer.is_ok
    smart_srun.Auth.Answer.is_already_online smart_srun.Auth.Answer.is_confirmed_offline
    smart_srun.Auth.Answer.judged smart_srun.Auth.Answer.interpret
    smart_srun.Auth.Answer.read_identity smart_srun.Protocol.Login.json_symbol
    smart_srun.Protocol.Login.json_symbols smart_srun.Protocol.Login.drop_last
    smart_srun.Protocol.Login.ends_with_brace smart_srun.Protocol.Login.in_braces
    smart_srun.Protocol.Login.strip_braces smart_srun.Protocol.Login.normalize_prefix
    smart_srun.Protocol.Login.interleaved smart_srun.Protocol.Login.logout_sign_input
    smart_srun.Protocol.Login.json_string smart_srun.Protocol.Login.json_fields
    smart_srun.Protocol.Login.encode_info smart_srun.Prelude.Texts.starts_with
    smart_srun.Prelude.Texts.contains_text smart_srun.Prelude.Texts.cut_prefix
    smart_srun.Prelude.Texts.trim_left smart_srun.Prelude.Texts.trim_right
    smart_srun.Prelude.Texts.cut smart_srun.Configuration.Defaults.first_set
    smart_srun.Configuration.Defaults.effective_login
    smart_srun.Configuration.Defaults.effective_username smart_srun.Prelude.Maps.lookup
    smart_srun.Prelude.Maps.erase smart_srun.Domain.Binding.addrs_eq bytes_eq
    smart_srun.Protocol.Base64.new_alphabet
sign_out-is_vacant_example =
    sign_out-is_vacant campus tools (attempt Kind.logout) tt gateway start refl

same_account-with_realm_example :
    same_account plain_text
      (with_realm (codes "alice") (codes "cmcc"))
      (with_realm (codes "alice") (codes "ctcc"))
    ≡ (bytes_eq (codes "alice") (codes "alice") && bytes_eq (codes "cmcc") (codes "ctcc"))
same_account-with_realm_example =
    same_account-with_realm plain_text (codes "alice") (codes "alice") (codes "cmcc") (codes "ctcc")
      bytes_eq_refl refl refl refl refl refl refl refl refl
