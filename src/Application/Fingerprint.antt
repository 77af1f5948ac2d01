-- ===== src/Application/Fingerprint.antt =====
-- core/internal/application/action.go: `Request.fingerprint` and the words of the kinds.
use smart_srun.Prelude.{
  Bool, true, false, List, [], ◌∷◌, ◌++◌, Bytes, codes, decimal, hex, if◌then◌else◌,
}
use smart_srun.Application.Action.{Kind, Request}

abbrev kind_text : Kind → Bytes
kind_text Kind.login = codes "manual_login"
kind_text Kind.logout = codes "manual_logout"
kind_text Kind.relogin = codes "relogin"
kind_text Kind.switch_campus = codes "switch_campus"
kind_text Kind.switch_hotspot = codes "switch_hotspot"
kind_text Kind.maintain = codes "maintain"
kind_text Kind.forced_logout = codes "forced_logout"
kind_text Kind.quiet_hotspot = codes "quiet_hotspot"
kind_text Kind.quiet_campus = codes "quiet_campus"
kind_text Kind.presets_refresh = codes "presets_refresh"
kind_text Kind.detect_acid = codes "detect_acid"
kind_text Kind.detect_environment = codes "detect_environment"
kind_text Kind.detect_operators = codes "detect_operators"
kind_text Kind.detect_identity = codes "detect_identity"
kind_text Kind.detect_verify = codes "detect_verify"
kind_text Kind.wifi_setup_start = codes "wifi_setup_start"
kind_text Kind.wifi_setup_cancel = codes "wifi_setup_cancel"

-- `strconv.FormatBool`.
abbrev bool_text : Bool → Bytes
bool_text true = codes "true"
bool_text false = codes "false"

-- The fields of a fingerprint, in order, before they are joined.
fingerprint_fields : Request → List Bytes
fingerprint_fields r =
    kind_text r.kind
    ∷ r.account_id
    ∷ r.hotspot_id
    ∷ (if r.ignore_quiet then codes "1" else codes "0")
    ∷ r.iface
    ∷ (bool_text r.check_revision ++ (b':' ∷ decimal r.config_revision))
    ∷ r.probe_url
    ∷ r.probe_ssid
    ∷ r.probe_mode
    ∷ r.probe_school
    ∷ r.probe_acid
    ∷ r.owner
    ∷ hex r.private_digest
    ∷ r.setup_job
    ∷ []

-- Fields with a zero byte between each two.
join_zero : List Bytes → Bytes
join_zero [] = []
join_zero (f ∷ []) = f
join_zero (f ∷ g ∷ rest) = f ++ (0 ∷ join_zero (g ∷ rest))

pub fingerprint : Request → Bytes
unfolding fingerprint_fields join_zero
fingerprint r = join_zero (fingerprint_fields r)
