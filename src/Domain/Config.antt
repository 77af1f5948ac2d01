-- ===== src/Domain/Config.antt =====
-- core/internal/domain/config.go: the configuration, without the fields that no modelled part reads
-- (the schema version, the retry, log and preset settings, and the extra settings of a school).
use smart_srun.Prelude.{
  ℕ, Bool, true, false, not, ◌&&◌, Option, none, some, List, [], ◌∷◌, if◌then◌else◌, Bytes,
  bytes_eq, filter,
}
use smart_srun.Domain.Enums.{AccessMode, ApSelection, CheckMode}
use smart_srun.Domain.QuietWindow.{QuietWindow}

pub record LoginDefaults : Type 0 where
  pub n : Bytes
  pub login_type : Bytes
  pub enc : Bytes

pub record Selection : Type 0 where
  pub active_campus_id : Bytes
  pub default_campus_id : Bytes
  pub active_hotspot_id : Bytes
  pub default_hotspot_id : Bytes

pub record QuietConfig : Type 0 where
  pub enabled : Bool
  pub start : ℕ
  pub end : ℕ
  pub force_logout : Bool

-- `Window`.
abbrev pub window : QuietConfig → QuietWindow
window q = record { start = q.start; end = q.end }

pub record ChecksConfig : Type 0 where
  pub mode : CheckMode
  pub terminal_attempts : ℕ
  pub terminal_interval_seconds : ℕ

pub record FailoverConfig : Type 0 where
  pub enabled : Bool
  pub hotspot_failback_enabled : Bool

pub record LoginShape : Type 0 where
  pub n : Bytes
  pub login_type : Bytes
  pub enc : Bytes
  pub info_prefix : Bytes
  -- a pointer
  pub double_stack : Option Bool
  pub os : Bytes
  pub name : Bytes
  pub alphabet : Bytes

pub record CampusAccount : Type 0 where
  pub id : Bytes
  pub label : Bytes
  pub user_id : Bytes
  pub password : Bytes
  pub operator : Bytes
  pub operator_suffix : Bytes
  pub access_mode : AccessMode
  pub wired_iface : Bytes
  pub auth_enabled : Bool
  pub base_url : Bytes
  pub acid : Bytes
  pub ssid : Bytes
  pub radio : Bytes
  pub encryption : Bytes
  pub key : Bytes
  pub ap_selection : ApSelection
  pub bssid : Bytes
  pub login : LoginShape
  pub preset_id : Bytes

pub record HotspotProfile : Type 0 where
  pub id : Bytes
  pub label : Bytes
  pub ssid : Bytes
  pub encryption : Bytes
  pub key : Bytes
  pub radio : Bytes

pub record Config : Type 0 where
  pub revision : ℕ
  pub enabled : Bool
  pub multi_wan_enabled : Bool
  pub school : Bytes
  pub sta_iface : Bytes
  pub login_defaults : LoginDefaults
  pub selection : Selection
  pub quiet : QuietConfig
  pub checks : ChecksConfig
  pub failover : FailoverConfig
  pub campus_accounts : List CampusAccount
  pub hotspot_profiles : List HotspotProfile

abbrev pub empty_login : LoginShape
empty_login = record {
  n = [];
  login_type = [];
  enc = [];
  info_prefix = [];
  double_stack = none;
  os = [];
  name = [];
  alphabet = [];
}

-- `domain.CampusAccount{}`.
abbrev pub empty_account : CampusAccount
empty_account = record {
  id = [];
  label = [];
  user_id = [];
  password = [];
  operator = [];
  operator_suffix = [];
  access_mode = AccessMode.unknown [];
  wired_iface = [];
  auth_enabled = false;
  base_url = [];
  acid = [];
  ssid = [];
  radio = [];
  encryption = [];
  key = [];
  ap_selection = ApSelection.other;
  bssid = [];
  login = empty_login;
  preset_id = [];
}

-- `domain.HotspotProfile{}`.
abbrev pub empty_hotspot : HotspotProfile
empty_hotspot = record { id = []; label = []; ssid = []; encryption = []; key = []; radio = [] }

-- `domain.Config{}`.
abbrev pub empty_config : Config
empty_config = record {
  revision = 0;
  enabled = false;
  multi_wan_enabled = false;
  school = [];
  sta_iface = [];
  login_defaults = record { n = []; login_type = []; enc = [] };
  selection = record {
    active_campus_id = [];
    default_campus_id = [];
    active_hotspot_id = [];
    default_hotspot_id = [];
  };
  quiet = record { enabled = false; start = 0; end = 0; force_logout = false };
  checks = record {
    mode = CheckMode.unknown;
    terminal_attempts = 0;
    terminal_interval_seconds = 0;
  };
  failover = record { enabled = false; hotspot_failback_enabled = false };
  campus_accounts = [];
  hotspot_profiles = [];
}

abbrev pub is_wired : CampusAccount → Bool
is_wired a = elim a.access_mode [ AccessMode.wired ↦ true | _ ↦ false ]

unfoldable pub campus_account_by_id : List CampusAccount → Bytes → Option CampusAccount
campus_account_by_id [] id = none
campus_account_by_id (a ∷ rest) id =
    let later = campus_account_by_id rest id in if bytes_eq a.id id then some a else later

unfoldable pub hotspot_by_id : List HotspotProfile → Bytes → Option HotspotProfile
hotspot_by_id [] id = none
hotspot_by_id (h ∷ rest) id =
    let later = hotspot_by_id rest id in if bytes_eq h.id id then some h else later

-- `ManagedWiredAccounts`.
unfoldable pub managed_wired_accounts : Config → List CampusAccount
managed_wired_accounts c =
    if not c.multi_wan_enabled
    then []
    else filter (λ a. is_wired a && a.auth_enabled) c.campus_accounts
