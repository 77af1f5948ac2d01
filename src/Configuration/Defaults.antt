-- ===== src/Configuration/Defaults.antt =====
-- core/internal/config/defaults.go and limits.go: the login that an account resolves to.
use smart_srun.Prelude.{
  ℕ, Bool, false, ◌||◌, Option, none, some, List, [], ◌∷◌, ◌++◌, if◌then◌else◌, is_empty, Bytes,
  bytes_eq, codes,
}
use smart_srun.Domain.Config.{Config, CampusAccount}
use smart_srun.Protocol.Base64.{default_alphabet_table}

abbrev pub max_terminal_attempts : ℕ
max_terminal_attempts = 20

abbrev pub max_terminal_interval_seconds : ℕ
max_terminal_interval_seconds = 60

abbrev pub max_campus_accounts : ℕ
max_campus_accounts = 32

abbrev pub max_hotspot_profiles : ℕ
max_hotspot_profiles = 32

abbrev pub unverified_operator_suffix : Bytes
unverified_operator_suffix = codes "??"

-- `firstNonEmpty`, of texts that are not trimmed.
unfoldable pub first_set : List Bytes → Bytes
first_set [] = []
first_set (v ∷ vs) = let rest = first_set vs in if is_empty v then rest else v

abbrev pub or_false : Option Bool → Bool
or_false none = false
or_false (some b) = b

pub record EffectiveLoginShape : Type 0 where
  pub n : Bytes
  pub login_type : Bytes
  pub enc : Bytes
  pub info_prefix : Bytes
  pub double_stack : Bool
  pub os : Bytes
  pub name : Bytes
  pub alphabet : Bytes

-- `EffectiveLogin`.
unfoldable pub effective_login : Config → CampusAccount → EffectiveLoginShape
effective_login c a = record {
  n = first_set (a.login.n ∷ c.login_defaults.n ∷ codes "200" ∷ []);
  login_type = first_set (a.login.login_type ∷ c.login_defaults.login_type ∷ codes "1" ∷ []);
  enc = first_set (a.login.enc ∷ c.login_defaults.enc ∷ codes "srun_bx1" ∷ []);
  info_prefix = first_set (a.login.info_prefix ∷ codes "SRBX1" ∷ []);
  double_stack = or_false a.login.double_stack;
  os = first_set (a.login.os ∷ codes "Windows 10" ∷ []);
  name = first_set (a.login.name ∷ codes "Windows" ∷ []);
  alphabet = first_set (a.login.alphabet ∷ default_alphabet_table ∷ []);
}

-- `EffectiveUsername`.
unfoldable pub effective_username : CampusAccount → Bytes
effective_username a =
    if is_empty a.operator_suffix || bytes_eq a.operator_suffix unverified_operator_suffix
    then a.user_id
    else a.user_id ++ (b'@' ∷ a.operator_suffix)
