-- ===== src/Auth/Identity.antt =====
-- core/internal/auth/result.go: account names, and the session that the gateway names.
use smart_srun.Prelude.{
  Bool, true, false, ◌||◌, not, Option, none, some, [], if◌then◌else◌, is_empty, Bytes, bytes_eq,
}
use smart_srun.Prelude.Texts.{Folding, cut}
use smart_srun.Domain.Binding.{AuthState}

pub record Identity : Type 0 where
  pub present : Bool
  pub username : Bytes
  pub session_username : Bytes
  pub client_ip : Bytes
  pub matches_expected : Bool

-- `Identity{Present: false}`.
abbrev pub nobody : Identity
nobody = record {
  present = false;
  username = [];
  session_username = [];
  client_ip = [];
  matches_expected = false;
}

-- `Identity.State`.
abbrev pub state_of : Identity → AuthState
state_of i =
    if not i.present
    then AuthState.offline
    else if i.matches_expected
    then AuthState.verified_self
    else AuthState.verified_other

-- The text before the first `@`, and the one after it, where the first byte is not an `@`.
abbrev pub halves : Bytes → Option (Bytes × Bytes)
halves value = elim (cut b'@' value) [
  | none ↦ none
  | some (before, after) ↦ if is_empty before then none else some (before, after)
]

-- `bareAccount`.
unfoldable pub bare_account : Bytes → Bytes
bare_account value = elim (halves value) [ none ↦ value | some (before, after) ↦ before ]

-- `realmOf`.
unfoldable pub realm_of : Bytes → Bytes
realm_of value = elim (halves value) [ none ↦ [] | some (before, after) ↦ after ]

module _ (folding : Folding) where
  -- The end of `sameAccount`, on names that are trimmed.
  unfoldable pub same_trimmed : Bytes → Bytes → Bool
  same_trimmed reported expected =
      if is_empty reported || is_empty expected
      then false
      else if bytes_eq reported expected
      then true
      else if not (bytes_eq (bare_account reported) (bare_account expected))
      then false
      else if is_empty (realm_of reported) || is_empty (realm_of expected)
      then true
      else folding.equal_fold (realm_of reported) (realm_of expected)

  -- `sameAccount`.
  unfoldable pub same_account : Bytes → Bytes → Bool
  same_account reported expected =
      same_trimmed (folding.trim_space reported) (folding.trim_space expected)
