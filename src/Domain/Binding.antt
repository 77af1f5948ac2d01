-- ===== src/Domain/Binding.antt =====
-- core/internal/domain/binding.go: one observation of a line, and the three independent dimensions of
-- a line's state. `unset` is the empty string, the zero value of each.
use smart_srun.Prelude.{ℕ, Bool, true, false, not, ◌&&◌, List, [], ◌∷◌, is_empty, Bytes, bytes_eq}

pub data LinkState : Type 0 where
  unset missing down address_pending ready : LinkState

pub data AuthState : Type 0 where
  unset unknown authenticating accepted verified_self verified_other rejected offline : AuthState

pub data Connectivity : Type 0 where
  unset unknown offline portal_reachable internet_reachable limited : Connectivity

-- A `netip.Addr`: the invalid one, or the text of an address of one of the two families.
pub data Addr : Type 0 where
  invalid : Addr
  ipv4 ipv6 : Bytes → Addr

-- `a == b`.
abbrev pub addr_eq : Addr → Addr → Bool
addr_eq Addr.invalid Addr.invalid = true
addr_eq (Addr.ipv4 a) (Addr.ipv4 b) = bytes_eq a b
addr_eq (Addr.ipv6 a) (Addr.ipv6 b) = bytes_eq a b
addr_eq _ _ = false

-- `slices.Equal`.
unfoldable pub addrs_eq : List Addr → List Addr → Bool
addrs_eq [] [] = true
addrs_eq (a ∷ as_) (b ∷ bs) = addr_eq a b && addrs_eq as_ bs
addrs_eq _ _ = false

pub record Binding : Type 0 where
  pub logical_iface : Bytes
  pub l3_device : Bytes
  pub if_index : ℕ
  pub source_ipv4 : Addr
  pub dns_servers : List Addr
  pub generation : ℕ

abbrev pub is_ipv4 : Addr → Bool
is_ipv4 (Addr.ipv4 _) = true
is_ipv4 _ = false

-- `Ready`.
abbrev pub is_ready : Binding → Bool
is_ready b = not (is_empty b.l3_device) && is_ipv4 b.source_ipv4

-- `domain.Binding{Generation: g}`.
abbrev pub stamped : ℕ → Binding
stamped g = record {
  logical_iface = [];
  l3_device = [];
  if_index = 0;
  source_ipv4 = Addr.invalid;
  dns_servers = [];
  generation = g;
}
