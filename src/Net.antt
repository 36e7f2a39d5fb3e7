-- ===== src/Net.antt =====
-- Socket addresses as the standard library has them: an IPv4 address is a 32-bit number, an IPv6
-- address a 128-bit number with its port, flow information and scope.
use native.Mathlib.Decide.{ℕ_discrete}
use renet_cross.Prelude.{ℕ, zero, suc, ◌/◌, ◌%◌, ◌^◌, List, [], ◌∷◌, ◌++◌, ◌==◌, if◌then◌else◌}

pub data SocketAddr : Type 0 where
  v4 : ℕ → ℕ → SocketAddr
  v6 : ℕ → ℕ → ℕ → ℕ → SocketAddr

unfoldable pub SocketAddr-discrete : Discrete SocketAddr
SocketAddr-discrete = hlevel ℕ_discrete

-- `to_le_bytes` and `to_be_bytes` of a number of `k` bytes.
unfoldable pub to_le_bytes : ℕ → ℕ → List ℕ
to_le_bytes zero x = []
to_le_bytes (suc k) x = x % 256 ∷ to_le_bytes k (x / 256)

unfoldable pub to_be_bytes : ℕ → ℕ → List ℕ
to_be_bytes zero x = []
to_be_bytes (suc k) x = to_be_bytes k (x / 256) ++ x % 256 ∷ []

-- src/egress.rs: `ip_overhead`, the IP and UDP headers of a datagram. An IPv4-mapped IPv6 address
-- counts as IPv4.
unfoldable pub ip_overhead : SocketAddr → ℕ
ip_overhead (v4 ip port) = 28
ip_overhead (v6 ip port flowinfo scope) = if ip / 2 ^ 32 == 0xffff then 28 else 48
