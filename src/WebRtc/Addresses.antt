-- ===== src/WebRtc/Addresses.antt =====
-- src/server.rs: the virtual addresses of the clients.
use renet_cross.Prelude.{ℕ, ◌%◌, ◌^◌, ◌<◌, ◌≡◌, arith}
use renet_cross.Net.{SocketAddr, v4, v6}
use renet_cross.WebRtc.{of_segments, virtual_addr_for_client}

-- The client of an address: the interface half of an IPv6 address.
abbrev pub client_of : SocketAddr → ℕ
client_of (v4 ip port) = 0
client_of (v6 ip port flowinfo scope) = ip % 2 ^ 64

-- A client is read back from its virtual address.
pub client_of-virtual_addr_for_client :
    (client : ℕ) → client < 2 ^ 64 → client_of (virtual_addr_for_client client) ≡ client
unfolding virtual_addr_for_client of_segments
client_of-virtual_addr_for_client client h = omega arith
