-- ===== src/UdpClient/Balance.antt =====
-- src/native_client.rs: the statistics of a transport are true.
use renet_cross.Prelude.{◌≡◌, Option, List}
use renet_cross.Net.{SocketAddr}
use renet_cross.Conditioner.{Control}
use renet_cross.Egress.{native_udp_ip}
use renet_cross.Egress.Peers.Totals.{outcomes_of, new-outcomes}
use renet_cross.Datagram.Accounts.{metered, IsBalanced, Kept-IsBalanced}
use renet_cross.UdpClient.{Platform, new_transport}
use renet_cross.UdpClient.Keeps.{Call, run, run-On}

-- The platform whose socket counts what it is handed.
abbrev pub metered_platform : Platform → Platform
metered_platform p = record p { os = metered p.os }

-- From a new transport on, after any calls, the statistics say how many datagrams the socket has taken
-- whole and how many it has refused or cut short, as 64-bit counters that stop at their greatest value.
pub run-IsBalanced :
    (p : Platform) (calls : List (Call (metered_platform p))) (conditioner : Option Control)
    → (world : p.os.World) (netcode : p.nc.Netcode) (client : p.rc.Renet)
    → let s =
        run
          (metered_platform p)
          calls
          (new_transport (metered_platform p) conditioner (world, (0, 0)) netcode client) in
      outcomes_of s.line.egress.total ≡ s.line.world.1
unfolding new_transport
run-IsBalanced p calls conditioner world netcode client =
    run-On (metered_platform p) (IsBalanced p.os) (Kept-IsBalanced p.os) calls
      (new_transport (metered_platform p) conditioner (world, (0, 0)) netcode client)
      (new-outcomes SocketAddr native_udp_ip)
