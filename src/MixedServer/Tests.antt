-- ===== src/MixedServer/Tests.antt =====
-- src/mixed_server.rs: the theorem at work on a small platform.
use renet_cross.Prelude.{◌*◌, ◌≡◌, none, List, [], ◌∷◌, nanos_per_sec}
use renet_cross.Float.{fixed_point}
use renet_cross.Egress.Peers.Totals.{outcomes_of}
use renet_cross.UdpServer
use renet_cross.WebRtc
use renet_cross.WebRtc.Keeps.Calls.{adds}
use renet_cross.WebRtc.Toy.{browser, toy_os, toy_netcode, toy_renet, toy_rtc}
use renet_cross.Conditioner.{default_config, empty_stats}
use renet_cross.ServerConditioner
use renet_cross.MixedServer.{Platform, udp_platform, web_platform, new}
use renet_cross.MixedServer.Calls.{
  Call, updates, sends, disconnects, bypasses, conditions, outages, of_webrtc, run,
}
use renet_cross.MixedServer.Connections.{watched_platform, run-watched}

abbrev both : Platform
both = record {
  fl = fixed_point;
  udp_os = toy_os;
  web_os = toy_os;
  udp_ns = toy_netcode;
  web_ns = toy_netcode;
  rs = toy_renet;
  xs = toy_rtc;
}

abbrev quiet : ServerConditioner.State
quiet = record {
  config = record { packets = default_config; max_peers = 8; idle_timeout = 30 * nanos_per_sec };
  peers = [];
  retired = empty_stats;
  peer_limit_drops = 0;
  expired_peers = 0;
  next_owner = 1;
  now = 0;
  next_cleanup = 0;
  outage_until = none;
}

-- Both backends share handle 3. Client 7 comes over UDP, and then over WebRTC.
abbrev calls : List (Call (watched_platform both) 4)
calls =
    conditions 3
    ∷ updates 5 10
    ∷ of_webrtc (adds 7 ((1 ∷ 7 ∷ []) ∷ []))
    ∷ updates 5 20
    ∷ sends
    ∷ outages 3 5 30
    ∷ updates 5 30
    ∷ bypasses
    ∷ disconnects
    ∷ []

run-watched_example :
    let q = watched_platform both in
    let udp =
      UdpServer.new_transport (udp_platform q) none ((0, (1 ∷ 7 ∷ []) ∷ []), (0, 0)) 0 ([], 0) in
    let webrtc = WebRtc.new_transport (web_platform q) none browser (0, (3 ∷ []) ∷ []) 0 ([], 0) in
    let m = run q 4 calls (new udp webrtc ([], 0) (λ h. quiet)) in
    (outcomes_of m.udp.line.egress.total ≡ m.udp.line.world.1) × (m.server.1 ≡ 0)
run-watched_example =
    run-watched both 4 calls none none (λ h. quiet) browser (0, (1 ∷ 7 ∷ []) ∷ [])
      (0, (3 ∷ []) ∷ []) 0 0 []
