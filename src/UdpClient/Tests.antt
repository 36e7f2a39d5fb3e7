-- ===== src/UdpClient/Tests.antt =====
-- src/native_client.rs: the theorems at work on a small platform.
use renet_cross.Prelude.{
  ℕ, ◌+◌, ◌≡◌, refl, true, false, none, some, List, [], ◌∷◌, length, Result, ok, err, ◌==◌,
  if◌then◌else◌,
}
use renet_cross.Float.{fixed_point}
use renet_cross.Net.{SocketAddr, v4}
use renet_cross.Conditioner.{default_config, empty_stats, Control}
use renet_cross.UdpIo.{IoError, would_block, other_error}
use renet_cross.Egress.{native_udp_ip, EgressConfig}
use renet_cross.Egress.Peers.Totals.{outcomes_of}
use renet_cross.Gate.{bypass}
use renet_cross.Gate.Sessions.{attach-IsIdle}
use renet_cross.Datagram.{Os}
use renet_cross.UdpClient.{Platform, NetcodeClient, RenetClient, State, new_transport}
use renet_cross.UdpClient.Pump.{update}
use renet_cross.UdpClient.Ends.{UpdateEnd, update-UpdateEnd}
use renet_cross.UdpClient.Keeps.{Call, updates, sends, limits, conditions, bypasses, run}
use renet_cross.UdpClient.Balance.{metered_platform, run-IsBalanced}
use renet_cross.UdpClient.Silence.{ungated}
use renet_cross.UdpClient.SilentCalls.{run-ungated}

abbrev server : SocketAddr
server = v4 0x0a000001 5000

-- The world is its time and the datagrams that wait.
abbrev ToyWorld : Type 0
ToyWorld = ℕ × List (List ℕ)

next_datagram : ToyWorld → ToyWorld × Result IoError (List ℕ × SocketAddr)
next_datagram (time, []) = ((time, []), err would_block)
next_datagram (time, bytes ∷ rest) = ((time, rest), ok (bytes, server))

-- A socket that refuses datagrams of one byte.
abbrev toy_os : Os
toy_os = record {
  World = ToyWorld;
  egress_elapsed = λ w. ((w.0 + 1, w.1), w.0);
  gate_elapsed = λ w. ((w.0 + 1, w.1), w.0);
  recv_from = next_datagram;
  send_to = λ payload addr w.
      (w, if length payload == 1 then err (other_error 7) else ok (length payload));
}

-- A client that counts the packets it is handed, is connected from the first on, and is disconnected
-- by the fifth.
abbrev toy_netcode : NetcodeClient
toy_netcode = record {
  max_packet_bytes = 1400;
  Netcode = ℕ;
  Reason = ℕ;
  Error = ℕ;
  disconnected = λ r. r + 100;
  server_addr = λ n. server;
  disconnect_reason = λ n. if n == 5 then some 3 else none;
  is_connected = λ n. if n == 0 then false else true;
  is_connecting = λ n. n == 0;
  is_disconnected = λ n. n == 5;
  disconnect = λ n. (5, ok (server, 6 ∷ 6 ∷ []));
  process_packet = λ bytes n. (n + 1, some bytes);
  update = λ duration n. (n, some (4 ∷ 4 ∷ [], server));
  generate_payload_packet = λ packet n. (n, ok (server, 5 ∷ packet));
}

abbrev toy_renet : RenetClient
toy_renet = record {
  Renet = List (List ℕ);
  has_disconnect_reason = λ c. false;
  disconnect_due_to_transport = λ c. (0 ∷ []) ∷ c;
  set_connected = λ c. c;
  set_connecting = λ c. c;
  process_renet_packet = λ bytes c. bytes ∷ c;
  get_packets_to_send = λ c. ([], c);
}

abbrev toy : Platform
toy = record { fl = fixed_point; os = toy_os; nc = toy_netcode; rc = toy_renet }

abbrev switched_off : Control
switched_off = record {
  config = default_config;
  stats = empty_stats;
  revision = 0;
  pending_outage = none;
}

abbrev started : State toy
started = new_transport toy (some switched_off) (0, (1 ∷ 2 ∷ []) ∷ (7 ∷ []) ∷ []) 0 []

abbrev budget : EgressConfig
budget = record {
  basis = native_udp_ip;
  bytes_per_second = 1000;
  burst_bytes = 4096;
  control_reserve_bytes = 256;
}

abbrev calls : List (Call toy)
calls = updates 5 ∷ limits (some budget) 7 ∷ sends ∷ updates 6 ∷ bypasses ∷ sends ∷ []

update-UpdateEnd_example : UpdateEnd toy (update toy 5 started)
update-UpdateEnd_example = update-UpdateEnd toy 5 started

run-IsBalanced_example :
    let s =
      run (metered_platform toy) (updates 5 ∷ conditions switched_off ∷ sends ∷ updates 6 ∷ []) (
        new_transport (metered_platform toy) none ((0, (9 ∷ []) ∷ []), (0, 0)) 0 ((8 ∷ []) ∷ [])) in
    outcomes_of s.line.egress.total ≡ s.line.world.1
run-IsBalanced_example =
    run-IsBalanced toy (updates 5 ∷ conditions switched_off ∷ sends ∷ updates 6 ∷ []) none
      (0, (9 ∷ []) ∷ []) 0 ((8 ∷ []) ∷ [])

run-ungated_example : ungated toy (run toy calls started) ≡ run toy calls (ungated toy started)
unfolding new_transport
run-ungated_example =
    run-ungated toy calls started (tt, (tt, (tt, (tt, (tt, (tt, tt))))))
      (attach-IsIdle switched_off bypass refl)
