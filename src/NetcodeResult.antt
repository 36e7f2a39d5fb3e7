-- ===== src/NetcodeResult.antt =====
-- src/netcode_result.rs: what renetcode's server answers, and the servers of renetcode and of renet,
-- which are parameters of both server transports.
use renet_cross.Prelude.{ℕ, ◌+◌, ◌≡◌, if◌then◌else◌, Bool, false, Option, List, Result}
use renet_cross.Net.{SocketAddr}

-- `renetcode::ServerResult`, with the constructors that the program matches on.
pub data ServerResult : Type 0 where
  nothing : ServerResult
  packet_to_send : SocketAddr → List ℕ → ServerResult
  payload : ℕ → List ℕ → ServerResult
  -- the client, its user data, its address and the answer
  client_connected : ℕ → List ℕ → SocketAddr → List ℕ → ServerResult
  client_disconnected : ℕ → SocketAddr → Option (List ℕ) → ServerResult

pub data OwnedServerResult : Type 0 where
  owned_nothing : OwnedServerResult
  owned_packet_to_send : SocketAddr → List ℕ → OwnedServerResult
  owned_payload : ℕ → List ℕ → OwnedServerResult
  owned_connected : ℕ → SocketAddr → List ℕ → OwnedServerResult
  owned_disconnected : ℕ → SocketAddr → Option (List ℕ) → OwnedServerResult

unfoldable pub to_owned_server_result : ServerResult → OwnedServerResult
to_owned_server_result nothing = owned_nothing
to_owned_server_result (packet_to_send addr bytes) = owned_packet_to_send addr bytes
to_owned_server_result (payload client bytes) = owned_payload client bytes
to_owned_server_result (client_connected client user_data addr bytes) =
    owned_connected client addr bytes
to_owned_server_result (client_disconnected client addr bytes) =
    owned_disconnected client addr bytes

-- `renetcode::NetcodeServer`.
pub record NetcodeServer : Type 1 where
  -- `NETCODE_MAX_PACKET_BYTES`
  pub max_packet_bytes : ℕ
  pub Netcode : Type 0
  pub Error : Type 0
  pub update : ℕ → Netcode → Netcode
  pub process_packet : SocketAddr → List ℕ → Netcode → Netcode × ServerResult
  pub clients_id : Netcode → List ℕ
  pub update_client : ℕ → Netcode → Netcode × ServerResult
  pub disconnect : ℕ → Netcode → Netcode × ServerResult
  pub generate_payload_packet : ℕ → List ℕ → Netcode → Netcode × Result Error (SocketAddr × List ℕ)
  pub client_addr : ℕ → Netcode → Option SocketAddr
  pub set_max_clients : ℕ → Netcode → Netcode

-- `renet::RenetServer`. The errors of `process_packet_from` and `get_packets_to_send` are only logged.
pub record RenetServer : Type 1 where
  pub Renet : Type 0
  pub is_connected : ℕ → Renet → Bool
  pub add_connection : ℕ → Renet → Renet
  pub remove_connection : ℕ → Renet → Renet
  pub process_packet_from : List ℕ → ℕ → Renet → Renet
  pub disconnections_id : Renet → List ℕ
  pub get_packets_to_send : ℕ → Renet → Renet × Option (List (List ℕ))

-- A property of renet's server that holds on while a connection is added for a client that has none,
-- and while anything else is done.
pub record Served (rs : RenetServer) (Q : rs.Renet → Type 0) : Type 0 where
  pub added :
      (client : ℕ) (r : rs.Renet)
      → rs.is_connected client r ≡ false
      → Q r
      → Q (rs.add_connection client r)
  pub removed : (client : ℕ) (r : rs.Renet) → Q r → Q (rs.remove_connection client r)
  pub processed :
      (bytes : List ℕ) (client : ℕ) (r : rs.Renet) → Q r → Q (rs.process_packet_from bytes client r)
  pub collected : (client : ℕ) (r : rs.Renet) → Q r → Q (rs.get_packets_to_send client r).0

-- Renet's server with a count of the connections that were added for a client that had one.
abbrev pub watched : RenetServer → RenetServer
watched rs = record {
  Renet = rs.Renet × ℕ;
  is_connected = λ client r. rs.is_connected client r.0;
  add_connection = λ client r.
      (rs.add_connection client r.0, if rs.is_connected client r.0 then r.1 + 1 else r.1);
  remove_connection = λ client r. (rs.remove_connection client r.0, r.1);
  process_packet_from = λ bytes client r. (rs.process_packet_from bytes client r.0, r.1);
  disconnections_id = λ r. rs.disconnections_id r.0;
  get_packets_to_send =
      λ client r. let (r', packets) = rs.get_packets_to_send client r.0 in ((r', r.1), packets);
}

pub watched-Served : (rs : RenetServer) → Served (watched rs) (λ r. r.1 ≡ 0)
watched-Served rs = record {
  added = λ client r new h. rw new h;
  removed = λ client r h. h;
  processed = λ bytes client r h. h;
  collected = λ client r h. h;
}
