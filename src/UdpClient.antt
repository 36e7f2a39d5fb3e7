-- ===== src/UdpClient.antt =====
-- src/native_client.rs: `UdpNetcodeClientTransport`. The socket and the clocks, renetcode's client and
-- renet's client are parameters. The state holds renet's client too, which the source borrows for each
-- call.
mod Tests
pub mod Pump
pub mod Ends
pub mod Keeps
pub mod Balance
pub mod Silence
pub mod SilentCalls
use mathlib.Core.Option
use renet_cross.Prelude.{
  ℕ, Bool, true, false, not, ◌&&◌, ◌||◌, Option, none, some, List, [], ◌∷◌, length, Result, ok, err,
  ltb, if◌then◌else◌, is_some,
}
use renet_cross.Prelude.Steps.{and_then, for_each, each, lift_err}
use renet_cross.Float.{F64}
use renet_cross.Net.{SocketAddr, SocketAddr-discrete}
use renet_cross.Conditioner.{Direction, incoming, outgoing, Control}
use renet_cross.UdpIo.{
  IoError, would_block, interrupted, connection_reset, other_error, receive_with_budget,
}
use renet_cross.Egress.{native_udp_ip, EgressConfig, EgressError}
use renet_cross.Egress.Peers.{Egress}
use renet_cross.Egress.Peers
use renet_cross.Gate.{Gate, bypass, attach, detach, reset, drain, defer}
use renet_cross.Datagram.{Os, Line, transmit}

-- `renetcode::NetcodeClient`, with its error and its reasons for a disconnection.
pub record NetcodeClient : Type 1 where
  -- `NETCODE_MAX_PACKET_BYTES`
  pub max_packet_bytes : ℕ
  pub Netcode : Type 0
  pub Reason : Type 0
  pub Error : Type 0
  -- `NetcodeError::Disconnected`
  pub disconnected : Reason → Error
  pub server_addr : Netcode → SocketAddr
  pub disconnect_reason : Netcode → Option Reason
  pub is_connected : Netcode → Bool
  pub is_connecting : Netcode → Bool
  pub is_disconnected : Netcode → Bool
  pub disconnect : Netcode → Netcode × Result Error (SocketAddr × List ℕ)
  pub process_packet : List ℕ → Netcode → Netcode × Option (List ℕ)
  pub update : ℕ → Netcode → Netcode × Option (List ℕ × SocketAddr)
  pub generate_payload_packet : List ℕ → Netcode → Netcode × Result Error (SocketAddr × List ℕ)

-- `renet::RenetClient`.
pub record RenetClient : Type 1 where
  pub Renet : Type 0
  pub has_disconnect_reason : Renet → Bool
  pub disconnect_due_to_transport : Renet → Renet
  pub set_connected : Renet → Renet
  pub set_connecting : Renet → Renet
  pub process_renet_packet : List ℕ → Renet → Renet
  pub get_packets_to_send : Renet → Renet × List (List ℕ)

-- The errors of `NativeClientError` that a running transport has.
pub data ClientError (E : Type 0) : Type 0 where
  io : IoError → ClientError E
  netcode_error : E → ClientError E

pub record Transport (W N R : Type 0) : Type 0 where
  pub line : Line SocketAddr W
  pub netcode : N
  pub max_datagrams_per_update : ℕ
  pub packets : Gate SocketAddr
  pub client : R

-- `addr == other`.
abbrev pub same_addr : SocketAddr → SocketAddr → Bool
same_addr a b = elim (SocketAddr-discrete a b) [ yes _ ↦ true | no _ ↦ false ]

-- The result of `send_datagram`: what a saturated socket refuses is lost.
unfoldable pub lossy : Option (Result IoError ℕ) → Result IoError (Unit {0})
lossy none = ok tt
lossy (some (ok n)) = ok tt
lossy (some (err would_block)) = ok tt
lossy (some (err interrupted)) = ok tt
lossy (some (err e)) = err e

-- What the transport stands on.
pub record Platform : Type 1 where
  pub fl : F64
  pub os : Os
  pub nc : NetcodeClient
  pub rc : RenetClient

module _ (p : Platform) where
  open p use {fl, os, nc, rc}
  open os use {World, gate_elapsed, recv_from}
  open nc use {
    Netcode, Reason, Error, disconnected, server_addr, disconnect_reason, is_connected,
    is_connecting, is_disconnected, disconnect, process_packet, update as netcode_update,
    generate_payload_packet,
  }
  open rc use {
    Renet, has_disconnect_reason, disconnect_due_to_transport, set_connected, set_connecting,
    process_renet_packet, get_packets_to_send,
  }

  abbrev pub State : Type 0
  State = Transport World Netcode Renet

  abbrev pub IoStep : Type 0
  IoStep = State × Result IoError (Unit {0})

  abbrev pub ClientStep : Type 0
  ClientStep = State × Result (ClientError Error) (Unit {0})

  -- `new_with_config`, with the socket and renetcode's client that it is given.
  unfoldable pub new_transport : Option Control → World → Netcode → Renet → State
  new_transport conditioner world netcode client = record {
    line = record { egress = Peers.new native_udp_ip; world = world };
    netcode = netcode;
    max_datagrams_per_update = 256;
    packets = elim conditioner [ none ↦ bypass | some c ↦ (attach c bypass).0 ];
    client = client;
  }

  unfoldable pub send_datagram : List ℕ → SocketAddr → State → IoStep
  send_datagram payload addr s =
      let (line', outcome) = transmit os payload addr s.line in
      (record s { line = line' }, lossy outcome)

  -- `self.packets.defer(...)` and `self.packets.drain(...)`, which read the gate's clock.
  unfoldable pub gate_defer : Direction → SocketAddr → List ℕ → State → State × Bool
  gate_defer d addr bytes s =
      let (timed, now) = gate_elapsed s.line.world in
      let (gate, taken) = defer fl d addr bytes now s.packets in
      (record s { line = record (s.line) { world = timed }; packets = gate }, taken)

  unfoldable pub gate_drain : Direction → State → State × List (SocketAddr × List ℕ)
  gate_drain d s =
      let (timed, now) = gate_elapsed s.line.world in
      let (gate, ready) = drain d now s.packets in
      (record s { line = record (s.line) { world = timed }; packets = gate }, ready)

  -- The loops over what the gate hands over: packets of another address are dropped.
  unfoldable pub send_if_to : SocketAddr → SocketAddr × List ℕ → State → IoStep
  unfolding send_datagram
  send_if_to addr packet s =
      if same_addr packet.0 addr then send_datagram packet.1 packet.0 s else (s, ok tt)

  unfoldable pub send_to_server : SocketAddr × List ℕ → State → IoStep
  unfolding send_datagram
  send_to_server packet s =
      if same_addr packet.0 (server_addr s.netcode)
      then send_datagram packet.1 packet.0 s
      else (s, ok tt)

  -- A packet past the gate, or into it.
  unfoldable pub offer : List ℕ → SocketAddr → State → IoStep
  unfolding send_datagram gate_defer
  offer bytes addr s =
      let (deferred, taken) = gate_defer outgoing addr bytes s in
      if taken then (deferred, ok tt) else send_datagram bytes addr deferred

  unfoldable pub forward : SocketAddr → State → IoStep
  unfolding gate_drain send_if_to
  forward addr s =
      let (drained, ready) = gate_drain outgoing s in for_each (send_if_to addr) ready drained

  unfoldable pub send_packet : List ℕ → SocketAddr → State → IoStep
  unfolding offer forward
  send_packet bytes addr s = and_then (offer bytes addr s) (forward addr)

  unfoldable pub flush_outgoing : State → IoStep
  unfolding gate_drain send_to_server
  flush_outgoing s =
      let (drained, ready) = gate_drain outgoing s in for_each send_to_server ready drained

  -- `if let Some(payload) = netcode_client.process_packet(bytes) { client.process_packet(payload) }`.
  unfoldable pub process : List ℕ → State → State
  process bytes s =
      let (netcode', payload) = process_packet bytes s.netcode in
      record s {
        netcode = netcode';
        client = elim payload [ none ↦ s.client | some p ↦ process_renet_packet p s.client ];
      }

  unfoldable pub deliver_one : SocketAddr × List ℕ → State → State
  unfolding process
  deliver_one packet s =
      if same_addr packet.0 (server_addr s.netcode) then process packet.1 s else s

  unfoldable pub deliver_incoming : State → State
  unfolding gate_drain deliver_one
  deliver_incoming s =
      let (drained, ready) = gate_drain incoming s in each deliver_one ready drained

  -- A datagram that was received.
  unfoldable pub take_datagram : List ℕ → SocketAddr → State → State
  unfolding gate_defer process
  take_datagram bytes source s =
      if not (same_addr source (server_addr s.netcode)) || ltb nc.max_packet_bytes (length bytes)
      then s
      else (let (deferred, taken) = gate_defer incoming source bytes s in
          if taken then deferred else process bytes deferred)
