-- ===== src/UdpServer.antt =====
-- src/udp_server.rs: `UdpNetcodeServerTransport`. The socket and the clocks, renetcode's server and
-- renet's server are parameters. The state holds renet's server too, which the source borrows for each
-- call. What the source only logs is left out.
pub mod Pump
pub mod Keeps
use mathlib.Core.Option
use renet_cross.Prelude.{
  ℕ, Bool, true, false, Option, none, some, List, [], ◌∷◌, length, Result, ok, err, if◌then◌else◌,
}
use renet_cross.Prelude.Steps.{each}
use renet_cross.Float.{F64}
use renet_cross.Net.{SocketAddr, SocketAddr-discrete, ip_overhead}
use renet_cross.Conditioner.{Direction, outgoing, DirectionStats}
use renet_cross.UdpIo.{IoError}
use renet_cross.Egress.{native_udp_ip, EgressStats, Allowance, reserve_queued}
use renet_cross.Egress.Peers.{Egress, peer_stats, peer_allowance}
use renet_cross.Egress.Peers
use renet_cross.ServerConditioner.{PeerId, udp, web_rtc}
use renet_cross.ServerConditioner
use renet_cross.ServerGate.{ServerGate, bypass, attach, remove, drain, defer, queued}
use renet_cross.Datagram.{Os, Line, transmit}
use renet_cross.NetcodeResult.{
  OwnedServerResult, owned_nothing, owned_packet_to_send, owned_payload, owned_connected,
  owned_disconnected, ServerResult, to_owned_server_result, NetcodeServer, RenetServer,
}

pub record Transport (W N R : Type 0) : Type 0 where
  pub line : Line SocketAddr W
  pub netcode : N
  pub max_datagrams_per_update : ℕ
  pub packets : ServerGate
  pub server : R

-- What the transport stands on.
pub record Platform : Type 1 where
  pub fl : F64
  pub os : Os
  pub ns : NetcodeServer
  pub rs : RenetServer

-- The result of `send_datagram`: a datagram that the budget refuses counts as sent.
abbrev pub sent_length : ℕ → Option (Result IoError ℕ) → Result IoError ℕ
sent_length size none = ok size
sent_length size (some result) = result

-- A result without its value.
abbrev pub forget : Result IoError ℕ → Result IoError (Unit {0})
forget (ok n) = ok tt
forget (err e) = err e

module _ (p : Platform) where
  open p use {fl, os, ns, rs}
  open os use {World, gate_elapsed}
  open ns use {Netcode, disconnect, client_addr}
  open rs use {Renet, is_connected, add_connection, remove_connection, process_packet_from}

  abbrev pub State : Type 0
  State = Transport World Netcode Renet

  abbrev pub SendStep : Type 0
  SendStep = State × Result IoError ℕ

  -- `new_with_config`, with the socket and renetcode's server that it is given.
  unfoldable pub new_transport : Option ServerConditioner.State → World → Netcode → Renet → State
  new_transport conditioner world netcode server = record {
    line = record { egress = Peers.new native_udp_ip; world = world };
    netcode = netcode;
    max_datagrams_per_update = 256;
    packets = elim conditioner [ none ↦ bypass | some c ↦ (attach c bypass).0 ];
    server = server;
  }

  -- The egress of a connected client.
  pub peer_egress_stats : ℕ → State → Option EgressStats
  peer_egress_stats client s = elim (client_addr client s.netcode) [
    | none ↦ none
    | some addr ↦ peer_stats SocketAddr-discrete addr s.line.egress
  ]

  offered : SocketAddr → ℕ → State → Allowance
  offered addr now s =
      let allowance = peer_allowance SocketAddr-discrete addr now s.line.egress in
      let waiting = queued (udp addr) s.packets in
      reserve_queued waiting.queued_bytes waiting.queued_packets
        (record allowance { ip_udp_overhead = ip_overhead addr })

  -- `peer_egress_allowance`, at the time that the egress clock shows.
  pub peer_egress_allowance : ℕ → ℕ → State → Option Allowance
  unfolding offered
  peer_egress_allowance client now s =
      Option.map (λ addr. offered addr now s) (client_addr client s.netcode)

  unfoldable pub send_datagram : List ℕ → SocketAddr → State → SendStep
  send_datagram payload addr s =
      let (line', outcome) = transmit os payload addr s.line in
      (record s { line = line' }, sent_length (length payload) outcome)

  -- `self.packets.defer(...)` and `self.packets.drain(...)`, which read the clock of the handle.
  unfoldable pub gate_defer : Direction → SocketAddr → List ℕ → State → State × Bool
  gate_defer d addr bytes s =
      let (timed, now) = gate_elapsed s.line.world in
      let (gate, taken) = defer fl d (udp addr) bytes now s.packets in
      (record s { line = record (s.line) { world = timed }; packets = gate }, taken)

  unfoldable pub gate_drain : Direction → State → State × List (PeerId × List ℕ)
  gate_drain d s =
      let (timed, now) = gate_elapsed s.line.world in
      let (gate, ready) = drain d now s.packets in
      (record s { line = record (s.line) { world = timed }; packets = gate }, ready)

  unfoldable pub send_packet : List ℕ → SocketAddr → State → SendStep
  unfolding send_datagram gate_defer
  send_packet bytes addr s =
      let (deferred, taken) = gate_defer outgoing addr bytes s in
      if taken then (deferred, ok (length bytes)) else send_datagram bytes addr deferred

  unfoldable pub flush_one : PeerId × List ℕ → State → State
  unfolding send_datagram
  flush_one (udp addr, packet) s = (send_datagram packet addr s).0
  flush_one (web_rtc id, packet) s = s

  unfoldable pub flush_outgoing : State → State
  unfolding gate_drain flush_one
  flush_outgoing s = let (drained, ready) = gate_drain outgoing s in each flush_one ready drained

  -- The rejection of a client whose identity is connected already: what renetcode answers to the
  -- disconnection is sent at once.
  unfoldable pub reject : OwnedServerResult → State → State
  unfolding send_datagram
  reject (owned_disconnected client addr (some bytes)) s = (send_datagram bytes addr s).0
  reject _ s = s

  -- The last packet to a client that has gone.
  unfoldable pub notify : Option (List ℕ) → SocketAddr → State → State
  unfolding send_datagram
  notify none addr s = s
  notify (some bytes) addr s = (send_datagram bytes addr s).0

  unfoldable pub drop_peer : SocketAddr → State → State
  drop_peer addr s = record s { packets = remove (udp addr) s.packets }

  -- `ClientConnected` with an identity that is connected already, and with a new one.
  unfoldable pub refuse_duplicate : ℕ → SocketAddr → State → State
  unfolding reject drop_peer
  refuse_duplicate client addr s =
      let (netcode', result) = disconnect client s.netcode in
      drop_peer addr (reject (to_owned_server_result result) (record s { netcode = netcode' }))

  unfoldable pub welcome : ℕ → SocketAddr → List ℕ → State → State
  unfolding send_packet
  welcome client addr bytes s =
      (send_packet bytes addr (record s { server = add_connection client s.server })).0

  unfoldable pub handle_server_result : OwnedServerResult → State → State
  unfolding send_packet refuse_duplicate welcome notify drop_peer
  handle_server_result owned_nothing s = s
  handle_server_result (owned_packet_to_send addr bytes) s = (send_packet bytes addr s).0
  handle_server_result (owned_payload client bytes) s = record s {
    server = process_packet_from bytes client s.server;
  }
  handle_server_result (owned_connected client addr bytes) s =
      if is_connected client s.server
      then refuse_duplicate client addr s
      else welcome client addr bytes s
  handle_server_result (owned_disconnected client addr bytes) s =
      let gone : State = drop_peer addr s in
      notify bytes addr (record gone { server = remove_connection client gone.server })
