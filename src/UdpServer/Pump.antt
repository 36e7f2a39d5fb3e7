-- ===== src/UdpServer/Pump.antt =====
-- src/udp_server.rs: the calls of a frame, `update` and `send_packets`, and the settings.
use renet_cross.Prelude.{ℕ, ltb, Option, none, some, List, length, Result, ok, err, if◌then◌else◌}
use renet_cross.Prelude.Steps.{and_then, for_each, each}
use renet_cross.Net.{SocketAddr}
use renet_cross.Conditioner.{incoming}
use renet_cross.UdpIo.{IoError, receive_with_budget}
use renet_cross.Egress.{EgressConfig, EgressError}
use renet_cross.Egress.Peers
use renet_cross.ServerConditioner.{PeerId, udp, web_rtc}
use renet_cross.ServerConditioner
use renet_cross.ServerGate.{attach, detach, reset}
use renet_cross.NetcodeResult.{ServerResult, to_owned_server_result}
use renet_cross.UdpServer.{
  Platform, State, gate_defer, gate_drain, send_packet, flush_outgoing, handle_server_result,
}

module _ (p : Platform) where
  open p use {os, ns, rs}
  open os use {recv_from}
  open ns use {
    Netcode, Error, update as netcode_update, process_packet, clients_id, update_client, disconnect,
    generate_payload_packet,
  }
  open rs use {disconnections_id, get_packets_to_send}

  abbrev pub IoStep : Type 0
  IoStep = State p × Result IoError (Unit {0})

  -- An answer of renetcode's server, with its new state.
  unfoldable pub absorb : Netcode × ServerResult → State p → State p
  unfolding handle_server_result
  absorb (netcode', result) s =
      handle_server_result p (to_owned_server_result result) (record s { netcode = netcode' })

  unfoldable pub process : List ℕ → SocketAddr → State p → State p
  unfolding absorb
  process bytes source s = absorb (process_packet source bytes s.netcode) s

  -- A datagram that was received.
  unfoldable pub take_datagram : List ℕ → SocketAddr → State p → State p
  unfolding gate_defer process
  take_datagram bytes source s =
      if ltb ns.max_packet_bytes (length bytes)
      then s
      else (let (deferred, taken) = gate_defer p incoming source bytes s in
          if taken then deferred else process bytes source deferred)

  unfoldable pub take_result : Result IoError (List ℕ × SocketAddr) → State p → IoStep
  unfolding take_datagram
  take_result (err e) s = (s, err e)
  take_result (ok (bytes, source)) s = (take_datagram bytes source s, ok tt)

  -- The closure that `receive_with_budget` calls.
  unfoldable pub receive : State p → IoStep
  unfolding take_result
  receive s =
      let (received, result) = recv_from s.line.world in
      take_result result (record s { line = record (s.line) { world = received } })

  unfoldable pub deliver_one : PeerId × List ℕ → State p → State p
  unfolding process
  deliver_one (udp source, packet) s = process packet source s
  deliver_one (web_rtc id, packet) s = s

  unfoldable pub deliver_incoming : State p → State p
  unfolding gate_drain deliver_one
  deliver_incoming s =
      let (drained, ready) = gate_drain p incoming s in each deliver_one ready drained

  unfoldable pub update_one : ℕ → State p → State p
  unfolding absorb
  update_one client s = absorb (update_client client s.netcode) s

  unfoldable pub disconnect_one : ℕ → State p → State p
  unfolding absorb
  disconnect_one client s = absorb (disconnect client s.netcode) s

  -- The rest of `update` once the socket is read.
  unfoldable pub update_clients : State p → State p
  unfolding deliver_incoming update_one disconnect_one flush_outgoing
  update_clients s =
      let delivered = deliver_incoming s in
      let updated = each update_one (clients_id delivered.netcode) delivered in
      let left = each disconnect_one (disconnections_id updated.server) updated in
      flush_outgoing p left

  unfoldable pub update : ℕ → State p → IoStep
  unfolding receive update_clients
  update duration s =
      let timed : State p = record s { netcode = netcode_update duration s.netcode } in
      and_then (receive_with_budget timed.max_datagrams_per_update receive timed)
        λ s. (update_clients s, ok tt)

  -- One packet to a client: an error ends the client's turn.
  unfoldable pub send_generated :
      Netcode × Result Error (SocketAddr × List ℕ)
      → State p
      → State p × Result (Unit {0}) (Unit {0})
  unfolding send_packet
  send_generated (netcode', err e) s = (record s { netcode = netcode' }, err tt)
  send_generated (netcode', ok (addr, payload)) s =
      let (sent, result) = send_packet p payload addr (record s { netcode = netcode' }) in
      (sent, elim result [ ok n ↦ ok tt | err e ↦ err tt ])

  unfoldable pub send_one : ℕ → List ℕ → State p → State p × Result (Unit {0}) (Unit {0})
  unfolding send_generated
  send_one client packet s = send_generated (generate_payload_packet client packet s.netcode) s

  unfoldable pub send_list : ℕ → Option (List (List ℕ)) → State p → State p
  unfolding send_one
  send_list client none s = s
  send_list client (some packets) s = (for_each (send_one client) packets s).0

  unfoldable pub send_to_client : ℕ → State p → State p
  unfolding send_list
  send_to_client client s =
      let (server', packets) = get_packets_to_send client s.server in
      send_list client packets (record s { server = server' })

  unfoldable pub send_packets : State p → State p
  unfolding flush_outgoing send_to_client
  send_packets s =
      let flushed = flush_outgoing p s in
      flush_outgoing p (each send_to_client (clients_id flushed.netcode) flushed)

  unfoldable pub disconnect_all : State p → State p
  unfolding disconnect_one
  disconnect_all s =
      let left = each disconnect_one (clients_id s.netcode) s in
      record left { packets = reset left.packets }

  -- `set_egress_limit`, at the time that the egress clock shows.
  unfoldable pub set_egress_limit :
      Option EgressConfig → ℕ → State p → State p × Result EgressError (Unit {0})
  set_egress_limit config now s =
      let (egress', verdict) = Peers.configure config now s.line.egress in
      (record s { line = record (s.line) { egress = egress' } }, verdict)

  unfoldable pub set_max_datagrams_per_update : ℕ → State p → State p
  set_max_datagrams_per_update limit s = record s { max_datagrams_per_update = limit }

  unfoldable pub set_max_clients : ℕ → State p → State p
  set_max_clients max_clients s = record s { netcode = ns.set_max_clients max_clients s.netcode }

  unfoldable pub set_conditioner : ServerConditioner.State → State p → State p
  set_conditioner conditioner s = record s { packets = (attach conditioner s.packets).0 }

  unfoldable pub clear_conditioner : State p → State p
  clear_conditioner s = record s { packets = (detach s.packets).0 }
