-- ===== src/UdpClient/Pump.antt =====
-- src/native_client.rs: the calls of a frame, `update` and `send_packets`, and the settings.
use renet_cross.Prelude.{ℕ, not, ◌&&◌, Option, none, some, List, Result, ok, err, if◌then◌else◌}
use renet_cross.Prelude.Steps.{and_then, for_each, lift_err}
use renet_cross.Net.{SocketAddr}
use renet_cross.Conditioner.{Control}
use renet_cross.UdpIo.{IoError, receive_with_budget}
use renet_cross.Egress.{EgressConfig, EgressError}
use renet_cross.Egress.Peers.{Egress}
use renet_cross.Egress.Peers
use renet_cross.Gate.{attach, detach, reset}
use renet_cross.UdpClient.{
  Platform, io, netcode_error, State, IoStep, ClientStep, send_packet, flush_outgoing,
  deliver_incoming, take_datagram,
}

module _ (p : Platform) where
  open p use {fl, os, nc, rc}
  open os use {World, gate_elapsed, recv_from}
  open nc use {
    Netcode, Reason, Error, disconnected, server_addr, disconnect_reason, is_connected,
    is_connecting, is_disconnected, disconnect, process_packet, update as netcode_update,
    generate_payload_packet,
  }
  open rc use {
    Renet, has_disconnect_reason, disconnect_due_to_transport, set_connected, set_connecting,
    process_renet_packet, get_packets_to_send,
  }

  -- The closure that `receive_with_budget` calls.
  unfoldable pub take_result : Result IoError (List ℕ × SocketAddr) → State p → IoStep p
  unfolding take_datagram
  take_result (err e) s = (s, err e)
  take_result (ok (bytes, source)) s = (take_datagram p bytes source s, ok tt)

  unfoldable pub receive : State p → IoStep p
  unfolding take_result
  receive s =
      let (received, result) = recv_from s.line.world in
      take_result result (record s { line = record (s.line) { world = received } })

  -- `update` on a connection that has ended.
  unfoldable pub end_update : Option Reason → State p → ClientStep p
  end_update none s = (s, ok tt)
  end_update (some reason) s = (
    record s { packets = reset s.packets; client = disconnect_due_to_transport s.client },
    err (netcode_error (disconnected reason)),
  )

  -- `send_packets` on a connection that has ended.
  unfoldable pub end_send : Option Reason → State p → ClientStep p
  end_send none s = (s, ok tt)
  end_send (some reason) s =
      (record s { packets = reset s.packets }, err (netcode_error (disconnected reason)))

  -- The packet that tells the server of a disconnection; an error of the send is ignored.
  unfoldable pub farewell : Netcode × Result Error (SocketAddr × List ℕ) → State p → State p
  unfolding send_packet
  farewell (netcode', err e) s = record s { netcode = netcode' }
  farewell (netcode', ok (addr, packet)) s =
      (send_packet p packet addr (record s { netcode = netcode' })).0

  unfoldable pub leave : State p → State p
  unfolding farewell
  leave s =
      if has_disconnect_reason s.client && not (is_disconnected s.netcode)
      then farewell (disconnect s.netcode) s
      else s

  unfoldable pub show_state : State p → State p
  show_state s = record s {
    client =
        if is_connected s.netcode
        then set_connected s.client
        else if is_connecting s.netcode
        then set_connecting s.client
        else s.client;
  }

  unfoldable pub send_update : Netcode × Option (List ℕ × SocketAddr) → State p → IoStep p
  unfolding send_packet
  send_update (netcode', none) s = (record s { netcode = netcode' }, ok tt)
  send_update (netcode', some (packet, addr)) s =
      send_packet p packet addr (record s { netcode = netcode' })

  unfoldable pub confirm : State p → State p
  confirm s = record s {
    client = if is_connected s.netcode then set_connected s.client else s.client;
  }

  -- The parts of `update` from its end: the check of the connection, ...
  unfoldable pub settle : State p → ClientStep p
  unfolding end_update confirm
  settle s = and_then (end_update (disconnect_reason s.netcode) s) λ s. (confirm s, ok tt)

  -- ... renetcode's own update, ...
  unfoldable pub advance : ℕ → State p → ClientStep p
  unfolding send_update settle
  advance duration s =
      and_then (lift_err io (send_update (netcode_update duration s.netcode) s)) settle

  -- ... the packets that the gate holds, ...
  unfoldable pub exchange : ℕ → State p → ClientStep p
  unfolding flush_outgoing deliver_incoming advance
  exchange duration s =
      and_then (lift_err io (flush_outgoing p s)) λ s. advance duration (deliver_incoming p s)

  -- ... and the datagrams of the socket.
  unfoldable pub listen : ℕ → State p → ClientStep p
  unfolding receive exchange
  listen duration s =
      and_then (lift_err io (receive_with_budget s.max_datagrams_per_update receive s))
        (exchange duration)

  unfoldable pub update : ℕ → State p → ClientStep p
  unfolding end_update leave show_state listen
  update duration s =
      and_then (end_update (disconnect_reason s.netcode) s)
        λ s. listen duration (show_state (leave s))

  unfoldable pub send_generated :
      Netcode × Result Error (SocketAddr × List ℕ) → State p → ClientStep p
  unfolding send_packet
  send_generated (netcode', err e) s = (record s { netcode = netcode' }, err (netcode_error e))
  send_generated (netcode', ok (addr, payload)) s =
      lift_err io (send_packet p payload addr (record s { netcode = netcode' }))

  unfoldable pub send_payload : List ℕ → State p → ClientStep p
  unfolding send_generated
  send_payload packet s = send_generated (generate_payload_packet packet s.netcode) s

  unfoldable pub send_all : State p → ClientStep p
  unfolding send_payload
  send_all s =
      let (client', packets) = get_packets_to_send s.client in
      for_each send_payload packets (record s { client = client' })

  unfoldable pub flush_and_send : State p → ClientStep p
  unfolding flush_outgoing send_all
  flush_and_send s = and_then (lift_err io (flush_outgoing p s)) send_all

  unfoldable pub send_packets : State p → ClientStep p
  unfolding end_send flush_and_send
  send_packets s = and_then (end_send (disconnect_reason s.netcode) s) flush_and_send

  -- `set_egress_limit`, at the time that the egress clock shows.
  unfoldable pub set_egress_limit :
      Option EgressConfig → ℕ → State p → State p × Result EgressError (Unit {0})
  set_egress_limit config now s =
      let (egress', verdict) = Peers.configure config now s.line.egress in
      (record s { line = record (s.line) { egress = egress' } }, verdict)

  unfoldable pub set_max_datagrams_per_update : ℕ → State p → State p
  set_max_datagrams_per_update limit s = record s { max_datagrams_per_update = limit }

  unfoldable pub set_conditioner : Control → State p → State p
  set_conditioner control s = record s { packets = (attach control s.packets).0 }

  unfoldable pub clear_conditioner : State p → State p
  clear_conditioner s = record s { packets = (detach s.packets).0 }
