-- ===== src/WebRtc/Frames.antt =====
-- src/server.rs: the calls of a frame, `update`, `send_packets` and `disconnect_all`, and the settings.
-- The number of rounds is the fuel of `apply_pending_results`.
use native.Mathlib.Decide.{ℕ_discrete}
use renet_cross.Prelude.{
  ℕ, ◌&&◌, leb, Option, none, some, List, [], map, Result, ok, err, if◌then◌else◌, is_some_and,
}
use renet_cross.Prelude.Assoc.{get, insert}
use renet_cross.Prelude.Steps.{each, for_each}
use renet_cross.Net.{SocketAddr}
use renet_cross.UdpIo.{IoError}
use renet_cross.Egress.{EgressConfig, EgressError}
use renet_cross.Egress.Peers.{configure}
use renet_cross.ServerConditioner
use renet_cross.ServerGate.{attach, detach, reset}
use renet_cross.NetcodeResult.{ServerResult, to_owned_server_result, OwnedServerResult}
use renet_cross.WebRtc.{Platform, State, Peer}
use renet_cross.WebRtc.Driving.{flush_peer_output}
use renet_cross.WebRtc.Sending.{send_to_peer_lossy}
use renet_cross.WebRtc.Results.{
  handle_server_result, apply_pending_results, drain_conditioned_packets,
}
use renet_cross.WebRtc.Pump.{route_socket_input_to_peers}

module _ (p : Platform) (rounds : ℕ) where
  open p use {ns, rs, xs}
  open xs use {Rtc, RtcError, is_alive}

  -- An answer of renetcode's server, with its new state.
  unfoldable pub absorb : ns.Netcode × ServerResult → State p → State p
  unfolding handle_server_result
  absorb (netcode', result) s =
      handle_server_result p (to_owned_server_result result) (record s { netcode = netcode' })

  unfoldable pub update_one : ℕ → State p → State p
  unfolding absorb
  update_one client s = absorb (ns.update_client client s.netcode) s

  unfoldable pub disconnect_one : ℕ → State p → State p
  unfolding absorb
  disconnect_one client s = absorb (ns.disconnect client s.netcode) s

  after_timeout : Rtc × Result RtcError (Unit {0}) → Rtc
  after_timeout (rtc', ok tt) = rtc'
  after_timeout (rtc', err e) = xs.disconnect rtc'

  -- The timeout of a live peer whose deadline has come.
  unfoldable pub time_out : ℕ → ℕ → Option (Peer p) → State p → State p
  unfolding after_timeout
  time_out now client none s = s
  time_out now client (some peer) s =
      if is_alive peer.rtc && is_some_and peer.next_timeout (λ deadline. leb deadline now)
      then (let peer' : Peer p = record peer {
        rtc = after_timeout (xs.handle_timeout now peer.rtc);
      } in
          record s { peers = insert ℕ_discrete client peer' s.peers })
      else s

  unfoldable pub pump_peer : ℕ → ℕ → State p → State p
  unfolding time_out flush_peer_output
  pump_peer now client s =
      let flushed = flush_peer_output p client s in
      flush_peer_output p client (time_out now client (get ℕ_discrete client flushed.peers) flushed)

  abbrev pub keys : State p → List ℕ
  keys s = map (λ e. e.0) s.peers

  -- `update_at` up to the reading of the socket ...
  unfoldable pub before_input : ℕ → State p → State p
  unfolding apply_pending_results drain_conditioned_packets flush_peer_output
  before_input duration s =
      let applied = apply_pending_results p rounds s in
      let timed : State p = record applied { netcode = ns.update duration applied.netcode } in
      let drained = drain_conditioned_packets p rounds timed in
      apply_pending_results p rounds (each (flush_peer_output p) (keys drained) drained)

  -- ... and from there on.
  unfoldable pub after_input : ℕ → List OwnedServerResult → State p → State p
  unfolding pump_peer update_one disconnect_one
  after_input now results s =
      let handled = each (handle_server_result p) results s in
      let pumped = apply_pending_results p rounds (each (pump_peer now) (keys handled) handled) in
      let updated = each update_one (ns.clients_id pumped.netcode) pumped in
      let left = each disconnect_one (rs.disconnections_id updated.server) updated in
      drain_conditioned_packets p rounds (apply_pending_results p rounds left)

  unfoldable pub finish_update :
      ℕ → State p × Result IoError (List OwnedServerResult) → State p × Result IoError (Unit {0})
  unfolding after_input
  finish_update now (s, err e) = (s, err e)
  finish_update now (s, ok results) = (after_input now results s, ok tt)

  -- `update_at`, which `update` calls with the present time.
  unfoldable pub update_at : ℕ → ℕ → State p → State p × Result IoError (Unit {0})
  unfolding before_input finish_update
  update_at duration now s =
      finish_update now (route_socket_input_to_peers p now (before_input duration s))

  -- One packet to a client: only a failed encryption ends the client's turn.
  unfoldable pub send_generated :
      ℕ
      → ns.Netcode × Result ns.Error (SocketAddr × List ℕ)
      → State p
      → State p × Result (Unit {0}) (Unit {0})
  unfolding send_to_peer_lossy
  send_generated client (netcode', err e) s = (record s { netcode = netcode' }, err tt)
  send_generated client (netcode', ok (addr, payload)) s =
      (send_to_peer_lossy p client payload (record s { netcode = netcode' }), ok tt)

  unfoldable pub send_one : ℕ → List ℕ → State p → State p × Result (Unit {0}) (Unit {0})
  unfolding send_generated
  send_one client packet s =
      send_generated client (ns.generate_payload_packet client packet s.netcode) s

  unfoldable pub send_list : ℕ → Option (List (List ℕ)) → State p → State p
  unfolding send_one
  send_list client none s = s
  send_list client (some packets) s = (for_each (send_one client) packets s).0

  unfoldable pub send_to_client : ℕ → State p → State p
  unfolding send_list
  send_to_client client s =
      let (server', packets) = rs.get_packets_to_send client s.server in
      send_list client packets (record s { server = server' })

  unfoldable pub send_packets : State p → State p
  unfolding apply_pending_results drain_conditioned_packets send_to_client
  send_packets s =
      let drained = drain_conditioned_packets p rounds (apply_pending_results p rounds s) in
      let sent = each send_to_client (ns.clients_id drained.netcode) drained in
      drain_conditioned_packets p rounds (apply_pending_results p rounds sent)

  unfoldable pub disconnect_all : State p → State p
  unfolding apply_pending_results disconnect_one
  disconnect_all s =
      let applied = apply_pending_results p rounds s in
      let left = each disconnect_one (ns.clients_id applied.netcode) applied in
      apply_pending_results p rounds
        (record left { peers = []; addr_to_client_id = []; packet_gate = reset left.packet_gate })

  -- `set_egress_limit`, at the time that the egress clock shows.
  unfoldable pub set_egress_limit :
      Option EgressConfig → ℕ → State p → State p × Result EgressError (Unit {0})
  set_egress_limit config now s =
      let (egress', verdict) = configure config now s.line.egress in
      (record s { line = record (s.line) { egress = egress' } }, verdict)

  unfoldable pub set_max_clients : ℕ → State p → State p
  set_max_clients max_clients s = record s { netcode = ns.set_max_clients max_clients s.netcode }

  unfoldable pub set_conditioner : ServerConditioner.State → State p → State p
  set_conditioner conditioner s = record s { packet_gate = (attach conditioner s.packet_gate).0 }

  unfoldable pub clear_conditioner : State p → State p
  clear_conditioner s = record s { packet_gate = (detach s.packet_gate).0 }
