-- ===== src/WebRtc/Results.antt =====
-- src/server.rs: what the answers of renetcode's server do to the transport and to renet's server, and
-- the packets that the gate has held back. Handling a result can bring more results: the loop of
-- `apply_pending_results` has its number of rounds as fuel, and what is left waits for the next call.
use native.Mathlib.Decide.{ℕ_discrete}
use renet_cross.Prelude.{ℕ, zero, suc, Option, none, some, List, [], ◌∷◌, ◌++◌, if◌then◌else◌}
use renet_cross.Prelude.Assoc.{get, insert, remove}
use renet_cross.Prelude.Steps.{each}
use renet_cross.Net.{SocketAddr, SocketAddr-discrete}
use renet_cross.Conditioner.{Direction, incoming, outgoing}
use renet_cross.ServerConditioner.{PeerId, udp, web_rtc}
use renet_cross.ServerGate.{drain}
use renet_cross.NetcodeResult.{
  to_owned_server_result, OwnedServerResult, owned_nothing, owned_packet_to_send, owned_payload,
  owned_connected, owned_disconnected,
}
use renet_cross.WebRtc.{Platform, State, Peer}
use renet_cross.WebRtc.Peers.{
  contains, insert_id, remove_id, drop_routes, drop_packets, remove_peer,
}
use renet_cross.WebRtc.Driving.{Driven, process_peer_packet, flush_peer_output}
use renet_cross.WebRtc.Sending.{send_to_peer_lossy, send_to_peer_unconditioned}

module _ (p : Platform) where
  open p use {os, ns, rs, xs}

  -- `PacketToSend`: the peer is found by the address.
  unfoldable pub send_routed : Option ℕ → List ℕ → State p → State p
  unfolding send_to_peer_lossy
  send_routed none bytes s = s
  send_routed (some client) bytes s = send_to_peer_lossy p client bytes s

  -- What renetcode answers to the disconnection of a client whose identity is connected already.
  unfoldable pub send_rejection : ℕ → OwnedServerResult → State p → State p
  unfolding send_to_peer_lossy
  send_rejection client (owned_disconnected id addr (some bytes)) s =
      send_to_peer_lossy p client bytes s
  send_rejection client _ s = s

  unfoldable pub refuse_duplicate : ℕ → State p → State p
  unfolding send_rejection remove_peer
  refuse_duplicate client s =
      let (netcode', result) = ns.disconnect client s.netcode in
      let told =
        send_rejection client (to_owned_server_result result) (record s { netcode = netcode' }) in
      (remove_peer p client told).0

  unfoldable pub welcome : ℕ → SocketAddr → List ℕ → State p → State p
  unfolding send_to_peer_lossy
  welcome client addr bytes s = send_to_peer_lossy p client bytes (record s {
    server = rs.add_connection client s.server;
    connected_client_ids = insert_id client s.connected_client_ids;
    addr_to_client_id = insert SocketAddr-discrete addr client s.addr_to_client_id;
  })

  -- Renet's connection goes only if this transport has made it.
  unfoldable pub end_connection : ℕ → State p → State p
  end_connection client s =
      if contains client s.connected_client_ids
      then record s {
        connected_client_ids = remove_id client s.connected_client_ids;
        server = rs.remove_connection client s.server;
      }
      else s

  unfoldable pub notify : ℕ → Option (List ℕ) → State p → State p
  unfolding send_to_peer_lossy
  notify client none s = s
  notify client (some bytes) s = send_to_peer_lossy p client bytes s

  unfoldable pub part : ℕ → SocketAddr → Option (List ℕ) → State p → State p
  unfolding end_connection notify drop_routes drop_packets
  part client addr bytes s =
      let ended = end_connection client s in
      let told = notify client bytes (record ended {
        addr_to_client_id = remove SocketAddr-discrete addr ended.addr_to_client_id;
      }) in
      let unrouted = drop_routes p client told in
      drop_packets p client (record unrouted { peers = remove ℕ_discrete client unrouted.peers })

  unfoldable pub handle_server_result : OwnedServerResult → State p → State p
  unfolding send_routed refuse_duplicate welcome part
  handle_server_result owned_nothing s = s
  handle_server_result (owned_packet_to_send addr bytes) s =
      send_routed (get SocketAddr-discrete addr s.addr_to_client_id) bytes s
  handle_server_result (owned_payload client bytes) s = record s {
    server = rs.process_packet_from bytes client s.server;
  }
  handle_server_result (owned_connected client addr bytes) s =
      if rs.is_connected client s.server
      then refuse_duplicate client s
      else welcome client addr bytes s
  handle_server_result (owned_disconnected client addr bytes) s = part client addr bytes s

  -- `for client_id in self.pending_renet_removals.drain()`.
  unfoldable pub apply_removals : State p → State p
  apply_removals s = record s {
    pending_renet_removals = [];
    server = each rs.remove_connection s.pending_renet_removals s.server;
  }

  -- The results that wait, taken out of the state.
  unfoldable pub handle_all : List OwnedServerResult → State p → State p
  unfolding handle_server_result
  handle_all results s =
      each handle_server_result results (record s { pending_server_results = [] })

  -- A round, and the rest of the loop, where a result waits.
  unfoldable pub next_round : (State p → State p) → List OwnedServerResult → State p → State p
  unfolding handle_all
  next_round rest [] s = s
  next_round rest (r ∷ results) s = rest (handle_all (r ∷ results) s)

  unfoldable pub apply_rounds : ℕ → State p → State p
  unfolding next_round
  apply_rounds zero s = s
  apply_rounds (suc n) s = next_round (apply_rounds n) s.pending_server_results s

  -- `self.packet_gate.drain(...)`, which reads the clock of the handle.
  unfoldable pub gate_drain : Direction → State p → State p × List (PeerId × List ℕ)
  gate_drain d s =
      let (timed, now) = os.gate_elapsed s.line.world in
      let (gate, ready) = drain d now s.packet_gate in
      (record s { line = record (s.line) { world = timed }; packet_gate = gate }, ready)

  unfoldable pub send_drained : PeerId × List ℕ → State p → State p
  unfolding send_to_peer_unconditioned
  send_drained (udp addr, packet) s = s
  send_drained (web_rtc client, packet) s = (send_to_peer_unconditioned p client packet s).0

  -- A packet of a peer that is in the table; a dead peer's packet is dropped.
  unfoldable pub process_found : Option (Peer p) → ℕ → List ℕ → State p → State p
  unfolding process_peer_packet flush_peer_output
  process_found none client packet s = s
  process_found (some peer) client packet s =
      let start : Driven p = record {
        state = record s { peers = remove ℕ_discrete client s.peers };
        peer = peer;
        results = [];
      } in
      let d = if xs.is_alive peer.rtc then process_peer_packet p packet start else start in
      flush_peer_output p client (record (d.state) {
        pending_server_results = d.state.pending_server_results ++ d.results;
        peers = insert ℕ_discrete client d.peer d.state.peers;
      })

  module _ (rounds : ℕ) where
    unfoldable pub apply_pending_results : State p → State p
    unfolding apply_removals apply_rounds
    apply_pending_results s = apply_rounds rounds (apply_removals s)

    unfoldable pub apply_if_found : Option (Peer p) → State p → State p
    unfolding apply_pending_results
    apply_if_found none s = s
    apply_if_found (some peer) s = apply_pending_results s

    unfoldable pub receive_drained : PeerId × List ℕ → State p → State p
    unfolding process_found apply_if_found
    receive_drained (udp addr, packet) s = s
    receive_drained (web_rtc client, packet) s =
        let found = get ℕ_discrete client s.peers in
        apply_if_found found (process_found found client packet s)

    unfoldable pub drain_conditioned_packets : State p → State p
    unfolding gate_drain receive_drained send_drained apply_pending_results
    drain_conditioned_packets s =
        let (drained, ready) = gate_drain incoming s in
        let received = each receive_drained ready drained in
        let (drained', ready') = gate_drain outgoing received in
        apply_pending_results (each send_drained ready' drained')
