-- ===== src/WebRtc/Keeps.antt =====
-- src/server.rs: what the calls keep of the transport's two sets of clients and of renet's server.
pub mod Sends
pub mod Answers
pub mod Drains
pub mod Routing
pub mod Calls
use native.Mathlib.Decide.{ℕ_discrete}
use renet_cross.Prelude.{
  ℕ, zero, suc, ◌≡◌, refl, Bool, true, false, Option, none, some, List, [], ◌∷◌, Result, ok, err,
  Bool-cases, inl, inr, if_cases, leb,
}
use renet_cross.Prelude.Assoc.{get, insert, remove, contains_key}
use renet_cross.Prelude.Steps.{each, for_each, for_each-keeps, each-keeps}
use renet_cross.Net.{SocketAddr, SocketAddr-discrete}
use renet_cross.Conditioner.{Direction, incoming, outgoing}
use renet_cross.UdpIo.{IoError}
use renet_cross.Egress.Peers.{admit_at}
use renet_cross.Datagram.{Line}
use renet_cross.ServerConditioner.{PeerId, udp, web_rtc}
use renet_cross.NetcodeResult.{
  ServerResult, to_owned_server_result, OwnedServerResult, owned_nothing, owned_packet_to_send,
  owned_payload, owned_connected, owned_disconnected, RenetServer,
}
use renet_cross.WebRtc.{
  Event, channel_open, channel_data, ice_connection_state_change, channel_close, other_event,
  Output, timeout, transmit, event, TransportError, missing_peer, max_drain_steps_per_peer,
  Platform, State, Peer,
}
use renet_cross.WebRtc.Peers.{
  contains, insert_id, remove_id, retire_connection, drop_routes, drop_packets, remove_peer,
  add_peer,
}
use renet_cross.WebRtc.Driving.{
  Next, go_on, finished, failed, Driven, shut, accept_result, process_peer_packet, gate_defer,
  take_data, handle_peer_event, obey, drive_step, drive_loop, drive_peer_with_limit, keep_results,
  settle_peer, drive_if_alive, flush_found, DriveStep, proceed, flush_peer_output, is_channel,
}
use renet_cross.WebRtc.Sending.{
  SendStep, written, write_channel, write_ready, write_found, send_to_peer_backend, send_admitted,
  send_to_peer_unconditioned, send_to_peer, send_to_peer_lossy,
}

module _ (p : Platform) (R : List ℕ → List ℕ → p.rs.Renet → Type 0) where
  open p use {os, ns, rs, xs}

  abbrev pub On : State p → Type 0
  On s = R s.connected_client_ids s.pending_renet_removals s.server

  accept_result-On :
      (r : OwnedServerResult) (d : Driven p) → On d.state → On (accept_result p r d).state
  unfolding accept_result shut
  accept_result-On owned_nothing d h = h
  accept_result-On (owned_packet_to_send addr bytes) d h = h
  accept_result-On (owned_payload client bytes) d h = h
  accept_result-On (owned_connected client addr bytes) d h =
      if_cases (λ (r : Driven p). On r.state) _ _ _ (λ _. h) (λ _. h)
  accept_result-On (owned_disconnected client addr bytes) d h = h

  pub process_peer_packet-On :
      (packet : List ℕ) (d : Driven p) → On d.state → On (process_peer_packet p packet d).state
  unfolding process_peer_packet
  process_peer_packet-On packet d h =
      let n = ns.process_packet d.peer.virtual_addr packet d.state.netcode in
      accept_result-On (to_owned_server_result n.1)
        (record d { state = record (d.state) { netcode = n.0 } }) h

  take_data-On : (bytes : List ℕ) (d : Driven p) → On d.state → On (take_data p bytes d).state
  unfolding take_data gate_defer
  take_data-On bytes d h =
      let g = gate_defer p incoming d.peer.client_id bytes d.state in
      let d' : Driven p = record d { state = g.0 } in
      if_cases (λ (r : Driven p). On r.state) g.1 d' (process_peer_packet p bytes d') (λ _. h)
        (λ _. process_peer_packet-On bytes d' h)

  handle_peer_event-On :
      (e : Event) (d : Driven p) → On d.state → On (handle_peer_event p e d).state
  unfolding handle_peer_event shut
  handle_peer_event-On (channel_open id) d h =
      if_cases (λ (r : Driven p). On r.state) _ d _ (λ _. h) (λ _. h)
  handle_peer_event-On (channel_data id binary bytes) d h =
      if_cases (λ (r : Driven p). On r.state) _ d (take_data p bytes d) (λ _. h)
        (λ _. take_data-On bytes d h)
  handle_peer_event-On (ice_connection_state_change is_disconnected) d h =
      if_cases (λ (r : Driven p). On r.state) is_disconnected (shut p d) d (λ _. h) (λ _. h)
  handle_peer_event-On (channel_close id) d h =
      if_cases (λ (r : Driven p). On r.state) (is_channel p id d.peer.data_channel) (shut p d) d
        (λ _. h) (λ _. h)
  handle_peer_event-On other_event d h = h

  obey-On : (o : Result xs.RtcError Output) (d : Driven p) → On d.state → On ((obey p o d).0).state
  unfolding obey
  obey-On (err e) d h = h
  obey-On (ok (timeout deadline)) d h = h
  obey-On (ok (transmit contents destination)) d h = h
  obey-On (ok (event e)) d h = handle_peer_event-On e d h

  drive_step-On : (d : Driven p) → On d.state → On ((drive_step p d).0).state
  unfolding drive_step
  drive_step-On d h =
      let (rtc', output) = xs.poll_output d.peer.rtc in
      obey-On output (record d { peer = record (d.peer) { rtc = rtc' } }) h

  proceed-On :
      (rest : Driven p → DriveStep p)
      → ((d : Driven p) → On d.state → On ((rest d).0).state)
      → (r : Driven p × Next xs.RtcError) → On (r.0).state
      → On ((proceed p rest r).0).state
  unfolding proceed
  proceed-On rest keep (d, go_on) h = keep d h
  proceed-On rest keep (d, finished) h = h
  proceed-On rest keep (d, failed e) h = h

  drive_loop-On : (n : ℕ) (d : Driven p) → On d.state → On ((drive_loop p n d).0).state
  unfolding drive_loop
  drive_loop-On zero d h = h
  drive_loop-On (suc n) d h =
      proceed-On (drive_loop p n) (drive_loop-On n) (drive_step p d) (drive_step-On d h)

  drive_peer_with_limit-On :
      (n : ℕ) (peer : Peer p) (s : State p) → On s → On ((drive_peer_with_limit p n peer s).0).state
  unfolding drive_peer_with_limit
  drive_peer_with_limit-On n peer s h =
      let start : Driven p = record {
        state = s;
        peer = record peer { next_timeout = none };
        results = [];
      } in
      drive_loop-On n start h

  keep_results-On : (r : DriveStep p) → On (r.0).state → On (keep_results p r).0
  unfolding keep_results
  keep_results-On (d, ok tt) h = h
  keep_results-On (d, err e) h = h

  settle_peer-On :
      (client : ℕ) (peer : Peer p) (s : State p) → On s → On (settle_peer p client peer s)
  unfolding settle_peer drop_routes drop_packets
  settle_peer-On client peer s h = if_cases On (xs.is_alive peer.rtc) _ _ (λ _. h) (λ _. h)

  drive_if_alive-On : (peer : Peer p) (s : State p) → On s → On (drive_if_alive p peer s).0
  unfolding drive_if_alive
  drive_if_alive-On peer s h =
      let d = drive_peer_with_limit p max_drain_steps_per_peer peer s in
      if_cases (λ (r : State p × Peer p). On r.0) (xs.is_alive peer.rtc) (keep_results p d)
        (s, peer)
        (λ _. keep_results-On d (drive_peer_with_limit-On max_drain_steps_per_peer peer s h))
        (λ _. h)

  flush_found-On :
      (client : ℕ) (o : Option (Peer p)) (s : State p) → On s → On (flush_found p client o s)
  unfolding flush_found
  flush_found-On client none s h = h
  flush_found-On client (some peer) s h =
      let out : State p = record s { peers = remove ℕ_discrete client s.peers } in
      let d = drive_if_alive p peer out in
      settle_peer-On client d.1 d.0 (drive_if_alive-On peer out h)

  pub flush_peer_output-On : (client : ℕ) (s : State p) → On s → On (flush_peer_output p client s)
  unfolding flush_peer_output
  flush_peer_output-On client s h = flush_found-On client (get ℕ_discrete client s.peers) s h
