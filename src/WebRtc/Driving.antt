-- ===== src/WebRtc/Driving.antt =====
-- src/server.rs: what str0m has to say for a peer: its output is drained in bounded steps.
use native.Mathlib.Decide.{ℕ_discrete}
use renet_cross.Prelude.{
  ℕ, zero, suc, Bool, true, false, not, ◌||◌, Option, none, some, List, [], ◌∷◌, ◌++◌, Result, ok,
  err, ◌==◌, if◌then◌else◌, is_some,
}
use renet_cross.Prelude.Assoc.{get, insert, remove}
use renet_cross.Conditioner.{Direction, incoming}
use renet_cross.UdpIo.{
  IoError, would_block, interrupted, connection_reset, other_error, addr_not_available,
  network_unreachable, host_unreachable, connection_aborted, connection_refused, timed_out,
  not_connected,
}
use renet_cross.ServerConditioner.{web_rtc}
use renet_cross.ServerGate.{defer}
use renet_cross.NetcodeResult.{to_owned_server_result, OwnedServerResult, owned_connected}
use renet_cross.WebRtc.{
  max_drain_steps_per_peer, Event, channel_open, channel_data, ice_connection_state_change,
  channel_close, other_event, Output, timeout, transmit, event, TransportError, io, rtc_error,
  Platform, State, Peer,
}
use renet_cross.WebRtc.Peers.{drop_routes, drop_packets}

unfoldable pub is_non_fatal_webrtc_send_error : IoError → Bool
is_non_fatal_webrtc_send_error would_block = true
is_non_fatal_webrtc_send_error interrupted = true
is_non_fatal_webrtc_send_error addr_not_available = true
is_non_fatal_webrtc_send_error network_unreachable = true
is_non_fatal_webrtc_send_error host_unreachable = true
is_non_fatal_webrtc_send_error connection_reset = true
is_non_fatal_webrtc_send_error connection_aborted = true
is_non_fatal_webrtc_send_error connection_refused = true
is_non_fatal_webrtc_send_error timed_out = true
is_non_fatal_webrtc_send_error not_connected = true
is_non_fatal_webrtc_send_error (other_error kind) = false

-- Whether the loop goes on, has reached the next deadline, or has failed.
pub data Next (E : Type 0) : Type 0 where
  go_on finished : Next E
  failed : TransportError E → Next E

module _ (p : Platform) where
  open p use {fl, os, ns, xs}
  open xs use {Rtc, RtcError, is_alive, disconnect, poll_output}

  -- A peer that is out of the table while it is driven, and the results that wait for it.
  pub record Driven : Type 0 where
    pub state : State p
    pub peer : Peer p
    pub results : List OwnedServerResult

  unfoldable pub shut : Driven → Driven
  shut d = record d { peer = record (d.peer) { rtc = disconnect d.peer.rtc } }

  -- A netcode answer for the peer's own identity is kept; a connection under another identity is ended.
  unfoldable pub accept_result : OwnedServerResult → Driven → Driven
  unfolding shut
  accept_result (owned_connected client addr bytes) d =
      if client == d.peer.client_id
      then record d { results = d.results ++ owned_connected client addr bytes ∷ [] }
      else (let freed : State p = record (d.state) {
        netcode = (ns.disconnect client d.state.netcode).0;
      } in
          shut (record d { state = freed }))
  accept_result result d = record d { results = d.results ++ result ∷ [] }

  unfoldable pub process_peer_packet : List ℕ → Driven → Driven
  unfolding accept_result
  process_peer_packet packet d =
      let (netcode', result) = ns.process_packet d.peer.virtual_addr packet d.state.netcode in
      accept_result (to_owned_server_result result)
        (record d { state = record (d.state) { netcode = netcode' } })

  -- `self.packet_gate.defer(...)` for a client, which reads the clock of the handle.
  unfoldable pub gate_defer : Direction → ℕ → List ℕ → State p → State p × Bool
  gate_defer d client bytes s =
      let (timed, now) = os.gate_elapsed s.line.world in
      let (gate, taken) = defer fl d (web_rtc client) bytes now s.packet_gate in
      (record s { line = record (s.line) { world = timed }; packet_gate = gate }, taken)

  -- `Event::ChannelData` on the peer's channel.
  unfoldable pub take_data : List ℕ → Driven → Driven
  unfolding process_peer_packet gate_defer
  take_data bytes d =
      let (deferred, taken) = gate_defer incoming d.peer.client_id bytes d.state in
      let d' : Driven = record d { state = deferred } in
      if taken then d' else process_peer_packet bytes d'

  -- `peer.data_channel == Some(id)`.
  abbrev pub is_channel : ℕ → Option ℕ → Bool
  is_channel id none = false
  is_channel id (some channel) = channel == id

  unfoldable pub handle_peer_event : Event → Driven → Driven
  unfolding take_data shut
  handle_peer_event (channel_open id) d =
      if is_some d.peer.data_channel
      then d
      else record d { peer = record (d.peer) { data_channel = some id } }
  handle_peer_event (channel_data id binary bytes) d =
      if not (is_channel id d.peer.data_channel) || not binary then d else take_data bytes d
  handle_peer_event (ice_connection_state_change is_disconnected) d =
      if is_disconnected then shut d else d
  handle_peer_event (channel_close id) d = if is_channel id d.peer.data_channel then shut d else d
  handle_peer_event other_event d = d

  after_send : Result IoError ℕ → Next RtcError
  after_send (ok n) = go_on
  after_send (err e) = if is_non_fatal_webrtc_send_error e then go_on else failed (io e)

  -- What one output asks for.
  unfoldable pub obey : Result RtcError Output → Driven → Driven × Next RtcError
  unfolding handle_peer_event after_send
  obey (err e) d = (d, failed (rtc_error e))
  obey (ok (timeout deadline)) d =
      (record d { peer = record (d.peer) { next_timeout = some deadline } }, finished)
  obey (ok (transmit contents destination)) d =
      let (sent, result) = os.send_to contents destination d.state.line.world in
      let line' = record (d.state.line) { world = sent } in
      (record d { state = record (d.state) { line = line' } }, after_send result)
  obey (ok (event e)) d = (handle_peer_event e d, go_on)

  unfoldable pub drive_step : Driven → Driven × Next RtcError
  unfolding obey
  drive_step d =
      let (rtc', output) = poll_output d.peer.rtc in
      obey output (record d { peer = record (d.peer) { rtc = rtc' } })

  abbrev pub DriveStep : Type 0
  DriveStep = Driven × Result (TransportError RtcError) (Unit {0})

  -- The rest of the loop, where it goes on.
  unfoldable pub proceed : (Driven → DriveStep) → Driven × Next RtcError → DriveStep
  proceed rest (d, go_on) = rest d
  proceed rest (d, finished) = (d, ok tt)
  proceed rest (d, failed e) = (d, err e)

  -- The loop of `drive_peer_with_limit`: the number counts the steps that are left.
  unfoldable pub drive_loop : ℕ → Driven → DriveStep
  unfolding drive_step proceed
  drive_loop zero d = (d, ok tt)
  drive_loop (suc n) d = proceed (drive_loop n) (drive_step d)

  unfoldable pub drive_peer_with_limit : ℕ → Peer p → State p → DriveStep
  unfolding drive_loop
  drive_peer_with_limit max_steps peer s =
      let start : Driven = record {
        state = s;
        peer = record peer { next_timeout = none };
        results = [];
      } in
      drive_loop max_steps start

  -- The results of a peer that could be driven; the others are dropped with the peer's connection.
  unfoldable pub keep_results : DriveStep → State p × Peer p
  unfolding shut
  keep_results (d, ok tt) = (
    record (d.state) { pending_server_results = d.state.pending_server_results ++ d.results },
    d.peer,
  )
  keep_results (d, err e) = (d.state, (shut d).peer)

  -- A peer goes back into the table, or its routes, packets and connection go.
  unfoldable pub settle_peer : ℕ → Peer p → State p → State p
  unfolding drop_packets drop_routes
  settle_peer client peer s =
      if is_alive peer.rtc
      then record s { peers = insert ℕ_discrete client peer s.peers }
      else (let left = drop_routes p client (drop_packets p client s) in
          let (netcode', result) = ns.disconnect client left.netcode in
          record left {
            netcode = netcode';
            pending_server_results =
                left.pending_server_results ++ to_owned_server_result result ∷ [];
          })

  unfoldable pub drive_if_alive : Peer p → State p → State p × Peer p
  unfolding keep_results drive_peer_with_limit
  drive_if_alive peer s =
      if is_alive peer.rtc
      then keep_results (drive_peer_with_limit max_drain_steps_per_peer peer s)
      else (s, peer)

  unfoldable pub flush_found : ℕ → Option (Peer p) → State p → State p
  unfolding settle_peer drive_if_alive
  flush_found client none s = s
  flush_found client (some peer) s =
      let (driven, peer') =
        drive_if_alive peer (record s { peers = remove ℕ_discrete client s.peers }) in
      settle_peer client peer' driven

  unfoldable pub flush_peer_output : ℕ → State p → State p
  unfolding flush_found
  flush_peer_output client s = flush_found client (get ℕ_discrete client s.peers) s
