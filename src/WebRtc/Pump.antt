-- ===== src/WebRtc/Pump.antt =====
-- src/server.rs: the datagrams of the socket, and the calls of a frame.
pub mod Quota
use native.Mathlib.Decide.{ℕ_discrete}
use renet_cross.Prelude.{
  ℕ, zero, suc, ◌+◌, Bool, true, false, not, ◌&&◌, ◌||◌, leb, ◌==◌, Option, none, some, List, [],
  ◌∷◌, map, Result, ok, err, if◌then◌else◌, is_some_and,
}
use mathlib.Core.Option
use renet_cross.Prelude.Assoc.{get, insert, remove}
use renet_cross.Prelude.Steps.{each, for_each}
use renet_cross.Net.{SocketAddr, SocketAddr-discrete}
use renet_cross.UdpIo.{IoError, would_block, interrupted, connection_reset, other_error}
use renet_cross.Egress.{EgressConfig, EgressError}
use renet_cross.Egress.Peers
use renet_cross.ServerConditioner
use renet_cross.ServerGate.{attach, detach, reset}
use renet_cross.NetcodeResult.{ServerResult, to_owned_server_result, OwnedServerResult}
use renet_cross.WebRtc.{
  max_datagrams_per_update, max_datagrams_per_peer_per_update, Platform, State, Peer,
}
use renet_cross.WebRtc.Peers.{same_addr}
use renet_cross.WebRtc.Driving.{flush_peer_output}
use renet_cross.WebRtc.Sending.{send_to_peer_lossy}
use renet_cross.WebRtc.Results.{
  handle_server_result, apply_pending_results, drain_conditioned_packets,
}

module _ (p : Platform) where
  open p use {os, ns, rs, xs}
  open xs use {Rtc, RtcError, Receive, is_alive, accepts}

  unfoldable pub is_receive_queue_full_error : RtcError → Bool
  is_receive_queue_full_error e = xs.mentions "receive queue full" e

  unfoldable pub is_malformed_webrtc_input_error : RtcError → Bool
  is_malformed_webrtc_input_error e =
      xs.mentions "chunk too short" e
      || xs.mentions "unable to parse sctp packet" e
      || xs.mentions "failed to parse sctp packet" e

  -- `self.peers.iter().find_map(...)`.
  unfoldable pub find_accepting : ℕ → Receive → List (ℕ × Peer p) → Option ℕ
  find_accepting now input [] = none
  find_accepting now input ((client, peer) ∷ peers) =
      if accepts now input peer.rtc then some client else find_accepting now input peers

  -- The peer that an address is routed to, if it accepts the input.
  unfoldable pub routed_peer : ℕ → Receive → Option ℕ → State p → Option ℕ
  routed_peer now input none s = none
  routed_peer now input (some client) s =
      if is_some_and (get ℕ_discrete client s.peers) (λ peer. accepts now input peer.rtc)
      then some client
      else none

  unfoldable pub resolve_client_for_input : SocketAddr → ℕ → Receive → State p → Option ℕ
  unfolding routed_peer find_accepting
  resolve_client_for_input source now input s =
      elim (routed_peer now input (get SocketAddr-discrete source s.addr_to_client_id) s) [
        | some client ↦ some client
        | none ↦ find_accepting now input s.peers
      ]

  -- `peer.remote_addr.replace(source)`: the route of the old address goes if it is this peer's.
  unfoldable pub move_route : ℕ → Option SocketAddr → SocketAddr → State p → State p
  move_route client none source s = record s {
    addr_to_client_id = insert SocketAddr-discrete source client s.addr_to_client_id;
  }
  move_route client (some old) source s =
      let owned =
        is_some_and (get SocketAddr-discrete old s.addr_to_client_id) (λ id. id == client) in
      let routes =
        if not (same_addr old source) && owned
        then remove SocketAddr-discrete old s.addr_to_client_id
        else s.addr_to_client_id in
      record s { addr_to_client_id = insert SocketAddr-discrete source client routes }

  -- An input that str0m refuses ends the connection, but for a full queue or a malformed packet.
  unfoldable pub judge_input : Rtc × Result RtcError (Unit {0}) → Rtc
  unfolding is_receive_queue_full_error is_malformed_webrtc_input_error
  judge_input (rtc', ok tt) = rtc'
  judge_input (rtc', err e) =
      if not (is_receive_queue_full_error e) && not (is_malformed_webrtc_input_error e)
      then xs.disconnect rtc'
      else rtc'

  unfoldable pub ingest : ℕ → SocketAddr → Receive → ℕ → Peer p → State p → State p
  unfolding move_route judge_input
  ingest client source input now peer s =
      let routed = move_route client peer.remote_addr source s in
      let peer' : Peer p = record peer {
        remote_addr = some source;
        rtc = judge_input (xs.handle_receive now input peer.rtc);
      } in
      record routed { peers = insert ℕ_discrete client peer' routed.peers }

  -- A datagram of a peer with output left is dropped.
  unfoldable pub input_ready : ℕ → SocketAddr → Receive → ℕ → Peer p → Option ℕ → State p → State p
  unfolding ingest
  input_ready client source input now peer none s = s
  input_ready client source input now peer (some deadline) s = ingest client source input now peer s

  unfoldable pub input_found : ℕ → SocketAddr → Receive → ℕ → Option (Peer p) → State p → State p
  unfolding input_ready
  input_found client source input now none s = s
  input_found client source input now (some peer) s =
      input_ready client source input now peer peer.next_timeout s

  -- A datagram within the client's quota; str0m's output is drained afterwards in any case.
  unfoldable pub input_client : ℕ → SocketAddr → Receive → ℕ → State p → State p
  unfolding input_found flush_peer_output
  input_client client source input now s =
      flush_peer_output p client
        (input_found client source input now (get ℕ_discrete client s.peers) s)

  -- The state with the number of datagrams that each client has had in this call.
  abbrev pub Routed : Type 0
  Routed = State p × List (ℕ × ℕ)

  abbrev pub seen : ℕ → List (ℕ × ℕ) → ℕ
  seen client counts = Option.get_or (get ℕ_discrete client counts) 0

  unfoldable pub route_client : Option ℕ → SocketAddr → Receive → ℕ → Routed → Routed
  unfolding input_client
  route_client none source input now r = r
  route_client (some client) source input now (s, counts) =
      if leb max_datagrams_per_peer_per_update (seen client counts) then (s, counts) else (
        input_client client source input now s,
        insert ℕ_discrete client (seen client counts + 1) counts,
      )

  unfoldable pub route_input : Option Receive → SocketAddr → ℕ → Routed → Routed
  unfolding route_client resolve_client_for_input
  route_input none source now r = r
  route_input (some input) source now r =
      route_client (resolve_client_for_input source now input r.0) source input now r

  -- Whether the loop goes on, has emptied the socket, or has failed.
  pub data Pass : Type 0 where
    again empty : Pass
    broken : IoError → Pass

  unfoldable pub route_result : Result IoError (List ℕ × SocketAddr) → ℕ → Routed → Routed × Pass
  unfolding route_input
  route_result (ok (bytes, source)) now r =
      let input = xs.parse_receive source (r.0).receive_destination bytes in
      (route_input input source now r, again)
  route_result (err would_block) now r = (r, empty)
  route_result (err interrupted) now r = (r, again)
  route_result (err connection_reset) now r = (r, again)
  route_result (err e) now r = (r, broken e)

  unfoldable pub route_one : ℕ → Routed → Routed × Pass
  unfolding route_result
  route_one now (s, counts) =
      let (received, result) = os.recv_from s.line.world in
      route_result result now (record s { line = record (s.line) { world = received } }, counts)

  abbrev pub RouteStep : Type 0
  RouteStep = Routed × Result IoError (Unit {0})

  -- The rest of the loop, where it goes on.
  unfoldable pub carry_on : (Routed → RouteStep) → Routed × Pass → RouteStep
  carry_on rest (r, again) = rest r
  carry_on rest (r, empty) = (r, ok tt)
  carry_on rest (r, broken e) = (r, err e)

  unfoldable pub route_loop : ℕ → ℕ → Routed → RouteStep
  unfolding route_one carry_on
  route_loop zero now r = (r, ok tt)
  route_loop (suc n) now r = carry_on (route_loop n now) (route_one now r)

  -- The results that wait are handed to the caller when the socket is read, and stay on an error.
  unfoldable pub take_results : RouteStep → State p × Result IoError (List OwnedServerResult)
  take_results ((s, counts), err e) = (s, err e)
  take_results ((s, counts), ok tt) =
      (record s { pending_server_results = [] }, ok s.pending_server_results)

  unfoldable pub route_socket_input_to_peers :
      ℕ → State p → State p × Result IoError (List OwnedServerResult)
  unfolding take_results route_loop
  route_socket_input_to_peers now s = take_results (route_loop max_datagrams_per_update now (s, []))
