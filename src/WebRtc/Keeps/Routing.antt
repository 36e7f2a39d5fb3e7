-- ===== src/WebRtc/Keeps/Routing.antt =====
-- src/server.rs: what the datagrams of the socket keep, whichever peer they are routed to.
use renet_cross.Prelude.{ℕ, zero, suc, Option, none, some, List, [], if_cases, Result, ok, err}
use renet_cross.Net.{SocketAddr}
use renet_cross.UdpIo.{
  IoError, would_block, interrupted, connection_reset, other_error, addr_not_available,
  network_unreachable, host_unreachable, connection_aborted, connection_refused, timed_out,
  not_connected,
}
use renet_cross.WebRtc.{max_datagrams_per_update, Platform, State, Peer}
use renet_cross.WebRtc.Pump.{
  move_route, ingest, input_ready, input_found, input_client, Routed, route_client, route_input,
  Pass, again, empty, broken, route_result, route_one, RouteStep, carry_on, route_loop,
  take_results, route_socket_input_to_peers,
}
use renet_cross.WebRtc.Keeps.{On, flush_peer_output-On}

module _ (p : Platform) (R : List ℕ → List ℕ → p.rs.Renet → Type 0) where
  open p use {os, xs}

  abbrev Kept : State p → Type 0
  Kept = On p R

  move_route-On :
      (client : ℕ) (o : Option SocketAddr) (source : SocketAddr) (s : State p)
      → Kept s
      → Kept (move_route p client o source s)
  unfolding move_route
  move_route-On client none source s h = h
  move_route-On client (some old) source s h = h

  input_ready-On :
      (client : ℕ) (source : SocketAddr) (input : xs.Receive) (now : ℕ) (peer : Peer p)
      (o : Option ℕ)
      → (s : State p) → Kept s
      → Kept (input_ready p client source input now peer o s)
  unfolding input_ready ingest
  input_ready-On client source input now peer none s h = h
  input_ready-On client source input now peer (some deadline) s h =
      move_route-On client peer.remote_addr source s h

  input_found-On :
      (client : ℕ) (source : SocketAddr) (input : xs.Receive) (now : ℕ) (o : Option (Peer p))
      → (s : State p) → Kept s
      → Kept (input_found p client source input now o s)
  unfolding input_found
  input_found-On client source input now none s h = h
  input_found-On client source input now (some peer) s h =
      input_ready-On client source input now peer peer.next_timeout s h

  input_client-On :
      (client : ℕ) (source : SocketAddr) (input : xs.Receive) (now : ℕ) (s : State p)
      → Kept s
      → Kept (input_client p client source input now s)
  unfolding input_client
  input_client-On client source input now s h =
      flush_peer_output-On p R client _ (input_found-On client source input now _ s h)

  route_client-On :
      (o : Option ℕ) (source : SocketAddr) (input : xs.Receive) (now : ℕ) (r : Routed p)
      → Kept r.0
      → Kept (route_client p o source input now r).0
  unfolding route_client
  route_client-On none source input now r h = h
  route_client-On (some client) source input now (s, counts) h =
      if_cases (λ (r : Routed p). Kept r.0) _ (s, counts) _ (λ _. h)
        (λ _. input_client-On client source input now s h)

  route_input-On :
      (o : Option xs.Receive) (source : SocketAddr) (now : ℕ) (r : Routed p)
      → Kept r.0
      → Kept (route_input p o source now r).0
  unfolding route_input
  route_input-On none source now r h = h
  route_input-On (some input) source now r h = route_client-On _ source input now r h

  route_result-On :
      (o : Result IoError (List ℕ × SocketAddr)) (now : ℕ) (r : Routed p)
      → Kept r.0
      → Kept ((route_result p o now r).0).0
  unfolding route_result
  route_result-On (ok (bytes, source)) now r h =
      route_input-On (xs.parse_receive source (r.0).receive_destination bytes) source now r h
  route_result-On (err (other_error kind)) now r h = h
  route_result-On (err addr_not_available) now r h = h
  route_result-On (err network_unreachable) now r h = h
  route_result-On (err host_unreachable) now r h = h
  route_result-On (err connection_aborted) now r h = h
  route_result-On (err connection_refused) now r h = h
  route_result-On (err timed_out) now r h = h
  route_result-On (err not_connected) now r h = h
  route_result-On (err would_block) now r h = h
  route_result-On (err interrupted) now r h = h
  route_result-On (err connection_reset) now r h = h

  carry_on-On :
      (rest : Routed p → RouteStep p)
      → ((r : Routed p) → Kept r.0 → Kept ((rest r).0).0)
      → (r : Routed p × Pass p) → Kept (r.0).0
      → Kept ((carry_on p rest r).0).0
  unfolding carry_on
  carry_on-On rest keep (r, again) h = keep r h
  carry_on-On rest keep (r, empty) h = h
  carry_on-On rest keep (r, broken e) h = h

  route_loop-On : (n now : ℕ) (r : Routed p) → Kept r.0 → Kept ((route_loop p n now r).0).0
  unfolding route_loop route_one
  route_loop-On zero now r h = h
  route_loop-On (suc n) now (s, counts) h =
      let (received, result) = os.recv_from s.line.world in
      carry_on-On (route_loop p n now) (route_loop-On n now) (route_one p now (s, counts)) (
        route_result-On result now
          (record s { line = record (s.line) { world = received } }, counts) h)

  take_results-On : (r : RouteStep p) → Kept (r.0).0 → Kept (take_results p r).0
  unfolding take_results
  take_results-On ((s, counts), err e) h = h
  take_results-On ((s, counts), ok tt) h = h

  pub route_socket_input_to_peers-On :
      (now : ℕ) (s : State p) → Kept s → Kept (route_socket_input_to_peers p now s).0
  unfolding route_socket_input_to_peers
  route_socket_input_to_peers-On now s h =
      take_results-On (route_loop p max_datagrams_per_update now (s, []))
        (route_loop-On max_datagrams_per_update now (s, []) h)
