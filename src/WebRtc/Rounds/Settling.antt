-- ===== src/WebRtc/Rounds/Settling.antt =====
-- src/server.rs: `apply_pending_results` empties the queue of results, with as many rounds as there is
-- work. What comes back while a round is handled is paid for by the peers.
use renet_cross.Prelude.{
  ℕ, zero, suc, ◌+◌, ◌≤◌, ◌≡◌, refl, sym, Option, none, some, List, [], ◌∷◌, length,
  length-filter-le, if_cases, arith,
}
use renet_cross.Prelude.Assoc.{insert, remove}
use renet_cross.Prelude.Steps.{each-keeps}
use renet_cross.Net.{SocketAddr, SocketAddr-discrete}
use renet_cross.NetcodeResult.{
  to_owned_server_result, OwnedServerResult, owned_nothing, owned_packet_to_send, owned_payload,
  owned_connected, owned_disconnected,
}
use renet_cross.WebRtc.{Platform, State}
use renet_cross.WebRtc.Peers.{
  contains, insert_id, of_others, retire_connection, drop_routes, drop_packets, remove_peer,
}
use renet_cross.WebRtc.Results.{
  send_routed, send_rejection, refuse_duplicate, welcome, end_connection, notify, part,
  handle_server_result, apply_removals, handle_all, next_round, apply_rounds, apply_pending_results,
}
use renet_cross.WebRtc.Rounds.{Drains, load, load-remove, peer_weight, work}
use renet_cross.WebRtc.Rounds.Sends.{send_to_peer_lossy-le}

module _ (p : Platform) (left : p.xs.Rtc → ℕ) (drains : Drains p.xs left) where
  open p use {os, ns, rs, xs}

  abbrev effort : State p → ℕ
  effort = work p left

  send_routed-le :
      (o : Option ℕ) (bytes : List ℕ) (s : State p) → effort (send_routed p o bytes s) ≤ effort s
  unfolding send_routed
  send_routed-le none bytes s = omega arith
  send_routed-le (some client) bytes s = send_to_peer_lossy-le p left drains client bytes s

  send_rejection-le :
      (client : ℕ) (r : OwnedServerResult) (s : State p)
      → effort (send_rejection p client r s) ≤ effort s
  unfolding send_rejection
  send_rejection-le client owned_nothing s = omega arith
  send_rejection-le client (owned_packet_to_send addr bytes) s = omega arith
  send_rejection-le client (owned_payload id bytes) s = omega arith
  send_rejection-le client (owned_connected id addr bytes) s = omega arith
  send_rejection-le client (owned_disconnected id addr none) s = omega arith
  send_rejection-le client (owned_disconnected id addr (some bytes)) s =
      send_to_peer_lossy-le p left drains client bytes s

  retire_connection-le :
      (client : ℕ) (s : State p) → effort (retire_connection p client s) ≤ effort s
  unfolding retire_connection
  retire_connection-le client s =
      if_cases (λ r. effort r ≤ effort s) (contains client s.connected_client_ids) _ s
        (λ _. omega arith) (λ _. omega arith)

  remove_peer-le : (client : ℕ) (s : State p) → effort (remove_peer p client s).0 ≤ effort s
  unfolding remove_peer drop_routes drop_packets
  remove_peer-le client s =
      let routed = drop_routes p client (drop_packets p client s) in
      let gone : State p = record routed { netcode = (ns.disconnect client routed.netcode).0 } in
      let retired = retire_connection p client gone in
      omega (
        arith,
        retire_connection-le client gone,
        load-remove (peer_weight p left) client retired.peers,
        length-filter-le (of_others client) retired.pending_server_results,
      )

  refuse_duplicate-le : (client : ℕ) (s : State p) → effort (refuse_duplicate p client s) ≤ effort s
  unfolding refuse_duplicate
  refuse_duplicate-le client s =
      let (netcode', result) = ns.disconnect client s.netcode in
      let freed : State p = record s { netcode = netcode' } in
      let answer = to_owned_server_result result in
      omega (
        arith,
        send_rejection-le client answer freed,
        remove_peer-le client (send_rejection p client answer freed),
      )

  notify-le :
      (client : ℕ) (o : Option (List ℕ)) (s : State p) → effort (notify p client o s) ≤ effort s
  unfolding notify
  notify-le client none s = omega arith
  notify-le client (some bytes) s = send_to_peer_lossy-le p left drains client bytes s

  end_connection-le : (client : ℕ) (s : State p) → effort (end_connection p client s) ≤ effort s
  unfolding end_connection
  end_connection-le client s =
      if_cases (λ r. effort r ≤ effort s) (contains client s.connected_client_ids) _ s
        (λ _. omega arith) (λ _. omega arith)

  part-le :
      (client : ℕ) (addr : SocketAddr) (bytes : Option (List ℕ)) (s : State p)
      → effort (part p client addr bytes s) ≤ effort s
  unfolding part drop_routes drop_packets
  part-le client addr bytes s =
      let ended = end_connection p client s in
      let unaddressed : State p = record ended {
        addr_to_client_id = remove SocketAddr-discrete addr ended.addr_to_client_id;
      } in
      omega (
        arith,
        end_connection-le client s,
        notify-le client bytes unaddressed,
        load-remove (peer_weight p left) client (notify p client bytes unaddressed).peers,
      )

  handle_server_result-le :
      (r : OwnedServerResult) (s : State p) → effort (handle_server_result p r s) ≤ effort s
  unfolding handle_server_result welcome
  handle_server_result-le owned_nothing s = omega arith
  handle_server_result-le (owned_packet_to_send addr bytes) s = send_routed-le _ bytes s
  handle_server_result-le (owned_payload client bytes) s = omega arith
  handle_server_result-le (owned_connected client addr bytes) s =
      let entered : State p = record s {
        server = rs.add_connection client s.server;
        connected_client_ids = insert_id client s.connected_client_ids;
        addr_to_client_id = insert SocketAddr-discrete addr client s.addr_to_client_id;
      } in
      if_cases (λ r. effort r ≤ effort s) (rs.is_connected client s.server)
        (refuse_duplicate p client s) (welcome p client addr bytes s)
        (λ _. refuse_duplicate-le client s)
        (λ _. send_to_peer_lossy-le p left drains client bytes entered)
  handle_server_result-le (owned_disconnected client addr bytes) s = part-le client addr bytes s

  -- A round costs one unit of work for each result.
  handle_all-le :
      (results : List OwnedServerResult) (s : State p)
      → effort (handle_all p results s) ≤ load (peer_weight p left) s.peers
  unfolding handle_all
  handle_all-le results s =
      each-keeps (λ t. effort t ≤ load (peer_weight p left) s.peers) (handle_server_result p)
        results (record s { pending_server_results = [] }) (omega arith)
        (λ r t h. omega (arith, handle_server_result-le r t, h))

  -- No result is left of no work.
  no_work-done :
      (results : List OwnedServerResult) (others : ℕ) → others + length results ≤ 0 → results ≡ []
  no_work-done [] others h = refl
  no_work-done (r ∷ results) others h = absurd (omega (arith, h))

  next_round-done :
      (n : ℕ) (rest : State p → State p)
      → ((t : State p) → effort t ≤ n → (rest t).pending_server_results ≡ [])
      → (results : List OwnedServerResult) (s : State p) → results ≡ s.pending_server_results
      → load (peer_weight p left) s.peers + length results ≤ suc n
      → (next_round p rest results s).pending_server_results ≡ []
  unfolding next_round
  next_round-done n rest done [] s e h = sym e
  next_round-done n rest done (r ∷ results) s e h =
      done (handle_all p (r ∷ results) s) (omega (arith, handle_all-le (r ∷ results) s, h))

  -- Enough rounds leave no result.
  apply_rounds-done :
      (n : ℕ) (s : State p) → effort s ≤ n → (apply_rounds p n s).pending_server_results ≡ []
  unfolding apply_rounds
  apply_rounds-done zero s h =
      no_work-done s.pending_server_results (load (peer_weight p left) s.peers) h
  apply_rounds-done (suc n) s h =
      next_round-done n (apply_rounds p n) (apply_rounds-done n) s.pending_server_results s refl h

  next_round-same :
      (m n : ℕ) (rest rest' : State p → State p)
      → ((t : State p) → effort t ≤ m → effort t ≤ n → rest t ≡ rest' t)
      → (results : List OwnedServerResult) (s : State p)
      → load (peer_weight p left) s.peers + length results ≤ suc m
      → load (peer_weight p left) s.peers + length results ≤ suc n
      → next_round p rest results s ≡ next_round p rest' results s
  unfolding next_round
  next_round-same m n rest rest' same [] s h k = refl
  next_round-same m n rest rest' same (r ∷ results) s h k =
      same (handle_all p (r ∷ results) s) (omega (arith, handle_all-le (r ∷ results) s, h))
        (omega (arith, handle_all-le (r ∷ results) s, k))

  next_round-idle :
      (rest : State p → State p) (results : List OwnedServerResult) (s : State p)
      → results ≡ []
      → next_round p rest results s ≡ s
  unfolding next_round
  next_round-idle rest results s e = rw (e, next_round) refl

  -- Nothing happens in a round where no result waits.
  apply_rounds-idle : (n : ℕ) (s : State p) → effort s ≤ 0 → apply_rounds p n s ≡ s
  unfolding apply_rounds
  apply_rounds-idle zero s h = refl
  apply_rounds-idle (suc n) s h =
      next_round-idle (apply_rounds p n) s.pending_server_results s
        (no_work-done s.pending_server_results (load (peer_weight p left) s.peers) h)

  -- All numbers of rounds that are enough give the same state.
  apply_rounds-same :
      (m n : ℕ) (s : State p)
      → effort s ≤ m
      → effort s ≤ n
      → apply_rounds p m s ≡ apply_rounds p n s
  unfolding apply_rounds
  apply_rounds-same zero n s h k = sym (apply_rounds-idle n s h)
  apply_rounds-same (suc m) zero s h k = apply_rounds-idle (suc m) s k
  apply_rounds-same (suc m) (suc n) s h k =
      next_round-same m n (apply_rounds p m) (apply_rounds p n) (apply_rounds-same m n)
        s.pending_server_results s h k

-- Suppose that a measure bounds the data that a connection of str0m can hand over before it gets a
-- datagram or a timeout: an output with data lowers it, and neither another output nor a disconnection
-- nor a write raises it. Then `apply_pending_results` with as many rounds as the results that wait, plus
-- one and the measure for each peer, leaves no result that waits, and more rounds give the same state.
pub apply_pending_results-settles :
    (p : Platform) (left : p.xs.Rtc → ℕ)
    → Drains p.xs left
    → (rounds more : ℕ) (s : State p) → work p left s ≤ rounds
    → ((apply_pending_results p rounds s).pending_server_results ≡ [])
      × (apply_pending_results p (rounds + more) s ≡ apply_pending_results p rounds s)
unfolding apply_pending_results apply_removals
apply_pending_results-settles p left drains rounds more s enough = (
  apply_rounds-done p left drains rounds (apply_removals p s) enough,
  apply_rounds-same p left drains (rounds + more) rounds (apply_removals p s)
      (omega (arith, enough)) enough,
)
