-- ===== src/WebRtc/Keeps/Answers.antt =====
-- src/server.rs: what the handling of renetcode's answers keeps.
use renet_cross.Prelude.{
  ℕ, zero, suc, ◌≡◌, true, false, Option, none, some, List, [], ◌∷◌, if_cases,
}
use renet_cross.Prelude.Assoc.{insert, remove}
use renet_cross.Prelude.Steps.{each, each-keeps}
use renet_cross.Net.{SocketAddr, SocketAddr-discrete}
use renet_cross.NetcodeResult.{
  to_owned_server_result, OwnedServerResult, owned_nothing, owned_packet_to_send, owned_payload,
  owned_connected, owned_disconnected, RenetServer,
}
use renet_cross.WebRtc.{Platform, State}
use renet_cross.WebRtc.Peers.{
  contains, insert_id, remove_id, retire_connection, drop_routes, drop_packets, remove_peer,
  add_peer,
}
use renet_cross.WebRtc.Results.{
  send_routed, send_rejection, refuse_duplicate, welcome, end_connection, notify, part,
  handle_server_result, apply_removals, handle_all, next_round, apply_rounds, apply_pending_results,
}
use renet_cross.WebRtc.Keeps.{On}
use renet_cross.WebRtc.Keeps.Sends.{send_to_peer_lossy-On}

-- A property of the clients that are connected here, of those whose connection is to be removed, and of
-- renet's server, that holds on while the transport does what it may do.
pub record Rules (rs : RenetServer) (R : List ℕ → List ℕ → rs.Renet → Type 0) : Type 0 where
  pub welcomed :
      (client : ℕ) (ids pending : List ℕ) (r : rs.Renet)
      → rs.is_connected client r ≡ false
      → R ids pending r
      → R (insert_id client ids) pending (rs.add_connection client r)
  pub ended :
      (client : ℕ) (ids pending : List ℕ) (r : rs.Renet)
      → contains client ids ≡ true
      → R ids pending r
      → R (remove_id client ids) pending (rs.remove_connection client r)
  pub retired :
      (client : ℕ) (ids pending : List ℕ) (r : rs.Renet)
      → contains client ids ≡ true
      → R ids pending r
      → R (remove_id client ids) (insert_id client pending) r
  pub removed :
      (ids pending : List ℕ) (r : rs.Renet)
      → R ids pending r
      → R ids [] (each rs.remove_connection pending r)
  pub processed :
      (bytes : List ℕ) (client : ℕ) (ids pending : List ℕ) (r : rs.Renet)
      → R ids pending r
      → R ids pending (rs.process_packet_from bytes client r)
  pub collected :
      (client : ℕ) (ids pending : List ℕ) (r : rs.Renet)
      → R ids pending r
      → R ids pending (rs.get_packets_to_send client r).0

module _ (p : Platform) (R : List ℕ → List ℕ → p.rs.Renet → Type 0) (rules : Rules p.rs R) where
  open p use {os, ns, rs, xs}

  retire_connection-On :
      (client : ℕ) (s : State p) → On p R s → On p R (retire_connection p client s)
  unfolding retire_connection
  retire_connection-On client s h =
      if_cases (On p R) (contains client s.connected_client_ids) _ s
        (λ c. rules.retired client s.connected_client_ids s.pending_renet_removals s.server c h)
        (λ _. h)

  pub remove_peer-On : (client : ℕ) (s : State p) → On p R s → On p R (remove_peer p client s).0
  unfolding remove_peer drop_routes drop_packets
  remove_peer-On client s h =
      let routed = drop_routes p client (drop_packets p client s) in
      retire_connection-On client
        (record routed { netcode = (ns.disconnect client routed.netcode).0 }) h

  pub add_peer-On :
      (client : ℕ) (rtc : xs.Rtc) (s : State p) → On p R s → On p R (add_peer p client rtc s).0
  unfolding add_peer
  add_peer-On client rtc s h = remove_peer-On client s h

  send_routed-On :
      (o : Option ℕ) (bytes : List ℕ) (s : State p) → On p R s → On p R (send_routed p o bytes s)
  unfolding send_routed
  send_routed-On none bytes s h = h
  send_routed-On (some client) bytes s h = send_to_peer_lossy-On p R client bytes s h

  send_rejection-On :
      (client : ℕ) (r : OwnedServerResult) (s : State p)
      → On p R s
      → On p R (send_rejection p client r s)
  unfolding send_rejection
  send_rejection-On client owned_nothing s h = h
  send_rejection-On client (owned_packet_to_send addr bytes) s h = h
  send_rejection-On client (owned_payload id bytes) s h = h
  send_rejection-On client (owned_connected id addr bytes) s h = h
  send_rejection-On client (owned_disconnected id addr none) s h = h
  send_rejection-On client (owned_disconnected id addr (some bytes)) s h =
      send_to_peer_lossy-On p R client bytes s h

  refuse_duplicate-On : (client : ℕ) (s : State p) → On p R s → On p R (refuse_duplicate p client s)
  unfolding refuse_duplicate
  refuse_duplicate-On client s h =
      let (netcode', result) = ns.disconnect client s.netcode in
      remove_peer-On client _ (
        send_rejection-On client (to_owned_server_result result) (record s { netcode = netcode' })
          h)

  welcome-On :
      (client : ℕ) (addr : SocketAddr) (bytes : List ℕ) (s : State p)
      → rs.is_connected client s.server ≡ false
      → On p R s
      → On p R (welcome p client addr bytes s)
  unfolding welcome
  welcome-On client addr bytes s new h =
      send_to_peer_lossy-On p R client bytes
        (record s {
          server = rs.add_connection client s.server;
          connected_client_ids = insert_id client s.connected_client_ids;
          addr_to_client_id = insert SocketAddr-discrete addr client s.addr_to_client_id;
        })
        (rules.welcomed client s.connected_client_ids s.pending_renet_removals s.server new h)

  end_connection-On : (client : ℕ) (s : State p) → On p R s → On p R (end_connection p client s)
  unfolding end_connection
  end_connection-On client s h =
      if_cases (On p R) (contains client s.connected_client_ids) _ s
        (λ c. rules.ended client s.connected_client_ids s.pending_renet_removals s.server c h)
        (λ _. h)

  notify-On :
      (client : ℕ) (o : Option (List ℕ)) (s : State p) → On p R s → On p R (notify p client o s)
  unfolding notify
  notify-On client none s h = h
  notify-On client (some bytes) s h = send_to_peer_lossy-On p R client bytes s h

  part-On :
      (client : ℕ) (addr : SocketAddr) (bytes : Option (List ℕ)) (s : State p)
      → On p R s
      → On p R (part p client addr bytes s)
  unfolding part drop_routes drop_packets
  part-On client addr bytes s h =
      let ended = end_connection p client s in
      notify-On client bytes
        (record ended {
          addr_to_client_id = remove SocketAddr-discrete addr ended.addr_to_client_id;
        })
        (end_connection-On client s h)

  pub handle_server_result-On :
      (r : OwnedServerResult) (s : State p) → On p R s → On p R (handle_server_result p r s)
  unfolding handle_server_result
  handle_server_result-On owned_nothing s h = h
  handle_server_result-On (owned_packet_to_send addr bytes) s h = send_routed-On _ bytes s h
  handle_server_result-On (owned_payload client bytes) s h =
      rules.processed bytes client s.connected_client_ids s.pending_renet_removals s.server h
  handle_server_result-On (owned_connected client addr bytes) s h =
      if_cases (On p R) (rs.is_connected client s.server) (refuse_duplicate p client s)
        (welcome p client addr bytes s) (λ _. refuse_duplicate-On client s h)
        (λ new. welcome-On client addr bytes s new h)
  handle_server_result-On (owned_disconnected client addr bytes) s h = part-On client addr bytes s h

  handle_all-On :
      (results : List OwnedServerResult) (s : State p) → On p R s → On p R (handle_all p results s)
  unfolding handle_all
  handle_all-On results s h =
      each-keeps (On p R) (handle_server_result p) results
        (record s { pending_server_results = [] }) h handle_server_result-On

  next_round-On :
      (rest : State p → State p)
      → ((t : State p) → On p R t → On p R (rest t))
      → (results : List OwnedServerResult) (s : State p) → On p R s
      → On p R (next_round p rest results s)
  unfolding next_round
  next_round-On rest keep [] s h = h
  next_round-On rest keep (r ∷ results) s h =
      keep (handle_all p (r ∷ results) s) (handle_all-On (r ∷ results) s h)

  apply_rounds-On : (n : ℕ) (s : State p) → On p R s → On p R (apply_rounds p n s)
  unfolding apply_rounds
  apply_rounds-On zero s h = h
  apply_rounds-On (suc n) s h =
      next_round-On (apply_rounds p n) (apply_rounds-On n) s.pending_server_results s h

  pub apply_pending_results-On :
      (rounds : ℕ) (s : State p) → On p R s → On p R (apply_pending_results p rounds s)
  unfolding apply_pending_results apply_removals
  apply_pending_results-On rounds s h =
      apply_rounds-On rounds (apply_removals p s)
        (rules.removed s.connected_client_ids s.pending_renet_removals s.server h)
