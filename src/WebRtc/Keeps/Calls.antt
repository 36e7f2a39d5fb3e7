-- ===== src/WebRtc/Keeps/Calls.antt =====
-- src/server.rs: what the calls of a transport keep.
use renet_cross.Prelude.{ℕ, Option, none, some, List, if_cases, Result, ok, err}
use renet_cross.Prelude.Steps.{each, each-keeps, for_each-keeps}
use renet_cross.Net.{SocketAddr}
use renet_cross.UdpIo.{IoError}
use renet_cross.Egress.{EgressConfig}
use renet_cross.ServerConditioner
use renet_cross.NetcodeResult.{ServerResult, to_owned_server_result, OwnedServerResult}
use renet_cross.WebRtc.{Platform, State, Peer}
use renet_cross.WebRtc.Peers.{remove_peer, add_peer}
use renet_cross.WebRtc.Driving.{flush_peer_output}
use renet_cross.WebRtc.Results.{
  handle_server_result, apply_pending_results, drain_conditioned_packets,
}
use renet_cross.WebRtc.Pump.{route_socket_input_to_peers}
use renet_cross.WebRtc.Frames.{
  absorb, update_one, disconnect_one, time_out, pump_peer, keys, before_input, after_input,
  finish_update, update_at, send_generated, send_one, send_list, send_to_client, send_packets,
  disconnect_all, set_egress_limit, set_conditioner, clear_conditioner, set_max_clients,
}
use renet_cross.WebRtc.Keeps.{On, flush_peer_output-On}
use renet_cross.WebRtc.Keeps.Sends.{send_to_peer_lossy-On}
use renet_cross.WebRtc.Keeps.Drains.{drain_conditioned_packets-On}
use renet_cross.WebRtc.Keeps.Routing.{route_socket_input_to_peers-On}
use renet_cross.WebRtc.Keeps.Answers.{
  Rules, remove_peer-On, add_peer-On, handle_server_result-On, apply_pending_results-On,
}

-- What the owner of a transport calls.
pub data Call (X : Type 0) : Type 0 where
  adds : ℕ → X → Call X
  removes : ℕ → Call X
  updates : ℕ → ℕ → Call X
  sends : Call X
  disconnects : Call X
  limits : Option EgressConfig → ℕ → Call X
  conditions : ServerConditioner.State → Call X
  bypasses : Call X
  caps : ℕ → Call X

module _ (p : Platform) (rounds : ℕ) where
  open p use {os, ns, rs, xs}

  unfoldable pub step : Call xs.Rtc → State p → State p
  step (adds client rtc) s = (add_peer p client rtc s).0
  step (removes client) s = (remove_peer p client s).0
  step (updates duration now) s = (update_at p rounds duration now s).0
  step sends s = send_packets p rounds s
  step disconnects s = disconnect_all p rounds s
  step (limits config now) s = (set_egress_limit p rounds config now s).0
  step (conditions conditioner) s = set_conditioner p rounds conditioner s
  step bypasses s = clear_conditioner p rounds s
  step (caps max_clients) s = set_max_clients p rounds max_clients s

  unfoldable pub run : List (Call xs.Rtc) → State p → State p
  run calls s = each step calls s

  module _ (R : List ℕ → List ℕ → rs.Renet → Type 0) (rules : Rules rs R) where
    abbrev Kept : State p → Type 0
    Kept = On p R

    absorb-On : (r : ns.Netcode × ServerResult) (s : State p) → Kept s → Kept (absorb p rounds r s)
    unfolding absorb
    absorb-On (netcode', result) s h =
        handle_server_result-On p R rules (to_owned_server_result result)
          (record s { netcode = netcode' }) h

    time_out-On :
        (now client : ℕ) (o : Option (Peer p)) (s : State p)
        → Kept s
        → Kept (time_out p rounds now client o s)
    unfolding time_out
    time_out-On now client none s h = h
    time_out-On now client (some peer) s h = if_cases Kept _ _ s (λ _. h) (λ _. h)

    pump_peer-On : (now client : ℕ) (s : State p) → Kept s → Kept (pump_peer p rounds now client s)
    unfolding pump_peer
    pump_peer-On now client s h = flush_peer_output-On p R client _ (
        time_out-On now client _ (flush_peer_output p client s)
          (flush_peer_output-On p R client s h))

    before_input-On :
        (duration : ℕ) (s : State p) → Kept s → Kept (before_input p rounds duration s)
    unfolding before_input
    before_input-On duration s h =
        let applied = apply_pending_results p rounds s in
        let timed : State p = record applied { netcode = ns.update duration applied.netcode } in
        let drained = drain_conditioned_packets p rounds timed in
        apply_pending_results-On p R rules rounds _ (
          each-keeps Kept (flush_peer_output p) (keys p rounds drained) drained
            (drain_conditioned_packets-On p R rules rounds timed
              (apply_pending_results-On p R rules rounds s h))
            (flush_peer_output-On p R))

    after_input-On :
        (now : ℕ) (results : List OwnedServerResult) (s : State p)
        → Kept s
        → Kept (after_input p rounds now results s)
    unfolding after_input update_one disconnect_one
    after_input-On now results s h =
        let handled = each (handle_server_result p) results s in
        let k1 =
          each-keeps Kept (handle_server_result p) results s h
            (handle_server_result-On p R rules) in
        let driven = each (pump_peer p rounds now) (keys p rounds handled) handled in
        let k2 =
          each-keeps Kept (pump_peer p rounds now) (keys p rounds handled) handled k1
            (pump_peer-On now) in
        let pumped = apply_pending_results p rounds driven in
        let k3 = apply_pending_results-On p R rules rounds driven k2 in
        let updated = each (update_one p rounds) (ns.clients_id pumped.netcode) pumped in
        let k4 =
          each-keeps Kept (update_one p rounds) (ns.clients_id pumped.netcode) pumped k3
            (λ x t k. absorb-On _ t k) in
        let left = each (disconnect_one p rounds) (rs.disconnections_id updated.server) updated in
        let k5 =
          each-keeps Kept (disconnect_one p rounds) (rs.disconnections_id updated.server) updated k4
            (λ x t k. absorb-On _ t k) in
        drain_conditioned_packets-On p R rules rounds (apply_pending_results p rounds left)
          (apply_pending_results-On p R rules rounds left k5)

    finish_update-On :
        (now : ℕ) (r : State p × Result IoError (List OwnedServerResult))
        → Kept r.0
        → Kept (finish_update p rounds now r).0
    unfolding finish_update
    finish_update-On now (s, err e) h = h
    finish_update-On now (s, ok results) h = after_input-On now results s h

    update_at-On :
        (duration now : ℕ) (s : State p) → Kept s → Kept (update_at p rounds duration now s).0
    unfolding update_at
    update_at-On duration now s h =
        let ready = before_input p rounds duration s in
        finish_update-On now (route_socket_input_to_peers p now ready)
          (route_socket_input_to_peers-On p R now ready (before_input-On duration s h))

    send_generated-On :
        (client : ℕ) (r : ns.Netcode × Result ns.Error (SocketAddr × List ℕ)) (s : State p)
        → Kept s
        → Kept (send_generated p rounds client r s).0
    unfolding send_generated
    send_generated-On client (netcode', err e) s h = h
    send_generated-On client (netcode', ok (addr, payload)) s h =
        send_to_peer_lossy-On p R client payload (record s { netcode = netcode' }) h

    send_list-On :
        (client : ℕ) (o : Option (List (List ℕ))) (s : State p)
        → Kept s
        → Kept (send_list p rounds client o s)
    unfolding send_list send_one
    send_list-On client none s h = h
    send_list-On client (some packets) s h =
        for_each-keeps Kept (send_one p rounds client) packets s h
          (λ x t k. send_generated-On client _ t k)

    send_to_client-On :
        (client : ℕ) (s : State p) → Kept s → Kept (send_to_client p rounds client s)
    unfolding send_to_client
    send_to_client-On client s h =
        let (server', packets) = rs.get_packets_to_send client s.server in
        send_list-On client packets (record s { server = server' })
          (rules.collected client s.connected_client_ids s.pending_renet_removals s.server h)

    send_packets-On : (s : State p) → Kept s → Kept (send_packets p rounds s)
    unfolding send_packets
    send_packets-On s h =
        let applied = apply_pending_results p rounds s in
        let drained = drain_conditioned_packets p rounds applied in
        let k1 =
          drain_conditioned_packets-On p R rules rounds applied
            (apply_pending_results-On p R rules rounds s h) in
        let sent = each (send_to_client p rounds) (ns.clients_id drained.netcode) drained in
        let k2 =
          each-keeps Kept (send_to_client p rounds) (ns.clients_id drained.netcode) drained k1
            send_to_client-On in
        drain_conditioned_packets-On p R rules rounds (apply_pending_results p rounds sent)
          (apply_pending_results-On p R rules rounds sent k2)

    disconnect_all-On : (s : State p) → Kept s → Kept (disconnect_all p rounds s)
    unfolding disconnect_all disconnect_one
    disconnect_all-On s h =
        let applied = apply_pending_results p rounds s in
        let k =
          each-keeps Kept (disconnect_one p rounds) (ns.clients_id applied.netcode) applied
            (apply_pending_results-On p R rules rounds s h) (λ x t k. absorb-On _ t k) in
        apply_pending_results-On p R rules rounds _ k

    pub step-On : (c : Call xs.Rtc) (s : State p) → Kept s → Kept (step c s)
    unfolding step set_egress_limit set_conditioner clear_conditioner set_max_clients
    step-On (adds client rtc) s h = add_peer-On p R rules client rtc s h
    step-On (removes client) s h = remove_peer-On p R rules client s h
    step-On (updates duration now) s h = update_at-On duration now s h
    step-On sends s h = send_packets-On s h
    step-On disconnects s h = disconnect_all-On s h
    step-On (limits config now) s h = h
    step-On (conditions conditioner) s h = h
    step-On bypasses s h = h
    step-On (caps max_clients) s h = h

    -- What each step keeps, any sequence of calls keeps.
    pub run-On : (calls : List (Call xs.Rtc)) (s : State p) → Kept s → Kept (run calls s)
    unfolding run
    run-On calls s h = each-keeps Kept step calls s h step-On
