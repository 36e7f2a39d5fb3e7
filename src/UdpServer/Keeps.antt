-- ===== src/UdpServer/Keeps.antt =====
-- src/udp_server.rs: what the calls of a transport keep of its egress budget, of its world and of
-- renet's server.
use renet_cross.Prelude.{ℕ, ◌≡◌, false, Option, none, some, List, Result, ok, err, if_cases}
use renet_cross.Prelude.Steps.{each, and_then-keeps, for_each-keeps, each-keeps}
use renet_cross.Net.{SocketAddr}
use renet_cross.Conditioner.{Direction, incoming, outgoing}
use renet_cross.UdpIo.{IoError, receive_with_budget}
use renet_cross.UdpIo.Budget.{receive_with_budget-keeps}
use renet_cross.Egress.{EgressConfig}
use renet_cross.ServerConditioner.{PeerId, udp, web_rtc}
use renet_cross.ServerConditioner
use renet_cross.Datagram.{Line}
use renet_cross.Datagram.Accounts.{Kept}
use renet_cross.NetcodeResult.{
  ServerResult, OwnedServerResult, owned_nothing, owned_packet_to_send, owned_payload,
  owned_connected, owned_disconnected, Served,
}
use renet_cross.UdpServer.{
  Platform, State, SendStep, send_datagram, gate_defer, gate_drain, send_packet, flush_one,
  flush_outgoing, reject, notify, drop_peer, refuse_duplicate, welcome, handle_server_result,
}
use renet_cross.UdpServer.Pump.{
  absorb, process, take_datagram, take_result, receive, deliver_one, deliver_incoming, update_one,
  disconnect_one, update_clients, update, send_generated, send_one, send_list, send_to_client,
  send_packets, disconnect_all, set_egress_limit, set_conditioner, clear_conditioner,
  set_max_datagrams_per_update, set_max_clients,
}

-- What the owner of a transport calls.
pub data Call : Type 0 where
  updates : ℕ → Call
  sends : Call
  disconnects : Call
  limits : Option EgressConfig → ℕ → Call
  conditions : ServerConditioner.State → Call
  bypasses : Call
  budgets : ℕ → Call
  caps : ℕ → Call

module _ (p : Platform) where
  open p use {os, ns, rs}
  open ns use {Netcode, Error}
  open rs use {Renet, is_connected}

  unfoldable pub step : Call → State p → State p
  step (updates duration) s = (update p duration s).0
  step sends s = send_packets p s
  step disconnects s = disconnect_all p s
  step (limits config now) s = (set_egress_limit p config now s).0
  step (conditions conditioner) s = set_conditioner p conditioner s
  step bypasses s = clear_conditioner p s
  step (budgets limit) s = set_max_datagrams_per_update p limit s
  step (caps max_clients) s = set_max_clients p max_clients s

  unfoldable pub run : List Call → State p → State p
  run calls s = each step calls s

  module _ (P : Line SocketAddr os.World → Type 0) (kept : Kept os P) (Q : Renet → Type 0)
      (served : Served rs Q) where
    abbrev pub On : State p → Type 0
    On s = P s.line × Q s.server

    gate_defer-On :
        (d : Direction) (addr : SocketAddr) (bytes : List ℕ) (s : State p)
        → On s
        → On (gate_defer p d addr bytes s).0
    unfolding gate_defer
    gate_defer-On d addr bytes s h = (kept.clock s.line h.0, h.1)

    gate_drain-On : (d : Direction) (s : State p) → On s → On (gate_drain p d s).0
    unfolding gate_drain
    gate_drain-On d s h = (kept.clock s.line h.0, h.1)

    send_datagram-On :
        (payload : List ℕ) (addr : SocketAddr) (s : State p)
        → On s
        → On (send_datagram p payload addr s).0
    unfolding send_datagram
    send_datagram-On payload addr s h = (kept.transmitted payload addr s.line h.0, h.1)

    send_packet-On :
        (bytes : List ℕ) (addr : SocketAddr) (s : State p)
        → On s
        → On (send_packet p bytes addr s).0
    unfolding send_packet
    send_packet-On bytes addr s h =
        let d = gate_defer p outgoing addr bytes s in
        let deferred = gate_defer-On outgoing addr bytes s h in
        if_cases (λ (r : SendStep p). On r.0) d.1 (d.0, ok _) (send_datagram p bytes addr d.0)
          (λ _. deferred) (λ _. send_datagram-On bytes addr d.0 deferred)

    flush_one-On : (x : PeerId × List ℕ) (s : State p) → On s → On (flush_one p x s)
    unfolding flush_one
    flush_one-On (udp addr, packet) s h = send_datagram-On packet addr s h
    flush_one-On (web_rtc id, packet) s h = h

    flush_outgoing-On : (s : State p) → On s → On (flush_outgoing p s)
    unfolding flush_outgoing
    flush_outgoing-On s h =
        each-keeps On (flush_one p) (gate_drain p outgoing s).1 _ (gate_drain-On outgoing s h)
          flush_one-On

    reject-On : (r : OwnedServerResult) (s : State p) → On s → On (reject p r s)
    unfolding reject
    reject-On owned_nothing s h = h
    reject-On (owned_packet_to_send addr bytes) s h = h
    reject-On (owned_payload client bytes) s h = h
    reject-On (owned_connected client addr bytes) s h = h
    reject-On (owned_disconnected client addr none) s h = h
    reject-On (owned_disconnected client addr (some bytes)) s h = send_datagram-On bytes addr s h

    notify-On :
        (o : Option (List ℕ)) (addr : SocketAddr) (s : State p) → On s → On (notify p o addr s)
    unfolding notify
    notify-On none addr s h = h
    notify-On (some bytes) addr s h = send_datagram-On bytes addr s h

    refuse_duplicate-On :
        (client : ℕ) (addr : SocketAddr) (s : State p)
        → On s
        → On (refuse_duplicate p client addr s)
    unfolding refuse_duplicate drop_peer
    refuse_duplicate-On client addr s h =
        reject-On _ (record s { netcode = (ns.disconnect client s.netcode).0 }) h

    welcome-On :
        (client : ℕ) (addr : SocketAddr) (bytes : List ℕ) (s : State p)
        → is_connected client s.server ≡ false
        → On s
        → On (welcome p client addr bytes s)
    unfolding welcome
    welcome-On client addr bytes s new h =
        send_packet-On bytes addr _ (h.0, served.added client s.server new h.1)

    handle_server_result-On :
        (r : OwnedServerResult) (s : State p) → On s → On (handle_server_result p r s)
    unfolding handle_server_result drop_peer
    handle_server_result-On owned_nothing s h = h
    handle_server_result-On (owned_packet_to_send addr bytes) s h = send_packet-On bytes addr s h
    handle_server_result-On (owned_payload client bytes) s h =
        (h.0, served.processed bytes client s.server h.1)
    handle_server_result-On (owned_connected client addr bytes) s h =
        if_cases On (is_connected client s.server) (refuse_duplicate p client addr s)
          (welcome p client addr bytes s) (λ _. refuse_duplicate-On client addr s h)
          (λ new. welcome-On client addr bytes s new h)
    handle_server_result-On (owned_disconnected client addr bytes) s h =
        notify-On bytes addr _ (h.0, served.removed client s.server h.1)

    absorb-On : (r : Netcode × ServerResult) (s : State p) → On s → On (absorb p r s)
    unfolding absorb
    absorb-On r s h = handle_server_result-On _ (record s { netcode = r.0 }) h

    process-On :
        (bytes : List ℕ) (source : SocketAddr) (s : State p) → On s → On (process p bytes source s)
    unfolding process
    process-On bytes source s h = absorb-On _ s h

    take_datagram-On :
        (bytes : List ℕ) (source : SocketAddr) (s : State p)
        → On s
        → On (take_datagram p bytes source s)
    unfolding take_datagram
    take_datagram-On bytes source s h =
        let d = gate_defer p incoming source bytes s in
        let deferred = gate_defer-On incoming source bytes s h in
        if_cases On _ s _ (λ _. h)
          (λ _.
            if_cases On d.1 d.0 (process p bytes source d.0) (λ _. deferred)
              (λ _. process-On bytes source d.0 deferred))

    take_result-On :
        (r : Result IoError (List ℕ × SocketAddr)) (s : State p) → On s → On (take_result p r s).0
    unfolding take_result
    take_result-On (err e) s h = h
    take_result-On (ok (bytes, source)) s h = take_datagram-On bytes source s h

    receive-On : (s : State p) → On s → On (receive p s).0
    unfolding receive
    receive-On s h =
        let (received, result) = os.recv_from s.line.world in
        take_result-On result (record s { line = record (s.line) { world = received } })
          (kept.received s.line h.0, h.1)

    deliver_one-On : (x : PeerId × List ℕ) (s : State p) → On s → On (deliver_one p x s)
    unfolding deliver_one
    deliver_one-On (udp source, packet) s h = process-On packet source s h
    deliver_one-On (web_rtc id, packet) s h = h

    update_clients-On : (s : State p) → On s → On (update_clients p s)
    unfolding update_clients deliver_incoming update_one disconnect_one
    update_clients-On s h =
        let delivered =
          each-keeps On (deliver_one p) (gate_drain p incoming s).1 _ (gate_drain-On incoming s h)
            deliver_one-On in
        let updated = each-keeps On (update_one p) _ _ delivered (λ x t k. absorb-On _ t k) in
        flush_outgoing-On _
          (each-keeps On (disconnect_one p) _ _ updated (λ x t k. absorb-On _ t k))

    update-On : (duration : ℕ) (s : State p) → On s → On (update p duration s).0
    unfolding update
    update-On duration s h =
        let timed : State p = record s { netcode = ns.update duration s.netcode } in
        and_then-keeps On (receive_with_budget timed.max_datagrams_per_update (receive p) timed)
          (λ t. (update_clients p t, ok tt))
          (receive_with_budget-keeps (receive p) On receive-On _ timed h) update_clients-On

    send_generated-On :
        (r : Netcode × Result Error (SocketAddr × List ℕ)) (s : State p)
        → On s
        → On (send_generated p r s).0
    unfolding send_generated
    send_generated-On (n, err e) s h = h
    send_generated-On (n, ok (addr, payload)) s h =
        send_packet-On payload addr (record s { netcode = n }) h

    send_list-On :
        (client : ℕ) (o : Option (List (List ℕ))) (s : State p) → On s → On (send_list p client o s)
    unfolding send_list send_one
    send_list-On client none s h = h
    send_list-On client (some packets) s h =
        for_each-keeps On (send_one p client) packets s h (λ x t k. send_generated-On _ t k)

    send_packets-On : (s : State p) → On s → On (send_packets p s)
    unfolding send_packets send_to_client
    send_packets-On s h = flush_outgoing-On _ (
        each-keeps On (send_to_client p) _ _ (flush_outgoing-On s h)
          (λ client t k. send_list-On client _ _ (k.0, served.collected client t.server k.1)))

    disconnect_all-On : (s : State p) → On s → On (disconnect_all p s)
    unfolding disconnect_all disconnect_one
    disconnect_all-On s h = each-keeps On (disconnect_one p) _ _ h (λ x t k. absorb-On _ t k)

    pub step-On : (c : Call) (t : State p) → On t → On (step c t)
    unfolding step set_egress_limit set_conditioner clear_conditioner set_max_datagrams_per_update
        set_max_clients
    step-On (updates duration) t k = update-On duration t k
    step-On sends t k = send_packets-On t k
    step-On disconnects t k = disconnect_all-On t k
    step-On (limits config now) t k = (kept.configured config now t.line k.0, k.1)
    step-On (conditions conditioner) t k = k
    step-On bypasses t k = k
    step-On (budgets limit) t k = k
    step-On (caps max_clients) t k = k

    -- What each step keeps, any sequence of calls keeps.
    pub run-On : (calls : List Call) (s : State p) → On s → On (run calls s)
    unfolding run
    run-On calls s h = each-keeps On step calls s h step-On
