-- ===== src/UdpClient/Keeps.antt =====
-- src/native_client.rs: what the calls of a transport keep of its egress budget and its world.
use renet_cross.Prelude.{ℕ, Option, none, some, List, Result, ok, err, if_cases}
use renet_cross.Prelude.Steps.{each, lift_err, and_then-keeps, for_each-keeps, each-keeps}
use renet_cross.Net.{SocketAddr}
use renet_cross.Conditioner.{Direction, incoming, outgoing, Control}
use renet_cross.Egress.{EgressConfig}
use renet_cross.UdpIo.{IoError, receive_with_budget}
use renet_cross.UdpIo.Budget.{receive_with_budget-keeps}
use renet_cross.Datagram.{Line}
use renet_cross.Datagram.Accounts.{Kept}
use renet_cross.UdpClient.{
  Platform, io, State, IoStep, same_addr, send_datagram, gate_defer, gate_drain, send_if_to,
  send_to_server, send_packet, flush_outgoing, process, deliver_one, deliver_incoming,
  take_datagram, offer, forward,
}
use renet_cross.UdpClient.Pump.{
  update, end_update, end_send, take_result, receive, farewell, leave, show_state, send_update,
  confirm, send_generated, send_payload, send_packets, settle, advance, exchange, listen, send_all,
  flush_and_send, set_egress_limit, set_conditioner, clear_conditioner,
  set_max_datagrams_per_update,
}

module _ (p : Platform) where
  open p use {os, nc, rc}
  open nc use {Netcode, Reason, Error, disconnect_reason, server_addr}

  -- What the owner of a transport calls.
  pub data Call : Type 0 where
    updates : ℕ → Call
    sends : Call
    limits : Option EgressConfig → ℕ → Call
    conditions : Control → Call
    bypasses : Call
    budgets : ℕ → Call

  unfoldable pub step : Call → State p → State p
  step (updates duration) s = (update p duration s).0
  step sends s = (send_packets p s).0
  step (limits config now) s = (set_egress_limit p config now s).0
  step (conditions control) s = set_conditioner p control s
  step bypasses s = clear_conditioner p s
  step (budgets limit) s = set_max_datagrams_per_update p limit s

  unfoldable pub run : List Call → State p → State p
  run calls s = each step calls s

  module _ (P : Line SocketAddr os.World → Type 0) (kept : Kept os P) where
    abbrev On : State p → Type 0
    On s = P s.line

    gate_defer-On :
        (d : Direction) (addr : SocketAddr) (bytes : List ℕ) (s : State p)
        → On s
        → On (gate_defer p d addr bytes s).0
    unfolding gate_defer
    gate_defer-On d addr bytes s h = kept.clock s.line h

    gate_drain-On : (d : Direction) (s : State p) → On s → On (gate_drain p d s).0
    unfolding gate_drain
    gate_drain-On d s h = kept.clock s.line h

    send_datagram-On :
        (payload : List ℕ) (addr : SocketAddr) (s : State p)
        → On s
        → On (send_datagram p payload addr s).0
    unfolding send_datagram
    send_datagram-On payload addr s h = kept.transmitted payload addr s.line h

    offer-On :
        (bytes : List ℕ) (addr : SocketAddr) (s : State p) → On s → On (offer p bytes addr s).0
    unfolding offer
    offer-On bytes addr s h =
        let d = gate_defer p outgoing addr bytes s in
        let deferred = gate_defer-On outgoing addr bytes s h in
        if_cases (λ (r : IoStep p). On r.0) d.1 (d.0, ok tt) (send_datagram p bytes addr d.0)
          (λ _. deferred) (λ _. send_datagram-On bytes addr d.0 deferred)

    forward-On : (addr : SocketAddr) (s : State p) → On s → On (forward p addr s).0
    unfolding forward send_if_to
    forward-On addr s h =
        for_each-keeps On (send_if_to p addr) (gate_drain p outgoing s).1 _
          (gate_drain-On outgoing s h)
          (λ x t q.
            if_cases (λ (r : IoStep p). On r.0) (same_addr x.0 addr) (send_datagram p x.1 x.0 t)
              (t, ok tt) (λ _. send_datagram-On x.1 x.0 t q) (λ _. q))

    send_packet-On :
        (bytes : List ℕ) (addr : SocketAddr) (s : State p)
        → On s
        → On (send_packet p bytes addr s).0
    unfolding send_packet
    send_packet-On bytes addr s h =
        and_then-keeps On (offer p bytes addr s) (forward p addr) (offer-On bytes addr s h)
          (forward-On addr)

    flush_outgoing-On : (s : State p) → On s → On (flush_outgoing p s).0
    unfolding flush_outgoing send_to_server
    flush_outgoing-On s h =
        for_each-keeps On (send_to_server p) (gate_drain p outgoing s).1 _
          (gate_drain-On outgoing s h)
          (λ x t q.
            if_cases (λ (r : IoStep p). On r.0) (same_addr x.0 (server_addr t.netcode))
              (send_datagram p x.1 x.0 t) (t, ok tt) (λ _. send_datagram-On x.1 x.0 t q) (λ _. q))

    deliver_incoming-On : (s : State p) → On s → On (deliver_incoming p s)
    unfolding deliver_incoming deliver_one process
    deliver_incoming-On s h =
        each-keeps On (deliver_one p) (gate_drain p incoming s).1 _ (gate_drain-On incoming s h)
          (λ x t q.
            if_cases On (same_addr x.0 (server_addr t.netcode)) (process p x.1 t) t (λ _. q)
              (λ _. q))

    take_datagram-On :
        (bytes : List ℕ) (source : SocketAddr) (s : State p)
        → On s
        → On (take_datagram p bytes source s)
    unfolding take_datagram process
    take_datagram-On bytes source s h =
        let d = gate_defer p incoming source bytes s in
        let deferred = gate_defer-On incoming source bytes s h in
        if_cases On _ s _ (λ _. h)
          (λ _. if_cases On d.1 d.0 (process p bytes d.0) (λ _. deferred) (λ _. deferred))

    take_result-On :
        (r : Result IoError (List ℕ × SocketAddr)) (s : State p) → On s → On (take_result p r s).0
    unfolding take_result
    take_result-On (err e) s h = h
    take_result-On (ok (bytes, source)) s h = take_datagram-On bytes source s h

    receive-On : (s : State p) → On s → On (receive p s).0
    unfolding receive
    receive-On s h = take_result-On _ _ (kept.received s.line h)

    end_update-On : (o : Option Reason) (s : State p) → On s → On (end_update p o s).0
    unfolding end_update
    end_update-On none s h = h
    end_update-On (some reason) s h = h

    end_send-On : (o : Option Reason) (s : State p) → On s → On (end_send p o s).0
    unfolding end_send
    end_send-On none s h = h
    end_send-On (some reason) s h = h

    farewell-On :
        (r : Netcode × Result Error (SocketAddr × List ℕ)) (s : State p)
        → On s
        → On (farewell p r s)
    unfolding farewell
    farewell-On (n, err e) s h = h
    farewell-On (n, ok (addr, packet)) s h = send_packet-On packet addr (record s { netcode = n }) h

    leave-On : (s : State p) → On s → On (leave p s)
    unfolding leave
    leave-On s h = if_cases On _ (farewell p _ s) s (λ _. farewell-On _ s h) (λ _. h)

    send_update-On :
        (r : Netcode × Option (List ℕ × SocketAddr)) (s : State p) → On s → On (send_update p r s).0
    unfolding send_update
    send_update-On (n, none) s h = h
    send_update-On (n, some (packet, addr)) s h =
        send_packet-On packet addr (record s { netcode = n }) h

    settle-On : (s : State p) → On s → On (settle p s).0
    unfolding settle confirm
    settle-On s h =
        and_then-keeps On (end_update p (disconnect_reason s.netcode) s) _
          (end_update-On (disconnect_reason s.netcode) s h) (λ t k. k)

    advance-On : (duration : ℕ) (s : State p) → On s → On (advance p duration s).0
    unfolding advance
    advance-On duration s h =
        and_then-keeps On (lift_err io (send_update p (nc.update duration s.netcode) s)) (settle p)
          (send_update-On _ s h) settle-On

    exchange-On : (duration : ℕ) (s : State p) → On s → On (exchange p duration s).0
    unfolding exchange
    exchange-On duration s h =
        and_then-keeps On (lift_err io (flush_outgoing p s))
          (λ t. advance p duration (deliver_incoming p t)) (flush_outgoing-On s h)
          (λ t k. advance-On duration (deliver_incoming p t) (deliver_incoming-On t k))

    listen-On : (duration : ℕ) (s : State p) → On s → On (listen p duration s).0
    unfolding listen
    listen-On duration s h =
        and_then-keeps On
          (lift_err io (receive_with_budget s.max_datagrams_per_update (receive p) s))
          (exchange p duration) (receive_with_budget-keeps (receive p) On receive-On _ s h)
          (exchange-On duration)

    update-On : (duration : ℕ) (s : State p) → On s → On (update p duration s).0
    unfolding update show_state
    update-On duration s h =
        and_then-keeps On (end_update p (disconnect_reason s.netcode) s) _
          (end_update-On (disconnect_reason s.netcode) s h)
          (λ t k. listen-On duration (show_state p (leave p t)) (leave-On t k))

    send_generated-On :
        (r : Netcode × Result Error (SocketAddr × List ℕ)) (s : State p)
        → On s
        → On (send_generated p r s).0
    unfolding send_generated
    send_generated-On (n, err e) s h = h
    send_generated-On (n, ok (addr, payload)) s h =
        send_packet-On payload addr (record s { netcode = n }) h

    send_all-On : (s : State p) → On s → On (send_all p s).0
    unfolding send_all send_payload
    send_all-On s h =
        for_each-keeps On (send_payload p) (rc.get_packets_to_send s.client).1 _ h
          (λ x t q. send_generated-On _ t q)

    flush_and_send-On : (s : State p) → On s → On (flush_and_send p s).0
    unfolding flush_and_send
    flush_and_send-On s h =
        and_then-keeps On (lift_err io (flush_outgoing p s)) (send_all p) (flush_outgoing-On s h)
          send_all-On

    send_packets-On : (s : State p) → On s → On (send_packets p s).0
    unfolding send_packets
    send_packets-On s h =
        and_then-keeps On (end_send p (disconnect_reason s.netcode) s) (flush_and_send p)
          (end_send-On (disconnect_reason s.netcode) s h) flush_and_send-On

    -- What each step of a transport keeps of its budget and its world, any sequence of calls keeps.
    pub run-On : (calls : List Call) (s : State p) → On s → On (run calls s)
    unfolding run step set_egress_limit set_conditioner clear_conditioner
        set_max_datagrams_per_update
    run-On calls s h = each-keeps On step calls s h step-On
      where
        step-On : (c : Call) (t : State p) → On t → On (step c t)
        step-On (updates duration) t k = update-On duration t k
        step-On sends t k = send_packets-On t k
        step-On (limits config now) t k = kept.configured config now t.line k
        step-On (conditions control) t k = k
        step-On bypasses t k = k
        step-On (budgets limit) t k = k
