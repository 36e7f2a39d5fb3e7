-- ===== src/UdpClient/Ends.antt =====
-- src/native_client.rs: how `update` ends.
use renet_cross.Prelude.{
  ℕ, ◌≡◌, refl, Option, none, some, List, Result, ok, err, if_cases, if◌then◌else◌,
}
use renet_cross.Prelude.Steps.{and_then, lift_err, Fails, and_then-Fails, for_each-Fails}
use renet_cross.Net.{SocketAddr}
use renet_cross.Conditioner.{outgoing}
use renet_cross.UdpIo.{
  IoError, would_block, interrupted, connection_reset, other_error, addr_not_available,
  network_unreachable, host_unreachable, connection_aborted, connection_refused, timed_out,
  not_connected, receive_with_budget,
}
use renet_cross.UdpIo.Budget.{IsReported, receive_with_budget-Fails}
use renet_cross.Gate.Sessions.{SlotHolds, reset-Holds}
use renet_cross.UdpClient.{
  Platform, io, netcode_error, State, IoStep, ClientStep, same_addr, lossy, send_datagram,
  gate_defer, gate_drain, send_if_to, send_to_server, send_packet, flush_outgoing, offer, forward,
}
use renet_cross.UdpClient.Pump.{
  update, end_update, send_update, confirm, receive, settle, advance, exchange, listen,
}

lossy-Fails : (o : Option (Result IoError ℕ)) → Fails IsReported (lossy o)
unfolding lossy
lossy-Fails none = tt
lossy-Fails (some (ok n)) = tt
lossy-Fails (some (err would_block)) = tt
lossy-Fails (some (err interrupted)) = tt
lossy-Fails (some (err connection_reset)) = tt
lossy-Fails (some (err addr_not_available)) = tt
lossy-Fails (some (err network_unreachable)) = tt
lossy-Fails (some (err host_unreachable)) = tt
lossy-Fails (some (err connection_aborted)) = tt
lossy-Fails (some (err connection_refused)) = tt
lossy-Fails (some (err timed_out)) = tt
lossy-Fails (some (err not_connected)) = tt
lossy-Fails (some (err (other_error kind))) = tt

module _ (p : Platform) where
  open p use {nc, rc}
  open nc use {Netcode, Reason, Error, disconnected, disconnect_reason, is_connected}
  open rc use {Renet, disconnect_due_to_transport, set_connected}

  pub send_datagram-Fails :
      (payload : List ℕ) (addr : SocketAddr) (s : State p)
      → Fails IsReported (send_datagram p payload addr s).1
  unfolding send_datagram
  send_datagram-Fails payload addr s = lossy-Fails _

  offer-Fails :
      (bytes : List ℕ) (addr : SocketAddr) (s : State p) → Fails IsReported (offer p bytes addr s).1
  unfolding offer
  offer-Fails bytes addr s =
      let d = gate_defer p outgoing addr bytes s in
      if_cases (λ (r : IoStep p). Fails IsReported r.1) d.1 (d.0, ok tt)
        (send_datagram p bytes addr d.0) (λ _. tt) (λ _. send_datagram-Fails bytes addr d.0)

  forward-Fails : (addr : SocketAddr) (s : State p) → Fails IsReported (forward p addr s).1
  unfolding forward send_if_to
  forward-Fails addr s =
      for_each-Fails IsReported (send_if_to p addr) (gate_drain p outgoing s).1 _ (λ x t.
        if_cases (λ (r : IoStep p). Fails IsReported r.1) (same_addr x.0 addr)
          (send_datagram p x.1 x.0 t) (t, ok tt) (λ _. send_datagram-Fails x.1 x.0 t) (λ _. tt))

  pub send_packet-Fails :
      (bytes : List ℕ) (addr : SocketAddr) (s : State p)
      → Fails IsReported (send_packet p bytes addr s).1
  unfolding send_packet
  send_packet-Fails bytes addr s =
      and_then-Fails IsReported (offer p bytes addr s) (forward p addr) (offer-Fails bytes addr s)
        (forward-Fails addr)

  flush_outgoing-Fails : (s : State p) → Fails IsReported (flush_outgoing p s).1
  unfolding flush_outgoing send_to_server
  flush_outgoing-Fails s =
      for_each-Fails IsReported (send_to_server p) (gate_drain p outgoing s).1 _ (λ x t.
        if_cases (λ (r : IoStep p). Fails IsReported r.1) (same_addr x.0 (nc.server_addr t.netcode))
          (send_datagram p x.1 x.0 t) (t, ok tt) (λ _. send_datagram-Fails x.1 x.0 t) (λ _. tt))

  send_update-Fails :
      (r : Netcode × Option (List ℕ × SocketAddr)) (s : State p)
      → Fails IsReported (send_update p r s).1
  unfolding send_update
  send_update-Fails (n, none) s = tt
  send_update-Fails (n, some (packet, addr)) s =
      send_packet-Fails packet addr (record s { netcode = n })

  receive-Fails :
      (budget : ℕ) (s : State p) → Fails IsReported (receive_with_budget budget (receive p) s).1
  receive-Fails budget s = receive_with_budget-Fails (receive p) budget s

  -- How a call of `update` may end.
  abbrev pub UpdateEnd : ClientStep p → Type 0
  UpdateEnd (s, ok tt) =
      (disconnect_reason s.netcode ≡ none)
      × (c : Renet) × (s.client ≡ (if is_connected s.netcode then set_connected c else c))
  UpdateEnd (s, err (io e)) = IsReported e
  UpdateEnd (s, err (netcode_error e)) =
      (reason : Reason) × (e ≡ disconnected reason)
      × (disconnect_reason s.netcode ≡ some reason)
      × SlotHolds (λ _. ⊥) (s.packets).engine
      × (c : Renet) × (s.client ≡ disconnect_due_to_transport c)

  end_update-end :
      (s : State p) (o : Option Reason) (rest : State p → ClientStep p)
      → disconnect_reason s.netcode ≡ o
      → (disconnect_reason s.netcode ≡ none → UpdateEnd (rest s))
      → UpdateEnd (and_then (end_update p o s) rest)
  unfolding end_update
  end_update-end s none rest e h = h e
  end_update-end s (some reason) rest e h =
      (reason, refl, e, reset-Holds (λ _. ⊥) s.packets, s.client, refl)

  io-end :
      (r : IoStep p) (rest : State p → ClientStep p)
      → Fails IsReported r.1
      → ((s : State p) → UpdateEnd (rest s))
      → UpdateEnd (and_then (lift_err io r) rest)
  io-end (s, ok tt) rest f h = h s
  io-end (s, err e) rest f h = f

  settle-end : (s : State p) → UpdateEnd (settle p s)
  unfolding settle confirm
  settle-end s =
      end_update-end s (disconnect_reason s.netcode) _ refl (λ alive. (alive, s.client, refl))

  advance-end : (duration : ℕ) (s : State p) → UpdateEnd (advance p duration s)
  unfolding advance
  advance-end duration s = io-end _ (settle p) (send_update-Fails _ s) settle-end

  exchange-end : (duration : ℕ) (s : State p) → UpdateEnd (exchange p duration s)
  unfolding exchange
  exchange-end duration s =
      io-end (flush_outgoing p s) _ (flush_outgoing-Fails s) (λ t. advance-end duration _)

  listen-end : (duration : ℕ) (s : State p) → UpdateEnd (listen p duration s)
  unfolding listen
  listen-end duration s = io-end _ (exchange p duration) (receive-Fails _ s) (exchange-end duration)

  -- A call of `update` ends in one of three ways. It succeeds, and then renetcode's client is not
  -- disconnected and renet's client has been told of an established connection. It reports an error of
  -- the socket, which is never a full buffer or an interruption. Or it reports the reason for which
  -- renetcode's client is disconnected, and then no packet waits in the gate any longer and renet's
  -- client has been disconnected.
  pub update-UpdateEnd : (duration : ℕ) (s : State p) → UpdateEnd (update p duration s)
  unfolding update
  update-UpdateEnd duration s =
      end_update-end s (disconnect_reason s.netcode) _ refl (λ _. listen-end duration _)
