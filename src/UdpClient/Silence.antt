-- ===== src/UdpClient/Silence.antt =====
-- src/native_client.rs: the packets of a transport whose gate conditions nothing.
use renet_cross.Prelude.{ℕ, refl, ap, List, ok, not, ◌||◌, ltb, length, if◌then◌else◌}
use renet_cross.Prelude.Steps.{for_each, each}
use renet_cross.Prelude.Blind
use renet_cross.Net.{SocketAddr}
use renet_cross.Conditioner.{Direction, incoming, outgoing}
use renet_cross.Gate.{bypass, drain, drain_engine, defer, defer_engine}
use renet_cross.Gate.Sessions.{IsIdle, defer-IsIdle, drain-IsIdle}
use renet_cross.UdpClient.{
  Platform, State, same_addr, send_datagram, gate_defer, gate_drain, send_if_to, send_to_server,
  send_packet, flush_outgoing, process, deliver_one, deliver_incoming, take_datagram, offer,
  forward,
}

module _ (p : Platform) where
  open p use {fl, os, nc, rc}
  open nc use {Netcode, Reason, Error, disconnect_reason, server_addr}

  abbrev pub Still : State p → Type 0
  Still s = IsIdle s.packets

  -- The transport without its gate.
  abbrev pub ungated : State p → State p
  ungated s = record s { packets = bypass }

  abbrev pub BlindStep : {R : Type 0} → (State p → State p × R) → Type 0
  BlindStep = Blind.Blind Still ungated

  abbrev pub BlindChange : (State p → State p) → Type 0
  BlindChange = Blind.Blindly Still ungated

  defer-Blind :
      (d : Direction) (addr : SocketAddr) (bytes : List ℕ) → BlindStep (gate_defer p d addr bytes)
  unfolding gate_defer defer defer_engine
  defer-Blind d addr bytes s i =
      let (timed, now) = os.gate_elapsed s.line.world in
      let (kept, passed) = defer-IsIdle fl d addr bytes now s.packets i in
      (kept, ap (λ b. (ungated (gate_defer p d addr bytes s).0, b)) passed)

  drain-Blind : (d : Direction) → BlindStep (gate_drain p d)
  unfolding gate_drain drain drain_engine
  drain-Blind d s i =
      let (timed, now) = os.gate_elapsed s.line.world in
      let (kept, nothing) = drain-IsIdle d now s.packets i in
      (kept, ap (λ l. (ungated (gate_drain p d s).0, l)) nothing)

  send_datagram-Blind :
      (payload : List ℕ) (addr : SocketAddr) → BlindStep (send_datagram p payload addr)
  unfolding send_datagram
  send_datagram-Blind payload addr s i = (i, refl)

  offer-Blind : (bytes : List ℕ) (addr : SocketAddr) → BlindStep (offer p bytes addr)
  unfolding offer
  offer-Blind bytes addr =
      Blind.bind-Blind Still ungated (gate_defer p outgoing addr bytes)
        (λ taken s. if taken then (s, ok tt) else send_datagram p bytes addr s)
        (defer-Blind outgoing addr bytes)
        (λ taken.
          Blind.if-Blind Still ungated (λ s. taken) (λ s. (s, ok tt)) (send_datagram p bytes addr)
            (λ s. refl) (Blind.skip-Blind Still ungated (ok tt)) (send_datagram-Blind bytes addr))

  send_if_to-Blind : (addr : SocketAddr) (x : SocketAddr × List ℕ) → BlindStep (send_if_to p addr x)
  unfolding send_if_to
  send_if_to-Blind addr x =
      Blind.if-Blind Still ungated (λ s. same_addr x.0 addr) (send_datagram p x.1 x.0)
        (λ s. (s, ok tt)) (λ s. refl) (send_datagram-Blind x.1 x.0)
        (Blind.skip-Blind Still ungated (ok tt))

  send_to_server-Blind : (x : SocketAddr × List ℕ) → BlindStep (send_to_server p x)
  unfolding send_to_server
  send_to_server-Blind x =
      Blind.if-Blind Still ungated (λ s. same_addr x.0 (server_addr s.netcode))
        (send_datagram p x.1 x.0) (λ s. (s, ok tt)) (λ s. refl) (send_datagram-Blind x.1 x.0)
        (Blind.skip-Blind Still ungated (ok tt))

  forward-Blind : (addr : SocketAddr) → BlindStep (forward p addr)
  unfolding forward
  forward-Blind addr =
      Blind.bind-Blind Still ungated (gate_drain p outgoing) (for_each (send_if_to p addr))
        (drain-Blind outgoing)
        (λ xs. Blind.for_each-Blind Still ungated (send_if_to p addr) xs (send_if_to-Blind addr))

  pub send_packet-Blind :
      (bytes : List ℕ) (addr : SocketAddr) → BlindStep (send_packet p bytes addr)
  unfolding send_packet
  send_packet-Blind bytes addr =
      Blind.and_then-Blind Still ungated (offer p bytes addr) (forward p addr)
        (offer-Blind bytes addr) (forward-Blind addr)

  pub flush_outgoing-Blind : BlindStep (flush_outgoing p)
  unfolding flush_outgoing
  flush_outgoing-Blind =
      Blind.bind-Blind Still ungated (gate_drain p outgoing) (for_each (send_to_server p))
        (drain-Blind outgoing)
        (λ xs. Blind.for_each-Blind Still ungated (send_to_server p) xs send_to_server-Blind)

  process-Blind : (bytes : List ℕ) → BlindChange (process p bytes)
  unfolding process
  process-Blind bytes s i = (i, refl)

  pub deliver_incoming-Blind : BlindChange (deliver_incoming p)
  unfolding deliver_incoming deliver_one
  deliver_incoming-Blind =
      Blind.bind-Blindly Still ungated (gate_drain p incoming) (each (deliver_one p))
        (drain-Blind incoming)
        (λ xs. Blind.each-Blindly Still ungated (deliver_one p) xs (λ x.
          Blind.if-Blindly Still ungated (λ s. same_addr x.0 (server_addr s.netcode))
            (process p x.1) (λ s. s) (λ s. refl) (process-Blind x.1)
            (Blind.skip-Blindly Still ungated)))

  pub take_datagram-Blind :
      (bytes : List ℕ) (source : SocketAddr) → BlindChange (take_datagram p bytes source)
  unfolding take_datagram
  take_datagram-Blind bytes source =
      Blind.if-Blindly Still ungated
        (λ s.
          not (same_addr source (server_addr s.netcode)) || ltb nc.max_packet_bytes (length bytes))
        (λ s. s)
        (λ s.
          let d = gate_defer p incoming source bytes s in if d.1 then d.0 else process p bytes d.0)
        (λ s. refl) (Blind.skip-Blindly Still ungated)
        (Blind.bind-Blindly Still ungated (gate_defer p incoming source bytes)
          (λ taken s. if taken then s else process p bytes s) (defer-Blind incoming source bytes)
          (λ taken.
            Blind.if-Blindly Still ungated (λ s. taken) (λ s. s) (process p bytes) (λ s. refl)
              (Blind.skip-Blindly Still ungated) (process-Blind bytes)))
