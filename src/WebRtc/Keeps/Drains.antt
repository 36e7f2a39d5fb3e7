-- ===== src/WebRtc/Keeps/Drains.antt =====
-- src/server.rs: what the packets that the gate hands over keep.
use native.Mathlib.Decide.{ℕ_discrete}
use renet_cross.Prelude.{ℕ, Option, none, some, List, [], if_cases}
use renet_cross.Prelude.Assoc.{get, remove}
use renet_cross.Prelude.Steps.{each, each-keeps}
use renet_cross.Conditioner.{incoming, outgoing}
use renet_cross.ServerConditioner.{PeerId, udp, web_rtc}
use renet_cross.WebRtc.{Platform, State, Peer}
use renet_cross.WebRtc.Driving.{Driven, process_peer_packet}
use renet_cross.WebRtc.Results.{
  gate_drain, send_drained, process_found, apply_if_found, receive_drained,
  drain_conditioned_packets,
}
use renet_cross.WebRtc.Keeps.{On, process_peer_packet-On, flush_peer_output-On}
use renet_cross.WebRtc.Keeps.Sends.{send_to_peer_unconditioned-On}
use renet_cross.WebRtc.Keeps.Answers.{Rules, apply_pending_results-On}

module _ (p : Platform) (R : List ℕ → List ℕ → p.rs.Renet → Type 0) (rules : Rules p.rs R) where
  open p use {os, ns, rs, xs}

  process_found-On :
      (o : Option (Peer p)) (client : ℕ) (packet : List ℕ) (s : State p)
      → On p R s
      → On p R (process_found p o client packet s)
  unfolding process_found
  process_found-On none client packet s h = h
  process_found-On (some peer) client packet s h =
      let start : Driven p = record {
        state = record s { peers = remove ℕ_discrete client s.peers };
        peer = peer;
        results = [];
      } in
      flush_peer_output-On p R client _ (
        if_cases (λ (d : Driven p). On p R d.state) (xs.is_alive peer.rtc)
          (process_peer_packet p packet start) start
          (λ _. process_peer_packet-On p R packet start h) (λ _. h))

  apply_if_found-On :
      (rounds : ℕ) (o : Option (Peer p)) (s : State p)
      → On p R s
      → On p R (apply_if_found p rounds o s)
  unfolding apply_if_found
  apply_if_found-On rounds none s h = h
  apply_if_found-On rounds (some peer) s h = apply_pending_results-On p R rules rounds s h

  receive_drained-On :
      (rounds : ℕ) (x : PeerId × List ℕ) (s : State p)
      → On p R s
      → On p R (receive_drained p rounds x s)
  unfolding receive_drained
  receive_drained-On rounds (udp addr, packet) s h = h
  receive_drained-On rounds (web_rtc client, packet) s h =
      let found = get ℕ_discrete client s.peers in
      apply_if_found-On rounds found (process_found p found client packet s)
        (process_found-On found client packet s h)

  send_drained-On : (x : PeerId × List ℕ) (s : State p) → On p R s → On p R (send_drained p x s)
  unfolding send_drained
  send_drained-On (udp addr, packet) s h = h
  send_drained-On (web_rtc client, packet) s h = send_to_peer_unconditioned-On p R client packet s h

  pub drain_conditioned_packets-On :
      (rounds : ℕ) (s : State p) → On p R s → On p R (drain_conditioned_packets p rounds s)
  unfolding drain_conditioned_packets gate_drain
  drain_conditioned_packets-On rounds s h =
      let d = gate_drain p incoming s in
      let received =
        each-keeps (On p R) (receive_drained p rounds) d.1 d.0 h (receive_drained-On rounds) in
      let d' = gate_drain p outgoing (each (receive_drained p rounds) d.1 d.0) in
      apply_pending_results-On p R rules rounds _
        (each-keeps (On p R) (send_drained p) d'.1 d'.0 received send_drained-On)
