-- ===== src/WebRtc/Keeps/Sends.antt =====
-- src/server.rs: what a packet to a peer keeps.
use native.Mathlib.Decide.{ℕ_discrete}
use renet_cross.Prelude.{
  ℕ, Bool, Option, none, some, List, Result, ok, err, Bool-cases, inl, inr, if_cases,
}
use renet_cross.Prelude.Assoc.{get, insert, contains_key}
use renet_cross.Conditioner.{outgoing}
use renet_cross.Egress.Peers.{admit_at}
use renet_cross.Datagram.{Line}
use renet_cross.WebRtc.{missing_peer, Platform, State, Peer}
use renet_cross.WebRtc.Driving.{gate_defer, flush_peer_output}
use renet_cross.WebRtc.Sending.{
  SendStep, written, write_channel, write_ready, write_found, send_to_peer_backend, send_admitted,
  send_to_peer_unconditioned, send_to_peer, send_to_peer_lossy,
}
use renet_cross.WebRtc.Keeps.{On, flush_peer_output-On}

module _ (p : Platform) (R : List ℕ → List ℕ → p.rs.Renet → Type 0) where
  open p use {os, ns, rs, xs}

  written-On :
      (client : ℕ) (peer : Peer p) (o : Option (xs.Rtc × Result xs.RtcError Bool)) (s : State p)
      → On p R s
      → On p R (written p client peer o s).0
  unfolding written
  written-On client peer none s h = h
  written-On client peer (some (rtc', verdict)) s h =
      let peers' = insert ℕ_discrete client (record peer { rtc = rtc' }) s.peers in
      flush_peer_output-On p R client (record s { peers = peers' }) h

  write_channel-On :
      (client : ℕ) (peer : Peer p) (payload : List ℕ) (o : Option ℕ) (s : State p)
      → On p R s
      → On p R (write_channel p client peer payload o s).0
  unfolding write_channel
  write_channel-On client peer payload none s h = h
  write_channel-On client peer payload (some channel) s h = written-On client peer _ s h

  write_ready-On :
      (client : ℕ) (peer : Peer p) (payload : List ℕ) (o : Option ℕ) (s : State p)
      → On p R s
      → On p R (write_ready p client peer payload o s).0
  unfolding write_ready
  write_ready-On client peer payload none s h = h
  write_ready-On client peer payload (some deadline) s h =
      write_channel-On client peer payload peer.data_channel s h

  write_found-On :
      (client : ℕ) (o : Option (Peer p)) (payload : List ℕ) (s : State p)
      → On p R s
      → On p R (write_found p client o payload s).0
  unfolding write_found
  write_found-On client none payload s h = h
  write_found-On client (some peer) payload s h =
      write_ready-On client peer payload peer.next_timeout s h

  send_admitted-On :
      (client : ℕ) (payload : List ℕ) (s : State p)
      → On p R s
      → On p R (send_admitted p client payload s).0
  unfolding send_admitted send_to_peer_backend
  send_admitted-On client payload s h =
      let flushed = flush_peer_output p client s in
      write_found-On client (get ℕ_discrete client flushed.peers) payload flushed
        (flush_peer_output-On p R client s h)

  pub send_to_peer_unconditioned-On :
      (client : ℕ) (payload : List ℕ) (s : State p)
      → On p R s
      → On p R (send_to_peer_unconditioned p client payload s).0
  unfolding send_to_peer_unconditioned
  send_to_peer_unconditioned-On client payload s h =
      let (timed, now) = os.egress_elapsed s.line.world in
      let r = admit_at ℕ_discrete client payload 0 now s.line.egress in
      let line' : Line ℕ os.World = record { egress = r.0; world = timed } in
      let s' : State p = record s { line = line' } in
      elim (Bool-cases r.1) [
        | inl e ↦ rw (e, send_to_peer_unconditioned) (send_admitted-On client payload s' h)
        | inr e ↦ rw (e, send_to_peer_unconditioned) h
      ]

  send_to_peer-On :
      (client : ℕ) (payload : List ℕ) (s : State p)
      → On p R s
      → On p R (send_to_peer p client payload s).0
  unfolding send_to_peer gate_defer
  send_to_peer-On client payload s h =
      let g = gate_defer p outgoing client payload s in
      if_cases (λ (r : SendStep p). On p R r.0) (contains_key ℕ_discrete client s.peers) _
        (s, err (missing_peer client))
        (λ _.
          if_cases (λ (r : SendStep p). On p R r.0) g.1 (g.0, ok tt)
            (send_to_peer_unconditioned p client payload g.0) (λ _. h)
            (λ _. send_to_peer_unconditioned-On client payload g.0 h))
        (λ _. h)

  pub send_to_peer_lossy-On :
      (client : ℕ) (payload : List ℕ) (s : State p)
      → On p R s
      → On p R (send_to_peer_lossy p client payload s)
  unfolding send_to_peer_lossy
  send_to_peer_lossy-On client payload s h = send_to_peer-On client payload s h
