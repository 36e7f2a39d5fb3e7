-- ===== src/WebRtc/Rounds/Sends.antt =====
-- src/server.rs: a packet to a peer adds nothing to the work that is left.
use native.Mathlib.Decide.{ℕ_discrete}
use renet_cross.Prelude.{
  ℕ, ◌+◌, ◌≤◌, ◌≡◌, refl, subst, Bool, if◌then◌else◌, Option, none, some, List, Result, ok, err,
  Bool-cases, inl, inr, if_cases, arith,
}
use renet_cross.Prelude.Assoc.{get, insert, contains_key}
use renet_cross.Conditioner.{outgoing}
use renet_cross.Egress.Peers.{admit_at}
use renet_cross.Datagram.{Line}
use renet_cross.WebRtc.{missing_peer, Platform, State, Peer}
use renet_cross.WebRtc.Driving.{gate_defer, flush_peer_output}
use renet_cross.WebRtc.Sending.{
  SendStep, written, write_channel, write_ready, write_found, send_to_peer_backend, send_admitted,
  send_to_peer_unconditioned, send_to_peer, send_to_peer_lossy,
}
use renet_cross.WebRtc.Rounds.{
  Drains, after_write, load, weight_of, load-insert, peer_weight, work, flush_peer_output-le,
}

module _ (p : Platform) (left : p.xs.Rtc → ℕ) (drains : Drains p.xs left) where
  open p use {os, ns, rs, xs}

  abbrev effort : State p → ℕ
  effort = work p left

  written-le :
      (client : ℕ) (peer : Peer p) (o : Option (xs.Rtc × Result xs.RtcError Bool)) (s : State p)
      → get ℕ_discrete client s.peers ≡ some peer
      → after_write left o ≤ left peer.rtc
      → effort (written p client peer o s).0 ≤ effort s
  unfolding written
  written-le client peer none s found h = omega arith
  written-le client peer (some (rtc', verdict)) s found h =
      let peer' : Peer p = record peer { rtc = rtc' } in
      let s' : State p = record s { peers = insert ℕ_discrete client peer' s.peers } in
      let total : load (peer_weight p left) s'.peers + weight_of (peer_weight p left) (some peer)
          ≡ load (peer_weight p left) s.peers + peer_weight p left peer' =
        subst
          (λ o.
            load (peer_weight p left) s'.peers + weight_of (peer_weight p left) o
            ≡ load (peer_weight p left) s.peers + peer_weight p left peer')
          found (load-insert (peer_weight p left) client peer' s.peers) in
      omega (arith, flush_peer_output-le p left drains client s', total, h)

  write_channel-le :
      (client : ℕ) (peer : Peer p) (payload : List ℕ) (o : Option ℕ) (s : State p)
      → get ℕ_discrete client s.peers ≡ some peer
      → effort (write_channel p client peer payload o s).0 ≤ effort s
  unfolding write_channel
  write_channel-le client peer payload none s found = omega arith
  write_channel-le client peer payload (some channel) s found =
      written-le client peer (xs.write channel payload peer.rtc) s found
        (drains.wrote channel payload peer.rtc)

  write_ready-le :
      (client : ℕ) (peer : Peer p) (payload : List ℕ) (o : Option ℕ) (s : State p)
      → get ℕ_discrete client s.peers ≡ some peer
      → effort (write_ready p client peer payload o s).0 ≤ effort s
  unfolding write_ready
  write_ready-le client peer payload none s found = omega arith
  write_ready-le client peer payload (some deadline) s found =
      write_channel-le client peer payload peer.data_channel s found

  write_found-le :
      (client : ℕ) (o : Option (Peer p)) (payload : List ℕ) (s : State p)
      → get ℕ_discrete client s.peers ≡ o
      → effort (write_found p client o payload s).0 ≤ effort s
  unfolding write_found
  write_found-le client none payload s found = omega arith
  write_found-le client (some peer) payload s found =
      write_ready-le client peer payload peer.next_timeout s found

  send_admitted-le :
      (client : ℕ) (payload : List ℕ) (s : State p)
      → effort (send_admitted p client payload s).0 ≤ effort s
  unfolding send_admitted send_to_peer_backend
  send_admitted-le client payload s =
      let flushed = flush_peer_output p client s in
      omega (
        arith,
        write_found-le client (get ℕ_discrete client flushed.peers) payload flushed refl,
        flush_peer_output-le p left drains client s,
      )

  send_to_peer_unconditioned-le :
      (client : ℕ) (payload : List ℕ) (s : State p)
      → effort (send_to_peer_unconditioned p client payload s).0 ≤ effort s
  unfolding send_to_peer_unconditioned
  send_to_peer_unconditioned-le client payload s =
      let (timed, now) = os.egress_elapsed s.line.world in
      let r = admit_at ℕ_discrete client payload 0 now s.line.egress in
      let line' : Line ℕ os.World = record { egress = r.0; world = timed } in
      let s' : State p = record s { line = line' } in
      elim (Bool-cases r.1) [
        | inl e ↦ rw (e, send_to_peer_unconditioned) (send_admitted-le client payload s')
        | inr e ↦ rw (e, send_to_peer_unconditioned) (omega arith)
      ]

  pub send_to_peer_lossy-le :
      (client : ℕ) (payload : List ℕ) (s : State p)
      → effort (send_to_peer_lossy p client payload s) ≤ effort s
  unfolding send_to_peer_lossy send_to_peer gate_defer
  send_to_peer_lossy-le client payload s =
      let g = gate_defer p outgoing client payload s in
      if_cases (λ (r : SendStep p). effort r.0 ≤ effort s) (contains_key ℕ_discrete client s.peers)
        (if g.1 then (g.0, ok tt) else send_to_peer_unconditioned p client payload g.0)
        (s, err (missing_peer client))
        (λ _.
          if_cases (λ (r : SendStep p). effort r.0 ≤ effort s) g.1 (g.0, ok tt)
            (send_to_peer_unconditioned p client payload g.0) (λ _. omega arith)
            (λ _. send_to_peer_unconditioned-le client payload g.0))
        (λ _. omega arith)
