-- ===== src/WebRtc/Sending.antt =====
-- src/server.rs: a netcode packet to a peer: the gate, the egress budget, and the data channel.
use native.Mathlib.Decide.{ℕ_discrete}
use renet_cross.Prelude.{
  ℕ, Bool, true, false, Option, none, some, List, Result, ok, err, if◌then◌else◌,
}
use renet_cross.Prelude.Assoc.{get, insert, contains_key}
use renet_cross.Conditioner.{outgoing}
use renet_cross.Egress.Peers.{admit_at, complete}
use renet_cross.Datagram.{Line}
use renet_cross.WebRtc.{
  TransportError, rtc_error, data_channel_not_open, data_channel_backpressure, missing_peer,
  Platform, State, Peer,
}
use renet_cross.WebRtc.Driving.{flush_peer_output, gate_defer}

module _ (p : Platform) where
  open p use {os, xs}
  open xs use {Rtc, RtcError, write}

  abbrev pub SendStep : Type 0
  SendStep = State p × Result (TransportError RtcError) (Unit {0})

  -- The verdict of `channel.write(true, payload)`.
  unfoldable pub accepted : ℕ → Result RtcError Bool → Result (TransportError RtcError) (Unit {0})
  accepted client (err e) = err (rtc_error e)
  accepted client (ok false) = err (data_channel_backpressure client)
  accepted client (ok true) = ok tt

  unfoldable pub written : ℕ → Peer p → Option (Rtc × Result RtcError Bool) → State p → SendStep
  unfolding accepted
  written client peer none s = (s, err (data_channel_not_open client))
  written client peer (some (rtc', verdict)) s =
      let peers' = insert ℕ_discrete client (record peer { rtc = rtc' }) s.peers in
      (flush_peer_output p client (record s { peers = peers' }), accepted client verdict)

  unfoldable pub write_channel : ℕ → Peer p → List ℕ → Option ℕ → State p → SendStep
  unfolding written
  write_channel client peer payload none s = (s, err (data_channel_not_open client))
  write_channel client peer payload (some channel) s =
      written client peer (write channel payload peer.rtc) s

  -- Nothing is written while output of str0m is left.
  unfoldable pub write_ready : ℕ → Peer p → List ℕ → Option ℕ → State p → SendStep
  unfolding write_channel
  write_ready client peer payload none s = (s, err (data_channel_backpressure client))
  write_ready client peer payload (some deadline) s =
      write_channel client peer payload peer.data_channel s

  unfoldable pub write_found : ℕ → Option (Peer p) → List ℕ → State p → SendStep
  unfolding write_ready
  write_found client none payload s = (s, err (missing_peer client))
  write_found client (some peer) payload s = write_ready client peer payload peer.next_timeout s

  unfoldable pub send_to_peer_backend : ℕ → List ℕ → State p → SendStep
  unfolding flush_peer_output write_found
  send_to_peer_backend client payload s =
      let flushed = flush_peer_output p client s in
      write_found client (get ℕ_discrete client flushed.peers) payload flushed

  -- `result.is_ok()`.
  abbrev pub is_ok : {E : Type 0} → Result E (Unit {0}) → Bool
  is_ok (ok tt) = true
  is_ok (err e) = false

  unfoldable pub send_admitted : ℕ → List ℕ → State p → SendStep
  unfolding send_to_peer_backend
  send_admitted client payload s =
      let (sent, result) = send_to_peer_backend client payload s in
      let (timed, now) = os.egress_elapsed sent.line.world in
      let line' : Line ℕ os.World = record {
        egress = complete ℕ_discrete client payload 0 (is_ok result) now sent.line.egress;
        world = timed;
      } in
      (record sent { line = line' }, result)

  unfoldable pub send_to_peer_unconditioned : ℕ → List ℕ → State p → SendStep
  unfolding send_admitted
  send_to_peer_unconditioned client payload s =
      let (timed, now) = os.egress_elapsed s.line.world in
      let (charged, admitted) = admit_at ℕ_discrete client payload 0 now s.line.egress in
      let line' : Line ℕ os.World = record { egress = charged; world = timed } in
      let s' : State p = record s { line = line' } in
      elim admitted [ true ↦ send_admitted client payload s' | false ↦ (s', ok tt) ]

  unfoldable pub send_to_peer : ℕ → List ℕ → State p → SendStep
  unfolding gate_defer send_to_peer_unconditioned
  send_to_peer client payload s =
      let (deferred, taken) = gate_defer p outgoing client payload s in
      if contains_key ℕ_discrete client s.peers
      then (if taken then (deferred, ok tt) else send_to_peer_unconditioned client payload deferred)
      else (s, err (missing_peer client))

  unfoldable pub send_to_peer_lossy : ℕ → List ℕ → State p → State p
  unfolding send_to_peer
  send_to_peer_lossy client payload s = (send_to_peer client payload s).0
