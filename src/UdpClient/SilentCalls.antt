-- ===== src/UdpClient/SilentCalls.antt =====
-- src/native_client.rs: a gate that conditions nothing does not show.
use renet_cross.Prelude.{
  ℕ, ◌≡◌, refl, ap, ◌∙◌, Option, none, some, List, [], ◌∷◌, All, Result, ok, err, not, ◌&&◌,
}
use renet_cross.Prelude.Steps.{each, lift_err}
use renet_cross.Prelude.Blind
use renet_cross.Net.{SocketAddr}
use renet_cross.UdpIo.{IoError, receive_with_budget}
use renet_cross.UdpIo.Budget.{receive_with_budget-Blind}
use renet_cross.Gate.{reset, detach}
use renet_cross.Gate.Sessions.{reset-IsIdle}
use renet_cross.UdpClient.{Platform, io, State, flush_outgoing, deliver_incoming}
use renet_cross.UdpClient.Pump.{
  update, end_update, end_send, take_result, receive, farewell, leave, show_state, send_update,
  confirm, send_generated, send_payload, send_packets, settle, advance, exchange, listen, send_all,
  flush_and_send, set_egress_limit, clear_conditioner, set_max_datagrams_per_update,
}
use renet_cross.UdpClient.Keeps.{
  Call, updates, sends, limits, conditions, bypasses, budgets, step, run,
}
use renet_cross.UdpClient.Silence.{
  Still, ungated, BlindStep, BlindChange, send_packet-Blind, flush_outgoing-Blind,
  deliver_incoming-Blind, take_datagram-Blind,
}

module _ (p : Platform) where
  open p use {nc, rc}
  open nc use {Netcode, Reason, Error, disconnect_reason}

  take_result-Blind : (r : Result IoError (List ℕ × SocketAddr)) → BlindStep p (take_result p r)
  unfolding take_result
  take_result-Blind (err e) s i = (i, refl)
  take_result-Blind (ok (bytes, source)) s i =
      let (kept, same) = take_datagram-Blind p bytes source s i in (kept, ap (λ t. (t, ok tt)) same)

  receive-Blind : BlindStep p (receive p)
  unfolding receive
  receive-Blind s i = take_result-Blind _ (record s { line = record (s.line) { world = _ } }) i

  end_update-Blind : (o : Option Reason) → BlindStep p (end_update p o)
  unfolding end_update reset
  end_update-Blind none s i = (i, refl)
  end_update-Blind (some reason) s i = (reset-IsIdle s.packets i, refl)

  end_send-Blind : (o : Option Reason) → BlindStep p (end_send p o)
  unfolding end_send reset
  end_send-Blind none s i = (i, refl)
  end_send-Blind (some reason) s i = (reset-IsIdle s.packets i, refl)

  farewell-Blind : (r : Netcode × Result Error (SocketAddr × List ℕ)) → BlindChange p (farewell p r)
  unfolding farewell
  farewell-Blind (n, err e) s i = (i, refl)
  farewell-Blind (n, ok (addr, packet)) s i =
      let (kept, same) = send_packet-Blind p packet addr (record s { netcode = n }) i in
      (kept, ap (λ r. r.0) same)

  leave-Blind : BlindChange p (leave p)
  unfolding leave
  leave-Blind =
      Blind.if-Blindly (Still p) (ungated p)
        (λ s. rc.has_disconnect_reason s.client && not (nc.is_disconnected s.netcode))
        (λ s. farewell p (nc.disconnect s.netcode) s) (λ s. s) (λ s. refl)
        (λ s i. farewell-Blind (nc.disconnect s.netcode) s i)
        (Blind.skip-Blindly (Still p) (ungated p))

  send_update-Blind : (r : Netcode × Option (List ℕ × SocketAddr)) → BlindStep p (send_update p r)
  unfolding send_update
  send_update-Blind (n, none) s i = (i, refl)
  send_update-Blind (n, some (packet, addr)) s i =
      send_packet-Blind p packet addr (record s { netcode = n }) i

  settle-Blind : BlindStep p (settle p)
  unfolding settle confirm
  settle-Blind =
      Blind.and_then-Blind (Still p) (ungated p) (λ s. end_update p (disconnect_reason s.netcode) s)
        (λ s. (confirm p s, ok tt)) (λ s i. end_update-Blind (disconnect_reason s.netcode) s i)
        (λ s i. (i, refl))

  advance-Blind : (duration : ℕ) → BlindStep p (advance p duration)
  unfolding advance
  advance-Blind duration =
      Blind.and_then-Blind (Still p) (ungated p)
        (λ s. lift_err io (send_update p (nc.update duration s.netcode) s)) (settle p)
        (Blind.lift_err-Blind (Still p) (ungated p) io
          (λ s. send_update p (nc.update duration s.netcode) s)
          (λ s i. send_update-Blind (nc.update duration s.netcode) s i))
        settle-Blind

  exchange-Blind : (duration : ℕ) → BlindStep p (exchange p duration)
  unfolding exchange
  exchange-Blind duration =
      Blind.and_then-Blind (Still p) (ungated p) (λ s. lift_err io (flush_outgoing p s))
        (λ s. advance p duration (deliver_incoming p s))
        (Blind.lift_err-Blind (Still p) (ungated p) io (flush_outgoing p) (flush_outgoing-Blind p))
        (Blind.after-Blind (Still p) (ungated p) (deliver_incoming p) (advance p duration)
          (deliver_incoming-Blind p) (advance-Blind duration))

  listen-Blind : (duration : ℕ) → BlindStep p (listen p duration)
  unfolding listen
  listen-Blind duration =
      Blind.and_then-Blind (Still p) (ungated p)
        (λ s. lift_err io (receive_with_budget s.max_datagrams_per_update (receive p) s))
        (exchange p duration)
        (Blind.lift_err-Blind (Still p) (ungated p) io
          (λ s. receive_with_budget s.max_datagrams_per_update (receive p) s)
          (λ s i.
            receive_with_budget-Blind (Still p) (ungated p) (receive p) receive-Blind
              s.max_datagrams_per_update s i))
        (exchange-Blind duration)

  pub update-Blind : (duration : ℕ) → BlindStep p (update p duration)
  unfolding update show_state
  update-Blind duration =
      Blind.and_then-Blind (Still p) (ungated p) (λ s. end_update p (disconnect_reason s.netcode) s)
        (λ s. listen p duration (show_state p (leave p s)))
        (λ s i. end_update-Blind (disconnect_reason s.netcode) s i)
        (Blind.after-Blind (Still p) (ungated p) (λ s. show_state p (leave p s)) (listen p duration)
          (Blind.compose-Blindly (Still p) (ungated p) (leave p) (show_state p) leave-Blind
            (λ s i. (i, refl)))
          (listen-Blind duration))

  send_generated-Blind :
      (r : Netcode × Result Error (SocketAddr × List ℕ)) → BlindStep p (send_generated p r)
  unfolding send_generated
  send_generated-Blind (n, err e) s i = (i, refl)
  send_generated-Blind (n, ok (addr, payload)) s i =
      let (kept, same) = send_packet-Blind p payload addr (record s { netcode = n }) i in
      (kept, ap (lift_err io) same)

  send_all-Blind : BlindStep p (send_all p)
  unfolding send_all send_payload
  send_all-Blind s i =
      let (client', packets) = rc.get_packets_to_send s.client in
      Blind.for_each-Blind (Still p) (ungated p) (send_payload p) packets
        (λ x t k. send_generated-Blind (nc.generate_payload_packet x t.netcode) t k)
        (record s { client = client' }) i

  flush_and_send-Blind : BlindStep p (flush_and_send p)
  unfolding flush_and_send
  flush_and_send-Blind =
      Blind.and_then-Blind (Still p) (ungated p) (λ s. lift_err io (flush_outgoing p s))
        (send_all p)
        (Blind.lift_err-Blind (Still p) (ungated p) io (flush_outgoing p) (flush_outgoing-Blind p))
        send_all-Blind

  pub send_packets-Blind : BlindStep p (send_packets p)
  unfolding send_packets
  send_packets-Blind =
      Blind.and_then-Blind (Still p) (ungated p) (λ s. end_send p (disconnect_reason s.netcode) s)
        (flush_and_send p) (λ s i. end_send-Blind (disconnect_reason s.netcode) s i)
        flush_and_send-Blind

  -- Every call but the one that attaches a conditioner.
  abbrev pub Unconditioned : Call p → Type 0
  Unconditioned (conditions control) = ⊥
  Unconditioned _ = Unit {0}

  step-Blindly : (c : Call p) → Unconditioned c → BlindChange p (step p c)
  unfolding step set_egress_limit clear_conditioner set_max_datagrams_per_update detach
  step-Blindly (updates duration) h s i =
      let (kept, same) = update-Blind duration s i in (kept, ap (λ r. r.0) same)
  step-Blindly sends h s i = let (kept, same) = send_packets-Blind s i in (kept, ap (λ r. r.0) same)
  step-Blindly (limits config now) h s i = (i, refl)
  step-Blindly (conditions control) h s i = absurd h
  step-Blindly bypasses h s i = (tt, refl)
  step-Blindly (budgets limit) h s i = (i, refl)

  -- A gate that conditions nothing does not show: with a gate whose conditioning is off, with nothing
  -- queued and no outage, a transport does in any calls that attach no conditioner what it does
  -- without a gate. The datagrams, the budget and the states of renetcode's and renet's clients are
  -- the same.
  pub run-ungated :
      (calls : List (Call p)) (s : State p)
      → All Unconditioned calls
      → Still p s
      → ungated p (run p calls s) ≡ run p calls (ungated p s)
  unfolding run each
  run-ungated [] s h i = refl
  run-ungated (c ∷ calls) s h i =
      let (kept, same) = step-Blindly c h.0 s i in
      run-ungated calls (step p c s) h.1 kept ∙ ap (run p calls) same
