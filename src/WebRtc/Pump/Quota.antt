-- ===== src/WebRtc/Pump/Quota.antt =====
-- src/server.rs: how many datagrams one call routes.
use native.Mathlib.Decide.{ℕ_discrete}
use mathlib.Core.Option
use renet_cross.Prelude.{
  ℕ, zero, suc, false, ◌+◌, ◌≤◌, ◌≡◌, refl, sym, subst, ap, ◌∙◌, Option, none, some, List, [], ◌∷◌,
  count, length, ◌==◌, if◌then◌else◌, Result, ok, err, if_cases, leb, arith,
}
use renet_cross.Prelude.Assoc.{get, insert, get-insert_self, get-insert_ne}
use renet_cross.Net.{SocketAddr}
use renet_cross.UdpIo.{
  IoError, would_block, interrupted, connection_reset, other_error, addr_not_available,
  network_unreachable, host_unreachable, connection_aborted, connection_refused, timed_out,
  not_connected,
}
use renet_cross.WebRtc.{
  max_datagrams_per_update, max_datagrams_per_peer_per_update, Platform, State,
}
use renet_cross.WebRtc.Pump.{
  Routed, seen, input_client, route_client, route_input, Pass, again, empty, broken, route_result,
  route_one, RouteStep, carry_on, route_loop,
}

seen-raised :
    (client k : ℕ) (counts : List (ℕ × ℕ)) (n : ℕ)
    → Option.get_or (get ℕ_discrete k (insert ℕ_discrete client n counts)) 0
      ≡ (if client == k then n else Option.get_or (get ℕ_discrete k counts) 0)
seen-raised client k counts n = elim (ℕ_discrete k client) [
  | yes e ↦
      subst
        (λ j.
          Option.get_or (get ℕ_discrete j (insert ℕ_discrete client n counts)) 0
          ≡ (if client == j then n else Option.get_or (get ℕ_discrete j counts) 0))
        (sym e)
        (ap (λ o. Option.get_or o 0) (get-insert_self ℕ_discrete client n counts) ∙ ground arith)
  | no ne ↦
      ap (λ o. Option.get_or o 0) (get-insert_ne ℕ_discrete client k n counts ne)
      ∙ ground (arith, ne)
]

module _ (p : Platform) where
  open p use {os, xs}

  -- How a reading of the socket comes from one state to another, with the clients that it has fed a
  -- datagram to on the way, the last one first.
  pub data Feeds (now : ℕ) (s : State p) : List ℕ → State p → Type 0 where
    unfed : Feeds now s [] s
    received :
        {trace : List ℕ} {t : State p} (world : os.World)
        → Feeds now s trace t
        → Feeds now s trace (record t { line = record (t.line) { world = world } })
    fed :
        {trace : List ℕ} {t : State p} (client : ℕ) (source : SocketAddr) (input : xs.Receive)
        → Feeds now s trace t
        → Feeds now s (client ∷ trace) (input_client p client source input now t)

  -- The clients fed so far are those that the counters count, none of them more than 24 times, and at
  -- most `total` in all.
  Quota : ℕ → State p → ℕ → Routed p → Type 0
  Quota now s total r =
      (trace : List ℕ) × Feeds now s trace r.0
      × ((k : ℕ) → (count k trace ≡ seen p k r.1) × (seen p k r.1 ≤ 24))
      × (length trace ≤ total)

  Quota-weaken :
      (now : ℕ) (s : State p) (m n : ℕ) (r : Routed p) → m ≤ n → Quota now s m r → Quota now s n r
  unfolding Quota
  Quota-weaken now s m n r l (trace, feeds, counted, most) =
      (trace, feeds, counted, omega (arith, l, most))

  fed-Quota :
      (now : ℕ) (s : State p) (client : ℕ) (source : SocketAddr) (input : xs.Receive) (total : ℕ)
      → (t : State p) (counts : List (ℕ × ℕ)) → leb 24 (seen p client counts) ≡ false
      → Quota now s total (t, counts)
      → Quota now s (total + 1) (
        input_client p client source input now t,
        insert ℕ_discrete client (seen p client counts + 1) counts,
      )
  unfolding Quota
  fed-Quota now s client source input total t counts room (trace, feeds, counted, most) = (
    client ∷ trace,
    fed client source input feeds,
    λ k. ground (
      arith,
      room,
      (counted k).0,
      (counted k).1,
      (counted client).0,
      (counted client).1,
      seen-raised client k counts (seen p client counts + 1),
    ),
    omega (arith, most),
  )

  route_client-Quota :
      (now : ℕ) (s : State p) (o : Option ℕ) (source : SocketAddr) (input : xs.Receive) (total : ℕ)
      → (r : Routed p) → Quota now s total r
      → Quota now s (total + 1) (route_client p o source input now r)
  unfolding route_client
  route_client-Quota now s none source input total r q =
      Quota-weaken now s total (total + 1) r (omega arith) q
  route_client-Quota now s (some client) source input total (t, counts) q =
      if_cases (Quota now s (total + 1))
        (leb max_datagrams_per_peer_per_update (seen p client counts)) (t, counts) _
        (λ _. Quota-weaken now s total (total + 1) (t, counts) (omega arith) q)
        (λ room. fed-Quota now s client source input total t counts room q)

  route_input-Quota :
      (now : ℕ) (s : State p) (o : Option xs.Receive) (source : SocketAddr) (total : ℕ)
      (r : Routed p)
      → Quota now s total r
      → Quota now s (total + 1) (route_input p o source now r)
  unfolding route_input
  route_input-Quota now s none source total r q =
      Quota-weaken now s total (total + 1) r (omega arith) q
  route_input-Quota now s (some input) source total r q =
      route_client-Quota now s _ source input total r q

  route_result-Quota :
      (now : ℕ) (s : State p) (o : Result IoError (List ℕ × SocketAddr)) (total : ℕ) (r : Routed p)
      → Quota now s total r
      → Quota now s (total + 1) (route_result p o now r).0
  unfolding route_result
  route_result-Quota now s (ok (bytes, source)) total r q =
      route_input-Quota now s (xs.parse_receive source (r.0).receive_destination bytes) source total
        r q
  route_result-Quota now s (err (other_error kind)) total r q =
      Quota-weaken now s total (total + 1) r (omega arith) q
  route_result-Quota now s (err addr_not_available) total r q =
      Quota-weaken now s total (total + 1) r (omega arith) q
  route_result-Quota now s (err network_unreachable) total r q =
      Quota-weaken now s total (total + 1) r (omega arith) q
  route_result-Quota now s (err host_unreachable) total r q =
      Quota-weaken now s total (total + 1) r (omega arith) q
  route_result-Quota now s (err connection_aborted) total r q =
      Quota-weaken now s total (total + 1) r (omega arith) q
  route_result-Quota now s (err connection_refused) total r q =
      Quota-weaken now s total (total + 1) r (omega arith) q
  route_result-Quota now s (err timed_out) total r q =
      Quota-weaken now s total (total + 1) r (omega arith) q
  route_result-Quota now s (err not_connected) total r q =
      Quota-weaken now s total (total + 1) r (omega arith) q
  route_result-Quota now s (err would_block) total r q =
      Quota-weaken now s total (total + 1) r (omega arith) q
  route_result-Quota now s (err interrupted) total r q =
      Quota-weaken now s total (total + 1) r (omega arith) q
  route_result-Quota now s (err connection_reset) total r q =
      Quota-weaken now s total (total + 1) r (omega arith) q

  carry_on-Quota :
      (now : ℕ) (s : State p) (rest : Routed p → RouteStep p) (n total : ℕ)
      → ((r : Routed p) → Quota now s (total + 1) r → Quota now s (total + 1 + n) (rest r).0)
      → (r : Routed p × Pass p) → Quota now s (total + 1) r.0
      → Quota now s (total + 1 + n) (carry_on p rest r).0
  unfolding carry_on
  carry_on-Quota now s rest n total keep (r, again) q = keep r q
  carry_on-Quota now s rest n total keep (r, empty) q =
      Quota-weaken now s (total + 1) (total + 1 + n) r (omega arith) q
  carry_on-Quota now s rest n total keep (r, broken e) q =
      Quota-weaken now s (total + 1) (total + 1 + n) r (omega arith) q

  received-Quota :
      (now : ℕ) (s : State p) (world : os.World) (total : ℕ) (t : State p) (counts : List (ℕ × ℕ))
      → Quota now s total (t, counts)
      → Quota now s total (record t { line = record (t.line) { world = world } }, counts)
  unfolding Quota
  received-Quota now s world total t counts (trace, feeds, counted, most) =
      (trace, received world feeds, counted, most)

  route_loop-raised :
      (now : ℕ) (s : State p) (n total : ℕ) (r : Routed p)
      → Quota now s total r
      → Quota now s (total + n) (route_loop p n now r).0
  unfolding route_loop route_one
  route_loop-raised now s zero total r q = Quota-weaken now s total (total + zero) r (omega arith) q
  route_loop-raised now s (suc n) total (t, counts) q =
      let (world, result) = os.recv_from t.line.world in
      let t' : State p = record t { line = record (t.line) { world = world } } in
      Quota-weaken now s (total + 1 + n) (total + suc n) (route_loop p (suc n) now (t, counts)).0
        (omega arith)
        (carry_on-Quota now s (route_loop p n now) n total (route_loop-raised now s n (total + 1))
          (route_one p now (t, counts))
          (route_result-Quota now s result total (t', counts)
            (received-Quota now s world total t counts q)))

  -- One reading of the socket comes to its final state by receptions and by feeding datagrams to
  -- clients, to each client at most 24 and in all at most 256, however many datagrams wait and whatever
  -- has sent them.
  pub route_loop-Quota :
      (now : ℕ) (s : State p)
      → (trace : List ℕ) × Feeds now s trace
          ((route_loop p max_datagrams_per_update now (s, [])).0).0
        × ((k : ℕ) → count k trace ≤ 24)
        × (length trace ≤ 256)
  unfolding Quota get
  route_loop-Quota now s =
      let (trace, feeds, counted, most) =
        route_loop-raised now s max_datagrams_per_update 0 (s, [])
          ([], unfed, λ k. (refl, omega arith), omega arith) in
      (trace, feeds, λ k. omega (arith, (counted k).0, (counted k).1), most)
