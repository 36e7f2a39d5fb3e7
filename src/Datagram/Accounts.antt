-- ===== src/Datagram/Accounts.antt =====
-- What every step of a transport keeps of its budget and world, and what the socket says of the datagrams that it is handed, against the totals of the egress budget.
use renet_cross.Prelude.{ℕ, ◌≡◌, ap, ◌∙◌, List, Option, length, Bool-cases, inl, inr}
use renet_cross.Net.{SocketAddr, SocketAddr-discrete, ip_overhead}
use renet_cross.Egress.{EgressConfig}
use renet_cross.Egress.Peers.{admit_at, configure}
use renet_cross.Egress.Peers.Totals.{
  Outcomes, outcomes_of, counted, admit_at-outcomes, complete-outcomes, configure-outcomes,
}
use renet_cross.Datagram.{Os, Line, sent_whole, send_admitted, transmit}

-- The operating system with a count of the sends that took the whole datagram and of the others.
abbrev pub metered : Os → Os
metered os = record {
  World = os.World × Outcomes;
  egress_elapsed = λ w. let (w', t) = os.egress_elapsed w.0 in ((w', w.1), t);
  gate_elapsed = λ w. let (w', t) = os.gate_elapsed w.0 in ((w', w.1), t);
  recv_from = λ w. let (w', r) = os.recv_from w.0 in ((w', w.1), r);
  send_to = λ payload addr w.
      let (w', r) = os.send_to payload addr w.0 in
      ((w', counted (sent_whole (length payload) r) w.1), r);
}

-- A property of budget and world that the steps of a transport keep.
pub record Kept (os : Os) (P : Line SocketAddr os.World → Type 0) : Type 0 where
  pub clock :
      (line : Line SocketAddr os.World)
      → P line
      → P (record line { world = (os.gate_elapsed line.world).0 })
  pub received :
      (line : Line SocketAddr os.World)
      → P line
      → P (record line { world = (os.recv_from line.world).0 })
  pub transmitted :
      (payload : List ℕ) (addr : SocketAddr) (line : Line SocketAddr os.World)
      → P line
      → P (transmit os payload addr line).0
  pub configured :
      (config : Option EgressConfig) (now : ℕ) (line : Line SocketAddr os.World)
      → P line
      → P (record line { egress = (configure config now line.egress).0 })

module _ (os : Os) where
  -- The totals are the counts.
  abbrev pub IsBalanced : Line SocketAddr (metered os).World → Type 0
  IsBalanced line = outcomes_of line.egress.total ≡ line.world.1

  send_admitted-IsBalanced :
      (payload : List ℕ) (addr : SocketAddr) (line : Line SocketAddr (metered os).World)
      → IsBalanced line
      → IsBalanced (send_admitted (metered os) payload addr line).0
  unfolding send_admitted
  send_admitted-IsBalanced payload addr line h =
      let whole = sent_whole (length payload) (os.send_to payload addr line.world.0).1 in
      complete-outcomes SocketAddr-discrete addr payload (ip_overhead addr) whole _ line.egress
      ∙ ap (counted whole) h

  -- Every datagram that the socket is handed is counted once, by what the socket said, and a datagram
  -- that the budget refuses is not.
  pub transmit-IsBalanced :
      (payload : List ℕ) (addr : SocketAddr) (line : Line SocketAddr (metered os).World)
      → IsBalanced line
      → IsBalanced (transmit (metered os) payload addr line).0
  unfolding transmit
  transmit-IsBalanced payload addr line h =
      let (timed, now) = (metered os).egress_elapsed line.world in
      let r = admit_at SocketAddr-discrete addr payload (ip_overhead addr) now line.egress in
      let charged : Line SocketAddr (metered os).World = record { egress = r.0; world = timed } in
      let balanced : IsBalanced charged =
        admit_at-outcomes SocketAddr-discrete addr payload (ip_overhead addr) now line.egress ∙ h in
      elim (Bool-cases r.1) [
        | inl e ↦ rw (e, transmit) (send_admitted-IsBalanced payload addr charged balanced)
        | inr e ↦ rw (e, transmit) balanced
      ]

  pub Kept-IsBalanced : Kept (metered os) IsBalanced
  Kept-IsBalanced = record {
    clock = λ line h. h;
    received = λ line h. h;
    transmitted = transmit-IsBalanced;
    configured = λ config now line h. configure-outcomes config now line.egress ∙ h;
  }
