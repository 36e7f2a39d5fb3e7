-- ===== src/ServerConditioner/Quiet.antt =====
-- src/server_conditioner.rs: a handle that conditions nothing.
use renet_cross.Prelude.{
  ℕ, ◌≡◌, refl, inl, inr, Bool-cases, Option-cases, none, false, Bool, min, ◌-◌, duration_sat_add,
  nanos_per_sec, List, [], ◌∷◌, All, ◌==◌, leb, if_cases,
}
use renet_cross.Prelude.Assoc.{get, remove}
use mathlib.Core.Logic.{if_pos, if_neg}
use renet_cross.Float.{F64}
use renet_cross.Conditioner.{Direction}
use renet_cross.Conditioner.Engine.Idle.{Idle, drain_ready-Idle, drain_ready-Emptied}
use renet_cross.ServerConditioner.{
  PeerId, PeerId-discrete, Peer, State, poll, cleanup, retire, expire_all, ids_where,
}
use renet_cross.ServerConditioner.Traffic.{
  drain_peers, drain_at, defer_at, remaining_outage, retire_all, remove_owner, remove_peer,
}

abbrev pub QuietPeers : List (PeerId × Peer) → Type 0
QuietPeers = All (λ e. Idle (e.1).engine)

-- Conditioning is off, there is no outage, and no peer's engine conditions anything.
pub record Quiet (s : State) : Type 0 where
  pub off : s.config.packets.enabled ≡ false
  pub calm : s.outage_until ≡ none
  pub peers : QuietPeers s.peers

remove-QuietPeers :
    (id : PeerId) (m : List (PeerId × Peer))
    → QuietPeers m
    → QuietPeers (remove PeerId-discrete id m)
unfolding remove
remove-QuietPeers id [] q = tt
remove-QuietPeers id ((j, p) ∷ m) q = elim (PeerId-discrete j id) [
  | yes e ↦ rw (if_pos _ e) (remove-QuietPeers id m q.1)
  | no e ↦ rw (if_neg _ e) (q.0, remove-QuietPeers id m q.1)
]

retire-Quiet : (id : PeerId) (s : State) → Quiet s → Quiet (retire id s)
unfolding retire
retire-Quiet id s q = elim (Option-cases (get PeerId-discrete id s.peers)) [
  | inl e ↦ rw (e, retire) q
  | inr (p, e) ↦
      rw (e, retire)
        (record { off = q.off; calm = q.calm; peers = remove-QuietPeers id s.peers q.peers })
]

expire_all-Quiet : (ids : List PeerId) (s : State) → Quiet s → Quiet (expire_all ids s)
unfolding expire_all
expire_all-Quiet [] s q = q
expire_all-Quiet (id ∷ ids) s q =
    let r = retire-Quiet id s q in
    expire_all-Quiet ids _ (record { off = r.off; calm = r.calm; peers = r.peers })

cleanup-Quiet : (s : State) → Quiet s → Quiet (cleanup s)
unfolding cleanup
cleanup-Quiet s q =
    let idle : Peer → Bool = λ peer. leb s.config.idle_timeout (s.now - peer.last_seen) in
    let expired = expire_all (ids_where idle s.peers) s in
    let kept = expire_all-Quiet (ids_where idle s.peers) s q in
    if_cases Quiet (leb s.next_cleanup s.now)
      (record expired {
        next_cleanup = duration_sat_add s.now (min s.config.idle_timeout nanos_per_sec);
      })
      s (λ _. record { off = kept.off; calm = kept.calm; peers = kept.peers }) (λ _. q)

pub poll-Quiet : (time : ℕ) (s : State) → Quiet s → Quiet (poll time s)
unfolding poll
poll-Quiet time s q =
    cleanup-Quiet _ (record { off = q.off; calm = rw q.calm refl; peers = q.peers })

drain_peers-Quiet :
    (owner : ℕ) (d : Direction) (now : ℕ) (m : List (PeerId × Peer))
    → QuietPeers m
    → QuietPeers (drain_peers owner d now none m).0 × ((drain_peers owner d now none m).1 ≡ [])
unfolding drain_peers
drain_peers-Quiet owner d now [] q = (tt, refl)
drain_peers-Quiet owner d now ((id, p) ∷ m) q =
    let rest = drain_peers-Quiet owner d now m q.1 in
    let drain_ready-nothing = (drain_ready-Emptied d now p.engine q.0.emptied).1 in
    elim (Bool-cases (p.owner == owner)) [
      | inl e ↦ rw (e, drain_ready-nothing) ((drain_ready-Idle d now p.engine q.0, rest.0), rest.1)
      | inr e ↦ rw e ((q.0, rest.0), rest.1)
    ]

-- A quiet handle hands nothing over ...
pub drain_at-Quiet :
    (owner : ℕ) (d : Direction) (time : ℕ) (s : State)
    → Quiet s
    → Quiet (drain_at owner d time s).0 × ((drain_at owner d time s).1 ≡ [])
unfolding drain_at remaining_outage
drain_at-Quiet owner d time s q =
    let p = poll-Quiet time s q in
    let (kept, nothing) = drain_peers-Quiet owner d (poll time s).now (poll time s).peers p.peers in
    let quiet : remaining_outage (poll time s) ≡ none = rw p.calm refl in
    rw quiet (record { off = p.off; calm = p.calm; peers = kept }, nothing)

-- ... and takes no packet.
pub defer_at-Quiet :
    (fl : F64) (owner : ℕ) (d : Direction) (id : PeerId) (bytes : List ℕ) (time : ℕ) (s : State)
    → Quiet s
    → Quiet (defer_at fl owner d id bytes time s).0
      × ((defer_at fl owner d id bytes time s).1 ≡ false)
unfolding defer_at
defer_at-Quiet fl owner d id bytes time s q =
    let p = poll-Quiet time s q in rw (p.off, p.calm) (p, refl)

retire_all-Quiet : (ids : List PeerId) (s : State) → Quiet s → Quiet (retire_all ids s)
unfolding retire_all
retire_all-Quiet [] s q = q
retire_all-Quiet (id ∷ ids) s q = retire_all-Quiet ids (retire id s) (retire-Quiet id s q)

pub remove_owner-Quiet : (owner : ℕ) (s : State) → Quiet s → Quiet (remove_owner owner s)
unfolding remove_owner
remove_owner-Quiet owner s q =
    retire_all-Quiet (ids_where (λ peer. peer.owner == owner) s.peers) s q

pub remove_peer-Quiet :
    (owner : ℕ) (id : PeerId) (s : State) → Quiet s → Quiet (remove_peer owner id s)
unfolding remove_peer
remove_peer-Quiet owner id s q =
    if_cases Quiet _ (retire id s) s (λ _. retire-Quiet id s q) (λ _. q)
