-- ===== src/ServerConditioner/Expiry.antt =====
-- src/server_conditioner.rs: what stays in the table of peers, and what does not, when peers go.
use renet_cross.Prelude.{
  ℕ, ◌-◌, max, ◌≡◌, ◌≢◌, refl, sym, subst, ◌⊎◌, inl, inr, Bool, true, Bool-cases, Option, none,
  some, Option-cases, List, [], ◌∷◌, All, ◌==◌, if_cases, leb, if◌then◌else◌, is_some_and,
  u64_sat_add, arith,
}
use renet_cross.Prelude.Assoc.{get, remove, get-remove_self}
use renet_cross.ServerConditioner.{
  PeerId, PeerId-discrete, Peer, State, poll, retire, expire_all, ids_where, cleanup,
}
use renet_cross.ServerConditioner.Traffic.{remove_peer}

retire-peers :
    (id : PeerId) (s : State)
    → ((retire id s).peers ≡ s.peers) ⊎ ((retire id s).peers ≡ remove PeerId-discrete id s.peers)
unfolding retire
retire-peers id s = elim (Option-cases (get PeerId-discrete id s.peers)) [
  | inl e ↦ inl (rw (e, retire) refl)
  | inr (p, e) ↦ inr (rw (e, retire) refl)
]

-- What the removal of every identity in a list keeps of the entries, their expiry keeps.
expire_all-keeps :
    (P : List (PeerId × Peer) → Type 0) (N : PeerId → Type 0)
    → ((j : PeerId) (m : List (PeerId × Peer)) → N j → P m → P (remove PeerId-discrete j m))
    → (ids : List PeerId) (s : State) → All N ids
    → P s.peers
    → P (expire_all ids s).peers
unfolding expire_all
expire_all-keeps P N keep [] s n h = h
expire_all-keeps P N keep (id ∷ ids) s n h =
    let r = retire id s in
    let h' : P r.peers = elim (retire-peers id s) [
      | inl e ↦ subst P (sym e) h
      | inr e ↦ subst P (sym e) (keep id s.peers n.0 h)
    ] in
    expire_all-keeps P N keep ids (record r { expired_peers = u64_sat_add r.expired_peers 1 }) n.1
      h'

-- The identities that a test picks out of the entries.
ids_where-All :
    (test : Peer → Bool) (N : PeerId → Type 0) (m : List (PeerId × Peer))
    → All (λ e. test e.1 ≡ true → N e.0) m
    → All N (ids_where test m)
unfolding ids_where
ids_where-All test N [] h = tt
ids_where-All test N ((id, p) ∷ m) h =
    if_cases (All N) (test p) (id ∷ ids_where test m) (ids_where test m)
      (λ e. (h.0 e, ids_where-All test N m h.1)) (λ _. ids_where-All test N m h.1)

-- What the removal of an idle identity keeps of the entries, a poll keeps.
pub poll-keeps :
    (P : List (PeerId × Peer) → Type 0) (N : PeerId → Type 0)
    → ((j : PeerId) (m : List (PeerId × Peer)) → N j → P m → P (remove PeerId-discrete j m))
    → (time : ℕ) (s : State)
    → All (λ e. leb s.config.idle_timeout (max time s.now - e.1.last_seen) ≡ true → N e.0) s.peers
    → P s.peers
    → P (poll time s).peers
unfolding poll cleanup
poll-keeps P N keep time s n h =
    let now' = max time s.now in
    let until = if is_some_and s.outage_until (λ end. leb end now') then none else s.outage_until in
    let t : State = record s { now = now'; outage_until = until } in
    let idle : Peer → Bool = λ peer. leb s.config.idle_timeout (now' - peer.last_seen) in
    if_cases (λ (r : State). P r.peers) (leb s.next_cleanup now') _ t
      (λ _. expire_all-keeps P N keep (ids_where idle s.peers) t (ids_where-All idle N s.peers n) h)
      (λ _. h)

-- An entry that is not there, or is another owner's.
abbrev pub IsForgotten : ℕ → Option Peer → Type 0
IsForgotten owner none = Unit {0}
IsForgotten owner (some peer) = peer.owner ≢ owner

pub remove_peer-IsForgotten :
    (owner : ℕ) (id : PeerId) (s : State)
    → IsForgotten owner (get PeerId-discrete id (remove_peer owner id s).peers)
unfolding remove_peer retire
remove_peer-IsForgotten owner id s = elim (Option-cases (get PeerId-discrete id s.peers)) [
  | inl e ↦ rw (e, remove_peer, e) tt
  | inr (q, e) ↦ elim (Bool-cases (q.owner == owner)) [
    | inl own ↦ rw (e, own, remove_peer, retire, get-remove_self PeerId-discrete id s.peers) tt
    | inr foreign ↦ rw (e, foreign, remove_peer, e) (λ k. ground (arith, foreign, k))
  ]
]
