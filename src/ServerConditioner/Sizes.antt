-- ===== src/ServerConditioner/Sizes.antt =====
-- src/server_conditioner.rs: what each step on the table does to the number of peers.
use renet_cross.Prelude.{
  ℕ, zero, suc, ◌+◌, ◌-◌, ◌≤◌, ◌<◌, ◌≡◌, refl, ◌∙◌, ◌⊎◌, inl, inr, arith, true, false, Bool-cases,
  Option, List, [], ◌∷◌, length, leb,
}
use renet_cross.Prelude.Assoc.{get, contains_key, remove, length-remove-le}
use renet_cross.Conditioner.{Direction}
use renet_cross.ServerConditioner.{
  PeerId, PeerId-discrete, Peer, State, retire, map_peers, expire_all, cleanup, ids_where, poll,
  oldest, evict,
}
use renet_cross.ServerConditioner.Traffic.{place, update_peer, retire_all, drain_peers}

-- The state holds no more peers than another, under the same settings.
abbrev pub Within : State → State → Type 0
Within s' s = (length s'.peers ≤ length s.peers) × (s'.config ≡ s.config)

length-remove-lt :
    (id : PeerId) (m : List (PeerId × Peer))
    → contains_key PeerId-discrete id m ≡ true
    → length (remove PeerId-discrete id m) < length m
unfolding get remove
length-remove-lt id [] h = cc
length-remove-lt id ((j, p) ∷ m) h =
    ground (arith, length-remove-lt id m, length-remove-le PeerId-discrete id m)

pub retire-Within : (id : PeerId) (s : State) → Within (retire id s) s
unfolding retire
retire-Within id s = ground (arith, length-remove-le PeerId-discrete id s.peers)

expire_all-Within : (ids : List PeerId) (s : State) → Within (expire_all ids s) s
unfolding expire_all
expire_all-Within [] s = (omega arith, refl)
expire_all-Within (id ∷ ids) s =
    let (fewer, same) = retire-Within id s in
    let (less, kept) = expire_all-Within ids _ in (omega (arith, fewer, less), kept ∙ same)

cleanup-Within : (s : State) → Within (cleanup s) s
unfolding cleanup
cleanup-Within s = elim (Bool-cases (leb s.next_cleanup s.now)) [
  | inl e ↦
      rw (e, cleanup)
        (expire_all-Within
          (ids_where (λ peer. leb s.config.idle_timeout (s.now - peer.last_seen)) s.peers) s)
  | inr e ↦ rw (e, cleanup) (omega arith, refl)
]

pub poll-Within : (time : ℕ) (s : State) → Within (poll time s) s
unfolding poll
poll-Within time s = cleanup-Within _

pub retire_all-Within : (ids : List PeerId) (s : State) → Within (retire_all ids s) s
unfolding retire_all
retire_all-Within [] s = (omega arith, refl)
retire_all-Within (id ∷ ids) s =
    let (fewer, same) = retire-Within id s in
    let (less, kept) = retire_all-Within ids (retire id s) in
    (omega (arith, fewer, less), kept ∙ same)

oldest-listed :
    (best : PeerId) (seen : ℕ) (m : List (PeerId × Peer))
    → (oldest best seen m ≡ best) ⊎ (contains_key PeerId-discrete (oldest best seen m) m ≡ true)
unfolding oldest get
oldest-listed best seen [] = inl refl
oldest-listed best seen ((id, peer) ∷ m) =
    ground (arith, oldest-listed id peer.last_seen m, oldest-listed best seen m)

retire-listed :
    (id : PeerId) (s : State)
    → contains_key PeerId-discrete id s.peers ≡ true
    → length (retire id s).peers < length s.peers
unfolding retire
retire-listed id s h = ground (arith, length-remove-lt id s.peers h, h)

List-cases :
    (m : List (PeerId × Peer))
    → (m ≡ [])
      ⊎ ((id : PeerId) × (peer : Peer) × (rest : List (PeerId × Peer)) × (m ≡ (id, peer) ∷ rest))
List-cases [] = inl refl
List-cases ((id, peer) ∷ m) = inr (id, peer, m, refl)

oldest-has :
    (id : PeerId) (peer : Peer) (m : List (PeerId × Peer))
    → contains_key PeerId-discrete (oldest id peer.last_seen m) ((id, peer) ∷ m) ≡ true
unfolding get
oldest-has id peer m = ground (arith, oldest-listed id peer.last_seen m)

evict-next :
    (n : ℕ) (s : State) (id : PeerId) (peer : Peer) (m : List (PeerId × Peer))
    → leb (length s.peers) s.config.max_peers ≡ false
    → s.peers ≡ (id, peer) ∷ m
    → evict (suc n) s ≡ evict n (retire (oldest id peer.last_seen m) s)
unfolding evict
evict-next n s id peer m many e = rw (many, evict) (simp e)

-- As many rounds as there are peers are enough.
pub evict-bounded :
    (n : ℕ) (s : State)
    → length s.peers ≤ n
    → ((evict n s).config ≡ s.config) × (length (evict n s).peers ≤ s.config.max_peers)
unfolding evict
evict-bounded zero s h = (refl, omega arith)
evict-bounded (suc n) s h = elim (Bool-cases (leb (length s.peers) s.config.max_peers)) [
  | inl few ↦ rw (few, evict) (refl, ground (arith, few))
  | inr many ↦ elim (List-cases s.peers) [
    | inl e ↦ absurd (ground (arith, e, many))
    | inr (id, peer, m, e) ↦
        let victim : PeerId = oldest id peer.last_seen m in
        let listed : contains_key PeerId-discrete victim s.peers ≡ true =
          rw e (oldest-has id peer m) in
        let (same, bound) =
          evict-bounded n (retire victim s) (omega (arith, retire-listed victim s listed)) in
        let kept = (retire-Within victim s).1 in
        rw (evict-next n s id peer m many e) (same ∙ kept, ground (arith, bound, kept))
  ]
]

pub length-map_peers :
    (f : PeerId → Peer → Peer) (m : List (PeerId × Peer)) → length (map_peers f m) ≡ length m
unfolding map_peers
length-map_peers f [] = refl
length-map_peers f ((id, p) ∷ m) = omega (arith, length-map_peers f m)

pub length-place :
    (id : PeerId) (peer : Peer) (m : List (PeerId × Peer)) → length (place id peer m) ≡ length m + 1
unfolding place
length-place id peer [] = refl
length-place id peer ((j, p) ∷ m) = ground (arith, length-place id peer m)

pub length-update_peer :
    (id : PeerId) (f : Peer → Peer) (m : List (PeerId × Peer))
    → length (update_peer id f m) ≡ length m
unfolding update_peer
length-update_peer id f [] = refl
length-update_peer id f ((j, p) ∷ m) = ground (arith, length-update_peer id f m)

pub length-drain_peers :
    (owner : ℕ) (d : Direction) (now : ℕ) (remaining : Option ℕ) (m : List (PeerId × Peer))
    → length (drain_peers owner d now remaining m).0 ≡ length m
unfolding drain_peers
length-drain_peers owner d now remaining [] = refl
length-drain_peers owner d now remaining ((id, p) ∷ m) =
    ground (arith, length-drain_peers owner d now remaining m)
