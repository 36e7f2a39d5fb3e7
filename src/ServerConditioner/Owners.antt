-- ===== src/ServerConditioner/Owners.antt =====
-- src/server_conditioner.rs: the transports that share a handle stay apart.
use renet_cross.Prelude.{
  ℕ, ◌-◌, ◌<◌, max, ◌≡◌, ◌≢◌, refl, sym, ap, ◌∙◌, ◌⊎◌, inl, inr, true, not, Bool-cases, Option,
  List, [], ◌∷◌, ◌++◌, map, filter, All, ◌==◌, ==_iff, leb, arith,
}
use renet_cross.Prelude.Assoc.{get, remove, get-remove_ne}
use renet_cross.Conditioner.{Direction}
use renet_cross.ServerConditioner.{PeerId, PeerId-discrete, Peer, State, poll}
use renet_cross.ServerConditioner.Expiry.{poll-keeps}
use renet_cross.ServerConditioner.Traffic.{drain_peers, drain_at, remaining_outage}

-- The entry of an identity that belongs to an owner.
abbrev pub Owned : PeerId → ℕ → List (PeerId × Peer) → Type 0
Owned id owner [] = ⊥
Owned id owner ((j, p) ∷ m) = ((j ≡ id) × (p.owner ≡ owner)) ⊎ Owned id owner m

-- The entries of all other owners.
abbrev pub others : ℕ → List (PeerId × Peer) → List (PeerId × Peer)
others owner = filter (λ e. not (e.1.owner == owner))

All-map :
    (P : PeerId × List ℕ → Type 0) (id : PeerId) (packets : List (List ℕ))
    → ((bytes : List ℕ) → P (id, bytes))
    → All P (map (λ bytes. (id, bytes)) packets)
All-map P id [] h = tt
All-map P id (b ∷ packets) h = (h b, All-map P id packets h)

All-append :
    (P : PeerId × List ℕ → Type 0) (xs ys : List (PeerId × List ℕ))
    → All P xs
    → All P ys
    → All P (xs ++ ys)
All-append P [] ys a b = b
All-append P (x ∷ xs) ys a b = (a.0, All-append P xs ys a.1 b)

All-weaken :
    (P Q : PeerId × List ℕ → Type 0) (xs : List (PeerId × List ℕ))
    → ((x : PeerId × List ℕ) → P x → Q x)
    → All P xs
    → All Q xs
All-weaken P Q [] f a = tt
All-weaken P Q (x ∷ xs) f a = (f x a.0, All-weaken P Q xs f a.1)

drain_peers-apart :
    (owner : ℕ) (d : Direction) (now : ℕ) (remaining : Option ℕ) (m : List (PeerId × Peer))
    → let r = drain_peers owner d now remaining m in
      (others owner r.0 ≡ others owner m) × All (λ x. Owned x.0 owner m) r.1
unfolding drain_peers
drain_peers-apart owner d now remaining [] = (refl, tt)
drain_peers-apart owner d now remaining ((id, p) ∷ m) =
    let (same, owned) = drain_peers-apart owner d now remaining m in
    let later =
      All-weaken (λ x. Owned x.0 owner m) (λ x. Owned x.0 owner ((id, p) ∷ m)) _ (λ x h. inr h)
        owned in
    elim (Bool-cases (p.owner == owner)) [
      | inl own ↦ rw own (
        rw own same,
        All-append (λ x. Owned x.0 owner ((id, p) ∷ m)) _ _
            (All-map (λ x. Owned x.0 owner ((id, p) ∷ m)) id _
              (λ bytes. inl (refl, (==_iff p.owner owner).0 own)))
            later,
      )
      | inr other ↦ rw other (rw other (ap (λ q. (id, p) ∷ q) same), later)
    ]

drain_at-polled :
    (owner : ℕ) (d : Direction) (time : ℕ) (s : State)
    → let r = drain_at owner d time s in
      (others owner (r.0).peers ≡ others owner (poll time s).peers)
      × All (λ x. Owned x.0 owner (poll time s).peers) r.1
unfolding drain_at
drain_at-polled owner d time s =
    drain_peers-apart owner d (poll time s).now (remaining_outage (poll time s)) (poll time s).peers

-- An entry is of another identity than `id`; or it is of another owner, and has not been idle for the
-- timeout.
abbrev pub IsSpared : PeerId → ℕ → ℕ → ℕ → PeerId × Peer → Type 0
IsSpared id owner now timeout e =
    (e.0 ≢ id) ⊎ ((e.1.owner ≢ owner) × (now - e.1.last_seen < timeout))

Owned-remove :
    (id j : PeerId) (owner : ℕ) (m : List (PeerId × Peer))
    → Owned id owner (remove PeerId-discrete j m)
    → Owned id owner m
unfolding remove
Owned-remove id j owner [] h = h
Owned-remove id j owner ((k, p) ∷ m) h = ground (arith, Owned-remove id j owner m)

All-remove :
    (P : PeerId × Peer → Type 0) (j : PeerId) (m : List (PeerId × Peer))
    → All P m
    → All P (remove PeerId-discrete j m)
unfolding remove
All-remove P j [] h = tt
All-remove P j ((k, p) ∷ m) h = ground (arith, All-remove P j m)

All-unit : (m : List (PeerId × Peer)) (Q : PeerId × Peer → Type 0) → All (λ e. Q e → Unit {0}) m
All-unit [] Q = tt
All-unit (e ∷ m) Q = (λ _. tt, All-unit m Q)

All-implies :
    (P Q : PeerId × Peer → Type 0) (m : List (PeerId × Peer))
    → ((e : PeerId × Peer) → P e → Q e)
    → All P m
    → All Q m
All-implies P Q [] f a = tt
All-implies P Q (e ∷ m) f a = (f e a.0, All-implies P Q m f a.1)

drain_peers-get :
    (id : PeerId) (owner : ℕ) (d : Direction) (now : ℕ) (remaining : Option ℕ)
    → (m : List (PeerId × Peer)) → All (λ e. (e.0 ≢ id) ⊎ (e.1.owner ≢ owner)) m
    → get PeerId-discrete id (drain_peers owner d now remaining m).0 ≡ get PeerId-discrete id m
unfolding drain_peers get
drain_peers-get id owner d now remaining [] h = refl
drain_peers-get id owner d now remaining ((k, p) ∷ m) h =
    ground (arith, drain_peers-get id owner d now remaining m h.1, h.0)

-- A drain for one owner hands over packets of identities that have an entry of that owner only; and it
-- leaves the entry of any identity as it is, with its queues and counters, if the entries of that
-- identity are of other owners and have not been idle for the timeout. (An entry that has is not spared,
-- whoever's it is: every drain polls the clock, which expires idle peers.)
pub drain_at-apart :
    (owner : ℕ) (d : Direction) (time : ℕ) (s : State) (id : PeerId)
    → All (IsSpared id owner (max time s.now) s.config.idle_timeout) s.peers
    → let r = drain_at owner d time s in
      (get PeerId-discrete id (r.0).peers ≡ get PeerId-discrete id s.peers)
      × All (λ x. Owned x.0 owner s.peers) r.1
unfolding drain_at
drain_at-apart owner d time s id spared =
    let now' = max time s.now in
    let timeout = s.config.idle_timeout in
    let Kept : List (PeerId × Peer) → Type 0 = λ m.
      All (IsSpared id owner now' timeout) m
      × (get PeerId-discrete id m ≡ get PeerId-discrete id s.peers) in
    let polled : Kept (poll time s).peers =
      poll-keeps Kept (λ j. j ≢ id)
        (λ j m ne h. (
          All-remove (IsSpared id owner now' timeout) j m h.0,
          get-remove_ne PeerId-discrete j id m (λ e. ne (sym e)) ∙ h.1,
        ))
        time s
        (All-implies (IsSpared id owner now' timeout)
          (λ e. leb timeout (now' - e.1.last_seen) ≡ true → e.0 ≢ id) s.peers
          (λ e h late. elim h [ inl ne ↦ ne | inr k ↦ ground (arith, late, k) ]) spared)
        (spared, refl) in
    let owned : (x : PeerId × List ℕ)
        → Owned x.0 owner (poll time s).peers
        → Owned x.0 owner s.peers =
      λ x.
        poll-keeps (λ m. Owned x.0 owner m → Owned x.0 owner s.peers) (λ j. Unit {0})
          (λ j m n h k. h (Owned-remove x.0 j owner m k)) time s
          (All-unit s.peers (λ e. leb timeout (now' - e.1.last_seen) ≡ true)) (λ k. k) in
    (
      drain_peers-get id owner d (poll time s).now (remaining_outage (poll time s))
            (poll time s).peers
            (All-implies (IsSpared id owner now' timeout) (λ e. (e.0 ≢ id) ⊎ (e.1.owner ≢ owner))
              (poll time s).peers (λ e h. elim h [ inl ne ↦ inl ne | inr k ↦ inr k.0 ]) polled.0)
          ∙ polled.1,
      All-weaken (λ x. Owned x.0 owner (poll time s).peers) (λ x. Owned x.0 owner s.peers) _ owned
          (drain_at-polled owner d time s).1,
    )
