-- ===== src/Bootstrap/Orderly.antt =====
-- src/bootstrap.rs: what holds of the table of sessions whatever is called, and in which order.
use native.Mathlib.Decide.{ℕ_discrete}
use renet_cross.Prelude.{
  ℕ, ◌≤◌, ◌<◌, ◌≡◌, refl, ◌≢◌, ◌⊎◌, inl, inr, arith, Bool, true, false, Bool-cases, ◌||◌, List,
  length, ok, ltb, leb, is_some,
}
use renet_cross.Prelude.Assoc.{
  get, contains_key, insert, remove, length-retain-le, length-remove-le, length-insert,
  get-retain_key, contains_key-retain, get-insert_self, get-insert_ne, get-remove_self,
  get-remove_ne,
}
use renet_cross.Session.{Text-discrete}
use renet_cross.Bootstrap.{
  Limits, Details, Registry, pending?, active?, details_of, new, with_limits, cleanup_at, is_full,
  try_issue_at, activate_at, deactivate,
}

abbrev has : {V : Type 0} → ℕ → List (ℕ × V) → Bool
has k m = contains_key ℕ_discrete k m

-- No client both waits and is connected, details belong to a client that does one of the two, and
-- the three tables are within their limits.
pub record IsOrderly (r : Registry) : Type 0 where
  pub apart : (k : ℕ) → pending? k r ≡ true → active? k r ≡ false
  pub owned : (k : ℕ) → is_some (details_of k r) ≡ true → (pending? k r || active? k r) ≡ true
  pub pending_bound : length r.pending ≤ r.limits.pending_sessions
  pub active_bound : length r.active ≤ r.limits.active_sessions
  pub grants_bound : length r.used_grants ≤ r.limits.replay_grants

module _ {V : Type 0} where
  has-insert :
      (k j : ℕ) (v : V) (m : List (ℕ × V))
      → has j (insert ℕ_discrete k v m) ≡ true
      → (j ≡ k) ⊎ (has j m ≡ true)
  has-insert k j v m h = elim (ℕ_discrete j k) [
    | yes e ↦ inl e
    | no ne ↦ inr (ground (arith, get-insert_ne ℕ_discrete k j v m ne))
  ]

  insert-has :
      (k j : ℕ) (v : V) (m : List (ℕ × V))
      → (j ≡ k) ⊎ (has j m ≡ true)
      → has j (insert ℕ_discrete k v m) ≡ true
  insert-has k j v m h = elim (ℕ_discrete j k) [
    | yes e ↦ rw e (rw (get-insert_self ℕ_discrete k v m) refl)
    | no ne ↦
        rw (get-insert_ne ℕ_discrete k j v m ne) (elim h [ inl e ↦ absurd (ne e) | inr old ↦ old ])
  ]

  has-remove :
      (k j : ℕ) (m : List (ℕ × V))
      → has j (remove ℕ_discrete k m) ≡ true
      → (j ≢ k) × (has j m ≡ true)
  has-remove k j m h = elim (ℕ_discrete j k) [
    | yes e ↦ ground (arith, e, get-remove_self ℕ_discrete k m)
    | no ne ↦ (ne, ground (arith, get-remove_ne ℕ_discrete k j m ne))
  ]

  remove-has : (k j : ℕ) (m : List (ℕ × V)) → j ≢ k → has j (remove ℕ_discrete k m) ≡ has j m
  remove-has k j m ne = rw (get-remove_ne ℕ_discrete k j m ne) refl

pub cleanup_at-IsOrderly : (now : ℕ) (r : Registry) → IsOrderly r → IsOrderly (cleanup_at now r)
unfolding cleanup_at
cleanup_at-IsOrderly now r v = record {
  apart = λ k h. v.apart k (get-retain_key ℕ_discrete _ k r.pending h);
  owned = λ k h. (contains_key-retain ℕ_discrete _ k r.details h).1;
  pending_bound = omega (arith, v.pending_bound, length-retain-le ℕ_discrete _ r.pending);
  active_bound = v.active_bound;
  grants_bound = omega (arith, v.grants_bound, length-retain-le Text-discrete _ r.used_grants);
}

pub deactivate-IsOrderly :
    (client_id : ℕ) (r : Registry) → IsOrderly r → IsOrderly (deactivate client_id r)
unfolding deactivate
deactivate-IsOrderly c r v = record {
  apart = λ k h.
      let (ne, old) = has-remove c k r.pending h in
      rw (get-remove_ne ℕ_discrete c k r.active ne) (v.apart k old);
  owned = λ k h.
      let (ne, old) = has-remove c k r.details h in
      rw (get-remove_ne ℕ_discrete c k r.active ne, get-remove_ne ℕ_discrete c k r.pending ne)
        (v.owned k old);
  pending_bound = omega (arith, v.pending_bound, length-remove-le ℕ_discrete c r.pending);
  active_bound = omega (arith, v.active_bound, length-remove-le ℕ_discrete c r.active);
  grants_bound = v.grants_bound;
}

-- A session that waits in a table with room for it.
pub waiting-IsOrderly :
    (c now : ℕ) (r : Registry)
    → IsOrderly r
    → is_full r ≡ false
    → active? c r ≡ false
    → IsOrderly (record r { pending = insert ℕ_discrete c now r.pending })
unfolding is_full
waiting-IsOrderly c now r v room free = record {
  apart =
      λ k h. elim (has-insert c k now r.pending h) [ inl e ↦ rw e free | inr old ↦ v.apart k old ];
  owned = λ k h. elim (Bool-cases (active? k r)) [
    | inl on ↦ ground (arith, on)
    | inr off ↦
        let old : has k r.pending ≡ true = ground (arith, off, v.owned k h) in
        ground (arith, insert-has c k now r.pending (inr old))
  ];
  pending_bound = ground (arith, room, length-insert ℕ_discrete c now r.pending);
  active_bound = v.active_bound;
  grants_bound = v.grants_bound;
}

pub try_issue_at-IsOrderly :
    (c now : ℕ) (r : Registry) → IsOrderly r → IsOrderly (try_issue_at c now r).0
unfolding try_issue_at
try_issue_at-IsOrderly c now r v =
    let clean = cleanup_at now r in
    let v' = cleanup_at-IsOrderly now r v in
    elim (Bool-cases (is_full clean)) [
      | inl full ↦ rw full v'
      | inr room ↦ rw room (elim (Bool-cases (pending? c clean || active? c clean)) [
        | inl known ↦ rw known v'
        | inr fresh ↦ rw fresh (waiting-IsOrderly c now clean v' room (ground (arith, fresh)))
      ])
    ]

-- A waiting session that becomes a connection, while there is room for one.
connected-IsOrderly :
    (c : ℕ) (r : Registry)
    → IsOrderly r
    → length r.active < r.limits.active_sessions
    → IsOrderly (record r {
      pending = remove ℕ_discrete c r.pending;
      active = insert ℕ_discrete c tt r.active;
    })
connected-IsOrderly c r v room = record {
  apart = λ k h.
      let (ne, old) = has-remove c k r.pending h in
      rw (get-insert_ne ℕ_discrete c k tt r.active ne) (v.apart k old);
  owned = λ k h. elim (ℕ_discrete k c) [
    | yes e ↦ ground (arith, insert-has c k tt r.active (inl e))
    | no ne ↦
        rw (get-insert_ne ℕ_discrete c k tt r.active ne, get-remove_ne ℕ_discrete c k r.pending ne)
          (v.owned k h)
  ];
  pending_bound = omega (arith, v.pending_bound, length-remove-le ℕ_discrete c r.pending);
  active_bound = ground (arith, length-insert ℕ_discrete c tt r.active);
  grants_bound = v.grants_bound;
}

pub activate_at-IsOrderly :
    (c now : ℕ) (r : Registry) → IsOrderly r → IsOrderly (activate_at c now r).0
unfolding activate_at
activate_at-IsOrderly c now r v =
    let clean = cleanup_at now r in
    let v' = cleanup_at-IsOrderly now r v in
    elim (Bool-cases (leb clean.limits.active_sessions (length clean.active))) [
      | inl full ↦ rw full v'
      | inr room ↦ rw room (elim (Bool-cases (pending? c clean)) [
        | inr other ↦ rw other v'
        | inl waiting ↦ rw waiting (connected-IsOrderly c clean v' (ground (arith, room)))
      ])
    ]

-- New details of a session that waits or is connected.
pub details-IsOrderly :
    (c : ℕ) (d : Details) (r : Registry)
    → IsOrderly r
    → (pending? c r || active? c r) ≡ true
    → IsOrderly (record r { details = insert ℕ_discrete c d r.details })
details-IsOrderly c d r v known = record {
  apart = v.apart;
  owned =
      λ k h. elim (has-insert c k d r.details h) [ inl e ↦ rw e known | inr old ↦ v.owned k old ];
  pending_bound = v.pending_bound;
  active_bound = v.active_bound;
  grants_bound = v.grants_bound;
}

-- An issued session waits, and the table of used grants has not grown.
pub try_issue_at-ok :
    (c now : ℕ) (r : Registry)
    → (try_issue_at c now r).1 ≡ ok tt
    → let r' = (try_issue_at c now r).0 in
      (pending? c r' ≡ true)
      × (length r'.used_grants ≤ length r.used_grants)
      × (r'.limits ≡ r.limits)
unfolding try_issue_at cleanup_at
try_issue_at-ok c now r e = ground (
  arith,
  get-insert_self ℕ_discrete c now (cleanup_at now r).pending,
  length-retain-le Text-discrete (λ _ expires. ltb now expires) r.used_grants,
)

-- The grant that a new session uses up.
pub grant-IsOrderly :
    (key : List ℕ) (expires : ℕ) (r : Registry)
    → IsOrderly r
    → length r.used_grants < r.limits.replay_grants
    → IsOrderly (record r { used_grants = insert Text-discrete key expires r.used_grants })
grant-IsOrderly key expires r v room = record {
  apart = v.apart;
  owned = v.owned;
  pending_bound = v.pending_bound;
  active_bound = v.active_bound;
  grants_bound = ground (arith, length-insert Text-discrete key expires r.used_grants);
}

pub with_limits-IsOrderly :
    (ttl : ℕ) (limits : Limits) (r : Registry) → with_limits ttl limits ≡ ok r → IsOrderly r
unfolding with_limits new get
with_limits-IsOrderly ttl limits r e =
    let same : r ≡ record (new ttl) { limits = limits } = ground arith in
    rw same (record {
      apart = λ k h. refl;
      owned = λ k h. cc;
      pending_bound = omega arith;
      active_bound = omega arith;
      grants_bound = omega arith;
    })
