-- ===== src/Bootstrap/Activation.antt =====
-- src/bootstrap.rs: `activate_session`, the user data that a connection must show.
use native.Mathlib.Decide.{ℕ_discrete}
use renet_cross.Prelude.{
  ℕ, ◌≡◌, refl, sym, ap, ◌∙◌, ◌⊎◌, inl, inr, arith, true, false, Option, none, some, Option-cases,
  List, ok, is_some,
}
use renet_cross.Prelude.Assoc.{get-retain_key, get-insert_self, get-remove_self}
use renet_cross.Session.{same_text→≡}
use renet_cross.Bootstrap.{
  Details, Registry, pending?, active?, details_of, cleanup_at, activate_at,
}
use renet_cross.Bootstrap.Offers.{activate_session, check_activation}

activate_session-steps :
    (c : ℕ) (given : Option (List ℕ)) (now first second : ℕ) (r : Registry)
    → (activate_session c given now first second r).1 ≡ ok tt
    → let clean = cleanup_at first r in
      (pending? c clean ≡ true)
      × (check_activation now given (details_of c clean) ≡ ok tt)
      × ((activate_at c second clean).1 ≡ true)
      × ((activate_session c given now first second r).0 ≡ (activate_at c second clean).0)
unfolding activate_session
activate_session-steps c given now first second r done = ground arith

activate_at-true :
    (c now : ℕ) (r : Registry)
    → (activate_at c now r).1 ≡ true
    → let r' = (activate_at c now r).0 in (active? c r' ≡ true) × (pending? c r' ≡ false)
unfolding activate_at
activate_at-true c now r done =
    let clean : Registry = cleanup_at now r in
    ground (
      arith,
      get-insert_self ℕ_discrete c tt clean.active,
      get-remove_self ℕ_discrete c clean.pending,
    )

check_activation-shown :
    (now : ℕ) (given : Option (List ℕ)) (d : Details)
    → check_activation now given (some d) ≡ ok tt
    → (d.user_data ≡ none) ⊎ ((d.user_data ≡ given) × (is_some given ≡ true))
unfolding check_activation
check_activation-shown now given d done = elim (Option-cases d.user_data) [
  | inl e ↦ inl e
  | inr (expected, e) ↦ elim (Option-cases given) [
    | inl f ↦ ground (arith, e, f, done)
    | inr (actual, f) ↦
        let same = same_text→≡ actual expected (ground (arith, e, f, done)) in
        inr (e ∙ ap (λ x. some x) (sym same) ∙ sym f, rw f refl)
  ]
]

cleanup_at-pending :
    (c now : ℕ) (r : Registry) → pending? c (cleanup_at now r) ≡ true → pending? c r ≡ true
unfolding cleanup_at
cleanup_at-pending c now r h = get-retain_key ℕ_discrete _ c r.pending h

-- A client that is let in was waiting, and if its session was issued with user data it has shown just
-- that; it is connected then, and waits no more.
pub activate_session-connected :
    (c : ℕ) (given : Option (List ℕ)) (now first second : ℕ) (r : Registry)
    → (activate_session c given now first second r).1 ≡ ok tt
    → let r' = (activate_session c given now first second r).0 in
      (pending? c r ≡ true)
      × (active? c r' ≡ true)
      × (pending? c r' ≡ false)
      × ((details_of c (cleanup_at first r) ≡ none)
          ⊎ ((d : Details) × (details_of c (cleanup_at first r) ≡ some d)
              × ((d.user_data ≡ none) ⊎ ((d.user_data ≡ given) × (is_some given ≡ true)))))
activate_session-connected c given now first second r done =
    let (waits, checked, entered, same) = activate_session-steps c given now first second r done in
    let (on, off) = activate_at-true c second (cleanup_at first r) entered in
    (
      cleanup_at-pending c first r waits,
      rw same on,
      rw same off,
      elim (Option-cases (details_of c (cleanup_at first r))) [
        | inl e ↦ inl e
        | inr (d, e) ↦ inr (d, e, check_activation-shown now given d (rw (← e) checked))
      ],
    )
