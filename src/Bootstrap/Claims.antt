-- ===== src/Bootstrap/Claims.antt =====
-- src/bootstrap.rs: one offer for each session.
use native.Mathlib.Decide.{ℕ_discrete}
use renet_cross.Prelude.{
  ℕ, ◌<◌, ◌≡◌, refl, ◌∙◌, ◌≢◌, ◌⊎◌, inl, inr, arith, Bool, true, Bool-cases, Option, none, some,
  List, [], ◌∷◌, ok, err, Result-cases, ◌||◌, ◌==◌, u64_max,
}
use renet_cross.Prelude.Assoc.{
  insert, get-retain_by_key, get-insert_self, get-insert_ne, get-remove_self, get-remove_ne,
}
use renet_cross.Session.{Text, SessionRequest, validate_request, BootstrapConfig}
use renet_cross.Bootstrap.{
  Details, Registry, BootstrapError, unknown_session, pending?, active?, details_of, cleanup_at,
  is_full, try_issue_at, activate_at, deactivate, try_next,
}
use renet_cross.Bootstrap.Service.{
  Host, Service, prepare, record_session, enter, open_session, allocate, create_session,
}
use renet_cross.Bootstrap.Offers.{claim, check_claim, activate_session}
use renet_cross.Bootstrap.Calls.{Call, creates, claims, activates, disconnects, cleans, step, run}

-- There is no session of this identity, or its offer was claimed.
abbrev pub Spent : ℕ → Registry → Type 0
Spent c r =
    (details_of c r ≡ none) ⊎ ((d : Details) × (details_of c r ≡ some d) × (d.offer_claimed ≡ true))

cleanup_at-details :
    (c now : ℕ) (r : Registry)
    → (details_of c (cleanup_at now r) ≡ none) ⊎ (details_of c (cleanup_at now r) ≡ details_of c r)
unfolding cleanup_at
cleanup_at-details c now r =
    let waits : ℕ → Bool = λ id. pending? id (cleanup_at now r) || active? id r in
    let kept = get-retain_by_key ℕ_discrete waits c r.details in
    elim (Bool-cases (waits c)) [
      | inl on ↦ inr (kept ∙ rw on refl)
      | inr off ↦ inl (kept ∙ rw off refl)
    ]

cleanup_at-Spent : (c now : ℕ) (r : Registry) → Spent c r → Spent c (cleanup_at now r)
cleanup_at-Spent c now r v = elim (cleanup_at-details c now r) [
  | inl gone ↦ inl gone
  | inr same ↦ rw same v
]

-- Details that other identities get.
insert-Spent :
    (c k : ℕ) (d : Details) (r : Registry)
    → c ≢ k
    → Spent c r
    → Spent c (record r { details = insert ℕ_discrete k d r.details })
insert-Spent c k d r ne v = rw (get-insert_ne ℕ_discrete k c d r.details ne) v

deactivate-Spent : (c k : ℕ) (r : Registry) → Spent c r → Spent c (deactivate k r)
unfolding deactivate
deactivate-Spent c k r v = elim (ℕ_discrete c k) [
  | yes e ↦ inl (rw e (get-remove_self ℕ_discrete k r.details))
  | no ne ↦ rw (get-remove_ne ℕ_discrete k c r.details ne) v
]

marked-Spent :
    (c k : ℕ) (d : Details) (r : Registry)
    → Spent c r
    → Spent c
        (record r { details = insert ℕ_discrete k (record d { offer_claimed = true }) r.details })
marked-Spent c k d r v = elim (ℕ_discrete c k) [
  | yes e ↦
      rw e (inr (record d { offer_claimed = true }, get-insert_self ℕ_discrete k _ r.details, refl))
  | no ne ↦ insert-Spent c k (record d { offer_claimed = true }) r ne v
]

try_issue_at-Spent : (c k now : ℕ) (r : Registry) → Spent c r → Spent c (try_issue_at k now r).0
unfolding try_issue_at
try_issue_at-Spent c k now r v = ground (arith, cleanup_at-Spent c now r v)

activate_at-Spent : (c k now : ℕ) (r : Registry) → Spent c r → Spent c (activate_at k now r).0
unfolding activate_at
activate_at-Spent c k now r v = ground (arith, cleanup_at-Spent c now r v)

record_session-Spent :
    (c k : ℕ) (d : Details) (entry : Option (List ℕ × ℕ)) (r : Registry)
    → c ≢ k
    → Spent c r
    → Spent c (record_session k d entry r)
unfolding record_session
record_session-Spent c k d none r ne v = insert-Spent c k d r ne v
record_session-Spent c k d (some (key, expires)) r ne v = insert-Spent c k d r ne v

module _ (h : Host) where
  -- A claim changes nothing but for what the clock does, or marks the session.
  claim-cases :
      (c : ℕ) (token : Option Text) (now monotonic : ℕ) (r : Registry)
      → let clean = cleanup_at monotonic r in
        ((e : BootstrapError) × (claim h c token now monotonic r ≡ (clean, err e)))
        ⊎ ((d : Details) × (claim h c token now monotonic r ≡ (
          record clean {
            details = insert ℕ_discrete c (record d { offer_claimed = true }) clean.details;
          },
          ok tt,
        )))
  unfolding claim
  claim-cases c token now monotonic r =
      let clean : Registry = cleanup_at monotonic r in
      elim (Bool-cases (pending? c clean)) [
        | inr gone ↦ inl (unknown_session c, rw (gone, claim) refl)
        | inl waits ↦ elim (Result-cases (check_claim h c token now (details_of c clean))) [
          | inr (e, bad) ↦ inl (e, rw (waits, claim) (rw bad refl))
          | inl (d, good) ↦ inr (d, rw (waits, claim) (rw good refl))
        ]
      ]

  claim-refused :
      (c : ℕ) (token : Option Text) (now monotonic : ℕ) (r : Registry)
      → Spent c (cleanup_at monotonic r)
      → (claim h c token now monotonic r).1 ≡ err (unknown_session c)
  unfolding claim check_claim
  claim-refused c token now monotonic r (inl e) = ground (arith, e)
  claim-refused c token now monotonic r (inr (d, e, f)) = ground (arith, e, f)

  claim-Spent :
      (c k : ℕ) (token : Option Text) (now monotonic : ℕ) (r : Registry)
      → Spent c r
      → Spent c (claim h k token now monotonic r).0
  claim-Spent c k token now monotonic r v =
      let v' = cleanup_at-Spent c monotonic r v in
      elim (claim-cases k token now monotonic r) [
        | inl (e, same) ↦ rw same v'
        | inr (d, same) ↦ rw same (marked-Spent c k d (cleanup_at monotonic r) v')
      ]

  claim-ok :
      (c : ℕ) (token : Option Text) (now monotonic : ℕ) (r : Registry)
      → (claim h c token now monotonic r).1 ≡ ok tt
      → Spent c (claim h c token now monotonic r).0
  claim-ok c token now monotonic r done = elim (claim-cases c token now monotonic r) [
    | inl (e, same) ↦ absurd (ground (arith, done, same))
    | inr (d, same) ↦
        rw same (inr (record d { offer_claimed = true }, get-insert_self ℕ_discrete c _ _, refl))
  ]

  open_session-Spent :
      (request : SessionRequest) (now monotonic c k : ℕ) (config : BootstrapConfig) (r : Registry)
      → c ≢ k
      → Spent c r
      → Spent c (open_session h request now monotonic k config r).0
  unfolding open_session enter
  open_session-Spent request now monotonic c k config r ne v =
      elim (Result-cases (prepare h request now monotonic k config r)) [
        | inr (e, bad) ↦ rw (bad, open_session) v
        | inl ((response, d, entry), good) ↦
            rw (good, open_session)
              (let v' = try_issue_at-Spent c k monotonic r v in
                elim (Result-cases (try_issue_at k monotonic r).1) [
                  | inr (e, bad) ↦ rw (bad, enter) v'
                  | inl (_, fine) ↦
                      rw (fine, enter)
                        (record_session-Spent c k d entry (try_issue_at k monotonic r).0 ne v')
                ])
      ]

  -- An identity that was given out before, and whose session can be claimed no more.
  abbrev pub Closed : ℕ → Service → Type 0
  Closed c s = (c < s.next_id) × Spent c s.registry

  allocate-Closed :
      (request : SessionRequest) (now monotonic c : ℕ) (s : Service)
      → Closed c s
      → Closed c (allocate h request now monotonic s).0
  unfolding allocate try_next
  allocate-Closed request now monotonic c s (older, v) = elim (Bool-cases (s.next_id == u64_max)) [
    | inl last ↦ rw (last, allocate) (older, v)
    | inr more ↦
        rw (more, allocate)
          (
            ground (arith, more, older),
            open_session-Spent request now monotonic c s.next_id s.config s.registry
                (λ e. omega (arith, e, older)) v,
          )
  ]

  create_session-Closed :
      (request : SessionRequest) (now monotonic c : ℕ) (s : Service)
      → Closed c s
      → Closed c (create_session h request now monotonic s).0
  unfolding create_session
  create_session-Closed request now monotonic c s (older, v) =
      let clean : Registry = cleanup_at monotonic s.registry in
      let v' = cleanup_at-Spent c monotonic s.registry v in
      elim (Result-cases (validate_request request)) [
        | inr (e, bad) ↦ rw (bad, create_session) (older, v)
        | inl (_, good) ↦
            rw (good, create_session)
              (elim (Bool-cases (is_full clean)) [
                | inl full ↦ rw full (older, v')
                | inr room ↦ rw room (
                    allocate-Closed request now monotonic c (record s { registry = clean })
                      (older, v'))
              ])
      ]

  activate_session-Spent :
      (c k : ℕ) (given : Option (List ℕ)) (now first second : ℕ) (r : Registry)
      → Spent c r
      → Spent c (activate_session k given now first second r).0
  unfolding activate_session
  activate_session-Spent c k given now first second r v =
      let v' = cleanup_at-Spent c first r v in
      ground (arith, v', activate_at-Spent c k second (cleanup_at first r) v')

  step-Closed : (c : ℕ) (call : Call) (s : Service) → Closed c s → Closed c (step h call s)
  unfolding step create_session
  step-Closed c (creates request now monotonic) s v =
      create_session-Closed request now monotonic c s v
  step-Closed c (claims k token now monotonic) s (older, v) =
      (older, claim-Spent c k token now monotonic s.registry v)
  step-Closed c (activates k given now first second) s (older, v) =
      (older, activate_session-Spent c k given now first second s.registry v)
  step-Closed c (disconnects k) s (older, v) = (older, deactivate-Spent c k s.registry v)
  step-Closed c (cleans monotonic) s (older, v) = (older, cleanup_at-Spent c monotonic s.registry v)

  run-Closed : (c : ℕ) (cs : List Call) (s : Service) → Closed c s → Closed c (run h cs s)
  unfolding run
  run-Closed c [] s v = v
  run-Closed c (call ∷ cs) s v = run-Closed c cs (step h call s) (step-Closed c call s v)

  -- The offer of an identity that was given out is let through once: after it was, whatever calls
  -- follow, another offer for the same identity is refused as unknown, with the right token or
  -- without, be the session waiting, connected, expired or over.
  pub run-claim_once :
      (c : ℕ) (token again : Option Text) (now monotonic now' monotonic' : ℕ) (s : Service)
      (cs : List Call)
      → c < s.next_id
      → (claim h c token now monotonic s.registry).1 ≡ ok tt
      → (claim h c again now' monotonic'
          (run h cs
            (record s { registry = (claim h c token now monotonic s.registry).0 })).registry).1
        ≡ err (unknown_session c)
  run-claim_once c token again now monotonic now' monotonic' s cs older done =
      let first : Service = record s { registry = (claim h c token now monotonic s.registry).0 } in
      let closed = run-Closed c cs first (older, claim-ok c token now monotonic s.registry done) in
      claim-refused c again now' monotonic' (run h cs first).registry
        (cleanup_at-Spent c monotonic' (run h cs first).registry closed.1)
