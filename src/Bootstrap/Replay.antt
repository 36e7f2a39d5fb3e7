-- ===== src/Bootstrap/Replay.antt =====
-- src/bootstrap.rs: a grant is used once, whatever happens to the session that it opened.
use renet_cross.Prelude.{
  ℕ, ◌<◌, ◌≡◌, refl, ap, ◌∙◌, ◌≢◌, inl, inr, arith, true, Bool-cases, Option, none, some,
  Option-cases, List, [], ◌∷◌, All, ok, Result-cases, lt→ltb,
}
use renet_cross.Prelude.Assoc.{get, contains_key, get-retain_kept, get-insert_ne}
use renet_cross.Session.{
  Text-discrete, SessionRequest, Response, Grant, Issuance, validate_request, BootstrapConfig,
}
use renet_cross.Bootstrap.{
  Details, Registry, cleanup_at, is_full, try_issue_at, activate_at, deactivate, try_next,
}
use renet_cross.Bootstrap.Service.{
  Host, Service, Opening, prepare, replay_entry, record_session, enter, open_session, allocate,
  create_session,
}
use renet_cross.Bootstrap.Offers.{claim, activate_session}
use renet_cross.Bootstrap.Openings.{create_session-entered}
use renet_cross.Bootstrap.Calls.{
  Call, creates, claims, activates, disconnects, cleans, step, run, prepare-entry,
}

-- The grant with this key is used up until `expires`.
abbrev pub Used : List ℕ → ℕ → Registry → Type 0
Used key expires r = get Text-discrete key r.used_grants ≡ some expires

-- A call whose readings of the monotonic clock all come before a moment.
abbrev pub Before : ℕ → Call → Type 0
Before expires (creates request now monotonic) = monotonic < expires
Before expires (claims client_id token now monotonic) = monotonic < expires
Before expires (activates client_id given now first second) = (first < expires) × (second < expires)
Before expires (disconnects client_id) = Unit
Before expires (cleans monotonic) = monotonic < expires

cleanup_at-Used :
    (key : List ℕ) (expires now : ℕ) (r : Registry)
    → now < expires
    → Used key expires r
    → Used key expires (cleanup_at now r)
unfolding cleanup_at
cleanup_at-Used key expires now r h u =
    get-retain_kept Text-discrete _ key expires r.used_grants u (lt→ltb now expires h)

try_issue_at-Used :
    (key : List ℕ) (expires c now : ℕ) (r : Registry)
    → now < expires
    → Used key expires r
    → Used key expires (try_issue_at c now r).0
unfolding try_issue_at
try_issue_at-Used key expires c now r h u = ground (arith, cleanup_at-Used key expires now r h u)

activate_at-Used :
    (key : List ℕ) (expires c now : ℕ) (r : Registry)
    → now < expires
    → Used key expires r
    → Used key expires (activate_at c now r).0
unfolding activate_at
activate_at-Used key expires c now r h u = ground (arith, cleanup_at-Used key expires now r h u)

-- Another grant that is recorded leaves the entry alone.
record_session-Used :
    (key : List ℕ) (expires c : ℕ) (d : Details) (entry : Option (List ℕ × ℕ)) (r : Registry)
    → ((e : ℕ) → entry ≢ some (key, e))
    → Used key expires r
    → Used key expires (record_session c d entry r)
unfolding record_session
record_session-Used key expires c d none r other u = u
record_session-Used key expires c d (some (k, e)) r other u = elim (Text-discrete key k) [
  | yes same ↦ absurd (other e (rw same refl))
  | no ne ↦ get-insert_ne Text-discrete k key e r.used_grants ne ∙ u
]

module _ (h : Host) where
  open_session-Used :
      (key : List ℕ) (expires : ℕ) (request : SessionRequest) (now monotonic c : ℕ)
      (config : BootstrapConfig) (r : Registry)
      → monotonic < expires
      → Used key expires r
      → Used key expires (open_session h request now monotonic c config r).0
  unfolding open_session enter
  open_session-Used key expires request now monotonic c config r before u =
      elim (Result-cases (prepare h request now monotonic c config r)) [
        | inr (e, bad) ↦ rw (bad, open_session) u
        | inl ((response, d, entry), good) ↦
            rw (good, open_session)
              (let u' = try_issue_at-Used key expires c monotonic r before u in
                elim (Result-cases (try_issue_at c monotonic r).1) [
                  | inr (e, bad) ↦ rw (bad, enter) u'
                  | inl (_, fine) ↦
                      rw (fine, enter)
                        (record_session-Used key expires c d entry (try_issue_at c monotonic r).0
                          (λ e same.
                            let good' = good ∙ ap (λ x. ok (response, d, x)) same in
                            let fresh =
                              (prepare-entry h request now monotonic c config r response d key e
                                good').0 in
                            ground (arith, fresh, u))
                          u')
                ])
      ]

  allocate-Used :
      (key : List ℕ) (expires : ℕ) (request : SessionRequest) (now monotonic : ℕ) (s : Service)
      → monotonic < expires
      → Used key expires s.registry
      → Used key expires (allocate h request now monotonic s).0.registry
  unfolding allocate
  allocate-Used key expires request now monotonic s before u =
      elim (Option-cases (try_next s.next_id).1) [
        | inl e ↦ rw (e, allocate) u
        | inr (c, e) ↦
            rw (e, allocate)
              (open_session-Used key expires request now monotonic c s.config s.registry before u)
      ]

  create_session-Used :
      (key : List ℕ) (expires : ℕ) (request : SessionRequest) (now monotonic : ℕ) (s : Service)
      → monotonic < expires
      → Used key expires s.registry
      → Used key expires (create_session h request now monotonic s).0.registry
  unfolding create_session
  create_session-Used key expires request now monotonic s before u =
      let clean : Registry = cleanup_at monotonic s.registry in
      let u' = cleanup_at-Used key expires monotonic s.registry before u in
      elim (Result-cases (validate_request request)) [
        | inr (e, bad) ↦ rw (bad, create_session) u
        | inl (_, good) ↦
            rw (good, create_session)
              (elim (Bool-cases (is_full clean)) [
                | inl full ↦ rw full u'
                | inr room ↦ rw room (
                    allocate-Used key expires request now monotonic (record s { registry = clean })
                      before u')
              ])
      ]

  step-Used :
      (key : List ℕ) (expires : ℕ) (c : Call) (s : Service)
      → Before expires c
      → Used key expires s.registry
      → Used key expires (step h c s).registry
  unfolding step create_session claim activate_session deactivate
  step-Used key expires (creates request now monotonic) s before u =
      create_session-Used key expires request now monotonic s before u
  step-Used key expires (claims c token now monotonic) s before u =
      ground (arith, cleanup_at-Used key expires monotonic s.registry before u)
  step-Used key expires (activates c given now first second) s before u =
      let u' = cleanup_at-Used key expires first s.registry before.0 u in
      ground
        (arith, u', activate_at-Used key expires c second (cleanup_at first s.registry) before.1 u')
  step-Used key expires (disconnects c) s before u = u
  step-Used key expires (cleans monotonic) s before u =
      cleanup_at-Used key expires monotonic s.registry before u

  run-Used :
      (key : List ℕ) (expires : ℕ) (cs : List Call) (s : Service)
      → All (Before expires) cs
      → Used key expires s.registry
      → Used key expires (run h cs s).registry
  unfolding run
  run-Used key expires [] s before u = u
  run-Used key expires (c ∷ cs) s before u =
      run-Used key expires cs (step h c s) before.1 (step-Used key expires c s before.0 u)

  -- Whatever identity it is asked for, the policy answers this request with a grant of this key.
  abbrev pub Redeems : List ℕ → SessionRequest → ℕ → Type 0
  Redeems key request now =
      (c : ℕ) (i : Issuance)
      → h.issue_session c request now ≡ ok i
      → (g : Grant) × (i.grant ≡ some g) × (g.replay_key ≡ key)

  prepare-refused :
      (key : List ℕ) (request : SessionRequest) (now monotonic c : ℕ) (config : BootstrapConfig)
      (r : Registry) (opening : Opening)
      → contains_key Text-discrete key r.used_grants ≡ true
      → Redeems key request now
      → prepare h request now monotonic c config r ≢ ok opening
  unfolding prepare replay_entry
  prepare-refused key request now monotonic c config r opening used redeems good =
      elim (Result-cases (h.issue_session c request now)) [
        | inr (e, bad) ↦ ground (arith, bad, good)
        | inl (i, issued) ↦
            let (g, kept, same) = redeems c i issued in
            ground (arith, issued, kept, same, used, good)
      ]

  -- Once a grant is used until a moment, no request that the policy answers with it opens a session
  -- before that moment on the monotonic clock, whatever calls are made before it in between: a
  -- disconnection does not free the grant, nor does a failed offer.
  pub run-create_session-replay :
      (key : List ℕ) (expires : ℕ) (request : SessionRequest) (now monotonic : ℕ) (s : Service)
      (cs : List Call) (response : Response)
      → Used key expires s.registry
      → All (Before expires) cs
      → monotonic < expires
      → Redeems key request now
      → (create_session h request now monotonic (run h cs s)).1 ≢ ok response
  run-create_session-replay key expires request now monotonic s cs response u befores before redeems
        done =
      let s' : Service = run h cs s in
      let u' =
        cleanup_at-Used key expires monotonic s'.registry before
          (run-Used key expires cs s befores u) in
      let (d, entry, good, issued, after) =
        create_session-entered h request now monotonic s' response done in
      prepare-refused key request now monotonic s'.next_id s'.config
        (cleanup_at monotonic s'.registry) (response, d, entry) (ground (arith, u')) redeems good
