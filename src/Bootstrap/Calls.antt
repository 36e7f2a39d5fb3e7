-- ===== src/Bootstrap/Calls.antt =====
-- src/bootstrap.rs: histories of calls on one service, and the table of sessions after each.
use renet_cross.Prelude.{
  ℕ, ◌<◌, ◌≡◌, refl, inl, inr, arith, true, false, Bool-cases, Option, none, some, Option-cases,
  List, [], ◌∷◌, length, Result-cases, is_some, ok,
}
use renet_cross.Prelude.Assoc.{contains_key, insert}
use native.Mathlib.Decide.{ℕ_discrete}
use renet_cross.Session.{
  Text, Text-discrete, SessionRequest, Response, validate_request, BootstrapConfig,
}
use renet_cross.Bootstrap.{
  Limits, Details, Registry, with_limits, pending?, details_of, cleanup_at, is_full, try_issue_at,
  deactivate, try_next,
}
use renet_cross.Bootstrap.Service.{
  Host, Service, prepare, replay_entry, record_session, enter, open_session, allocate,
  create_session,
}
use renet_cross.Bootstrap.Offers.{claim, check_claim, activate_session, check_activation}
use renet_cross.Bootstrap.Orderly.{
  IsOrderly, cleanup_at-IsOrderly, try_issue_at-IsOrderly, activate_at-IsOrderly,
  deactivate-IsOrderly, with_limits-IsOrderly, try_issue_at-ok, grant-IsOrderly, details-IsOrderly,
}

-- The calls of the service, each with what it reads of the clocks.
pub data Call : Type 0 where
  creates : SessionRequest → ℕ → ℕ → Call
  claims : ℕ → Option Text → ℕ → ℕ → Call
  activates : ℕ → Option (List ℕ) → ℕ → ℕ → ℕ → Call
  disconnects : ℕ → Call
  cleans : ℕ → Call

abbrev pub with_registry : Service → Registry → Service
with_registry s r = record s { registry = r }

module _ (h : Host) where
  unfoldable pub step : Call → Service → Service
  step (creates request now monotonic) s = (create_session h request now monotonic s).0
  step (claims client_id token now monotonic) s =
      with_registry s (claim h client_id token now monotonic s.registry).0
  step (activates client_id given now first second) s =
      with_registry s (activate_session client_id given now first second s.registry).0
  step (disconnects client_id) s = with_registry s (deactivate client_id s.registry)
  step (cleans monotonic) s = with_registry s (cleanup_at monotonic s.registry)

  unfoldable pub run : List Call → Service → Service
  run [] s = s
  run (c ∷ cs) s = run cs (step c s)

  -- A grant that is to be recorded was not used before, and there is room for it.
  pub prepare-entry :
      (request : SessionRequest) (now monotonic client_id : ℕ) (config : BootstrapConfig)
      (r : Registry) (response : Response) (d : Details) (key : List ℕ) (expires : ℕ)
      → prepare h request now monotonic client_id config r ≡ ok (response, d, some (key, expires))
      → (contains_key Text-discrete key r.used_grants ≡ false)
        × (length r.used_grants < r.limits.replay_grants)
  unfolding prepare replay_entry
  prepare-entry request now monotonic client_id config r response d key expires e = ground arith

record_session-IsOrderly :
    (c : ℕ) (d : Details) (entry : Option (List ℕ × ℕ)) (r : Registry)
    → IsOrderly r
    → pending? c r ≡ true
    → (is_some entry ≡ true → length r.used_grants < r.limits.replay_grants)
    → IsOrderly (record_session c d entry r)
unfolding record_session
record_session-IsOrderly c d none r v waits room = details-IsOrderly c d r v (ground arith)
record_session-IsOrderly c d (some (key, expires)) r v waits room =
    grant-IsOrderly key expires (record r { details = insert ℕ_discrete c d r.details })
      (details-IsOrderly c d r v (ground arith)) (room refl)

module _ (h : Host) where
  entry_room :
      (request : SessionRequest) (now monotonic client_id : ℕ) (config : BootstrapConfig)
      (r : Registry) (response : Response) (d : Details) (entry : Option (List ℕ × ℕ))
      → prepare h request now monotonic client_id config r ≡ ok (response, d, entry)
      → is_some entry ≡ true
      → length r.used_grants < r.limits.replay_grants
  entry_room request now monotonic client_id config r response d none e used = cc
  entry_room request now monotonic client_id config r response d (some (key, expires)) e used =
      (prepare-entry h request now monotonic client_id config r response d key expires e).1

  enter-IsOrderly :
      (c monotonic : ℕ) (response : Response) (d : Details) (entry : Option (List ℕ × ℕ))
      (r : Registry)
      → IsOrderly r
      → (is_some entry ≡ true → length r.used_grants < r.limits.replay_grants)
      → IsOrderly (enter h c monotonic (response, d, entry) r).0
  unfolding enter
  enter-IsOrderly c monotonic response d entry r v room =
      let v' = try_issue_at-IsOrderly c monotonic r v in
      elim (Result-cases (try_issue_at c monotonic r).1) [
        | inr (e, bad) ↦ rw (bad, enter) v'
        | inl (_, good) ↦
            let (waits, shrunk, same) = try_issue_at-ok c monotonic r good in
            rw (good, enter)
              (record_session-IsOrderly c d entry (try_issue_at c monotonic r).0 v' waits
                (λ used. ground (arith, room used, shrunk, same)))
      ]

  open_session-IsOrderly :
      (request : SessionRequest) (now monotonic c : ℕ) (config : BootstrapConfig) (r : Registry)
      → IsOrderly r
      → IsOrderly (open_session h request now monotonic c config r).0
  unfolding open_session
  open_session-IsOrderly request now monotonic c config r v =
      elim (Result-cases (prepare h request now monotonic c config r)) [
        | inr (e, bad) ↦ rw (bad, open_session) v
        | inl ((response, d, entry), good) ↦
            rw (good, open_session)
              (enter-IsOrderly c monotonic response d entry r v
                (entry_room request now monotonic c config r response d entry good))
      ]

  allocate-IsOrderly :
      (request : SessionRequest) (now monotonic : ℕ) (s : Service)
      → IsOrderly s.registry
      → IsOrderly (allocate h request now monotonic s).0.registry
  unfolding allocate
  allocate-IsOrderly request now monotonic s v = elim (Option-cases (try_next s.next_id).1) [
    | inl e ↦ rw (e, allocate) v
    | inr (c, e) ↦
        rw (e, allocate) (open_session-IsOrderly request now monotonic c s.config s.registry v)
  ]

  create_session-IsOrderly :
      (request : SessionRequest) (now monotonic : ℕ) (s : Service)
      → IsOrderly s.registry
      → IsOrderly (create_session h request now monotonic s).0.registry
  unfolding create_session
  create_session-IsOrderly request now monotonic s v =
      let clean : Registry = cleanup_at monotonic s.registry in
      let v' = cleanup_at-IsOrderly monotonic s.registry v in
      elim (Result-cases (validate_request request)) [
        | inr (e, bad) ↦ rw (bad, create_session) v
        | inl (_, good) ↦
            rw (good, create_session)
              (elim (Bool-cases (is_full clean)) [
                | inl full ↦ rw full v'
                | inr room ↦
                    rw room
                      (allocate-IsOrderly request now monotonic (record s { registry = clean }) v')
              ])
      ]

  claim-IsOrderly :
      (c : ℕ) (token : Option Text) (now monotonic : ℕ) (r : Registry)
      → IsOrderly r
      → IsOrderly (claim h c token now monotonic r).0
  unfolding claim
  claim-IsOrderly c token now monotonic r v =
      let clean : Registry = cleanup_at monotonic r in
      let v' = cleanup_at-IsOrderly monotonic r v in
      elim (Bool-cases (pending? c clean)) [
        | inr gone ↦ rw (gone, claim) v'
        | inl waits ↦
            rw (waits, claim)
              (elim (Result-cases (check_claim h c token now (details_of c clean))) [
                | inr (e, bad) ↦ rw bad v'
                | inl (d, good) ↦ rw good (details-IsOrderly c _ clean v' (ground (arith, waits)))
              ])
      ]

  activate_session-IsOrderly :
      (c : ℕ) (given : Option (List ℕ)) (now first second : ℕ) (r : Registry)
      → IsOrderly r
      → IsOrderly (activate_session c given now first second r).0
  unfolding activate_session
  activate_session-IsOrderly c given now first second r v =
      let clean : Registry = cleanup_at first r in
      let v' = cleanup_at-IsOrderly first r v in
      elim (Bool-cases (pending? c clean)) [
        | inr gone ↦ rw (gone, activate_session) v'
        | inl waits ↦
            rw (waits, activate_session)
              (elim (Result-cases (check_activation now given (details_of c clean))) [
                | inr (e, bad) ↦ rw bad v'
                | inl (_, good) ↦ rw good (activate_at-IsOrderly c second clean v')
              ])
      ]

  step-IsOrderly : (c : Call) (s : Service) → IsOrderly s.registry → IsOrderly (step h c s).registry
  unfolding step create_session
  step-IsOrderly (creates request now monotonic) s v =
      create_session-IsOrderly request now monotonic s v
  step-IsOrderly (claims c token now monotonic) s v =
      claim-IsOrderly c token now monotonic s.registry v
  step-IsOrderly (activates c given now first second) s v =
      activate_session-IsOrderly c given now first second s.registry v
  step-IsOrderly (disconnects c) s v = deactivate-IsOrderly c s.registry v
  step-IsOrderly (cleans monotonic) s v = cleanup_at-IsOrderly monotonic s.registry v

  run-keeps :
      (cs : List Call) (s : Service) → IsOrderly s.registry → IsOrderly (run h cs s).registry
  unfolding run
  run-keeps [] s v = v
  run-keeps (c ∷ cs) s v = run-keeps cs (step h c s) (step-IsOrderly c s v)

  -- From a new table of positive limits, whatever calls are made, with whatever clocks, policy and
  -- requests: no client both waits and is connected, there are details only of clients that do one of
  -- the two, and the waiting, the connected and the used grants stay within the limits.
  pub run-IsOrderly :
      (ttl : ℕ) (limits : Limits) (r : Registry) (next_id : ℕ) (config : BootstrapConfig)
      (cs : List Call)
      → with_limits ttl limits ≡ ok r
      → IsOrderly (run h cs (record { next_id = next_id; registry = r; config = config })).registry
  run-IsOrderly ttl limits r next_id config cs e =
      run-keeps cs _ (with_limits-IsOrderly ttl limits r e)
