-- ===== src/Bootstrap/Openings.antt =====
-- src/bootstrap.rs: what a created session leaves in the table.
use native.Mathlib.Decide.{ℕ_discrete}
use renet_cross.Prelude.{
  ℕ, ◌+◌, ◌-◌, ◌*◌, ◌≡◌, refl, ◌∙◌, ◌⊎◌, inl, inr, arith, true, false, Option, none, some, List, ok,
  as_secs, nanos_per_sec,
}
use renet_cross.Prelude.Assoc.{get, get-insert_self}
use renet_cross.Session.{
  Text-discrete, SessionRequest, Response, Grant, user_data, Issuance, BootstrapConfig,
}
use renet_cross.Bootstrap.{
  Details, Registry, pending?, details_of, cleanup_at, try_issue_at, try_next,
}
use renet_cross.Bootstrap.Service.{
  Host, Service, prepare, replay_entry, record_session, enter, open_session, allocate,
  create_session,
}
use renet_cross.Bootstrap.Orderly.{try_issue_at-ok}

record_session-found :
    (c : ℕ) (d : Details) (entry : Option (List ℕ × ℕ)) (r : Registry)
    → (pending? c (record_session c d entry r) ≡ pending? c r)
      × (details_of c (record_session c d entry r) ≡ some d)
unfolding record_session
record_session-found c d none r = (refl, get-insert_self ℕ_discrete c d r.details)
record_session-found c d (some (key, expires)) r = (refl, get-insert_self ℕ_discrete c d r.details)

record_session-used :
    (c : ℕ) (d : Details) (key : List ℕ) (expires : ℕ) (r : Registry)
    → get Text-discrete key (record_session c d (some (key, expires)) r).used_grants ≡ some expires
unfolding record_session
record_session-used c d key expires r = get-insert_self Text-discrete key expires r.used_grants

module _ (h : Host) where
  -- What a call that made a session went through.
  pub create_session-entered :
      (request : SessionRequest) (now monotonic : ℕ) (s : Service) (response : Response)
      → (create_session h request now monotonic s).1 ≡ ok response
      → let clean = cleanup_at monotonic s.registry in
        let issued = try_issue_at s.next_id monotonic clean in
        (d : Details) × (entry : Option (List ℕ × ℕ)) × (prepare h request now monotonic s.next_id
            s.config clean
          ≡ ok (response, d, entry))
        × (issued.1 ≡ ok tt)
        × ((create_session h request now monotonic s).0 ≡ record s {
          next_id = s.next_id + 1;
          registry = record_session s.next_id d entry issued.0;
        })
  unfolding create_session allocate open_session enter try_next
  create_session-entered request now monotonic s response done = ground arith

  prepare-details :
      (request : SessionRequest) (now monotonic c : ℕ) (config : BootstrapConfig) (r : Registry)
      (response : Response) (d : Details) (entry : Option (List ℕ × ℕ))
      → prepare h request now monotonic c config r ≡ ok (response, d, entry)
      → (i : Issuance) × (h.issue_session c request now ≡ ok i)
        × (response.client_id ≡ c)
        × (d.offer_claimed ≡ false)
        × (d.token ≡ i.session_token)
        × (d.grant ≡ i.grant)
        × (((i.grant ≡ none) × (d.user_data ≡ none) × (entry ≡ none))
            ⊎ ((g : Grant) × (bytes : List ℕ) × (expires : ℕ) × (i.grant ≡ some g)
                × (user_data g ≡ ok bytes)
                × (d.user_data ≡ some bytes)
                × (entry ≡ some (g.replay_key, expires))
                × (h.instant_add monotonic ((g.expires_at - as_secs now) * nanos_per_sec)
                    ≡ some expires)))
  unfolding prepare replay_entry
  prepare-details request now monotonic c config r response d entry e = ground arith

  -- A session that is made waits under the next identity, which the allocator then leaves behind; its
  -- offer is unclaimed. Its details hold the token and the grant that the policy has issued for this
  -- request and this identity. Without a grant they hold no user data; with one they hold the grant's
  -- user data, and the grant's key is used up until the grant ends.
  pub create_session-opened :
      (request : SessionRequest) (now monotonic : ℕ) (s : Service) (response : Response)
      → (create_session h request now monotonic s).1 ≡ ok response
      → let s' = (create_session h request now monotonic s).0 in
        (i : Issuance) × (d : Details) × (h.issue_session s.next_id request now ≡ ok i)
        × (response.client_id ≡ s.next_id)
        × (s'.next_id ≡ s.next_id + 1)
        × (pending? s.next_id s'.registry ≡ true)
        × (details_of s.next_id s'.registry ≡ some d)
        × (d.offer_claimed ≡ false)
        × (d.token ≡ i.session_token)
        × (d.grant ≡ i.grant)
        × (((i.grant ≡ none) × (d.user_data ≡ none))
            ⊎ ((g : Grant) × (bytes : List ℕ) × (expires : ℕ) × (i.grant ≡ some g)
                × (user_data g ≡ ok bytes)
                × (d.user_data ≡ some bytes)
                × (h.instant_add monotonic ((g.expires_at - as_secs now) * nanos_per_sec)
                    ≡ some expires)
                × (get Text-discrete g.replay_key s'.registry.used_grants ≡ some expires)))
  create_session-opened request now monotonic s response done =
      let (d, entry, good, waiting, after) =
        create_session-entered request now monotonic s response done in
      let clean : Registry = cleanup_at monotonic s.registry in
      let r : Registry = (try_issue_at s.next_id monotonic clean).0 in
      let (i, issued, same, fresh, token, grant, kinds) =
        prepare-details request now monotonic s.next_id s.config clean response d entry good in
      let (waits, shrunk, limits) = try_issue_at-ok s.next_id monotonic clean waiting in
      let (kept, found) = record_session-found s.next_id d entry r in
      rw after (
        i,
        d,
        issued,
        same,
        refl,
        kept ∙ waits,
        found,
        fresh,
        token,
        grant,
        elim kinds [
          | inl (e, f, o) ↦ inl (e, f)
          | inr (g, bytes, expires, e, f, u, o, at) ↦ inr (
            g,
            bytes,
            expires,
            e,
            f,
            u,
            at,
            rw o (record_session-used s.next_id d g.replay_key expires r),
          )
        ],
      )
