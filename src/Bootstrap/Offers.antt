-- ===== src/Bootstrap/Offers.antt =====
-- src/bootstrap.rs: `BootstrapService`, the offer, the activation and the grant of a session.
use renet_cross.Prelude.{
  ℕ, true, not, ◌||◌, Option, none, some, List, length, Result, ok, err, ◌>>=◌, ◌>>◌, refuse, ok_or,
  map_err, ltb, leb, if◌then◌else◌, is_some_and, as_secs,
}
use native.Mathlib.Decide.{ℕ_discrete}
use renet_cross.Prelude.Assoc.{insert}
use renet_cross.Session.{
  Text, same_text, admission_required, invalid_grant, Grant, max_session_token_bytes,
}
use renet_cross.Bootstrap.{
  BootstrapError, body_too_large, unknown_session, auth, Details, Registry, details_of, cleanup_at,
  is_pending_at, activate_at,
}
use renet_cross.Bootstrap.Service.{Host}

abbrev pub max_sdp_body_bytes : ℕ
max_sdp_body_bytes = 65536

module _ (h : Host) where
  -- The checks of an offer on the details of its session.
  unfoldable pub check_claim : ℕ → Option Text → ℕ → Option Details → Result BootstrapError Details
  check_claim client_id token now found = do
    d ← ok_or found (unknown_session client_id)
    refuse (d.offer_claimed || is_some_and d.grant (λ g. leb g.expires_at (as_secs now)))
        (unknown_session client_id)
    map_err auth (h.verify_issued_offer client_id token d.token now)
    ok d

  -- The part of `accept_offer` under the lock: the claim.
  unfoldable pub claim :
      ℕ → Option Text → ℕ → ℕ → Registry → Registry × Result BootstrapError (Unit {0})
  unfolding is_pending_at check_claim
  claim client_id token now monotonic r =
      let (clean, waiting) = is_pending_at client_id monotonic r in
      if not waiting
      then (clean, err (unknown_session client_id))
      else elim (check_claim client_id token now (details_of client_id clean)) [
        | err e ↦ (clean, err e)
        | ok d ↦ (
          record clean {
            details = insert ℕ_discrete client_id (record d { offer_claimed = true }) clean.details;
          },
          ok tt,
        )
      ]

  -- `accept_offer`: the sizes, the claim, and then the transport, which has its own state.
  pub accept_offer :
      {T A : Type 0}
      → (ℕ → Text → T → T × Result BootstrapError A)
      → ℕ
      → Text
      → Option Text
      → ℕ
      → ℕ
      → T × Registry
      → (T × Registry) × Result BootstrapError A
  unfolding claim
  accept_offer accept client_id sdp token now monotonic (t, r) =
      if ltb max_sdp_body_bytes (length sdp)
        || is_some_and token (λ k. ltb max_session_token_bytes (length k))
      then ((t, r), err body_too_large)
      else let (r', verdict) = claim client_id token now monotonic r in
        elim verdict [
          | err e ↦ ((t, r'), err e)
          | ok _ ↦ let (t', outcome) = accept client_id sdp t in ((t', r'), outcome)
        ]

-- What the details of a session demand of the user data that its client connects with.
unfoldable pub check_activation :
    ℕ → Option (List ℕ) → Option Details → Result BootstrapError (Unit {0})
check_activation now given none = ok tt
check_activation now given (some d) =
    refuse (is_some_and d.grant (λ g. leb g.expires_at (as_secs now))) (auth invalid_grant)
    >> elim d.user_data [
      | none ↦ ok tt
      | some expected ↦ ok_or given (auth admission_required) >>= λ actual.
          refuse (not (same_text actual expected)) (auth invalid_grant)
    ]

-- `activate_session`; its two steps on the table read the clock one after the other.
unfoldable pub activate_session :
    ℕ → Option (List ℕ) → ℕ → ℕ → ℕ → Registry → Registry × Result BootstrapError (Unit {0})
unfolding is_pending_at check_activation activate_at
activate_session client_id given now first second r =
    let (clean, waiting) = is_pending_at client_id first r in
    if not waiting
    then (clean, err (unknown_session client_id))
    else elim (check_activation now given (details_of client_id clean)) [
      | err e ↦ (clean, err e)
      | ok _ ↦
          let (r', done) = activate_at client_id second clean in
          (r', if done then ok tt else err (unknown_session client_id))
    ]

pub session_grant : ℕ → ℕ → Registry → Registry × Option Grant
unfolding cleanup_at
session_grant client_id monotonic r =
    let clean = cleanup_at monotonic r in
    (clean, elim (details_of client_id clean) [ none ↦ none | some d ↦ d.grant ])
