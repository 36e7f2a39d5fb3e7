-- ===== src/Bootstrap/Service.antt =====
-- src/bootstrap.rs: `BootstrapService` and the creation of a session. A call reads the Unix time and the monotonic clock, which are
-- arguments; the policy, the texts of addresses and numbers, the JSON encoder and the acceptance of
-- an SDP offer are code of others, collected in `Host`.
use renet_cross.Prelude.{
  ℕ, ◌-◌, ◌*◌, Bool, false, not, ◌||◌, Option, none, some, List, [], ◌∷◌, ◌++◌, length, Result, ok,
  err, ◌>>=◌, ◌>>◌, refuse, ok_or, map_err, ltb, leb, ◌==◌, if◌then◌else◌, is_some, is_some_and,
  as_secs, nanos_per_sec,
}
use native.Mathlib.Decide.{ℕ_discrete}
use mathlib.Core.Option
use renet_cross.Prelude.Assoc.{contains_key, insert}
use renet_cross.Net.{SocketAddr}
use renet_cross.Session.{
  Text, Text-discrete, AuthError, admission_required, invalid_grant, replay, SessionRequest,
  validate_request, requests_authentication, Grant, validate_grant, user_data, Issuance, Response,
  BootstrapConfig, max_service_bytes, max_match_bytes, max_encoded_connect_token_bytes,
  max_session_token_bytes,
}
use renet_cross.Bootstrap.{
  try_next, BootstrapError, capacity, body_too_large, auth, Details, Registry, cleanup_at, is_full,
  try_issue_at,
}

pub record Host : Type 0 where
  -- `SessionAuthPolicy::issue_session` and `verify_issued_offer`
  pub issue_session : ℕ → SessionRequest → ℕ → Result AuthError Issuance
  pub verify_issued_offer : ℕ → Option Text → Option Text → ℕ → Result AuthError (Unit {0})
  -- `to_string` of an address and of a number, and the length of the JSON text
  pub show_addr : SocketAddr → Text
  pub show_number : ℕ → Text
  pub json_length : Response → Option ℕ
  -- `Instant::checked_add`
  pub instant_add : ℕ → ℕ → Option ℕ

pub record Service : Type 0 where
  pub next_id : ℕ
  pub registry : Registry
  pub config : BootstrapConfig

abbrev pub max_session_response_bytes : ℕ
max_session_response_bytes = 16384

-- `trim_end_matches('/')`: a slash is dropped when only slashes come after it.
trim_slashes : Text → Text
trim_slashes [] = []
trim_slashes (c ∷ cs) = elim (trim_slashes cs) [
  | [] ↦ if c == 47 then [] else c ∷ []
  | d ∷ ds ↦ c ∷ d ∷ ds
]

-- The bytes of "/api/webrtc/offer/".
abbrev offer_path : Text
offer_path =
    47 ∷ 97 ∷ 112 ∷ 105 ∷ 47 ∷ 119 ∷ 101 ∷ 98 ∷ 114 ∷ 116 ∷ 99 ∷ 47 ∷ 111 ∷ 102 ∷ 102 ∷ 101 ∷ 114
    ∷ 47 ∷ []

-- `BootstrapConfig::offer_url`.
pub offer_url : (ℕ → Text) → BootstrapConfig → ℕ → Text
unfolding trim_slashes
offer_url show_number config client_id =
    trim_slashes config.public_http_base ++ offer_path ++ show_number client_id

-- An issued session whose texts are too long.
pub oversized_issue : BootstrapConfig → Issuance → Bool
oversized_issue config i =
    is_some_and i.security (λ s.
      ltb max_service_bytes (length s.service)
      || ltb max_match_bytes (length s.match_id)
      || ltb max_encoded_connect_token_bytes (length s.udp_connect_token)
      || ltb max_encoded_connect_token_bytes (length s.webrtc_connect_token))
    || ltb 2048 (length config.public_http_base)

-- Security without a grant or a grant without security, or neither where they were asked for.
pub unsettled : SessionRequest → Issuance → Bool
unsettled request i = elim i.security [
  | none ↦ is_some i.grant || requests_authentication request
  | some _ ↦ not (is_some i.grant)
]

-- `issued.grant.as_ref().map(SessionGrant::user_data).transpose()`.
bound_data : Option Grant → Result BootstrapError (Option (List ℕ))
bound_data none = ok none
bound_data (some g) = map_err auth (user_data g) >>= λ data'. ok (some data')

-- The key that the grant uses up, and until when.
unfoldable pub replay_entry :
    (ℕ → ℕ → Option ℕ)
    → Registry
    → ℕ
    → ℕ
    → Option Grant
    → Result BootstrapError (Option (List ℕ × ℕ))
replay_entry instant_add r now monotonic none = ok none
replay_entry instant_add r now monotonic (some g) = do
  map_err auth (validate_grant now g)
  refuse (contains_key Text-discrete g.replay_key r.used_grants) (auth replay)
  refuse (leb r.limits.replay_grants (length r.used_grants)) capacity
  expires ←
      ok_or (instant_add monotonic ((g.expires_at - as_secs now) * nanos_per_sec))
        (auth invalid_grant)
  ok (some (g.replay_key, expires))

-- What a session is opened with: the answer, the details, and the grant that it uses up.
abbrev pub Opening : Type 0
Opening = Response × Details × Option (List ℕ × ℕ)

-- The two steps on the table that follow a successful issue.
unfoldable pub record_session : ℕ → Details → Option (List ℕ × ℕ) → Registry → Registry
record_session client_id d none r = record r { details = insert ℕ_discrete client_id d r.details }
record_session client_id d (some (key, expires)) r = record r {
  details = insert ℕ_discrete client_id d r.details;
  used_grants = insert Text-discrete key expires r.used_grants;
}

module _ (h : Host) where
  answer : BootstrapConfig → ℕ → Issuance → Response
  answer config client_id i = record {
    client_id = client_id;
    udp_addr = h.show_addr config.public_udp_addr;
    webrtc_addr = h.show_addr config.public_webrtc_addr;
    webrtc_offer_url = offer_url h.show_number config client_id;
    session_token = i.session_token;
    security = i.security;
  }

  -- The checks between the issue and the entry in the table, which change nothing.
  unfoldable pub prepare :
      SessionRequest → ℕ → ℕ → ℕ → BootstrapConfig → Registry → Result BootstrapError Opening
  unfolding oversized_issue unsettled bound_data replay_entry answer
  prepare request now monotonic client_id config r = do
    i ← map_err auth (h.issue_session client_id request now)
    refuse (oversized_issue config i) body_too_large
    refuse (is_some_and i.session_token (λ t. ltb max_session_token_bytes (length t)))
        body_too_large
    refuse (unsettled request i) (auth admission_required)
    data' ← bound_data i.grant
    entry ← replay_entry h.instant_add r now monotonic i.grant
    size ← ok_or (h.json_length (answer config client_id i)) body_too_large
    refuse (ltb max_session_response_bytes size) body_too_large
    ok (
      answer config client_id i,
      record {
        token = i.session_token;
        grant = i.grant;
        user_data = data';
        offer_claimed = false;
        expires = Option.map (λ e. e.1) entry;
      },
      entry,
    )

  -- `registry.try_issue_at(client_id, monotonic)?`, then the details and the used grant.
  unfoldable pub enter : ℕ → ℕ → Opening → Registry → Registry × Result BootstrapError Response
  unfolding try_issue_at record_session
  enter client_id monotonic (response, d, entry) r =
      let (issued, verdict) = try_issue_at client_id monotonic r in
      elim verdict [
        | ok _ ↦ (record_session client_id d entry issued, ok response)
        | err e ↦ (issued, err e)
      ]

  -- The session of an identity: its checks, then its entry.
  unfoldable pub open_session :
      SessionRequest
      → ℕ
      → ℕ
      → ℕ
      → BootstrapConfig
      → Registry
      → Registry × Result BootstrapError Response
  unfolding prepare enter
  open_session request now monotonic client_id config r =
      elim (prepare request now monotonic client_id config r) [
        | err e ↦ (r, err e)
        | ok opening ↦ enter client_id monotonic opening r
      ]

  -- The allocation, and the session of the identity that it gives. An identity is used up even where
  -- no session comes of it.
  unfoldable pub allocate :
      SessionRequest → ℕ → ℕ → Service → Service × Result BootstrapError Response
  unfolding try_next open_session
  allocate request now monotonic s =
      let (next, given) = try_next s.next_id in
      elim given [
        | none ↦ (s, err capacity)
        | some client_id ↦
            let (r, outcome) = open_session request now monotonic client_id s.config s.registry in
            (record s { next_id = next; registry = r }, outcome)
      ]

  -- `create_session_with_request`.
  unfoldable pub create_session :
      SessionRequest → ℕ → ℕ → Service → Service × Result BootstrapError Response
  unfolding cleanup_at is_full allocate
  create_session request now monotonic s = elim (validate_request request) [
    | err e ↦ (s, err (auth e))
    | ok _ ↦
        let clean : Registry = cleanup_at monotonic s.registry in
        if is_full clean
        then (record s { registry = clean }, err capacity)
        else allocate request now monotonic (record s { registry = clean })
  ]
