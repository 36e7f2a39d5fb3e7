-- ===== src/Session/Client.antt =====
-- src/session_security.rs: `SessionCreateResponse::authentication`, what a client checks of an
-- answer before it connects. The base64 decoder and the parser of connect tokens are parameters.
use renet_cross.Prelude.{
  ℕ, ◌≤◌, ◌<◌, ◌^◌, ◌≡◌, refl, ap, ◌∙◌, ◌⊎◌, inl, inr, arith, Bool, true, false, not, ◌||◌, ◌&&◌,
  Option, some, none, Option-cases, List, [], ◌∷◌, length, any, Result, ok, ◌>>=◌, ◌>>◌, refuse,
  ok_or, map_err, ltb, leb, ◌==◌, is_some, is_some_and, as_secs,
}
use renet_cross.Net.{SocketAddr, SocketAddr-discrete}
use renet_cross.Session.{
  Text, SessionRequest, validate_request, requests_authentication, Security, Response, is_empty,
  same_text, max_session_token_bytes, max_service_bytes, max_match_bytes,
  max_encoded_connect_token_bytes, max_connect_token_bytes,
}

-- The fields of `renetcode::ConnectToken` that the client reads; the timeout is the word of an `i32`.
pub record Token : Type 0 where
  pub client_id : ℕ
  pub protocol_id : ℕ
  pub server_addresses : List (Option SocketAddr)
  pub create_timestamp : ℕ
  pub expire_timestamp : ℕ
  pub timeout_seconds : ℕ

-- `SessionSecurityError`.
pub data SecurityError : Type 0 where
  secure_required invalid_response invalid_token binding_mismatch expired : SecurityError

pub data Transport : Type 0 where
  udp web_rtc : Transport

-- `renetcode::ClientAuthentication`.
pub data Authentication : Type 0 where
  unsecure : ℕ → ℕ → SocketAddr → Authentication
  secure : Token → Authentication

pub oversized_response : Response → Bool
oversized_response r =
    ltb 128 (length r.udp_addr)
    || ltb 128 (length r.webrtc_addr)
    || ltb 2048 (length r.webrtc_offer_url)
    || is_some_and r.session_token (λ t. ltb max_session_token_bytes (length t))

-- What the request asked for and the answer does not say.
pub misbound : ℕ → SessionRequest → Security → Bool
misbound protocol_id request s =
    not (s.protocol_id == protocol_id)
    || is_some_and request.protocol_id (λ p. not (p == protocol_id))
    || (not (is_empty request.service) && not (same_text request.service s.service))
    || (not (is_empty request.match_id) && not (same_text request.match_id s.match_id))

pub misnamed : Security → Bool
misnamed s =
    is_empty s.service
    || ltb max_service_bytes (length s.service)
    || is_empty s.match_id
    || ltb max_match_bytes (length s.match_id)

pub encoded_token : Transport → Security → Text
encoded_token udp s = s.udp_connect_token
encoded_token web_rtc s = s.webrtc_connect_token

same_addr : SocketAddr → SocketAddr → Bool
same_addr a b = elim (SocketAddr-discrete a b) [ yes _ ↦ true | no _ ↦ false ]

-- The first address is the given one, and no other is set.
pub sole_address : SocketAddr → List (Option SocketAddr) → Bool
unfolding same_addr
sole_address addr [] = false
sole_address addr (first ∷ others) = is_some_and first (same_addr addr) && not (any is_some others)

-- A word of an `i32` that is zero or negative.
not_positive : ℕ → Bool
not_positive word = word == 0 || leb (2 ^ 31) word

pub mismatched : ℕ → ℕ → SocketAddr → Security → Token → Bool
unfolding not_positive sole_address
mismatched client_id protocol_id addr s t =
    not (t.client_id == client_id)
    || not (t.protocol_id == protocol_id)
    || not (sole_address addr t.server_addresses)
    || not (t.expire_timestamp == s.expires_at)
    || not_positive t.timeout_seconds

pub out_of_date : ℕ → Token → Bool
out_of_date seconds t =
    ltb seconds t.create_timestamp
    || leb t.expire_timestamp seconds
    || leb t.expire_timestamp t.create_timestamp

module _ (decode_slice : ℕ → Text → Option (List ℕ))
    (read_token : List ℕ → Option (Token × ℕ)) where
  -- The token of an answer with security, its bytes read to the end.
  pub secured :
      ℕ
      → ℕ
      → SocketAddr
      → Transport
      → ℕ
      → SessionRequest
      → Security
      → Result SecurityError Authentication
  unfolding misbound misnamed encoded_token mismatched out_of_date
  secured client_id protocol_id addr transport now request s = do
    refuse (misbound protocol_id request s) binding_mismatch
    refuse (misnamed s) invalid_response
    refuse (ltb max_encoded_connect_token_bytes (length (encoded_token transport s))) invalid_token
    bytes ← ok_or (decode_slice max_connect_token_bytes (encoded_token transport s)) invalid_token
    parsed ← ok_or (read_token bytes) invalid_token
    refuse (not (parsed.1 == length bytes) || mismatched client_id protocol_id addr s parsed.0)
        binding_mismatch
    refuse (out_of_date (as_secs now) parsed.0) expired
    ok (secure parsed.0)

  unfoldable pub authentication :
      ℕ
      → SocketAddr
      → Transport
      → ℕ
      → Bool
      → SessionRequest
      → Response
      → Result SecurityError Authentication
  unfolding oversized_response secured
  authentication protocol_id addr transport now require_secure request r = do
    map_err (λ _. invalid_response) (validate_request request)
    refuse (oversized_response r) invalid_response
    elim r.security [
      | none ↦
          refuse (require_secure || requests_authentication request) secure_required
          >> ok (unsecure protocol_id r.client_id addr)
      | some s ↦ secured r.client_id protocol_id addr transport now request s
    ]

  -- The token is what the encoded token of the answer holds, with nothing left over.
  abbrev pub IsRead : Transport → Security → Token → Type 0
  IsRead transport s t =
      (bytes : List ℕ) × (decode_slice max_connect_token_bytes (encoded_token transport s)
        ≡ some bytes)
      × (read_token bytes ≡ some (t, length bytes))

  -- What the checks of a token that was accepted found.
  secured-checks :
      (client_id protocol_id : ℕ) (addr : SocketAddr) (transport : Transport) (now : ℕ)
      (request : SessionRequest) (s : Security) (a : Authentication)
      → secured client_id protocol_id addr transport now request s ≡ ok a
      → (t : Token) × (a ≡ secure t)
        × IsRead transport s t
        × (misbound protocol_id request s ≡ false)
        × (mismatched client_id protocol_id addr s t ≡ false)
        × (out_of_date (as_secs now) t ≡ false)
  unfolding secured
  secured-checks client_id protocol_id addr transport now request s a h =
      elim (Option-cases (decode_slice max_connect_token_bytes (encoded_token transport s))) [
        | inl e ↦ ground (arith, e, h)
        | inr (bytes, e) ↦ elim (Option-cases (read_token bytes)) [
          | inl f ↦ ground (arith, e, f, h)
          | inr ((t, position), f) ↦
              let full : position ≡ length bytes = ground (arith, e, f, h) in
              (
                t,
                ground (arith, e, f, h),
                (bytes, e, f ∙ ap (λ (k : ℕ). some (t, k)) full),
                ground (arith, e, f, h),
                ground (arith, e, f, h),
                ground (arith, e, f, h),
              )
        ]
      ]

  -- What the client holds when it goes on: without security, only where neither side asked for it;
  -- with security, a token that was read and agrees with the answer, the request and the time.
  unfoldable pub Bound :
      ℕ → SocketAddr → Transport → ℕ → Bool → SessionRequest → Response → Authentication → Type 0
  Bound protocol_id addr transport now require_secure request r (unsecure p c a) =
      (r.security ≡ none)
      × (require_secure ≡ false)
      × (requests_authentication request ≡ false)
      × (p ≡ protocol_id)
      × (c ≡ r.client_id)
      × (a ≡ addr)
  Bound protocol_id addr transport now require_secure request r (secure t) =
      (s : Security) × (r.security ≡ some s)
      × IsRead transport s t
      × (s.protocol_id ≡ protocol_id)
      × (t.client_id ≡ r.client_id)
      × (t.protocol_id ≡ protocol_id)
      × (sole_address addr t.server_addresses ≡ true)
      × (t.expire_timestamp ≡ s.expires_at)
      × (t.create_timestamp ≤ as_secs now)
      × (as_secs now < t.expire_timestamp)
      × ((is_empty request.service ≡ true) ⊎ (same_text request.service s.service ≡ true))
      × ((is_empty request.match_id ≡ true) ⊎ (same_text request.match_id s.match_id ≡ true))

  secured-Bound :
      (protocol_id : ℕ) (addr : SocketAddr) (transport : Transport) (now : ℕ)
      (require_secure : Bool) (request : SessionRequest) (r : Response) (s : Security)
      (a : Authentication)
      → r.security ≡ some s
      → secured r.client_id protocol_id addr transport now request s ≡ ok a
      → Bound protocol_id addr transport now require_secure request r a
  unfolding secured misbound mismatched out_of_date Bound
  secured-Bound protocol_id addr transport now require_secure request r s a e h =
      let (t, is, read, bound, matched, dated) =
        secured-checks r.client_id protocol_id addr transport now request s a h in
      rw is (
        s,
        e,
        read,
        ground (arith, bound),
        ground (arith, matched),
        ground (arith, matched),
        ground (arith, matched),
        ground (arith, matched),
        ground (arith, dated),
        ground (arith, dated),
        ground (arith, bound),
        ground (arith, bound),
      )

  -- A client that the checks let go on never loses the security that it or its host asked for: an
  -- unsecure connection only comes of an answer without security to a request that wants none; and a
  -- secure one of a token that was read in full, names this client, protocol and server alone, is
  -- valid now until the moment the answer says, and is for the service and match that were asked for.
  pub authentication-Bound :
      (protocol_id : ℕ) (addr : SocketAddr) (transport : Transport) (now : ℕ)
      (require_secure : Bool) (request : SessionRequest) (r : Response) (a : Authentication)
      → authentication protocol_id addr transport now require_secure request r ≡ ok a
      → Bound protocol_id addr transport now require_secure request r a
  unfolding authentication Bound
  authentication-Bound protocol_id addr transport now require_secure request r a h =
      elim (Option-cases r.security) [
        | inr (s, e) ↦
            secured-Bound protocol_id addr transport now require_secure request r s a e
              (ground (arith, e, h))
        | inl e ↦
            let plain : (a ≡ unsecure protocol_id r.client_id addr)
                × (require_secure ≡ false)
                × (requests_authentication request ≡ false) =
              ground (arith, e, h) in
            rw plain.0 (e, plain.1, plain.2, refl, refl, refl)
      ]
