-- ===== src/Session/Issue.antt =====
-- src/session_security.rs: `SecureSessionAuthPolicy`, the issuer of secure sessions; and the default
-- policy of src/bootstrap.rs. The verifier, the generator and the writer of connect tokens, the
-- base64 encoder and the random bytes are parameters.
use renet_cross.Prelude.{
  ℕ, ◌+◌, ◌-◌, ◌≤◌, ◌<◌, ◌≡◌, refl, arith, Bool, false, not, ◌||◌, Option, some, none, List, length,
  Result, ok, ◌>>=◌, ◌>>◌, refuse, ok_or, ltb, ◌==◌, ◌↔◌, ap, sym, is_some_and, as_secs,
}
use renet_cross.Net.{SocketAddr}
use renet_cross.Session.{
  Text, AuthError, admission_required, invalid_grant, token_generation, missing_token,
  invalid_token, SessionRequest, validate_request, requests_authentication, Grant, validate_grant,
  user_data, Security, Issuance, BootstrapConfig, same_text, same_text→≡, ≡→same_text,
  max_connect_token_bytes,
}

-- What the grant of a request may not differ in, and how long it may last.
pub unrequested : SessionRequest → Grant → ℕ → ℕ → Bool
unrequested request g now ttl =
    not (is_some_and request.protocol_id (λ p. p == g.protocol_id))
    || not (same_text request.service g.service)
    || not (same_text request.match_id g.match_id)
    || ltb (as_secs ttl) (g.expires_at - as_secs now)

pub verify_issued_offer : ℕ → Option Text → Option Text → Result AuthError (Unit {0})
verify_issued_offer client_id token issued = do
  provided ← ok_or token (missing_token client_id)
  expected ← ok_or issued (invalid_token client_id)
  refuse (not (same_text provided expected)) (invalid_token client_id)

-- `SessionAuthPolicy::issue_session` of a policy that does not override it.
pub issue_legacy :
    (ℕ → ℕ → Result AuthError (Option Text)) → ℕ → SessionRequest → ℕ → Result AuthError Issuance
issue_legacy issue_token client_id request now = do
  validate_request request
  refuse (requests_authentication request) admission_required
  token ← issue_token client_id now
  ok (record { session_token = token; security = none; grant = none })

module _ {Token : Type 0} (admit : SessionRequest → ℕ → Result AuthError Grant)
    (generate : ℕ → ℕ → ℕ → ℕ → SocketAddr → List ℕ → Option Token)
    (write_token : Token → Option (List ℕ)) (encode : List ℕ → Text) where
  pub encode_connect_token : Token → Result AuthError Text
  encode_connect_token token = do
    bytes ← ok_or (write_token token) token_generation
    refuse (ltb max_connect_token_bytes (length bytes)) token_generation
    ok (encode bytes)

  -- The connect token for one address: the time, the protocol, the seconds it is good for, the client.
  pub connect_token : ℕ → Grant → ℕ → List ℕ → SocketAddr → Result AuthError Text
  unfolding encode_connect_token
  connect_token client_id g now data' addr = do
    token ←
        ok_or (generate now g.protocol_id (g.expires_at - as_secs now) client_id addr data')
          token_generation
    encode_connect_token token

  secured_by : Grant → Text → Text → Security
  secured_by g udp_token webrtc_token = record {
    protocol_id = g.protocol_id;
    service = g.service;
    match_id = g.match_id;
    expires_at = g.expires_at;
    udp_connect_token = udp_token;
    webrtc_connect_token = webrtc_token;
  }

  -- `random` is the 32 bytes that become the session token.
  unfoldable pub issue_session :
      List ℕ → ℕ → SessionRequest → ℕ → BootstrapConfig → Result AuthError Issuance
  unfolding unrequested connect_token secured_by
  issue_session random client_id request now config = do
    validate_request request
    g ← admit request now
    validate_grant now g
    refuse (unrequested request g now config.session_ttl) invalid_grant
    data' ← user_data g
    udp_token ← connect_token client_id g now data' config.public_udp_addr
    webrtc_token ← connect_token client_id g now data' config.public_webrtc_addr
    ok (record {
      session_token = some (encode random);
      security = some (secured_by g udp_token webrtc_token);
      grant = some g;
    })

  -- A token as the generator of connect tokens makes it for an address, written and encoded.
  record MadeFor (client_id : ℕ) (now : ℕ) (g : Grant) (data' : List ℕ) (addr : SocketAddr)
      (text : Text) : Type 0 where
    token : Token
    bytes : List ℕ
    generated :
        generate now g.protocol_id (g.expires_at - as_secs now) client_id addr data' ≡ some token
    written : write_token token ≡ some bytes
    fits : length bytes ≤ 2048
    encoded : text ≡ encode bytes

  connect_token-MadeFor :
      (client_id : ℕ) (g : Grant) (now : ℕ) (data' : List ℕ) (addr : SocketAddr) (text : Text)
      → connect_token client_id g now data' addr ≡ ok text
      → MadeFor client_id now g data' addr text
  unfolding connect_token encode_connect_token
  connect_token-MadeFor client_id g now data' addr text h =
      let (token, bytes, generated, written, fits, encoded) : (token : Token) × (bytes : List ℕ)
          × (generate now g.protocol_id (g.expires_at - as_secs now) client_id addr data'
              ≡ some token)
          × (write_token token ≡ some bytes)
          × (length bytes ≤ 2048)
          × (text ≡ encode bytes) =
        ground arith in
      record {
        token = token;
        bytes = bytes;
        generated = generated;
        written = written;
        fits = fits;
        encoded = encoded;
      }

  -- What a session that was issued rests on.
  pub record Issued (random : List ℕ) (client_id : ℕ) (request : SessionRequest) (now : ℕ)
      (config : BootstrapConfig) (g : Grant) (i : Issuance) : Type 0 where
    admitted : admit request now ≡ ok g
    protocol : request.protocol_id ≡ some g.protocol_id
    service : request.service ≡ g.service
    match_id : request.match_id ≡ g.match_id
    begins : as_secs now < g.expires_at
    ends : g.expires_at ≤ as_secs now + as_secs config.session_ttl
    kept : i.grant ≡ some g
    token : i.session_token ≡ some (encode random)
    security :
        (data' udp_token webrtc_token : List ℕ) × (user_data g ≡ ok data')
        × MadeFor client_id now g data' config.public_udp_addr udp_token
        × MadeFor client_id now g data' config.public_webrtc_addr webrtc_token
        × (i.security
            ≡ some (record {
              protocol_id = g.protocol_id;
              service = g.service;
              match_id = g.match_id;
              expires_at = g.expires_at;
              udp_connect_token = udp_token;
              webrtc_connect_token = webrtc_token;
            }))

  issue_session-checks :
      (random : List ℕ) (client_id : ℕ) (request : SessionRequest) (now : ℕ)
      (config : BootstrapConfig) (i : Issuance)
      → issue_session random client_id request now config ≡ ok i
      → (g : Grant) × (admit request now ≡ ok g)
        × (validate_grant now g ≡ ok tt)
        × (unrequested request g now config.session_ttl ≡ false)
        × (i.grant ≡ some g)
        × (i.session_token ≡ some (encode random))
        × ((data' udp_token webrtc_token : List ℕ) × (user_data g ≡ ok data')
            × (connect_token client_id g now data' config.public_udp_addr ≡ ok udp_token)
            × (connect_token client_id g now data' config.public_webrtc_addr ≡ ok webrtc_token)
            × (i.security ≡ some (secured_by g udp_token webrtc_token)))
  unfolding issue_session
  issue_session-checks random client_id request now config i h = ground arith

  -- A session is issued only on a grant of the verifier for this very request: the request names the
  -- grant's protocol, service and match, the grant is not over and lasts no longer than the sessions
  -- of the host do. The connect token for UDP is what the generator makes for this client, the grant's
  -- protocol, time, and user data, and the host's public UDP address, written in at most 2,048 bytes and
  -- encoded; the token for WebRTC is the same for the public WebRTC address.
  pub issue_session-Issued :
      (random : List ℕ) (client_id : ℕ) (request : SessionRequest) (now : ℕ)
      (config : BootstrapConfig) (i : Issuance)
      → issue_session random client_id request now config ≡ ok i
      → (g : Grant) × Issued random client_id request now config g i
  unfolding unrequested validate_grant secured_by
  issue_session-Issued random client_id request now config i h =
      let (g, admitted, valid, asked, kept, token, made) =
        issue_session-checks random client_id request now config i h in
      let (data', udp, webrtc, bound, to_udp, to_webrtc, end) = made in
      (
        g,
        record {
          admitted = admitted;
          protocol = ground (arith, asked);
          service = same_text→≡ request.service g.service (ground (arith, asked));
          match_id = same_text→≡ request.match_id g.match_id (ground (arith, asked));
          begins = ground (arith, valid);
          ends = ground (arith, asked, valid);
          kept = kept;
          token = token;
          security = (
            data',
            udp,
            webrtc,
            bound,
            connect_token-MadeFor client_id g now data' config.public_udp_addr udp to_udp,
            connect_token-MadeFor client_id g now data' config.public_webrtc_addr webrtc to_webrtc,
            end,
          );
        },
      )

-- An offer is let through just with the token of its session: a session without one accepts none.
pub verify_issued_offer_iff :
    (client_id : ℕ) (token issued : Option Text)
    → (verify_issued_offer client_id token issued ≡ ok tt)
      ↔ ((t : Text) × (token ≡ some t) × (issued ≡ some t))
unfolding verify_issued_offer
verify_issued_offer_iff client_id none issued = (λ h. cc, λ h. cc)
verify_issued_offer_iff client_id (some t) none = (λ h. cc, λ h. cc)
verify_issued_offer_iff client_id (some t) (some u) = (
  λ h. (t, refl, ap (λ x. some x) (sym (same_text→≡ t u (ground arith)))),
  λ (w, here, there). rw (≡→same_text t u cc) refl,
)
