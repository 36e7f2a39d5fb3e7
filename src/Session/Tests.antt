-- ===== src/Session/Tests.antt =====
-- src/session_security.rs: the theorems at work on one grant.
use renet_cross.Prelude.{
  ℕ, ◌≡◌, refl, ◌*◌, ◌↔◌, arith, true, none, some, List, [], ◌∷◌, Result, ok, nanos_per_sec, length,
}
use native.Mathlib.Decide.{ℕ_discrete}
use renet_cross.Net.{v4, SocketAddr-discrete}
use renet_cross.Session.{
  Text, AuthError, Text-discrete, same_text, validate_request, validate_grant, SessionRequest,
  Grant, Security, Issuance, Response, BootstrapConfig, user_data,
}
use renet_cross.Session.Client.{Token, udp, secure, authentication, authentication-Bound, Bound}
use renet_cross.Session.Issue.{
  issue_session, Issued, issue_session-Issued, verify_issued_offer, verify_issued_offer_iff,
}
use renet_cross.Session.Encoding.{read_user_data, read_user_data-user_data}

abbrev ticket : Grant
ticket = record {
  protocol_id = 7;
  service = 115 ∷ [];
  match_id = 109 ∷ [];
  expires_at = 100;
  replay_key = 9 ∷ [];
  application = [];
}

abbrev ask : SessionRequest
ask = record {
  protocol_id = some 7;
  service = 115 ∷ [];
  match_id = 109 ∷ [];
  credential = [];
  require_secure = true;
}

abbrev config : BootstrapConfig
config = record {
  session_ttl = 120 * nanos_per_sec;
  public_udp_addr = v4 1 1;
  public_webrtc_addr = v4 1 2;
  public_http_base = [];
}

read_user_data-user_data_example :
    (buffer : List ℕ) × (user_data ticket ≡ ok buffer)
    × (length buffer ≡ 256)
    × (read_user_data buffer ≡ (7, 100, 115 ∷ [], 109 ∷ [], []))
read_user_data-user_data_example =
    read_user_data-user_data ticket
      (record {
        service_fits = omega arith;
        match_fits = omega arith;
        application_fits = omega arith;
      })
      (omega arith) (omega arith)

verify_issued_offer_iff_example :
    (verify_issued_offer 1 (some (4 ∷ [])) (some (4 ∷ [])) ≡ ok tt)
    ↔ ((t : Text) × (some (4 ∷ []) ≡ some t) × (some (4 ∷ []) ≡ some t))
verify_issued_offer_iff_example = verify_issued_offer_iff 1 (some (4 ∷ [])) (some (4 ∷ []))

abbrev admitted : SessionRequest → ℕ → Result AuthError Grant
admitted request now = ok ticket

abbrev paper : Security
paper = record {
  protocol_id = 7;
  service = 115 ∷ [];
  match_id = 109 ∷ [];
  expires_at = 100;
  udp_connect_token = 1 ∷ [];
  webrtc_connect_token = 1 ∷ [];
}

abbrev given : Issuance
given = record { session_token = some (1 ∷ []); security = some paper; grant = some ticket }

issued :
    issue_session admitted
      (λ now p s c a d. some c)
      (λ t. some (t ∷ []))
      (λ b. 1 ∷ [])
      []
      3
      ask
      0
      config
    ≡ ok given
unfolding issue_session validate_request validate_grant user_data same_text Text-discrete ℕ_discrete
issued = refl

issue_session-Issued_example :
    (g : Grant) × Issued admitted
      (λ now p s c a d. some c)
      (λ t. some (t ∷ []))
      (λ b. 1 ∷ [])
      []
      3
      ask
      0
      config
      g
      given
issue_session-Issued_example =
    issue_session-Issued admitted (λ now p s c a d. some c) (λ t. some (t ∷ [])) (λ b. 1 ∷ []) [] 3
      ask 0 config given issued

abbrev token : Token
token = record {
  client_id = 3;
  protocol_id = 7;
  server_addresses = some (v4 1 1) ∷ none ∷ [];
  create_timestamp = 0;
  expire_timestamp = 100;
  timeout_seconds = 15;
}

abbrev answer : Response
answer = record {
  client_id = 3;
  udp_addr = [];
  webrtc_addr = [];
  webrtc_offer_url = [];
  session_token = none;
  security = some paper;
}

accepted :
    authentication
      (λ size text. some text)
      (λ bytes. some (token, length bytes))
      7
      (v4 1 1)
      udp
      0
      true
      ask
      answer
    ≡ ok (secure token)
unfolding authentication validate_request same_text Text-discrete SocketAddr-discrete ℕ_discrete
accepted = refl

authentication-Bound_example :
    Bound
      (λ size text. some text)
      (λ bytes. some (token, length bytes))
      7
      (v4 1 1)
      udp
      0
      true
      ask
      answer
      (secure token)
authentication-Bound_example =
    authentication-Bound (λ size text. some text) (λ bytes. some (token, length bytes)) 7 (v4 1 1)
      udp 0 true ask answer (secure token) accepted
