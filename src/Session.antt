-- ===== src/Session.antt =====
-- src/session_security.rs: requests, grants and the user data that binds a grant into a connect
-- token; and the answer to a request, from src/bootstrap.rs. Texts are their UTF-8 bytes; an instant of Unix time is its nanoseconds.
pub mod Encoding
mod Tests
pub mod Client
pub mod Issue
use renet_cross.Prelude.{
  ℕ, zero, suc, ◌+◌, ◌%◌, Bool, true, false, not, ◌||◌, Option, some, none, List, [], ◌∷◌, ◌++◌,
  length, take, drop, replicate, Result, ok, err, ltb, leb, ◌==◌, if◌then◌else◌, is_some, as_secs,
  ◌≡◌, arith,
}
use native.Mathlib.Decide.{ℕ_discrete}
use renet_cross.Net.{to_le_bytes, SocketAddr}

abbrev pub Text : Type 0
Text = List ℕ

abbrev pub max_session_credential_bytes : ℕ
max_session_credential_bytes = 4096

abbrev pub max_service_bytes : ℕ
max_service_bytes = 32

abbrev pub max_match_bytes : ℕ
max_match_bytes = 64

abbrev pub max_grant_bytes : ℕ
max_grant_bytes = 128

abbrev pub max_connect_token_bytes : ℕ
max_connect_token_bytes = 2048

abbrev pub max_encoded_connect_token_bytes : ℕ
max_encoded_connect_token_bytes = 2732

abbrev pub max_session_token_bytes : ℕ
max_session_token_bytes = 128

abbrev pub user_data_bytes : ℕ
user_data_bytes = 256

unfoldable pub Text-discrete : Discrete Text
Text-discrete = hlevel ℕ_discrete

-- `==` of strings and of byte strings, in constant time or not.
unfoldable pub same_text : Text → Text → Bool
same_text a b = elim (Text-discrete a b) [ yes _ ↦ true | no _ ↦ false ]

pub same_text→≡ : (a b : Text) → same_text a b ≡ true → a ≡ b
unfolding same_text
same_text→≡ a b h = ground arith

pub ≡→same_text : (a b : Text) → a ≡ b → same_text a b ≡ true
unfolding same_text
≡→same_text a b h = ground arith

-- `BootstrapAuthError`.
pub data AuthError : Type 0 where
  invalid_request admission_required invalid_grant replay token_generation : AuthError
  missing_token invalid_token : ℕ → AuthError
  message : Text → AuthError

pub record SessionRequest : Type 0 where
  pub protocol_id : Option ℕ
  pub service : Text
  pub match_id : Text
  pub credential : Text
  pub require_secure : Bool

abbrev pub is_empty : Text → Bool
is_empty [] = true
is_empty (b ∷ bs) = false

unfoldable pub validate_request : SessionRequest → Result AuthError (Unit {0})
validate_request r =
    if ltb max_session_credential_bytes (length r.credential)
      || ltb max_service_bytes (length r.service)
      || ltb max_match_bytes (length r.match_id)
    then err invalid_request
    else ok tt

unfoldable pub requests_authentication : SessionRequest → Bool
requests_authentication r =
    r.require_secure
    || is_some r.protocol_id
    || not (is_empty r.service)
    || not (is_empty r.match_id)
    || not (is_empty r.credential)

pub record Grant : Type 0 where
  pub protocol_id : ℕ
  pub service : Text
  pub match_id : Text
  pub expires_at : ℕ
  pub replay_key : List ℕ
  pub application : List ℕ

-- `SessionGrant::validate` at a time.
unfoldable pub validate_grant : ℕ → Grant → Result AuthError (Unit {0})
validate_grant now g =
    if is_empty g.service
      || ltb max_service_bytes (length g.service)
      || is_empty g.match_id
      || ltb max_match_bytes (length g.match_id)
      || ltb max_grant_bytes (length g.application)
      || leb g.expires_at (as_secs now)
    then err invalid_grant
    else ok tt

-- `data[at..at + bytes.len()].copy_from_slice(bytes)`.
pub write : ℕ → List ℕ → List ℕ → List ℕ
write at bytes buffer = take at buffer ++ bytes ++ drop (at + length bytes) buffer

-- One round of the loop of `user_data`: the length as a byte, then the bytes.
pub put_field : List ℕ → List ℕ × ℕ → List ℕ × ℕ
put_field bytes (buffer, cursor) = (
  write (cursor + 1) bytes (write cursor (length bytes % 256 ∷ []) buffer),
  cursor + 1 + length bytes,
)

-- The buffer with the version, the protocol and the expiry.
pub put_header : Grant → List ℕ
put_header g =
    write 9 (to_le_bytes 8 g.expires_at)
      (write 1 (to_le_bytes 8 g.protocol_id) (write 0 (1 ∷ []) (replicate user_data_bytes 0)))

pub oversized : Grant → Bool
oversized g =
    ltb max_service_bytes (length g.service)
    || ltb max_match_bytes (length g.match_id)
    || ltb max_grant_bytes (length g.application)

unfoldable pub user_data : Grant → Result AuthError (List ℕ)
unfolding oversized
user_data g =
    if oversized g
    then err invalid_grant
    else ok
        (put_field g.application (put_field g.match_id (put_field g.service (put_header g, 17)))).0

-- `SessionSecurity`.
pub record Security : Type 0 where
  pub protocol_id : ℕ
  pub service : Text
  pub match_id : Text
  pub expires_at : ℕ
  pub udp_connect_token : Text
  pub webrtc_connect_token : Text

-- `SessionIssuance`.
pub record Issuance : Type 0 where
  pub session_token : Option Text
  pub security : Option Security
  pub grant : Option Grant

-- `SessionCreateResponse`.
pub record Response : Type 0 where
  pub client_id : ℕ
  pub udp_addr : Text
  pub webrtc_addr : Text
  pub webrtc_offer_url : Text
  pub session_token : Option Text
  pub security : Option Security

pub record BootstrapConfig : Type 0 where
  pub session_ttl : ℕ
  pub public_udp_addr : SocketAddr
  pub public_webrtc_addr : SocketAddr
  pub public_http_base : Text
