-- ===== src/Bootstrap/Tests.antt =====
-- src/bootstrap.rs: the theorems at work on a small service.
use renet_cross.Prelude.{
  ℕ, ◌≡◌, refl, ◌≢◌, ◌⊎◌, ◌+◌, ◌-◌, ◌*◌, arith, true, false, none, some, List, [], ◌∷◌, ok, err,
  nanos_per_sec,
}
use renet_cross.Prelude.Assoc.{get, retain, insert}
use native.Mathlib.Decide.{ℕ_discrete}
use renet_cross.Net.{v4}
use renet_cross.Session.{
  Text-discrete, same_text, validate_request, validate_grant, SessionRequest, Grant, Security,
  Issuance, Response, BootstrapConfig, user_data,
}
use renet_cross.Bootstrap.{
  Limits, Details, Registry, with_limits, unknown_session, pending?, active?, details_of,
  cleanup_at,
}
use renet_cross.Bootstrap.Service.{Host, Service, offer_url, create_session}
use renet_cross.Bootstrap.Offers.{claim, activate_session}
use renet_cross.Bootstrap.Orderly.{IsOrderly}
use renet_cross.Bootstrap.Calls.{Call, creates, activates, disconnects, cleans, run, run-IsOrderly}
use renet_cross.Bootstrap.Replay.{run-create_session-replay}
use renet_cross.Bootstrap.Openings.{create_session-opened}
use renet_cross.Bootstrap.Claims.{run-claim_once}
use renet_cross.Bootstrap.Activation.{activate_session-connected}

abbrev ticket : Grant
ticket = record {
  protocol_id = 7;
  service = 115 ∷ [];
  match_id = 109 ∷ [];
  expires_at = 100;
  replay_key = 9 ∷ [];
  application = [];
}

abbrev paper : Security
paper = record {
  protocol_id = 7;
  service = 115 ∷ [];
  match_id = 109 ∷ [];
  expires_at = 100;
  udp_connect_token = 1 ∷ [];
  webrtc_connect_token = 2 ∷ [];
}

abbrev issued : Issuance
issued = record { session_token = some (5 ∷ []); security = some paper; grant = some ticket }

abbrev host : Host
host = record {
  issue_session = λ c request now. ok issued;
  verify_issued_offer = λ c given expected now. ok tt;
  show_addr = λ a. [];
  show_number = λ n. [];
  json_length = λ r. some 100;
  instant_add = λ a b. some (a + b);
}

abbrev ask : SessionRequest
ask = record {
  protocol_id = some 7;
  service = 115 ∷ [];
  match_id = 109 ∷ [];
  credential = [];
  require_secure = true;
}

abbrev config : BootstrapConfig
config = record {
  session_ttl = 120 * nanos_per_sec;
  public_udp_addr = v4 1 1;
  public_webrtc_addr = v4 1 2;
  public_http_base = [];
}

abbrev limits : Limits
limits = record { pending_sessions = 2; active_sessions = 2; replay_grants = 2 }

abbrev table : Registry
table = record {
  pending = [];
  active = [];
  ttl = 120 * nanos_per_sec;
  limits = limits;
  details = [];
  used_grants = [];
}

abbrev service : Service
service = record { next_id = 1; registry = table; config = config }

abbrev fresh : Details
fresh = record {
  token = none;
  grant = none;
  user_data = some (3 ∷ []);
  offer_claimed = false;
  expires = none;
}

abbrev waiting : Registry
waiting = record table { pending = (1, 0) ∷ []; details = (1, fresh) ∷ [] }

abbrev used : Service
used = record service { registry = record table { used_grants = (9 ∷ [], 50) ∷ [] } }

abbrev calls : List Call
calls = creates ask 0 0 ∷ activates 1 none 0 1 2 ∷ disconnects 1 ∷ cleans 3 ∷ []

run-IsOrderly_example :
    IsOrderly (run host calls (record { next_id = 1; registry = table; config = config })).registry
unfolding with_limits
run-IsOrderly_example = run-IsOrderly host (120 * nanos_per_sec) limits table 1 config calls refl

run-create_session-replay_example :
    (create_session host ask 0 4 (run host calls used)).1
    ≢ ok (record {
      client_id = 2;
      udp_addr = [];
      webrtc_addr = [];
      webrtc_offer_url = [];
      session_token = none;
      security = none;
    })
unfolding get Text-discrete ℕ_discrete
run-create_session-replay_example =
    run-create_session-replay host (9 ∷ []) 50 ask 0 4 used calls _ refl
      (omega arith, ((omega arith, omega arith), (tt, (omega arith, tt)))) (omega arith)
      (λ c i e. (ticket, ground (arith, e), refl))

run-claim_once_example :
    (claim host 1 none 0 2
      (run host calls (record {
        next_id = 2;
        registry = (claim host 1 none 0 1 waiting).0;
        config = config;
      })).registry).1
    ≡ err (unknown_session 1)
unfolding claim get retain ℕ_discrete
run-claim_once_example =
    run-claim_once host 1 none none 0 1 0 2
      (record { next_id = 2; registry = waiting; config = config }) calls (omega arith) refl

activate_session-connected_example :
    let r = (activate_session 1 (some (3 ∷ [])) 0 1 2 waiting).0 in
    (pending? 1 waiting ≡ true)
    × (active? 1 r ≡ true)
    × (pending? 1 r ≡ false)
    × ((details_of 1 (cleanup_at 1 waiting) ≡ none)
        ⊎ ((d : Details) × (details_of 1 (cleanup_at 1 waiting) ≡ some d)
            × ((d.user_data ≡ none) ⊎ ((d.user_data ≡ some (3 ∷ [])) × (true ≡ true)))))
unfolding activate_session get retain ℕ_discrete same_text Text-discrete
activate_session-connected_example = activate_session-connected 1 (some (3 ∷ [])) 0 1 2 waiting refl

abbrev answer : Response
answer = record {
  client_id = 1;
  udp_addr = [];
  webrtc_addr = [];
  webrtc_offer_url = offer_url (λ n. []) config 1;
  session_token = some (5 ∷ []);
  security = some paper;
}

created : (create_session host ask 0 3 service).1 ≡ ok answer
unfolding create_session get retain insert ℕ_discrete Text-discrete validate_request validate_grant
    user_data
created = refl

create_session-opened_example :
    let s' = (create_session host ask 0 3 service).0 in
    (i : Issuance) × (d : Details) × (host.issue_session 1 ask 0 ≡ ok i)
    × (answer.client_id ≡ 1)
    × (s'.next_id ≡ 2)
    × (pending? 1 s'.registry ≡ true)
    × (details_of 1 s'.registry ≡ some d)
    × (d.offer_claimed ≡ false)
    × (d.token ≡ i.session_token)
    × (d.grant ≡ i.grant)
    × (((i.grant ≡ none) × (d.user_data ≡ none))
        ⊎ ((g : Grant) × (bytes : List ℕ) × (expires : ℕ) × (i.grant ≡ some g)
            × (user_data g ≡ ok bytes)
            × (d.user_data ≡ some bytes)
            × (some (3 + (g.expires_at - 0) * nanos_per_sec) ≡ some expires)
            × (get Text-discrete g.replay_key s'.registry.used_grants ≡ some expires)))
create_session-opened_example = create_session-opened host ask 0 3 service answer created
