-- ===== src/Bootstrap.antt =====
-- src/bootstrap.rs: the allocator of client identities and `InMemorySessionRegistry`, the sessions
-- that were issued and the grants that were used. The clock is an argument of each call; the lock is
-- held for a whole call. The service around them is in Bootstrap/Service.
pub mod Service
pub mod Offers
pub mod Orderly
pub mod Calls
pub mod Replay
pub mod Claims
mod Tests
pub mod Openings
pub mod Activation
use native.Mathlib.Decide.{ℕ_discrete}
use renet_cross.Prelude.{
  ℕ, ◌+◌, ◌-◌, Bool, true, false, not, ◌&&◌, ◌||◌, Option, none, some, List, [], ◌∷◌, length,
  Result, ok, err, ltb, leb, ◌==◌, if◌then◌else◌, is_some, is_some_and, u64_max,
}
use renet_cross.Prelude.Assoc.{get, contains_key, insert, remove, retain}
use renet_cross.Session.{Text, Text-discrete, AuthError, Grant}

-- `MonotonicClientIdAllocator::try_next`: the next identity after the call, and the one it gives.
unfoldable pub try_next : ℕ → ℕ × Option ℕ
try_next next_id = if next_id == u64_max then (next_id, none) else (next_id + 1, some next_id)

-- `BootstrapError`, without a poisoned lock and a clock before 1970. The error of the SDP hook is a
-- number.
pub data BootstrapError : Type 0 where
  capacity duplicate_session body_too_large : BootstrapError
  unknown_session : ℕ → BootstrapError
  auth : AuthError → BootstrapError
  hook : ℕ → BootstrapError

pub record Limits : Type 0 where
  pub pending_sessions : ℕ
  pub active_sessions : ℕ
  pub replay_grants : ℕ

abbrev pub default_limits : Limits
default_limits = record { pending_sessions = 1024; active_sessions = 256; replay_grants = 8192 }

pub record Details : Type 0 where
  pub token : Option Text
  pub grant : Option Grant
  pub user_data : Option (List ℕ)
  pub offer_claimed : Bool
  pub expires : Option ℕ

pub record Registry : Type 0 where
  pub pending : List (ℕ × ℕ)
  pub active : List (ℕ × Unit {0})
  pub ttl : ℕ
  pub limits : Limits
  pub details : List (ℕ × Details)
  pub used_grants : List (List ℕ × ℕ)

pub new : ℕ → Registry
new ttl = record {
  pending = [];
  active = [];
  ttl = ttl;
  limits = default_limits;
  details = [];
  used_grants = [];
}

pub with_limits : ℕ → Limits → Result BootstrapError Registry
unfolding new
with_limits ttl limits =
    if limits.pending_sessions == 0 || limits.active_sessions == 0 || limits.replay_grants == 0
    then err capacity
    else ok (record (new ttl) { limits = limits })

pub counts : Registry → ℕ × ℕ × ℕ
counts r = (length r.pending, length r.active, length r.used_grants)

abbrev pub pending? : ℕ → Registry → Bool
pending? client_id r = contains_key ℕ_discrete client_id r.pending

abbrev pub active? : ℕ → Registry → Bool
active? client_id r = contains_key ℕ_discrete client_id r.active

abbrev pub details_of : ℕ → Registry → Option Details
details_of client_id r = get ℕ_discrete client_id r.details

-- Not yet expired: a session without details or without an expiry does not expire this way.
unexpired : ℕ → Option Details → Bool
unexpired now none = true
unexpired now (some d) = not (is_some_and d.expires (λ e. leb e now))

pub cleanup_at : ℕ → Registry → Registry
unfolding unexpired
cleanup_at now r = record r {
  pending = pending';
  details =
      retain ℕ_discrete
        (λ id _. contains_key ℕ_discrete id pending' || contains_key ℕ_discrete id r.active)
        r.details;
  used_grants = retain Text-discrete (λ _ expires. ltb now expires) r.used_grants;
}
  where
    pending' : List (ℕ × ℕ)
    pending' =
        retain ℕ_discrete
          (λ id started. ltb (now - started) r.ttl && unexpired now (get ℕ_discrete id r.details))
          r.pending

pub is_full : Registry → Bool
is_full r =
    leb r.limits.pending_sessions (length r.pending)
    || leb r.limits.active_sessions (length r.active)

-- The registry after the call, and the verdict.
pub try_issue_at : ℕ → ℕ → Registry → Registry × Result BootstrapError (Unit {0})
unfolding cleanup_at is_full
try_issue_at client_id now r =
    let clean = cleanup_at now r in
    if is_full clean
    then (clean, err capacity)
    else if pending? client_id clean || active? client_id clean
    then (clean, err duplicate_session)
    else (record clean { pending = insert ℕ_discrete client_id now clean.pending }, ok tt)

pub is_pending_at : ℕ → ℕ → Registry → Registry × Bool
unfolding cleanup_at
is_pending_at client_id now r = let clean = cleanup_at now r in (clean, pending? client_id clean)

pub activate_at : ℕ → ℕ → Registry → Registry × Bool
unfolding cleanup_at
activate_at client_id now r =
    let clean = cleanup_at now r in
    if leb clean.limits.active_sessions (length clean.active)
    then (clean, false)
    else if pending? client_id clean
    then (
      record clean {
        pending = remove ℕ_discrete client_id clean.pending;
        active = insert ℕ_discrete client_id tt clean.active;
      },
      true,
    )
    else (clean, false)

pub deactivate : ℕ → Registry → Registry
deactivate client_id r = record r {
  pending = remove ℕ_discrete client_id r.pending;
  active = remove ℕ_discrete client_id r.active;
  details = remove ℕ_discrete client_id r.details;
}
