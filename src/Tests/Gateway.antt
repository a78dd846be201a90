-- ===== src/Tests/Gateway.antt =====
-- crates/qw-gateway/src: the limiter, the breaker, the retries and the guards on small inputs.
use quanta_watch.Prelude.{
  ◌⊎◌, not, to_lowercase, ℕ, zero, suc, ◌+◌, ◌-◌, ◌*◌, ◌≤◌, max, ◌≡◌, ◌↔◌, refl, Text, codes,
  text_eq, true, false, not, ◌&&◌, none, some, List, [], ◌∷◌, leb, ltb, if◌then◌else◌, arith,
}
use quanta_watch.Gateway.RateLimit
use quanta_watch.Gateway.RateLimit.{
  token, RateLimitConfig, Class, api, login, limit_of, limit_for, key_of,
}
use quanta_watch.Gateway.RateLimit.Bound.{Arrival, passed, passed-bounded}
use quanta_watch.Gateway.Resilience
use quanta_watch.Gateway.Resilience.{
  ResilienceConfig, Executed, response, error, retryable, backoff, allow_at, record_failure_at,
  instants, send_with_retry,
}
use quanta_watch.Gateway.Resilience.Breaker.{
  Call, allow, success, failure, run, streak, IsValid, breaker-trips, run-IsValid,
}
use quanta_watch.Gateway.Resilience.Retries.{Outcome, send_with_retry-settles}
use quanta_watch.Gateway.Rbac.{resolve_roles, get, put, route_permission}
use quanta_watch.Gateway.Rbac.Routes.{Known, role_allows, to_read, on_config, builtins-reach}
use quanta_watch.Gateway.Auth.{
  identity_only, AuthSession, AuthContext, AuthManager, get_auth_session, find_key, is_over,
  session_context, validate, logout, Request, credential, next, auth_layer,
}
use quanta_watch.Gateway.Auth.Sessions.{Accepted, validate-accepts, ended-refused}
use quanta_watch.Gateway.Auth.Viewers.{auth_layer-confines_viewers}
use quanta_watch.Gateway.Auth.Guard.{IsAdmitted, auth_layer-admits}
use quanta_watch.Gateway.CryptoPolicy.{PqcStatus, CryptoEnforcementConfig, evaluate}
use quanta_watch.Gateway.CryptoPolicy.Verdicts.{is_block, IsStopped, evaluate-blocks}

-- The default budgets: 300 requests a minute with bursts of 60, 15 logins a minute with bursts of 5.
abbrev limits : RateLimitConfig
limits = record {
  enabled = true;
  requests_per_minute = 300;
  burst = 60;
  login_per_minute = 15;
  login_burst = 5;
  trust_forwarded_for = false;
}

abbrev arrivals : List Arrival
arrivals =
    record { class = api; ip = codes "a"; at = 5 }
    ∷ record { class = login; ip = codes "a"; at = 7 }
    ∷ record { class = api; ip = codes "a"; at = 9 }
    ∷ []

api-first :
    (c : Class)
    → (limit_for (RateLimit.new limits) api).burst * (limit_for (RateLimit.new limits) c).refill
      ≤ (limit_for (RateLimit.new limits) c).burst * (limit_for (RateLimit.new limits) api).refill
unfolding RateLimit.new limit_for limit_of
api-first api = omega arith
api-first login = omega arith

passed-bounded_example :
    passed (key_of api (codes "a")) (RateLimit.new limits) arrivals * token
    ≤ (limit_for (RateLimit.new limits) api).burst
      + (20 - 0) * (limit_for (RateLimit.new limits) api).refill
passed-bounded_example =
    passed-bounded limits api (codes "a") arrivals 0 20 refl api-first
      (omega arith, (omega arith, (omega arith, omega arith)))

abbrev calls : List Call
calls = failure 1 ∷ success ∷ failure 2 ∷ allow 3 ∷ []

breaker-trips_example :
    ((allow_at (run (Resilience.new 2 30) calls) 5).1 ≡ true)
    × (suc (streak 0 calls) ≡ max 2 1
        → (allow_at (record_failure_at (run (Resilience.new 2 30) calls) 4) 5).1
          ≡ (if ltb (4 + 30) instants then leb (4 + 30) 5 else true))
breaker-trips_example =
    breaker-trips 2 30 calls 4 5 (omega arith) (omega arith, (omega arith, omega arith))

run-IsValid_example : IsValid (run (Resilience.new 2 30) calls)
run-IsValid_example = run-IsValid 2 30 calls (omega arith) (ground arith)

abbrev retries : ResilienceConfig
retries = record {
  max_retries = 2;
  retry_backoff_ms = 200;
  retry_on_timeout = false;
  circuit_failure_threshold = 5;
  circuit_cooldown_secs = 30;
}

-- The upstream refuses one connection and then answers.
abbrev upstream : ℕ → Executed Text
upstream zero = error true false
upstream (suc _) = response (codes "ok")

send_with_retry-settles_example : Outcome retries upstream 0 (send_with_retry retries true upstream)
send_with_retry-settles_example = send_with_retry-settles retries upstream

abbrev to_config : Text
to_config = codes "/api/config"

builtins-reach_example :
    (Known (route_permission put to_config))
    × ((role_allows (codes "viewer") (route_permission put to_config) ≡ (
          to_read (route_permission put to_config)
          && not (on_config (route_permission put to_config))))
        × ((role_allows (codes "auditor") (route_permission put to_config) ≡ (
              to_read (route_permission put to_config)
              && not (on_config (route_permission put to_config))))
            × ((role_allows (codes "operator") (route_permission put to_config)
                  ≡ not (on_config (route_permission put to_config)))
                × (role_allows (codes "admin") (route_permission put to_config) ≡ true))))
builtins-reach_example = builtins-reach put to_config

abbrev session : AuthSession
session = record {
  username = codes "eve";
  role = codes "viewer";
  org = codes "acme";
  expires_at = 100;
  last_used = 10;
}

abbrev manager : AuthManager
manager = record {
  enabled = true;
  idle_timeout_secs = 0;
  api_keys = [];
  role_perms = (codes "viewer", record { patterns = codes "scans:read" ∷ [] }) ∷ [];
  sessions = (codes "t", session) ∷ [];
}

abbrev context : AuthContext
context = session_context manager session

session-accepted : (validate manager (codes "t") 20).1 ≡ some context
unfolding validate
session-accepted = refl

validate-accepts_example : Accepted manager (codes "t") 20 context
validate-accepts_example = validate-accepts manager (codes "t") 20 context session-accepted

no_key : find_key (codes "t") manager.api_keys ≡ none
unfolding find_key
no_key = refl

ended-refused_example :
    ((later : ℕ) → (validate (logout manager (codes "t")) (codes "t") later).1 ≡ none)
    × (((s : AuthSession) (now later : ℕ)
          → get_auth_session (codes "t") manager.sessions ≡ some s
          → is_over manager s now ≡ true
          → ((validate manager (codes "t") now).1 ≡ none)
            × ((validate (validate manager (codes "t") now).0 (codes "t") later).1 ≡ none))
        × ((other : Text)
            → text_eq (codes "t") other ≡ false
            → get_auth_session other (logout manager (codes "t")).sessions
              ≡ get_auth_session other manager.sessions))
ended-refused_example = ended-refused manager (codes "t") no_key

abbrev list_scans : Request
list_scans = record {
  method = get;
  method_name = codes "GET";
  path = codes "/api/scans";
  authorization = some (codes "Bearer t");
  x_api_key = none;
  x_tenant = some (codes "other");
}

list_scans-reaches : (auth_layer (λ c. c) manager list_scans 20 true).1 ≡ next (some context)
unfolding auth_layer
list_scans-reaches = refl

auth_layer-admits_example :
    (c : Text) × (caller : AuthContext) × ((credential list_scans ≡ some c)
      × (((validate manager c 20).1 ≡ some caller) × IsAdmitted list_scans caller context))
auth_layer-admits_example =
    auth_layer-admits (λ c. c) manager list_scans 20 true context list_scans-reaches

abbrev enforcing : CryptoEnforcementConfig
enforcing = record {
  enabled = true;
  mode = codes "Enforce";
  require = codes "hybrid";
  exempt_providers = [];
  block_unknown = false;
}

evaluate-blocks_example :
    (is_block (evaluate enforcing (codes "openai") (some PqcStatus.classical_weak)) ≡ true)
    ↔ IsStopped enforcing (codes "openai") (some PqcStatus.classical_weak)
evaluate-blocks_example = evaluate-blocks enforcing (codes "openai") (some PqcStatus.classical_weak)

abbrev default_roles : AuthManager
default_roles = record manager { role_perms = resolve_roles [] }

abbrev viewer_context : AuthContext
viewer_context = session_context default_roles session

viewer_lists : (auth_layer (λ c. c) default_roles list_scans 20 true).1 ≡ next (some viewer_context)
unfolding auth_layer resolve_roles
viewer_lists = refl

auth_layer-confines_viewers_example :
    (identity_only (codes "/api/scans") ≡ true)
    ⊎ ((to_read (route_permission get (codes "/api/scans"))
          && not (on_config (route_permission get (codes "/api/scans"))))
        ≡ true)
unfolding to_lowercase session_context
auth_layer-confines_viewers_example =
    auth_layer-confines_viewers (λ c. c) default_roles list_scans 20 true viewer_context refl refl
      viewer_lists
