-- ===== src/Gateway/RateLimit.antt =====
-- crates/qw-gateway/src/ratelimit.rs: the token buckets of the public listeners.
-- An instant is its nanoseconds. The source counts tokens in `f64`; here they are counted exactly, in
-- units of which a token is 3 * 10 ^ 12, so that every rate is a whole number of units a nanosecond:
-- n requests a minute are 50 * n, and the floor of 0.001 tokens a second is 3.
pub mod Buckets
pub mod Bound
use quanta_watch.Prelude.{
  ℕ, ◌+◌, ◌-◌, ◌*◌, ◌^◌, min, max, Text, codes, text_eq, split_on, trim, ends_with, has_text, Bool,
  true, false, ◌||◌, Option, none, some, List, [], ◌∷◌, ◌++◌, keep, length, ltb, leb, if◌then◌else◌,
}

abbrev pub token : ℕ
token = 3 * 10 ^ 12

pub record Bucket : Type 0 where
  pub tokens : ℕ
  pub last : ℕ

pub record Limit : Type 0 where
  pub refill : ℕ  -- units a nanosecond
  pub burst : ℕ  -- units

-- `RateLimitConfig` of config.rs.
pub record RateLimitConfig : Type 0 where
  pub enabled : Bool
  pub requests_per_minute : ℕ
  pub burst : ℕ
  pub login_per_minute : ℕ
  pub login_burst : ℕ
  pub trust_forwarded_for : Bool

pub data Class : Type 0 where
  api login : Class

unfoldable pub as_str : Class → Text
as_str api = codes "api"
as_str login = codes "login"

abbrev pub Buckets : Type 0
Buckets = List (Text × Bucket)

pub record RateLimiter : Type 0 where
  pub enabled : Bool
  pub api_limit : Limit
  pub login_limit : Limit
  pub trust_forwarded : Bool
  pub buckets : Buckets
  pub max_keys : ℕ

-- `Limit` from a budget a minute and a burst.
unfoldable pub limit_of : ℕ → ℕ → Limit
limit_of per_minute burst = record { refill = max (per_minute * 50) 3; burst = max burst 1 * token }

unfoldable pub new : RateLimitConfig → RateLimiter
unfolding limit_of
new cfg = record {
  enabled = cfg.enabled;
  api_limit = limit_of cfg.requests_per_minute cfg.burst;
  login_limit = limit_of cfg.login_per_minute cfg.login_burst;
  trust_forwarded = cfg.trust_forwarded_for;
  buckets = [];
  max_keys = 50_000;
}

unfoldable pub limit_for : RateLimiter → Class → Limit
limit_for rl api = rl.api_limit
limit_for rl login = rl.login_limit

-- `format!("{}:{}", class.as_str(), ip)`
unfoldable pub key_of : Class → Text → Text
unfolding as_str
key_of class ip = as_str class ++ (codes ":" ++ ip)

-- The map of buckets: `get`, and an insertion that overwrites.
unfoldable pub lookup : Text → Buckets → Option Bucket
unfolding text_eq
lookup key [] = none
lookup key ((k, b) ∷ buckets) =
    let rest = lookup key buckets in if text_eq k key then some b else rest

unfoldable pub store : Text → Bucket → Buckets → Buckets
unfolding text_eq
store key b [] = (key, b) ∷ []
store key b ((k, c) ∷ buckets) =
    let rest = store key b buckets in if text_eq k key then (key, b) ∷ buckets else (k, c) ∷ rest

-- `retain` of the keys that the limit has had no time to refill.
unfoldable pub prune : Limit → ℕ → Buckets → Buckets
prune limit now = keep (λ entry. ltb ((now - entry.1.last) * limit.refill) limit.burst)

-- The refill of a bucket up to now, capped at the burst.
unfoldable pub refilled : Limit → ℕ → Bucket → ℕ
refilled limit now b = min (b.tokens + (now - b.last) * limit.refill) limit.burst

-- The bucket of a key, or a full one.
unfoldable pub entry_of : Limit → ℕ → Option Bucket → Bucket
entry_of limit now none = record { tokens = limit.burst; last = now }
entry_of limit now (some b) = b

unfoldable pub pruned : RateLimiter → Limit → ℕ → Buckets
unfolding prune
pruned rl limit now =
    if ltb rl.max_keys (length rl.buckets) then prune limit now rl.buckets else rl.buckets

-- The end of `check_at`: what is left of the tokens is stored, less one token where there is one.
unfoldable pub spend : RateLimiter → Text → ℕ → Buckets → ℕ → RateLimiter × Bool
spend rl key now buckets tokens =
    if leb token tokens
    then (
      record rl { buckets = store key (record { tokens = tokens - token; last = now }) buckets },
      true,
    )
    else (record rl { buckets = store key (record { tokens = tokens; last = now }) buckets }, false)

unfoldable pub check_at : RateLimiter → Class → Text → ℕ → RateLimiter × Bool
check_at rl class ip now =
    let limit = limit_for rl class in
    let key = key_of class ip in
    let buckets = pruned rl limit now in
    let tokens = refilled limit now (entry_of limit now (lookup key buckets)) in
    if rl.enabled then spend rl key now buckets tokens else (rl, true)

unfoldable pub classify : Text → Class
unfolding ends_with has_text
classify path =
    if ends_with path (codes "/api/auth/login") || has_text path (codes "/api/auth/oidc/")
    then login
    else api

-- What of a request `client_ip` reads: two headers and the peer's address, each if it is there.
pub record Origin : Type 0 where
  pub x_forwarded_for : Option Text
  pub x_real_ip : Option Text
  pub peer : Option Text

abbrev pub nonempty : Text → Option Text
nonempty [] = none
nonempty (c ∷ s) = some (c ∷ s)

unfoldable pub forwarded_ip : Origin → Option Text
unfolding trim split_on
forwarded_ip origin = elim origin.x_forwarded_for [
  | none ↦ none
  | some xff ↦ nonempty (trim ((split_on b',' xff).0))
]

unfoldable pub real_ip : Origin → Option Text
unfolding trim
real_ip origin = elim origin.x_real_ip [ none ↦ none | some xr ↦ nonempty (trim xr) ]

abbrev pub peer_ip : Origin → Text
peer_ip origin = elim origin.peer [ none ↦ codes "unknown" | some ip ↦ ip ]

unfoldable pub client_ip : Origin → Bool → Text
unfolding forwarded_ip real_ip
client_ip origin trust_forwarded =
    if trust_forwarded
    then (elim (forwarded_ip origin) [
      | some ip ↦ ip
      | none ↦ elim (real_ip origin) [ some ip ↦ ip | none ↦ peer_ip origin ]
    ])
    else peer_ip origin

-- What the middleware does with a request: it runs the next layer, or it answers 429 and counts the
-- rejection under the class.
pub data Verdict : Type 0 where
  next : Verdict
  too_many_requests : Class → Verdict

unfoldable pub rate_limit_layer : RateLimiter → Text → Origin → ℕ → RateLimiter × Verdict
unfolding check_at spend classify client_ip limit_for key_of lookup store pruned refilled entry_of
rate_limit_layer rl path origin now =
    let class = classify path in
    let (rl', allowed) = check_at rl class (client_ip origin rl.trust_forwarded) now in
    if rl.enabled
    then (if ends_with path (codes "/health") || ends_with path (codes "/api/health")
        then (rl, next)
        else if allowed
        then (rl', next)
        else (rl', too_many_requests class))
    else (rl, next)
