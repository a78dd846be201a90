-- ===== src/Gateway/Resilience.antt =====
-- crates/qw-gateway/src/resilience.rs: the circuit breaker of each provider, and the retries of a
-- request. Instants and the cooldown are in nanoseconds; a `u32` counter wraps, as in a release build.
-- What the HTTP client answers to each attempt is a parameter.
pub mod Breaker
pub mod Retries
use quanta_watch.Prelude.{
  ℕ, zero, suc, ◌+◌, ◌-◌, ◌*◌, ◌%◌, ◌^◌, min, max, Text, text_eq, Bool, true, false, ◌&&◌, ◌||◌,
  Option, none, some, List, [], ◌∷◌, leb, ltb, if◌then◌else◌,
}

pub data CircuitState : Type 0 where
  closed opened half_open : CircuitState

pub record Inner : Type 0 where
  pub consecutive_failures : ℕ
  pub state : CircuitState
  pub open_until : Option ℕ

pub record CircuitBreaker : Type 0 where
  pub failure_threshold : ℕ
  pub cooldown : ℕ
  pub inner : Inner

unfoldable pub new : ℕ → ℕ → CircuitBreaker
new failure_threshold cooldown = record {
  failure_threshold = max failure_threshold 1;
  cooldown = cooldown;
  inner = record { consecutive_failures = 0; state = closed; open_until = none };
}

-- An open circuit: its deadline against the time.
unfoldable pub allow_open : CircuitBreaker → Option ℕ → ℕ → CircuitBreaker × Bool
allow_open b none now = (b, true)
allow_open b (some until) now =
    if leb until now
    then (record b { inner = record b.inner { state = half_open } }, true)
    else (b, false)

unfoldable pub allow_at : CircuitBreaker → ℕ → CircuitBreaker × Bool
unfolding allow_open
allow_at b now = elim b.inner.state [
  | closed ↦ (b, true)
  | half_open ↦ (b, true)
  | opened ↦ allow_open b b.inner.open_until now
]

unfoldable pub record_success : CircuitBreaker → CircuitBreaker
record_success b = record b {
  inner = record { consecutive_failures = 0; state = closed; open_until = none };
}

abbrev pub is_half_open : CircuitState → Bool
is_half_open half_open = true
is_half_open closed = false
is_half_open opened = false

-- The first instant that the clock cannot represent: an `Instant` has an `i64` of seconds.
abbrev pub instants : ℕ
instants = 9_223_372_036_854_775_808_000_000_000

-- `now + self.cooldown` panics where it is out of range. The circuit is open by then, its old deadline
-- stays, and the next call takes the poisoned lock all the same.
unfoldable pub deadline : Option ℕ → (now cooldown : ℕ) → Option ℕ
deadline old now cooldown = if ltb (now + cooldown) instants then some (now + cooldown) else old

unfoldable pub record_failure_at : CircuitBreaker → ℕ → CircuitBreaker
unfolding deadline
record_failure_at b now =
    let failures = (b.inner.consecutive_failures + 1) % 2 ^ 32 in
    if is_half_open b.inner.state || leb b.failure_threshold failures
    then record b {
      inner = record {
        consecutive_failures = failures;
        state = opened;
        open_until = deadline b.inner.open_until now b.cooldown;
      };
    }
    else record b { inner = record b.inner { consecutive_failures = failures } }

-- What the module reads of the configuration.
pub record ResilienceConfig : Type 0 where
  pub max_retries : ℕ
  pub retry_backoff_ms : ℕ
  pub retry_on_timeout : Bool
  pub circuit_failure_threshold : ℕ
  pub circuit_cooldown_secs : ℕ

pub record Resilience : Type 0 where
  pub config : ResilienceConfig
  pub breakers : List (Text × CircuitBreaker)

unfoldable pub find_breaker : Text → List (Text × CircuitBreaker) → Option CircuitBreaker
unfolding text_eq
find_breaker provider [] = none
find_breaker provider ((name, b) ∷ breakers) =
    let rest = find_breaker provider breakers in if text_eq name provider then some b else rest

-- `breaker`: the provider's breaker, made on its first use.
unfoldable pub breaker : Resilience → Text → Resilience × CircuitBreaker
unfolding find_breaker new
breaker r provider =
    let fresh =
      new r.config.circuit_failure_threshold (r.config.circuit_cooldown_secs * 1_000_000_000) in
    elim (find_breaker provider r.breakers) [
      | some b ↦ (r, b)
      | none ↦ (record r { breakers = (provider, fresh) ∷ r.breakers }, fresh)
    ]

-- What `client.execute` answers: a response, or an error and what kind it says it is.
pub data Executed {ℓ} (R : Type ℓ) : Type ℓ where
  response : R → Executed R
  error : (is_connect is_timeout : Bool) → Executed R

unfoldable pub retryable {ℓ} : {R : Type ℓ} → ResilienceConfig → Executed R → Bool
retryable cfg (response _) = false
retryable cfg (error is_connect is_timeout) = is_connect || (cfg.retry_on_timeout && is_timeout)

-- `retry_backoff_ms.saturating_mul(1u64 << attempt)`
unfoldable pub backoff : ResilienceConfig → ℕ → ℕ
backoff cfg attempt = min (cfg.retry_backoff_ms * (2 ^ (attempt % 64))) (2 ^ 64 - 1)

abbrev pub slept {ℓ} : {R : Type ℓ} → ℕ → Option (R × List ℕ) → Option (R × List ℕ)
slept ms none = none
slept ms (some (r, sleeps)) = some (r, ms ∷ sleeps)

-- The loop of `send_with_retry` on fuel: the answer, and the milliseconds of each sleep.
unfoldable pub send_loop {ℓ} :
    {R : Type ℓ} → ResilienceConfig → (ℕ → Executed R) → ℕ → ℕ → Option (Executed R × List ℕ)
unfolding retryable backoff
send_loop cfg execute zero attempt = none
send_loop cfg execute (suc fuel) attempt =
    let rest = send_loop cfg execute fuel (suc attempt) in
    if retryable cfg (execute attempt) && ltb attempt cfg.max_retries
    then slept (backoff cfg attempt) rest
    else some (execute attempt, [])

-- `send_with_retry`: a request that cannot be cloned is sent once.
unfoldable pub send_with_retry {ℓ} :
    {R : Type ℓ} → ResilienceConfig → Bool → (ℕ → Executed R) → Option (Executed R × List ℕ)
unfolding send_loop
send_with_retry cfg clones execute =
    if clones then send_loop cfg execute (suc cfg.max_retries) 0 else some (execute 0, [])
