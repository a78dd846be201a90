-- ===== src/Gateway/Resilience/Breaker.antt =====
-- crates/qw-gateway/src/resilience.rs: when a circuit breaker opens and how long it stays open.
use quanta_watch.Prelude.{
  ℕ, suc, ◌+◌, ◌%◌, ◌^◌, max, ◌<◌, ◌≡◌, refl, true, false, Bool-cases, Option, none, some, List, [],
  ◌∷◌, leb, ltb, All, ◌∙◌, if◌then◌else◌, inl, inr, arith,
}
use quanta_watch.Gateway.Resilience.{
  CircuitState, closed, opened, half_open, CircuitBreaker, new, allow_at, record_success,
  record_failure_at, deadline, instants, allow_open,
}

-- The calls on a breaker.
pub data Call : Type 0 where
  allow : (now : ℕ) → Call
  success : Call
  failure : (now : ℕ) → Call

unfoldable pub call : CircuitBreaker → Call → CircuitBreaker
call b (allow now) = (allow_at b now).0
call b success = record_success b
call b (failure now) = record_failure_at b now

unfoldable pub run : CircuitBreaker → List Call → CircuitBreaker
unfolding call
run b [] = b
run b (c ∷ calls) = run (call b c) calls

-- How many failures the calls end with, since the last success.
unfoldable pub streak : ℕ → List Call → ℕ
streak n [] = n
streak n (allow _ ∷ calls) = streak n calls
streak n (success ∷ calls) = streak 0 calls
streak n (failure _ ∷ calls) = streak (suc n) calls

-- No run of failures in the calls reaches the threshold.
abbrev pub Below : ℕ → ℕ → List Call → Type 0
Below threshold n [] = n < threshold
Below threshold n (allow _ ∷ calls) = Below threshold n calls
Below threshold n (success ∷ calls) = Below threshold 0 calls
Below threshold n (failure _ ∷ calls) = (suc n < threshold) × Below threshold (suc n) calls

abbrev pub counting : ℕ → ℕ → ℕ → CircuitBreaker
counting threshold cooldown n = record {
  failure_threshold = threshold;
  cooldown = cooldown;
  inner = record { consecutive_failures = n; state = closed; open_until = none };
}

failure-counts :
    (threshold cooldown n now : ℕ)
    → threshold < 2 ^ 32
    → suc n < threshold
    → record_failure_at (counting threshold cooldown n) now ≡ counting threshold cooldown (suc n)
unfolding record_failure_at
failure-counts threshold cooldown n now w h =
    let m : (n + 1) % 2 ^ 32 ≡ suc n = omega arith in
    let e : leb threshold (suc n) ≡ false = ground arith in rw m (rw e refl)

failure-opens :
    (threshold cooldown n now : ℕ)
    → threshold < 2 ^ 32
    → suc n ≡ threshold
    → record_failure_at (counting threshold cooldown n) now ≡ record {
      failure_threshold = threshold;
      cooldown = cooldown;
      inner = record {
        consecutive_failures = threshold;
        state = opened;
        open_until = deadline none now cooldown;
      };
    }
unfolding record_failure_at
failure-opens threshold cooldown n now w h =
    let m : (n + 1) % 2 ^ 32 ≡ threshold = omega arith in
    let e : leb threshold threshold ≡ true = ground arith in rw m (rw e refl)

run-counts :
    (threshold cooldown n : ℕ) (calls : List Call)
    → threshold < 2 ^ 32
    → Below threshold n calls
    → run (counting threshold cooldown n) calls ≡ counting threshold cooldown (streak n calls)
unfolding run streak allow_at record_success
run-counts threshold cooldown n [] w h = refl
run-counts threshold cooldown n (allow now ∷ calls) w h = run-counts threshold cooldown n calls w h
run-counts threshold cooldown n (success ∷ calls) w h = run-counts threshold cooldown 0 calls w h
run-counts threshold cooldown n (failure now ∷ calls) w h =
    rw (failure-counts threshold cooldown n now w h.0)
      (run-counts threshold cooldown (suc n) calls w h.1)

streak-bound :
    (threshold n : ℕ) (calls : List Call) → Below threshold n calls → streak n calls < threshold
unfolding streak
streak-bound threshold n [] h = h
streak-bound threshold n (allow now ∷ calls) h = streak-bound threshold n calls h
streak-bound threshold n (success ∷ calls) h = streak-bound threshold 0 calls h
streak-bound threshold n (failure now ∷ calls) h = streak-bound threshold (suc n) calls h.1

tripped-allows :
    (threshold cooldown t now : ℕ)
    → (allow_at
        (record {
          failure_threshold = threshold;
          cooldown = cooldown;
          inner = record {
            consecutive_failures = threshold;
            state = opened;
            open_until = deadline none t cooldown;
          };
        })
        now).1
      ≡ (if ltb (t + cooldown) instants then leb (t + cooldown) now else true)
unfolding allow_at deadline
tripped-allows threshold cooldown t now = ground arith

-- A new breaker, after calls in which no run of failures since a success has reached its threshold
-- (a `u32`, at least 1), allows every request; when one more failure, at `t`, completes such a run,
-- it allows a request at `now` exactly when the cooldown since `t` is over. Where the end of the cooldown
-- is past what the clock can represent, it allows every request then too.
pub breaker-trips :
    (threshold cooldown : ℕ) (calls : List Call) (t now : ℕ)
    → threshold < 2 ^ 32
    → Below (max threshold 1) 0 calls
    → let b = run (new threshold cooldown) calls in
      ((allow_at b now).1 ≡ true)
      × (suc (streak 0 calls) ≡ max threshold 1
          → (allow_at (record_failure_at b t) now).1
            ≡ (if ltb (t + cooldown) instants then leb (t + cooldown) now else true))
unfolding new
breaker-trips threshold cooldown calls t now w h =
    let w' : max threshold 1 < 2 ^ 32 = omega arith in
    rw (run-counts (max threshold 1) cooldown 0 calls w' h) (
      unfold allow_at in refl,
      λ e.
          rw (failure-opens (max threshold 1) cooldown (streak 0 calls) t w' e)
            (tripped-allows (max threshold 1) cooldown t now),
    )

abbrev pub breaker_of : ℕ → ℕ → ℕ → CircuitState → Option ℕ → CircuitBreaker
breaker_of threshold cooldown n state until = record {
  failure_threshold = threshold;
  cooldown = cooldown;
  inner = record { consecutive_failures = n; state = state; open_until = until };
}

-- What holds of a breaker between calls: a closed one has no deadline and is below its threshold, any
-- other has a deadline.
abbrev pub IsConsistent : ℕ → ℕ → CircuitState → Option ℕ → Type 0
IsConsistent threshold n closed until = (n < threshold) × (until ≡ none)
IsConsistent threshold n opened until = (t : ℕ) × (until ≡ some t)
IsConsistent threshold n half_open until = (t : ℕ) × (until ≡ some t)

pub record IsValid (b : CircuitBreaker) : Type 0 where
  pub positive : 0 < b.failure_threshold
  pub narrow : b.failure_threshold < 2 ^ 32
  pub consistent :
      IsConsistent b.failure_threshold b.inner.consecutive_failures b.inner.state b.inner.open_until

IsValid-allow :
    (threshold cooldown n : ℕ) (state : CircuitState) (until : Option ℕ) (now : ℕ)
    → IsValid (breaker_of threshold cooldown n state until)
    → IsValid (allow_at (breaker_of threshold cooldown n state until) now).0
unfolding allow_at
IsValid-allow threshold cooldown n closed until now v = v
IsValid-allow threshold cooldown n half_open until now v = v
IsValid-allow threshold cooldown n opened none now v = v
IsValid-allow threshold cooldown n opened (some t) now v = elim (Bool-cases (leb t now)) [
  | inl e ↦ rw e (record { positive = v.positive; narrow = v.narrow; consistent = v.consistent })
  | inr e ↦ rw e v
]

deadline-some :
    (old : Option ℕ) (now cooldown : ℕ)
    → now + cooldown < instants
    → deadline old now cooldown ≡ some (now + cooldown)
unfolding deadline
deadline-some old now cooldown h = ground arith

IsValid-failure :
    (threshold cooldown n : ℕ) (state : CircuitState) (until : Option ℕ) (now : ℕ)
    → now + cooldown < instants
    → IsValid (breaker_of threshold cooldown n state until)
    → IsValid (record_failure_at (breaker_of threshold cooldown n state until) now)
unfolding record_failure_at
IsValid-failure threshold cooldown n closed until now r v =
    elim (Bool-cases (leb threshold ((n + 1) % 2 ^ 32))) [
      | inl e ↦ rw e (record {
        positive = v.positive;
        narrow = v.narrow;
        consistent = (now + cooldown, deadline-some until now cooldown r);
      })
      | inr e ↦ rw e (record {
        positive = v.positive;
        narrow = v.narrow;
        consistent = (ground arith, v.consistent.1);
      })
    ]
IsValid-failure threshold cooldown n opened until now r v =
    elim (Bool-cases (leb threshold ((n + 1) % 2 ^ 32))) [
      | inl e ↦ rw e (record {
        positive = v.positive;
        narrow = v.narrow;
        consistent = (now + cooldown, deadline-some until now cooldown r);
      })
      | inr e ↦
          rw e (record { positive = v.positive; narrow = v.narrow; consistent = v.consistent })
    ]
IsValid-failure threshold cooldown n half_open until now r v = record {
  positive = v.positive;
  narrow = v.narrow;
  consistent = (now + cooldown, deadline-some until now cooldown r);
}

-- A cooldown that begins with the call ends at an instant that the clock can represent.
abbrev pub EndsInRange : ℕ → Call → Type 0
EndsInRange cooldown (allow now) = Unit {0}
EndsInRange cooldown success = Unit {0}
EndsInRange cooldown (failure now) = now + cooldown < instants

call-cooldown : (b : CircuitBreaker) (c : Call) → (call b c).cooldown ≡ b.cooldown
unfolding call allow_at allow_open record_success record_failure_at
call-cooldown b c = ground arith

call-IsValid :
    (b : CircuitBreaker) (c : Call) → EndsInRange b.cooldown c → IsValid b → IsValid (call b c)
unfolding call record_success
call-IsValid b success r v = record {
  positive = v.positive;
  narrow = v.narrow;
  consistent = (v.positive, refl);
}
call-IsValid b (allow now) r v =
    IsValid-allow b.failure_threshold b.cooldown b.inner.consecutive_failures b.inner.state
      b.inner.open_until now v
call-IsValid b (failure now) r v =
    IsValid-failure b.failure_threshold b.cooldown b.inner.consecutive_failures b.inner.state
      b.inner.open_until now r v

IsValid-run :
    (b : CircuitBreaker) (cooldown : ℕ) (calls : List Call)
    → b.cooldown ≡ cooldown
    → All (EndsInRange cooldown) calls
    → IsValid b
    → IsValid (run b calls)
unfolding run
IsValid-run b cooldown [] same r v = v
IsValid-run b cooldown (c ∷ calls) same r v =
    IsValid-run (call b c) cooldown calls (call-cooldown b c ∙ same) r.1
      (call-IsValid b c (rw same (r.0)) v)

new-IsValid : (threshold cooldown : ℕ) → threshold < 2 ^ 32 → IsValid (new threshold cooldown)
unfolding new
new-IsValid threshold cooldown w = record {
  positive = omega arith;
  narrow = omega arith;
  consistent = (omega arith, refl);
}

-- After any calls on a new breaker with a `u32` threshold, where the cooldown from a failure's time ends
-- at an instant that the clock can represent, a closed circuit is below its threshold and
-- has no deadline, and any other has one: `allow_at` never meets an open circuit without a deadline.
pub run-IsValid :
    (threshold cooldown : ℕ) (calls : List Call)
    → threshold < 2 ^ 32
    → All (EndsInRange cooldown) calls
    → IsValid (run (new threshold cooldown) calls)
unfolding new
run-IsValid threshold cooldown calls w r =
    IsValid-run (new threshold cooldown) cooldown calls refl r (new-IsValid threshold cooldown w)
