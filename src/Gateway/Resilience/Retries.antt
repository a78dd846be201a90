-- ===== src/Gateway/Resilience/Retries.antt =====
-- crates/qw-gateway/src/resilience.rs: which answer `send_with_retry` returns, and after how many
-- attempts.
use quanta_watch.Prelude.{
  ℕ, zero, suc, ◌+◌, ◌≤◌, ◌<◌, ◌==◌, ==_iff, ◌≡◌, ◌⊎◌, refl, sym, true, false, ◌&&◌, Bool-cases,
  Option, some, List, [], ◌∷◌, ltb, inl, inr, arith,
}
use quanta_watch.Gateway.Resilience.{
  ResilienceConfig, Executed, retryable, backoff, slept, send_loop, send_with_retry,
}

-- The backoffs of `count` attempts from `attempt` on.
unfoldable pub backoffs : ResilienceConfig → ℕ → ℕ → List ℕ
backoffs cfg attempt zero = []
backoffs cfg attempt (suc count) = backoff cfg attempt ∷ backoffs cfg (suc attempt) count

-- The attempt whose answer is returned: each before it failed in a way that may be retried, and it is
-- the last that is allowed or its answer is final.
pub record Settles {ℓ} {R : Type ℓ} (cfg : ResilienceConfig) (execute : ℕ → Executed R)
    (from last : ℕ) : Type 0 where
  pub before : (i : ℕ) → from ≤ i → i < last → retryable cfg (execute i) ≡ true
  pub final : (last ≡ cfg.max_retries) ⊎ (retryable cfg (execute last) ≡ false)

-- What a run of the loop from an attempt comes to.
abbrev pub Outcome {ℓ} :
    {R : Type ℓ} → ResilienceConfig → (ℕ → Executed R) → ℕ → Option (Executed R × List ℕ) → Type ℓ
Outcome cfg execute attempt sent =
    (count : ℕ) × ((attempt + count ≤ cfg.max_retries)
      × (Settles cfg execute attempt (attempt + count)
          × (sent ≡ some (execute (attempt + count), backoffs cfg attempt count))))

module _ {ℓ} {R : Type ℓ} (cfg : ResilienceConfig) (execute : ℕ → Executed R) where
  before-from :
      (attempt last : ℕ)
      → retryable cfg (execute attempt) ≡ true
      → Settles cfg execute (suc attempt) last
      → Settles cfg execute attempt last
  before-from attempt last e s = record {
    before = λ i l u. elim (Bool-cases (attempt == i)) [
      | inl q ↦ rw (sym ((==_iff attempt i).0 q)) e
      | inr q ↦ s.before i (ground (arith)) u
    ];
    final = s.final;
  }

  Settles-here :
      (attempt : ℕ)
      → attempt ≤ cfg.max_retries
      → (retryable cfg (execute attempt) && ltb attempt cfg.max_retries) ≡ false
      → Settles cfg execute attempt (attempt + 0)
  Settles-here attempt h e = record {
    before = λ i l u. absurd (omega (arith, l, u));
    final = elim (Bool-cases (retryable cfg (execute attempt))) [
      | inl q ↦ inl (ground arith)
      | inr q ↦ inr (ground arith)
    ];
  }

  later :
      (attempt : ℕ) (sent : Option (Executed R × List ℕ))
      → attempt < cfg.max_retries
      → retryable cfg (execute attempt) ≡ true
      → Outcome cfg execute (suc attempt) sent
      → Outcome cfg execute attempt (slept (backoff cfg attempt) sent)
  unfolding backoffs
  later attempt sent h e (count, (bound, (settles, q))) =
      let m : suc attempt + count ≡ attempt + suc count = omega arith in
      (
        suc count,
        (omega arith, (rw (sym m) (before-from attempt _ e settles), rw q (rw (sym m) refl))),
      )

  loop-settles :
      (fuel attempt : ℕ)
      → attempt ≤ cfg.max_retries
      → cfg.max_retries < fuel + attempt
      → Outcome cfg execute attempt (send_loop cfg execute fuel attempt)
  unfolding send_loop backoffs
  loop-settles zero attempt h f = absurd (omega arith)
  loop-settles (suc fuel) attempt h f =
      elim (Bool-cases (retryable cfg (execute attempt) && ltb attempt cfg.max_retries)) [
        | inr e ↦ (
          0,
          (
            omega arith,
            (
              Settles-here attempt h e,
              rw e (let z : attempt + 0 ≡ attempt = omega arith in rw z refl),
            ),
          ),
        )
        | inl e ↦ rw e (
            later attempt _ (ground arith) (ground arith)
              (loop-settles fuel (suc attempt) (ground arith) (omega arith)))
      ]

  -- `send_with_retry` always returns: the answer of some attempt n, at most `max_retries`, after the
  -- backoffs of the n attempts before it. Each of those failed in a way that may be retried, and either
  -- the n-th answer is final or n is `max_retries`. The request is one that can be cloned.
  pub send_with_retry-settles : Outcome cfg execute 0 (send_with_retry cfg true execute)
  unfolding send_with_retry
  send_with_retry-settles = loop-settles (suc cfg.max_retries) 0 (omega arith) (omega arith)
