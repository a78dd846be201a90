-- ===== src/Gateway/CryptoPolicy/Verdicts.antt =====
-- crates/qw-gateway/src/crypto_policy.rs: when a flow is blocked, and that a better channel is never
-- worse off.
use quanta_watch.Prelude.{
  ◌<◌, ℕ, ◌≡◌, ◌↔◌, refl, sym, Text, codes, eq_ignore_ascii_case, has_item, Bool, true, false, not,
  ◌&&◌, Option, leb, arith,
}
use quanta_watch.Gateway.CryptoPolicy.{
  PqcStatus, CryptoEnforcementConfig, CryptoVerdict, allow, flag, block, required_rank,
  channel_rank, is_none, evaluate,
}

-- Whether a flow is stopped.
abbrev pub is_block : CryptoVerdict → Bool
is_block (block _ _) = true
is_block (flag _ _) = false
is_block allow = false

-- What stops a flow of a provider over a channel.
pub record IsStopped (cfg : CryptoEnforcementConfig) (provider : Text) (channel : Option PqcStatus)
    : Type 0 where
  pub enabled : cfg.enabled ≡ true
  pub held : has_item cfg.exempt_providers provider ≡ false
  pub enforced : eq_ignore_ascii_case cfg.mode (codes "enforce") ≡ true
  pub below : (channel_rank channel).0 < required_rank cfg.require
  pub scanned : is_none channel ≡ true → cfg.block_unknown ≡ true

unknown_allowed : (b c : Bool) → (b ≡ true → c ≡ true) → (b && not c) ≡ false
unknown_allowed true true h = refl
unknown_allowed true false h = sym (h refl)
unknown_allowed false c h = refl

stopped-blocked :
    (cfg : CryptoEnforcementConfig) (provider : Text) (channel : Option PqcStatus)
    → IsStopped cfg provider channel
    → is_block (evaluate cfg provider channel) ≡ true
unfolding evaluate
stopped-blocked cfg provider channel h =
    let scanned : is_none channel && not cfg.block_unknown ≡ false =
      unknown_allowed _ _ h.scanned in
    let below : leb (required_rank cfg.require) (channel_rank channel).0 ≡ false = ground arith in
    rw h.enabled (rw h.held (rw scanned (rw below (rw h.enforced refl))))

blocked-IsStopped :
    (cfg : CryptoEnforcementConfig) (provider : Text) (channel : Option PqcStatus)
    → is_block (evaluate cfg provider channel) ≡ true
    → IsStopped cfg provider channel
unfolding evaluate
blocked-IsStopped cfg provider channel h = record {
  enabled = ground arith;
  held = ground arith;
  enforced = ground arith;
  below = ground arith;
  scanned = λ n. ground arith;
}

-- A flow is blocked exactly when enforcement is on and in its enforcing mode, the provider is not
-- exempt, the channel is below the required rank, and, where it was not scanned, unknown channels are
-- to be blocked.
pub evaluate-blocks :
    (cfg : CryptoEnforcementConfig) (provider : Text) (channel : Option PqcStatus)
    → (is_block (evaluate cfg provider channel) ≡ true) ↔ IsStopped cfg provider channel
evaluate-blocks cfg provider channel =
    (blocked-IsStopped cfg provider channel, stopped-blocked cfg provider channel)

-- How severe a verdict is: a flow is let through, let through with a flag, or stopped.
abbrev pub severity : CryptoVerdict → ℕ
severity allow = 0
severity (flag _ _) = 1
severity (block _ _) = 2
