-- ===== src/Gateway/CryptoPolicy.antt =====
-- crates/qw-gateway/src/crypto_policy.rs: the verdict on a flow whose channel has a known posture, or
-- none yet. `PqcStatus` is that of crates/qw-scanner/src/types.rs.
pub mod Verdicts
use quanta_watch.Prelude.{
  ℕ, ◌≤◌, ◌<◌, ◌≡◌, refl, Text, codes, text_eq, to_lowercase, eq_ignore_ascii_case, has_item, Bool,
  true, false, not, ◌&&◌, ◌||◌, Option, none, some, List, leb, if◌then◌else◌, arith, ◌↔◌,
  Bool-cases, inl, inr,
}

pub data PqcStatus : Type 0 where
  pqc_ready hybrid classical_secure classical_weak unknown : PqcStatus

unfoldable pub to_string : PqcStatus → Text
to_string pqc_ready = codes "pqc_ready"
to_string hybrid = codes "hybrid"
to_string classical_secure = codes "classical_secure"
to_string classical_weak = codes "classical_weak"
to_string unknown = codes "unknown"

pub record CryptoEnforcementConfig : Type 0 where
  pub enabled : Bool
  pub mode : Text
  pub require : Text
  pub exempt_providers : List Text
  pub block_unknown : Bool

pub data CryptoVerdict : Type 0 where
  allow : CryptoVerdict
  flag block : (channel required : Text) → CryptoVerdict

unfoldable pub rank : PqcStatus → ℕ
rank pqc_ready = 4
rank hybrid = 3
rank classical_secure = 2
rank classical_weak = 1
rank unknown = 0

unfoldable pub required_rank : Text → ℕ
unfolding text_eq to_lowercase
required_rank require =
    let r = to_lowercase require in
    if text_eq r (codes "pqc") || text_eq r (codes "pqc_ready")
    then 4
    else if text_eq r (codes "hybrid")
    then 3
    else if text_eq r (codes "classical_secure") || text_eq r (codes "classical")
    then 2
    else 3

-- The rank and the label of a channel.
unfoldable pub channel_rank : Option PqcStatus → ℕ × Text
unfolding rank to_string
channel_rank (some s) = (rank s, to_string s)
channel_rank none = (0, codes "unknown")

unfoldable pub is_none : Option PqcStatus → Bool
is_none none = true
is_none (some _) = false

unfoldable pub evaluate : CryptoEnforcementConfig → Text → Option PqcStatus → CryptoVerdict
unfolding required_rank channel_rank is_none has_item to_lowercase text_eq
evaluate cfg provider channel =
    let enforce = eq_ignore_ascii_case cfg.mode (codes "enforce") in
    let (chan_rank, chan_label) = channel_rank channel in
    if not cfg.enabled || has_item cfg.exempt_providers provider
    then allow
    else if is_none channel && not cfg.block_unknown
    then allow
    else if leb (required_rank cfg.require) chan_rank
    then allow
    else if enforce
    then block chan_label (to_lowercase cfg.require)
    else flag chan_label (to_lowercase cfg.require)
