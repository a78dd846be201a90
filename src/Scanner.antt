-- ===== src/Scanner.antt =====
-- crates/qw-scanner/src/types.rs: what a scan finds. `PqcStatus` is in Gateway/CryptoPolicy.
pub mod Algorithms
use quanta_watch.Prelude.{ℕ, Text, codes, Option, List}
use quanta_watch.Gateway.CryptoPolicy.{PqcStatus, unknown}

pub data FindingCategory : Type 0 where
  weak_algorithm short_key_length expired_certificate expiring_certificate : FindingCategory
  deprecated_protocol hardcoded_key missing_pqc pqc_ready vulnerable_library : FindingCategory
  classical_crypto unencrypted_at_rest stale_key_rotation : FindingCategory

-- The names are those of the constructors, in the source's `Display` and in serde's form alike.
unfoldable pub category_name : FindingCategory → Text
category_name weak_algorithm = codes "weak_algorithm"
category_name short_key_length = codes "short_key_length"
category_name expired_certificate = codes "expired_certificate"
category_name expiring_certificate = codes "expiring_certificate"
category_name deprecated_protocol = codes "deprecated_protocol"
category_name hardcoded_key = codes "hardcoded_key"
category_name missing_pqc = codes "missing_pqc"
category_name pqc_ready = codes "pqc_ready"
category_name vulnerable_library = codes "vulnerable_library"
category_name classical_crypto = codes "classical_crypto"
category_name unencrypted_at_rest = codes "unencrypted_at_rest"
category_name stale_key_rotation = codes "stale_key_rotation"

pub data FindingSeverity : Type 0 where
  info low medium high critical : FindingSeverity

unfoldable pub severity_name : FindingSeverity → Text
severity_name info = codes "info"
severity_name low = codes "low"
severity_name medium = codes "medium"
severity_name high = codes "high"
severity_name critical = codes "critical"

-- The derived order of severities.
unfoldable pub severity_rank : FindingSeverity → ℕ
severity_rank info = 0
severity_rank low = 1
severity_rank medium = 2
severity_rank high = 3
severity_rank critical = 4

pub data CryptoAssetType : Type 0 where
  tls_connection certificate signing_key encryption_key : CryptoAssetType
  hash_function crypto_library protocol_endpoint data_store : CryptoAssetType

unfoldable pub asset_type_name : CryptoAssetType → Text
asset_type_name tls_connection = codes "tls_connection"
asset_type_name certificate = codes "certificate"
asset_type_name signing_key = codes "signing_key"
asset_type_name encryption_key = codes "encryption_key"
asset_type_name hash_function = codes "hash_function"
asset_type_name crypto_library = codes "crypto_library"
asset_type_name protocol_endpoint = codes "protocol_endpoint"
asset_type_name data_store = codes "data_store"

pub data Confidence : Type 0 where
  high_confidence medium_confidence low_confidence : Confidence

pub data FindingStatus : Type 0 where
  opened acknowledged suppressed : FindingStatus

-- How much a finding of that kind of asset and that status is trusted.
unfoldable pub confidence_of : CryptoAssetType → PqcStatus → Confidence
confidence_of asset_type unknown = low_confidence
confidence_of tls_connection _ = high_confidence
confidence_of certificate _ = high_confidence
confidence_of protocol_endpoint _ = high_confidence
confidence_of data_store _ = high_confidence
confidence_of _ _ = medium_confidence

pub record FindingRecord : Type 0 where
  pub id : Text
  pub scan_id : Text
  pub category : FindingCategory
  pub severity : FindingSeverity
  pub title : Text
  pub description : Text
  pub asset_type : CryptoAssetType
  pub algorithm : Option Text
  pub pqc_status : PqcStatus
  pub location : Text
  pub remediation : Option Text
  pub created_at : ℕ
  pub confidence : Confidence
  pub evidence : List Text
  pub status : FindingStatus
  pub note : Option Text
